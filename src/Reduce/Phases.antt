-- ===== src/Reduce/Phases.antt =====
-- Which phases of a backup follow each other, whatever the event.
pub mod Tasks
pub mod Loops
use first_fork.Common.{
  ℕ, ◌≡◌, ◌⊎◌, inl, inr, ◌∙◌, ap, sym, refl, Bool, true, false, Option, none, some, List, [], ◌∷◌,
  String, map, TreeMap, get, Bool-cases, Option-cases, arith, string_ord, if◌then◌else◌,
}
use first_fork.Model.{
  ServiceId, ServiceSnapshot, ProbeResult, service_id, BackupPhase, backup_repo, idle, is_idle,
  restic_running, retention_running, verifying, TaskKind, backup, RemediationAction, Event,
  SignalKind, CommandRequest, EffectResult,
}
use first_fork.Config.{CratonConfig, ServiceEntry, find_service, backup_stop_services}
use first_fork.Graph.{DepGraph, classify_failures}
use first_fork.Policy.Backup.{CompensationAction, should_start, crash_compensation}
use first_fork.Policy.Recovery.{Decision, evaluate, unhealthy_of}
use first_fork.State.{State, SvcState}
use first_fork.Reduce.{handle_http_command, handle, reduce}
use first_fork.Reduce.Base.{Ctx, Texts}
use first_fork.Lease.{is_free}
use first_fork.Schedule.{WallClock}
use first_fork.Reduce.Backup.{start_backup, snapshot_of, run_id_at, is_pending, is_success}
use first_fork.Reduce.Backup.Cycle.{phase_after, handle_effect_completed-phase}
use first_fork.Reduce.Disk.{handle_disk_sample}
use first_fork.Reduce.Tick.{run_task, handle_tick}
use first_fork.Reduce.Probes.{
  Acc, apply_decision, apply_one, apply_each, observe, observe_all, handle_startup_probes,
  handle_probes, carry_out,
}
use first_fork.Reduce.Remediation.{
  act, conclude, handle_remediation, record_remediation, remediation_rate_limited,
}
use first_fork.Reduce.Startup.{compensate, compensate_all, handle_startup_recovery, handle_shutdown}
use Tasks.{Begins, handle_tick-Begins, handle_remediation-Begins}
use Loops.{phase-observe_all, phase-apply_each, phase-compensate_all}

-- A tick or an HTTP command, which may ask for a backup.
abbrev pub may_begin : Event → Bool
may_begin (Event.tick tasks) = true
may_begin (Event.http_command request) = true
may_begin _ = false

-- A phase in which the backup waits for an effect.
abbrev pub waits : BackupPhase → Bool
waits (restic_running run_id pre) = true
waits (retention_running run_id) = true
waits (verifying run_id) = true
waits _ = false

-- The event is the end of the effect that is pending, a success or not.
abbrev pub Ends : Option ℕ → Event → Bool → Type 0
Ends pending event won =
    (cmd_id : ℕ) × (result : EffectResult) × (event ≡ Event.effect_completed cmd_id result)
    × (is_pending pending cmd_id ≡ true)
    × (is_success result ≡ won)

-- From one phase to the next, with the event that does it.
pub data Follows (pending : Option ℕ) (verify : Bool) (event : Event)
    : BackupPhase → BackupPhase → Type 0 where
  stays :
      {p : BackupPhase}
      → ((won : Bool) → Ends pending event won → waits p ≡ false)
      → Follows pending verify event p p
  begins :
      {run_id : String} {pre : List ServiceSnapshot}
      → may_begin event ≡ true
      → Follows pending verify event idle (restic_running run_id pre)
  backed_up :
      {run_id : String} {pre : List ServiceSnapshot}
      → Ends pending event true
      → Follows pending verify event (restic_running run_id pre) (retention_running run_id)
  not_backed_up :
      {run_id : String} {pre : List ServiceSnapshot}
      → Ends pending event false
      → Follows pending verify event (restic_running run_id pre) idle
  pruned :
      {run_id : String}
      → Ends pending event true
      → verify ≡ true
      → Follows pending verify event (retention_running run_id) (verifying run_id)
  unverified :
      {run_id : String}
      → Ends pending event true
      → verify ≡ false
      → Follows pending verify event (retention_running run_id) idle
  not_pruned :
      {run_id : String}
      → Ends pending event false
      → Follows pending verify event (retention_running run_id) idle
  verified :
      {run_id : String} {won : Bool}
      → Ends pending event won
      → Follows pending verify event (verifying run_id) idle
  dropped :
      {p persisted : BackupPhase}
      → event ≡ Event.startup_recovery persisted
      → Follows pending verify event p idle

retention-Follows :
    (pending : Option ℕ) (event : Event) (verify : Bool) (run_id : String)
    → Ends pending event true
    → Follows pending verify event
        (retention_running run_id)
        (if verify then verifying run_id else idle)
retention-Follows pending event true run_id h = pruned h refl
retention-Follows pending event false run_id h = unverified h refl

module _ (pending : Option ℕ) (verify : Bool) (event : Event) where
  phase_after-Follows :
      (won : Bool) (p : BackupPhase)
      → Ends pending event won
      → Follows pending verify event p (phase_after won verify p)
  unfolding phase_after
  phase_after-Follows true (restic_running r pre) h = backed_up h
  phase_after-Follows false (restic_running r pre) h = not_backed_up h
  phase_after-Follows true (retention_running r) h = retention-Follows pending event verify r h
  phase_after-Follows false (retention_running r) h = not_pruned h
  phase_after-Follows won (verifying r) h = verified h
  phase_after-Follows won idle h = stays (λ w e. refl)
  phase_after-Follows won (BackupPhase.locked r) h = stays (λ w e. refl)
  phase_after-Follows won (BackupPhase.restic_unlocking r) h = stays (λ w e. refl)
  phase_after-Follows won (BackupPhase.services_stopping r pre) h = stays (λ w e. refl)
  phase_after-Follows won (BackupPhase.services_starting r pre) h = stays (λ w e. refl)
  phase_after-Follows won (BackupPhase.services_verifying r pre) h = stays (λ w e. refl)

  -- The event is the end of no effect.
  Quiet : Type 0
  Quiet = (won : Bool) → Ends pending event won → ⊥

  quiet-Follows : (p q : BackupPhase) → Quiet → q ≡ p → Follows pending verify event p q
  unfolding Quiet
  quiet-Follows p q quiet e = rw e (stays (λ won h. absurd (quiet won h)))

  Begins-Follows :
      (p q : BackupPhase)
      → Quiet
      → may_begin event ≡ true
      → Begins p q
      → Follows pending verify event p q
  Begins-Follows p q quiet may (inl e) = quiet-Follows p q quiet e
  Begins-Follows p q quiet may (inr (e, r, pre, h)) = rw (e, h) (begins may)

module _ (texts : Texts) (config : CratonConfig) (graph : DepGraph) (ctx : Ctx) where
  handle-Follows :
      (event : Event) (state : State)
      → Follows state.backup_pending_cmd config.backup.verify event state.backup_phase
          (handle texts config graph ctx event state).0.backup_phase
  unfolding handle handle_startup_probes handle_probes carry_out handle_disk_sample handle_shutdown
      handle_startup_recovery handle_http_command Quiet
  handle-Follows (Event.tick tasks) state =
      Begins-Follows _ _ _ _ _ (λ won (c, r, e, p, w). cc) refl
        (handle_tick-Begins texts config ctx tasks state)
  handle-Follows (Event.startup_probe_results results) state =
      quiet-Follows _ _ _ _ _ (λ won (c, r, e, p, w). cc)
        (phase-observe_all (classify_failures graph (unhealthy_of results [])).1 ctx.mono_secs
          results (record state { last_probe_cycle_mono = some ctx.mono_secs }))
  handle-Follows (Event.probe_results results) state =
      let state' = record state { last_probe_cycle_mono = some ctx.mono_secs } in
      let plan = evaluate results state'.services config graph ctx.mono_secs in
      quiet-Follows _ _ _ _ _ (λ won (c, r, e, p, w). cc)
        (phase-apply_each config ctx plan.decisions
          (record { state = state'; cmds = []; recovered = []; failures = [] }))
  handle-Follows (Event.disk_sample sample) state =
      quiet-Follows _ _ _ _ _ (λ won (c, r, e, p, w). cc) refl
  handle-Follows (Event.effect_completed cmd_id result) state =
      rw (handle_effect_completed-phase config ctx cmd_id result state)
        (elim (Bool-cases (is_pending state.backup_pending_cmd cmd_id)) [
          | inl e ↦ rw e (
              phase_after-Follows state.backup_pending_cmd config.backup.verify
                (Event.effect_completed cmd_id result) (is_success result) state.backup_phase
                (cmd_id, result, refl, e, refl))
          | inr e ↦ rw e (
              stays (λ won (c, r, same, p, w).
                let id : cmd_id ≡ c = cc in absurd (let no = rw id at e in ground (arith, p, no))))
        ])
  handle-Follows (Event.http_command (CommandRequest.trigger task)) state =
      Begins-Follows _ _ _ _ _ (λ won (c, r, e, p, w). cc) refl
        (handle_tick-Begins texts config ctx (task ∷ []) state)
  handle-Follows (Event.http_command (CommandRequest.remediate action target source reason)) state =
      Begins-Follows _ _ _ _ _ (λ won (c, r, e, p, w). cc) refl
        (handle_remediation-Begins texts config ctx action target source reason state)
  handle-Follows (Event.signal SignalKind.shutdown) state =
      quiet-Follows _ _ _ _ _ (λ won (c, r, e, p, w). cc) refl
  handle-Follows (Event.signal SignalKind.reload) state =
      quiet-Follows _ _ _ _ _ (λ won (c, r, e, p, w). cc) refl
  handle-Follows (Event.startup_recovery persisted) state =
      elim (phase-compensate_all texts ctx persisted
        (crash_compensation texts.debug_phase persisted) state) [
          | inl e ↦ quiet-Follows _ _ _ _ _ (λ won (c, r, e, p, w). cc) e
          | inr e ↦ rw e (dropped refl)
        ]

-- Until the daemon shuts down, every event moves the phase of the backup along one edge of the diagram, or
-- leaves it. A tick or an HTTP command begins a backup, only from `Idle` and at once with `ResticRunning`; the end
-- of the effect that the backup waits for always moves the phase on: from `ResticRunning` to
-- `RetentionRunning`, or to `Idle` when it failed, from `RetentionRunning` to `Verifying` when that is
-- configured, else to `Idle`, and from `Verifying` to `Idle`; recovery at startup may drop the phase. Nothing else
-- moves it. No edge leads to
-- `Locked`, to `ResticUnlocking` or to the three phases of services, which the documents list between these.
pub reduce-Follows :
    (texts : Texts) (config : CratonConfig) (graph : DepGraph) (ctx : Ctx) (event : Event)
    (state : State)
    → state.shutting_down ≡ false
    → Follows state.backup_pending_cmd config.backup.verify event state.backup_phase
        (reduce texts config graph ctx event state).0.backup_phase
unfolding reduce
reduce-Follows texts config graph ctx event state up = either state.shutting_down up
  where
    either :
        (down : Bool)
        → down ≡ false
        → Follows state.backup_pending_cmd config.backup.verify event state.backup_phase
            (if down then (state, []) else handle texts config graph ctx event state).0.backup_phase
    either true h = cc
    either false h = handle-Follows texts config graph ctx event state
