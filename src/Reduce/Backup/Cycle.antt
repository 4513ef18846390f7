-- ===== src/Reduce/Backup/Cycle.antt =====
-- How a backup goes on: the phase that follows the end of an effect, and what its end gives back.
use first_fork.Common.{
  ℕ, ◌≡◌, inl, inr, Bool, true, none, List, [], ◌∷◌, String, Memᴰ, Bool-cases, refl, arith,
  string_ord, if◌then◌else◌,
}
use mathlib.Core.List.Memᴰ
use first_fork.Model.{
  ServiceSnapshot, BackupPhase, idle, restic_running, retention_running, verifying, EffectResult,
  start_service, release_lease, service,
}
use first_fork.Config.{CratonConfig}
use first_fork.State.{State}
use first_fork.Reduce.Base.{Ctx}
use first_fork.Reduce.Backup.{
  start_commands, finalize_backup, handle_backup_failure, dispatch_phase, handle_backup_effect,
  handle_effect_completed, is_success, is_pending,
}

-- The phase after the effect that is waited for is over.
unfoldable pub phase_after : Bool → Bool → BackupPhase → BackupPhase
phase_after won verify (restic_running run_id pre) = if won then retention_running run_id else idle
phase_after won verify (retention_running run_id) =
    if won then (if verify then verifying run_id else idle) else idle
phase_after won verify (verifying run_id) = idle
phase_after won verify phase = phase

phase-dispatch_phase :
    (config : CratonConfig) (ctx : Ctx) (result : EffectResult) (phase : BackupPhase)
    (state : State)
    → state.backup_phase ≡ phase
    → (dispatch_phase config ctx result phase state).0.backup_phase
      ≡ phase_after (is_success result) config.backup.verify phase
unfolding dispatch_phase handle_backup_failure finalize_backup phase_after
phase-dispatch_phase config ctx result BackupPhase.idle state h = h
phase-dispatch_phase config ctx result (BackupPhase.locked r) state h = h
phase-dispatch_phase config ctx result (BackupPhase.restic_unlocking r) state h = h
phase-dispatch_phase config ctx result (BackupPhase.services_stopping r pre) state h = h
phase-dispatch_phase config ctx result (restic_running r pre) state h = ground arith
phase-dispatch_phase config ctx result (BackupPhase.services_starting r x) state h = h
phase-dispatch_phase config ctx result (BackupPhase.services_verifying r x) state h = h
phase-dispatch_phase config ctx result (retention_running r) state h = ground arith
phase-dispatch_phase config ctx result (verifying r) state h = refl

-- The end of the effect that the backup waits for moves the phase to `phase_after`, for every
-- result; the end of any other effect leaves the phase as it is.
pub handle_effect_completed-phase :
    (config : CratonConfig) (ctx : Ctx) (cmd_id : ℕ) (result : EffectResult) (state : State)
    → (handle_effect_completed config ctx cmd_id result state).0.backup_phase ≡ (
        if is_pending state.backup_pending_cmd cmd_id
        then phase_after (is_success result) config.backup.verify state.backup_phase
        else state.backup_phase)
unfolding handle_effect_completed handle_backup_effect
handle_effect_completed-phase config ctx cmd_id result state =
    elim (Bool-cases (is_pending state.backup_pending_cmd cmd_id)) [
      | inl h ↦ rw h (
          phase-dispatch_phase config ctx result state.backup_phase
            (record state { backup_pending_cmd = none }) refl)
      | inr h ↦ rw h refl
    ]

-- What is started again and freed: the services that ran before.
start_commands-mem :
    (ss : List ServiceSnapshot) (s : ServiceSnapshot)
    → Memᴰ s ss
    → s.was_running ≡ true
    → Memᴰ (start_service s.id s.unit) (start_commands ss)
      × Memᴰ (release_lease (service s.id)) (start_commands ss)
unfolding start_commands
start_commands-mem [] s m h = elim m [ ]
start_commands-mem (t ∷ ss) s (Memᴰ.head e) h =
    let r : t.was_running ≡ true = rw (← e) h in
    rw (r, e) (Memᴰ.head refl, Memᴰ.tail (Memᴰ.head refl))
start_commands-mem (t ∷ ss) s (Memᴰ.tail m) h =
    let (a, b) = start_commands-mem ss s m h in
    elim (Bool-cases t.was_running) [
      | inl e ↦ rw e (Memᴰ.tail (Memᴰ.tail a), Memᴰ.tail (Memᴰ.tail b))
      | inr e ↦ rw e (a, b)
    ]

-- When `restic backup` is over, whether it succeeded or not, every service that ran before the backup
-- is started again and its lease is given back.
pub handle_effect_completed-restores :
    (config : CratonConfig) (ctx : Ctx) (cmd_id : ℕ) (result : EffectResult) (state : State)
    (run_id : String) (pre : List ServiceSnapshot) (s : ServiceSnapshot)
    → is_pending state.backup_pending_cmd cmd_id ≡ true
    → state.backup_phase ≡ restic_running run_id pre
    → Memᴰ s pre
    → s.was_running ≡ true
    → let cmds = (handle_effect_completed config ctx cmd_id result state).1 in
      Memᴰ (start_service s.id s.unit) cmds × Memᴰ (release_lease (service s.id)) cmds
unfolding handle_effect_completed handle_backup_effect dispatch_phase handle_backup_failure
handle_effect_completed-restores config ctx cmd_id result state run_id pre s h p m r =
    let (a, b) = start_commands-mem pre s m r in
    elim (Bool-cases (is_success result)) [
      | inl e ↦ rw (h, p, e) (Memᴰ.append_left _ a, Memᴰ.append_left _ b)
      | inr e ↦ rw (h, p, e) (Memᴰ.append_left _ a, Memᴰ.append_left _ b)
    ]
