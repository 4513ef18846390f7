-- ===== src/Reduce/Phases/Tasks.antt =====
-- A task or a remediation moves the phase of the backup only by beginning one.
use first_fork.Common.{
  ℕ, ◌≡◌, ◌⊎◌, inl, inr, ◌∙◌, ap, sym, refl, true, Option, none, some, List, [], ◌∷◌, String, map,
  Bool-cases, Option-cases, arith, string_ord,
}
use first_fork.Model.{
  ServiceId, ServiceSnapshot, BackupPhase, backup_repo, idle, is_idle, restic_running, TaskKind,
  backup, RemediationAction,
}
use first_fork.Config.{CratonConfig, find_service, backup_stop_services}
use first_fork.Policy.Backup.{should_start}
use first_fork.State.{State}
use first_fork.Reduce.Base.{Ctx, Texts}
use first_fork.Lease.{is_free}
use first_fork.Schedule.{WallClock}
use first_fork.Reduce.Backup.{start_backup, snapshot_of, run_id_at}
use first_fork.Reduce.Tick.{run_task, handle_tick}
use first_fork.Reduce.Remediation.{
  act, conclude, handle_remediation, record_remediation, remediation_rate_limited,
}

-- The phase is as before, or a backup began from `Idle`.
abbrev pub Begins : BackupPhase → BackupPhase → Type 0
Begins p q =
    (q ≡ p)
    ⊎ ((p ≡ idle) × (r : String) × (pre : List ServiceSnapshot) × (q ≡ restic_running r pre))

Begins-trans : (p q t : BackupPhase) → Begins p q → Begins q t → Begins p t
Begins-trans p q t (inl e) b = rw e at b
Begins-trans p q t (inr (e, r, pre, h)) (inl k) = inr (e, r, pre, cc)
Begins-trans p q t (inr (e, r, pre, h)) (inr (k, r', pre', h')) =
    absurd (let c : is_idle (restic_running r pre) ≡ is_idle idle = ap is_idle (sym h ∙ k) in cc)

is_idle-idle : (p : BackupPhase) → is_idle p ≡ true → p ≡ idle
is_idle-idle idle h = refl
is_idle-idle _ h = cc

starts-is_idle :
    (schedule : String) (now : WallClock) (last : Option ℕ) (p : BackupPhase)
    → should_start schedule now last p ≡ true
    → is_idle p ≡ true
unfolding should_start
starts-is_idle schedule now last p h = ground arith

module _ (texts : Texts) (config : CratonConfig) (ctx : Ctx) where
  start_backup-Begins :
      (state : State)
      → state.backup_phase ≡ idle
      → Begins state.backup_phase (start_backup config ctx state).0.backup_phase
  unfolding start_backup
  start_backup-Begins state h = elim (Bool-cases (is_free state.leases backup_repo ctx.mono_secs)) [
    | inl e ↦
        rw e (inr (h, run_id_at ctx, map (snapshot_of state) (backup_stop_services config), refl))
    | inr e ↦ rw e (inl refl)
  ]

  run_task-Begins :
      (task : TaskKind) (state : State)
      → Begins state.backup_phase (run_task texts config ctx task state).0.backup_phase
  unfolding run_task
  run_task-Begins TaskKind.recovery state = inl refl
  run_task-Begins backup state =
      elim (Bool-cases
        (should_start config.backup.schedule ctx.wall state.last_backup_day state.backup_phase)) [
          | inl e ↦ rw e (
              start_backup-Begins state
                (is_idle-idle state.backup_phase (starts-is_idle _ _ _ _ e)))
          | inr e ↦ rw e (inl refl)
        ]
  run_task-Begins TaskKind.disk_monitor state = inl refl
  run_task-Begins TaskKind.apt_updates state = inl refl
  run_task-Begins TaskKind.docker_updates state = inl refl
  run_task-Begins TaskKind.daily_summary state = inl refl

  pub handle_tick-Begins :
      (tasks : List TaskKind) (state : State)
      → Begins state.backup_phase (handle_tick texts config ctx tasks state).0.backup_phase
  unfolding handle_tick
  handle_tick-Begins [] state = inl refl
  handle_tick-Begins (task ∷ tasks) state =
      let state' = (run_task texts config ctx task state).0 in
      Begins-trans state.backup_phase state'.backup_phase _ (run_task-Begins task state)
        (handle_tick-Begins tasks state')

  outcome-Begins :
      (action : RemediationAction) (target : Option ServiceId) (source reason : String)
      (state : State)
      → Begins state.backup_phase
          (conclude texts config ctx source reason action target state
            (act texts config ctx source reason action target state)).0.backup_phase
  unfolding conclude act record_remediation
  outcome-Begins RemediationAction.restart_service none source reason state = inl refl
  outcome-Begins RemediationAction.restart_service (some sid) source reason state =
      elim (Option-cases (find_service config sid)) [
        | inl e ↦ rw (e, conclude) (inl refl)
        | inr (entry, e) ↦ rw (e, conclude) (inl refl)
      ]
  outcome-Begins RemediationAction.clear_breaker none source reason state = inl refl
  outcome-Begins RemediationAction.clear_breaker (some sid) source reason state = inl refl
  outcome-Begins RemediationAction.mark_maintenance none source reason state = inl refl
  outcome-Begins RemediationAction.mark_maintenance (some sid) source reason state = inl refl
  outcome-Begins RemediationAction.clear_maintenance none source reason state = inl refl
  outcome-Begins RemediationAction.clear_maintenance (some sid) source reason state = inl refl
  outcome-Begins RemediationAction.clear_flapping none source reason state = inl refl
  outcome-Begins RemediationAction.clear_flapping (some sid) source reason state = inl refl
  outcome-Begins RemediationAction.docker_restart target source reason state = inl refl
  outcome-Begins RemediationAction.restic_unlock target source reason state = inl refl
  outcome-Begins RemediationAction.run_disk_cleanup target source reason state = inl refl
  outcome-Begins RemediationAction.trigger_backup target source reason state =
      handle_tick-Begins (backup ∷ []) state

  pub handle_remediation-Begins :
      (action : RemediationAction) (target : Option ServiceId) (source reason : String)
      (state : State)
      → Begins state.backup_phase
          (handle_remediation texts config ctx action target source reason state).0.backup_phase
  unfolding handle_remediation record_remediation
  handle_remediation-Begins action target source reason state =
      elim (Bool-cases (remediation_rate_limited state action target ctx.mono_secs)) [
        | inl e ↦ rw e (inl refl)
        | inr e ↦ rw e (outcome-Begins action target source reason state)
      ]
