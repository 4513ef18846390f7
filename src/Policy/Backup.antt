-- ===== src/Policy/Backup.antt =====
-- policy/backup.rs: when a backup starts, its phases, and what a crash leaves to be done.
use Prim.Native.String.{◌++◌ as text_append}
use first_fork.Common.{
  ℕ, Bool, false, not, Option, none, some, List, [], ◌∷◌, ◌++◌, String, str_eq, map, filter, split,
  parse_u32, if◌then◌else◌,
}
use first_fork.Model.{
  ServiceId, ServiceSnapshot, ServiceRestore, BackupPhase, idle, locked, restic_unlocking,
  services_stopping, restic_running, services_starting, services_verifying, retention_running,
  verifying, is_idle, needs_restic_unlock, needs_service_recovery, pre_backup_services,
}
use first_fork.Schedule.{Schedule, daily, odd_days, WallClock, is_due}

infixl 5 ◌>>=◌
abbrev ◌>>=◌ {ℓ κ} : {A : Type ℓ} {B : Type κ} → Option A → (A → Option B) → Option B
none >>= f = none
some a >>= f = f a

-- The `match` on `parts[0]`.
named_schedule : String → ℕ → ℕ → Option Schedule
named_schedule kind hour minute =
    if str_eq kind "odd_days"
    then some (odd_days hour minute)
    else if str_eq kind "daily"
    then some (daily hour minute)
    else none

parse_parts : List String → Option Schedule
unfolding named_schedule
parse_parts (kind ∷ h ∷ m ∷ []) = do
  hour ← parse_u32 h
  minute ← parse_u32 m
  named_schedule kind hour minute
parse_parts _ = none

unfoldable pub parse_backup_schedule : String → Option Schedule
unfolding parse_parts
parse_backup_schedule s = parse_parts (split b':' s)

unfoldable pub should_start : String → WallClock → Option ℕ → BackupPhase → Bool
should_start schedule_str now last_backup_day phase =
    if not (is_idle phase) then false else elim (parse_backup_schedule schedule_str) [
      | none ↦ false
      | some schedule ↦ is_due schedule now last_backup_day
    ]

pub data CompensationAction : Type 0 where
  restic_unlock : CompensationAction
  start_service : (id : ServiceId) (unit : String) → CompensationAction
  report_invariant_violation : (message : String) → CompensationAction
  reset_to_idle : CompensationAction

-- The services that ran before, to be started again.
abbrev pub starts : List ServiceSnapshot → List CompensationAction
starts [] = []
starts (s ∷ ss) = if s.was_running then start_service s.id s.unit ∷ starts ss else starts ss

-- `debug_phase` is the derived `Debug` text of a phase, which the compiler generates.
module _ (debug_phase : BackupPhase → String) where
  unfoldable pub service_actions : BackupPhase → List CompensationAction
  service_actions phase =
      if needs_service_recovery phase
      then elim (pre_backup_services phase) [
        | some snapshots ↦ starts snapshots
        | none ↦
            report_invariant_violation (
              text_append "backup crash recovery lost pre_backup_state for phase "
                (debug_phase phase))
            ∷ []
      ]
      else []

  unfoldable pub crash_compensation : BackupPhase → List CompensationAction
  unfolding service_actions
  crash_compensation phase =
      if is_idle phase
      then []
      else ((if needs_restic_unlock phase then restic_unlock ∷ [] else [])
          ++ (service_actions phase ++ reset_to_idle ∷ []))

abbrev pub running : List ServiceSnapshot → List ServiceSnapshot
running = filter (λ s. s.was_running)

restore : ServiceSnapshot → ServiceRestore
restore s = record { id = s.id; unit = s.unit; attempts = 0; docker_restarted = false }

unfoldable pub next_phase : BackupPhase → String → List ServiceSnapshot → Bool → BackupPhase
unfolding restore
next_phase idle run_id pre verify = locked run_id
next_phase (locked _) run_id pre verify = restic_unlocking run_id
next_phase (restic_unlocking _) run_id pre verify = services_stopping run_id pre
next_phase (services_stopping _ _) run_id pre verify = restic_running run_id pre
next_phase (restic_running _ _) run_id pre verify =
    services_starting run_id (map restore (running pre))
next_phase (services_starting _ _) run_id pre verify =
    services_verifying run_id (map (λ s. s.id) (running pre))
next_phase (services_verifying _ _) run_id pre verify = retention_running run_id
next_phase (retention_running _) run_id pre verify = if verify then verifying run_id else idle
next_phase (verifying _) run_id pre verify = idle
