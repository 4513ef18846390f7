-- ===== src/Model/Backup.antt =====
-- model.rs: the phases of a backup, and what each keeps for crash recovery.
use first_fork.Common.{ℕ, Bool, true, false, Option, none, some, List, String}
use first_fork.Model.Service.{ServiceId}

-- Whether a service ran before the backup started.
pub record ServiceSnapshot : Type 0 where
  pub id : ServiceId
  pub was_running : Bool
  pub unit : String

pub record ServiceRestore : Type 0 where
  pub id : ServiceId
  pub unit : String
  pub attempts : ℕ
  pub docker_restarted : Bool

pub data BackupPhase : Type 0 where
  idle : BackupPhase
  locked restic_unlocking : (run_id : String) → BackupPhase
  services_stopping restic_running :
      (run_id : String) (pre_backup_state : List ServiceSnapshot) → BackupPhase
  services_starting : (run_id : String) (remaining : List ServiceRestore) → BackupPhase
  services_verifying : (run_id : String) (started : List ServiceId) → BackupPhase
  retention_running verifying : (run_id : String) → BackupPhase

abbrev pub is_idle : BackupPhase → Bool
is_idle idle = true
is_idle _ = false

abbrev pub needs_service_recovery : BackupPhase → Bool
needs_service_recovery (services_stopping _ _) = true
needs_service_recovery (restic_running _ _) = true
needs_service_recovery (services_starting _ _) = true
needs_service_recovery (services_verifying _ _) = true
needs_service_recovery _ = false

abbrev pub needs_restic_unlock : BackupPhase → Bool
needs_restic_unlock (restic_unlocking _) = true
needs_restic_unlock (restic_running _ _) = true
needs_restic_unlock _ = false

abbrev pub pre_backup_services : BackupPhase → Option (List ServiceSnapshot)
pre_backup_services (services_stopping _ pre) = some pre
pre_backup_services (restic_running _ pre) = some pre
pre_backup_services _ = none
