-- ===== src/State.antt =====
-- state.rs: the mutable state of the control loop. Times are monotonic seconds.
mod Services
unfoldable pub use Services.*
use first_fork.Common.{
  ℕ, ◌+◌, Bool, false, Option, none, List, [], ◌∷◌, ◌++◌, String, TreeMap, insert, any, str_eq,
  add64, u64_mod, if◌then◌else◌, arith, string_ord,
}
use first_fork.Model.{ServiceId, BackupPhase, idle, DiskSample}
use first_fork.History.{RingBuf}
use first_fork.History
use first_fork.Lease.{LeaseArbiter}
use first_fork.Lease
use first_fork.Config.{CratonConfig, ServiceEntry}

pub record BackupRecord : Type 0 where
  pub mono : ℕ
  pub success : Bool
  pub partial : Bool
  pub error : Option String
  pub duration_secs : ℕ

pub record RecoveryRecord : Type 0 where
  pub mono : ℕ
  pub recovered : List ServiceId
  pub failed : List ServiceId
  pub docker_restarted : Bool
  pub duration_ms : ℕ

pub record RemediationRecord : Type 0 where
  pub mono : ℕ
  pub action : String
  pub target : Option ServiceId
  pub source : String
  pub result : String
  pub error : Option String

pub record State : Type 0 where
  pub services : TreeMap ServiceId SvcState
  pub backup_phase : BackupPhase
  pub backup_history : RingBuf BackupRecord
  pub recovery_history : RingBuf RecoveryRecord
  pub disk_samples : RingBuf DiskSample
  pub remediation_log : RingBuf RemediationRecord
  pub leases : LeaseArbiter
  pub disk_usage_percent : Option ℕ
  pub disk_free_bytes : Option ℕ
  pub last_backup_day : Option ℕ
  pub last_apt_day : Option ℕ
  pub last_docker_day : Option ℕ
  pub last_summary_day : Option ℕ
  pub last_recovery_mono : Option ℕ
  pub last_probe_cycle_mono : Option ℕ
  pub last_disk_mono : Option ℕ
  pub backup_pending_cmd : Option ℕ
  pub consecutive_backup_failures : ℕ
  pub next_cmd_id : ℕ
  pub start_mono : ℕ
  pub shutting_down : Bool
  pub degraded_reasons : List String

new_services : List ServiceEntry → TreeMap ServiceId SvcState → TreeMap ServiceId SvcState
new_services [] m = m
new_services (s ∷ ss) m = new_services ss (insert s.id new_service m)

unfoldable pub new : CratonConfig → ℕ → State
unfolding new_services
new config start_mono = record {
  services = new_services config.services [];
  backup_phase = idle;
  backup_history = History.new 30 (omega arith);
  recovery_history = History.new 100 (omega arith);
  disk_samples = History.new 14 (omega arith);
  remediation_log = History.new 50 (omega arith);
  leases = Lease.new 7200;
  disk_usage_percent = none;
  disk_free_bytes = none;
  last_backup_day = none;
  last_apt_day = none;
  last_docker_day = none;
  last_summary_day = none;
  last_recovery_mono = none;
  last_probe_cycle_mono = none;
  last_disk_mono = none;
  backup_pending_cmd = none;
  consecutive_backup_failures = 0;
  next_cmd_id = 1;
  start_mono = start_mono;
  shutting_down = false;
  degraded_reasons = [];
}

unfoldable pub alloc_cmd_id : State → State × ℕ
alloc_cmd_id s = (record s { next_cmd_id = add64 s.next_cmd_id 1 }, s.next_cmd_id)

unfoldable pub mark_degraded : State → String → State
mark_degraded s reason =
    if any (λ existing. str_eq existing reason) s.degraded_reasons
    then s
    else record s { degraded_reasons = s.degraded_reasons ++ reason ∷ [] }
