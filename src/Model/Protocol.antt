-- ===== src/Model/Protocol.antt =====
-- model.rs: what goes into the reducer (events) and what comes out of it (commands).
use first_fork.Common.{ℕ, ℤ, Option, List, String, TreeMap}
use first_fork.Model.Service.{ServiceId, ResourceId, ProbeResult}
use first_fork.Model.Backup.{BackupPhase}

pub data TaskKind : Type 0 where
  recovery backup disk_monitor apt_updates docker_updates daily_summary : TaskKind

pub data EffectResult : Type 0 where
  success : (stdout stderr : String) (duration_ms : ℕ) → EffectResult
  failed : (exit_code : ℤ) (stdout stderr : String) (duration_ms : ℕ) → EffectResult
  killed : (signal : ℤ) (duration_ms : ℕ) → EffectResult
  helper_error : (message : String) → EffectResult

pub data RemediationAction : Type 0 where
  restart_service restic_unlock docker_restart mark_maintenance clear_maintenance :
      RemediationAction
  clear_flapping run_disk_cleanup trigger_backup clear_breaker : RemediationAction

pub data CommandRequest : Type 0 where
  trigger : TaskKind → CommandRequest
  remediate :
      (action : RemediationAction) (target : Option ServiceId) (source reason : String)
      → CommandRequest

pub data HttpCommandResponse : Type 0 where
  accepted : (detail : String) → HttpCommandResponse
  rejected : (reason : String) → HttpCommandResponse
  error : (error : String) → HttpCommandResponse

pub data SignalKind : Type 0 where
  shutdown reload : SignalKind

-- state.rs: one sample of the disk.
pub record DiskSample : Type 0 where
  pub mono : ℕ
  pub usage_percent : ℕ
  pub free_bytes : ℕ

-- The channel on which an HTTP command is answered stays with the runtime.
pub data Event : Type 0 where
  tick : (due_tasks : List TaskKind) → Event
  startup_probe_results probe_results : List ProbeResult → Event
  disk_sample : DiskSample → Event
  effect_completed : (cmd_id : ℕ) (result : EffectResult) → Event
  http_command : CommandRequest → Event
  signal : SignalKind → Event
  startup_recovery : (persisted_backup : BackupPhase) → Event

pub data AlertPriority : Type 0 where
  min low default high urgent : AlertPriority

pub record Alert : Type 0 where
  pub title : String
  pub body : String
  pub priority : AlertPriority
  pub tags : String

pub data CleanupLevel : Type 0 where
  standard aggressive : CleanupLevel

pub data IncidentKind : Type 0 where
  service_unrecoverable backup_failed disk_critical docker_daemon_failure : IncidentKind

pub record IncidentReport : Type 0 where
  pub kind : IncidentKind
  pub service : Option ServiceId
  pub timestamp_epoch_secs : ℕ
  pub details : TreeMap String String

pub data Command : Type 0 where
  run_probes : List ServiceId → Command
  restart_service : (id : ServiceId) (unit reason : String) → Command
  stop_service : (id : ServiceId) (unit reason : String) → Command
  start_service : (id : ServiceId) (unit : String) → Command
  restart_docker_daemon : (reason : String) → Command
  restic_unlock : Command
  restic_backup : (paths : List String) → Command
  restic_forget : (daily weekly monthly : ℕ) → Command
  restic_check : (subset_percent : ℕ) → Command
  send_alert : Alert → Command
  persist_backup_state : BackupPhase → Command
  persist_maintenance publish_snapshot : Command
  run_disk_cleanup : (level : CleanupLevel) → Command
  check_disk_usage check_apt_updates check_docker_updates : Command
  write_incident : IncidentReport → Command
  update_llm_context : Command
  trigger_pico_claw : (event_type : String) (details : TreeMap String String) → Command
  notify_watchdog : Command
  shutdown : (grace_secs : ℕ) → Command
  acquire_lease : (resource : ResourceId) (holder : String) → Command
  release_lease : (resource : ResourceId) → Command
