-- ===== src/Runtime/Snapshot.antt =====
-- runtime.rs: how the daemon was started (`StartupKind`), and the snapshot that it publishes for the
-- HTTP server. Its JSON text is not modelled.
use first_fork.Common.{
  ℕ, Bool, Option, none, some, List, [], ◌∷◌, String, TreeMap, str_eq, if◌then◌else◌,
}
use first_fork.Model.{ServiceId, BackupPhase}
use first_fork.State.{
  State, SvcState, ServiceStatus, BackupRecord, RecoveryRecord, RemediationRecord,
}
use first_fork.Notify.Send.{NotifyRuntimeState}

pub data StartupKind : Type 0 where
  first_start daemon_restart host_boot unknown : StartupKind

unfoldable pub label : StartupKind → String
label first_start = "first_start"
label daemon_restart = "daemon_restart"
label host_boot = "host_boot"
label unknown = "unknown"

unfoldable pub alert_title : StartupKind → String
alert_title first_start = "🟢 Кратон запущен"
alert_title unknown = "🟢 Кратон запущен"
alert_title daemon_restart = "🟢 Кратон перезапущен"
alert_title host_boot = "🟢 Кратон запущен после загрузки хоста"

unfoldable pub alert_body : StartupKind → String
alert_body first_start = "Первый запуск демона или отсутствует сохранённая boot-сессия."
alert_body daemon_restart = "Демон перезапущен без новой загрузки хоста."
alert_body host_boot = "Обнаружена новая загрузка хоста."
alert_body unknown = "Тип запуска определить не удалось."

unfoldable pub classify_startup_kind : Option String → Option String → StartupKind
classify_startup_kind none previous = unknown
classify_startup_kind (some current) none = first_start
classify_startup_kind (some current) (some previous) =
    if str_eq current previous then daemon_restart else host_boot

pub record Snapshot : Type 0 where
  pub services : TreeMap ServiceId ServiceStatus
  pub backup_phase : BackupPhase
  pub disk_usage_percent : Option ℕ
  pub shutting_down : Bool
  pub backup_history : List BackupRecord
  pub recovery_history : List RecoveryRecord
  pub remediation_history : List RemediationRecord
  pub snapshot_epoch_secs : ℕ
  pub last_recovery_mono : Option ℕ
  pub last_probe_cycle_mono : Option ℕ
  pub startup_kind : String
  pub outbox_overflow : Bool
  pub degraded_reasons : List String
  pub notify_degraded : Bool
  pub notify_consecutive_failures : ℕ
  pub notify_last_success_epoch_secs : ℕ
  pub notify_last_failure_epoch_secs : ℕ

abbrev statuses : TreeMap ServiceId SvcState → TreeMap ServiceId ServiceStatus
statuses [] = []
statuses ((id, s) ∷ m) = (id, s.status) ∷ statuses m

unfoldable pub build_snapshot :
    State → StartupKind → (outbox_overflow : Bool) → NotifyRuntimeState → (now : ℕ) → Snapshot
unfolding label
build_snapshot state kind overflow notify now = record {
  services = statuses state.services;
  backup_phase = state.backup_phase;
  disk_usage_percent = state.disk_usage_percent;
  shutting_down = state.shutting_down;
  backup_history = state.backup_history.items;
  recovery_history = state.recovery_history.items;
  remediation_history = state.remediation_log.items;
  snapshot_epoch_secs = now;
  last_recovery_mono = state.last_recovery_mono;
  last_probe_cycle_mono = state.last_probe_cycle_mono;
  startup_kind = label kind;
  outbox_overflow = overflow;
  degraded_reasons = state.degraded_reasons;
  notify_degraded = notify.degraded;
  notify_consecutive_failures = notify.consecutive_failures;
  notify_last_success_epoch_secs = notify.last_success_epoch_secs;
  notify_last_failure_epoch_secs = notify.last_failure_epoch_secs;
}
