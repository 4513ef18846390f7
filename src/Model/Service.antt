-- ===== src/Model/Service.antt =====
-- model.rs: services, what they are leased as, how severe their failure is, and what a probe says.
use Prim.Native.Nat.Ordering.{lt, eq, gt}
use first_fork.Common.{
  ℕ, ℤ, ◌≡◌, ◌↔◌, Bool, true, false, Option, List, String, Ord, show, show_ℤ, Ordering, arith,
  compare_iff,
}
use Prim.Native.String.{compare, ◌++◌ as text_append}

abbrev pub ServiceId : Type 0
ServiceId = String

pub data ResourceId : Type 0 where
  service : ServiceId → ResourceId
  docker_daemon backup_repo disk_cleanup : ResourceId

-- The derived order: by constructor, then by field.
abbrev pub resource_cmp : ResourceId → ResourceId → Ordering
resource_cmp (service a) (service b) = compare a b
resource_cmp docker_daemon docker_daemon = eq
resource_cmp backup_repo backup_repo = eq
resource_cmp disk_cleanup disk_cleanup = eq
resource_cmp (service a) _ = lt
resource_cmp docker_daemon (service b) = gt
resource_cmp docker_daemon _ = lt
resource_cmp backup_repo disk_cleanup = lt
resource_cmp backup_repo _ = gt
resource_cmp disk_cleanup _ = gt

pub resource_cmp_iff : (a b : ResourceId) → (resource_cmp a b ≡ eq) ↔ (a ≡ b)
resource_cmp_iff (service a) (service b) = ground (arith, compare_iff a b)
resource_cmp_iff _ _ = ground arith

instance abbrev pub resource_ord : Ord ResourceId
resource_ord = record { cmp = resource_cmp; cmp_iff = resource_cmp_iff }

pub data ServiceKind : Type 0 where
  systemd docker_systemd virtual : ServiceKind

pub data Severity : Type 0 where
  info warning critical : Severity

unfoldable pub max_restart_attempts : Severity → ℕ
max_restart_attempts info = 1
max_restart_attempts warning = 2
max_restart_attempts critical = 3

unfoldable pub generates_incident : Severity → Bool
generates_incident critical = true
generates_incident _ = false

pub data StdoutCheck : Type 0 where
  contains not_contains : (pattern : String) → StdoutCheck
  json_field : (pointer expected : String) → StdoutCheck

pub data ProbeSpec : Type 0 where
  http : (url : String) (timeout_secs expect_status : ℕ) → ProbeSpec
  dns : (server : String) (port : ℕ) (query : String) (timeout_secs : ℕ) → ProbeSpec
  systemd_active : (unit : String) → ProbeSpec
  exec : (argv : List String) (timeout_secs : ℕ) (expect_stdout : Option StdoutCheck) → ProbeSpec

pub data ProbeError : Type 0 where
  connection_refused timeout : ProbeError
  http_status : (code : ℕ) → ProbeError
  dns_failure : (message : String) → ProbeError
  exec_failed : (exit_code : ℤ) (stderr : String) → ProbeError
  unexpected_output : (detail : String) → ProbeError
  dependency_unavailable : (root : ServiceId) → ProbeError

-- `Display` of a probe error.
unfoldable pub error_text : ProbeError → String
error_text connection_refused = "connection refused"
error_text timeout = "timeout"
error_text (http_status code) = text_append "HTTP " (show code)
error_text (dns_failure message) = text_append "DNS: " message
error_text (exec_failed code stderr) =
    text_append "exit " (text_append (show_ℤ code) (text_append ": " stderr))
error_text (unexpected_output detail) = text_append "unexpected output: " detail
error_text (dependency_unavailable root) = text_append "dependency unavailable: " root

pub data ProbeResult : Type 0 where
  healthy : (service : ServiceId) (latency_ms : ℕ) → ProbeResult
  unhealthy : (service : ServiceId) (error : ProbeError) (latency_ms : ℕ) → ProbeResult

abbrev pub service_id : ProbeResult → ServiceId
service_id (healthy s _) = s
service_id (unhealthy s _ _) = s

abbrev pub is_healthy : ProbeResult → Bool
is_healthy (healthy _ _) = true
is_healthy (unhealthy _ _ _) = false

-- The circuit breaker of one service.
pub data BreakerState : Type 0 where
  closed : BreakerState
  open_until : (until_mono_secs trip_count : ℕ) → BreakerState
  half_open : (probe_attempt previous_trip_count : ℕ) → BreakerState
