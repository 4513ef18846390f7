-- ===== src/Policy/Recovery.antt =====
-- policy/recovery.rs: what one recovery cycle decides for each service. The source also fills a map
-- of probes which nothing reads; it is left out.
pub mod Single
pub mod Plan
pub mod Alerts
mod Tests
pub use Alerts.{coalesce_alert}
use first_fork.Common.{
  ℕ, ◌+◌, Bool, true, false, not, ◌&&◌, ◌||◌, Option, none, some, List, [], ◌∷◌, String, str_eq,
  TreeMap, get, insert, set_insert, filter, any, length, leb, ltb, add32, saturating_sub,
  if◌then◌else◌, string_ord,
}
use first_fork.Model.{
  ServiceId, ServiceKind, systemd, docker_systemd, virtual, Severity, max_restart_attempts,
  ProbeResult, service_id, is_healthy, error_text,
}
use first_fork.Breaker.{allows_recovery}
use first_fork.Config.{CratonConfig, ServiceEntry, find_service}
use first_fork.Graph.{DepGraph, classify_failures}
use first_fork.State.{ServiceStatus, SvcState, is_in_maintenance}

pub data Decision : Type 0 where
  healthy : Decision
  restart : (unit : String) (attempt : ℕ) (severity : Severity) → Decision
  failed : (error : String) → Decision
  blocked_by_dependency : (root : ServiceId) → Decision
  breaker_open in_maintenance docker_root_cause : Decision

pub record RecoveryPlan : Type 0 where
  pub decisions : TreeMap ServiceId Decision
  pub docker_restart_needed : Bool
  pub root_causes : List ServiceId
  pub blocked : TreeMap ServiceId ServiceId

-- `attempt + 1` of a service that is being recovered or was seen unhealthy, else 1.
abbrev pub current_attempt : ServiceStatus → ℕ
current_attempt (ServiceStatus.recovering attempt _) = add32 attempt 1
current_attempt (ServiceStatus.unhealthy _ _ consecutive) = add32 consecutive 1
current_attempt _ = 1

abbrev probe_error_text : ProbeResult → String
probe_error_text (ProbeResult.unhealthy _ error _) = error_text error
probe_error_text (ProbeResult.healthy _ _) = "unknown"

abbrev pub is_docker : ServiceKind → Bool
is_docker docker_systemd = true
is_docker _ = false

abbrev pub is_virtual : ServiceKind → Bool
is_virtual virtual = true
is_virtual _ = false

-- The last restart is less than the service's cooldown ago.
abbrev pub cooling_down : Option ℕ → ℕ → ℕ → Bool
cooling_down none cooldown now = false
cooling_down (some last) cooldown now = ltb (saturating_sub now last) cooldown

unfoldable pub evaluate_single :
    ServiceId
    → ProbeResult
    → SvcState
    → ServiceEntry
    → TreeMap ServiceId ServiceId
    → Bool
    → ℕ
    → Decision
evaluate_single sid probe state config blocked docker now =
    if is_healthy probe
    then healthy
    else if is_in_maintenance state now
    then in_maintenance
    else elim (get sid blocked) [
      | some root ↦ blocked_by_dependency root
      | none ↦
          if docker && is_docker config.kind
          then docker_root_cause
          else if not (allows_recovery state.breaker now)
          then breaker_open
          else if cooling_down state.last_restart_mono config.restart_cooldown_secs now
          then breaker_open
          else if ltb (max_restart_attempts config.severity) (current_attempt state.status)
          then failed (probe_error_text probe)
          else restart config.unit (current_attempt state.status) config.severity
    ]

-- `unhealthy_set`.
unfoldable pub unhealthy_of : List ProbeResult → List ServiceId → List ServiceId
unhealthy_of [] s = s
unhealthy_of (r ∷ rs) s = unhealthy_of rs (if is_healthy r then s else set_insert (service_id r) s)

abbrev has_kind : CratonConfig → (ServiceKind → Bool) → ServiceId → Bool
has_kind config p id = elim (find_service config id) [ none ↦ false | some s ↦ p s.kind ]

-- Two services run by Docker are down as root causes, or the daemon's own node is.
unfoldable pub docker_is_root : CratonConfig → List ServiceId → Bool
docker_is_root config roots =
    leb 2 (length (filter (has_kind config is_docker) roots))
    || any (λ id. has_kind config is_virtual id && str_eq id "docker_daemon") roots

module _ (config : CratonConfig) (states : TreeMap ServiceId SvcState)
    (blocked : TreeMap ServiceId ServiceId) (docker : Bool) (now : ℕ) where
  -- The decision on one result; none for a service that is not configured or has no state.
  unfoldable pub decide : ProbeResult → Option Decision
  decide r = elim (find_service config (service_id r)) [
    | none ↦ none
    | some entry ↦ elim (get (service_id r) states) [
      | none ↦ none
      | some s ↦ some (evaluate_single (service_id r) r s entry blocked docker now)
    ]
  ]

  record_decision : ProbeResult → TreeMap ServiceId Decision → TreeMap ServiceId Decision
  record_decision r m = elim (decide r) [ none ↦ m | some d ↦ insert (service_id r) d m ]

  pub decide_all : List ProbeResult → TreeMap ServiceId Decision → TreeMap ServiceId Decision
  unfolding record_decision
  decide_all [] m = m
  decide_all (r ∷ rs) m = decide_all rs (record_decision r m)

abbrev is_empty : List ServiceId → Bool
is_empty [] = true
is_empty (_ ∷ _) = false

unfoldable pub evaluate :
    List ProbeResult → TreeMap ServiceId SvcState → CratonConfig → DepGraph → ℕ → RecoveryPlan
unfolding record_decision decide_all
evaluate results states config graph now =
    let bad = unhealthy_of results [] in
    let roots = (classify_failures graph bad).0 in
    let blocked = (classify_failures graph bad).1 in
    let docker = docker_is_root config roots in
    record {
      decisions = decide_all config states blocked docker now results [];
      docker_restart_needed = docker && not (is_empty bad);
      root_causes = roots;
      blocked = blocked;
    }
