-- ===== src/Reduce/Probes.antt =====
-- reduce.rs: what a cycle of probes does to the state.
pub mod Service
pub mod Cycle
pub mod Orders
use Prim.Native.String.{◌++◌ as text_append}
use first_fork.Common.{
  ℕ, Bool, true, false, Option, none, some, List, [], ◌∷◌, ◌++◌, String, TreeMap, get, insert, join,
  show, if◌then◌else◌, string_ord,
}
use first_fork.Model.{
  ServiceId, ResourceId, ProbeResult, service_id, error_text, Severity, generates_incident, Command,
  restart_service, restart_docker_daemon, write_incident, update_llm_context, notify_watchdog,
  AlertPriority, service_unrecoverable,
}
use first_fork.Breaker.{record_restart, on_healthy_probe, maybe_transition}
use first_fork.History.{push}
use first_fork.Lease.{is_free}
use first_fork.Config.{CratonConfig, ServiceEntry, find_service}
use first_fork.Graph.{DepGraph, classify_failures}
use first_fork.Policy.Recovery.{
  Decision, restart, failed, blocked_by_dependency, breaker_open, in_maintenance, docker_root_cause,
  RecoveryPlan, evaluate, unhealthy_of, coalesce_alert,
}
use first_fork.State.{
  ServiceStatus, SvcState, State, RestartRecord, restarts_in_window, is_degraded,
}
use first_fork.Reduce.Base.{Ctx, Step, put_service, alert}

-- The status that the startup observation gives.
observed : TreeMap ServiceId ServiceId → ℕ → ProbeResult → ServiceStatus
observed blocked now (ProbeResult.healthy _ _) = ServiceStatus.healthy now
observed blocked now (ProbeResult.unhealthy sid error _) = elim (get sid blocked) [
  | some root ↦ ServiceStatus.blocked_by_dep root
  | none ↦ ServiceStatus.unhealthy now (error_text error) 1
]

unfoldable pub observe : TreeMap ServiceId ServiceId → ℕ → ProbeResult → State → State
unfolding observed
observe blocked now r state = elim (get (service_id r) state.services) [
  | none ↦ state
  | some svc ↦ put_service (service_id r) (record svc { status = observed blocked now r }) state
]

unfoldable pub observe_all : TreeMap ServiceId ServiceId → ℕ → List ProbeResult → State → State
unfolding observe
observe_all blocked now [] state = state
observe_all blocked now (r ∷ rs) state = observe_all blocked now rs (observe blocked now r state)

unfoldable pub handle_startup_probes : DepGraph → Ctx → List ProbeResult → State → Step
unfolding observe_all
handle_startup_probes graph ctx results state =
    let blocked = (classify_failures graph (unhealthy_of results [])).1 in
    (
      observe_all blocked ctx.mono_secs results
          (record state { last_probe_cycle_mono = some ctx.mono_secs }),
      [],
    )

-- The state, and the lists that the loop over the decisions fills.
pub record Acc : Type 0 where
  pub state : State
  pub cmds : List Command
  pub recovered : List ServiceId
  pub failures : List ServiceId

-- The new state of a service that is restarted.
unfoldable pub restarted : ServiceEntry → ℕ → ℕ → SvcState → SvcState
restarted entry attempt now svc =
    let svc' = record svc {
      status = ServiceStatus.recovering attempt now;
      last_restart_mono = some now;
      restart_history =
          push svc.restart_history (record { mono = now; attempt = attempt; success = false });
    } in
    record svc' {
      breaker =
          record_restart svc.breaker (restarts_in_window svc' now entry.breaker_window_secs)
            entry.max_restarts entry.breaker_cooldown_secs now;
    }

module _ (ctx : Ctx) (sid : ServiceId) (entry : ServiceEntry) (svc : SvcState) where
  apply_restart : String → ℕ → Acc → Acc
  apply_restart unit attempt acc =
      if is_free acc.state.leases (ResourceId.service sid) ctx.mono_secs
      then record acc {
        state = put_service sid (restarted entry attempt ctx.mono_secs svc) acc.state;
        cmds =
            acc.cmds
            ++ restart_service sid unit (text_append "unhealthy, attempt " (show attempt)) ∷ [];
      }
      else acc

  apply_failed : String → Acc → Acc
  apply_failed error acc = record acc {
    state =
        put_service sid (record svc { status = ServiceStatus.failed ctx.mono_secs error })
          acc.state;
    failures = acc.failures ++ sid ∷ [];
    cmds =
        acc.cmds
        ++ (if generates_incident entry.severity
            then write_incident (record {
              kind = service_unrecoverable;
              service = some sid;
              timestamp_epoch_secs = ctx.epoch_secs;
              details = ("error", error) ∷ [];
            })
              ∷ []
            else []);
  }

  apply_healthy : Acc → Acc
  apply_healthy acc = record acc {
    state =
        put_service sid
          (record svc {
            status = ServiceStatus.healthy ctx.mono_secs;
            breaker = on_healthy_probe svc.breaker;
          })
          acc.state;
    recovered = if is_degraded svc.status then acc.recovered ++ sid ∷ [] else acc.recovered;
  }

  unfoldable pub apply_decision : Decision → Acc → Acc
  unfolding apply_restart apply_failed apply_healthy
  apply_decision Decision.healthy acc = apply_healthy acc
  apply_decision (restart unit attempt severity) acc = apply_restart unit attempt acc
  apply_decision (failed error) acc = apply_failed error acc
  apply_decision (blocked_by_dependency root) acc = record acc {
    state = put_service sid (record svc { status = ServiceStatus.blocked_by_dep root }) acc.state;
  }
  apply_decision breaker_open acc = record acc {
    state =
        put_service sid (record svc { breaker = maybe_transition svc.breaker ctx.mono_secs })
          acc.state;
  }
  apply_decision in_maintenance acc = acc
  apply_decision docker_root_cause acc = acc

-- The body of the loop: a decision on a service that is not there is passed over.
unfoldable pub apply_one : CratonConfig → Ctx → ServiceId → Decision → Acc → Acc
apply_one config ctx sid decision acc = elim (get sid acc.state.services) [
  | none ↦ acc
  | some svc ↦ elim (find_service config sid) [
    | none ↦ acc
    | some entry ↦ apply_decision ctx sid entry svc decision acc
  ]
]

unfoldable pub apply_each : CratonConfig → Ctx → TreeMap ServiceId Decision → Acc → Acc
apply_each config ctx [] acc = acc
apply_each config ctx ((sid, decision) ∷ ds) acc =
    apply_each config ctx ds (apply_one config ctx sid decision acc)

unfoldable pub docker_commands : Bool → List Command
docker_commands true = restart_docker_daemon "correlated Docker service failures" ∷ []
docker_commands false = []

unfoldable pub failure_alerts : RecoveryPlan → List ServiceId → List Command
failure_alerts plan [] = []
failure_alerts plan (_ ∷ _) =
    let (title, body) = coalesce_alert plan.root_causes plan.blocked plan.docker_restart_needed in
    alert title body AlertPriority.urgent "rotating_light" ∷ []

unfoldable pub recovery_alerts : List ServiceId → List Command
recovery_alerts [] = []
recovery_alerts (id ∷ is) =
    alert "🔄 Восстановлены" (text_append "Автоматически восстановлены: " (join ", " (id ∷ is)))
      AlertPriority.default "white_check_mark"
    ∷ []

-- `apply_decisions` and `emit_alerts`, on empty lists.
unfoldable pub carry_out : CratonConfig → Ctx → RecoveryPlan → State → Acc
unfolding docker_commands failure_alerts recovery_alerts
carry_out config ctx plan state =
    let acc =
      apply_each config ctx plan.decisions
        (record { state = state; cmds = []; recovered = []; failures = [] }) in
    record acc {
      cmds =
          acc.cmds
          ++ (docker_commands plan.docker_restart_needed
              ++ (failure_alerts plan acc.failures ++ recovery_alerts acc.recovered));
    }

unfoldable pub handle_probes : CratonConfig → DepGraph → Ctx → List ProbeResult → State → Step
handle_probes config graph ctx results state =
    let state' = record state { last_probe_cycle_mono = some ctx.mono_secs } in
    let plan = evaluate results state'.services config graph ctx.mono_secs in
    let acc = carry_out config ctx plan state' in
    let final = acc.state in
    (
      record final {
        recovery_history = push final.recovery_history (record {
          mono = ctx.mono_secs;
          recovered = acc.recovered;
          failed = acc.failures;
          docker_restarted = plan.docker_restart_needed;
          duration_ms = 0;
        });
      },
      acc.cmds ++ update_llm_context ∷ notify_watchdog ∷ [],
    )
