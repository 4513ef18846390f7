-- ===== src/Policy/Recovery/Tests.antt =====
-- Decisions on a database that is down, in a fresh state.
use first_fork.Common.{
  ◌≡◌, ◌↔◌, refl, false, [], ◌∷◌, TreeMap, get, insert, set_insert, Memᴰ, string_ord,
}
use first_fork.Model.{ServiceId, ProbeResult, timeout, critical, max_restart_attempts}
use first_fork.Breaker.{allows_recovery}
use first_fork.Config.{find_service}
use first_fork.Graph.{DepGraph, classify_failures, find_root_cause, dependencies_of}
use first_fork.Config.Fixtures.{small_config, db}
use first_fork.State.{SvcState, new_service, is_in_maintenance}
use first_fork.Policy.Recovery.{
  restart, evaluate, decide, decide_all, unhealthy_of, evaluate_single, docker_is_root,
}
use first_fork.Policy.Recovery.Single.{MayRestart, attempt_after, evaluate_single-restart}
use first_fork.Policy.Recovery.Plan.{Basis, evaluate-Basis}

abbrev down : ProbeResult
down = ProbeResult.unhealthy "db" timeout 1000

abbrev states : TreeMap ServiceId SvcState
states = ("db", new_service) ∷ []

abbrev lone_graph : DepGraph
lone_graph = record { parents = ("db", []) ∷ []; all_ids = "db" ∷ []; topo_order = "db" ∷ [] }

evaluate_single-restart_example :
    (evaluate_single "db" down new_service db [] false 500 ≡ restart "db" 1 critical) ↔ (
      MayRestart "db" down new_service db [] false 500
      × ("db" ≡ db.unit)
      × (1 ≡ attempt_after new_service.status)
      × (critical ≡ db.severity))
evaluate_single-restart_example =
    evaluate_single-restart "db" down new_service db [] false 500 "db" 1 critical

decides_restart :
    Memᴰ
      ("db", restart "db" 1 critical)
      (evaluate (down ∷ []) states small_config lone_graph 500).decisions
unfolding evaluate decide decide_all evaluate_single new_service find_service unhealthy_of
    set_insert docker_is_root is_in_maintenance allows_recovery max_restart_attempts
    classify_failures find_root_cause dependencies_of get insert
decides_restart = Memᴰ.head refl

evaluate-Basis_example :
    let plan = evaluate (down ∷ []) states small_config lone_graph 500 in
    Basis
      (down ∷ [])
      states
      small_config
      plan.blocked
      (docker_is_root small_config plan.root_causes)
      500
      "db"
      (restart "db" 1 critical)
evaluate-Basis_example =
    evaluate-Basis (down ∷ []) states small_config lone_graph 500 "db" (restart "db" 1 critical)
      decides_restart
