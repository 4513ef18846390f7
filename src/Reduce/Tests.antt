-- ===== src/Reduce/Tests.antt =====
-- Runs of the reducer on a small configuration.
use first_fork.Common.{
  ◌≡◌, ◌≤◌, ◌<◌, ◌⊎◌, ◌↔◌, refl, true, false, some, List, [], ◌∷◌, get, insert, set_insert, show,
  Memᴰ, string_ord,
}
use first_fork.Model.{
  ServiceSnapshot, restic_running, backup_repo, service, ProbeResult, timeout, success,
  helper_error, TaskKind, Event, restart_service, start_service, release_lease, run_disk_cleanup,
  max_restart_attempts, standard, aggressive, DiskSample, SignalKind, critical,
}
use first_fork.Lease.{is_free}
use first_fork.Lease
use first_fork.Breaker.{allows_recovery}
use first_fork.Policy.Recovery.{
  evaluate, decide, evaluate_single, unhealthy_of, docker_is_root, Decision,
}
use first_fork.Config.Fixtures.{small_config, cache}
use first_fork.Config.{backup_stop_services, find_service}
use first_fork.Graph.{classify_failures, find_root_cause, dependencies_of}
use first_fork.State.{State, new, new_service, is_in_maintenance}
use first_fork.Reduce.{reduce}
use first_fork.Reduce.Runs.{run_events, run_events-crash_compensation, run_events-shutdown}
use first_fork.Policy.Backup.{report_invariant_violation, crash_compensation}
use first_fork.Reduce.Base.{Ctx}
use first_fork.Reduce.Backup.{handle_effect_completed}
use first_fork.Reduce.Backup.Cycle.{handle_effect_completed-restores}
use first_fork.Reduce.Backup.Leases.{NotRunning, handle_effect_completed-keeps_lease}
use first_fork.Reduce.Disk.{handle_disk_sample}
use first_fork.Reduce.Disk.Thresholds.{handle_disk_sample-cleanup}
use first_fork.Reduce.Probes.Orders.{order, handle_probes-order}
use first_fork.Reduce.Phases.{Follows, reduce-Follows}
use first_fork.Reduce.Probes.{
  handle_probes, carry_out, apply_each, apply_one, apply_decision, restarted,
}
use first_fork.Reduce.Probes.Cycle.{Justified, handle_probes-Justified}
use first_fork.Reduce.Startup.{handle_startup_recovery}
use first_fork.Reduce.Startup.Compensation.{WasRunning, handle_startup_recovery-starts}
use first_fork.Reduce.Fixtures.{texts, ctx_at, graph, start}

abbrev db_down : List ProbeResult
db_down = ProbeResult.unhealthy "db" timeout 1000 ∷ []

restarts_db :
    Memᴰ
      (restart_service "db" "db" "unhealthy, attempt 1")
      (handle_probes small_config graph (ctx_at 500) db_down start).1
unfolding handle_probes carry_out apply_each apply_one apply_decision restarted evaluate decide
    evaluate_single new new_service find_service unhealthy_of set_insert docker_is_root
    is_in_maintenance allows_recovery max_restart_attempts classify_failures find_root_cause
    dependencies_of is_free get insert show Lease.new
restarts_db = Memᴰ.head refl

handle_probes-Justified_example : Justified small_config graph (ctx_at 500) db_down start "db"
handle_probes-Justified_example =
    handle_probes-Justified small_config graph (ctx_at 500) db_down start "db" "db"
      "unhealthy, attempt 1" restarts_db

reduce-Follows_example :
    Follows start.backup_pending_cmd small_config.backup.verify
      (Event.tick (TaskKind.backup ∷ []))
      start.backup_phase
      (reduce texts small_config graph
        (ctx_at 500)
        (Event.tick (TaskKind.backup ∷ []))
        start).0.backup_phase
unfolding new
reduce-Follows_example =
    reduce-Follows texts small_config graph (ctx_at 500) (Event.tick (TaskKind.backup ∷ [])) start
      refl

abbrev ran : ServiceSnapshot
ran = record { id = "db"; was_running = true; unit = "db" }

abbrev idled : ServiceSnapshot
idled = record { id = "cache"; was_running = false; unit = "cache" }

abbrev backing_up : State
backing_up = record start {
  backup_phase = restic_running "backup-500" (ran ∷ idled ∷ []);
  backup_pending_cmd = some 7;
}

handle_effect_completed-restores_example :
    let cmds =
      (handle_effect_completed small_config (ctx_at 900) 7 (helper_error "gone") backing_up).1 in
    Memᴰ (start_service "db" "db") cmds × Memᴰ (release_lease (service "db")) cmds
handle_effect_completed-restores_example =
    handle_effect_completed-restores small_config (ctx_at 900) 7 (helper_error "gone") backing_up
      "backup-500" (ran ∷ idled ∷ []) ran refl refl (Memᴰ.head refl) refl

cache_idled : NotRunning "cache" (ran ∷ idled ∷ [])
cache_idled s (Memᴰ.head e) q = absurd (cc)
cache_idled s (Memᴰ.tail (Memᴰ.head e)) q = cc
cache_idled s (Memᴰ.tail (Memᴰ.tail m)) q = elim m [ ]

handle_effect_completed-keeps_lease_example :
    ¬ Memᴰ
      (release_lease (service "cache"))
      (handle_effect_completed small_config (ctx_at 900) 7 (success "" "" 5) backing_up).1
handle_effect_completed-keeps_lease_example =
    handle_effect_completed-keeps_lease small_config (ctx_at 900) 7 (success "" "" 5) backing_up
      "backup-500" (ran ∷ idled ∷ []) "cache" refl refl cache_idled

repo_is_free : is_free start.leases backup_repo 500 ≡ true
unfolding is_free new get Lease.new
repo_is_free = refl

cache_stops : Memᴰ cache (backup_stop_services small_config)
unfolding backup_stop_services
cache_stops = Memᴰ.head refl

abbrev full : DiskSample
full = record { mono = 500; usage_percent = 97; free_bytes = 1000 }

handle_disk_sample-cleanup_example :
    Memᴰ (run_disk_cleanup aggressive) (handle_disk_sample texts small_config full backing_up).1
    ↔ (((aggressive ≡ aggressive) × (95 ≤ 97)) ⊎ ((aggressive ≡ standard) × (85 ≤ 97) × (97 < 95)))
handle_disk_sample-cleanup_example =
    handle_disk_sample-cleanup texts small_config full backing_up aggressive

handle_startup_recovery-starts_example :
    Memᴰ
      (start_service "db" "db")
      (handle_startup_recovery texts (ctx_at 1) backing_up.backup_phase start).1
    ↔ WasRunning backing_up.backup_phase "db" "db"
handle_startup_recovery-starts_example =
    handle_startup_recovery-starts texts (ctx_at 1) backing_up.backup_phase start "db" "db"

abbrev a_night : List (Ctx × Event)
a_night =
    (ctx_at 500, Event.tick (TaskKind.backup ∷ []))
    ∷ (ctx_at 560, Event.probe_results db_down)
    ∷ (ctx_at 600, Event.disk_sample full)
    ∷ []

run_events-crash_compensation_example : ¬ Memᴰ (report_invariant_violation "lost") (
    crash_compensation texts.debug_phase
      (run_events texts small_config graph a_night (new small_config 0)).0.backup_phase)
run_events-crash_compensation_example =
    run_events-crash_compensation texts small_config graph 0 a_night "lost"

run_events-shutdown_example :
    let down =
      (reduce texts small_config graph (ctx_at 400) (Event.signal SignalKind.shutdown) start).0 in
    run_events texts small_config graph a_night down ≡ (down, [])
run_events-shutdown_example =
    run_events-shutdown texts small_config graph (ctx_at 400) start a_night

plan_restarts :
    Memᴰ
      ("db", Decision.restart "db" 1 critical)
      (evaluate db_down start.services small_config graph 500).decisions
unfolding evaluate decide evaluate_single new new_service find_service unhealthy_of set_insert
    docker_is_root is_in_maintenance allows_recovery max_restart_attempts classify_failures
    find_root_cause dependencies_of get insert
plan_restarts = Memᴰ.head refl

db_is_free : is_free start.leases (service "db") 500 ≡ true
unfolding is_free new get Lease.new
db_is_free = refl

handle_probes-order_example :
    Memᴰ (order "db" "db" 1) (handle_probes small_config graph (ctx_at 500) db_down start).1
handle_probes-order_example =
    handle_probes-order small_config graph (ctx_at 500) db_down start "db" "db" 1 critical
      plan_restarts db_is_free
