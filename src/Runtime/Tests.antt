-- ===== src/Runtime/Tests.antt =====
-- Runs of the runtime, and its theorems at concrete inputs.
use first_fork.Common.{
  ◌+◌, ◌<◌, ◌≡◌, refl, true, false, Option, none, some, [], ◌∷◌, ok, err, pos, Memᴰ, arith, get,
  insert, show, string_ord,
}
use first_fork.Model.{
  TaskKind, apt_updates, restic_running, ProbeResult, timeout, restart_service, backup_repo,
  service, run_probes, resource_ord,
}
use first_fork.Lease.{is_free, acquire}
use first_fork.Lease
use first_fork.Config.{backup_stop_services}
use first_fork.Config.Fixtures.{small_config, cache}
use first_fork.State.{State, new, new_service, alloc_cmd_id}
use first_fork.Reduce.Backup.{start_backup, handle_effect_completed}
use first_fork.Reduce.Probes.{handle_probes}
use first_fork.Reduce.Fixtures.{texts, ctx_at, graph, start}
use first_fork.Runtime.Snapshot.{daemon_restart, host_boot, classify_startup_kind}
use first_fork.Runtime.Machine.{
  Outside, World, ExecResult, exec_command, atomic_write, exec_service_action, exec_restic_unlock,
  exec_persist_backup, exec_to_effect_result, spawn_restic,
}
use first_fork.Runtime.Commands.{exec_backup, execute_one, execute_list, execute_commands}
use first_fork.Reduce.Base.{Ctx}
use first_fork.Reduce.Tick.{handle_tick}
use first_fork.Runtime.Loop.{check_daily_schedules}
use first_fork.Runtime.Daily.{notes_apt, ticks, handle_tick-once}
use first_fork.Runtime.Depth.{execute_commands-ends}
use first_fork.Runtime.Protection.{start_backup-protects}
use first_fork.Runtime.Restic.{spawn_restic-phase}

abbrev done_well : ExecResult
done_well = record {
  stdout_text = "";
  stderr_text = "";
  exit_code = pos 0;
  duration_ms = 12;
  killed = false;
}

-- Everything works, and the clock stands at 400.
abbrev outside : Outside
outside = record {
  mono_secs = λ n. 400;
  epoch_secs = λ n. 1700000400;
  wall = λ n. (ctx_at 400).wall;
  exec = λ n argv timeout. ok done_well;
  spawn_error = λ n. none;
  write_ok = λ n. true;
  run_probe = λ n svc. some (ProbeResult.unhealthy svc.id timeout 1000);
  disk_usage = λ n mono. none;
}

abbrev world : State → World
world state = record { state = state; sent = []; workers = []; deeds = []; calls = 0 }

abbrev begun : World
begun = world (start_backup small_config (ctx_at 400) start).0

abbrev or_start : Option World → World
or_start none = world start
or_start (some w) = w

abbrev backing_up : World
backing_up = or_start (
    execute_commands outside small_config texts graph 1
      (start_backup small_config (ctx_at 400) start).1 begun)

backing_up_runs :
    execute_commands outside small_config texts graph 1
      (start_backup small_config (ctx_at 400) start).1
      begun
    ≡ some backing_up
unfolding execute_commands execute_list execute_one start_backup is_free get Lease.new new
    exec_service_action exec_command atomic_write exec_restic_unlock exec_persist_backup exec_backup
    spawn_restic alloc_cmd_id acquire insert show backup_stop_services new_service
backing_up_runs = refl

lasting : 500 < 0 + backing_up.state.leases.max_ttl_secs
unfolding execute_commands execute_list execute_one start_backup is_free get Lease.new new
    exec_service_action exec_command atomic_write exec_restic_unlock exec_persist_backup exec_backup
    spawn_restic alloc_cmd_id acquire insert show backup_stop_services new_service
lasting = omega arith

repository_free : is_free start.leases backup_repo 400 ≡ true
unfolding is_free get Lease.new new
repository_free = refl

unleased : get (service "cache") start.leases.held ≡ none
unfolding get Lease.new new
unleased = refl

stops_cache : Memᴰ cache (backup_stop_services small_config)
unfolding backup_stop_services
stops_cache = Memᴰ.head refl

start_backup-protects_example :
    ¬ Memᴰ
      (restart_service "cache" "cache" "unhealthy, attempt 1")
      (handle_probes small_config graph
        (ctx_at 500)
        (ProbeResult.unhealthy "cache" timeout 1000 ∷ [])
        backing_up.state).1
start_backup-protects_example =
    start_backup-protects outside small_config texts graph (ctx_at 400) start cache begun backing_up
      0 repository_free stops_cache unleased refl backing_up_runs (λ n. omega arith) (ctx_at 500)
      (ProbeResult.unhealthy "cache" timeout 1000 ∷ []) "cache" "unhealthy, attempt 1" lasting
      (omega (arith, lasting))

execute_commands-ends_example :
    (w' : World) × (execute_commands outside small_config texts graph 1
        (run_probes ("db" ∷ []) ∷ [])
        (world start)
      ≡ some w')
execute_commands-ends_example =
    execute_commands-ends outside small_config texts graph (run_probes ("db" ∷ []) ∷ [])
      (world start)

abbrev backup_running : World
backup_running = world (record start { backup_phase = restic_running "backup-400" [] })

-- When no thread starts, the failure that is sent does not end the phase.
spawn_restic-phase_example :
    let broken = record outside { spawn_error = λ n. some "no threads" } in
    let after = spawn_restic broken "backup" [] 3600 backup_running in
    (handle_effect_completed small_config
      (ctx_at 500)
      backup_running.state.next_cmd_id
      (exec_to_effect_result (err "no threads"))
      after.state).0.backup_phase
    ≡ restic_running "backup-400" []
spawn_restic-phase_example =
    let broken = record outside { spawn_error = λ n. some "no threads" } in
    spawn_restic-phase broken small_config (ctx_at 500) "backup" [] 3600 backup_running
      (exec_to_effect_result (err "no threads"))

same_boot : classify_startup_kind (some "b1") (some "b1") ≡ daemon_restart
unfolding classify_startup_kind
same_boot = refl

other_boot : classify_startup_kind (some "b2") (some "b1") ≡ host_boot
unfolding classify_startup_kind
other_boot = refl

abbrev morning : Ctx
morning = ctx_at 400

handle_tick-once_example : ¬ Memᴰ apt_updates (
    check_daily_schedules
      (ticks texts small_config
        ((ctx_at 400, TaskKind.backup ∷ []) ∷ [])
        (handle_tick texts small_config morning (apt_updates ∷ []) start).0)
      morning.wall)
handle_tick-once_example =
    handle_tick-once texts small_config morning apt_updates (apt_updates ∷ []) start
      ((ctx_at 400, TaskKind.backup ∷ []) ∷ []) morning.wall notes_apt (Memᴰ.head refl) (refl, tt)
      refl
