-- ===== src/Runtime/Commands.antt =====
-- runtime.rs: `execute_commands`, which carries out what the reducer asks for. To run probes is to
-- call the reducer again and carry out its commands; `depth` bounds how often this nests.
use first_fork.Common.{
  ℕ, zero, suc, true, Option, none, some, List, [], ◌∷◌, ◌++◌, String, show, if◌then◌else◌, str_eq,
  TreeMap,
}
use Prim.Native.String.{◌++◌ as text_append}
use first_fork.Model.{
  ProbeError, Event, ServiceId, ProbeResult, probe_results, disk_sample, Command, run_probes,
  restart_service, stop_service, start_service, restart_docker_daemon, restic_unlock, restic_backup,
  restic_forget, restic_check, send_alert, persist_backup_state, persist_maintenance,
  publish_snapshot, run_disk_cleanup, check_disk_usage, check_apt_updates, check_docker_updates,
  write_incident, update_llm_context, trigger_pico_claw, notify_watchdog, acquire_lease,
  release_lease,
}
use first_fork.Lease.{acquire, force_release}
use first_fork.Config.{CratonConfig, ServiceEntry, find_service}
use first_fork.Graph.{DepGraph}
use first_fork.Reduce.Base.{Texts}
use first_fork.Reduce.{reduce}
use first_fork.Runtime.Machine.{
  Outside, World, queued, fed_watchdog, reported, cleaned, checked_apt, triggered, put_state, does,
  send, next, mark_runtime_degraded, make_ctx, exec_service_action, exec_start_service,
  exec_docker_restart, exec_restic_unlock, exec_persist_backup, exec_update_llm_context,
  exec_persist_maintenance, spawn_detached, spawn_restic,
}

module _ (outside : Outside) (config : CratonConfig) where
  -- The result of a probe that gave none.
  abbrev no_answer : ServiceId → ProbeResult
  no_answer sid = ProbeResult.unhealthy sid ProbeError.timeout 0

  -- The first loop: a thread for each known service, or a result when no thread starts.
  start_probes : List ServiceId → World → World × List ServiceEntry × List ProbeResult
  start_probes [] w = (w, [], [])
  start_probes (sid ∷ sids) w = elim (find_service config sid) [
    | none ↦ start_probes sids w
    | some svc ↦ elim (outside.spawn_error w.calls) [
      | none ↦
          let (w', handles, results) = start_probes sids (next w) in (w', svc ∷ handles, results)
      | some e ↦
          let (w', handles, results) =
            start_probes sids (mark_runtime_degraded "probe_spawn_failed" (next w)) in
          (w', handles, no_answer sid ∷ results)
    ]
  ]

  -- The second loop: the answers of the threads; the id is that of the found service.
  join_probes : List ServiceEntry → World → World × List ProbeResult
  join_probes [] w = (w, [])
  join_probes (svc ∷ handles) w = elim (outside.run_probe w.calls svc) [
    | some result ↦ let (w', results) = join_probes handles (next w) in (w', result ∷ results)
    | none ↦
        let (w', results) =
          join_probes handles (mark_runtime_degraded "probe_worker_panicked" (next w)) in
        (w', no_answer svc.id ∷ results)
  ]

  unfoldable pub run_all_probes : List ServiceId → World → World × List ProbeResult
  unfolding start_probes join_probes
  run_all_probes sids w =
      let (w1, handles, early) = start_probes sids w in
      let (w2, late) = join_probes handles w1 in (w2, early ++ late)

  unfoldable pub restic_argv : String → List String → List String
  restic_argv verb rest =
      config.backup.restic_binary ∷ verb ∷ "--repo" ∷ config.backup.restic_repo ∷ "--password-file"
      ∷ config.backup.restic_password_file ∷ rest

  unfoldable pub exec_backup : List String → World → World
  unfolding spawn_restic restic_argv
  exec_backup paths w = spawn_restic outside "backup" (restic_argv "backup" paths) 3600 w

  unfoldable pub exec_forget : (daily weekly monthly : ℕ) → World → World
  unfolding spawn_restic
  exec_forget daily weekly monthly w =
      spawn_restic outside "forget"
        (config.backup.restic_binary
          ∷ "forget"
          ∷ "--prune"
          ∷ "--repo"
          ∷ config.backup.restic_repo
          ∷ "--password-file"
          ∷ config.backup.restic_password_file
          ∷ "--keep-daily"
          ∷ show daily
          ∷ "--keep-weekly"
          ∷ show weekly
          ∷ "--keep-monthly"
          ∷ show monthly
          ∷ [])
        600 w

  unfoldable pub exec_check : ℕ → World → World
  unfolding spawn_restic restic_argv
  exec_check percent w =
      spawn_restic outside "check"
        (restic_argv "check" ("--read-data-subset" ∷ text_append (show percent) "%" ∷ [])) 1800 w

  unfoldable pub exec_check_disk_usage : World → World
  exec_check_disk_usage w = elim (outside.disk_usage w.calls (outside.mono_secs w.calls)) [
    | none ↦ next w
    | some sample ↦ next (send (disk_sample sample) w)
  ]

  unfoldable pub exec_trigger : String → TreeMap String String → World → World
  exec_trigger event_type details w =
      if str_eq config.ai.picoclaw_url ""
      then w
      else does (triggered config.ai.picoclaw_url event_type details) w

  -- One turn of the loop over the commands, with what it is to run probes.
  unfoldable pub execute_one :
      (List ServiceId → World → Option World) → Command → World → Option World
  execute_one probes (run_probes sids) w = probes sids w
  execute_one probes (restart_service id unit reason) w =
      some (exec_service_action outside "restart" unit w)
  execute_one probes (stop_service id unit reason) w =
      some (exec_service_action outside "stop" unit w)
  execute_one probes (start_service id unit) w = some (exec_start_service outside unit w)
  execute_one probes (restart_docker_daemon reason) w = some (exec_docker_restart outside w)
  execute_one probes (send_alert alert) w = some (does (queued alert) w)
  execute_one probes (persist_backup_state phase) w = some (exec_persist_backup outside phase w)
  execute_one probes publish_snapshot w = some w
  execute_one probes notify_watchdog w = some (does fed_watchdog w)
  execute_one probes (Command.shutdown grace_secs) w =
      some (put_state (record w.state { shutting_down = true }) w)
  execute_one probes restic_unlock w = some (exec_restic_unlock outside config w)
  execute_one probes update_llm_context w = some (exec_update_llm_context outside config w)
  execute_one probes (write_incident report) w =
      some (spawn_detached outside (reported report) "incident_writer_spawn_failed" w)
  execute_one probes check_disk_usage w = some (exec_check_disk_usage w)
  execute_one probes (run_disk_cleanup level) w =
      some (spawn_detached outside (cleaned level) "disk_cleanup_spawn_failed" w)
  execute_one probes check_apt_updates w =
      some (spawn_detached outside checked_apt "apt_check_spawn_failed" w)
  execute_one probes check_docker_updates w = some w
  execute_one probes (restic_backup paths) w = some (exec_backup paths w)
  execute_one probes (restic_forget daily weekly monthly) w =
      some (exec_forget daily weekly monthly w)
  execute_one probes (restic_check percent) w = some (exec_check percent w)
  execute_one probes persist_maintenance w = some (exec_persist_maintenance outside w)
  execute_one probes (trigger_pico_claw event_type details) w =
      some (exec_trigger event_type details w)
  execute_one probes (acquire_lease resource holder) w = some (
      next (
        put_state
          (record w.state {
            leases = (acquire w.state.leases resource holder (outside.mono_secs w.calls)).0;
          })
          w))
  execute_one probes (release_lease resource) w =
      some (put_state (record w.state { leases = force_release w.state.leases resource }) w)

  unfoldable pub execute_list :
      (List ServiceId → World → Option World) → List Command → World → Option World
  execute_list probes [] w = some w
  execute_list probes (c ∷ cs) w = elim (execute_one probes c w) [
    | none ↦ none
    | some w' ↦ execute_list probes cs w'
  ]

  module _ (texts : Texts) (graph : DepGraph) where
    -- The reducer on an event, with its commands to carry out.
    unfoldable pub reduce_at : Event → World → World × List Command
    reduce_at event w =
        let (state, cmds) = reduce texts config graph (make_ctx outside w) event w.state in
        (next (put_state state w), cmds)

    -- `none` when probes nest deeper than that.
    unfoldable pub execute_commands : (depth : ℕ) → List Command → World → Option World
    execute_commands zero cmds w = execute_list (λ sids v. none) cmds w
    execute_commands (suc depth) cmds w =
        execute_list
          (λ sids v.
            let (v1, results) = run_all_probes sids v in
            let (v2, sub_cmds) = reduce_at (probe_results results) v1 in
            execute_commands depth sub_cmds v2)
          cmds w
