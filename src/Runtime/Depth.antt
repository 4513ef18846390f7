-- ===== src/Runtime/Depth.antt =====
-- runtime.rs: carrying out commands ends. A probe cycle asks for no further probes, so
-- `execute_commands` calls itself once at most.
use first_fork.Common.{
  inl, inr, ◌⊎◌, ◌≡◌, refl, Bool, true, false, Option, some, List, [], ◌∷◌, ◌++◌, TreeMap, get, any,
  any-append, if◌then◌else◌, arith, Bool-cases, Option-cases, string_ord,
}
use first_fork.Model.{
  ServiceId, ResourceId, ProbeResult, probe_results, Command, run_probes, update_llm_context,
  notify_watchdog, generates_incident,
}
use first_fork.Lease.{is_free}
use first_fork.Config.{CratonConfig, ServiceEntry, find_service}
use first_fork.Graph.{DepGraph}
use first_fork.State.{State, SvcState}
use first_fork.Policy.Recovery.{
  Decision, restart, failed, blocked_by_dependency, breaker_open, in_maintenance, docker_root_cause,
  RecoveryPlan, evaluate,
}
use first_fork.Reduce.Base.{Ctx, Texts, Step}
use first_fork.Reduce.Probes.{
  Acc, apply_decision, apply_one, apply_each, docker_commands, failure_alerts, recovery_alerts,
  carry_out, handle_probes,
}
use first_fork.Reduce.{handle, reduce}
use first_fork.Runtime.Machine.{Outside, World, make_ctx}
use first_fork.Runtime.Commands.{
  run_all_probes, execute_one, execute_list, reduce_at, execute_commands,
}

abbrev asks_probes : Command → Bool
asks_probes (run_probes sids) = true
asks_probes _ = false

quiet-append :
    (xs ys : List Command)
    → any asks_probes xs ≡ false
    → any asks_probes ys ≡ false
    → any asks_probes (xs ++ ys) ≡ false
quiet-append xs ys h k = rw (any-append asks_probes xs ys, h) k

module _ (ctx : Ctx) where
  apply_decision-quiet :
      (sid : ServiceId) (entry : ServiceEntry) (svc : SvcState) (d : Decision) (acc : Acc)
      → any asks_probes acc.cmds ≡ false
      → any asks_probes (apply_decision ctx sid entry svc d acc).cmds ≡ false
  unfolding apply_decision
  apply_decision-quiet sid entry svc Decision.healthy acc h = h
  apply_decision-quiet sid entry svc (restart u a s) acc h =
      elim (Bool-cases (is_free acc.state.leases (ResourceId.service sid) ctx.mono_secs)) [
        | inl e ↦ rw e (quiet-append acc.cmds _ h refl)
        | inr e ↦ rw e h
      ]
  apply_decision-quiet sid entry svc (failed error) acc h =
      elim (Bool-cases (generates_incident entry.severity)) [
        | inl e ↦ rw e (quiet-append acc.cmds _ h refl)
        | inr e ↦ rw e (quiet-append acc.cmds _ h refl)
      ]
  apply_decision-quiet sid entry svc (blocked_by_dependency root) acc h = h
  apply_decision-quiet sid entry svc breaker_open acc h = h
  apply_decision-quiet sid entry svc in_maintenance acc h = h
  apply_decision-quiet sid entry svc docker_root_cause acc h = h

module _ (config : CratonConfig) (ctx : Ctx) where
  apply_one-quiet :
      (sid : ServiceId) (d : Decision) (acc : Acc)
      → any asks_probes acc.cmds ≡ false
      → any asks_probes (apply_one config ctx sid d acc).cmds ≡ false
  unfolding apply_one
  apply_one-quiet sid d acc h = elim (Option-cases (get sid acc.state.services)) [
    | inl q ↦ rw (q, any) h
    | inr (svc, q) ↦ elim (Option-cases (find_service config sid)) [
      | inl r ↦ rw (q, r, any) h
      | inr (entry, r) ↦ rw (q, r, any) (apply_decision-quiet ctx sid entry svc d acc h)
    ]
  ]

  apply_each-quiet :
      (ds : TreeMap ServiceId Decision) (acc : Acc)
      → any asks_probes acc.cmds ≡ false
      → any asks_probes (apply_each config ctx ds acc).cmds ≡ false
  unfolding apply_each
  apply_each-quiet [] acc h = h
  apply_each-quiet ((sid, d) ∷ ds) acc h =
      apply_each-quiet ds (apply_one config ctx sid d acc) (apply_one-quiet sid d acc h)

  docker_commands-quiet : (b : Bool) → any asks_probes (docker_commands b) ≡ false
  unfolding docker_commands
  docker_commands-quiet true = refl
  docker_commands-quiet false = refl

  failure_alerts-quiet :
      (plan : RecoveryPlan) (ids : List ServiceId)
      → any asks_probes (failure_alerts plan ids) ≡ false
  unfolding failure_alerts
  failure_alerts-quiet plan [] = refl
  failure_alerts-quiet plan (id ∷ ids) = refl

  recovery_alerts-quiet : (ids : List ServiceId) → any asks_probes (recovery_alerts ids) ≡ false
  unfolding recovery_alerts
  recovery_alerts-quiet [] = refl
  recovery_alerts-quiet (id ∷ ids) = refl

  carry_out-quiet :
      (plan : RecoveryPlan) (state : State)
      → any asks_probes (carry_out config ctx plan state).cmds ≡ false
  unfolding carry_out
  carry_out-quiet plan state =
      let start : Acc = record { state = state; cmds = []; recovered = []; failures = [] } in
      let acc = apply_each config ctx plan.decisions start in
      quiet-append acc.cmds _ (apply_each-quiet plan.decisions start refl) (
        quiet-append (docker_commands plan.docker_restart_needed) _
          (docker_commands-quiet plan.docker_restart_needed)
          (quiet-append (failure_alerts plan acc.failures) _
            (failure_alerts-quiet plan acc.failures) (recovery_alerts-quiet acc.recovered)))

  -- A probe cycle asks for no further probes.
  handle_probes-quiet :
      (graph : DepGraph) (results : List ProbeResult) (state : State)
      → any asks_probes (handle_probes config graph ctx results state).1 ≡ false
  unfolding handle_probes
  handle_probes-quiet graph results state =
      let state' = record state { last_probe_cycle_mono = some ctx.mono_secs } in
      let plan = evaluate results state'.services config graph ctx.mono_secs in
      quiet-append (carry_out config ctx plan state').cmds
        (update_llm_context ∷ notify_watchdog ∷ []) (carry_out-quiet plan state') refl

module _ (outside : Outside) (config : CratonConfig) where
  -- To carry out one command that runs no probes gives a world; to run them, if they do.
  execute_one-total :
      (probes : List ServiceId → World → Option World) (c : Command) (w : World)
      → (asks_probes c ≡ false)
        ⊎ ((sids : List ServiceId) (v : World) → (v' : World) × (probes sids v ≡ some v'))
      → (w' : World) × (execute_one outside config probes c w ≡ some w')
  unfolding execute_one
  execute_one-total probes (run_probes sids) w (inl h) = ground (arith, h)
  execute_one-total probes (run_probes sids) w (inr total) = total sids w
  execute_one-total probes (Command.restart_service a b c) w h = (_, refl)
  execute_one-total probes (Command.stop_service a b c) w h = (_, refl)
  execute_one-total probes (Command.start_service a b) w h = (_, refl)
  execute_one-total probes (Command.restart_docker_daemon a) w h = (_, refl)
  execute_one-total probes Command.restic_unlock w h = (_, refl)
  execute_one-total probes (Command.restic_backup a) w h = (_, refl)
  execute_one-total probes (Command.restic_forget a b c) w h = (_, refl)
  execute_one-total probes (Command.restic_check a) w h = (_, refl)
  execute_one-total probes (Command.send_alert a) w h = (_, refl)
  execute_one-total probes (Command.persist_backup_state a) w h = (_, refl)
  execute_one-total probes Command.persist_maintenance w h = (_, refl)
  execute_one-total probes Command.publish_snapshot w h = (_, refl)
  execute_one-total probes (Command.run_disk_cleanup a) w h = (_, refl)
  execute_one-total probes Command.check_disk_usage w h = (_, refl)
  execute_one-total probes Command.check_apt_updates w h = (_, refl)
  execute_one-total probes Command.check_docker_updates w h = (_, refl)
  execute_one-total probes (Command.write_incident a) w h = (_, refl)
  execute_one-total probes Command.update_llm_context w h = (_, refl)
  execute_one-total probes (Command.trigger_pico_claw a b) w h = (_, refl)
  execute_one-total probes Command.notify_watchdog w h = (_, refl)
  execute_one-total probes (Command.shutdown a) w h = (_, refl)
  execute_one-total probes (Command.acquire_lease a b) w h = (_, refl)
  execute_one-total probes (Command.release_lease a) w h = (_, refl)

  execute_list-quiet :
      (probes : List ServiceId → World → Option World) (cmds : List Command) (w : World)
      → any asks_probes cmds ≡ false
      → (w' : World) × (execute_list outside config probes cmds w ≡ some w')
  unfolding execute_list
  execute_list-quiet probes [] w h = (w, refl)
  execute_list-quiet probes (c ∷ cs) w h =
      let (v, e) = execute_one-total probes c w (inl (ground (arith, h))) in
      rw (e, execute_list) (execute_list-quiet probes cs v (ground (arith, h)))

  execute_list-total :
      (probes : List ServiceId → World → Option World) (cmds : List Command) (w : World)
      → ((sids : List ServiceId) (v : World) → (v' : World) × (probes sids v ≡ some v'))
      → (w' : World) × (execute_list outside config probes cmds w ≡ some w')
  unfolding execute_list
  execute_list-total probes [] w total = (w, refl)
  execute_list-total probes (c ∷ cs) w total =
      let (v, e) = execute_one-total probes c w (inr total) in
      rw (e, execute_list) (execute_list-total probes cs v total)

skipped-quiet :
    (skipped : Bool) (step : Step) (state : State)
    → any asks_probes step.1 ≡ false
    → any asks_probes (if skipped then (state, []) else step).1 ≡ false
skipped-quiet true step state h = refl
skipped-quiet false step state h = h

reduce_at-quiet :
    (outside : Outside) (config : CratonConfig) (texts : Texts) (graph : DepGraph)
    (results : List ProbeResult) (w : World)
    → any asks_probes (reduce_at outside config texts graph (probe_results results) w).1 ≡ false
unfolding reduce_at reduce handle
reduce_at-quiet outside config texts graph results w =
    skipped-quiet w.state.shutting_down
      (handle_probes config graph (make_ctx outside w) results w.state) w.state
      (handle_probes-quiet config (make_ctx outside w) graph results w.state)

-- Carrying out commands ends in a world, whatever the commands are: probes that they ask for nest
-- once, and no deeper.
pub execute_commands-ends :
    (outside : Outside) (config : CratonConfig) (texts : Texts) (graph : DepGraph)
    (cmds : List Command) (w : World)
    → (w' : World) × (execute_commands outside config texts graph 1 cmds w ≡ some w')
unfolding execute_commands
execute_commands-ends outside config texts graph cmds w =
    execute_list-total outside config _ cmds w (λ sids v.
      let (v1, results) = run_all_probes outside config sids v in
      let (v2, sub_cmds) = reduce_at outside config texts graph (probe_results results) v1 in
      execute_list-quiet outside config _ sub_cmds v2
        (reduce_at-quiet outside config texts graph results v1))
