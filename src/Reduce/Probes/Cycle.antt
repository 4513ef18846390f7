-- ===== src/Reduce/Probes/Cycle.antt =====
-- A whole probe cycle: which services it restarts.
use first_fork.Common.{
  ◌≡◌, ◌++◌, ◌∷◌, [], inl, inr, true, some, List, String, get, Memᴰ, string_ord,
}
use mathlib.Core.List.Memᴰ
use first_fork.Model.{
  ServiceId, ResourceId, ProbeResult, service_id, Command, restart_service, update_llm_context,
  notify_watchdog,
}
use first_fork.Lease.{is_free}
use first_fork.Config.{CratonConfig, ServiceEntry, find_service}
use first_fork.Graph.{DepGraph}
use first_fork.State.{SvcState, State}
use first_fork.Policy.Recovery.{restart, evaluate, docker_is_root}
use first_fork.Policy.Recovery.Single.{MayRestart, evaluate_single-restart}
use first_fork.Policy.Recovery.Plan.{evaluate-Basis}
use first_fork.Reduce.Base.{Ctx}
use first_fork.Reduce.Probes.{Acc, handle_probes, carry_out, apply_each}
use first_fork.Reduce.Probes.Service.{apply_each-Source, no_restart_after}

-- What is known of a service that the cycle restarts.
pub record Justified (config : CratonConfig) (graph : DepGraph) (ctx : Ctx)
    (results : List ProbeResult) (state : State) (id : ServiceId) : Type 0 where
  pub probe : ProbeResult
  pub svc : SvcState
  pub entry : ServiceEntry
  pub seen : Memᴰ probe results
  pub about : service_id probe ≡ id
  pub found : get id state.services ≡ some svc
  pub configured : find_service config id ≡ some entry
  pub may :
      let plan = evaluate results state.services config graph ctx.mono_secs in
      MayRestart id probe svc entry plan.blocked
        (docker_is_root config plan.root_causes)
        ctx.mono_secs
  pub lease_free : is_free state.leases (ResourceId.service id) ctx.mono_secs ≡ true

tail_cases :
    {id : ServiceId} {unit reason : String} (xs : List Command)
    → Memᴰ (restart_service id unit reason) (xs ++ update_llm_context ∷ notify_watchdog ∷ [])
    → Memᴰ (restart_service id unit reason) xs
tail_cases xs h = elim (Memᴰ.append_cases xs h) [
  | inl k ↦ k
  | inr (Memᴰ.head e) ↦ absurd (cc)
  | inr (Memᴰ.tail (Memᴰ.head e)) ↦ absurd (cc)
  | inr (Memᴰ.tail (Memᴰ.tail k)) ↦ elim k [ ]
]

-- A probe cycle restarts a service only if one of the results says that it is unhealthy, it is in
-- service, not blocked by a dependency, not down with Docker, let through by its breaker, past its
-- cooldown, short of its attempts, and its lease is free.
pub handle_probes-Justified :
    (config : CratonConfig) (graph : DepGraph) (ctx : Ctx) (results : List ProbeResult)
    (state : State) (id : ServiceId) (unit reason : String)
    → Memᴰ (restart_service id unit reason) (handle_probes config graph ctx results state).1
    → Justified config graph ctx results state id
unfolding handle_probes carry_out
handle_probes-Justified config graph ctx results state id unit reason h =
    let state' = record state { last_probe_cycle_mono = some ctx.mono_secs } in
    let plan = evaluate results state.services config graph ctx.mono_secs in
    let start : Acc = record { state = state'; cmds = []; recovered = []; failures = [] } in
    let acc = apply_each config ctx plan.decisions start in
    elim (Memᴰ.append_cases acc.cmds (tail_cases (carry_out config ctx plan state').cmds h)) [
      | inr k ↦ absurd (no_restart_after plan acc.failures acc.recovered id unit reason k)
      | inl k ↦ elim (apply_each-Source config ctx plan.decisions start id unit reason k) [
        | inl t ↦ elim t [ ]
        | inr ((attempt, severity, m), free) ↦
            let b =
              evaluate-Basis results state.services config graph ctx.mono_secs id
                (restart unit attempt severity) m in
            record {
              probe = b.probe;
              svc = b.svc;
              entry = b.entry;
              seen = b.seen;
              about = b.about;
              found = b.found;
              configured = b.configured;
              may =
                  ((evaluate_single-restart id b.probe b.svc b.entry plan.blocked
                      (docker_is_root config plan.root_causes) ctx.mono_secs unit attempt
                      severity).0
                    b.decided).0;
              lease_free = free;
            }
      ]
    ]
