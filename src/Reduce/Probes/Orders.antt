-- ===== src/Reduce/Probes/Orders.antt =====
-- A probe cycle carries out every restart that the plan decides on.
use Prim.Native.String.{◌++◌ as text_append}
use first_fork.Common.{
  ℕ, ◌≡◌, refl, inl, inr, true, false, some, is_some, List, [], ◌∷◌, String, TreeMap, get, insert,
  get-insert, show, Memᴰ, Option-cases, Bool-cases, arith, string_ord,
}
use mathlib.Core.List.Memᴰ
use first_fork.Model.{ServiceId, ResourceId, Severity, ProbeResult, Command, restart_service}
use first_fork.Lease.{is_free}
use first_fork.Config.{CratonConfig, ServiceEntry, find_service}
use first_fork.Graph.{DepGraph}
use first_fork.State.{SvcState, State}
use first_fork.Policy.Recovery.{
  Decision, restart, failed, blocked_by_dependency, breaker_open, in_maintenance, docker_root_cause,
  evaluate,
}
use first_fork.Policy.Recovery.Plan.{evaluate-Basis}
use first_fork.Reduce.Base.{Ctx}
use first_fork.Reduce.Probes.{Acc, apply_decision, apply_one, apply_each, carry_out, handle_probes}
use first_fork.Reduce.Probes.Service.{leases-apply_one}

-- The command that a decision to restart a service gives.
abbrev pub order : String → ServiceId → ℕ → Command
order unit id attempt = restart_service id unit (text_append "unhealthy, attempt " (show attempt))

-- A decision takes back no command and forgets no service.
record Grows (k : ServiceId) (c : Command) (acc acc' : Acc) : Type 0 where
  keeps : Memᴰ c acc.cmds → Memᴰ c acc'.cmds
  knows : is_some (get k acc.state.services) ≡ true → is_some (get k acc'.state.services) ≡ true

insert-knows :
    (sid k : ServiceId) (svc : SvcState) (m : TreeMap ServiceId SvcState)
    → is_some (get k m) ≡ true
    → is_some (get k (insert sid svc m)) ≡ true
insert-knows sid k svc m h = ground (arith, get-insert sid k svc m)

module _ (ctx : Ctx) (k : ServiceId) (c : Command) where
  apply_decision-Grows :
      (sid : ServiceId) (entry : ServiceEntry) (svc : SvcState) (d : Decision) (acc : Acc)
      → Grows k c acc (apply_decision ctx sid entry svc d acc)
  unfolding apply_decision
  apply_decision-Grows sid entry svc Decision.healthy acc = record {
    keeps = λ m. m;
    knows = insert-knows sid k _ acc.state.services;
  }
  apply_decision-Grows sid entry svc (restart u a s) acc =
      elim (Bool-cases (is_free acc.state.leases (ResourceId.service sid) ctx.mono_secs)) [
        | inl e ↦ rw e (record {
          keeps = λ m. Memᴰ.append_left _ m;
          knows = insert-knows sid k _ acc.state.services;
        })
        | inr e ↦ rw e (record { keeps = λ m. m; knows = λ h. h })
      ]
  apply_decision-Grows sid entry svc (failed error) acc = record {
    keeps = λ m. Memᴰ.append_left _ m;
    knows = insert-knows sid k _ acc.state.services;
  }
  apply_decision-Grows sid entry svc (blocked_by_dependency root) acc = record {
    keeps = λ m. m;
    knows = insert-knows sid k _ acc.state.services;
  }
  apply_decision-Grows sid entry svc breaker_open acc = record {
    keeps = λ m. m;
    knows = insert-knows sid k _ acc.state.services;
  }
  apply_decision-Grows sid entry svc in_maintenance acc = record { keeps = λ m. m; knows = λ h. h }
  apply_decision-Grows sid entry svc docker_root_cause acc = record {
    keeps = λ m. m;
    knows = λ h. h;
  }

  apply_one-Grows :
      (config : CratonConfig) (sid : ServiceId) (d : Decision) (acc : Acc)
      → Grows k c acc (apply_one config ctx sid d acc)
  unfolding apply_one
  apply_one-Grows config sid d acc = elim (Option-cases (get sid acc.state.services)) [
    | inl e ↦ rw (e, apply_one) (record { keeps = λ m. m; knows = λ h. h })
    | inr (svc, e) ↦ elim (Option-cases (find_service config sid)) [
      | inl q ↦ rw (e, q, apply_one) (record { keeps = λ m. m; knows = λ h. h })
      | inr (entry, q) ↦ rw (e, q, apply_one) (apply_decision-Grows sid entry svc d acc)
    ]
  ]

  apply_each-keeps :
      (config : CratonConfig) (ds : TreeMap ServiceId Decision) (acc : Acc)
      → Memᴰ c acc.cmds
      → Memᴰ c (apply_each config ctx ds acc).cmds
  unfolding apply_each
  apply_each-keeps config [] acc m = m
  apply_each-keeps config ((sid, d) ∷ ds) acc m =
      apply_each-keeps config ds (apply_one config ctx sid d acc)
        ((apply_one-Grows config sid d acc).keeps m)

module _ (config : CratonConfig) (ctx : Ctx) (id : ServiceId) (unit : String) (attempt : ℕ)
    (severity : Severity) (entry : ServiceEntry)
    (configured : find_service config id ≡ some entry) where
  apply_one-order :
      (acc : Acc)
      → is_some (get id acc.state.services) ≡ true
      → is_free acc.state.leases (ResourceId.service id) ctx.mono_secs ≡ true
      → Memᴰ
          (order unit id attempt)
          (apply_one config ctx id (restart unit attempt severity) acc).cmds
  unfolding apply_one apply_decision
  apply_one-order acc known free = elim (Option-cases (get id acc.state.services)) [
    | inl e ↦ absurd (let f : false ≡ true = rw e at known in cc)
    | inr (svc, e) ↦
        rw (e, configured, apply_one, free) (Memᴰ.append_right acc.cmds (Memᴰ.head refl))
  ]

  apply_each-order :
      (ds : TreeMap ServiceId Decision) (acc : Acc)
      → Memᴰ (id, restart unit attempt severity) ds
      → is_some (get id acc.state.services) ≡ true
      → is_free acc.state.leases (ResourceId.service id) ctx.mono_secs ≡ true
      → Memᴰ (order unit id attempt) (apply_each config ctx ds acc).cmds
  unfolding apply_each
  apply_each-order [] acc m known free = elim m [ ]
  apply_each-order ((sid, d) ∷ ds) acc (Memᴰ.head e) known free =
      let s : id ≡ sid = cc in
      let t : restart unit attempt severity ≡ d = cc in
      apply_each-keeps ctx id (order unit id attempt) config ds _
        (rw (← s, ← t) (apply_one-order acc known free))
  apply_each-order ((sid, d) ∷ ds) acc (Memᴰ.tail m) known free =
      apply_each-order ds (apply_one config ctx sid d acc) m
        ((apply_one-Grows ctx id (order unit id attempt) config sid d acc).knows known)
        (rw (leases-apply_one config ctx sid d acc) free)

-- Every restart that the plan of a probe cycle decides on is commanded, with the unit and the attempt
-- of the decision, if the lease of the service is free.
pub handle_probes-order :
    (config : CratonConfig) (graph : DepGraph) (ctx : Ctx) (results : List ProbeResult)
    (state : State) (id : ServiceId) (unit : String) (attempt : ℕ) (severity : Severity)
    → Memᴰ
        (id, restart unit attempt severity)
        (evaluate results state.services config graph ctx.mono_secs).decisions
    → is_free state.leases (ResourceId.service id) ctx.mono_secs ≡ true
    → Memᴰ (order unit id attempt) (handle_probes config graph ctx results state).1
unfolding handle_probes carry_out
handle_probes-order config graph ctx results state id unit attempt severity m free =
    let plan = evaluate results state.services config graph ctx.mono_secs in
    let b =
      evaluate-Basis results state.services config graph ctx.mono_secs id
        (restart unit attempt severity) m in
    let start : Acc = record {
      state = record state { last_probe_cycle_mono = some ctx.mono_secs };
      cmds = [];
      recovered = [];
      failures = [];
    } in
    Memᴰ.append_left _ (
      Memᴰ.append_left _ (
        apply_each-order config ctx id unit attempt severity b.entry b.configured plan.decisions
          start m (rw b.found refl) free))
