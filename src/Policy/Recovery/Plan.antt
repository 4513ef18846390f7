-- ===== src/Policy/Recovery/Plan.antt =====
-- The plan holds the decisions of `evaluate_single` on the probe results, and nothing else.
use first_fork.Common.{
  ℕ, ◌≡◌, ◌⊎◌, inl, inr, Bool, some, none, List, [], ◌∷◌, TreeMap, get, insert, Memᴰ, mem-insert,
  Option-cases, refl, arith, string_ord,
}
use first_fork.Model.{ServiceId, ProbeResult, service_id}
use first_fork.Config.{CratonConfig, ServiceEntry, find_service}
use first_fork.Graph.{DepGraph}
use first_fork.State.{SvcState}
use first_fork.Policy.Recovery.{
  Decision, decide, decide_all, record_decision, evaluate, evaluate_single, docker_is_root,
}

-- The result, the service's state and its configuration that a decision was made from.
pub record Basis (results : List ProbeResult) (states : TreeMap ServiceId SvcState)
    (config : CratonConfig) (blocked : TreeMap ServiceId ServiceId) (docker : Bool) (now : ℕ)
    (sid : ServiceId) (d : Decision) : Type 0 where
  pub probe : ProbeResult
  pub svc : SvcState
  pub entry : ServiceEntry
  pub seen : Memᴰ probe results
  pub about : service_id probe ≡ sid
  pub found : get sid states ≡ some svc
  pub configured : find_service config sid ≡ some entry
  pub decided : evaluate_single sid probe svc entry blocked docker now ≡ d

module _ (config : CratonConfig) (states : TreeMap ServiceId SvcState)
    (blocked : TreeMap ServiceId ServiceId) (docker : Bool) (now : ℕ) where
  decide-Basis :
      (r : ProbeResult) (rs : List ProbeResult) (d : Decision)
      → decide config states blocked docker now r ≡ some d
      → Basis (r ∷ rs) states config blocked docker now (service_id r) d
  unfolding decide
  decide-Basis r rs d h = elim (Option-cases (find_service config (service_id r))) [
    | inl e ↦ absurd (let q : none ≡ some d = rw (e, decide) at h in cc)
    | inr (entry, e) ↦ elim (Option-cases (get (service_id r) states)) [
      | inl q ↦ absurd (let p : none ≡ some d = rw (e, q, decide) at h in cc)
      | inr (svc, q) ↦ record {
        probe = r;
        svc = svc;
        entry = entry;
        seen = Memᴰ.head refl;
        about = refl;
        found = q;
        configured = e;
        decided = ground arith;
      }
    ]
  ]

  Basis-cons :
      (r : ProbeResult) (rs : List ProbeResult) {sid : ServiceId} {d : Decision}
      → Basis rs states config blocked docker now sid d
      → Basis (r ∷ rs) states config blocked docker now sid d
  Basis-cons r rs b = record {
    probe = b.probe;
    svc = b.svc;
    entry = b.entry;
    seen = Memᴰ.tail b.seen;
    about = b.about;
    found = b.found;
    configured = b.configured;
    decided = b.decided;
  }

  Basis-eq :
      (rs : List ProbeResult) {x y : ServiceId × Decision}
      → x ≡ y
      → Basis rs states config blocked docker now y.0 y.1
      → Basis rs states config blocked docker now x.0 x.1
  Basis-eq rs e b = rw e b

  decide_all-Basis :
      (rs : List ProbeResult) (m : TreeMap ServiceId Decision) {x : ServiceId × Decision}
      → Memᴰ x (decide_all config states blocked docker now rs m)
      → Memᴰ x m ⊎ Basis rs states config blocked docker now x.0 x.1
  unfolding decide_all
  decide_all-Basis [] m h = inl h
  decide_all-Basis (r ∷ rs) m {x} h =
      elim (decide_all-Basis rs (record_decision config states blocked docker now r m) h) [
        | inr b ↦ inr (Basis-cons r rs b)
        | inl k ↦ elim (Option-cases (decide config states blocked docker now r)) [
          | inl e ↦ inl (rw (e, record_decision) at k)
          | inr (d, e) ↦
              let k' : Memᴰ x (insert (service_id r) d m) = rw (e, record_decision) at k in
              elim (mem-insert (service_id r) d m k') [
                | inl q ↦ inr (Basis-eq (r ∷ rs) q (decide-Basis r rs d e))
                | inr t ↦ inl t
              ]
        ]
      ]

-- Every decision of a plan was made by `evaluate_single`, from one of the results, the state that its
-- service had and the configuration that names it.
pub evaluate-Basis :
    (results : List ProbeResult) (states : TreeMap ServiceId SvcState) (config : CratonConfig)
    (graph : DepGraph) (now : ℕ) (sid : ServiceId) (d : Decision)
    → let plan = evaluate results states config graph now in
      Memᴰ (sid, d) plan.decisions
      → Basis results states config plan.blocked (docker_is_root config plan.root_causes) now sid d
unfolding evaluate
evaluate-Basis results states config graph now sid d h =
    elim (decide_all-Basis config states _ _ now results [] h) [ inl k ↦ elim k [ ] | inr b ↦ b ]
