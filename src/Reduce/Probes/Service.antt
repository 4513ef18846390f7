-- ===== src/Reduce/Probes/Service.antt =====
-- Where the commands of a probe cycle come from.
use first_fork.Common.{
  ℕ, ◌≡◌, ◌⊎◌, inl, inr, Bool, true, false, List, [], ◌∷◌, ◌++◌, String, TreeMap, get, Memᴰ,
  Option-cases, Bool-cases, refl, arith, string_ord,
}
use mathlib.Core.List.Memᴰ
use first_fork.Model.{ServiceId, Severity, ResourceId, Command, restart_service, generates_incident}
use first_fork.Lease.{is_free}
use first_fork.Config.{CratonConfig, ServiceEntry, find_service}
use first_fork.State.{SvcState}
use first_fork.Policy.Recovery.{
  Decision, restart, failed, blocked_by_dependency, breaker_open, in_maintenance, docker_root_cause,
  RecoveryPlan,
}
use first_fork.Reduce.Base.{Ctx}
use first_fork.Reduce.Probes.{
  Acc, apply_decision, apply_one, apply_each, docker_commands, failure_alerts, recovery_alerts,
}

-- The command was there before, or it restarts the service of a decision to do so whose lease is
-- free.
abbrev pub Source : Ctx → Acc → ServiceId → Decision → ServiceId → String → String → Type 0
Source ctx acc sid d id unit reason =
    Memᴰ (restart_service id unit reason) acc.cmds
    ⊎ ((id ≡ sid)
        × ((attempt : ℕ) × (severity : Severity) × (d ≡ restart unit attempt severity))
        × (is_free acc.state.leases (ResourceId.service sid) ctx.mono_secs ≡ true))

snoc_cases : {c x : Command} (xs : List Command) → Memᴰ c (xs ++ x ∷ []) → Memᴰ c xs ⊎ (c ≡ x)
snoc_cases xs h = elim (Memᴰ.append_cases xs h) [
  | inl k ↦ inl k
  | inr k ↦ inr (Memᴰ.eq_of_singleton k)
]

module _ (ctx : Ctx) (id : ServiceId) (unit reason : String) where
  apply_decision-Source :
      (sid : ServiceId) (entry : ServiceEntry) (svc : SvcState) (d : Decision) (acc : Acc)
      → Memᴰ (restart_service id unit reason) (apply_decision ctx sid entry svc d acc).cmds
      → Source ctx acc sid d id unit reason
  unfolding apply_decision
  apply_decision-Source sid entry svc Decision.healthy acc h = inl h
  apply_decision-Source sid entry svc (restart u attempt severity) acc h =
      elim (Bool-cases (is_free acc.state.leases (ResourceId.service sid) ctx.mono_secs)) [
        | inl e ↦ elim (snoc_cases acc.cmds (rw e at h)) [
          | inl k ↦ inl k
          | inr q ↦ inr (cc, (attempt, severity, cc), e)
        ]
        | inr e ↦ inl (rw e at h)
      ]
  apply_decision-Source sid entry svc (failed error) acc h = elim (Memᴰ.append_cases acc.cmds h) [
    | inl k ↦ inl k
    | inr k ↦ elim (Bool-cases (generates_incident entry.severity)) [
      | inl e ↦ absurd (let q = Memᴰ.eq_of_singleton (rw e at k) in cc)
      | inr e ↦ elim (rw e at k) [ ]
    ]
  ]
  apply_decision-Source sid entry svc (blocked_by_dependency root) acc h = inl h
  apply_decision-Source sid entry svc breaker_open acc h = inl h
  apply_decision-Source sid entry svc in_maintenance acc h = inl h
  apply_decision-Source sid entry svc docker_root_cause acc h = inl h

  apply_one-Source :
      (config : CratonConfig) (sid : ServiceId) (d : Decision) (acc : Acc)
      → Memᴰ (restart_service id unit reason) (apply_one config ctx sid d acc).cmds
      → Source ctx acc sid d id unit reason
  unfolding apply_one
  apply_one-Source config sid d acc h = elim (Option-cases (get sid acc.state.services)) [
    | inl e ↦ inl (rw (e, apply_one) at h)
    | inr (svc, e) ↦ elim (Option-cases (find_service config sid)) [
      | inl q ↦ inl (rw (e, q, apply_one) at h)
      | inr (entry, q) ↦ apply_decision-Source sid entry svc d acc (rw (e, q, apply_one) at h)
    ]
  ]

-- No decision changes a lease.
leases-apply_decision :
    (ctx : Ctx) (sid : ServiceId) (entry : ServiceEntry) (svc : SvcState) (d : Decision) (acc : Acc)
    → (apply_decision ctx sid entry svc d acc).state.leases ≡ acc.state.leases
unfolding apply_decision
leases-apply_decision ctx sid entry svc Decision.healthy acc = refl
leases-apply_decision ctx sid entry svc (restart u a s) acc = ground arith
leases-apply_decision ctx sid entry svc (failed error) acc = refl
leases-apply_decision ctx sid entry svc (blocked_by_dependency root) acc = refl
leases-apply_decision ctx sid entry svc breaker_open acc = refl
leases-apply_decision ctx sid entry svc in_maintenance acc = refl
leases-apply_decision ctx sid entry svc docker_root_cause acc = refl

pub leases-apply_one :
    (config : CratonConfig) (ctx : Ctx) (sid : ServiceId) (d : Decision) (acc : Acc)
    → (apply_one config ctx sid d acc).state.leases ≡ acc.state.leases
unfolding apply_one
leases-apply_one config ctx sid d acc = elim (Option-cases (get sid acc.state.services)) [
  | inl e ↦ rw (e, apply_one)
  | inr (svc, e) ↦ elim (Option-cases (find_service config sid)) [
    | inl q ↦ rw (e, q, apply_one)
    | inr (entry, q) ↦ rw (e, q, apply_one) (leases-apply_decision ctx sid entry svc d acc)
  ]
]

-- A restart in the end of the loop was asked for by a decision of the list, with its lease free.
pub apply_each-Source :
    (config : CratonConfig) (ctx : Ctx) (ds : TreeMap ServiceId Decision) (acc : Acc)
    (id : ServiceId) (unit reason : String)
    → Memᴰ (restart_service id unit reason) (apply_each config ctx ds acc).cmds
    → Memᴰ (restart_service id unit reason) acc.cmds
      ⊎ (((attempt : ℕ) × (severity : Severity) × Memᴰ (id, restart unit attempt severity) ds)
          × (is_free acc.state.leases (ResourceId.service id) ctx.mono_secs ≡ true))
unfolding apply_each
apply_each-Source config ctx [] acc id unit reason h = inl h
apply_each-Source config ctx ((sid, d) ∷ ds) acc id unit reason h =
    elim (apply_each-Source config ctx ds (apply_one config ctx sid d acc) id unit reason h) [
      | inr ((attempt, severity, m), free) ↦
          inr ((attempt, severity, Memᴰ.tail m), rw (leases-apply_one config ctx sid d acc) at free)
      | inl k ↦ elim (apply_one-Source ctx id unit reason config sid d acc k) [
        | inl t ↦ inl t
        | inr (e, (attempt, severity, q), free) ↦
            inr ((attempt, severity, Memᴰ.head (cc)), rw (← e) at free)
      ]
    ]

-- The commands that `apply_decisions` and `emit_alerts` add at the end restart no service.
pub no_restart_after :
    (plan : RecoveryPlan) (failures recovered : List ServiceId) (id : ServiceId)
    (unit reason : String)
    → ¬ Memᴰ (restart_service id unit reason) (
        docker_commands plan.docker_restart_needed
        ++ (failure_alerts plan failures ++ recovery_alerts recovered))
unfolding docker_commands failure_alerts recovery_alerts
no_restart_after plan failures recovered id unit reason h =
    elim (Memᴰ.append_cases (docker_commands plan.docker_restart_needed) h) [
      | inl k ↦ not_docker plan.docker_restart_needed k
      | inr k ↦ elim (Memᴰ.append_cases (failure_alerts plan failures) k) [
        | inl t ↦ not_failure failures t
        | inr t ↦ not_recovery recovered t
      ]
    ]
  where
    not_docker : (b : Bool) → ¬ Memᴰ (restart_service id unit reason) (docker_commands b)
    not_docker true (Memᴰ.head e) = cc
    not_docker true (Memᴰ.tail k) = elim k [ ]
    not_docker false k = elim k [ ]

    not_failure :
        (fs : List ServiceId) → ¬ Memᴰ (restart_service id unit reason) (failure_alerts plan fs)
    not_failure [] k = elim k [ ]
    not_failure (f ∷ fs) (Memᴰ.head e) = cc
    not_failure (f ∷ fs) (Memᴰ.tail k) = elim k [ ]

    not_recovery :
        (rs : List ServiceId) → ¬ Memᴰ (restart_service id unit reason) (recovery_alerts rs)
    not_recovery [] k = elim k [ ]
    not_recovery (r ∷ rs) (Memᴰ.head e) = cc
    not_recovery (r ∷ rs) (Memᴰ.tail k) = elim k [ ]
