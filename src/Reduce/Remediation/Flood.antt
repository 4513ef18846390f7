-- ===== src/Reduce/Remediation/Flood.antt =====
-- How the log of remediations, which all actions share, forgets what the rate limit counts.
use first_fork.Common.{
  ℕ, zero, suc, ◌-◌, ◌≤◌, ◌<◌, ◌≡◌, refl, Bool, false, Option, none, some, List, [], ◌∷◌, ◌++◌,
  String, map, filter, length, drop, length-append, saturating_sub, str_eq, arith, string_ord,
  Option-cases, inl, inr,
}
use first_fork.Model.{ServiceId, RemediationAction, clear_breaker}
use first_fork.History.{push_all}
use first_fork.History.Window.{IsBounded, push_all-newest}
use first_fork.Config.{CratonConfig}
use first_fork.State.{State, RemediationRecord}
use first_fork.Reduce.Base.{Ctx, Texts}
use first_fork.Reduce.Remediation.{
  act, conclude, action_name, rate_limit, counts_for, remediation_rate_limited, record_remediation,
  handle_remediation,
}
use first_fork.Reduce.Remediation.Limits.{entry_of}

-- The record of a request to clear the breaker of no service.
abbrev pub blank : String → Ctx → RemediationRecord
blank source ctx = entry_of clear_breaker none source ctx "rejected: no target"

module _ (texts : Texts) (config : CratonConfig) (source reason : String) where
  -- Such requests, one after the other.
  unfoldable pub flood : List Ctx → State → State
  flood [] state = state
  flood (ctx ∷ cs) state =
      flood cs (handle_remediation texts config ctx clear_breaker none source reason state).0

  log-flood :
      (cs : List Ctx) (state : State)
      → (flood cs state).remediation_log ≡ push_all state.remediation_log (map (blank source) cs)
  unfolding flood push_all handle_remediation remediation_rate_limited rate_limit act conclude
      record_remediation
  log-flood [] state = refl
  log-flood (ctx ∷ cs) state =
      log-flood cs (record_remediation clear_breaker none source "rejected: no target" ctx state)

-- What remains behind a prefix that is dropped.
filter-drop :
    (p : RemediationRecord → Bool) (k : ℕ) (xs ys : List RemediationRecord)
    → length xs ≤ k
    → filter p ys ≡ []
    → filter p (drop k (xs ++ ys)) ≡ []
filter-drop p zero [] ys h e = e
filter-drop p zero (x ∷ xs) ys h e = absurd (omega arith)
filter-drop p (suc k) [] [] h e = refl
filter-drop p (suc k) [] (y ∷ ys) h e = filter-drop p k [] ys (omega arith) (ground (arith, e))
filter-drop p (suc k) (x ∷ xs) ys h e = filter-drop p k xs ys (omega arith) e

-- Every limited action has another name than `ClearBreaker`, and may be used at least once.
limits_apart :
    (action : RemediationAction) (limit : ℕ × ℕ)
    → rate_limit action ≡ some limit
    → (str_eq (action_name clear_breaker) (action_name action) ≡ false) × (0 < limit.1)
unfolding rate_limit action_name
limits_apart RemediationAction.restart_service limit h = ground arith
limits_apart RemediationAction.docker_restart limit h = ground arith
limits_apart RemediationAction.trigger_backup limit h = ground arith
limits_apart RemediationAction.mark_maintenance limit h = ground arith
limits_apart _ limit h = cc

filter-blank :
    (source : String) (action : RemediationAction) (target : Option ServiceId) (cutoff : ℕ)
    (cs : List Ctx)
    → str_eq (action_name clear_breaker) (action_name action) ≡ false
    → filter (counts_for action target cutoff) (map (blank source) cs) ≡ []
filter-blank source action target cutoff [] h = refl
filter-blank source action target cutoff (c ∷ cs) h =
    ground (arith, filter-blank source action target cutoff cs h)

length-blank : (source : String) (cs : List Ctx) → length (map (blank source) cs) ≡ length cs
length-blank source [] = refl
length-blank source (c ∷ cs) = omega (arith, length-blank source cs)

-- As many requests to clear the breaker of no service as a log within its capacity may hold records
-- lift every rate limit: after them no action on any target is limited, whatever was done before.
pub remediation_rate_limited-flood :
    (texts : Texts) (config : CratonConfig) (source reason : String) (cs : List Ctx) (state : State)
    (action : RemediationAction) (target : Option ServiceId) (now : ℕ)
    → IsBounded state.remediation_log
    → state.remediation_log.max_size ≤ length cs
    → remediation_rate_limited (flood texts config source reason cs state) action target now ≡ false
unfolding remediation_rate_limited
remediation_rate_limited-flood texts config source reason cs state action target now bounded many =
    elim (Option-cases (rate_limit action)) [
      | inl e ↦ rw (e, remediation_rate_limited) refl
      | inr (limit, e) ↦
          let log = state.remediation_log in
          let added = map (blank source) cs in
          let (apart, positive) = limits_apart action limit e in
          let p = counts_for action target (saturating_sub now limit.0) in
          let none_left : filter p (push_all log added).items ≡ [] =
            rw ((push_all-newest log added bounded).0) (
              filter-drop p (length (log.items ++ added) - log.max_size) log.items added
                (omega (arith, length-append log.items added, length-blank source cs))
                (filter-blank source action target (saturating_sub now limit.0) cs apart)) in
          rw (e, remediation_rate_limited, log-flood texts config source reason cs state, none_left)
            (ground arith)
    ]
