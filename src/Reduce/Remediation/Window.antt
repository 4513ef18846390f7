-- ===== src/Reduce/Remediation/Window.antt =====
-- How long the rate limit refuses an action that may be used once in its window.
use first_fork.Common.{
  ℕ, zero, suc, ◌+◌, ◌-◌, ◌≤◌, ◌<◌, ◌≡◌, refl, ap, ◌∙◌, inl, inr, Bool, true, Option, none, some,
  List, [], ◌∷◌, ◌++◌, String, filter, length, drop, length-append, saturating_sub, Bool-cases,
  Option-cases, arith, string_ord,
}
use first_fork.Model.{ServiceId, RemediationAction, backup, backup_repo}
use first_fork.Lease.{is_free}
use first_fork.History.{push, push_all}
use first_fork.History.Window.{IsBounded, push_all-newest}
use first_fork.Config.{CratonConfig, find_service}
use first_fork.Policy.Backup.{should_start}
use first_fork.State.{State, RemediationRecord}
use first_fork.Reduce.Backup.{start_backup}
use first_fork.Reduce.Tick.{run_task, handle_tick}
use first_fork.Reduce.Base.{Ctx, Texts}
use first_fork.Reduce.Remediation.{
  act, conclude, rate_limit, counts_for, remediation_rate_limited, record_remediation,
  handle_remediation,
}
use first_fork.Reduce.Remediation.Limits.{entry_of, counts_own}

-- A request for a remediation.
pub record Asked : Type 0 where
  pub ctx : Ctx
  pub action : RemediationAction
  pub target : Option ServiceId
  pub source : String
  pub reason : String

module _ (texts : Texts) (config : CratonConfig) where
  abbrev pub asked : Asked → State → State
  asked a state =
      (handle_remediation texts config a.ctx a.action a.target a.source a.reason state).0

  -- Requests, one after the other.
  unfoldable pub all_asked : List Asked → State → State
  all_asked [] state = state
  all_asked (a ∷ more) state = all_asked more (asked a state)

  log-backup :
      (ctx : Ctx) (state : State)
      → (handle_tick texts config ctx (backup ∷ []) state).0.remediation_log ≡ state.remediation_log
  unfolding handle_tick run_task start_backup
  log-backup ctx state =
      elim (Bool-cases
        (should_start config.backup.schedule ctx.wall state.last_backup_day state.backup_phase)) [
          | inl e ↦ elim (Bool-cases (is_free state.leases backup_repo ctx.mono_secs)) [
            | inl f ↦ rw (e, f) refl
            | inr f ↦ rw (e, f) refl
          ]
          | inr e ↦ rw e refl
        ]

  -- The log has one record more, of this request.
  Logs : Asked → State → State → Type 0
  Logs a before after =
      (result : String) × (after.remediation_log
        ≡ push before.remediation_log (entry_of a.action a.target a.source a.ctx result))

  log-conclude :
      (ctx : Ctx) (action : RemediationAction) (target : Option ServiceId) (source reason : String)
      (state : State)
      → (result : String) × ((conclude texts config ctx source reason action target state
            (act texts config ctx source reason action target state)).0.remediation_log
          ≡ push state.remediation_log (entry_of action target source ctx result))
  unfolding conclude act record_remediation
  log-conclude ctx RemediationAction.restart_service none source reason state = (_, refl)
  log-conclude ctx RemediationAction.restart_service (some sid) source reason state =
      elim (Option-cases (find_service config sid)) [
        | inl e ↦ ("rejected: unknown service", rw (e, conclude) refl)
        | inr (entry, e) ↦ ("executed", rw (e, conclude) refl)
      ]
  log-conclude ctx RemediationAction.clear_breaker none source reason state = (_, refl)
  log-conclude ctx RemediationAction.clear_breaker (some sid) source reason state = (_, refl)
  log-conclude ctx RemediationAction.mark_maintenance none source reason state = (_, refl)
  log-conclude ctx RemediationAction.mark_maintenance (some sid) source reason state = (_, refl)
  log-conclude ctx RemediationAction.clear_maintenance none source reason state = (_, refl)
  log-conclude ctx RemediationAction.clear_maintenance (some sid) source reason state = (_, refl)
  log-conclude ctx RemediationAction.clear_flapping none source reason state = (_, refl)
  log-conclude ctx RemediationAction.clear_flapping (some sid) source reason state = (_, refl)
  log-conclude ctx RemediationAction.docker_restart target source reason state = (_, refl)
  log-conclude ctx RemediationAction.restic_unlock target source reason state = (_, refl)
  log-conclude ctx RemediationAction.run_disk_cleanup target source reason state = (_, refl)
  log-conclude ctx RemediationAction.trigger_backup target source reason state = (
    "triggered",
    ap (λ log. push log (entry_of RemediationAction.trigger_backup target source ctx "triggered"))
        (log-backup ctx state),
  )

  log-handle_remediation :
      (ctx : Ctx) (action : RemediationAction) (target : Option ServiceId) (source reason : String)
      (state : State)
      → (result : String) × ((handle_remediation texts config ctx action target source reason
            state).0.remediation_log
          ≡ push state.remediation_log (entry_of action target source ctx result))
  unfolding handle_remediation record_remediation
  log-handle_remediation ctx action target source reason state =
      elim (Bool-cases (remediation_rate_limited state action target ctx.mono_secs)) [
        | inl e ↦ ("rejected: rate limited", rw e refl)
        | inr e ↦ rw e (log-conclude ctx action target source reason state)
      ]

  asked-Logs : (a : Asked) (state : State) → Logs a state (asked a state)
  unfolding Logs
  asked-Logs a state = log-handle_remediation a.ctx a.action a.target a.source a.reason state

  -- The records of requests, as many as there are.
  all_asked-push_all :
      (more : List Asked) (state : State)
      → (rs : List RemediationRecord) × (length rs ≡ length more)
        × ((all_asked more state).remediation_log ≡ push_all state.remediation_log rs)
  unfolding all_asked push_all Logs
  all_asked-push_all [] state = ([], refl, refl)
  all_asked-push_all (a ∷ more) state =
      let (result, first) = asked-Logs a state in
      let (rs, len, rest) = all_asked-push_all more (asked a state) in
      (
        entry_of a.action a.target a.source a.ctx result ∷ rs,
        omega (arith, len),
        rest ∙ ap (λ log. push_all log rs) first,
      )

counts-within :
    (p : RemediationRecord → Bool) (r : RemediationRecord) (k : ℕ) (xs ys : List RemediationRecord)
    → k ≤ length xs
    → p r ≡ true
    → 1 ≤ length (filter p (drop k (xs ++ r ∷ ys)))
counts-within p r zero [] ys h q = rw q (omega arith)
counts-within p r (suc k) [] ys h q = absurd (omega (arith, h))
counts-within p r zero (x ∷ xs) ys h q =
    ground (arith, counts-within p r zero xs ys (omega arith) q)
counts-within p r (suc k) (x ∷ xs) ys h q = counts-within p r k xs ys (omega (arith, h)) q

-- An action that is allowed once in `window` seconds (a restart of Docker, a backup) is refused when it is
-- asked for again with the same target within that time, also when the first request was refused itself and
-- whatever was asked for in between, as long as those requests are fewer than the log can hold (fifty): no
-- command is given, and only the log of the state changes.
pub handle_remediation_again :
    (texts : Texts) (config : CratonConfig) (first : Asked) (more : List Asked) (later : Ctx)
    (source reason : String) (state : State) (window : ℕ)
    → IsBounded state.remediation_log
    → length more < state.remediation_log.max_size
    → rate_limit first.action ≡ some (window, 1)
    → later.mono_secs ≤ first.ctx.mono_secs + window
    → let state' = all_asked texts config (first ∷ more) state in
      handle_remediation texts config later first.action first.target source reason state' ≡ (
        record_remediation first.action first.target source "rejected: rate limited" later state',
        [],
      )
unfolding handle_remediation remediation_rate_limited all_asked push_all Logs
handle_remediation_again texts config first more later source reason state window bounded few limit
      soon =
    let state1 = asked texts config first state in
    let state' = all_asked texts config more state1 in
    let log = state.remediation_log in
    let (result, own) = asked-Logs texts config first state in
    let (rs, len, rest) = all_asked-push_all texts config more state1 in
    let entry = entry_of first.action first.target first.source first.ctx result in
    let cutoff = saturating_sub later.mono_secs window in
    let p = counts_for first.action first.target cutoff in
    let items : state'.remediation_log ≡ push_all log (entry ∷ rs) =
      rest ∙ ap (λ l. push_all l rs) own in
    let one : 1 ≤ length (filter p (push_all log (entry ∷ rs)).items) =
      rw ((push_all-newest log (entry ∷ rs) bounded).0) (
        counts-within p entry (length (log.items ++ entry ∷ rs) - log.max_size) log.items rs
          (omega (arith, length-append log.items (entry ∷ rs), len, few))
          (counts_own first.action first.target first.source result first.ctx cutoff
            (ground arith))) in
    let limited : remediation_rate_limited state' first.action first.target later.mono_secs ≡ true =
      rw (limit, remediation_rate_limited, items) (ground (arith, one)) in
    rw limited refl
