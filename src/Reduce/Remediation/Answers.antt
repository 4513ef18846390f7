-- ===== src/Reduce/Remediation/Answers.antt =====
-- What the answer to a remediation says of what was done.
use first_fork.Common.{
  ◌≡◌, refl, inl, inr, none, some, Option, List, [], String, strip_prefix, Bool-cases, Option-cases,
  string_ord,
}
use first_fork.Model.{ServiceId, RemediationAction, remediate, accepted, rejected, Command}
use first_fork.Config.{CratonConfig, find_service}
use first_fork.State.{State}
use first_fork.Reduce.Base.{Ctx, Texts}
use first_fork.Reduce.Remediation.{
  Outcome, refused, done, restart_target, act, conclude, remediation_rate_limited,
  record_remediation, handle_remediation, http_command_response,
}
use first_fork.Reduce.Remediation.Limits.{last-record_remediation}

-- The action was refused, or done with a result that does not read as a refusal.
data Plain : Outcome → Type 0 where
  is_refused : {result : String} → Plain (refused result)
  is_done :
      {state : State} {cmds : List Command} {result : String}
      → strip_prefix result "rejected: " ≡ none
      → Plain (done state cmds result)

module _ (texts : Texts) (config : CratonConfig) (ctx : Ctx) (source reason : String) where
  restart_target-Plain :
      (sid : ServiceId) (state : State)
      → Plain (restart_target texts config ctx source reason sid state)
  unfolding restart_target strip_prefix
  restart_target-Plain sid state = elim (Option-cases (find_service config sid)) [
    | inl e ↦ rw (e, restart_target) is_refused
    | inr (entry, e) ↦ rw (e, restart_target) (is_done refl)
  ]

  act-Plain :
      (action : RemediationAction) (target : Option ServiceId) (state : State)
      → Plain (act texts config ctx source reason action target state)
  unfolding act strip_prefix
  act-Plain RemediationAction.restart_service none state = is_refused
  act-Plain RemediationAction.restart_service (some sid) state = restart_target-Plain sid state
  act-Plain RemediationAction.clear_breaker none state = is_refused
  act-Plain RemediationAction.clear_breaker (some sid) state = is_done refl
  act-Plain RemediationAction.mark_maintenance none state = is_refused
  act-Plain RemediationAction.mark_maintenance (some sid) state = is_done refl
  act-Plain RemediationAction.clear_maintenance none state = is_refused
  act-Plain RemediationAction.clear_maintenance (some sid) state = is_done refl
  act-Plain RemediationAction.clear_flapping none state = is_refused
  act-Plain RemediationAction.clear_flapping (some sid) state = is_done refl
  act-Plain RemediationAction.docker_restart target state = is_done refl
  act-Plain RemediationAction.restic_unlock target state = is_done refl
  act-Plain RemediationAction.run_disk_cleanup target state = is_done refl
  act-Plain RemediationAction.trigger_backup target state = is_done refl

  conclude-rejected :
      (action : RemediationAction) (target : Option ServiceId) (state : State) (o : Outcome)
      (why : String)
      → Plain o
      → http_command_response
          (remediate action target source reason)
          (conclude texts config ctx source reason action target state o).0
        ≡ rejected why
      → (result : String) × (conclude texts config ctx source reason action target state o
          ≡ (record_remediation action target source result ctx state, []))
  unfolding conclude http_command_response strip_prefix
  conclude-rejected action target state (refused result) why p h = (result, refl)
  conclude-rejected action target state (done state' cmds result) why (is_done q) h =
      let log = last-record_remediation texts config ctx action target source result state' in
      let answer : accepted result ≡ rejected why = rw (log, q) at h in absurd (cc)

-- An answer that says "rejected" is true: no command was given, and the request is on the log, which
-- is all that changed of the state.
pub handle_remediation-rejected :
    (texts : Texts) (config : CratonConfig) (ctx : Ctx) (action : RemediationAction)
    (target : Option ServiceId) (source reason : String) (state : State) (why : String)
    → let step = handle_remediation texts config ctx action target source reason state in
      http_command_response (remediate action target source reason) step.0 ≡ rejected why
      → (result : String) × (step ≡ (record_remediation action target source result ctx state, []))
unfolding handle_remediation
handle_remediation-rejected texts config ctx action target source reason state why h =
    elim (Bool-cases (remediation_rate_limited state action target ctx.mono_secs)) [
      | inl e ↦ ("rejected: rate limited", rw e refl)
      | inr e ↦ rw e (
          conclude-rejected texts config ctx source reason action target state
            (act texts config ctx source reason action target state) why
            (act-Plain texts config ctx source reason action target state) (rw e at h))
    ]
