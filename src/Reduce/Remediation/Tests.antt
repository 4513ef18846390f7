-- ===== src/Reduce/Remediation/Tests.antt =====
-- Runs of the remediation actions.
use first_fork.Common.{
  ℕ, ◌≡◌, ◌≤◌, refl, true, false, none, some, List, [], ◌∷◌, arith, string_ord, String,
  strip_prefix, zero, suc, length,
}
use first_fork.Model.{RemediationAction, CommandRequest, remediate, rejected}
use first_fork.History
use first_fork.Config.Fixtures.{small_config}
use first_fork.Config.{find_service}
use first_fork.State.{State, new}
use first_fork.Reduce.Remediation.Answers.{handle_remediation-rejected}
use first_fork.History.Window.{IsBounded, push-IsBounded, new-IsBounded}
use first_fork.Reduce.Remediation.Flood.{flood, remediation_rate_limited-flood}
use first_fork.Reduce.Base.{Ctx}
use first_fork.Reduce.Remediation.{
  action_name, rate_limit, handle_remediation, record_remediation, remediation_rate_limited, act,
  restart_target, conclude, http_command_response,
}
use first_fork.Reduce.Remediation.Window.{Asked, all_asked, handle_remediation_again}
use first_fork.Reduce.Fixtures.{texts, ctx_at, start}

once_an_hour : rate_limit RemediationAction.docker_restart ≡ some (3600, 1)
unfolding rate_limit
once_an_hour = refl

abbrev restart_docker : Asked
restart_docker = record {
  ctx = ctx_at 500;
  action = RemediationAction.docker_restart;
  target = none;
  source = "bot";
  reason = "down";
}

abbrev clear_nothing : Asked
clear_nothing = record {
  ctx = ctx_at 600;
  action = RemediationAction.clear_breaker;
  target = none;
  source = "bot";
  reason = "";
}

start-IsBounded : IsBounded start.remediation_log
unfolding new
start-IsBounded = new-IsBounded 50 (omega arith)

handle_remediation_again_example :
    let state' =
      all_asked texts small_config (restart_docker ∷ clear_nothing ∷ clear_nothing ∷ []) start in
    handle_remediation texts small_config
      (ctx_at 4100)
      RemediationAction.docker_restart
      none
      "bot"
      "down again"
      state'
    ≡ (
      record_remediation RemediationAction.docker_restart none "bot" "rejected: rate limited"
          (ctx_at 4100)
          state',
      [],
    )
unfolding new History.new
handle_remediation_again_example =
    handle_remediation_again texts small_config restart_docker (clear_nothing ∷ clear_nothing ∷ [])
      (ctx_at 4100) "bot" "down again" start 3600 start-IsBounded (omega arith) once_an_hour
      (omega arith)

abbrev unknown_target : CommandRequest
unknown_target = remediate RemediationAction.restart_service (some "mail") "bot" "down"

is_rejected :
    http_command_response unknown_target
      (handle_remediation texts small_config
        (ctx_at 500)
        RemediationAction.restart_service
        (some "mail")
        "bot"
        "down"
        start).0
    ≡ rejected "unknown service"
unfolding http_command_response handle_remediation remediation_rate_limited rate_limit act
    restart_target find_service conclude record_remediation new strip_prefix History.new
    History.push
is_rejected = refl

handle_remediation-rejected_example :
    (result : String) × (handle_remediation texts small_config
        (ctx_at 500)
        RemediationAction.restart_service
        (some "mail")
        "bot"
        "down"
        start
      ≡ (
        record_remediation RemediationAction.restart_service
            (some "mail")
            "bot"
            result
            (ctx_at 500)
            start,
        [],
      ))
handle_remediation-rejected_example =
    handle_remediation-rejected texts small_config (ctx_at 500) RemediationAction.restart_service
      (some "mail") "bot" "down" start "unknown service" is_rejected

-- A state in which Docker was just restarted.
abbrev after_restart : State
after_restart =
    record_remediation RemediationAction.docker_restart none "bot" "executed" (ctx_at 500) start

limited_before :
    remediation_rate_limited after_restart RemediationAction.docker_restart none 600 ≡ true
unfolding remediation_rate_limited rate_limit record_remediation new History.new History.push
    action_name
limited_before = refl

after_restart-IsBounded : IsBounded after_restart.remediation_log
unfolding record_remediation new
after_restart-IsBounded = push-IsBounded start.remediation_log _ (new-IsBounded 50 (omega arith))

abbrev repeated : ℕ → List Ctx
repeated zero = []
repeated (suc n) = ctx_at 510 ∷ repeated n

remediation_rate_limited-flood_example :
    remediation_rate_limited
      (flood texts small_config "bot" "again" (repeated 50) after_restart)
      RemediationAction.docker_restart
      none
      600
    ≡ false
unfolding record_remediation History.push new History.new
remediation_rate_limited-flood_example =
    remediation_rate_limited-flood texts small_config "bot" "again" (repeated 50) after_restart
      RemediationAction.docker_restart none 600 after_restart-IsBounded holds_fifty
  where
    holds_fifty : after_restart.remediation_log.max_size ≤ length (repeated 50)
    holds_fifty = omega arith
