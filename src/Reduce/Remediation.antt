-- ===== src/Reduce/Remediation.antt =====
-- reduce.rs: the remediation actions of the HTTP API, and the answer to an HTTP command.
pub mod Limits
pub mod Window
pub mod Answers
pub mod Flood
mod Tests
use Prim.Native.String.{◌++◌ as text_append}
use first_fork.Common.{
  ℕ, ◌+◌, Bool, true, false, ◌&&◌, Option, none, some, List, [], ◌∷◌, String, str_eq, adjust,
  filter, length, last?, leb, saturating_sub, add64, strip_prefix, if◌then◌else◌, string_ord,
}
use first_fork.Model.{
  ServiceId, RemediationAction, restart_service, restic_unlock, docker_restart, mark_maintenance,
  clear_maintenance, clear_flapping, run_disk_cleanup, trigger_backup, clear_breaker, TaskKind,
  recovery, backup, disk_monitor, apt_updates, docker_updates, daily_summary, CommandRequest,
  trigger, remediate, HttpCommandResponse, accepted, rejected, error, Command,
  restart_docker_daemon, persist_maintenance, standard,
}
use first_fork.Breaker.{reset}
use first_fork.History.{push, clear}
use first_fork.Config.{CratonConfig, ServiceEntry, find_service}
use first_fork.State.{State, SvcState, RemediationRecord}
use first_fork.Reduce.Base.{Ctx, Texts, Step}
use first_fork.Reduce.Tick.{handle_tick}

-- The derived `Debug` of an action is its name.
unfoldable pub action_name : RemediationAction → String
action_name restart_service = "RestartService"
action_name restic_unlock = "ResticUnlock"
action_name docker_restart = "DockerRestart"
action_name mark_maintenance = "MarkMaintenance"
action_name clear_maintenance = "ClearMaintenance"
action_name clear_flapping = "ClearFlapping"
action_name run_disk_cleanup = "RunDiskCleanup"
action_name trigger_backup = "TriggerBackup"
action_name clear_breaker = "ClearBreaker"

-- Seconds and number of an action's limit, for those that have one.
unfoldable pub rate_limit : RemediationAction → Option (ℕ × ℕ)
rate_limit restart_service = some (3600, 3)
rate_limit docker_restart = some (3600, 1)
rate_limit trigger_backup = some (86400, 1)
rate_limit mark_maintenance = some (3600, 5)
rate_limit _ = none

abbrev pub same_target : Option ServiceId → Option ServiceId → Bool
same_target none none = true
same_target (some a) (some b) = str_eq a b
same_target _ _ = false

-- A record of the same action on the same target, not older than `cutoff`.
abbrev pub counts_for : RemediationAction → Option ServiceId → ℕ → RemediationRecord → Bool
counts_for action target cutoff r =
    leb cutoff r.mono && (str_eq r.action (action_name action) && same_target r.target target)

unfoldable pub remediation_rate_limited : State → RemediationAction → Option ServiceId → ℕ → Bool
remediation_rate_limited state action target now = elim (rate_limit action) [
  | none ↦ false
  | some limit ↦ leb limit.1 (
      length (
        filter (counts_for action target (saturating_sub now limit.0)) state.remediation_log.items))
]

unfoldable pub record_remediation :
    RemediationAction → Option ServiceId → String → String → Ctx → State → State
record_remediation action target source result ctx state = record state {
  remediation_log = push state.remediation_log (record {
    mono = ctx.mono_secs;
    action = action_name action;
    target = target;
    source = source;
    result = result;
    error = none;
  });
}

abbrev pub update_service : ServiceId → (SvcState → SvcState) → State → State
update_service sid f state = record state { services = adjust sid f state.services }

pub data Outcome : Type 0 where
  -- The early returns: the reason, and no command.
  refused : (result : String) → Outcome
  done : State → List Command → (result : String) → Outcome

module _ (texts : Texts) (config : CratonConfig) (ctx : Ctx) (source reason : String) where
  abbrev remediation_reason : String
  remediation_reason =
      text_append "remediation from " (text_append source (text_append ": " reason))

  unfoldable pub restart_target : ServiceId → State → Outcome
  restart_target sid state = elim (find_service config sid) [
    | none ↦ refused "rejected: unknown service"
    | some entry ↦
        done state (Command.restart_service sid entry.unit remediation_reason ∷ []) "executed"
  ]

  -- The actions that need a target.
  act_on : RemediationAction → ServiceId → State → Outcome
  unfolding restart_target
  act_on restart_service sid state = restart_target sid state
  act_on clear_breaker sid state =
      done (update_service sid (λ svc. record svc { breaker = reset }) state) [] "executed"
  act_on mark_maintenance sid state =
      done
        (update_service sid
          (λ svc. record svc {
            maintenance = some (record { until_mono = add64 ctx.mono_secs 3600; reason = reason });
          })
          state)
        (persist_maintenance ∷ []) "executed"
  act_on clear_maintenance sid state =
      done (update_service sid (λ svc. record svc { maintenance = none }) state)
        (persist_maintenance ∷ []) "executed"
  act_on clear_flapping sid state =
      done
        (update_service sid
          (λ svc. record svc { breaker = reset; restart_history = clear svc.restart_history })
          state)
        [] "executed"
  act_on _ sid state = refused "rejected: no target"

  act_with : RemediationAction → Option ServiceId → State → Outcome
  unfolding act_on
  act_with action none state = refused "rejected: no target"
  act_with action (some sid) state = act_on action sid state

  -- The `match` on the action.
  unfoldable pub act : RemediationAction → Option ServiceId → State → Outcome
  unfolding act_with
  act docker_restart target state =
      done state (restart_docker_daemon remediation_reason ∷ []) "executed"
  act restic_unlock target state = done state (Command.restic_unlock ∷ []) "executed"
  act trigger_backup target state =
      let (state', cmds) = handle_tick texts config ctx (backup ∷ []) state in
      done state' cmds "triggered"
  act run_disk_cleanup target state = done state (Command.run_disk_cleanup standard ∷ []) "executed"
  act action target state = act_with action target state

  unfoldable pub conclude : RemediationAction → Option ServiceId → State → Outcome → Step
  conclude action target state (refused result) =
      (record_remediation action target source result ctx state, [])
  conclude action target state (done state' cmds result) =
      (record_remediation action target source result ctx state', cmds)

module _ (texts : Texts) (config : CratonConfig) (ctx : Ctx) where
  unfoldable pub handle_remediation :
      RemediationAction → Option ServiceId → String → String → State → Step
  unfolding conclude
  handle_remediation action target source reason state =
      if remediation_rate_limited state action target ctx.mono_secs
      then (record_remediation action target source "rejected: rate limited" ctx state, [])
      else conclude texts config ctx source reason action target state
          (act texts config ctx source reason action target state)

unfoldable pub task_label : TaskKind → String
task_label recovery = "recovery"
task_label backup = "backup"
task_label disk_monitor = "disk_monitor"
task_label apt_updates = "apt_updates"
task_label docker_updates = "docker_updates"
task_label daily_summary = "daily_summary"

abbrev answer_record : RemediationAction → Option RemediationRecord → HttpCommandResponse
answer_record action none =
    error (text_append "missing remediation record for " (action_name action))
answer_record action (some r) = elim (strip_prefix r.result "rejected: ") [
  | some reason ↦ rejected reason
  | none ↦ accepted r.result
]

-- The answer that the runtime sends after the reducer has run.
unfoldable pub http_command_response : CommandRequest → State → HttpCommandResponse
http_command_response (trigger task) state =
    accepted (text_append "task scheduled: " (task_label task))
http_command_response (remediate action _ _ _) state =
    answer_record action (last? state.remediation_log.items)
