-- ===== src/Http/Server.antt =====
-- http.rs: `serve` and the handlers that send a command to the control loop. A handler gives its response and the
-- event that it sends. What `serde_json` reads in a text and the answer of the control loop are
-- parameters.
use Prim.Native.String.{◌++◌ as text_append}
use first_fork.Common.{
  ℕ, Bool, not, Option, none, some, List, [], ◌∷◌, String, Result, ok, err, str_eq, is_some,
  string_ord, strip_prefix, if◌then◌else◌,
}
use first_fork.Model.{
  ServiceId, TaskKind, recovery, backup, disk_monitor, apt_updates, docker_updates, daily_summary,
  RemediationAction, CommandRequest, trigger, remediate, HttpCommandResponse, accepted, rejected,
  Event, http_command,
}
use first_fork.Runtime.Machine.{ExecResult}
use first_fork.Http.Bearer.{is_authorized_bearer}
use first_fork.Http.Responses.{
  Field, Response, json_response, Health, health_response, not_found, or_empty, handle_history,
  handle_diagnose, literal, object, text,
}

-- What comes of sending a command to the control loop and waiting for its answer.
pub data Ack : Type 0 where
  answers : HttpCommandResponse → Ack
  timed_out terminated unreachable : Ack

-- `details` are the fields of the response when the command was accepted.
unfoldable pub acknowledged : (details : String → List (String × Field)) → Ack → Response
acknowledged details (answers (accepted detail)) = json_response 200 (object (details detail))
acknowledged details (answers (rejected reason)) =
    json_response 409 (object (("error", text reason) ∷ []))
acknowledged details (answers (HttpCommandResponse.error e)) =
    json_response 500 (object (("error", text e) ∷ []))
acknowledged details timed_out =
    json_response 504 (literal "{\"error\":\"control loop did not respond in time\"}")
acknowledged details terminated =
    json_response 503 (literal "{\"error\":\"control loop terminated\"}")
acknowledged details unreachable =
    json_response 503 (literal "{\"error\":\"control loop unavailable\"}")

-- The event that reaches the control loop, if there is one.
abbrev pub delivered : Ack → Event → Option Event
delivered unreachable event = none
delivered _ event = some event

unfoldable pub task_named : String → Option TaskKind
task_named name =
    if str_eq name "recovery"
    then some recovery
    else if str_eq name "backup"
    then some backup
    else if str_eq name "disk-monitor"
    then some disk_monitor
    else if str_eq name "disk_monitor"
    then some disk_monitor
    else if str_eq name "apt-updates"
    then some apt_updates
    else if str_eq name "apt_updates"
    then some apt_updates
    else if str_eq name "docker-updates"
    then some docker_updates
    else if str_eq name "docker_updates"
    then some docker_updates
    else if str_eq name "daily-summary"
    then some daily_summary
    else if str_eq name "daily_summary"
    then some daily_summary
    else none

unfoldable pub action_named : String → Option RemediationAction
action_named name =
    if str_eq name "RestartService"
    then some RemediationAction.restart_service
    else if str_eq name "DockerRestart"
    then some RemediationAction.docker_restart
    else if str_eq name "TriggerBackup"
    then some RemediationAction.trigger_backup
    else if str_eq name "MarkMaintenance"
    then some RemediationAction.mark_maintenance
    else if str_eq name "ClearMaintenance"
    then some RemediationAction.clear_maintenance
    else if str_eq name "ClearBreaker"
    then some RemediationAction.clear_breaker
    else if str_eq name "ClearFlapping"
    then some RemediationAction.clear_flapping
    else if str_eq name "RunDiskCleanup"
    then some RemediationAction.run_disk_cleanup
    else if str_eq name "ResticUnlock"
    then some RemediationAction.restic_unlock
    else none

unauthorized : Response
unauthorized = json_response 401 (literal "{\"error\":\"unauthorized\"}")

-- After the header was accepted.
unfoldable pub trigger_task : String → Ack → Response × Option Event
trigger_task task_name ack = elim (task_named task_name) [
  | none ↦ (
    json_response 404
        (literal (text_append "{\"error\":\"unknown task: " (text_append task_name "\"}"))),
    none,
  )
  | some task ↦ (
    acknowledged
        (λ detail.
          ("status", text "completed") ∷ ("task", text task_name) ∷ ("detail", text detail) ∷ [])
        ack,
    delivered ack (http_command (trigger task)),
  )
]

unfoldable pub handle_trigger :
    (path auth_header expected_token : String) → Ack → Response × Option Event
unfolding unauthorized
handle_trigger path auth_header expected_token ack =
    if not (is_authorized_bearer auth_header expected_token)
    then (unauthorized, none)
    else trigger_task (or_empty (strip_prefix path "/trigger/")) ack

-- What `get` and `as_str` give on the body of a request.
pub record Remediation : Type 0 where
  pub action : Option String
  pub target : Option String
  pub reason : Option String

-- `.filter(|s| !s.is_empty())`.
abbrev non_empty : Option String → Option ServiceId
non_empty none = none
non_empty (some s) = if str_eq s "" then none else some s

abbrev or_http_api : Option String → String
or_http_api none = "http api"
or_http_api (some s) = s

unfoldable pub remediation_command : Remediation → RemediationAction → CommandRequest
remediation_command parsed action =
    remediate action (non_empty parsed.target) "http:api" (or_http_api parsed.reason)

-- After the body was read as JSON.
unfoldable pub remediate_parsed : Remediation → Ack → Response × Option Event
remediate_parsed parsed ack = elim (action_named (or_empty parsed.action)) [
  | none ↦ (
    json_response 400 (
        literal (
          text_append "{\"error\":\"unknown action: "
            (text_append (or_empty parsed.action) "\"}"))),
    none,
  )
  | some action ↦ (
    acknowledged (λ detail. ("status", text "completed") ∷ ("detail", text detail) ∷ []) ack,
    delivered ack (http_command (remediation_command parsed action)),
  )
]

-- After the header was accepted. `body` is `err` when it cannot be read, and holds `none` when it is
-- no JSON.
unfoldable pub remediate_body : Result (Option Remediation) String → Ack → Response × Option Event
remediate_body (err e) ack =
    (json_response 400 (literal "{\"error\":\"failed to read body\"}"), none)
remediate_body (ok none) ack = (json_response 400 (literal "{\"error\":\"invalid JSON\"}"), none)
remediate_body (ok (some parsed)) ack = remediate_parsed parsed ack

unfoldable pub handle_remediate :
    (auth_header expected_token : String)
    → Result (Option Remediation) String
    → Ack
    → Response × Option Event
unfolding unauthorized
handle_remediate auth_header expected_token body ack =
    if not (is_authorized_bearer auth_header expected_token)
    then (unauthorized, none)
    else remediate_body body ack

pub record Request : Type 0 where
  pub method : String
  pub url : String
  pub auth_header : String
  pub body : Result (Option Remediation) String

-- What the handlers ask of the world outside during a request.
pub record Outside : Type 0 where
  pub snapshot : String
  pub parsed_health : Health
  pub now_epoch : ℕ
  pub now_mono : ℕ
  pub active : Result Bool String
  pub journal : Result ExecResult String
  pub unit_status : Result ExecResult String
  pub ack : Ack

abbrev pub starts_with : String → String → Bool
starts_with s prefix = is_some (strip_prefix s prefix)

unfoldable pub serve_get : Outside → (known_services : List String) → String → Response
unfolding health_response handle_history handle_diagnose not_found
serve_get outside known url =
    if str_eq url "/health"
    then health_response outside.parsed_health outside.now_epoch outside.now_mono
    else if str_eq url "/api/v1/state"
    then json_response 200 (literal outside.snapshot)
    else if starts_with url "/api/v1/history/"
    then handle_history outside.snapshot url
    else if starts_with url "/api/v1/diagnose/"
    then handle_diagnose outside.active outside.journal outside.unit_status url known
    else not_found

-- One turn of the loop of `serve`.
unfoldable pub serve :
    Outside → (token : String) → (known_services : List String) → Request → Response × Option Event
unfolding not_found
serve outside token known request =
    if str_eq request.method "GET"
    then (serve_get outside known request.url, none)
    else if not (str_eq request.method "POST")
    then (not_found, none)
    else if starts_with request.url "/trigger/"
    then handle_trigger request.url request.auth_header token outside.ack
    else if str_eq request.url "/api/v1/remediate"
    then handle_remediate request.auth_header token request.body outside.ack
    else (not_found, none)
