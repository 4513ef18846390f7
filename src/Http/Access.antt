-- ===== src/Http/Access.antt =====
-- http.rs: who may send commands to the control loop, and when the daemon reports itself healthy.
use first_fork.Common.{
  inl, inr, ◌≡◌, ◌≢◌, refl, not, Option, none, some, List, String, Result, ok, err, str_eq, eq_iff,
  if◌then◌else◌, arith, Bool-cases, Option-cases, subst,
}
use first_fork.Model.{
  ServiceId, TaskKind, RemediationAction, trigger, remediate, Event, http_command,
}
use first_fork.Http.Bearer.{is_authorized_bearer, as_bytes, provided_token}
use first_fork.Http.Equality.{is_authorized_bearer_iff}
use first_fork.Http.Responses.{Response, or_empty}
use first_fork.Http.Server.{
  Ack, delivered, Remediation, Request, Outside, task_named, action_named, handle_trigger,
  handle_remediate, remediation_command, serve, trigger_task, remediate_parsed, remediate_body,
  starts_with,
}

-- A command that the API may send; what is recorded as its source never holds the token.
pub data IsApiCommand : Event → Type 0 where
  triggers : (task : TaskKind) → IsApiCommand (http_command (trigger task))
  remedies :
      (action : RemediationAction) (target : Option ServiceId) (reason : String)
      → IsApiCommand (http_command (remediate action target "http:api" reason))

-- The token is set, and the header gives the same bytes.
abbrev pub Knows : String → String → Type 0
Knows header token = (token ≢ "") × (as_bytes (provided_token header) ≡ as_bytes token)

delivered-same : (ack : Ack) (event e : Event) → delivered ack event ≡ some e → event ≡ e
delivered-same (Ack.answers r) event e h = cc
delivered-same Ack.timed_out event e h = cc
delivered-same Ack.terminated event e h = cc
delivered-same Ack.unreachable event e h = ground (arith, h)

trigger_task-event :
    (name : String) (ack : Ack) (e : Event) → (trigger_task name ack).1 ≡ some e → IsApiCommand e
unfolding trigger_task
trigger_task-event name ack e h = elim (Option-cases (task_named name)) [
  | inl q ↦ ground (arith, rw (q, trigger_task) at h)
  | inr (task, q) ↦
      subst IsApiCommand
        (delivered-same ack (http_command (trigger task)) e (rw (q, trigger_task) at h))
        (IsApiCommand.triggers task)
]

remediate_parsed-event :
    (parsed : Remediation) (ack : Ack) (e : Event)
    → (remediate_parsed parsed ack).1 ≡ some e
    → IsApiCommand e
unfolding remediate_parsed remediation_command
remediate_parsed-event parsed ack e h =
    elim (Option-cases (action_named (or_empty parsed.action))) [
      | inl q ↦ ground (arith, rw (q, remediate_parsed) at h)
      | inr (action, q) ↦
          subst IsApiCommand
            (delivered-same ack (http_command (remediation_command parsed action)) e
              (rw (q, remediate_parsed) at h))
            (IsApiCommand.remedies action _ _)
    ]

remediate_body-event :
    (body : Result (Option Remediation) String) (ack : Ack) (e : Event)
    → (remediate_body body ack).1 ≡ some e
    → IsApiCommand e
unfolding remediate_body
remediate_body-event (err x) ack e h = ground (arith, h)
remediate_body-event (ok none) ack e h = ground (arith, h)
remediate_body-event (ok (some parsed)) ack e h = remediate_parsed-event parsed ack e h

-- A handler that first asks for the token sends an event only to a client that knows it.
guarded-event :
    (header token : String) (refused accepted : Response × Option Event) (e : Event)
    → refused.1 ≡ none
    → (if not (is_authorized_bearer header token) then refused else accepted).1 ≡ some e
    → Knows header token × (accepted.1 ≡ some e)
guarded-event header token refused accepted e silent h =
    elim (Bool-cases (is_authorized_bearer header token)) [
      | inl q ↦ ((is_authorized_bearer_iff header token).0 q, rw q at h)
      | inr q ↦ ground (arith, silent, rw q at h)
    ]

handle_trigger-event :
    (path header token : String) (ack : Ack) (e : Event)
    → (handle_trigger path header token ack).1 ≡ some e
    → Knows header token × IsApiCommand e
unfolding handle_trigger
handle_trigger-event path header token ack e h =
    let (knows, sent) = guarded-event header token _ (trigger_task _ ack) e refl h in
    (knows, trigger_task-event _ ack e sent)

handle_remediate-event :
    (header token : String) (body : Result (Option Remediation) String) (ack : Ack) (e : Event)
    → (handle_remediate header token body ack).1 ≡ some e
    → Knows header token × IsApiCommand e
unfolding handle_remediate
handle_remediate-event header token body ack e h =
    let (knows, sent) = guarded-event header token _ (remediate_body body ack) e refl h in
    (knows, remediate_body-event body ack e sent)

-- The server sends an event to the control loop only for a POST whose header gives the token, which is
-- not empty, and the event is a task or a remediation whose source is recorded as `http:api`.
pub serve-event :
    (outside : Outside) (token : String) (known : List String) (request : Request) (e : Event)
    → (serve outside token known request).1 ≡ some e
    → (request.method ≡ "POST") × Knows request.auth_header token × IsApiCommand e
unfolding serve
serve-event outside token known request e h = elim (Bool-cases (str_eq request.method "GET")) [
  | inl q ↦ ground (arith, rw (q, serve) at h)
  | inr q ↦ elim (Bool-cases (str_eq request.method "POST")) [
    | inr r ↦ ground (arith, rw (q, r, serve) at h)
    | inl r ↦
        let post = (eq_iff request.method "POST").0 r in
        elim (Bool-cases (starts_with request.url "/trigger/")) [
          | inl t ↦
              let (knows, sent) = handle_trigger-event _ _ _ _ e (rw (q, r, t, serve) at h) in
              (post, knows, sent)
          | inr t ↦ elim (Bool-cases (str_eq request.url "/api/v1/remediate")) [
            | inl u ↦
                let (knows, sent) =
                  handle_remediate-event _ _ _ _ e (rw (q, r, t, u, serve) at h) in
                (post, knows, sent)
            | inr u ↦ ground (arith, rw (q, r, t, u, serve) at h)
          ]
        ]
  ]
]
