-- ===== src/Cratonctl/Mutations.antt =====
-- cratonctl/mod.rs with http.rs: what becomes of a command of the client at the daemon.
use first_fork.Common.{
  ℕ, ◌≤◌, length, inl, inr, ◌≡◌, ◌⊎◌, refl, sym, subst, true, Option, none, some, String, arith,
  str_eq, eq_iff, Bool-cases, Option-cases, if◌then◌else◌, strip_prefix, strip_prefix-append, List,
  [], ◌∷◌,
}
use first_fork.Model.{
  TaskKind, RemediationAction, restart_service, restic_unlock, docker_restart, mark_maintenance,
  clear_maintenance, clear_flapping, run_disk_cleanup, clear_breaker, backup, CommandRequest,
  trigger, remediate, ServiceId, Event, http_command,
}
use first_fork.Http.Bearer.{as_bytes}
use first_fork.Http.Body.{body_limit, take-all, read_request}
use first_fork.Http.Responses.{Field, Response, or_empty}
use first_fork.Http.Server.{
  Ack, Remediation, Outside, delivered, acknowledged, task_named, action_named, trigger_task,
  remediate_parsed, remediate_body, remediation_command, handle_trigger, handle_remediate, serve,
}
use first_fork.Cratonctl.Auth.{is_valid_token}
use first_fork.Cratonctl.Cli.{Command}
use first_fork.Cratonctl.Client.{Endpoint, full_path, path_segment}
use first_fork.Cratonctl.Tokens.{is_authorized_bearer-bearer}
use first_fork.Cratonctl.Commands.{
  Post, trigger_post, remediation_post, build_remediation_body, post_of, request_of, body_text,
}

-- The specification: what a command of the operator asks of the control loop. An empty target is none.
abbrev named_target : String → Option ServiceId
named_target s = if str_eq s "" then none else some s

abbrev wants : RemediationAction → (target : Option ServiceId) → (reason : String) → CommandRequest
wants action target reason = remediate action target "http:api" reason

abbrev triggers : Option TaskKind → Option CommandRequest
triggers none = none
triggers (some task) = some (trigger task)

unfoldable pub intended : Command → Option CommandRequest
intended (Command.trigger task) = triggers (task_named task)
intended (Command.restart s) = some (wants restart_service (named_target s) "http api")
intended (Command.docker_restart c) = some (wants docker_restart (named_target c) "operator")
intended (Command.maintenance_set s reason) = some (wants mark_maintenance (named_target s) reason)
intended (Command.maintenance_clear s) = some (wants clear_maintenance (named_target s) "http api")
intended (Command.breaker_clear s) = some (wants clear_breaker (named_target s) "http api")
intended (Command.flapping_clear s) = some (wants clear_flapping (named_target s) "http api")
intended Command.backup_run = some (trigger backup)
intended Command.backup_unlock = some (wants restic_unlock none "http api")
intended Command.disk_cleanup = some (wants run_disk_cleanup none "http api")
intended _ = none

-- The text is in the chain of tests or one of those that follow.
one_name :
    {A : Type 0} (name lit : String) (k : A) (rest : Option A) (a : A)
    → (if str_eq name lit then some k else rest) ≡ some a
    → (name ≡ lit) ⊎ (rest ≡ some a)
one_name name lit k rest a h = elim (Bool-cases (str_eq name lit)) [
  | inl q ↦ inl ((eq_iff name lit).0 q)
  | inr q ↦ inr (rw q at h)
]

plain : (name lit : String) → name ≡ lit → path_segment lit ≡ lit → path_segment name ≡ name
plain name lit e h = subst (λ n. path_segment n ≡ n) (sym e) h

-- The names of tasks stand in a path as they are.
path_segment-task_named :
    (name : String) (task : TaskKind) → task_named name ≡ some task → path_segment name ≡ name
unfolding task_named path_segment
path_segment-task_named name task h = elim (one_name name "recovery" _ _ task h) [
  | inl e ↦ plain name "recovery" e refl
  | inr h ↦ elim (one_name name "backup" _ _ task h) [
    | inl e ↦ plain name "backup" e refl
    | inr h ↦ elim (one_name name "disk-monitor" _ _ task h) [
      | inl e ↦ plain name "disk-monitor" e refl
      | inr h ↦ elim (one_name name "disk_monitor" _ _ task h) [
        | inl e ↦ plain name "disk_monitor" e refl
        | inr h ↦ elim (one_name name "apt-updates" _ _ task h) [
          | inl e ↦ plain name "apt-updates" e refl
          | inr h ↦ elim (one_name name "apt_updates" _ _ task h) [
            | inl e ↦ plain name "apt_updates" e refl
            | inr h ↦ elim (one_name name "docker-updates" _ _ task h) [
              | inl e ↦ plain name "docker-updates" e refl
              | inr h ↦ elim (one_name name "docker_updates" _ _ task h) [
                | inl e ↦ plain name "docker_updates" e refl
                | inr h ↦ elim (one_name name "daily-summary" _ _ task h) [
                  | inl e ↦ plain name "daily-summary" e refl
                  | inr h ↦ elim (one_name name "daily_summary" _ _ task h) [
                    | inl e ↦ plain name "daily_summary" e refl
                    | inr h ↦ ground (arith, h)
                  ]
                ]
              ]
            ]
          ]
        ]
      ]
    ]
  ]
]

abbrev remedied : String → List (String × Field)
remedied detail = ("status", Field.text "completed") ∷ ("detail", Field.text detail) ∷ []

abbrev triggered : (task detail : String) → List (String × Field)
triggered task detail =
    ("status", Field.text "completed")
    ∷ ("task", Field.text task)
    ∷ ("detail", Field.text detail)
    ∷ []

-- The request was handed to the control loop, and its answer is the response.
abbrev pub Served : Ack → Event → Response × Option Event → Type 0
Served ack event out =
    (details : String → List (String × Field)) × (out
      ≡ (acknowledged details ack, delivered ack event))

remediate_parsed-named :
    (parsed : Remediation) (ack : Ack) (a : RemediationAction)
    → action_named (or_empty parsed.action) ≡ some a
    → Served ack (http_command (remediation_command parsed a)) (remediate_parsed parsed ack)
unfolding remediate_parsed
remediate_parsed-named parsed ack a named = (remedied, rw (named, remediate_parsed) refl)

trigger_task-named :
    (task : String) (ack : Ack) (k : TaskKind)
    → task_named task ≡ some k
    → Served ack (http_command (trigger k)) (trigger_task task ack)
unfolding trigger_task
trigger_task-named task ack k named = (triggered task, rw (named, trigger_task) refl)

-- The bytes of the body are all read, and serde reads back what it wrote.
pub record IsReadBack (print : Remediation → String) (parse : List ℕ → Option Remediation)
    (body : Remediation) : Type 0 where
  pub fits : length (as_bytes (print body)) ≤ body_limit
  pub reads : parse (as_bytes (print body)) ≡ some body

-- That of the body of a request, if it has one.
abbrev pub AllRead :
    (print : Remediation → String) (parse : List ℕ → Option Remediation)
    → Option Remediation
    → Type 0
AllRead print parse none = Unit {0}
AllRead print parse (some body) = IsReadBack print parse body

module _ (outside : Outside) (known : List String) (print : Remediation → String)
    (parse : List ℕ → Option Remediation) (endpoint : Endpoint) (token : String)
    (root : endpoint.base_path ≡ "") (valid : is_valid_token token ≡ true) where
  abbrev sent : Post → Response × Option Event
  sent post = serve outside token known (read_request parse (request_of print endpoint token post))

  serve-remediation :
      (action : String) (target reason : Option String) (a : RemediationAction)
      → action_named action ≡ some a
      → AllRead print parse (remediation_post action target reason).body
      → Served outside.ack
          (http_command (remediation_command (build_remediation_body action target reason) a))
          (sent (remediation_post action target reason))
  unfolding serve handle_remediate remediate_body read_request request_of body_text remediation_post
      build_remediation_body full_path strip_prefix
  serve-remediation action target reason a named read =
      let back : IsReadBack print parse (build_remediation_body action target reason) = read in
      rw
        (
          root,
          is_authorized_bearer-bearer token valid,
          take-all body_limit (as_bytes (print (build_remediation_body action target reason)))
              back.fits,
          back.reads,
        )
        (remediate_parsed-named (build_remediation_body action target reason) outside.ack a named)

  serve-trigger :
      (task : String) (k : TaskKind)
      → task_named task ≡ some k
      → Served outside.ack (http_command (trigger k)) (sent (trigger_post task))
  unfolding serve handle_trigger read_request request_of trigger_post full_path
  serve-trigger task k named =
      rw
        (
          root,
          path_segment-task_named task k named,
          strip_prefix-append "/trigger/" task,
          is_authorized_bearer-bearer token valid,
        )
        (trigger_task-named task outside.ack k named)

  -- Where a command of the operator is known, its request is served. Of a task that the daemon does not
  -- know nothing is said.
  Reaches : Option Post → Option CommandRequest → Type 0
  Reaches none none = Unit {0}
  Reaches none (some r) = ⊥
  Reaches (some post) none = Unit {0}
  Reaches (some post) (some r) =
      AllRead print parse post.body → Served outside.ack (http_command r) (sent post)

  trigger-Reaches :
      (task : String) → Reaches (some (trigger_post task)) (triggers (task_named task))
  unfolding Reaches
  trigger-Reaches task = elim (Option-cases (task_named task)) [
    | inl q ↦ rw q tt
    | inr (k, q) ↦ rw q (λ read. serve-trigger task k q)
  ]

  command-Reaches : (command : Command) → Reaches (post_of command) (intended command)
  unfolding Reaches post_of intended action_named task_named remediation_command
      build_remediation_body
  command-Reaches (Command.help t b) = tt
  command-Reaches Command.auth_status = tt
  command-Reaches Command.health = tt
  command-Reaches Command.status = tt
  command-Reaches Command.services = tt
  command-Reaches (Command.service i) = tt
  command-Reaches (Command.history k) = tt
  command-Reaches (Command.diagnose s) = tt
  command-Reaches Command.doctor = tt
  command-Reaches (Command.init args) = tt
  command-Reaches (Command.trigger task) = trigger-Reaches task
  command-Reaches (Command.restart s) = serve-remediation _ _ _ restart_service refl
  command-Reaches (Command.docker_restart c) = serve-remediation _ _ _ docker_restart refl
  command-Reaches (Command.maintenance_set s reason) = serve-remediation _ _ _ mark_maintenance refl
  command-Reaches (Command.maintenance_clear s) = serve-remediation _ _ _ clear_maintenance refl
  command-Reaches (Command.breaker_clear s) = serve-remediation _ _ _ clear_breaker refl
  command-Reaches (Command.flapping_clear s) = serve-remediation _ _ _ clear_flapping refl
  command-Reaches Command.backup_run = λ read. serve-trigger "backup" backup refl
  command-Reaches Command.backup_unlock = serve-remediation _ _ _ restic_unlock refl
  command-Reaches Command.disk_cleanup = serve-remediation _ _ _ run_disk_cleanup refl

  pub command-Served :
      (command : Command) (post : Post) (r : CommandRequest)
      → post_of command ≡ some post
      → intended command ≡ some r
      → AllRead print parse post.body
      → Served outside.ack (http_command r) (sent post)
  unfolding Reaches
  command-Served command post r h k = rw (h, k) at (command-Reaches command)
