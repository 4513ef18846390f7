-- ===== src/Cratonctl/Outcome.antt =====
-- cratonctl/mod.rs with auth.rs and http.rs: a command from the arguments of the operator to the control
-- loop, and the exit code.
use first_fork.Common.{
  inl, inr, ◌≡◌, ◌≢◌, ◌≤◌, ◌<◌, ℕ, ltb, if◌then◌else◌, Bool-cases, ◌↔◌, refl, Bool, true, false,
  Option, some, List, String, Result, ok, err, arith, Result-cases,
}
use first_fork.Model.{CommandRequest, http_command, accepted, rejected, HttpCommandResponse}
use first_fork.Http.Responses.{Field, Response, Body}
use first_fork.Http.Server.{Remediation, Ack, Outside, delivered, acknowledged, serve}
use first_fork.Cratonctl.Errors.{CratonctlError, exit_code}
use first_fork.Cratonctl.Auth.{GlobalArgs, ReadFile, ResolvedConfig, resolve_with, require_token}
use first_fork.Cratonctl.Cli.{Command}
use first_fork.Cratonctl.Client.{Endpoint, Received, decode_json_response, is_success}
use first_fork.Cratonctl.Tokens.{resolve_with-valid}
use first_fork.Cratonctl.Commands.{
  Post, Wire, CommandAccepted, post_of, request_of, send_post, exit_of,
}
use first_fork.Http.Body.{read_request}
use first_fork.Cratonctl.Mutations.{intended, Served, AllRead, command-Served}

-- What is read of a response, with the text that serde writes for its body.
abbrev pub received : (print : Body → String) → Response → Received
received print response = record { status = response.status; body = print response.body }

-- `set_read_timeout`, in seconds.
abbrev pub read_timeout : ℕ
read_timeout = 5

-- How long the daemon waits for the control loop, in seconds.
abbrev pub ack_timeout : ℕ
ack_timeout = 10

-- What serde writes and reads, at both ends.
pub record Json : Type 0 where
  pub print : Remediation → String
  pub parse : List ℕ → Option Remediation
  pub print_body : Body → String
  pub decode : String → Result CommandAccepted String
  pub error_of : String → Option String

-- A daemon that can be reached and whose answer is `waits` seconds away. The client does not wait for more than
-- its read timeout.
unfoldable pub daemon_wire :
    Json → (late : String) → (waits : ℕ) → Outside → (token : String) → (known : List String) → Wire
daemon_wire json late waits outside token known = record {
  print = json.print;
  exchange = λ sent.
      if ltb waits read_timeout
      then ok
          (received json.print_body (serve outside token known (read_request json.parse sent)).0)
      else err (CratonctlError.transport late);
  decode = json.decode;
  error_of = json.error_of;
}

-- The daemon answers at once that the control loop did not take the command, or its answer was no.
abbrev pub is_refused : Ack → Bool
is_refused (Ack.answers (accepted detail)) = false
is_refused (Ack.answers response) = true
is_refused Ack.terminated = true
is_refused Ack.unreachable = true
is_refused Ack.timed_out = false

acknowledged-exit :
    (decode : String → Result CommandAccepted String) (error_of : String → Option String)
    (print : Body → String) (path : String) (details : String → List (String × Field)) (ack : Ack)
    → ack ≢ Ack.timed_out
    → (exit_of
          (decode_json_response decode error_of path (received print (acknowledged details ack)))
        ≡ 1)
      ↔ (is_refused ack ≡ true)
unfolding exit_of exit_code decode_json_response acknowledged is_success
acknowledged-exit decode error_of print path details (Ack.answers (accepted d)) other =
    elim (Result-cases (decode (print (Body.object (details d))))) [
      | inl (v, q) ↦ rw q (λ h. ground (arith, h), λ h. ground (arith, h))
      | inr (e, q) ↦ rw q (λ h. ground (arith, h), λ h. ground (arith, h))
    ]
acknowledged-exit decode error_of print path details (Ack.answers (rejected r)) other =
    (λ h. refl, λ h. refl)
acknowledged-exit decode error_of print path details (Ack.answers (HttpCommandResponse.error e))
      other =
    (λ h. refl, λ h. refl)
acknowledged-exit decode error_of print path details Ack.timed_out other = absurd (other refl)
acknowledged-exit decode error_of print path details Ack.terminated other = (λ h. refl, λ h. refl)
acknowledged-exit decode error_of print path details Ack.unreachable other = (λ h. refl, λ h. refl)

module _ (outside : Outside) (known : List String) (global : GlobalArgs)
    (url_env token_env : Option String) (read_file : ReadFile) (resolved : ResolvedConfig)
    (token : String) (endpoint : Endpoint) (json : Json) (root : endpoint.base_path ≡ "")
    (resolves : resolve_with global url_env token_env read_file ≡ ok resolved)
    (holds : require_token resolved ≡ ok token) (command : Command) (post : Post)
    (request : CommandRequest) (posts : post_of command ≡ some post)
    (wanted : intended command ≡ some request)
    (read : AllRead json.print json.parse post.body) where
  served : Served outside.ack (http_command request) (
      serve outside token known
        (read_request json.parse (request_of json.print endpoint token post)))
  served =
      let valid =
        resolve_with-valid global url_env token_env read_file resolved token resolves holds in
      command-Served outside known json.print json.parse endpoint token root valid command post
        request posts wanted read

  -- A known command that changes something, whose token was resolved, sent to a daemon that expects this token
  -- and whose URL has no path: the daemon hands the command that the operator meant to the control loop, unless
  -- the loop cannot be reached. The JSON text of a remediation has 4096 bytes at most, as the daemon reads no
  -- more, and serde reads it back.
  pub request_of-serve :
      (serve outside token known
        (read_request json.parse (request_of json.print endpoint token post))).1
      ≡ delivered outside.ack (http_command request)
  request_of-serve = let (details, e) = served in rw e refl

  -- A command ends with the exit code 1 just when its answer is a refusal and comes within the five seconds
  -- that the client waits: a known command that changes something, whose token was resolved, sent to a daemon that
  -- can be reached, expects this token, and whose URL has no path, with a JSON text of 4096 bytes at most. The
  -- daemon waits ten seconds for the control loop, so the client never sees that it gave up.
  pub send_post-exit :
      (late : String) (waits : ℕ)
      → (outside.ack ≡ Ack.timed_out → ack_timeout ≤ waits)
      → (exit_of
            (send_post (daemon_wire json late waits outside token known) endpoint resolved post)
          ≡ 1)
        ↔ ((waits < read_timeout) × (is_refused outside.ack ≡ true))
  unfolding send_post daemon_wire exit_of exit_code
  send_post-exit late waits slow =
      let (details, e) = served in
      elim (Bool-cases (ltb waits read_timeout)) [
        | inl q ↦
            let soon : waits < read_timeout = ground (arith, q) in
            let answered : outside.ack ≢ Ack.timed_out =
              λ h. let long = slow h in absurd (omega (arith, soon, long)) in
            let (to, from) =
              acknowledged-exit json.decode json.error_of json.print_body post.path details
                outside.ack answered in
            rw (holds, q, e, send_post) (λ h. (soon, to h), λ (_, h). from h)
        | inr q ↦
            rw (holds, q, send_post)
              (
                λ h. ground (arith, h),
                λ (soon, h). absurd (let no_time = soon in ground (arith, q, no_time)),
              )
      ]
