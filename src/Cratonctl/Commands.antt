-- ===== src/Cratonctl/Commands.antt =====
-- cratonctl/mod.rs: the commands that change something. What they print is left out. The exchange
-- with the daemon and JSON are parameters.
use Prim.Native.String.{◌++◌}
use first_fork.Common.{ℕ, Option, none, some, String, Result, ok, err, ◌>>=◌}
use first_fork.Http.Server.{Remediation}
use first_fork.Http.Body.{Sent}
use first_fork.Cratonctl.Errors.{CratonctlError, exit_code}
use first_fork.Cratonctl.Auth.{ResolvedConfig, require_token}
use first_fork.Cratonctl.Cli.{Command}
use first_fork.Cratonctl.Client.{Endpoint, Received, full_path, path_segment, decode_json_response}
use first_fork.Cratonctl.Tokens.{bearer}

-- What is sent after POST: the path, and the members of the JSON object in the body; a body without them is
-- the text `{}`.
pub record Post : Type 0 where
  pub path : String
  pub body : Option Remediation

unfoldable pub trigger_post : (task : String) → Post
trigger_post task = record { path = "/trigger/" ++ path_segment task; body = none }

-- `build_remediation_body`: a member that is not given is not in the object.
unfoldable pub build_remediation_body :
    (action : String) (target reason : Option String) → Remediation
build_remediation_body action target reason = record {
  action = some action;
  target = target;
  reason = reason;
}

unfoldable pub remediation_post : (action : String) (target reason : Option String) → Post
unfolding build_remediation_body
remediation_post action target reason = record {
  path = "/api/v1/remediate";
  body = some (build_remediation_body action target reason);
}

-- The arms of `run_cli` that change something.
unfoldable pub post_of : Command → Option Post
unfolding trigger_post remediation_post
post_of (Command.trigger task) = some (trigger_post task)
post_of (Command.restart s) = some (remediation_post "RestartService" (some s) none)
post_of (Command.docker_restart c) =
    some (remediation_post "DockerRestart" (some c) (some "operator"))
post_of (Command.maintenance_set s reason) =
    some (remediation_post "MarkMaintenance" (some s) (some reason))
post_of (Command.maintenance_clear s) = some (remediation_post "ClearMaintenance" (some s) none)
post_of (Command.breaker_clear s) = some (remediation_post "ClearBreaker" (some s) none)
post_of (Command.flapping_clear s) = some (remediation_post "ClearFlapping" (some s) none)
post_of Command.backup_run = some (trigger_post "backup")
post_of Command.backup_unlock = some (remediation_post "ResticUnlock" none none)
post_of Command.disk_cleanup = some (remediation_post "RunDiskCleanup" none none)
post_of _ = none

-- `print` is the text that serde writes for the object.
unfoldable pub body_text : (print : Remediation → String) → Option Remediation → String
body_text print none = "{}"
body_text print (some body) = print body

unfoldable pub request_of :
    (print : Remediation → String) → Endpoint → (token : String) → Post → Sent
unfolding body_text
request_of print endpoint token post = record {
  method = "POST";
  url = full_path endpoint.base_path post.path;
  auth_header = bearer token;
  body = body_text print post.body;
}

-- A response that was accepted.
pub record CommandAccepted : Type 0 where
  pub status : String
  pub detail : Option String
  pub task : Option String

-- What the client asks of the world outside.
pub record Wire : Type 0 where
  pub print : Remediation → String
  pub exchange : Sent → Result Received CratonctlError
  pub decode : String → Result CommandAccepted String
  pub error_of : String → Option String

-- `handle_trigger` and `remediate` up to the answer.
unfoldable pub send_post :
    Wire → Endpoint → ResolvedConfig → Post → Result CommandAccepted CratonctlError
send_post wire endpoint resolved post = do
  token ← require_token resolved
  response ← wire.exchange (request_of wire.print endpoint token post)
  decode_json_response wire.decode wire.error_of post.path response

-- `run`: the code that the process ends with.
unfoldable pub exit_of : Result CommandAccepted CratonctlError → ℕ
exit_of (ok accepted) = 0
exit_of (err e) = exit_code e
