-- ===== src/Cratonctl/Errors.antt =====
-- cratonctl/error.rs: the errors of the client.
use Prim.Native.String.{◌++◌ as text_append}
use first_fork.Common.{ℕ, String}

pub data AuthError : Type 0 where
  not_provided : AuthError
  inline_invalid : (source : String) → AuthError
  file_missing : (path : String) → AuthError
  file_unreadable : (path message : String) → AuthError
  file_invalid : (path reason : String) → AuthError

pub data CratonctlError : Type 0 where
  usage config : String → CratonctlError
  auth : AuthError → CratonctlError
  transport parse daemon : String → CratonctlError

unfoldable pub exit_code : CratonctlError → ℕ
exit_code (daemon _) = 1
exit_code _ = 2

unfoldable pub code : CratonctlError → String
code (usage _) = "usage_error"
code (config _) = "config_error"
code (auth not_provided) = "token_not_provided"
code (auth (inline_invalid _)) = "token_invalid"
code (auth (file_missing _)) = "token_file_missing"
code (auth (file_unreadable _ _)) = "token_file_unreadable"
code (auth (file_invalid _ _)) = "token_file_invalid"
code (transport _) = "transport_error"
code (parse _) = "parse_error"
code (daemon _) = "daemon_error"

unfoldable pub auth_message : AuthError → String
auth_message not_provided =
    "token required for mutating command; use --token, CRATONCTL_TOKEN, or --token-file"
auth_message (inline_invalid source) =
    text_append "token provided via " (text_append source " is empty or whitespace")
auth_message (file_missing path) = text_append "token file not found: " path
auth_message (file_unreadable path message) =
    text_append "token file is not readable: "
      (text_append path (text_append " (" (text_append message ")")))
auth_message (file_invalid path reason) =
    text_append "token file is invalid: "
      (text_append path (text_append " (" (text_append reason ")")))

unfoldable pub message : CratonctlError → String
unfolding auth_message
message (usage m) = m
message (config m) = m
message (transport m) = m
message (parse m) = m
message (daemon m) = m
message (auth e) = auth_message e
