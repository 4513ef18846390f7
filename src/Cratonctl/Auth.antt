-- ===== src/Cratonctl/Auth.antt =====
-- cratonctl/auth.rs: where the client takes the URL and the token from. The environment and the
-- files are parameters.
use Prim.Native.String.{◌++◌ as text_append}
use first_fork.Common.{
  Bool, true, false, not, ◌&&◌, Option, none, some, List, [], ◌∷◌, String, Result, ok, err, ◌>>=◌,
  str_eq, is_some, strip_prefix, trim, has_whitespace, if◌then◌else◌,
}
use first_fork.Cratonctl.Errors.{
  not_provided, inline_invalid, file_missing, file_unreadable, file_invalid, CratonctlError, auth,
  message,
}

abbrev pub default_url : String
default_url = "http://127.0.0.1:18800"

abbrev pub default_token_file : String
default_token_file = "/var/lib/craton/remediation-token"

pub record GlobalArgs : Type 0 where
  pub url : Option String
  pub token : Option String
  pub token_file : Option String
  pub json : Bool
  pub quiet : Bool
  pub no_color : Bool

pub data TokenResolution : Type 0 where
  available : String → TokenResolution
  missing : (path : String) (explicit : Bool) → TokenResolution
  unreadable : (path message : String) → TokenResolution
  invalid : (path reason : String) → TokenResolution

pub data SelectedSource : Type 0 where
  flag env token_file autodiscovery : SelectedSource

pub record ResolvedConfig : Type 0 where
  pub url : String
  pub token : TokenResolution
  pub selected_source : SelectedSource

pub data FileInspection : Type 0 where
  available : (token : String) → FileInspection
  missing : FileInspection
  unreadable : (message : String) → FileInspection
  invalid : (reason : String) → FileInspection

-- What reading a file fails with.
pub data IoError : Type 0 where
  not_found : IoError
  other : (message : String) → IoError

abbrev pub ReadFile : Type 0
ReadFile = String → Result String IoError

unfoldable pub is_valid_token : String → Bool
is_valid_token token = not (str_eq token "") && not (has_whitespace token)

unfoldable pub normalize_inline_token :
    Option String → (source : String) → Result (Option String) CratonctlError
normalize_inline_token none source = ok none
normalize_inline_token (some value) source =
    if is_valid_token (trim value)
    then ok (some (trim value))
    else err (auth (inline_invalid source))

unfoldable pub inspect_content : Result String IoError → FileInspection
inspect_content (ok content) =
    if str_eq (trim content) ""
    then FileInspection.invalid "file is empty"
    else if not (is_valid_token (trim content))
    then FileInspection.invalid "file contains whitespace"
    else FileInspection.available (trim content)
inspect_content (err not_found) = FileInspection.missing
inspect_content (err (other m)) = FileInspection.unreadable m

abbrev pub inspect_token_file : String → ReadFile → FileInspection
inspect_token_file path read_file = inspect_content (read_file path)

unfoldable pub resolution_of : (path : String) (explicit : Bool) → FileInspection → TokenResolution
resolution_of path explicit (FileInspection.available token) = TokenResolution.available token
resolution_of path explicit FileInspection.missing = TokenResolution.missing path explicit
resolution_of path explicit (FileInspection.unreadable m) = TokenResolution.unreadable path m
resolution_of path explicit (FileInspection.invalid r) = TokenResolution.invalid path r

unfoldable pub read_token_file : String → (explicit : Bool) → ReadFile → TokenResolution
read_token_file path explicit read_file =
    resolution_of path explicit (inspect_token_file path read_file)

-- `or`, `unwrap_or`.
abbrev pub or_else {ℓ} : {A : Type ℓ} → Option A → A → A
or_else none a = a
or_else (some b) a = b

-- `--url`, then the environment, then the default.
unfoldable pub resolved_url : GlobalArgs → (url_env : Option String) → String
resolved_url global url_env = or_else global.url (or_else url_env default_url)

-- When neither the flag nor the environment gives a token.
unfoldable pub token_from_file : GlobalArgs → ReadFile → TokenResolution × SelectedSource
token_from_file global read_file = (
  read_token_file (or_else global.token_file default_token_file) (is_some global.token_file)
      read_file,
  if is_some global.token_file then SelectedSource.token_file else autodiscovery,
)

unfoldable pub token_from_env :
    GlobalArgs
    → (token_env : Option String) → ReadFile
    → Result (TokenResolution × SelectedSource) CratonctlError
token_from_env global token_env read_file = do
  found ← normalize_inline_token token_env "CRATONCTL_TOKEN"
  elim found [
    | some token ↦ ok (TokenResolution.available token, env)
    | none ↦ ok (token_from_file global read_file)
  ]

unfoldable pub resolve_token :
    GlobalArgs
    → (token_env : Option String) → ReadFile
    → Result (TokenResolution × SelectedSource) CratonctlError
resolve_token global token_env read_file = do
  found ← normalize_inline_token global.token "--token"
  elim found [
    | some token ↦ ok (TokenResolution.available token, flag)
    | none ↦ token_from_env global token_env read_file
  ]

unfoldable pub resolve_with :
    GlobalArgs
    → (url_env token_env : Option String) → ReadFile
    → Result ResolvedConfig CratonctlError
resolve_with global url_env token_env read_file =
    let url = resolved_url global url_env in
    if not (is_some (strip_prefix url "http://"))
    then err (
        CratonctlError.config (
          text_append "unsupported URL scheme in "
            (text_append url "; only http:// is supported in MVP")))
    else do
      found ← resolve_token global token_env read_file
      ok (record { url = url; token = found.0; selected_source = found.1 })

unfoldable pub required : TokenResolution → Result String CratonctlError
required (TokenResolution.available token) = ok token
required (TokenResolution.missing path explicit) =
    err (auth (if explicit then file_missing path else not_provided))
required (TokenResolution.unreadable path m) = err (auth (file_unreadable path m))
required (TokenResolution.invalid path reason) = err (auth (file_invalid path reason))

unfoldable pub require_token : ResolvedConfig → Result String CratonctlError
unfolding required
require_token resolved = required resolved.token

pub record TokenDiagnostic : Type 0 where
  pub status : String
  pub code : String
  pub detail : String

-- ` (why)` behind a text.
because : String → String → String
because s why = text_append s (text_append " (" (text_append why ")"))

unfoldable pub diagnose_token : ResolvedConfig → TokenDiagnostic
unfolding because
diagnose_token resolved = elim resolved.token [
  | TokenResolution.available token ↦ record {
    status = "ok";
    code = "token_available";
    detail = "mutating auth looks available";
  }
  | TokenResolution.missing path explicit ↦
      if explicit
      then record {
        status = "fail";
        code = "token_file_missing";
        detail = text_append "token file not found: " path;
      }
      else record {
        status = "warn";
        code = "token_not_provided";
        detail = "token not provided; mutating commands will not be available";
      }
  | TokenResolution.unreadable path m ↦ record {
    status = "fail";
    code = "token_file_unreadable";
    detail = because (text_append "token file is not readable: " path) m;
  }
  | TokenResolution.invalid path reason ↦ record {
    status = "fail";
    code = "token_file_invalid";
    detail = because (text_append "token file is invalid: " path) reason;
  }
]

pub record AuthStatusReport : Type 0 where
  pub url : String
  pub resolution_order : List String
  pub autodiscovery_token_path : String
  pub selected_source : String
  pub token_file_path : String
  pub token_file_status : String
  pub token_file_detail : String
  pub mutating_available : Bool
  pub explanation : String

unfoldable pub label : SelectedSource → String
label flag = "--token"
label env = "CRATONCTL_TOKEN"
label SelectedSource.token_file = "--token-file"
label autodiscovery = "autodiscovery"

unfoldable pub file_status : (path : String) → FileInspection → String × String
unfolding because
file_status path (FileInspection.available token) = ("readable", "token file looks readable")
file_status path FileInspection.missing = ("missing", text_append "token file not found: " path)
file_status path (FileInspection.unreadable m) =
    ("unreadable", because (text_append "token file is not readable: " path) m)
file_status path (FileInspection.invalid reason) =
    ("invalid", because (text_append "token file is invalid: " path) reason)

unfoldable pub explain : (path : String) → SelectedSource → Result String CratonctlError → String
unfolding because message
explain path source (err e) = message e
explain path flag (ok token) = "mutating commands are available via --token"
explain path env (ok token) = "mutating commands are available via CRATONCTL_TOKEN"
explain path SelectedSource.token_file (ok token) =
    because "mutating commands are available via --token-file" path
explain path autodiscovery (ok token) =
    because "mutating commands are available via autodiscovery" default_token_file

abbrev pub is_ok {ℓ κ} : {A : Type ℓ} {E : Type κ} → Result A E → Bool
is_ok (ok a) = true
is_ok (err e) = false

unfoldable pub auth_status_with : GlobalArgs → ResolvedConfig → ReadFile → AuthStatusReport
auth_status_with global resolved read_file =
    let path = or_else global.token_file default_token_file in
    let (status, detail) = file_status path (inspect_token_file path read_file) in
    record {
      url = resolved.url;
      resolution_order = "--token" ∷ "CRATONCTL_TOKEN" ∷ "--token-file" ∷ default_token_file ∷ [];
      autodiscovery_token_path = default_token_file;
      selected_source = label resolved.selected_source;
      token_file_path = path;
      token_file_status = status;
      token_file_detail = detail;
      mutating_available = is_ok (require_token resolved);
      explanation = explain path resolved.selected_source (require_token resolved);
    }
