-- ===== src/Cratonctl/Tokens.antt =====
-- cratonctl/auth.rs and http.rs: the daemon accepts the tokens that the client resolves.
use Prim.Native.String.{◌++◌}
use first_fork.Common.{
  inl, inr, ◌≡◌, refl, Bool, true, Option, none, some, String, Result, ok, err, arith, str_eq,
  eq_iff, trim, trim-has_whitespace, strip_prefix-append, Bool-cases, Result-cases, is_some,
  strip_prefix,
}
use first_fork.Http.Bearer.{is_authorized_bearer, provided_token}
use first_fork.Http.Equality.{is_authorized_bearer_iff}
use first_fork.Cratonctl.Errors.{CratonctlError}
use first_fork.Cratonctl.Auth.{
  GlobalArgs, TokenResolution, ResolvedConfig, IoError, ReadFile, is_valid_token,
  normalize_inline_token, inspect_content, resolution_of, token_from_file, token_from_env,
  resolve_token, resolve_with, require_token, required, resolved_url, read_token_file,
  SelectedSource,
}

-- What the client puts into the header of a request.
abbrev pub bearer : String → String
bearer token = "Bearer " ++ token

is_valid_token-trim : (t : String) → is_valid_token t ≡ true → trim t ≡ t
unfolding is_valid_token
is_valid_token-trim t h = trim-has_whitespace t (ground (arith, h))

pub provided_token-bearer : (t : String) → is_valid_token t ≡ true → provided_token (bearer t) ≡ t
unfolding provided_token strip_prefix
provided_token-bearer t h =
    rw (strip_prefix-append "Bearer " t, provided_token) (is_valid_token-trim t h)

pub is_authorized_bearer-bearer :
    (t : String) → is_valid_token t ≡ true → is_authorized_bearer (bearer t) t ≡ true
unfolding is_valid_token
is_authorized_bearer-bearer t h =
    (is_authorized_bearer_iff (bearer t) t).1
      (λ e. let q = (eq_iff t "").1 e in ground (arith, h, q), rw (provided_token-bearer t h) refl)

-- A token that is at hand is valid.
IsGood : TokenResolution → Type 0
IsGood (TokenResolution.available t) = is_valid_token t ≡ true
IsGood _ = Unit {0}

normalize_inline_token-valid :
    (value : Option String) (source t : String)
    → normalize_inline_token value source ≡ ok (some t)
    → is_valid_token t ≡ true
unfolding normalize_inline_token
normalize_inline_token-valid none source t h = cc
normalize_inline_token-valid (some v) source t h = elim (Bool-cases (is_valid_token (trim v))) [
  | inl q ↦ let e : trim v ≡ t = ground (arith, rw q at h) in rw e at q
  | inr q ↦ ground (arith, rw q at h)
]

resolution_of-IsGood :
    (path : String) (explicit : Bool) (content : Result String IoError)
    → IsGood (resolution_of path explicit (inspect_content content))
unfolding IsGood resolution_of inspect_content
resolution_of-IsGood path explicit (err IoError.not_found) = tt
resolution_of-IsGood path explicit (err (IoError.other m)) = tt
resolution_of-IsGood path explicit (ok content) = elim (Bool-cases (str_eq (trim content) "")) [
  | inl q ↦ rw q tt
  | inr q ↦ elim (Bool-cases (is_valid_token (trim content))) [
    | inl v ↦ rw (q, v) v
    | inr v ↦ rw (q, v) tt
  ]
]

token_from_file-IsGood :
    (global : GlobalArgs) (read_file : ReadFile) → IsGood (token_from_file global read_file).0
unfolding token_from_file read_token_file
token_from_file-IsGood global read_file =
    resolution_of-IsGood _ (is_some global.token_file) (read_file _)

-- What a search for a token finds is good.
Finds : Result (TokenResolution × SelectedSource) CratonctlError → Type 0
Finds (ok found) = IsGood found.0
Finds (err e) = Unit {0}

token_from_env-Finds :
    (global : GlobalArgs) (token_env : Option String) (read_file : ReadFile)
    → Finds (token_from_env global token_env read_file)
unfolding Finds IsGood token_from_env
token_from_env-Finds global token_env read_file =
    elim (Result-cases (normalize_inline_token token_env "CRATONCTL_TOKEN")) [
      | inr (e, q) ↦ rw q tt
      | inl (none, q) ↦ rw q (token_from_file-IsGood global read_file)
      | inl (some t, q) ↦ rw q (normalize_inline_token-valid token_env "CRATONCTL_TOKEN" t q)
    ]

resolve_token-Finds :
    (global : GlobalArgs) (token_env : Option String) (read_file : ReadFile)
    → Finds (resolve_token global token_env read_file)
unfolding Finds IsGood resolve_token
resolve_token-Finds global token_env read_file =
    elim (Result-cases (normalize_inline_token global.token "--token")) [
      | inr (e, q) ↦ rw q tt
      | inl (none, q) ↦ rw q (token_from_env-Finds global token_env read_file)
      | inl (some t, q) ↦ rw q (normalize_inline_token-valid global.token "--token" t q)
    ]

Good : Result ResolvedConfig CratonctlError → Type 0
Good (ok resolved) = IsGood resolved.token
Good (err e) = Unit {0}

resolve_with-Good :
    (global : GlobalArgs) (url_env token_env : Option String) (read_file : ReadFile)
    → Good (resolve_with global url_env token_env read_file)
unfolding Good resolve_with Finds
resolve_with-Good global url_env token_env read_file =
    elim (Bool-cases (is_some (strip_prefix (resolved_url global url_env) "http://"))) [
      | inr q ↦ rw q tt
      | inl q ↦ elim (Result-cases (resolve_token global token_env read_file)) [
        | inr (e, r) ↦ rw (q, r) tt
        | inl (found, r) ↦
            let good = resolve_token-Finds global token_env read_file in rw (q, r) (rw r at good)
      ]
    ]

required-valid :
    (found : TokenResolution) (t : String)
    → IsGood found
    → required found ≡ ok t
    → is_valid_token t ≡ true
unfolding IsGood required
required-valid (TokenResolution.available s) t good h =
    let e : s ≡ t = ground (arith, h) in rw e at good
required-valid (TokenResolution.missing p x) t good h = ground (arith, h)
required-valid (TokenResolution.unreadable p m) t good h = ground (arith, h)
required-valid (TokenResolution.invalid p r) t good h = ground (arith, h)

pub resolve_with-valid :
    (global : GlobalArgs) (url_env token_env : Option String) (read_file : ReadFile)
    (resolved : ResolvedConfig) (t : String)
    → resolve_with global url_env token_env read_file ≡ ok resolved
    → require_token resolved ≡ ok t
    → is_valid_token t ≡ true
unfolding Good require_token
resolve_with-valid global url_env token_env read_file resolved t h k =
    let good = resolve_with-Good global url_env token_env read_file in
    required-valid resolved.token t (rw h at good) k
