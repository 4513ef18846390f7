-- ===== src/Cratonctl/Client.antt =====
-- cratonctl/client.rs: the URL of the daemon, the paths and the text of a request, and what the client makes
-- of a response. The socket and JSON are parameters.
use Prim.Native.Char.{code}
use Prim.Native.String.{◌++◌, len}
use first_fork.Common.{
  ℕ, ◌/◌, ◌%◌, Bool, true, not, ◌&&◌, ◌||◌, Option, none, some, List, [], ◌∷◌, String, Result, ok,
  err, ◌>>=◌, str_eq, ◌==◌, leb, ltb, strip_prefix, trim, show, parse_u16, if◌then◌else◌,
}
use first_fork.Http.Bearer.{char_bytes}
use first_fork.Cratonctl.Errors.{CratonctlError}

abbrev default_http_port : ℕ
default_http_port = 80

pub record Endpoint : Type 0 where
  pub host : String
  pub port : ℕ
  pub base_path : String

-- `split_once(sep)`: the text before the first separator and after it.
unfoldable pub split_once : ℕ → String → Option (String × String)
split_once sep String.[] = none
split_once sep (String.◌∷◌ c s) =
    let rest = split_once sep s in
    if code c == sep
    then some ("", s)
    else elim rest [ none ↦ none | some pair ↦ some (String.◌∷◌ c pair.0, pair.1) ]

-- `rsplit_once(sep)`: around the last separator.
unfoldable pub rsplit_once : ℕ → String → Option (String × String)
rsplit_once sep String.[] = none
rsplit_once sep (String.◌∷◌ c s) = elim (rsplit_once sep s) [
  | some pair ↦ some (String.◌∷◌ c pair.0, pair.1)
  | none ↦ if code c == sep then some ("", s) else none
]

only_of : ℕ → String → Bool
only_of sep String.[] = true
only_of sep (String.◌∷◌ c s) = (code c == sep) && only_of sep s

-- `trim_end_matches(sep)`.
unfoldable pub trim_end_matches : ℕ → String → String
unfolding only_of
trim_end_matches sep String.[] = ""
trim_end_matches sep (String.◌∷◌ c s) =
    if only_of sep (String.◌∷◌ c s) then "" else String.◌∷◌ c (trim_end_matches sep s)

-- `why` is the text of the error of `parse::<u16>`.
unfoldable pub host_port :
    (why : String → String) (url authority : String) → Result (String × ℕ) CratonctlError
host_port why url authority = elim (rsplit_once b':' authority) [
  | none ↦ ok (authority, default_http_port)
  | some (host, port) ↦ elim (parse_u16 port) [
    | none ↦ err (CratonctlError.config ("invalid port in URL " ++ (url ++ (": " ++ why port))))
    | some n ↦ ok (host, n)
  ]
]

missing_host : CratonctlError
missing_host = CratonctlError.config "missing host in URL"

unfoldable pub base_path_of : String → String
base_path_of base_path = if str_eq base_path "" then "" else "/" ++ trim_end_matches b'/' base_path

-- `map_or((rest, ""), …)`.
unfoldable pub authority_and_path : String → String × String
authority_and_path rest = elim (split_once b'/' rest) [ none ↦ (rest, "") | some pair ↦ pair ]

endpoint_of : (host : String) (port : ℕ) (base_path : String) → Result Endpoint CratonctlError
unfolding missing_host
endpoint_of host port base_path =
    if str_eq host ""
    then err missing_host
    else ok (record { host = host; port = port; base_path = base_path_of base_path })

unfoldable pub parse_base_url : (why : String → String) → String → Result Endpoint CratonctlError
unfolding missing_host endpoint_of
parse_base_url why url = elim (strip_prefix url "http://") [
  | none ↦ err (CratonctlError.config ("unsupported URL scheme in " ++ url))
  | some rest ↦
      let (authority, base_path) = authority_and_path rest in
      if str_eq authority ""
      then err missing_host
      else do found ← host_port why url authority; endpoint_of found.0 found.1 base_path
]

-- `Client::new`.
unfoldable pub endpoint_or_default : Result Endpoint CratonctlError → Endpoint
endpoint_or_default (ok endpoint) = endpoint
endpoint_or_default (err e) = record { host = "127.0.0.1"; port = 18800; base_path = "" }

unfoldable pub full_path : (base_path path : String) → String
full_path base_path path =
    if str_eq base_path "" then path else if str_eq path "/" then base_path else base_path ++ path

unfoldable pub is_unreserved : ℕ → Bool
is_unreserved c =
    (leb b'0' c && leb c b'9')
    || (leb b'A' c && leb c b'Z')
    || (leb b'a' c && leb c b'z')
    || c == b'-'
    || c == b'_'
    || c == b'.'
    || c == b'~'

-- A digit of `{:X}`.
hex_digit : ℕ → String
hex_digit n =
    if ltb n 10
    then show n
    else if n == 10
    then "A"
    else if n == 11
    then "B"
    else if n == 12
    then "C"
    else if n == 13
    then "D"
    else if n == 14
    then "E"
    else "F"

percent_bytes : List ℕ → String
unfolding hex_digit
percent_bytes [] = ""
percent_bytes (b ∷ bs) = "%" ++ (hex_digit (b / 16) ++ (hex_digit (b % 16) ++ percent_bytes bs))

-- The unreserved characters are those of one byte, so a character is kept whole or its bytes are written.
unfoldable pub path_segment : String → String
unfolding percent_bytes is_unreserved
path_segment String.[] = ""
path_segment (String.◌∷◌ c s) =
    if is_unreserved (code c)
    then String.◌∷◌ c (path_segment s)
    else percent_bytes (char_bytes (code c)) ++ path_segment s

auth_lines : Option String → String
auth_lines none = ""
auth_lines (some token) = "Authorization: Bearer " ++ (token ++ "\r\n")

body_lines : Option String → String
body_lines none = "\r\n"
body_lines (some body) =
    "Content-Type: application/json\r\n"
    ++ ("Content-Length: " ++ (show (len body) ++ ("\r\n" ++ ("\r\n" ++ body))))

-- The text that is written to the socket.
unfoldable pub request_text :
    Endpoint → (method path : String) → (body token : Option String) → String
unfolding auth_lines body_lines
request_text endpoint method path body token =
    method
    ++ (" "
        ++ (full_path endpoint.base_path path
            ++ (" HTTP/1.1\r\nHost: "
                ++ (endpoint.host
                    ++ ("\r\nConnection: close\r\nAccept: application/json\r\n"
                        ++ (auth_lines token ++ body_lines body))))))

-- The response as it was read.
pub record Received : Type 0 where
  pub status : ℕ
  pub body : String

spaced : String → String
spaced String.[] = ""
spaced (String.◌∷◌ c s) =
    if code c == b'\r' || code c == b'\n'
    then String.◌∷◌ " " (spaced s)
    else String.◌∷◌ c (spaced s)

unfoldable pub compact_body : String → String
unfolding spaced
compact_body body = if str_eq (trim body) "" then "(empty body)" else spaced (trim body)

-- `error_of` reads the text under "error" in a JSON object.
unfoldable pub daemon_error_message :
    (error_of : String → Option String) (path : String) (status : ℕ) (body : String) → String
daemon_error_message error_of path status body =
    let detail : String = elim (error_of body) [ some e ↦ e | none ↦ compact_body body ] in
    if status == 409
    then "policy rejected request for " ++ (path ++ (": " ++ detail))
    else if status == 503
    then "daemon control loop is unavailable for " ++ (path ++ (": " ++ detail))
    else if status == 504
    then "daemon control loop did not respond in time"
    else "HTTP " ++ (show status ++ (" for " ++ (path ++ (": " ++ detail))))

-- `(200..300).contains(&status)`.
unfoldable pub is_success : ℕ → Bool
is_success status = leb 200 status && ltb status 300

-- `decode` is what serde reads in the body, or the text of its error.
unfoldable pub decode_json_response {ℓ} :
    {T : Type ℓ} (decode : String → Result T String) (error_of : String → Option String)
    → (path : String) → Received
    → Result T CratonctlError
decode_json_response decode error_of path response =
    if not (is_success response.status)
    then err
        (CratonctlError.daemon (daemon_error_message error_of path response.status response.body))
    else elim (decode response.body) [
      | ok value ↦ ok value
      | err e ↦ err (CratonctlError.parse ("failed to parse JSON from " ++ (path ++ (": " ++ e))))
    ]
