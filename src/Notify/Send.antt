-- ===== src/Notify/Send.antt =====
-- notify.rs: `send_ntfy` with `parse_ntfy_url`, and what the notifier knows of its channel's health
-- (`NotifyRuntimeState`). The exchange over the network is a parameter.
use first_fork.Common.{
  ℕ, ◌≡◌, refl, Bool, true, false, Option, none, some, String, Result, ok, err, add64, show, ◌==◌,
  if◌then◌else◌, strip_prefix, parse_u16, text_contains, lines, List, [], ◌∷◌,
}
use Prim.Native.Char.{code}
use Prim.Native.String.{len, ◌++◌ as text_append}
use first_fork.Model.{Alert, AlertPriority, min, low, default, high, urgent}

-- `AlertPriority::as_str`.
unfoldable pub priority_text : AlertPriority → String
priority_text min = "min"
priority_text low = "low"
priority_text default = "default"
priority_text high = "high"
priority_text urgent = "urgent"

-- The atomics of the source, and the times in seconds since the epoch.
pub record NotifyRuntimeState : Type 0 where
  pub degraded : Bool
  pub consecutive_failures : ℕ
  pub last_success_epoch_secs : ℕ
  pub last_failure_epoch_secs : ℕ

abbrev pub new : NotifyRuntimeState
new = record {
  degraded = false;
  consecutive_failures = 0;
  last_success_epoch_secs = 0;
  last_failure_epoch_secs = 0;
}

abbrev pub record_delivery_success : ℕ → NotifyRuntimeState → NotifyRuntimeState
record_delivery_success now s = record s {
  degraded = false;
  consecutive_failures = 0;
  last_success_epoch_secs = now;
}

abbrev pub record_delivery_failure : ℕ → NotifyRuntimeState → NotifyRuntimeState
record_delivery_failure now s = record s {
  degraded = true;
  consecutive_failures = add64 s.consecutive_failures 1;
  last_failure_epoch_secs = now;
}

pub record NtfyUrl : Type 0 where
  pub host : String
  pub port : ℕ
  pub path : String

-- The text before the first such character, and the text from it on.
unfoldable pub split_first : ℕ → String → Option (String × String)
split_first sep String.[] = none
split_first sep (String.◌∷◌ c s) =
    if code c == sep then some ("", String.◌∷◌ c s) else elim (split_first sep s) [
      | none ↦ none
      | some (before, rest) ↦ some (String.◌∷◌ c before, rest)
    ]

-- The text before the last such character, and the text after it.
unfoldable pub split_last : ℕ → String → Option (String × String)
split_last sep String.[] = none
split_last sep (String.◌∷◌ c s) = elim (split_last sep s) [
  | some (before, rest) ↦ some (String.◌∷◌ c before, rest)
  | none ↦ if code c == sep then some ("", s) else none
]

host_and_port : String → Option (String × ℕ)
unfolding split_last
host_and_port s = elim (split_last b':' s) [
  | none ↦ some (s, 80)
  | some (host, port) ↦ elim (parse_u16 port) [ none ↦ none | some p ↦ some (host, p) ]
]

url_of : String → String → Option NtfyUrl
unfolding host_and_port
url_of path host_port = elim (host_and_port host_port) [
  | none ↦ none
  | some (host, port) ↦ some (record { host = host; port = port; path = path })
]

unfoldable pub parse_ntfy_url : String → Option NtfyUrl
unfolding url_of split_first
parse_ntfy_url url = elim (strip_prefix url "http://") [
  | none ↦ none
  | some without_scheme ↦ elim (split_first b'/' without_scheme) [
    | none ↦ url_of "/" without_scheme
    | some (host_port, path) ↦ url_of path host_port
  ]
]

-- The texts of a list one after the other.
concat : List String → String
concat [] = ""
concat (t ∷ ts) = text_append t (concat ts)

unfoldable pub request_text : NtfyUrl → Alert → String
unfolding concat priority_text
request_text url alert = concat (
    "POST "
    ∷ url.path
    ∷ " HTTP/1.1\r\nHost: "
    ∷ url.host
    ∷ "\r\nTitle: "
    ∷ alert.title
    ∷ "\r\nPriority: "
    ∷ priority_text alert.priority
    ∷ "\r\nTags: "
    ∷ alert.tags
    ∷ "\r\nContent-Length: "
    ∷ show (len alert.body)
    ∷ "\r\nConnection: close\r\n\r\n"
    ∷ alert.body
    ∷ [])

-- What is sent to an address, and the first bytes of what comes back, as text.
abbrev pub Exchange : Type 0
Exchange = (address request : String) → Result String String

status_line : String → String
status_line response = elim (lines response) [ [] ↦ "no response" | l ∷ ls ↦ l ]

unfoldable pub send_ntfy : Exchange → String → Alert → Result (Unit {0}) String
unfolding parse_ntfy_url request_text status_line
send_ntfy exchange url alert = elim (parse_ntfy_url url) [
  | none ↦ err (text_append "invalid NTFY URL: " url)
  | some parsed ↦
      elim (exchange (text_append parsed.host (text_append ":" (show parsed.port)))
        (request_text parsed alert)) [
          | err e ↦ err e
          | ok response ↦
              if text_contains response "200"
              then ok tt
              else err (text_append "NTFY returned: " (status_line response))
        ]
]

url_runs :
    parse_ntfy_url "http://127.0.0.1:8090/alerts/x"
    ≡ some (record { host = "127.0.0.1"; port = 8090; path = "/alerts/x" })
unfolding parse_ntfy_url strip_prefix parse_u16
url_runs = refl

url_without_port :
    parse_ntfy_url "http://ntfy" ≡ some (record { host = "ntfy"; port = 80; path = "/" })
unfolding parse_ntfy_url strip_prefix
url_without_port = refl

url_port_too_large : parse_ntfy_url "http://ntfy:65536/" ≡ none
unfolding parse_ntfy_url strip_prefix parse_u16
url_port_too_large = refl
