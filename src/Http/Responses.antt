-- ===== src/Http/Responses.antt =====
-- http.rs: responses, and the handlers that only read: health, history and diagnosis. JSON objects are
-- lists of fields; the processes that `handle_diagnose` runs are parameters.
use Prim.Native.String.{◌++◌ as text_append}
use first_fork.Common.{
  ℕ, Bool, true, false, not, Option, none, some, List, [], ◌∷◌, String, Result, ok, err, str_eq,
  ltb, saturating_sub, contains, string_ord, strip_prefix, if◌then◌else◌,
}
use first_fork.Runtime.Machine.{ExecResult}
use first_fork.Runtime.Snapshot.{Snapshot}

pub data Field : Type 0 where
  text : String → Field
  flag : Bool → Field
  texts : List String → Field

pub data Body : Type 0 where
  literal : String → Body
  object : List (String × Field) → Body
  member : (name : String) (snapshot : String) → Body

pub record Response : Type 0 where
  pub status : ℕ
  pub body : Body

abbrev pub json_response : ℕ → Body → Response
json_response status body = record { status = status; body = body }

-- What `get` and `as_u64`, `as_bool` or `as_array` give on the published JSON.
pub record Health : Type 0 where
  pub snapshot_epoch_secs : Option ℕ
  pub outbox_overflow : Option Bool
  pub last_probe_cycle_mono : Option ℕ
  pub shutting_down : Option Bool
  pub degraded_reasons : Option (List String)

-- Nothing is known, or it is more than `limit` seconds old.
abbrev is_stale : ℕ → ℕ → Option ℕ → Bool
is_stale limit now none = true
is_stale limit now (some at) = ltb limit (saturating_sub now at)

abbrev is_set : Option Bool → Bool
is_set none = false
is_set (some b) = b

abbrev reasons_of : Option (List String) → List String
reasons_of none = []
reasons_of (some rs) = rs

unavailable : String → Response
unavailable reason =
    json_response 503 (object (("status", text "unavailable") ∷ ("reason", text reason) ∷ []))

-- The literal bodies of the source are written as objects here.
unfoldable pub health_response : Health → (now_epoch now_mono : ℕ) → Response
unfolding unavailable
health_response parsed now_epoch now_mono =
    if is_stale 30 now_epoch parsed.snapshot_epoch_secs
    then unavailable "stale_snapshot"
    else if is_set parsed.outbox_overflow
    then unavailable "outbox_overflow"
    else if is_stale 600 now_mono parsed.last_probe_cycle_mono
    then unavailable "stale_health_cycle"
    else if is_set parsed.shutting_down
    then unavailable "shutting_down"
    else elim (reasons_of parsed.degraded_reasons) [
      | [] ↦ json_response 200 (object (("status", text "ok") ∷ ("reason", text "ok") ∷ []))
      | r ∷ rs ↦ json_response 503 (
          object (
            ("status", text "unavailable")
            ∷ ("reason", text "degraded")
            ∷ ("degraded_reasons", texts (r ∷ rs))
            ∷ []))
    ]

unfoldable pub not_found : Response
not_found = json_response 404 (literal "{\"error\":\"not found\"}")

abbrev pub or_empty : Option String → String
or_empty none = ""
or_empty (some s) = s

-- A member of the published JSON, or an empty list when it has none.
unfoldable pub handle_history : (snapshot path : String) → Response
unfolding not_found
handle_history snapshot path =
    let target = or_empty (strip_prefix path "/api/v1/history/") in
    if str_eq target "recovery"
    then json_response 200 (member "recovery_history" snapshot)
    else if str_eq target "backup"
    then json_response 200 (member "backup_history" snapshot)
    else if str_eq target "remediation"
    then json_response 200 (member "remediation_history" snapshot)
    else not_found

-- `map_or_else`: what a process printed, or that it failed.
abbrev output_of : Result ExecResult String → String
output_of (ok r) = r.stdout_text
output_of (err e) = text_append "(failed: " (text_append e ")")

unfoldable pub handle_diagnose :
    (active : Result Bool String) (journal status : Result ExecResult String)
    → (path : String) → (known_services : List String) → Response
handle_diagnose active journal status path known_services =
    let service_name = or_empty (strip_prefix path "/api/v1/diagnose/") in
    if str_eq service_name ""
    then json_response 400 (literal "{\"error\":\"service name required\"}")
    else if not (contains service_name known_services)
    then json_response 404
        (literal (text_append "{\"error\":\"unknown service: " (text_append service_name "\"}")))
    else json_response 200 (
        object (
          ("service", text service_name)
          ∷ ("unit", text (text_append service_name ".service"))
          ∷ ("active", flag (elim active [ ok b ↦ b | err e ↦ false ]))
          ∷ ("journal_last_50", text (output_of journal))
          ∷ ("systemctl_status", text (output_of status))
          ∷ []))

-- The fields that the snapshot has in its JSON text.
unfoldable pub health_of : Snapshot → Health
health_of s = record {
  snapshot_epoch_secs = some s.snapshot_epoch_secs;
  outbox_overflow = some s.outbox_overflow;
  last_probe_cycle_mono = s.last_probe_cycle_mono;
  shutting_down = some s.shutting_down;
  degraded_reasons = some s.degraded_reasons;
}
