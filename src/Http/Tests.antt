-- ===== src/Http/Tests.antt =====
-- Runs of the HTTP server, and its theorems at concrete inputs.
use first_fork.Common.{
  ◌≡◌, ◌≢◌, ◌↔◌, ◌≤◌, ◌+◌, refl, true, false, none, some, [], String, ok, err, strip_prefix, trim,
}
use first_fork.Model.{http_command, trigger, TaskKind, HttpCommandResponse}
use first_fork.Notify.Send.{new}
use first_fork.Reduce.Fixtures.{start}
use first_fork.Runtime.Snapshot.{first_start, build_snapshot}
use first_fork.Http.Bearer.{
  is_authorized_bearer, constant_time_eq, as_bytes, provided_token, diff_bytes, xor_bits, or_bits,
  char_bytes,
}
use first_fork.Http.Equality.{is_authorized_bearer_iff}
use first_fork.Http.Responses.{health_of, health_response}
use first_fork.Http.Server.{Request, Outside, Ack, serve, handle_trigger, trigger_task, task_named}
use first_fork.Http.Access.{Knows, IsApiCommand, serve-event}
use first_fork.Http.HealthCheck.{IsProbed, health_response-build_snapshot}

abbrev outside : Outside
outside = record {
  snapshot = "{}";
  parsed_health = health_of (build_snapshot start first_start false new 100);
  now_epoch = 110;
  now_mono = 50;
  active = ok true;
  journal = err "no journal";
  unit_status = err "no unit";
  ack = Ack.answers (HttpCommandResponse.accepted "task scheduled: backup");
}

abbrev request : String → Request
request header = record {
  method = "POST";
  url = "/trigger/backup";
  auth_header = header;
  body = ok none;
}

backs_up :
    (serve outside "geheim" [] (request "Bearer geheim ")).1
    ≡ some (http_command (trigger TaskKind.backup))
unfolding serve handle_trigger trigger_task task_named strip_prefix is_authorized_bearer
    constant_time_eq as_bytes provided_token diff_bytes xor_bits or_bits char_bytes trim
backs_up = refl

wrong_token_sends_nothing : (serve outside "geheim" [] (request "Bearer geheir")).1 ≡ none
unfolding serve handle_trigger trigger_task task_named strip_prefix is_authorized_bearer
    constant_time_eq as_bytes provided_token diff_bytes xor_bits or_bits char_bytes trim
wrong_token_sends_nothing = refl

serve-event_example :
    ((request "Bearer geheim ").method ≡ "POST")
    × Knows "Bearer geheim " "geheim"
    × IsApiCommand (http_command (trigger TaskKind.backup))
serve-event_example =
    serve-event outside "geheim" [] (request "Bearer geheim ")
      (http_command (trigger TaskKind.backup)) backs_up

abbrev e_acute : String
e_acute = "é"

is_authorized_bearer_iff_example :
    (is_authorized_bearer "Bearer é" e_acute ≡ true)
    ↔ ((e_acute ≢ "") × (as_bytes (provided_token "Bearer é") ≡ as_bytes e_acute))
is_authorized_bearer_iff_example = is_authorized_bearer_iff "Bearer é" e_acute

health_response-build_snapshot_example :
    ((health_response (health_of (build_snapshot start first_start false new 100)) 110 50).status
      ≡ 200)
    ↔ ((110 ≤ 100 + 30)
        × (false ≡ false)
        × IsProbed start.last_probe_cycle_mono 50
        × (start.shutting_down ≡ false)
        × (start.degraded_reasons ≡ []))
health_response-build_snapshot_example =
    health_response-build_snapshot start first_start false new 100 110 50
