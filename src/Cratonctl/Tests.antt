-- ===== src/Cratonctl/Tests.antt =====
-- Runs of the client, and its theorems at concrete inputs.
use first_fork.Common.{
  ◌≤◌, ◌<◌, ◌==◌, if◌then◌else◌, length, arith, ◌≡◌, ◌↔◌, refl, true, false, none, some, Option,
  String, [], ok, err, strip_prefix, trim, has_whitespace, show, parse_u16,
}
use first_fork.Model.{remediate, restic_unlock, http_command, rejected}
use first_fork.Http.Responses.{health_of}
use first_fork.Http.Server.{Remediation, Ack, Outside, serve}
use first_fork.Notify.Send.{new}
use first_fork.Reduce.Fixtures.{start}
use first_fork.Runtime.Snapshot.{first_start, build_snapshot}
use first_fork.Cratonctl.Errors.{auth, not_provided}
use first_fork.Cratonctl.Auth.{
  GlobalArgs, TokenResolution, SelectedSource, ResolvedConfig, ReadFile, IoError, is_valid_token,
  normalize_inline_token, resolve_token, token_from_env, token_from_file, read_token_file,
  resolution_of, inspect_content, resolved_url, resolve_with, required, require_token,
}
use first_fork.Cratonctl.Cli.{Command}
use first_fork.Cratonctl.Client.{
  Endpoint, parse_base_url, authority_and_path, split_once, rsplit_once, host_port, base_path_of,
  trim_end_matches, path_segment, is_unreserved,
}
use first_fork.Http.Bearer.{char_bytes, as_bytes}
use first_fork.Cratonctl.Commands.{
  Post, build_remediation_body, remediation_post, post_of, request_of, send_post, exit_of,
}
use first_fork.Cratonctl.Mutations.{intended, IsReadBack}
use first_fork.Http.Body.{read_request}
use first_fork.Cratonctl.Outcome.{
  Json, read_timeout, ack_timeout, daemon_wire, request_of-serve, send_post-exit,
}

abbrev arguments : Option String → GlobalArgs
arguments token = record {
  url = none;
  token = token;
  token_file = none;
  json = false;
  quiet = false;
  no_color = false;
}

abbrev no_files : ReadFile
no_files path = err IoError.not_found

abbrev configured : ResolvedConfig
configured = record {
  url = "http://127.0.0.1:18800";
  token = TokenResolution.available "geheim";
  selected_source = SelectedSource.flag;
}

resolves_flag :
    resolve_with (arguments (some " geheim\n")) none (some "other") no_files ≡ ok configured
unfolding resolve_with resolved_url resolve_token normalize_inline_token is_valid_token
    has_whitespace trim strip_prefix
resolves_flag = refl

holds_token : require_token configured ≡ ok "geheim"
unfolding require_token required
holds_token = refl

abbrev without_token : ResolvedConfig
without_token = record {
  url = "http://127.0.0.1:18800";
  token = TokenResolution.missing "/var/lib/craton/remediation-token" false;
  selected_source = SelectedSource.autodiscovery;
}

resolves_no_token : resolve_with (arguments none) none none no_files ≡ ok without_token
unfolding resolve_with resolved_url resolve_token token_from_env token_from_file read_token_file
    resolution_of inspect_content normalize_inline_token strip_prefix
resolves_no_token = refl

no_token : require_token without_token ≡ err (auth not_provided)
unfolding require_token required
no_token = refl

abbrev local : Endpoint
local = record { host = "127.0.0.1"; port = 18800; base_path = "" }

parses_url : parse_base_url (λ port. "why") "http://127.0.0.1:18800" ≡ ok local
unfolding parse_base_url authority_and_path split_once host_port rsplit_once base_path_of
    strip_prefix parse_u16
parses_url = refl

parses_path :
    parse_base_url (λ port. "why") "http://h/a/b/"
    ≡ ok (record { host = "h"; port = 80; base_path = "/a/b" })
unfolding parse_base_url authority_and_path split_once host_port rsplit_once base_path_of
    trim_end_matches strip_prefix
parses_path = refl

encodes : path_segment "ntfy@é" ≡ "ntfy%40%C3%A9"
unfolding path_segment is_unreserved char_bytes show
encodes = refl

abbrev outside : Outside
outside = record {
  snapshot = "{}";
  parsed_health = health_of (build_snapshot start first_start false new 100);
  now_epoch = 110;
  now_mono = 50;
  active = ok true;
  journal = err "no journal";
  unit_status = err "no unit";
  ack = Ack.answers (rejected "backup already in progress");
}

abbrev unlocking : Remediation
unlocking = build_remediation_body "ResticUnlock" none none

-- JSON for the one object that is sent, and for no response.
abbrev json : Json
json = record {
  print = λ body. "{\"action\":\"ResticUnlock\"}";
  parse = λ bytes. if length bytes == 25 then some unlocking else none;
  print_body = λ body. "{}";
  decode = λ s. err "no JSON";
  error_of = λ s. none;
}

reads_back : IsReadBack json.print json.parse unlocking
unfolding as_bytes char_bytes
reads_back = record { fits = omega arith; reads = refl }

abbrev unlock_post : Post
unlock_post = remediation_post "ResticUnlock" none none

request_of-serve_example :
    (serve outside "geheim" []
      (read_request json.parse (request_of json.print local "geheim" unlock_post))).1
    ≡ some (http_command (remediate restic_unlock none "http:api" "http api"))
unfolding post_of intended
request_of-serve_example =
    request_of-serve outside [] (arguments (some " geheim\n")) none (some "other") no_files
      configured "geheim" local json refl resolves_flag holds_token Command.backup_unlock
      unlock_post (remediate restic_unlock none "http:api" "http api") refl refl reads_back

in_time : outside.ack ≡ Ack.timed_out → ack_timeout ≤ 1
in_time e = cc

send_post-exit_example :
    (exit_of (
        send_post (daemon_wire json "timed out" 1 outside "geheim" []) local configured unlock_post)
      ≡ 1)
    ↔ ((1 < read_timeout) × (true ≡ true))
unfolding post_of intended
send_post-exit_example =
    send_post-exit outside [] (arguments (some " geheim\n")) none (some "other") no_files configured
      "geheim" local json refl resolves_flag holds_token Command.backup_unlock unlock_post
      (remediate restic_unlock none "http:api" "http api") refl refl reads_back "timed out" 1
      in_time
