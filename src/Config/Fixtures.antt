-- ===== src/Config/Fixtures.antt =====
-- A small configuration for runs of the program: a database, a web service that depends on it, and a
-- cache run by Docker that a backup stops.
use first_fork.Common.{true, false, List, [], ◌∷◌}
use first_fork.Model.{
  ServiceId, ServiceKind, systemd, docker_systemd, Severity, critical, warning, systemd_active,
}
use first_fork.Config.{CratonConfig, ServiceEntry}

abbrev service_entry : ServiceId → ServiceKind → Severity → List ServiceId → ServiceEntry
service_entry id kind severity deps = record {
  id = id;
  name = id;
  unit = id;
  kind = kind;
  probe = systemd_active id;
  depends_on = deps;
  resources = [];
  severity = severity;
  startup_grace_secs = 30;
  restart_cooldown_secs = 60;
  max_restarts = 3;
  breaker_window_secs = 3600;
  breaker_cooldown_secs = 3600;
  backup_stop = false;
}

abbrev pub db : ServiceEntry
db = service_entry "db" systemd critical []

abbrev pub web : ServiceEntry
web = service_entry "web" systemd warning ("db" ∷ [])

abbrev pub cache : ServiceEntry
cache = record (service_entry "cache" docker_systemd warning []) { backup_stop = true }

abbrev pub small_config : CratonConfig
small_config = record {
  daemon = record { listen = "127.0.0.1:18800"; watchdog = true; log_level = "info" };
  ntfy = record { url = "http://localhost:8080"; topic = "craton"; retries = 5 ∷ 10 ∷ [] };
  backup = record {
    schedule = "odd_days:4:0";
    restic_repo = "/backup";
    restic_password_file = "/etc/restic";
    restic_binary = "restic";
    retention = record { daily = 7; weekly = 4; monthly = 6 };
    verify = true;
    verify_subset_percent = 5;
    paths = "/srv" ∷ [];
  };
  disk = record { interval = "6h"; warn_percent = 85; critical_percent = 95; predictive = true };
  updates = record { apt_schedule = "daily:5:0"; docker_schedule = "daily:6:0" };
  ai = record { mode = "local"; picoclaw_url = ""; context_path = ""; token_path = "" };
  services = db ∷ web ∷ cache ∷ [];
}
