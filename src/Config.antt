-- ===== src/Config.antt =====
-- config.rs: the configuration, its validation, and the lookups that the reducer makes. The text is
-- parsed by the `toml` and `serde` crates, which are not modelled.
pub mod Validity
pub mod Fixtures
mod Tests
use Prim.Native.String.{◌++◌}
use first_fork.Common.{
  ℕ, Bool, true, false, not, Option, List, [], ◌∷◌, map, String, string_ord, str_eq, contains,
  filter, find, leb, if◌then◌else◌, Result, ok, err, ◌>>◌, show,
}
use first_fork.Model.{ServiceId, ServiceKind, Severity, ProbeSpec}

pub record DaemonConfig : Type 0 where
  pub listen : String
  pub watchdog : Bool
  pub log_level : String

pub record NtfyConfig : Type 0 where
  pub url : String
  pub topic : String
  pub retries : List ℕ

pub record RetentionConfig : Type 0 where
  pub daily : ℕ
  pub weekly : ℕ
  pub monthly : ℕ

pub record BackupConfig : Type 0 where
  pub schedule : String
  pub restic_repo : String
  pub restic_password_file : String
  pub restic_binary : String
  pub retention : RetentionConfig
  pub verify : Bool
  pub verify_subset_percent : ℕ
  pub paths : List String

pub record DiskConfig : Type 0 where
  pub interval : String
  pub warn_percent : ℕ
  pub critical_percent : ℕ
  pub predictive : Bool

pub record UpdatesConfig : Type 0 where
  pub apt_schedule : String
  pub docker_schedule : String

pub record AiConfig : Type 0 where
  pub mode : String
  pub picoclaw_url : String
  pub context_path : String
  pub token_path : String

pub record ServiceEntry : Type 0 where
  pub id : ServiceId
  pub name : String
  pub unit : String
  pub kind : ServiceKind
  pub probe : ProbeSpec
  pub depends_on : List ServiceId
  pub resources : List String
  pub severity : Severity
  pub startup_grace_secs : ℕ
  pub restart_cooldown_secs : ℕ
  pub max_restarts : ℕ
  pub breaker_window_secs : ℕ
  pub breaker_cooldown_secs : ℕ
  pub backup_stop : Bool

pub record CratonConfig : Type 0 where
  pub daemon : DaemonConfig
  pub ntfy : NtfyConfig
  pub backup : BackupConfig
  pub disk : DiskConfig
  pub updates : UpdatesConfig
  pub ai : AiConfig
  pub services : List ServiceEntry

pub data ConfigError : Type 0 where
  parse : (message : String) → ConfigError
  validation : (message : String) → ConfigError

abbrev pub Check : Type 0
Check = Result (Unit {0}) ConfigError

-- `if bad { return Err(…) }`.
abbrev pub refuse_if : Bool → String → Check
refuse_if bad message = if bad then err (validation message) else ok tt

abbrev pub ids : List ServiceEntry → List ServiceId
ids = map (λ s. s.id)

-- The loop over `seen`.
check_unique : List ServiceId → List ServiceEntry → Check
check_unique seen [] = ok tt
check_unique seen (s ∷ ss) = do
  refuse_if (contains s.id seen) ("duplicate service id: " ++ s.id)
  check_unique (s.id ∷ seen) ss

check_deps : List ServiceId → ServiceId → List ServiceId → Check
check_deps known id [] = ok tt
check_deps known id (d ∷ ds) = do
  refuse_if (not (contains d known))
      ("service " ++ (id ++ (" depends on " ++ (d ++ " which is not defined"))))
  check_deps known id ds

check_references : List ServiceId → List ServiceEntry → Check
check_references known [] = ok tt
check_references known (s ∷ ss) = do check_deps known s.id s.depends_on; check_references known ss

abbrev is_empty {ℓ} : {A : Type ℓ} → List A → Bool
is_empty [] = true
is_empty (_ ∷ _) = false

unfoldable pub validate : CratonConfig → Check
unfolding check_unique check_references check_deps
validate c = do
  refuse_if (is_empty c.services) "no services defined"
  check_unique [] c.services
  check_references (ids c.services) c.services
  refuse_if (leb c.disk.critical_percent c.disk.warn_percent) (
      "disk warn_percent ("
      ++ (show c.disk.warn_percent
          ++ (") must be < critical_percent (" ++ (show c.disk.critical_percent ++ ")"))))
  refuse_if (str_eq c.backup.restic_repo "") "backup.restic_repo is empty"
  refuse_if (str_eq c.backup.restic_password_file "") "backup.restic_password_file is empty"
  refuse_if (str_eq c.ntfy.url "") "ntfy.url is empty"

unfoldable pub find_service : CratonConfig → ServiceId → Option ServiceEntry
find_service c id = find (λ s. str_eq s.id id) c.services

unfoldable pub backup_stop_services : CratonConfig → List ServiceEntry
backup_stop_services c = filter (λ s. s.backup_stop) c.services
