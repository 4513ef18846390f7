-- ===== src/Cratonctl/Cli.antt =====
-- cratonctl/cli.rs: the commands of the client. The parser of the arguments is clap.
use first_fork.Common.{
  Bool, false, ◌||◌, List, [], ◌∷◌, String, Result, ok, err, str_eq, trim, if◌then◌else◌,
  strip_prefix, is_some,
}
use first_fork.Cratonctl.Errors.{CratonctlError, usage}

pub data HistoryKind : Type 0 where
  recovery backup remediation : HistoryKind

pub record InitArgs : Type 0 where
  pub non_interactive : Bool
  pub config_dir : String
  pub state_dir : String

pub data Command : Type 0 where
  help : (text : String) (top_level : Bool) → Command
  auth_status health status services : Command
  service : (id : String) → Command
  history : (kind : HistoryKind) → Command
  diagnose : (service : String) → Command
  doctor : Command
  init : InitArgs → Command
  trigger : (task : String) → Command
  restart : (service : String) → Command
  docker_restart : (container : String) → Command
  maintenance_set : (service reason : String) → Command
  maintenance_clear breaker_clear flapping_clear : (service : String) → Command
  backup_run backup_unlock disk_cleanup : Command

pub data RawMaintenanceCommand : Type 0 where
  set : (service reason : String) → RawMaintenanceCommand
  clear : (service : String) → RawMaintenanceCommand

pub data RawBackupCommand : Type 0 where
  run unlock : RawBackupCommand

-- Subcommands that have one form are that form.
pub data RawCommand : Type 0 where
  auth_status health status services : RawCommand
  service : (id : String) → RawCommand
  history : (kind : HistoryKind) → RawCommand
  diagnose : (service : String) → RawCommand
  doctor : RawCommand
  init : InitArgs → RawCommand
  trigger : (task : String) → RawCommand
  restart : (service : String) → RawCommand
  docker_restart : (container : String) → RawCommand
  maintenance : RawMaintenanceCommand → RawCommand
  breaker_clear flapping_clear : (service : String) → RawCommand
  backup : RawBackupCommand → RawCommand
  disk_cleanup : RawCommand

unfoldable pub map_maintenance : RawMaintenanceCommand → Result Command CratonctlError
map_maintenance (RawMaintenanceCommand.set name reason) =
    if str_eq (trim reason) ""
    then err (usage "error: maintenance set requires a non-empty --reason")
    else ok (Command.maintenance_set name reason)
map_maintenance (RawMaintenanceCommand.clear name) = ok (Command.maintenance_clear name)

unfoldable pub map_command : RawCommand → Result Command CratonctlError
unfolding map_maintenance
map_command RawCommand.auth_status = ok Command.auth_status
map_command RawCommand.health = ok Command.health
map_command RawCommand.status = ok Command.status
map_command RawCommand.services = ok Command.services
map_command (RawCommand.service id) = ok (Command.service id)
map_command (RawCommand.history kind) = ok (Command.history kind)
map_command (RawCommand.diagnose name) = ok (Command.diagnose name)
map_command RawCommand.doctor = ok Command.doctor
map_command (RawCommand.init args) = ok (Command.init args)
map_command (RawCommand.trigger task) = ok (Command.trigger task)
map_command (RawCommand.restart name) = ok (Command.restart name)
map_command (RawCommand.docker_restart container) = ok (Command.docker_restart container)
map_command (RawCommand.maintenance command) = map_maintenance command
map_command (RawCommand.breaker_clear name) = ok (Command.breaker_clear name)
map_command (RawCommand.flapping_clear name) = ok (Command.flapping_clear name)
map_command (RawCommand.backup RawBackupCommand.run) = ok Command.backup_run
map_command (RawCommand.backup RawBackupCommand.unlock) = ok Command.backup_unlock
map_command RawCommand.disk_cleanup = ok Command.disk_cleanup

-- `starts_with('-')`, along the arguments before the first that is none.
unfoldable pub help_before_command : List String → Bool
help_before_command [] = false
help_before_command (arg ∷ args) =
    let rest = help_before_command args in
    if is_some (strip_prefix arg "-") then str_eq arg "--help" || str_eq arg "-h" || rest else false

unfoldable pub is_top_level_help_args : List String → Bool
unfolding help_before_command
is_top_level_help_args [] = false
is_top_level_help_args (program ∷ args) = help_before_command args
