-- ===== src/Reduce.antt =====
-- reduce.rs: the reducer, the single place where the state changes. A handler that takes
-- `&mut State` returns the new state; the commands are its result.
pub mod Base
pub mod Backup
pub mod Disk
pub mod Tick
pub mod Probes
pub mod Remediation
pub mod Startup
pub mod Phases
pub mod Runs
pub mod Fixtures
mod Tests
use first_fork.Common.{[], ◌∷◌, if◌then◌else◌}
use first_fork.Model.{
  Event, SignalKind, CommandRequest, trigger, remediate, tick, startup_probe_results, probe_results,
  disk_sample, effect_completed, http_command, signal, startup_recovery,
}
use first_fork.Config.{CratonConfig}
use first_fork.Graph.{DepGraph}
use first_fork.State.{State}
use Base.{Ctx, Texts, Step}
use Backup.{handle_effect_completed}
use Disk.{handle_disk_sample}
use Tick.{handle_tick}
use Probes.{handle_startup_probes, handle_probes}
use Remediation.{handle_remediation}
use Startup.{handle_shutdown, handle_startup_recovery}

module _ (texts : Texts) (config : CratonConfig) (graph : DepGraph) (ctx : Ctx) where
  unfoldable pub handle_http_command : CommandRequest → State → Step
  handle_http_command (trigger task) state = handle_tick texts config ctx (task ∷ []) state
  handle_http_command (remediate action target source reason) state =
      handle_remediation texts config ctx action target source reason state

  unfoldable pub handle : Event → State → Step
  unfolding handle_http_command
  handle (tick due_tasks) state = handle_tick texts config ctx due_tasks state
  handle (startup_probe_results results) state = handle_startup_probes graph ctx results state
  handle (probe_results results) state = handle_probes config graph ctx results state
  handle (disk_sample sample) state = handle_disk_sample texts config sample state
  handle (effect_completed cmd_id result) state =
      handle_effect_completed config ctx cmd_id result state
  handle (http_command request) state = handle_http_command request state
  handle (signal SignalKind.shutdown) state = handle_shutdown state
  handle (signal SignalKind.reload) state = (state, [])
  handle (startup_recovery persisted) state = handle_startup_recovery texts ctx persisted state

  unfoldable pub reduce : Event → State → Step
  unfolding handle
  reduce event state = if state.shutting_down then (state, []) else handle event state
