-- ===== src/Reduce/Tick.antt =====
-- reduce.rs: the scheduled tasks.
pub mod Summary
use first_fork.Common.{Option, some, List, [], ◌∷◌, ◌++◌, keys, if◌then◌else◌}
use first_fork.Model.{
  TaskKind, recovery, backup, disk_monitor, apt_updates, docker_updates, daily_summary, run_probes,
  check_disk_usage, check_apt_updates, check_docker_updates,
}
use first_fork.Config.{CratonConfig}
use first_fork.Policy.Backup.{should_start}
use first_fork.State.{State}
use first_fork.Reduce.Base.{Ctx, Texts, Step}
use first_fork.Reduce.Backup.{start_backup}
use Summary.{build_daily_summary}

module _ (texts : Texts) (config : CratonConfig) (ctx : Ctx) where
  unfoldable pub run_task : TaskKind → State → Step
  run_task recovery state = (
    record state { last_recovery_mono = some ctx.mono_secs },
    run_probes (keys state.services) ∷ [],
  )
  run_task backup state =
      if should_start config.backup.schedule ctx.wall state.last_backup_day state.backup_phase
      then start_backup config ctx state
      else (state, [])
  run_task disk_monitor state =
      (record state { last_disk_mono = some ctx.mono_secs }, check_disk_usage ∷ [])
  run_task apt_updates state =
      (record state { last_apt_day = some ctx.wall.day }, check_apt_updates ∷ [])
  run_task docker_updates state =
      (record state { last_docker_day = some ctx.wall.day }, check_docker_updates ∷ [])
  run_task daily_summary state =
      let state' = record state { last_summary_day = some ctx.wall.day } in
      (state', build_daily_summary texts config state')

  unfoldable pub handle_tick : List TaskKind → State → Step
  unfolding run_task
  handle_tick [] state = (state, [])
  handle_tick (task ∷ tasks) state =
      let (state', cmds) = run_task task state in
      let (state'', rest) = handle_tick tasks state' in (state'', cmds ++ rest)
