-- ===== src/Reduce/Startup.antt =====
-- reduce.rs: shutdown, and recovery from a backup that a crash cut off.
pub mod Compensation
use Prim.Native.String.{◌++◌ as text_append}
use first_fork.Common.{true, none, List, [], ◌∷◌, ◌++◌, insert, string_ord}
use first_fork.Model.{
  BackupPhase, idle, Command, restic_unlock, start_service, write_incident, persist_backup_state,
  shutdown, AlertPriority, backup_failed,
}
use first_fork.Policy.Backup.{CompensationAction, crash_compensation}
use first_fork.State.{State}
use first_fork.Reduce.Base.{Ctx, Texts, Step, alert}

unfoldable pub handle_shutdown : State → Step
handle_shutdown state = (record state { shutting_down = true }, Command.shutdown 90 ∷ [])

module _ (texts : Texts) (ctx : Ctx) (persisted : BackupPhase) where
  unfoldable pub compensate : CompensationAction → State → Step
  compensate CompensationAction.restic_unlock state = (state, restic_unlock ∷ [])
  compensate (CompensationAction.start_service id unit) state = (state, start_service id unit ∷ [])
  compensate (CompensationAction.report_invariant_violation message) state = (
    state,
    write_incident (record {
      kind = backup_failed;
      service = none;
      timestamp_epoch_secs = ctx.epoch_secs;
      details = insert "phase" (texts.debug_phase persisted) (insert "error" message []);
    })
        ∷ [],
  )
  compensate CompensationAction.reset_to_idle state =
      (record state { backup_phase = idle }, persist_backup_state idle ∷ [])

  unfoldable pub compensate_all : List CompensationAction → State → Step
  unfolding compensate
  compensate_all [] state = (state, [])
  compensate_all (action ∷ actions) state =
      let (state', cmds) = compensate action state in
      let (state'', rest) = compensate_all actions state' in (state'', cmds ++ rest)

  -- The alert that ends the recovery, if it did anything.
  announced : List Command → List Command
  announced [] = []
  announced (c ∷ cs) =
      (c ∷ cs)
      ++ alert "⚠\u{fe0f} Выполнено восстановление после сбоя"
          (text_append "Резервное копирование было прервано в фазе: " (texts.debug_phase persisted))
          AlertPriority.high "warning"
        ∷ []

  unfoldable pub handle_startup_recovery : State → Step
  unfolding compensate_all announced
  handle_startup_recovery state =
      let (state', cmds) = compensate_all (crash_compensation texts.debug_phase persisted) state in
      (state', announced cmds)
