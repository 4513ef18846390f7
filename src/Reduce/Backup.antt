-- ===== src/Reduce/Backup.antt =====
-- reduce.rs: how a backup starts, goes on as its effects complete, and ends.
pub mod Cycle
pub mod Leases
use Prim.Native.String.{◌++◌ as text_append}
use first_fork.Common.{
  ℕ, ◌+◌, Bool, true, false, not, Option, none, some, List, [], ◌∷◌, ◌++◌, String, string_ord, map,
  get, insert, show, show_ℤ, add32, leb, ◌==◌, if◌then◌else◌,
}
use first_fork.Model.{
  ServiceId, ResourceId, service, backup_repo, ServiceSnapshot, BackupPhase, idle, locked,
  restic_running, retention_running, verifying, pre_backup_services, EffectResult, success, failed,
  killed, helper_error, Command, acquire_lease, release_lease, persist_backup_state, restic_unlock,
  stop_service, start_service, restic_backup, restic_forget, restic_check, write_incident,
  publish_snapshot, notify_watchdog, AlertPriority, backup_failed,
}
use first_fork.History.{push}
use first_fork.Lease.{is_free}
use first_fork.Config.{CratonConfig, ServiceEntry, backup_stop_services}
use first_fork.State.{State, status_is_healthy}
use first_fork.Reduce.Base.{Ctx, Step, alert}

abbrev pub run_id_at : Ctx → String
run_id_at ctx = text_append "backup-" (show ctx.mono_secs)

-- What is noted of a service that is stopped for the backup.
abbrev pub snapshot_of : State → ServiceEntry → ServiceSnapshot
snapshot_of state entry = record {
  id = entry.id;
  was_running = elim (get entry.id state.services) [
    | none ↦ false
    | some s ↦ status_is_healthy s.status
  ];
  unit = entry.unit;
}

-- The loop that leases and stops the services.
unfoldable pub stop_commands : String → List ServiceEntry → List Command
stop_commands run_id [] = []
stop_commands run_id (entry ∷ es) =
    acquire_lease (service entry.id) run_id
    ∷ stop_service entry.id entry.unit "backup"
    ∷ stop_commands run_id es

-- The loop that starts the services that ran before, and gives their leases back.
pub start_commands : List ServiceSnapshot → List Command
start_commands [] = []
start_commands (snap ∷ ss) =
    let rest = start_commands ss in
    if snap.was_running
    then start_service snap.id snap.unit ∷ release_lease (service snap.id) ∷ rest
    else rest

begin_backup : CratonConfig → Ctx → State → Step
unfolding stop_commands
begin_backup config ctx state =
    let run_id = run_id_at ctx in
    let stop_svcs = backup_stop_services config in
    let running = restic_running run_id (map (snapshot_of state) stop_svcs) in
    (
      record state { backup_phase = running; last_backup_day = some ctx.wall.day },
      acquire_lease backup_repo run_id
          ∷ persist_backup_state (locked run_id)
          ∷ restic_unlock
          ∷ (stop_commands run_id stop_svcs
              ++ persist_backup_state running ∷ restic_backup config.backup.paths ∷ []),
    )

unfoldable pub start_backup : CratonConfig → Ctx → State → Step
unfolding begin_backup
start_backup config ctx state =
    if not (is_free state.leases backup_repo ctx.mono_secs)
    then (state, [])
    else begin_backup config ctx state

unfoldable pub effect_error_message : EffectResult → String
effect_error_message (failed exit_code _ stderr _) =
    text_append "exit " (text_append (show_ℤ exit_code) (text_append ": " stderr))
effect_error_message (killed signal _) = text_append "killed by signal " (show_ℤ signal)
effect_error_message (helper_error message) = message
effect_error_message (success _ _ _) = "success"

abbrev or_unknown : Option String → String
or_unknown none = "unknown"
or_unknown (some e) = e

abbrev final_alert : Bool → Option String → ℕ → Command
final_alert true error failures =
    alert "✅ Резервное копирование завершено" "Резервное копирование выполнено успешно"
      AlertPriority.default "white_check_mark"
final_alert false error failures =
    alert "❌ Резервное копирование не удалось"
      (text_append "Ошибка: "
        (text_append (or_unknown error) (text_append "\nПодряд неудач: " (show failures))))
      AlertPriority.high "x"

unfoldable pub finalize_backup : Bool → Option String → Ctx → State → Step
finalize_backup won error ctx state = (
  record state {
    backup_phase = idle;
    backup_history = push state.backup_history (record {
      mono = ctx.mono_secs;
      success = won;
      partial = false;
      error = error;
      duration_secs = 0;
    });
  },
  persist_backup_state idle
      ∷ release_lease backup_repo
      ∷ final_alert won error state.consecutive_backup_failures
      ∷ publish_snapshot
      ∷ [],
)

abbrev restored : Option (List ServiceSnapshot) → List Command
restored none = []
restored (some pre) = start_commands pre

abbrev pub failure_incident : Ctx → ℕ → List Command
failure_incident ctx failures =
    if leb 3 failures
    then write_incident (record {
      kind = backup_failed;
      service = none;
      timestamp_epoch_secs = ctx.epoch_secs;
      details = ("consecutive_failures", show failures) ∷ [];
    })
      ∷ []
    else []

-- The warning that the source logs is left out.
unfoldable pub handle_backup_failure : EffectResult → Ctx → State → Step
unfolding start_commands
handle_backup_failure result ctx state =
    let failures = add32 state.consecutive_backup_failures 1 in
    let error = effect_error_message result in
    let (state', cmds) =
      finalize_backup false (some error) ctx
        (record state { consecutive_backup_failures = failures }) in
    (
      state',
      restored (pre_backup_services state.backup_phase) ++ (cmds ++ failure_incident ctx failures),
    )

abbrev pub is_success : EffectResult → Bool
is_success (success _ _ _) = true
is_success _ = false

module _ (config : CratonConfig) (ctx : Ctx) (result : EffectResult) where
  -- `restic backup` is over.
  backup_done : String → List ServiceSnapshot → State → Step
  unfolding start_commands
  backup_done run_id pre state =
      if is_success result
      then (
        record state { consecutive_backup_failures = 0; backup_phase = retention_running run_id },
        start_commands pre
            ++ persist_backup_state (retention_running run_id)
              ∷ restic_forget config.backup.retention.daily config.backup.retention.weekly
                  config.backup.retention.monthly
              ∷ [],
      )
      else handle_backup_failure result ctx state

  -- `restic forget` is over.
  retention_done : String → State → Step
  retention_done run_id state =
      if is_success result
      then if config.backup.verify
        then (
          record state { backup_phase = verifying run_id },
          persist_backup_state (verifying run_id)
              ∷ restic_check config.backup.verify_subset_percent
              ∷ [],
        )
        else finalize_backup true none ctx state
      else handle_backup_failure result ctx state

  -- `restic check` is over.
  verify_done : State → Step
  verify_done state =
      finalize_backup (is_success result)
        (if is_success result then none else some (effect_error_message result)) ctx state

  unfoldable pub dispatch_phase : BackupPhase → State → Step
  unfolding backup_done retention_done verify_done
  dispatch_phase (restic_running run_id pre) state = backup_done run_id pre state
  dispatch_phase (retention_running run_id) state = retention_done run_id state
  dispatch_phase (verifying _) state = verify_done state
  dispatch_phase _ state = (state, [])

  unfoldable pub handle_backup_effect : State → Step
  unfolding dispatch_phase
  handle_backup_effect state = dispatch_phase state.backup_phase state

abbrev pub is_pending : Option ℕ → ℕ → Bool
is_pending none cmd_id = false
is_pending (some pending) cmd_id = pending == cmd_id

unfoldable pub handle_effect_completed : CratonConfig → Ctx → ℕ → EffectResult → State → Step
handle_effect_completed config ctx cmd_id result state =
    if is_pending state.backup_pending_cmd cmd_id
    then handle_backup_effect config ctx result (record state { backup_pending_cmd = none })
    else (state, notify_watchdog ∷ [])
