-- ===== src/Runtime/Machine.antt =====
-- runtime.rs: what the control loop works on, and the executors of single commands. Processes, files,
-- threads, probes and clocks are parameters; `calls` numbers the questions put to them.
use Prim.Native.String.{◌++◌ as text_append}
use first_fork.Common.{
  ℕ, ℤ, pos, negsuc, suc, Bool, true, false, not, ◌||◌, Option, none, some, List, [], ◌∷◌, ◌++◌,
  String, Result, ok, err, TreeMap, ◌==◌, if◌then◌else◌,
}
use first_fork.Model.{
  ServiceId, ProbeResult, BackupPhase, Event, effect_completed, EffectResult, success, failed,
  helper_error, Alert, CleanupLevel, IncidentReport, DiskSample, HttpCommandResponse,
}
use first_fork.Schedule.{WallClock}
use first_fork.Config.{CratonConfig, ServiceEntry}
use first_fork.State.{State, SvcState, Maintenance, mark_degraded, alloc_cmd_id}
use first_fork.Notify.Send.{new}
use first_fork.Runtime.Snapshot.{Snapshot, unknown, build_snapshot}
use first_fork.Reduce.Base.{Ctx}

-- effect/exec.rs: the outcome of a process; the two texts are `stdout_text` and `stderr_text`.
pub record ExecResult : Type 0 where
  pub stdout_text : String
  pub stderr_text : String
  pub exit_code : ℤ
  pub duration_ms : ℕ
  pub killed : Bool

-- For each call: the clocks, a process with its time limit in seconds, whether a thread starts and a
-- write succeeds, a probe (`none` when its thread panics), and the disk. The first text of `exec` is
-- the error of a process that does not start; `spawn_error` is one of a thread.
pub record Outside : Type 0 where
  pub mono_secs : ℕ → ℕ
  pub epoch_secs : ℕ → ℕ
  pub wall : ℕ → WallClock
  pub exec : ℕ → List String → ℕ → Result ExecResult String
  pub spawn_error : ℕ → Option String
  pub write_ok : ℕ → Bool
  pub run_probe : ℕ → ServiceEntry → Option ProbeResult
  pub disk_usage : ℕ → ℕ → Option DiskSample

-- A thread that runs `restic` and sends the end of it as an event.
pub record Worker : Type 0 where
  pub cmd_id : ℕ
  pub argv : List String
  pub timeout_secs : ℕ

-- What the daemon did to the world outside, as far as no event comes of it.
pub data Deed : Type 0 where
  ran : (argv : List String) (timeout_secs : ℕ) → Deed
  queued : Alert → Deed
  saved_phase : BackupPhase → Deed
  saved_maintenance : TreeMap ServiceId Maintenance → Deed
  saved_llm_context : (path : String) (snapshot : Snapshot) → Deed
  fed_watchdog : Deed
  reported : IncidentReport → Deed
  cleaned : CleanupLevel → Deed
  checked_apt : Deed
  triggered : (url event_type : String) (details : TreeMap String String) → Deed
  answered : HttpCommandResponse → Deed

pub record World : Type 0 where
  pub state : State
  pub sent : List Event
  pub workers : List Worker
  pub deeds : List Deed
  pub calls : ℕ

abbrev pub put_state : State → World → World
put_state state w = record w { state = state }

abbrev pub does : Deed → World → World
does deed w = record w { deeds = w.deeds ++ deed ∷ [] }

abbrev pub send : Event → World → World
send event w = record w { sent = w.sent ++ event ∷ [] }

abbrev pub next : World → World
next w = record w { calls = suc w.calls }

-- `mark_runtime_degraded`, without its line in the log.
abbrev pub mark_runtime_degraded : String → World → World
mark_runtime_degraded reason w = put_state (mark_degraded w.state reason) w

unfoldable pub is_zero : ℤ → Bool
is_zero (pos n) = n == 0
is_zero (negsuc n) = false

unfoldable pub exec_to_effect_result : Result ExecResult String → EffectResult
unfolding is_zero
exec_to_effect_result (ok r) =
    if r.killed
    then EffectResult.killed r.exit_code r.duration_ms
    else if is_zero r.exit_code
    then success r.stdout_text r.stderr_text r.duration_ms
    else failed r.exit_code r.stdout_text r.stderr_text r.duration_ms
exec_to_effect_result (err e) = helper_error e

-- The event that a worker sends in the end.
abbrev pub worker_event : Worker → Result ExecResult String → Event
worker_event worker result = effect_completed worker.cmd_id (exec_to_effect_result result)

-- Whether a process failed: it did not start, was killed, or did not exit with 0.
abbrev pub exec_failed : Result ExecResult String → Bool
exec_failed (ok r) = not (is_zero r.exit_code) || r.killed
exec_failed (err e) = true

abbrev pub degraded_if : Bool → String → World → World
degraded_if true reason w = mark_runtime_degraded reason w
degraded_if false reason w = w

module _ (outside : Outside) where
  unfoldable pub make_ctx : World → Ctx
  make_ctx w = record {
    mono_secs = outside.mono_secs w.calls;
    epoch_secs = outside.epoch_secs w.calls;
    wall = outside.wall w.calls;
  }

  -- `exec_command`, and `exec_command_dry_aware` with `dry_run` false, which is how it is called. The
  -- result that they return is not used.
  unfoldable pub exec_command : String → List String → ℕ → World → World
  unfolding is_zero
  exec_command degraded_reason argv timeout w =
      degraded_if (exec_failed (outside.exec w.calls argv timeout)) degraded_reason
        (next (does (ran argv timeout) w))

  -- A write that fails marks the state as degraded.
  unfoldable pub atomic_write : Deed → String → World → World
  atomic_write deed degraded_reason w =
      if outside.write_ok w.calls
      then next (does deed w)
      else mark_runtime_degraded degraded_reason (next w)

  unfoldable pub exec_service_action : String → String → World → World
  unfolding exec_command
  exec_service_action action unit w =
      exec_command "systemctl_action_failed" ("systemctl" ∷ action ∷ unit ∷ []) 30 w

  unfoldable pub exec_start_service : String → World → World
  unfolding exec_command
  exec_start_service unit w =
      exec_command "systemctl_start_failed" ("systemctl" ∷ "start" ∷ unit ∷ []) 30 w

  unfoldable pub exec_docker_restart : World → World
  unfolding exec_command
  exec_docker_restart w =
      exec_command "docker_start_failed" ("systemctl" ∷ "start" ∷ "docker.service" ∷ []) 30 (
        exec_command "docker_kill_failed"
          ("systemctl" ∷ "kill" ∷ "-s" ∷ "SIGKILL" ∷ "docker.service" ∷ []) 15 w)

  unfoldable pub exec_restic_unlock : CratonConfig → World → World
  unfolding exec_command
  exec_restic_unlock config w =
      exec_command "restic_unlock_failed"
        (config.backup.restic_binary ∷ "unlock" ∷ "--repo" ∷ config.backup.restic_repo
          ∷ "--password-file" ∷ config.backup.restic_password_file ∷ [])
        120 w

  unfoldable pub exec_persist_backup : BackupPhase → World → World
  unfolding atomic_write
  exec_persist_backup phase w = atomic_write (saved_phase phase) "backup_state_persist_failed" w

  unfoldable pub exec_update_llm_context : CratonConfig → World → World
  unfolding atomic_write
  exec_update_llm_context config w =
      let snapshot = build_snapshot w.state unknown false new (outside.epoch_secs w.calls) in
      atomic_write (saved_llm_context config.ai.context_path snapshot) "llm_context_persist_failed"
        (next w)

  -- The services in maintenance, expired or not.
  unfoldable pub maintenance_entries : TreeMap ServiceId SvcState → TreeMap ServiceId Maintenance
  maintenance_entries [] = []
  maintenance_entries ((id, s) ∷ m) = elim s.maintenance [
    | none ↦ maintenance_entries m
    | some until ↦ (id, until) ∷ maintenance_entries m
  ]

  -- That the entries do not serialize, which the source also checks, does not happen for this type.
  unfoldable pub exec_persist_maintenance : World → World
  unfolding atomic_write maintenance_entries
  exec_persist_maintenance w =
      atomic_write (saved_maintenance (maintenance_entries w.state.services))
        "maintenance_persist_failed" w

  -- A thread whose outcome the daemon does not learn.
  unfoldable pub spawn_detached : Deed → String → World → World
  spawn_detached deed degraded_reason w = elim (outside.spawn_error w.calls) [
    | none ↦ next (does deed w)
    | some e ↦ mark_runtime_degraded degraded_reason (next w)
  ]

  -- A `restic` command: its id is pending before the thread starts. When no thread starts, the id is
  -- taken back first, and then the end of the effect is sent.
  unfoldable pub spawn_restic : (name : String) (argv : List String) (timeout : ℕ) → World → World
  spawn_restic name argv timeout w =
      let (allocated, cmd_id) = alloc_cmd_id w.state in
      let w1 = next (put_state (record allocated { backup_pending_cmd = some cmd_id }) w) in
      elim (outside.spawn_error w.calls) [
        | none ↦ record w1 {
          workers =
              w1.workers ++ record { cmd_id = cmd_id; argv = argv; timeout_secs = timeout } ∷ [];
        }
        | some e ↦
            send
              (effect_completed cmd_id (
                helper_error (
                  text_append "failed to spawn restic "
                    (text_append name (text_append " worker: " e)))))
              (mark_runtime_degraded (text_append "restic_" (text_append name "_spawn_failed"))
                (put_state (record w1.state { backup_pending_cmd = none }) w1))
      ]
