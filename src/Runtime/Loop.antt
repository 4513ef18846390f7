-- ===== src/Runtime/Loop.antt =====
-- runtime.rs: the turns of the control loop. Instants and intervals are in nanoseconds.
use first_fork.Common.{
  ℕ, ◌+◌, ◌*◌, Bool, true, false, not, ◌&&◌, Option, none, some, List, [], ◌∷◌, ◌++◌, leb,
  if◌then◌else◌, saturating_sub,
}
use first_fork.Model.{
  TaskKind, recovery, backup, disk_monitor, apt_updates, docker_updates, daily_summary, Event, tick,
  http_command,
}
use first_fork.Schedule.{WallClock, daily, weekly, odd_days, is_due}
use first_fork.Config.{CratonConfig}
use first_fork.Graph.{DepGraph}
use first_fork.State.{State}
use first_fork.Reduce.Base.{Texts}
use first_fork.Reduce.Remediation.{http_command_response}
use first_fork.Runtime.Machine.{Outside, World, answered, fed_watchdog, does}
use first_fork.Runtime.Commands.{reduce_at, execute_commands}

-- The task, if its schedule is due.
unfoldable pub due_if : Bool → TaskKind → List TaskKind
due_if true task = task ∷ []
due_if false task = []

-- The tasks that `check_daily_schedules` adds.
unfoldable pub check_daily_schedules : State → WallClock → List TaskKind
unfolding due_if is_due
check_daily_schedules state wall =
    due_if (is_due (odd_days 4 0) wall state.last_backup_day) backup
    ++ (due_if (is_due (daily 9 0) wall state.last_apt_day) apt_updates
        ++ (due_if (is_due (weekly 6 10 0) wall state.last_docker_day) docker_updates
            ++ due_if (is_due (daily 9 5) wall state.last_summary_day) daily_summary))

unfoldable pub should_send_watchdog : Bool → (elapsed interval : ℕ) → Bool
should_send_watchdog shutting_down elapsed interval = not shutting_down && leb interval elapsed

abbrev pub nanos_per_sec : ℕ
nanos_per_sec = 1000000000

abbrev pub recovery_interval : ℕ
recovery_interval = 300 * nanos_per_sec

abbrev pub disk_interval : ℕ
disk_interval = 6 * 3600 * nanos_per_sec

abbrev pub startup_delay : ℕ
startup_delay = 120 * nanos_per_sec

pub record Timers : Type 0 where
  pub last_recovery : ℕ
  pub last_disk : ℕ
  pub last_watchdog : ℕ
  pub start_instant : ℕ

-- What `recv_timeout` gives: an event, with whether its sender waits for an answer, or why there is
-- none.
pub data Incoming : Type 0 where
  received : Event → (wants_answer : Bool) → Incoming
  timed_out disconnected : Incoming

-- A turn with the loop over, or not.
pub data Turn : Type 0 where
  goes_on ends : (timers : Timers) (world : World) → Turn

-- A task with its own timer: whether it is due, and the timer then. The clock is read at `now` for the
-- test and at `later` to set the timer.
unfoldable pub elapsed_task : TaskKind → (interval last now later : ℕ) → List TaskKind × ℕ
elapsed_task task interval last now later =
    if leb interval (saturating_sub now last) then (task ∷ [], later) else ([], last)

module _ (outside : Outside) (instant : ℕ → ℕ) (config : CratonConfig) (texts : Texts)
    (graph : DepGraph) (watchdog_interval : ℕ) where
  -- The tasks of a turn, none within two minutes of the start.
  unfoldable pub due_tasks : Timers → World → Timers × List TaskKind
  unfolding elapsed_task check_daily_schedules
  due_tasks t w =
      let (recoveries, last_recovery) =
        elapsed_task recovery recovery_interval t.last_recovery (instant (w.calls + 1))
          (instant (w.calls + 2)) in
      let (disks, last_disk) =
        elapsed_task disk_monitor disk_interval t.last_disk (instant (w.calls + 3))
          (instant (w.calls + 4)) in
      if leb startup_delay (saturating_sub (instant w.calls) t.start_instant)
      then (
        record t { last_recovery = last_recovery; last_disk = last_disk },
        recoveries ++ (disks ++ check_daily_schedules w.state (outside.wall w.calls)),
      )
      else (t, [])

  unfoldable pub handle_event : Event → World → Option World
  handle_event event w =
      let (w1, cmds) = reduce_at outside config texts graph event w in
      execute_commands outside config texts graph 1 cmds w1

  unfoldable pub run_due : List TaskKind → World → Option World
  unfolding handle_event
  run_due [] w = some w
  run_due (task ∷ tasks) w = handle_event (tick (task ∷ tasks)) w

  -- The answer to an HTTP command is read off the state before the commands are carried out.
  abbrev respond : Event → Bool → World → World
  respond (http_command request) true w = does (answered (http_command_response request w.state)) w
  respond _ _ w = w

  unfoldable pub handle_incoming : Event → Bool → World → Option World
  handle_incoming event wants_answer w =
      let (w1, cmds) = reduce_at outside config texts graph event w in
      execute_commands outside config texts graph 1 cmds (respond event wants_answer w1)

  unfoldable pub feed : Timers → World → Turn
  feed t w =
      let elapsed = saturating_sub (instant w.calls) t.last_watchdog in
      let w1 = record w { calls = w.calls + 2 } in
      if should_send_watchdog w.state.shutting_down elapsed watchdog_interval
      then goes_on (record t { last_watchdog = instant (w.calls + 1) }) (does fed_watchdog w1)
      else goes_on t w1

  -- After the due tasks: the event of the turn, and the watchdog.
  unfoldable pub receive : Incoming → Timers → World → Option Turn
  receive (received event wants_answer) t w = elim (handle_incoming event wants_answer w) [
    | none ↦ none
    | some w1 ↦ some (if w1.state.shutting_down then ends t w1 else feed t w1)
  ]
  receive timed_out t w = some (feed t w)
  receive disconnected t w = some (ends t w)

  -- One turn of the `loop`.
  unfoldable pub turn : Incoming → Timers → World → Option Turn
  turn incoming t w =
      let (t1, tasks) = due_tasks t w in
      elim (run_due tasks (record w { calls = w.calls + 5 })) [
        | none ↦ none
        | some w1 ↦ receive incoming t1 w1
      ]

  -- The loop, as long as something comes in.
  unfoldable pub run_turns : List Incoming → Timers → World → Option Turn
  run_turns [] t w = some (goes_on t w)
  run_turns (incoming ∷ rest) t w = elim (turn incoming t w) [
    | none ↦ none
    | some (ends t1 w1) ↦ some (ends t1 w1)
    | some (goes_on t1 w1) ↦ run_turns rest t1 w1
  ]
