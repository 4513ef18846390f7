-- ===== src/Runtime/Daily.antt =====
-- runtime.rs with reduce.rs: the daily tasks, between `check_daily_schedules` and `handle_tick`.
use first_fork.Common.{
  ℕ, ◌≡◌, refl, inl, inr, ◌∙◌, ap, sym, Bool, true, false, Option, none, some, List, [], ◌∷◌, Memᴰ,
  Bool-cases,
}
use mathlib.Core.List.Memᴰ
use first_fork.Model.{
  TaskKind, recovery, backup, disk_monitor, apt_updates, docker_updates, daily_summary, backup_repo,
}
use first_fork.Schedule.{Schedule, WallClock, daily, weekly, odd_days, interval, is_due}
use first_fork.Schedule.Due.{not_due_again}
use first_fork.Config.{CratonConfig}
use first_fork.Lease.{is_free}
use first_fork.Policy.Backup.{should_start}
use first_fork.State.{State}
use first_fork.Reduce.Base.{Ctx, Texts}
use first_fork.Reduce.Backup.{start_backup}
use first_fork.Reduce.Tick.{run_task, handle_tick}
use first_fork.Runtime.Loop.{due_if, check_daily_schedules}

-- A task of which the reducer notes the day whenever it is run.
pub data IsNoted : TaskKind → Type 0 where
  notes_apt : IsNoted apt_updates
  notes_docker : IsNoted docker_updates
  notes_summary : IsNoted daily_summary

abbrev day_of : TaskKind → State → Option ℕ
day_of apt_updates state = state.last_apt_day
day_of docker_updates state = state.last_docker_day
day_of daily_summary state = state.last_summary_day
day_of backup state = state.last_backup_day
day_of _ state = none

abbrev schedule_of : TaskKind → Schedule
schedule_of backup = odd_days 4 0
schedule_of apt_updates = daily 9 0
schedule_of docker_updates = weekly 6 10 0
schedule_of daily_summary = daily 9 5
schedule_of _ = interval 0 0

mem-due_if : (b : Bool) (task t : TaskKind) → Memᴰ t (due_if b task) → (b ≡ true) × (t ≡ task)
unfolding due_if
mem-due_if true task t (Memᴰ.head e) = (refl, e)
mem-due_if true task t (Memᴰ.tail m) = elim m [ ]
mem-due_if false task t m = elim m [ ]

-- A task is due on its own schedule.
mem-check_daily_schedules :
    (state : State) (wall : WallClock) (t : TaskKind)
    → Memᴰ t (check_daily_schedules state wall)
    → is_due (schedule_of t) wall (day_of t state) ≡ true
unfolding check_daily_schedules
mem-check_daily_schedules state wall t m = elim (Memᴰ.append_cases (due_if _ backup) m) [
  | inl a ↦ let (due, e) = mem-due_if _ backup t a in rw e due
  | inr n ↦ elim (Memᴰ.append_cases (due_if _ apt_updates) n) [
    | inl a ↦ let (due, e) = mem-due_if _ apt_updates t a in rw e due
    | inr o ↦ elim (Memᴰ.append_cases (due_if _ docker_updates) o) [
      | inl a ↦ let (due, e) = mem-due_if _ docker_updates t a in rw e due
      | inr a ↦ let (due, e) = mem-due_if _ daily_summary t a in rw e due
    ]
  ]
]

module _ (texts : Texts) (config : CratonConfig) where
  day_of-start_backup :
      (ctx : Ctx) (t : TaskKind) (state : State)
      → IsNoted t
      → day_of t (start_backup config ctx state).0 ≡ day_of t state
  unfolding start_backup
  day_of-start_backup ctx t state notes_apt =
      elim (Bool-cases (is_free state.leases backup_repo ctx.mono_secs)) [
        | inl q ↦ rw q refl
        | inr q ↦ rw q refl
      ]
  day_of-start_backup ctx t state notes_docker =
      elim (Bool-cases (is_free state.leases backup_repo ctx.mono_secs)) [
        | inl q ↦ rw q refl
        | inr q ↦ rw q refl
      ]
  day_of-start_backup ctx t state notes_summary =
      elim (Bool-cases (is_free state.leases backup_repo ctx.mono_secs)) [
        | inl q ↦ rw q refl
        | inr q ↦ rw q refl
      ]

  -- A task that is run notes the day, and no other task takes a day back.
  day_of-run_task :
      (ctx : Ctx) (t task : TaskKind) (state : State)
      → IsNoted t
      → day_of t state ≡ some ctx.wall.day
      → day_of t (run_task texts config ctx task state).0 ≡ some ctx.wall.day
  unfolding run_task
  day_of-run_task ctx t backup state noted h =
      elim (Bool-cases
        (should_start config.backup.schedule ctx.wall state.last_backup_day state.backup_phase)) [
          | inl q ↦ rw q (day_of-start_backup ctx t state noted ∙ h)
          | inr q ↦ rw q h
        ]
  day_of-run_task ctx t recovery state notes_apt h = h
  day_of-run_task ctx t recovery state notes_docker h = h
  day_of-run_task ctx t recovery state notes_summary h = h
  day_of-run_task ctx t disk_monitor state notes_apt h = h
  day_of-run_task ctx t disk_monitor state notes_docker h = h
  day_of-run_task ctx t disk_monitor state notes_summary h = h
  day_of-run_task ctx t apt_updates state notes_apt h = refl
  day_of-run_task ctx t apt_updates state notes_docker h = h
  day_of-run_task ctx t apt_updates state notes_summary h = h
  day_of-run_task ctx t docker_updates state notes_apt h = h
  day_of-run_task ctx t docker_updates state notes_docker h = refl
  day_of-run_task ctx t docker_updates state notes_summary h = h
  day_of-run_task ctx t daily_summary state notes_apt h = h
  day_of-run_task ctx t daily_summary state notes_docker h = h
  day_of-run_task ctx t daily_summary state notes_summary h = refl

  day_of-run_own :
      (ctx : Ctx) (t : TaskKind) (state : State)
      → IsNoted t
      → day_of t (run_task texts config ctx t state).0 ≡ some ctx.wall.day
  unfolding run_task
  day_of-run_own ctx t state notes_apt = refl
  day_of-run_own ctx t state notes_docker = refl
  day_of-run_own ctx t state notes_summary = refl

  day_of-handle_tick :
      (ctx : Ctx) (t : TaskKind) (tasks : List TaskKind) (state : State)
      → IsNoted t
      → day_of t state ≡ some ctx.wall.day
      → day_of t (handle_tick texts config ctx tasks state).0 ≡ some ctx.wall.day
  unfolding handle_tick
  day_of-handle_tick ctx t [] state noted h = h
  day_of-handle_tick ctx t (task ∷ tasks) state noted h =
      day_of-handle_tick ctx t tasks (run_task texts config ctx task state).0 noted
        (day_of-run_task ctx t task state noted h)

  day_of-ticked :
      (ctx : Ctx) (t : TaskKind) (tasks : List TaskKind) (state : State)
      → IsNoted t
      → Memᴰ t tasks
      → day_of t (handle_tick texts config ctx tasks state).0 ≡ some ctx.wall.day
  unfolding handle_tick
  day_of-ticked ctx t [] state noted m = elim m [ ]
  day_of-ticked ctx t (task ∷ tasks) state noted (Memᴰ.head e) =
      day_of-handle_tick ctx t tasks (run_task texts config ctx task state).0 noted
        (rw (← e) (day_of-run_own ctx t state noted))
  day_of-ticked ctx t (task ∷ tasks) state noted (Memᴰ.tail m) =
      day_of-ticked ctx t tasks (run_task texts config ctx task state).0 noted m

  -- Further ticks, one after the other.
  unfoldable pub ticks : List (Ctx × List TaskKind) → State → State
  ticks [] state = state
  ticks ((ctx, tasks) ∷ more) state = ticks more (handle_tick texts config ctx tasks state).0

  abbrev pub AllOn : ℕ → List (Ctx × List TaskKind) → Type 0
  AllOn day [] = Unit {0}
  AllOn day ((ctx, tasks) ∷ more) = (ctx.wall.day ≡ day) × AllOn day more

  day_of-ticks :
      (more : List (Ctx × List TaskKind)) (day : ℕ) (t : TaskKind) (state : State)
      → IsNoted t
      → AllOn day more
      → day_of t state ≡ some day
      → day_of t (ticks more state) ≡ some day
  unfolding ticks
  day_of-ticks [] day t state noted on h = h
  day_of-ticks ((ctx, tasks) ∷ more) day t state noted on h =
      day_of-ticks more day t (handle_tick texts config ctx tasks state).0 noted on.1
        (day_of-handle_tick ctx t tasks state noted (h ∙ ap some (sym on.0)) ∙ ap some on.0)

  -- Once a tick ran the APT check, the Docker check or the daily summary, the schedules do not ask for it again
  -- on a day of that number, whatever other ticks are handled on that day. (The backup notes its day only when it
  -- begins.)
  pub handle_tick-once :
      (ctx : Ctx) (t : TaskKind) (tasks : List TaskKind) (state : State)
      (more : List (Ctx × List TaskKind)) (wall : WallClock)
      → IsNoted t
      → Memᴰ t tasks
      → AllOn ctx.wall.day more
      → wall.day ≡ ctx.wall.day
      → ¬ Memᴰ t
          (check_daily_schedules (ticks more (handle_tick texts config ctx tasks state).0) wall)
  handle_tick-once ctx t tasks state more wall noted m on same due =
      let state' = ticks more (handle_tick texts config ctx tasks state).0 in
      let day =
        day_of-ticks more ctx.wall.day t (handle_tick texts config ctx tasks state).0 noted on
          (day_of-ticked ctx t tasks state noted m) in
      let again = mem-check_daily_schedules state' wall t due in
      let never = not_due_again (schedule_of t) wall in
      absurd (let a = rw (day, ← same) at again in cc)
