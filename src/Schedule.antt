-- ===== src/Schedule.antt =====
-- schedule.rs: when a task is due. Hours, minutes and days are `u32`.
pub mod Due
mod Tests
use first_fork.Common.{
  ℕ, ◌*◌, ◌%◌, Bool, true, false, not, ◌&&◌, Option, none, some, ◌==◌, leb, ltb, add32, u32_mod,
  if◌then◌else◌,
}

pub data Schedule : Type 0 where
  interval : (interval_secs initial_delay_secs : ℕ) → Schedule
  daily : (hour minute : ℕ) → Schedule
  weekly : (weekday hour minute : ℕ) → Schedule
  odd_days : (hour minute : ℕ) → Schedule

-- The year is read by nothing in the model's scope and is left a number.
pub record WallClock : Type 0 where
  pub year : ℕ
  pub month : ℕ
  pub day : ℕ
  pub hour : ℕ
  pub minute : ℕ
  pub second : ℕ
  pub weekday : ℕ

abbrev pub minutes_of : ℕ → ℕ → ℕ
minutes_of hour minute = add32 (hour * 60 % u32_mod) minute

unfoldable pub minutes_since_midnight : WallClock → ℕ
minutes_since_midnight c = minutes_of c.hour c.minute

unfoldable pub is_odd_day : WallClock → Bool
is_odd_day c = c.day % 2 == 1

-- `last_run_day != Some(now.day)`.
abbrev pub not_run_on : ℕ → Option ℕ → Bool
not_run_on day none = true
not_run_on day (some last) = not (last == day)

-- The window of five minutes that opens at HH:MM, unless the task already ran today.
unfoldable pub in_window : (hour minute : ℕ) → WallClock → Option ℕ → Bool
unfolding minutes_since_midnight
in_window hour minute now last_run_day =
    let target = minutes_of hour minute in
    let current = minutes_since_midnight now in
    (leb target current && ltb current (add32 target 5)) && not_run_on now.day last_run_day

unfoldable pub is_due : Schedule → WallClock → Option ℕ → Bool
unfolding in_window is_odd_day
is_due (interval _ _) now last = false
is_due (daily hour minute) now last = in_window hour minute now last
is_due (weekly weekday hour minute) now last =
    if not (now.weekday == weekday) then false else in_window hour minute now last
is_due (odd_days hour minute) now last =
    if not (is_odd_day now) then false else in_window hour minute now last
