-- ===== src/Schedule/Tests.antt =====
-- A schedule for odd days.
use first_fork.Common.{ℕ, ◌+◌, ◌≡◌, ◌≢◌, ◌≤◌, ◌<◌, ◌↔◌, true, none, some, arith}
use first_fork.Schedule.{WallClock, odd_days, is_due}
use first_fork.Schedule.Due.{DayFits, target, minute_of_day, is_due_iff}

abbrev at : ℕ → ℕ → ℕ → WallClock
at day hour minute = record {
  year = 2026;
  month = 3;
  day = day;
  hour = hour;
  minute = minute;
  second = 0;
  weekday = 1;
}

is_due_iff_example : (is_due (odd_days 4 0) (at 5 4 4) none ≡ true) ↔ (
    DayFits (odd_days 4 0) (at 5 4 4)
    × (target (odd_days 4 0) ≤ minute_of_day (at 5 4 4))
    × (minute_of_day (at 5 4 4) < target (odd_days 4 0) + 5)
    × (none ≢ some (at 5 4 4).day))
is_due_iff_example =
    is_due_iff (odd_days 4 0) (at 5 4 4) none (omega arith, omega arith)
      (record { hour_range = omega arith; minute_range = omega arith })
