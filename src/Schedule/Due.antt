-- ===== src/Schedule/Due.antt =====
-- When a task is due, and how often.
use first_fork.Common.{ℕ, ◌+◌, ◌*◌, ◌%◌, ◌≤◌, ◌<◌, ◌≡◌, ◌≢◌, ◌↔◌, true, false, Option, some, arith}
use first_fork.Schedule.{
  Schedule, interval, daily, weekly, odd_days, WallClock, minutes_since_midnight, is_due,
}

-- A clock reads a time of the day.
pub record IsClock (c : WallClock) : Type 0 where
  pub hour_range : c.hour < 24
  pub minute_range : c.minute < 60

abbrev pub minute_of_day : WallClock → ℕ
minute_of_day c = c.hour * 60 + c.minute

-- The days on which a schedule runs, and its time.
abbrev pub DayFits : Schedule → WallClock → Type 0
DayFits (interval _ _) c = ⊥
DayFits (daily _ _) c = Unit {0}
DayFits (weekly weekday _ _) c = c.weekday ≡ weekday
DayFits (odd_days _ _) c = c.day % 2 ≡ 1

abbrev pub target : Schedule → ℕ
target (interval _ _) = 0
target (daily h m) = h * 60 + m
target (weekly _ h m) = h * 60 + m
target (odd_days h m) = h * 60 + m

-- The schedule names a time of the day.
abbrev pub IsTimed : Schedule → Type 0
IsTimed (interval _ _) = Unit {0}
IsTimed (daily h m) = (h < 24) × (m < 60)
IsTimed (weekly _ h m) = (h < 24) × (m < 60)
IsTimed (odd_days h m) = (h < 24) × (m < 60)

-- With a schedule that names a time of the day and a clock that reads one, a task is due exactly on
-- its days, in the five minutes from its time on, if it has not run on a
-- day of that number.
pub is_due_iff :
    (s : Schedule) (c : WallClock) (last : Option ℕ)
    → IsTimed s
    → IsClock c
    → (is_due s c last ≡ true) ↔ (
        DayFits s c
        × (target s ≤ minute_of_day c)
        × (minute_of_day c < target s + 5)
        × (last ≢ some c.day))
unfolding is_due minutes_since_midnight
is_due_iff (interval _ _) c last t k = ground arith
is_due_iff (daily h m) c last t k = ground arith
is_due_iff (weekly w h m) c last t k = ground arith
is_due_iff (odd_days h m) c last t k = ground arith

-- A task that ran on a day is not due on it.
pub not_due_again : (s : Schedule) (c : WallClock) → is_due s c (some c.day) ≡ false
unfolding is_due
not_due_again (interval _ _) c = ground arith
not_due_again (daily h m) c = ground arith
not_due_again (weekly w h m) c = ground arith
not_due_again (odd_days h m) c = ground arith
