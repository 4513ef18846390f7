-- ===== src/Breaker.antt =====
-- breaker.rs: the circuit breaker of a service, as functions from state to state.
pub mod Diagram
pub mod Storm
mod Tests
use first_fork.Common.{ℕ, Bool, true, add32, add64, leb, if◌then◌else◌}
use first_fork.Model.{BreakerState, closed, open_until, half_open}

unfoldable pub record_restart :
    BreakerState → (restarts_in_window threshold cooldown_secs now_mono : ℕ) → BreakerState
record_restart closed restarts threshold cooldown now =
    if leb threshold restarts then open_until (add64 now cooldown) 1 else closed
record_restart (half_open _ previous) restarts threshold cooldown now =
    open_until (add64 now cooldown) (add32 previous 1)
record_restart (open_until until trips) restarts threshold cooldown now = open_until until trips

unfoldable pub on_healthy_probe : BreakerState → BreakerState
on_healthy_probe (half_open _ _) = closed
on_healthy_probe b = b

unfoldable pub maybe_transition : BreakerState → ℕ → BreakerState
maybe_transition (open_until until trips) now =
    if leb until now then half_open 0 trips else open_until until trips
maybe_transition b now = b

unfoldable pub allows_recovery : BreakerState → ℕ → Bool
allows_recovery (open_until until _) now = leb until now
allows_recovery _ now = true

unfoldable pub reset : BreakerState
reset = closed
