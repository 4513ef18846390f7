-- ===== src/Breaker/Storm.antt =====
-- What the breaker does to a storm of restarts, over any sequence of operations.
use first_fork.Common.{ℕ, ◌≤◌, ◌<◌, ◌≡◌, refl, List, [], ◌∷◌, true, false, arith}
use first_fork.Model.{BreakerState, open_until}
use first_fork.Breaker.{record_restart, on_healthy_probe, maybe_transition, allows_recovery}
use first_fork.Breaker.Diagram.{Op, restarts, probed_healthy, looked_at, cleared, apply}

unfoldable pub run : List Op → BreakerState → BreakerState
run [] b = b
run (o ∷ os) b = run os (apply o b)

-- The cooldown is looked at before `until` only, and no operator interferes.
abbrev pub Within : ℕ → List Op → Type 0
Within until [] = Unit {0}
Within until (looked_at now ∷ os) = (now < until) × Within until os
Within until (cleared ∷ os) = ⊥
Within until (_ ∷ os) = Within until os

run-Within :
    (until trips : ℕ) (os : List Op)
    → Within until os
    → run os (open_until until trips) ≡ open_until until trips
unfolding run apply record_restart on_healthy_probe maybe_transition
run-Within until trips [] w = refl
run-Within until trips (restarts n t c m ∷ os) w = run-Within until trips os w
run-Within until trips (probed_healthy ∷ os) w = run-Within until trips os w
run-Within until trips (looked_at now ∷ os) w = ground (arith, run-Within until trips os w.1)
run-Within until trips (cleared ∷ os) w = absurd w

-- A tripped breaker suppresses recovery for its whole cooldown: whatever restarts are recorded,
-- probes succeed or looks are taken before `until`, it stays as it was, and refuses until then.
pub open_suppresses :
    (until trips : ℕ) (os : List Op) (now : ℕ)
    → Within until os
    → now < until
    → (run os (open_until until trips) ≡ open_until until trips)
      × (allows_recovery (run os (open_until until trips)) now ≡ false)
unfolding allows_recovery
open_suppresses until trips os now w h =
    (run-Within until trips os w, rw (run-Within until trips os w) (ground arith))

-- Only restarts and healthy probes.
abbrev pub Unseen : List Op → Type 0
Unseen [] = Unit {0}
Unseen (restarts _ _ _ _ ∷ os) = Unseen os
Unseen (probed_healthy ∷ os) = Unseen os
Unseen (_ ∷ os) = ⊥

run-Unseen :
    (until trips : ℕ) (os : List Op)
    → Unseen os
    → run os (open_until until trips) ≡ open_until until trips
unfolding run apply record_restart on_healthy_probe
run-Unseen until trips [] w = refl
run-Unseen until trips (restarts n t c m ∷ os) w = run-Unseen until trips os w
run-Unseen until trips (probed_healthy ∷ os) w = run-Unseen until trips os w
run-Unseen until trips (looked_at now ∷ os) w = absurd w
run-Unseen until trips (cleared ∷ os) w = absurd w

-- A breaker whose cooldown is over and which nobody looks at never trips again: any number of
-- restarts and healthy probes leaves it open with its old deadline, so it allows recovery always.
pub expired_never_trips :
    (until trips : ℕ) (os : List Op) (now : ℕ)
    → Unseen os
    → until ≤ now
    → (run os (open_until until trips) ≡ open_until until trips)
      × (allows_recovery (run os (open_until until trips)) now ≡ true)
unfolding allows_recovery
expired_never_trips until trips os now w h =
    (run-Unseen until trips os w, rw (run-Unseen until trips os w) (ground arith))
