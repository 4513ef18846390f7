-- ===== src/Breaker/Tests.antt =====
-- Runs of the breaker: the source's unit tests, and the theorems at concrete inputs.
use first_fork.Common.{◌≡◌, refl, [], ◌∷◌, true, false, arith}
use first_fork.Model.{closed, open_until}
use first_fork.Breaker.{record_restart, allows_recovery}
use first_fork.Breaker.Diagram.{Edge, restarts, probed_healthy, looked_at, apply, apply-Edge}
use first_fork.Breaker.Storm.{run, open_suppresses, expired_never_trips}

trips_at_threshold : record_restart closed 3 3 3600 100 ≡ open_until 3700 1
unfolding record_restart
trips_at_threshold = refl

apply-Edge_example : Edge (restarts 3 3 3600 500) closed (apply (restarts 3 3 3600 500) closed)
apply-Edge_example = apply-Edge (restarts 3 3 3600 500) closed

open_suppresses_example :
    (run (restarts 9 3 3600 50 ∷ looked_at 60 ∷ []) (open_until 100 2) ≡ open_until 100 2)
    × (allows_recovery (run (restarts 9 3 3600 50 ∷ looked_at 60 ∷ []) (open_until 100 2)) 99
        ≡ false)
open_suppresses_example =
    open_suppresses 100 2 (restarts 9 3 3600 50 ∷ looked_at 60 ∷ []) 99 (omega arith) (omega arith)

expired_never_trips_example :
    (run (restarts 9 3 3600 150 ∷ probed_healthy ∷ []) (open_until 100 2) ≡ open_until 100 2)
    × (allows_recovery (run (restarts 9 3 3600 150 ∷ probed_healthy ∷ []) (open_until 100 2)) 160
        ≡ true)
expired_never_trips_example =
    expired_never_trips 100 2 (restarts 9 3 3600 150 ∷ probed_healthy ∷ []) 160 tt (omega arith)
