-- ===== src/Breaker/Diagram.antt =====
-- The breaker's transition diagram: `Closed` → `Open` → `HalfOpen` → `Closed` or `Open`.
use first_fork.Common.{
  ℕ, ◌+◌, ◌^◌, ◌≤◌, ◌<◌, ◌≡◌, ◌≢◌, inl, inr, Bool, true, false, not, add32, add64, leb, leb→le,
  leb→lt, Bool-cases, arith,
}
use first_fork.Model.{BreakerState, closed, open_until, half_open}
use first_fork.Breaker.{record_restart, on_healthy_probe, maybe_transition, allows_recovery, reset}

-- What happens to a breaker: a restart is recorded, a probe succeeds, the cooldown is looked at,
-- or an operator resets it.
pub data Op : Type 0 where
  restarts : (restarts_in_window threshold cooldown_secs now_mono : ℕ) → Op
  probed_healthy : Op
  looked_at : (now_mono : ℕ) → Op
  cleared : Op

unfoldable pub apply : Op → BreakerState → BreakerState
apply (restarts n threshold cooldown now) b = record_restart b n threshold cooldown now
apply probed_healthy b = on_healthy_probe b
apply (looked_at now) b = maybe_transition b now
apply cleared b = reset

-- The edges of the diagram, each with the operations that take it and what they must find.
pub data Edge : Op → BreakerState → BreakerState → Type 0 where
  spare :
      {n threshold cooldown now : ℕ}
      → n < threshold
      → Edge (restarts n threshold cooldown now) closed closed
  trip :
      {n threshold cooldown now : ℕ}
      → threshold ≤ n
      → Edge (restarts n threshold cooldown now) closed (open_until (add64 now cooldown) 1)
  retrip :
      {n threshold cooldown now probes trips : ℕ}
      → Edge
          (restarts n threshold cooldown now)
          (half_open probes trips)
          (open_until (add64 now cooldown) (add32 trips 1))
  keep_open :
      {n threshold cooldown now until trips : ℕ}
      → Edge (restarts n threshold cooldown now) (open_until until trips) (open_until until trips)
  recover : {probes trips : ℕ} → Edge probed_healthy (half_open probes trips) closed
  unmoved :
      {b : BreakerState}
      → ((probes trips : ℕ) → b ≢ half_open probes trips)
      → Edge probed_healthy b b
  cool :
      {now until trips : ℕ}
      → until ≤ now
      → Edge (looked_at now) (open_until until trips) (half_open 0 trips)
  wait :
      {now until trips : ℕ}
      → now < until
      → Edge (looked_at now) (open_until until trips) (open_until until trips)
  pass :
      {now : ℕ} {b : BreakerState}
      → ((until trips : ℕ) → b ≢ open_until until trips)
      → Edge (looked_at now) b b
  clear : {b : BreakerState} → Edge cleared b closed

-- Every operation takes an edge of the diagram: a restart trips a closed breaker from the threshold on and
-- not below it, trips a half-open one again, and leaves an open one as it is; a healthy probe closes a
-- half-open one and moves no other; a look half-opens an open one from its deadline on and not before, and
-- moves no other; a reset closes it.
pub apply-Edge : (o : Op) (b : BreakerState) → Edge o b (apply o b)
unfolding apply record_restart on_healthy_probe maybe_transition reset
apply-Edge (restarts n threshold cooldown now) closed = elim (Bool-cases (leb threshold n)) [
  | inl q ↦ rw q (trip (leb→le threshold n q))
  | inr q ↦ rw q (spare (leb→lt threshold n q))
]
apply-Edge (restarts n threshold cooldown now) (open_until u t) = keep_open
apply-Edge (restarts n threshold cooldown now) (half_open k t) = retrip
apply-Edge probed_healthy closed = unmoved (λ k t e. cc)
apply-Edge probed_healthy (open_until u t) = unmoved (λ k t' e. cc)
apply-Edge probed_healthy (half_open k t) = recover
apply-Edge (looked_at now) closed = pass (λ u t e. cc)
apply-Edge (looked_at now) (open_until u t) = elim (Bool-cases (leb u now)) [
  | inl q ↦ rw q (cool (leb→le u now q))
  | inr q ↦ rw q (wait (leb→lt u now q))
]
apply-Edge (looked_at now) (half_open k t) = pass (λ u t' e. cc)
apply-Edge cleared b = clear

abbrev pub is_open : BreakerState → Bool
is_open (open_until _ _) = true
is_open _ = false

-- Recovery is allowed exactly where looking at the cooldown leaves the breaker not open.
allows_recovery-maybe_transition :
    (b : BreakerState) (now : ℕ) → is_open (maybe_transition b now) ≡ not (allows_recovery b now)
unfolding allows_recovery maybe_transition
allows_recovery-maybe_transition closed now = ground arith
allows_recovery-maybe_transition (open_until u t) now = ground arith
allows_recovery-maybe_transition (half_open k t) now = ground arith

-- One turn of the breaker, as long as neither number overflows: cooled down at `now`, restarted at
-- `later`, it is open again for a whole cooldown from then, and has counted one trip more.
retrip_counts :
    (until trips now later n threshold cooldown : ℕ)
    → until ≤ now
    → trips + 1 < 2 ^ 32
    → later + cooldown < 2 ^ 64
    → record_restart (maybe_transition (open_until until trips) now) n threshold cooldown later
      ≡ open_until (later + cooldown) (trips + 1)
unfolding record_restart maybe_transition
retrip_counts until trips now later n threshold cooldown cooled h k = ground arith
