-- ===== src/Http/HealthCheck.antt =====
-- http.rs and runtime.rs together: `GET /health` on what the control loop publishes.
use first_fork.Common.{
  ◌↔◌, ◌≡◌, ℕ, ◌+◌, ◌≤◌, Bool, false, Option, none, some, List, [], ◌∷◌, String, arith,
}
use first_fork.State.{State}
use first_fork.Notify.Send.{NotifyRuntimeState}
use first_fork.Runtime.Snapshot.{StartupKind, build_snapshot}
use first_fork.Http.Responses.{health_of, health_response, Health}

-- There was a probe cycle, ten minutes ago at most.
pub IsProbed : Option ℕ → ℕ → Type 0
IsProbed none now = ⊥
IsProbed (some last) now = now ≤ last + 600

health_response_iff :
    (published : ℕ) (overflow : Bool) (probe : Option ℕ) (down : Bool) (reasons : List String)
    (now_epoch now_mono : ℕ)
    → let parsed : Health = record {
      snapshot_epoch_secs = some published;
      outbox_overflow = some overflow;
      last_probe_cycle_mono = probe;
      shutting_down = some down;
      degraded_reasons = some reasons;
    } in
      ((health_response parsed now_epoch now_mono).status ≡ 200) ↔ (
        (now_epoch ≤ published + 30)
        × (overflow ≡ false)
        × IsProbed probe now_mono
        × (down ≡ false)
        × (reasons ≡ []))
unfolding health_response IsProbed
health_response_iff published overflow none down reasons now_epoch now_mono = ground arith
health_response_iff published overflow (some last) down [] now_epoch now_mono = ground arith
health_response_iff published overflow (some last) down (r ∷ rs) now_epoch now_mono = ground arith

-- The health check reports 200 just when the control loop published within the last 30 seconds, the
-- outbox has lost no alert, a probe cycle is at most ten minutes old, the daemon is not shutting down
-- and has no reason to be degraded. The state of the services plays no part.
pub health_response-build_snapshot :
    (state : State) (kind : StartupKind) (overflow : Bool) (notify : NotifyRuntimeState)
    (published now_epoch now_mono : ℕ)
    → let snapshot = build_snapshot state kind overflow notify published in
      ((health_response (health_of snapshot) now_epoch now_mono).status ≡ 200) ↔ (
        (now_epoch ≤ published + 30)
        × (overflow ≡ false)
        × IsProbed state.last_probe_cycle_mono now_mono
        × (state.shutting_down ≡ false)
        × (state.degraded_reasons ≡ []))
unfolding health_of build_snapshot
health_response-build_snapshot state kind overflow notify published now_epoch now_mono =
    health_response_iff published overflow state.last_probe_cycle_mono state.shutting_down
      state.degraded_reasons now_epoch now_mono
