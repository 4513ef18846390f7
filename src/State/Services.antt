-- ===== src/State/Services.antt =====
-- state.rs: the state of one service.
use first_fork.Common.{
  ℕ, ◌-◌, Bool, true, false, Option, none, some, String, ltb, leb, length, filter, saturating_sub,
  u32_mod, if◌then◌else◌, arith,
}
use first_fork.Model.{ServiceId, BreakerState, closed}
use first_fork.History.{RingBuf}
use first_fork.History

pub data ServiceStatus : Type 0 where
  unknown : ServiceStatus
  healthy : (since_mono : ℕ) → ServiceStatus
  unhealthy : (since_mono : ℕ) (error : String) (consecutive : ℕ) → ServiceStatus
  recovering : (attempt since_mono : ℕ) → ServiceStatus
  failed : (since_mono : ℕ) (error : String) → ServiceStatus
  blocked_by_dep : (root : ServiceId) → ServiceStatus
  suppressed : (until_mono : ℕ) → ServiceStatus

abbrev pub status_is_healthy : ServiceStatus → Bool
status_is_healthy (healthy _) = true
status_is_healthy _ = false

abbrev pub is_degraded : ServiceStatus → Bool
is_degraded unknown = false
is_degraded (healthy _) = false
is_degraded _ = true

pub record Maintenance : Type 0 where
  pub until_mono : ℕ
  pub reason : String

pub record RestartRecord : Type 0 where
  pub mono : ℕ
  pub attempt : ℕ
  pub success : Bool

pub record SvcState : Type 0 where
  pub status : ServiceStatus
  pub breaker : BreakerState
  pub restart_history : RingBuf RestartRecord
  pub last_restart_mono : Option ℕ
  pub last_alert_mono : Option ℕ
  pub maintenance : Option Maintenance

-- `SvcState::new`.
unfoldable pub new_service : SvcState
new_service = record {
  status = unknown;
  breaker = closed;
  restart_history = History.new 20 (omega arith);
  last_restart_mono = none;
  last_alert_mono = none;
  maintenance = none;
}

unfoldable pub is_in_maintenance : SvcState → ℕ → Bool
is_in_maintenance s now = elim s.maintenance [ none ↦ false | some m ↦ ltb now m.until_mono ]

-- The count is clamped to a `u32`.
unfoldable pub restarts_in_window : SvcState → (now_mono window_secs : ℕ) → ℕ
restarts_in_window s now window =
    let cutoff = saturating_sub now window in
    let count = length (filter (λ r. leb cutoff r.mono) s.restart_history.items) in
    if ltb count u32_mod then count else u32_mod - 1
