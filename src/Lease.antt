-- ===== src/Lease.antt =====
-- lease.rs: the arbiter of exclusive resources. It lives in memory only. A method that changes the
-- arbiter returns the new one. The test-only methods of the source are not modelled.
pub mod Exclusion
mod Tests
use first_fork.Common.{
  ℕ, Bool, true, Option, none, some, [], String, TreeMap, get, insert, remove, saturating_sub, leb,
  str_eq, if◌then◌else◌,
}
use first_fork.Model.{ResourceId, resource_ord}

pub record LeaseEntry : Type 0 where
  pub holder : String
  pub acquired_mono_secs : ℕ

pub record LeaseArbiter : Type 0 where
  pub held : TreeMap ResourceId LeaseEntry
  pub max_ttl_secs : ℕ

pub data AcquireResult : Type 0 where
  granted : AcquireResult
  conflict : (current_holder : String) → AcquireResult
  granted_after_eviction : (previous_holder : String) → AcquireResult

unfoldable pub new : ℕ → LeaseArbiter
new max_ttl_secs = record { held = []; max_ttl_secs = max_ttl_secs }

-- The lease is as old as the time to live, or older. Ages saturate at 0.
abbrev pub is_expired : ℕ → LeaseEntry → ℕ → Bool
is_expired ttl e now = leb ttl (saturating_sub now e.acquired_mono_secs)

module _ (a : LeaseArbiter) (resource : ResourceId) (holder : String) (now : ℕ) where
  -- `held.insert` of a lease that starts now.
  granting : LeaseArbiter
  granting = record a {
    held = insert resource (record { holder = holder; acquired_mono_secs = now }) a.held;
  }

  acquire_over : Option LeaseEntry → LeaseArbiter × AcquireResult
  unfolding granting
  acquire_over none = (granting, granted)
  acquire_over (some e) =
      if str_eq e.holder holder
      then (a, granted)
      else if is_expired a.max_ttl_secs e now
      then (granting, granted_after_eviction e.holder)
      else (a, conflict e.holder)

  unfoldable pub acquire : LeaseArbiter × AcquireResult
  unfolding acquire_over
  acquire = acquire_over (get resource a.held)

unfoldable pub force_release : LeaseArbiter → ResourceId → LeaseArbiter
force_release a resource = record a { held = remove resource a.held }

unfoldable pub is_free : LeaseArbiter → ResourceId → ℕ → Bool
is_free a resource now = elim (get resource a.held) [
  | none ↦ true
  | some e ↦ is_expired a.max_ttl_secs e now
]
