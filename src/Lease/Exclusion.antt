-- ===== src/Lease/Exclusion.antt =====
-- What a lease promises: who may acquire a resource, and for how long nobody else may.
use first_fork.Common.{
  ℕ, ◌+◌, ◌≤◌, ◌<◌, ◌≡◌, ◌≢◌, refl, ◌∙◌, ◌==◌, ◌⊎◌, inl, inr, Option-cases, Bool-cases, Bool, not,
  ◌&&◌, true, false, Option, none, some, List, [], ◌∷◌, String, arith, get, get-insert, get-remove,
  key_eq, key_eq_iff, str_eq, eq_iff, if◌then◌else◌,
}
use first_fork.Model.{ResourceId, resource_ord}
use first_fork.Lease.{
  LeaseEntry, LeaseArbiter, AcquireResult, granted, conflict, granted_after_eviction, is_expired,
  acquire, force_release, is_free,
}

-- What is recorded of a resource after `holder` has tried to acquire it.
unfoldable pub next_entry : ℕ → Option LeaseEntry → String → ℕ → LeaseEntry
next_entry ttl none holder now = record { holder = holder; acquired_mono_secs = now }
next_entry ttl (some e) holder now =
    if str_eq e.holder holder
    then e
    else if is_expired ttl e now
    then record { holder = holder; acquired_mono_secs = now }
    else e

-- `acquire` touches no entry but the resource's own.
pub get-acquired :
    (a : LeaseArbiter) (r s : ResourceId) (holder : String) (now : ℕ)
    → get s (acquire a r holder now).0.held ≡ (
        if key_eq s r
        then some (next_entry a.max_ttl_secs (get r a.held) holder now)
        else get s a.held)
unfolding acquire next_entry
get-acquired a r s holder now = ground (
  arith,
  get-insert r s (record { holder = holder; acquired_mono_secs = now }) a.held,
  key_eq_iff s r,
)

-- The specification of `acquire`: what is answered, and the lease afterwards. A lease is over once its time
-- to live has passed since it was acquired; with a time to live of 0 it is over at once.
pub data Decides (ttl : ℕ)
    : Option LeaseEntry → (holder : String) (now : ℕ) → AcquireResult → LeaseEntry → Type 0 where
  free :
      {holder : String} {now : ℕ}
      → Decides ttl none holder now granted (record { holder = holder; acquired_mono_secs = now })
  own : {e : LeaseEntry} {now : ℕ} → Decides ttl (some e) e.holder now granted e
  evicts :
      {e : LeaseEntry} {holder : String} {now : ℕ}
      → e.holder ≢ holder
      → (e.acquired_mono_secs + ttl ≤ now) ⊎ (ttl ≡ 0)
      → Decides ttl
          (some e)
          holder
          now
          (granted_after_eviction e.holder)
          (record { holder = holder; acquired_mono_secs = now })
  refuses :
      {e : LeaseEntry} {holder : String} {now : ℕ}
      → e.holder ≢ holder
      → now < e.acquired_mono_secs + ttl
      → 0 < ttl
      → Decides ttl (some e) holder now (conflict e.holder) e

over :
    (ttl now : ℕ) (e : LeaseEntry)
    → is_expired ttl e now ≡ true
    → (e.acquired_mono_secs + ttl ≤ now) ⊎ (ttl ≡ 0)
over ttl now e h = elim (Bool-cases (ttl == 0)) [
  | inl q ↦ inr (ground (arith, q))
  | inr q ↦ inl (ground (arith, h, q))
]

answer-Decides :
    (a : LeaseArbiter) (r : ResourceId) (holder : String) (now : ℕ)
    → (get r a.held ≡ none) ⊎ ((e : LeaseEntry) × (get r a.held ≡ some e))
    → Decides a.max_ttl_secs
        (get r a.held)
        holder
        now
        (acquire a r holder now).1
        (next_entry a.max_ttl_secs (get r a.held) holder now)
unfolding acquire next_entry
answer-Decides a r holder now (inl q) = rw (q, acquire) free
answer-Decides a r holder now (inr (e, q)) = elim (Bool-cases (str_eq e.holder holder)) [
  | inl h ↦ rw (q, h, ← ((eq_iff e.holder holder).0 h), acquire) own
  | inr h ↦
      let ne : e.holder ≢ holder =
        λ same. let t = (eq_iff e.holder holder).1 same in ground (arith, h, t) in
      elim (Bool-cases (is_expired a.max_ttl_secs e now)) [
        | inl x ↦ rw (q, h, x, acquire) (evicts ne (over a.max_ttl_secs now e x))
        | inr x ↦ rw (q, h, x, acquire) (refuses ne (ground (arith, x)) (ground (arith, x)))
      ]
]

-- Asking for a resource is decided by its own lease as specified, the answer included: a free resource is
-- granted, the holder is granted again and keeps his lease as it is, another holder evicts a lease that is
-- over and is refused by one that is not. No other lease changes.
pub acquire-Decides :
    (a : LeaseArbiter) (r : ResourceId) (holder : String) (now : ℕ)
    → let (b, result) = acquire a r holder now in
      ((e : LeaseEntry) × (get r b.held ≡ some e)
        × Decides a.max_ttl_secs (get r a.held) holder now result e)
      × ((s : ResourceId) → s ≢ r → get s b.held ≡ get s a.held)
acquire-Decides a r holder now = (
  (
    next_entry a.max_ttl_secs (get r a.held) holder now,
    ground (arith, get-acquired a r r holder now, key_eq_iff r r),
    answer-Decides a r holder now (Option-cases (get r a.held)),
  ),
  λ s ne. ground (arith, get-acquired a r s holder now, key_eq_iff s r),
)

abbrev pub is_conflict : AcquireResult → Bool
is_conflict (conflict _) = true
is_conflict _ = false

abbrev pub holds : LeaseArbiter → ResourceId → String → Bool
holds a r holder = elim (get r a.held) [ none ↦ false | some e ↦ str_eq e.holder holder ]

-- Who asks for a resource is refused exactly when it is not reported free and he does not hold it.
is_free-acquire :
    (a : LeaseArbiter) (r : ResourceId) (holder : String) (now : ℕ)
    → is_conflict (acquire a r holder now).1 ≡ (not (is_free a r now) && not (holds a r holder))
unfolding acquire is_free
is_free-acquire a r holder now = ground arith

-- What others may do: acquire anything before the deadline, release other resources.
pub data Op : Type 0 where
  acquires : (resource : ResourceId) (holder : String) (now_mono_secs : ℕ) → Op
  releases : (resource : ResourceId) → Op

unfoldable pub run : List Op → LeaseArbiter → LeaseArbiter
run [] a = a
run (acquires r holder now ∷ os) a = run os (acquire a r holder now).0
run (releases r ∷ os) a = run os (force_release a r)

abbrev pub Spares : ResourceId → ℕ → List Op → Type 0
Spares r deadline [] = Unit {0}
Spares r deadline (acquires _ _ now ∷ os) = (now < deadline) × Spares r deadline os
Spares r deadline (releases s ∷ os) = (r ≢ s) × Spares r deadline os

max_ttl-acquire :
    (a : LeaseArbiter) (r : ResourceId) (holder : String) (now : ℕ)
    → (acquire a r holder now).0.max_ttl_secs ≡ a.max_ttl_secs
unfolding acquire
max_ttl-acquire a r holder now = ground arith

get-acquire :
    (a : LeaseArbiter) (r s : ResourceId) (holder : String) (now : ℕ) (e : LeaseEntry)
    → get r a.held ≡ some e
    → 0 < a.max_ttl_secs
    → now < e.acquired_mono_secs + a.max_ttl_secs
    → get r (acquire a s holder now).0.held ≡ some e
unfolding next_entry
get-acquire a r s holder now e h live young =
    ground (arith, get-acquired a s r holder now, key_eq_iff r s)

get-force_release :
    (a : LeaseArbiter) (r s : ResourceId) → r ≢ s → get r (force_release a s).held ≡ get r a.held
unfolding force_release
get-force_release a r s ne = ground (arith, get-remove s r a.held, key_eq_iff r s)

get-run :
    (os : List Op) (a : LeaseArbiter) (r : ResourceId) (e : LeaseEntry)
    → get r a.held ≡ some e
    → 0 < a.max_ttl_secs
    → Spares r (e.acquired_mono_secs + a.max_ttl_secs) os
    → (get r (run os a).held ≡ some e) × ((run os a).max_ttl_secs ≡ a.max_ttl_secs)
unfolding run
get-run [] a r e h live sp = (h, refl)
get-run (acquires s holder now ∷ os) a r e h live sp =
    let ttl = max_ttl-acquire a s holder now in
    let (held, kept) =
      get-run os (acquire a s holder now).0 r e (get-acquire a r s holder now e h live sp.0)
        (rw ttl live) (rw ttl sp.1) in
    (held, kept ∙ ttl)
get-run (releases s ∷ os) a r e h live sp =
    let (held, kept) =
      get-run os (force_release a s) r e (get-force_release a r s sp.0 ∙ h)
        (unfold force_release in live) (unfold force_release in sp.1) in
    (held, kept ∙ (unfold force_release in refl))

-- Mutual exclusion: while leases last a positive time, from a lease on, whoever acquires whatever
-- before it expires, and whichever other resource is released, another holder who asks before it
-- expires is refused and changes nothing.
pub acquire_excludes :
    (os : List Op) (a : LeaseArbiter) (r : ResourceId) (e : LeaseEntry) (other : String) (now : ℕ)
    → get r a.held ≡ some e
    → 0 < a.max_ttl_secs
    → Spares r (e.acquired_mono_secs + a.max_ttl_secs) os
    → now < e.acquired_mono_secs + a.max_ttl_secs
    → e.holder ≢ other
    → acquire (run os a) r other now ≡ (run os a, conflict e.holder)
unfolding acquire
acquire_excludes os a r e other now h live sp young ne =
    ground (arith, get-run os a r e h live sp, eq_iff e.holder other)

-- A holder who asks again is granted the lease but does not renew it: once it is expired, the grant
-- leaves the resource free, and anybody else who asks evicts the holder.
pub acquire_again_not_renewed :
    (a : LeaseArbiter) (r : ResourceId) (e : LeaseEntry) (other : String) (now : ℕ)
    → get r a.held ≡ some e
    → e.acquired_mono_secs + a.max_ttl_secs ≤ now
    → e.holder ≢ other
    → let b = (acquire a r e.holder now).0 in
      ((acquire a r e.holder now).1 ≡ granted)
      × (is_free b r now ≡ true)
      × ((acquire b r other now).1 ≡ granted_after_eviction e.holder)
unfolding acquire is_free
acquire_again_not_renewed a r e other now h old ne =
    ground (arith, eq_iff e.holder e.holder, eq_iff e.holder other)
