-- ===== src/Graph/Classify.antt =====
-- `classify_failures`: every unhealthy service is either a root cause or blocked by one.
use first_fork.Common.{
  ℕ, ◌≡◌, ◌↔◌, refl, inl, inr, Memᴰ, Bool-cases, any, true, not, ◌&&◌, ◌||◌, none, some, List, [],
  ◌∷◌, contains, contains-append, get, get-insert, key_eq, key_eq_iff, string_ord, arith,
  if◌then◌else◌,
}
use first_fork.Model.{ServiceId}
use first_fork.Graph.Chains.{Leads}
use first_fork.Graph.{
  DepGraph, dependencies_of, Causes, has_unhealthy_parent, find_root_cause, classify_one,
  classify_all, classify_failures,
}
use first_fork.Graph.RootCause.{IsRanked, find_root_cause-IsRoot}

module _ (g : DepGraph) (unhealthy : List ServiceId) where
  roots-classify_one :
      (id k : ServiceId) (s : Causes)
      → contains k (classify_one g unhealthy id s).0
        ≡ (contains k s.0 || (key_eq k id && not (has_unhealthy_parent g unhealthy id)))
  unfolding classify_one
  roots-classify_one id k (roots, blocked) = ground (arith, contains-append k roots (id ∷ []))

  roots-classify_all :
      (is : List ServiceId) (k : ServiceId) (s : Causes)
      → contains k (classify_all g unhealthy is s).0
        ≡ (contains k s.0 || (contains k is && not (has_unhealthy_parent g unhealthy k)))
  unfolding classify_all
  roots-classify_all [] k s = ground arith
  roots-classify_all (id ∷ is) k s = ground (
    arith,
    roots-classify_all is k (classify_one g unhealthy id s),
    roots-classify_one id k s,
    key_eq_iff k id,
  )

  -- What the loop records of `k`: nothing new, or what the walk from `k` finds.
  blocked-classify_one :
      (id k root : ServiceId) (s : Causes)
      → find_root_cause g id unhealthy ≡ some root
      → get k (classify_one g unhealthy id s).1
        ≡ (if key_eq k id && has_unhealthy_parent g unhealthy id then some root else get k s.1)
  unfolding classify_one
  blocked-classify_one id k root (roots, blocked) h = ground (arith, get-insert id k root blocked)

  blocked-classify_all :
      (is : List ServiceId) (k : ServiceId) (s : Causes)
      → ((id : ServiceId)
          → contains id is ≡ true
          → (root : ServiceId) × (find_root_cause g id unhealthy ≡ some root))
      → get k (classify_all g unhealthy is s).1 ≡ (
          if contains k is && has_unhealthy_parent g unhealthy k
          then find_root_cause g k unhealthy
          else get k s.1)
  unfolding classify_all
  blocked-classify_all [] k s total = refl
  blocked-classify_all (id ∷ is) k s total =
      let (root, found) = total id (ground (arith, key_eq_iff id id)) in
      ground (
        arith,
        blocked-classify_all is k (classify_one g unhealthy id s) (λ j h. total j (ground arith)),
        blocked-classify_one id k root s found,
        key_eq_iff k id,
      )

-- What the two results hold of `k`, by the tests of the loop.
classify_failures-split :
    (g : DepGraph) (rank : ServiceId → ℕ) (unhealthy : List ServiceId) (k : ServiceId)
    → IsRanked g rank
    → (contains k (classify_failures g unhealthy).0
        ≡ (contains k unhealthy && not (has_unhealthy_parent g unhealthy k)))
      × (get k (classify_failures g unhealthy).1 ≡ (
          if contains k unhealthy && has_unhealthy_parent g unhealthy k
          then find_root_cause g k unhealthy
          else none))
unfolding classify_failures get
classify_failures-split g rank unhealthy k ranked = (
  ground (arith, roots-classify_all g unhealthy unhealthy k ([], [])),
  blocked-classify_all g unhealthy unhealthy k ([], []) total,
)
  where
    total :
        (id : ServiceId)
        → contains id unhealthy ≡ true
        → (root : ServiceId) × (find_root_cause g id unhealthy ≡ some root)
    total id h =
        let (root, found, _, _) = find_root_cause-IsRoot g rank ranked unhealthy id h in
        (root, found)

-- A dependency that the service names itself is unhealthy.
pub data HasParentDown (g : DepGraph) (unhealthy : List ServiceId) (id : ServiceId) : Type 0 where
  parent_down :
      {parent : ServiceId}
      → Memᴰ parent (dependencies_of g id)
      → contains parent unhealthy ≡ true
      → HasParentDown g unhealthy id

any-down :
    (unhealthy deps : List ServiceId)
    → any (λ dep. contains dep unhealthy) deps ≡ true
    → (parent : ServiceId) × Memᴰ parent deps × (contains parent unhealthy ≡ true)
any-down unhealthy [] h = cc
any-down unhealthy (d ∷ ds) h = elim (Bool-cases (contains d unhealthy)) [
  | inl q ↦ (d, Memᴰ.head refl, q)
  | inr q ↦ let (p, m, k) = any-down unhealthy ds (ground (arith, h, q)) in (p, Memᴰ.tail m, k)
]

down-any :
    (unhealthy deps : List ServiceId) (parent : ServiceId)
    → Memᴰ parent deps
    → contains parent unhealthy ≡ true
    → any (λ dep. contains dep unhealthy) deps ≡ true
down-any unhealthy [] parent m h = elim m [ ]
down-any unhealthy (d ∷ ds) parent (Memᴰ.head e) h = let q = rw e at h in ground (arith, q)
down-any unhealthy (d ∷ ds) parent (Memᴰ.tail m) h =
    ground (arith, down-any unhealthy ds parent m h)

HasParentDown-iff :
    (g : DepGraph) (unhealthy : List ServiceId) (id : ServiceId)
    → HasParentDown g unhealthy id ↔ (has_unhealthy_parent g unhealthy id ≡ true)
HasParentDown-iff g unhealthy id =
    (to, λ h. let (p, m, k) = any-down unhealthy (dependencies_of g id) h in parent_down m k)
  where
    to : HasParentDown g unhealthy id → has_unhealthy_parent g unhealthy id ≡ true
    to (parent_down {parent = p} m k) = down-any unhealthy (dependencies_of g id) p m k

-- In a graph without cycles the unhealthy services split in two. The root causes are exactly those none of
-- whose own dependencies is unhealthy, also when a dependency further up is. Exactly the others are recorded as
-- blocked, each by a root cause to which a chain of unhealthy dependencies leads.
pub classify_failures-HasParentDown :
    (g : DepGraph) (rank : ServiceId → ℕ) (unhealthy : List ServiceId) (k : ServiceId)
    → IsRanked g rank
    → let (roots, blocked) = classify_failures g unhealthy in
      ((contains k roots ≡ true)
        ↔ ((contains k unhealthy ≡ true) × (HasParentDown g unhealthy k → ⊥)))
      × (((contains k unhealthy ≡ true) × HasParentDown g unhealthy k) ↔ (
          (root : ServiceId) × (get k blocked ≡ some root)
          × Leads g unhealthy k root
          × (contains root roots ≡ true)))
classify_failures-HasParentDown g rank unhealthy k ranked =
    let (split, recorded) = classify_failures-split g rank unhealthy k ranked in
    let (down, up) = HasParentDown-iff g unhealthy k in
    (
      (
        λ h. (ground (arith, h, split), λ d. let t = down d in ground (arith, h, split, t)),
        λ (h, spared). elim (Bool-cases (has_unhealthy_parent g unhealthy k)) [
          | inl q ↦ absurd (spared (up q))
          | inr q ↦ ground (arith, h, split, q)
        ],
      ),
      (
        λ (h, d).
            let t = down d in
            let (root, found, chain, is_root) =
              find_root_cause-IsRoot g rank ranked unhealthy k h in
            let (there, _) = classify_failures-split g rank unhealthy root ranked in
            let entry : get k (classify_failures g unhealthy).1 ≡ some root =
              rw (recorded, h, t) found in
            let free = is_root.free in
            let member = is_root.member in
            (root, entry, chain, ground (arith, there, free, member)),
        λ (root, entry, chain, r).
            elim (Bool-cases (contains k unhealthy && has_unhealthy_parent g unhealthy k)) [
              | inl q ↦ (ground (arith, q), up (ground (arith, q)))
              | inr q ↦ absurd (let gone = rw (recorded, q) at entry in cc)
            ],
      ),
    )
