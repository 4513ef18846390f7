-- ===== src/Graph/RootCause.antt =====
-- `find_root_cause` in a graph without cycles.
use first_fork.Common.{
  ℕ, zero, suc, ◌+◌, ◌<◌, ◌≡◌, refl, inl, inr, true, false, some, List, [], Memᴰ, contains,
  mem_of_contains, contains-set_insert, set_insert, key_eq_iff, length, length-filter-le,
  Bool-cases, arith, string_ord, List-cases, mem-filter, any-filter,
}
use first_fork.Model.{ServiceId}
use first_fork.Graph.{
  DepGraph, dependencies_of, unhealthy_parents, has_unhealthy_parent, climb, find_root_cause,
}
use first_fork.Graph.Chains.{Leads, here, up, climb-Leads}

-- Every service ranks above its dependencies: there is no cycle.
abbrev pub IsRanked : DepGraph → (ServiceId → ℕ) → Type 0
IsRanked g rank = (id dep : ServiceId) → Memᴰ dep (dependencies_of g id) → rank dep < rank id

-- An unhealthy service that waits for no other.
pub record IsRoot (g : DepGraph) (unhealthy : List ServiceId) (root : ServiceId) : Type 0 where
  pub member : contains root unhealthy ≡ true
  pub free : has_unhealthy_parent g unhealthy root ≡ false

module _ (g : DepGraph) (rank : ServiceId → ℕ) (ranked : IsRanked g rank)
    (unhealthy : List ServiceId) where
  climb-free :
      (fuel : ℕ) (current : ServiceId) (visited : List ServiceId) (root : ServiceId)
      → ((x : ServiceId) → contains x visited ≡ true → rank current < rank x)
      → climb fuel g unhealthy current visited ≡ some root
      → unhealthy_parents g unhealthy root ≡ []
  unfolding climb
  climb-free zero current visited root low h = cc
  climb-free (suc fuel) current visited root low h = elim (Bool-cases (contains current visited)) [
    | inl e ↦ absurd (let l = low current e in omega arith)
    | inr e ↦ elim (List-cases (unhealthy_parents g unhealthy current)) [
      | inl q ↦
          let stopped : some current ≡ some root = rw (e, q, climb) at h in
          let same : current ≡ root = cc in rw same at q
      | inr (next, rest, q) ↦
          let member : Memᴰ next (unhealthy_parents g unhealthy current) = rw q (Memᴰ.head refl) in
          let below =
            ranked current next (mem-filter _ next (dependencies_of g current) member).0 in
          climb-free fuel next (set_insert current visited) root
            (λ x k.
              ground (arith, contains-set_insert current x visited, key_eq_iff x current, low x))
            (rw (e, q, climb) at h)
    ]
  ]

  Leads-contains :
      {id root : ServiceId}
      → contains id unhealthy ≡ true
      → Leads g unhealthy id root
      → contains root unhealthy ≡ true
  Leads-contains h here = h
  Leads-contains {id} h (up {dep = d} m l) =
      Leads-contains (mem-filter _ d (dependencies_of g id) m).1 l

  -- In a graph without cycles the search for the root cause of an unhealthy service always ends, and
  -- finds an unhealthy service with no unhealthy dependency, to which a chain of unhealthy
  -- dependencies leads.
  pub find_root_cause-IsRoot :
      (start : ServiceId)
      → contains start unhealthy ≡ true
      → (root : ServiceId) × (find_root_cause g start unhealthy ≡ some root)
        × Leads g unhealthy start root
        × IsRoot g unhealthy root
  unfolding find_root_cause
  find_root_cause-IsRoot start h =
      let (root, found, chain) =
        climb-Leads (length unhealthy + 2) g unhealthy unhealthy start []
          (omega (arith, length-filter-le _ unhealthy)) (mem_of_contains start unhealthy h)
          (λ x m. m) in
      (
        root,
        found,
        chain,
        record {
          member = Leads-contains h chain;
          free =
              any-filter _ (dependencies_of g root)
                (climb-free (length unhealthy + 2) start [] root (λ x k. cc) found);
        },
      )
