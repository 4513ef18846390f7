-- ===== src/Graph/Chains.antt =====
-- The walk up the unhealthy dependencies ends: how far it can go, and what it ends at.
use first_fork.Common.{
  ℕ, zero, suc, ◌≤◌, ◌<◌, ◌≡◌, refl, inl, inr, false, not, some, List, [], ◌∷◌, Memᴰ, contains,
  mem_of_contains, contains-set_insert, set_insert, key_eq_iff, filter, length, Bool-cases, arith,
  string_ord, List-cases, mem-filter,
}
use first_fork.Model.{ServiceId}
use first_fork.Graph.{DepGraph, dependencies_of, unhealthy_parents, climb}

-- How many of the services of `u` are not yet visited.
abbrev pub unvisited : List ServiceId → List ServiceId → ℕ
unvisited visited u = length (filter (λ x. not (contains x visited)) u)

unvisited_mono :
    (v : ServiceId) (visited u : List ServiceId)
    → unvisited (set_insert v visited) u ≤ unvisited visited u
unvisited_mono v visited [] = omega arith
unvisited_mono v visited (x ∷ u) =
    ground (arith, contains-set_insert v x visited, unvisited_mono v visited u)

unvisited-lt :
    (v : ServiceId) (visited u : List ServiceId)
    → contains v visited ≡ false
    → Memᴰ v u
    → unvisited (set_insert v visited) u < unvisited visited u
unvisited-lt v visited [] h m = elim m [ ]
unvisited-lt v visited (x ∷ u) h (Memᴰ.head e) =
    ground (arith, contains-set_insert v x visited, key_eq_iff x v, unvisited_mono v visited u)
unvisited-lt v visited (x ∷ u) h (Memᴰ.tail m) =
    ground (arith, contains-set_insert v x visited, unvisited-lt v visited u h m)

-- The chain of unhealthy dependencies that leads from a service to one that it waits for.
pub data Leads (g : DepGraph) (unhealthy : List ServiceId) : ServiceId → ServiceId → Type 0 where
  here : {id : ServiceId} → Leads g unhealthy id id
  up :
      {id dep root : ServiceId}
      → Memᴰ dep (unhealthy_parents g unhealthy id)
      → Leads g unhealthy dep root
      → Leads g unhealthy id root

-- With fuel for every service not yet visited the walk ends, at a service that it was led to.
pub climb-Leads :
    (fuel : ℕ) (g : DepGraph) (unhealthy u : List ServiceId) (current : ServiceId)
    (visited : List ServiceId)
    → unvisited visited u < fuel
    → Memᴰ current u
    → ((x : ServiceId) → Memᴰ x unhealthy → Memᴰ x u)
    → (root : ServiceId) × (climb fuel g unhealthy current visited ≡ some root)
      × Leads g unhealthy current root
unfolding climb
climb-Leads zero g unhealthy u current visited h m sub = absurd (omega arith)
climb-Leads (suc fuel) g unhealthy u current visited h m sub =
    elim (Bool-cases (contains current visited)) [
      | inl e ↦ (current, rw (e, climb), here)
      | inr e ↦ elim (List-cases (unhealthy_parents g unhealthy current)) [
        | inl q ↦ (current, rw (e, q, climb), here)
        | inr (next, rest, q) ↦
            let member : Memᴰ next (unhealthy_parents g unhealthy current) =
              rw q (Memᴰ.head refl) in
            let bad = (mem-filter _ next (dependencies_of g current) member).1 in
            let (root, found, chain) =
              climb-Leads fuel g unhealthy u next (set_insert current visited)
                (omega (arith, unvisited-lt current visited u e m))
                (sub next (mem_of_contains next unhealthy bad)) sub in
            (root, rw (e, q, climb) found, up member chain)
      ]
    ]
