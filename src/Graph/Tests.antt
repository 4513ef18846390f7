-- ===== src/Graph/Tests.antt =====
-- The graph of a web service that depends on a database.
use first_fork.Common.{
  true, ◌↔◌, ℕ, ◌≡◌, refl, some, List, [], ◌∷◌, contains, get, if◌then◌else◌, arith, Bool-cases,
  inl, inr, key_eq, key_eq_iff, insert, adjust, string_ord, ok, str_eq,
}
use mathlib.Core.List.Memᴰ
use first_fork.Model.{ServiceId}
use first_fork.Config.Fixtures.{db, web}
use first_fork.Graph.{
  DepGraph, build, dependencies_of, topological_sort, find_root_cause, classify_failures,
}
use first_fork.Graph.Chains.{Leads}
use first_fork.Graph.RootCause.{IsRanked, IsRoot, find_root_cause-IsRoot}
use first_fork.Graph.Classify.{HasParentDown, classify_failures-HasParentDown}

abbrev pair_graph : DepGraph
pair_graph = record {
  parents = ("db", []) ∷ ("web", "db" ∷ []) ∷ [];
  all_ids = "db" ∷ "web" ∷ [];
  topo_order = "db" ∷ "web" ∷ [];
}

builds : build (db ∷ web ∷ []) ≡ some (ok pair_graph)
unfolding build topological_sort get insert adjust
builds = refl

abbrev height : ServiceId → ℕ
height id = if str_eq id "web" then 1 else 0

dependencies :
    (id : ServiceId)
    → dependencies_of pair_graph id
      ≡ (if key_eq id "db" then [] else if key_eq id "web" then "db" ∷ [] else [])
unfolding dependencies_of get
dependencies id = ground (arith, key_eq_iff id "db", key_eq_iff id "web")

is_ranked : IsRanked pair_graph height
is_ranked id dep m = elim (Bool-cases (key_eq id "db")) [
  | inl e ↦ elim (rw (dependencies id, e) at m) [ ]
  | inr e ↦ elim (Bool-cases (key_eq id "web")) [
    | inr q ↦ elim (rw (dependencies id, e, q) at m) [ ]
    | inl q ↦
        let here : dep ≡ "db" = Memᴰ.eq_of_singleton (rw (dependencies id, e, q) at m) in
        let there : id ≡ "web" = (key_eq_iff id "web").0 q in rw (here, there) (omega arith)
  ]
]

abbrev both_down : List ServiceId
both_down = "db" ∷ "web" ∷ []

find_root_cause-IsRoot_example :
    (root : ServiceId) × (find_root_cause pair_graph "web" both_down ≡ some root)
    × Leads pair_graph both_down "web" root
    × IsRoot pair_graph both_down root
find_root_cause-IsRoot_example =
    find_root_cause-IsRoot pair_graph height is_ranked both_down "web" refl

classify_failures-HasParentDown_example :
    let (roots, blocked) = classify_failures pair_graph both_down in
    ((contains "web" roots ≡ true)
      ↔ ((contains "web" both_down ≡ true) × (HasParentDown pair_graph both_down "web" → ⊥)))
    × (((contains "web" both_down ≡ true) × HasParentDown pair_graph both_down "web") ↔ (
        (root : ServiceId) × (get "web" blocked ≡ some root)
        × Leads pair_graph both_down "web" root
        × (contains root roots ≡ true)))
classify_failures-HasParentDown_example =
    classify_failures-HasParentDown pair_graph height both_down "web" is_ranked

-- `top` waits for `middle`, which is up and waits for `base`, which is down: both ends are root causes.
abbrev chain : DepGraph
chain = record {
  parents = ("base", []) ∷ ("middle", "base" ∷ []) ∷ ("top", "middle" ∷ []) ∷ [];
  all_ids = "base" ∷ "middle" ∷ "top" ∷ [];
  topo_order = "base" ∷ "middle" ∷ "top" ∷ [];
}

healthy_between : (classify_failures chain ("base" ∷ "top" ∷ [])).0 ≡ "base" ∷ "top" ∷ []
unfolding classify_failures dependencies_of get
healthy_between = refl
