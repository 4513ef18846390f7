-- ===== src/Graph.antt =====
-- graph.rs: the dependency graph of the services, its topological order, and the root causes of
-- failures. A `BTreeSet` is a list without repetition, a `VecDeque` a list with its front first.
pub mod Chains
pub mod RootCause
pub mod Classify
mod Tests
use first_fork.Common.{
  ℕ, zero, suc, ◌+◌, Bool, true, false, not, Option, none, some, List, [], ◌∷◌, ◌++◌, TreeMap, get,
  insert, adjust, keys, contains, set_insert, filter, any, length, is_some, saturating_sub, ◌==◌,
  if◌then◌else◌, Result, ok, err, ◌>>=◌, string_ord, str_eq,
}
use first_fork.Model.{ServiceId}
use first_fork.Config.{ServiceEntry, ids}

abbrev pub Links : Type 0
Links = TreeMap ServiceId (List ServiceId)

pub record DepGraph : Type 0 where
  pub parents : Links
  pub all_ids : List ServiceId
  pub topo_order : List ServiceId

pub data GraphError : Type 0 where
  unknown_dependency : (service dependency : ServiceId) → GraphError
  self_dependency : (service : ServiceId) → GraphError
  cycle : (involved : List ServiceId) → GraphError

-- `map.entry(id).or_default()`, and the same with a `push` behind it.
or_default : ServiceId → Links → Links
or_default id m = if is_some (get id m) then m else insert id [] m

push_link : ServiceId → ServiceId → Links → Links
unfolding or_default
push_link id dep m = adjust id (λ ds. ds ++ dep ∷ []) (or_default id m)

-- The dependencies of a service; no entry reads as none.
abbrev pub links_of : Links → ServiceId → List ServiceId
links_of m id = elim (get id m) [ none ↦ [] | some ds ↦ ds ]

unfoldable pub dependencies_of : DepGraph → ServiceId → List ServiceId
dependencies_of g id = links_of g.parents id

-- The loop over `depends_on` in `build`.
add_deps : List ServiceId → ServiceId → List ServiceId → Links → Result Links GraphError
unfolding push_link
add_deps known id [] m = ok m
add_deps known id (dep ∷ deps) m =
    let rest = add_deps known id deps (push_link id dep m) in
    if not (contains dep known)
    then err (unknown_dependency id dep)
    else if str_eq dep id
    then err (self_dependency id)
    else rest

add_services : List ServiceId → List ServiceEntry → Links → Result Links GraphError
unfolding add_deps
add_services known [] m = ok m
add_services known (s ∷ ss) m = do
  m' ← add_deps known s.id s.depends_on (or_default s.id m)
  add_services known ss m'

-- `in_degree`, seeded with the number of dependencies of each service.
seed_degrees : Links → List ServiceId → TreeMap ServiceId ℕ → TreeMap ServiceId ℕ
seed_degrees parents [] degree = degree
seed_degrees parents (id ∷ is) degree =
    seed_degrees parents is (insert id (length (links_of parents id)) degree)

zero_degrees : TreeMap ServiceId ℕ → List ServiceId
zero_degrees [] = []
zero_degrees ((id, degree) ∷ m) = if degree == 0 then id ∷ zero_degrees m else zero_degrees m

-- `dependents`: for each service, who depends on it.
seed_dependents : List ServiceId → Links → Links
seed_dependents [] m = m
seed_dependents (id ∷ is) m = seed_dependents is (or_default id m)

add_dependents : ServiceId → List ServiceId → Links → Links
add_dependents id [] m = m
add_dependents id (dep ∷ deps) m = add_dependents id deps (push_link dep id m)

reverse_links : Links → Links → Links
unfolding add_dependents
reverse_links [] m = m
reverse_links ((id, deps) ∷ parents) m = reverse_links parents (add_dependents id deps m)

abbrev Degrees : Type 0
Degrees = TreeMap ServiceId ℕ

-- One dependent of a node that was taken: its degree falls, and at 0 it joins the queue.
release_child : ServiceId → Degrees × List ServiceId → Degrees × List ServiceId
release_child child (degree, queue) = elim (get child degree) [
  | none ↦ (degree, queue)
  | some d ↦
      let d' = saturating_sub d 1 in
      (insert child d' degree, if d' == 0 then queue ++ child ∷ [] else queue)
]

release_children : List ServiceId → Degrees × List ServiceId → Degrees × List ServiceId
unfolding release_child
release_children [] s = s
release_children (c ∷ cs) s = release_children cs (release_child c s)

-- The `while let` loop; `none` when the fuel runs out.
take_nodes : ℕ → Links → Degrees → (queue order : List ServiceId) → Option (List ServiceId)
unfolding release_children
take_nodes zero dependents degree queue order = none
take_nodes (suc fuel) dependents degree [] order = some order
take_nodes (suc fuel) dependents degree (node ∷ queue) order =
    let (degree', queue') = release_children (links_of dependents node) (degree, queue) in
    take_nodes fuel dependents degree' queue' (order ++ node ∷ [])

-- Each service is taken at most once, so one round for each and one to see the queue empty.
unfoldable pub topological_sort :
    List ServiceId → Links → Option (Result (List ServiceId) GraphError)
unfolding or_default push_link seed_degrees zero_degrees seed_dependents reverse_links take_nodes
topological_sort all_ids parents =
    let degree = seed_degrees parents all_ids [] in
    let dependents = reverse_links parents (seed_dependents all_ids []) in
    elim (take_nodes (suc (length all_ids)) dependents degree (zero_degrees degree) []) [
      | none ↦ none
      | some order ↦ some (
          if length order == length all_ids
          then ok order
          else err (cycle (filter (λ id. not (contains id order)) all_ids)))
    ]

finish : List ServiceId → Links → Option (Result DepGraph GraphError)
finish all_ids parents = elim (topological_sort all_ids parents) [
  | none ↦ none
  | some (err e) ↦ some (err e)
  | some (ok order) ↦
      some (ok (record { parents = parents; all_ids = all_ids; topo_order = order }))
]

unfoldable pub build : List ServiceEntry → Option (Result DepGraph GraphError)
unfolding or_default push_link add_services finish
build services = elim (add_services (ids services) services []) [
  | err e ↦ some (err e)
  | ok parents ↦ finish (ids services) parents
]

-- The dependencies of a service that are unhealthy.
abbrev pub unhealthy_parents : DepGraph → List ServiceId → ServiceId → List ServiceId
unhealthy_parents g unhealthy id = filter (λ dep. contains dep unhealthy) (dependencies_of g id)

-- The `loop` of `find_root_cause`; `none` when the fuel runs out.
pub climb : ℕ → DepGraph → List ServiceId → ServiceId → List ServiceId → Option ServiceId
climb zero g unhealthy current visited = none
climb (suc fuel) g unhealthy current visited = elim (contains current visited) [
  | true ↦ some current
  | false ↦ elim (unhealthy_parents g unhealthy current) [
    | [] ↦ some current
    | next ∷ _ ↦ climb fuel g unhealthy next (set_insert current visited)
  ]
]

-- Each round marks a service that was not visited: the start, or an unhealthy one.
unfoldable pub find_root_cause : DepGraph → ServiceId → List ServiceId → Option ServiceId
unfolding climb
find_root_cause g start unhealthy = climb (length unhealthy + 2) g unhealthy start []

abbrev pub Causes : Type 0
Causes = List ServiceId × TreeMap ServiceId ServiceId

abbrev pub has_unhealthy_parent : DepGraph → List ServiceId → ServiceId → Bool
has_unhealthy_parent g unhealthy id = any (λ dep. contains dep unhealthy) (dependencies_of g id)

-- The body of the loop over the unhealthy services.
classify_one : DepGraph → List ServiceId → ServiceId → Causes → Causes
classify_one g unhealthy id (roots, blocked) =
    if has_unhealthy_parent g unhealthy id
    then elim (find_root_cause g id unhealthy) [
      | none ↦ (roots, blocked)
      | some root ↦ (roots, insert id root blocked)
    ]
    else (roots ++ id ∷ [], blocked)

classify_all : DepGraph → List ServiceId → List ServiceId → Causes → Causes
unfolding classify_one
classify_all g unhealthy [] s = s
classify_all g unhealthy (id ∷ is) s = classify_all g unhealthy is (classify_one g unhealthy id s)

unfoldable pub classify_failures : DepGraph → List ServiceId → Causes
unfolding classify_all
classify_failures g unhealthy = classify_all g unhealthy unhealthy ([], [])
