-- ===== src/Common/Ordered.antt =====
-- Ordered maps and sets (Rust's `BTreeMap` and `BTreeSet`): lists in the order of their keys.
use Prim.Native.Nat.{Ordering}
use mathlib.Core.Path.{◌≡◌, refl}
use mathlib.Core.Logic.{◌↔◌, ◌⊎◌, inl, inr}
use mathlib.Core.List.{List, [], ◌∷◌, ◌++◌, Memᴰ}
use mathlib.Core.Bool.{Bool, true, false, ◌||◌, false≢true}
use mathlib.Core.Option.{Option, none, some}
use native.Mathlib.Omega.{arith}
use first_fork.Common.Tests.{if◌then◌else◌, Bool-cases}

-- The bound `K: Ord`, with the law that lookups rest on.
pub record Ord {ℓ} (K : Type ℓ) : Type ℓ where
  pub cmp : K → K → Ordering
  pub cmp_iff : (a b : K) → (cmp a b ≡ Ordering.eq) ↔ (a ≡ b)

abbrev pub is_eq : Ordering → Bool
is_eq Ordering.lt = false
is_eq Ordering.eq = true
is_eq Ordering.gt = false

abbrev pub key_eq {ℓ} : {K : Type ℓ} ⦃o : Ord K⦄ → K → K → Bool
key_eq ⦃o⦄ a b = is_eq (o.cmp a b)

abbrev pub TreeMap {ℓ κ} : Type ℓ → Type κ → Type (ℓ ⊔ κ)
TreeMap K V = List (K × V)

abbrev pub keys {ℓ κ} : {K : Type ℓ} {V : Type κ} → TreeMap K V → List K
keys [] = []
keys ((j, v) ∷ m) = j ∷ keys m

-- What a lookup gives after the value of its key was changed by `f`, if `here`.
abbrev pub changed {κ} : {V : Type κ} → Bool → (V → V) → Option V → Option V
changed here f none = none
changed here f (some v) = some (if here then f v else v)

module _ {ℓ κ} {K : Type ℓ} {V : Type κ} ⦃o : Ord K⦄ where
  unfoldable pub get : K → TreeMap K V → Option V
  get k [] = none
  get k ((j, v) ∷ m) = if key_eq k j then some v else get k m

  unfoldable pub insert : K → V → TreeMap K V → TreeMap K V
  insert k v [] = (k, v) ∷ []
  insert k v ((j, w) ∷ m) = elim (o.cmp k j) [
    | Ordering.lt ↦ (k, v) ∷ (j, w) ∷ m
    | Ordering.eq ↦ (k, v) ∷ m
    | Ordering.gt ↦ (j, w) ∷ insert k v m
  ]

  unfoldable pub remove : K → TreeMap K V → TreeMap K V
  remove k [] = []
  remove k ((j, w) ∷ m) = if key_eq k j then remove k m else (j, w) ∷ remove k m

  pub get-insert :
      (k j : K) (v : V) (m : TreeMap K V)
      → get j (insert k v m) ≡ (if key_eq j k then some v else get j m)
  unfolding get insert
  get-insert k j v [] = refl
  get-insert k j v ((i, w) ∷ m) =
      ground (arith, o.cmp_iff k j, o.cmp_iff j k, o.cmp_iff k i, o.cmp_iff j i, get-insert k j v m)

  mem-insert_at :
      (k : K) (v : V) (entry : K × V) (m m' : TreeMap K V) (c : Ordering) {e : K × V}
      → (Memᴰ e m' → (e ≡ (k, v)) ⊎ Memᴰ e m)
      → Memᴰ e (elim c [
        | Ordering.lt ↦ (k, v) ∷ entry ∷ m
        | Ordering.eq ↦ (k, v) ∷ m
        | Ordering.gt ↦ entry ∷ m'
      ])
      → (e ≡ (k, v)) ⊎ Memᴰ e (entry ∷ m)
  mem-insert_at k v entry m m' Ordering.lt ih (Memᴰ.head e) = inl e
  mem-insert_at k v entry m m' Ordering.lt ih (Memᴰ.tail h) = inr h
  mem-insert_at k v entry m m' Ordering.eq ih (Memᴰ.head e) = inl e
  mem-insert_at k v entry m m' Ordering.eq ih (Memᴰ.tail h) = inr (Memᴰ.tail h)
  mem-insert_at k v entry m m' Ordering.gt ih (Memᴰ.head e) = inr (Memᴰ.head e)
  mem-insert_at k v entry m m' Ordering.gt ih (Memᴰ.tail h) = elim (ih h) [
    | inl e ↦ inl e
    | inr t ↦ inr (Memᴰ.tail t)
  ]

  -- What an insertion leaves in the map was inserted or was there.
  pub mem-insert :
      (k : K) (v : V) (m : TreeMap K V) {e : K × V}
      → Memᴰ e (insert k v m)
      → (e ≡ (k, v)) ⊎ Memᴰ e m
  unfolding insert
  mem-insert k v [] (Memᴰ.head e) = inl e
  mem-insert k v [] (Memᴰ.tail h) = elim h [ ]
  mem-insert k v ((j, w) ∷ m) h =
      mem-insert_at k v (j, w) m (insert k v m) (o.cmp k j) (mem-insert k v m) h

  pub get-remove :
      (k j : K) (m : TreeMap K V) → get j (remove k m) ≡ (if key_eq j k then none else get j m)
  unfolding get remove
  get-remove k j [] = ground arith
  get-remove k j ((i, w) ∷ m) =
      ground (arith, o.cmp_iff k j, o.cmp_iff j k, o.cmp_iff k i, o.cmp_iff j i, get-remove k j m)

  -- Rust's `get_mut`, and a write if it gave something.
  unfoldable pub adjust : K → (V → V) → TreeMap K V → TreeMap K V
  adjust k f [] = []
  adjust k f ((j, w) ∷ m) = if key_eq k j then (j, f w) ∷ m else (j, w) ∷ adjust k f m

  pub get-adjust :
      (k j : K) (f : V → V) (m : TreeMap K V)
      → get j (adjust k f m) ≡ changed (key_eq j k) f (get j m)
  unfolding get adjust
  get-adjust k j f [] = refl
  get-adjust k j f ((i, w) ∷ m) =
      ground (arith, o.cmp_iff k j, o.cmp_iff j k, o.cmp_iff k i, o.cmp_iff j i, get-adjust k j f m)

  pub keys-adjust : (k : K) (f : V → V) (m : TreeMap K V) → keys (adjust k f m) ≡ keys m
  unfolding adjust
  keys-adjust k f [] = refl
  keys-adjust k f ((j, w) ∷ m) = ground (arith, keys-adjust k f m)

module _ {ℓ} {K : Type ℓ} ⦃o : Ord K⦄ where
  abbrev pub contains : K → List K → Bool
  contains k [] = false
  contains k (j ∷ js) = key_eq k j || contains k js

  -- `BTreeSet::insert`.
  unfoldable pub set_insert : K → List K → List K
  set_insert k [] = k ∷ []
  set_insert k (j ∷ js) = elim (o.cmp k j) [
    | Ordering.lt ↦ k ∷ j ∷ js
    | Ordering.eq ↦ j ∷ js
    | Ordering.gt ↦ j ∷ set_insert k js
  ]

  pub contains-set_insert :
      (k j : K) (s : List K) → contains j (set_insert k s) ≡ (key_eq j k || contains j s)
  unfolding set_insert
  contains-set_insert k j [] = ground arith
  contains-set_insert k j (i ∷ s) =
      ground (
        arith,
        o.cmp_iff k j,
        o.cmp_iff j k,
        o.cmp_iff k i,
        o.cmp_iff j i,
        contains-set_insert k j s,
      )

  pub key_eq_iff : (a b : K) → (key_eq a b ≡ true) ↔ (a ≡ b)
  key_eq_iff a b = ground (arith, o.cmp_iff a b)

  pub key_eq_refl : (a : K) → key_eq a a ≡ true
  key_eq_refl a = (key_eq_iff a a).1 refl

  pub contains_of_mem : (k : K) {s : List K} → Memᴰ k s → contains k s ≡ true
  contains_of_mem k (Memᴰ.head {x = j} e) = ground (arith, key_eq_iff k j)
  contains_of_mem k (Memᴰ.tail {x = j} m) = ground (arith, contains_of_mem k m)

  pub mem_of_contains : (k : K) (s : List K) → contains k s ≡ true → Memᴰ k s
  mem_of_contains k [] h = absurd (false≢true h)
  mem_of_contains k (j ∷ s) h = elim (Bool-cases (key_eq k j)) [
    | inl e ↦ Memᴰ.head ((key_eq_iff k j).0 e)
    | inr e ↦ Memᴰ.tail (mem_of_contains k s (ground arith))
  ]

  pub contains-append :
      (k : K) (xs ys : List K) → contains k (xs ++ ys) ≡ (contains k xs || contains k ys)
  contains-append k [] ys = refl
  contains-append k (x ∷ xs) ys = ground (arith, contains-append k xs ys)
