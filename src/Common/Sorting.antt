-- ===== src/Common/Sorting.antt =====
-- Rust's stable `sort_by_key` on a number.
use first_fork.Common.Tests.{if◌then◌else◌, leb, Bool-cases}
use first_fork.Common.Lists.{filter, length}
use Prim.Native.Nat.{ℕ, suc}
use mathlib.Core.Path.{◌≡◌, refl}
use mathlib.Core.Logic.{inl, inr, ◌↔◌}
use mathlib.Core.Bool.{Bool}
use mathlib.Core.List.{List, [], ◌∷◌, Memᴰ}
use mathlib.Core.List.Memᴰ
use native.Mathlib.Omega.{arith}

module _ {ℓ} {A : Type ℓ} (key : A → ℕ) where
  -- Before the first item with a key that is not smaller.
  place : A → List A → List A
  place x [] = x ∷ []
  place x (y ∷ ys) = if leb (key x) (key y) then x ∷ y ∷ ys else y ∷ place x ys

  unfoldable pub sort_by_key : List A → List A
  unfolding place
  sort_by_key [] = []
  sort_by_key (x ∷ xs) = place x (sort_by_key xs)

  length-place : (x : A) (xs : List A) → length (place x xs) ≡ suc (length xs)
  unfolding place
  length-place x [] = refl
  length-place x (y ∷ ys) = ground (arith, length-place x ys)

  pub length-sort_by_key : (xs : List A) → length (sort_by_key xs) ≡ length xs
  unfolding sort_by_key
  length-sort_by_key [] = refl
  length-sort_by_key (x ∷ xs) =
      ground (arith, length-place x (sort_by_key xs), length-sort_by_key xs)

  -- Sorting keeps how many items pass a test.
  length-filter-place :
      (p : A → Bool) (x : A) (xs : List A)
      → length (filter p (place x xs)) ≡ length (filter p (x ∷ xs))
  unfolding place
  length-filter-place p x [] = refl
  length-filter-place p x (y ∷ ys) = ground (arith, length-filter-place p x ys)

  pub length-filter-sort_by_key :
      (p : A → Bool) (xs : List A) → length (filter p (sort_by_key xs)) ≡ length (filter p xs)
  unfolding sort_by_key
  length-filter-sort_by_key p [] = refl
  length-filter-sort_by_key p (x ∷ xs) =
      ground (arith, length-filter-place p x (sort_by_key xs), length-filter-sort_by_key p xs)

  mem-place : {a : A} (x : A) (xs : List A) → Memᴰ a (place x xs) ↔ Memᴰ a (x ∷ xs)
  unfolding place
  mem-place x [] = (λ m. m, λ m. m)
  mem-place x (y ∷ ys) = elim (Bool-cases (leb (key x) (key y))) [
    | inl e ↦ rw e (λ m. m, λ m. m)
    | inr e ↦ rw e (
      λ m. elim (Memᴰ.cases_cons m) [
        | inl q ↦ Memᴰ.tail (Memᴰ.head q)
        | inr n ↦ elim (Memᴰ.cases_cons ((mem-place x ys).0 n)) [
          | inl q ↦ Memᴰ.head q
          | inr k ↦ Memᴰ.tail (Memᴰ.tail k)
        ]
      ],
      λ m. elim (Memᴰ.cases_cons m) [
        | inl q ↦ Memᴰ.tail ((mem-place x ys).1 (Memᴰ.head q))
        | inr n ↦ elim (Memᴰ.cases_cons n) [
          | inl q ↦ Memᴰ.head q
          | inr k ↦ Memᴰ.tail ((mem-place x ys).1 (Memᴰ.tail k))
        ]
      ],
    )
  ]

  pub mem-sort_by_key : {a : A} (xs : List A) → Memᴰ a (sort_by_key xs) ↔ Memᴰ a xs
  unfolding sort_by_key
  mem-sort_by_key [] = (λ m. m, λ m. m)
  mem-sort_by_key (x ∷ xs) = (
    λ m. elim (Memᴰ.cases_cons ((mem-place x (sort_by_key xs)).0 m)) [
      | inl q ↦ Memᴰ.head q
      | inr n ↦ Memᴰ.tail ((mem-sort_by_key xs).0 n)
    ],
    λ m. elim (Memᴰ.cases_cons m) [
      | inl q ↦ (mem-place x (sort_by_key xs)).1 (Memᴰ.head q)
      | inr n ↦ (mem-place x (sort_by_key xs)).1 (Memᴰ.tail ((mem-sort_by_key xs).1 n))
    ],
  )
