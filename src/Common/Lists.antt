-- ===== src/Common/Lists.antt =====
-- Lists over the native numbers, Boolean search, and what the components prove of lists.
use Prim.Native.Nat.{ℕ, zero, suc, ◌+◌, ◌-◌, ◌≤◌}
use mathlib.Core.Path.{◌≡◌, refl, sym}
use mathlib.Core.Logic.{◌⊎◌, inl, inr}
use mathlib.Core.List.{List, [], ◌∷◌, ◌++◌, Memᴰ}
use mathlib.Core.List.Memᴰ
use mathlib.Core.Bool.{Bool, true, false, ◌||◌}
use mathlib.Core.Option.{Option, none, some}
use native.Mathlib.Omega.{arith}
use first_fork.Common.Tests.{if◌then◌else◌, Bool-cases}

module _ {ℓ} {A : Type ℓ} where
  abbrev pub length : List A → ℕ
  length [] = 0
  length (x ∷ xs) = suc (length xs)

  pub length-append : (xs ys : List A) → length (xs ++ ys) ≡ length xs + length ys
  length-append [] ys = omega arith
  length-append (x ∷ xs) ys = omega (arith, length-append xs ys)

  abbrev pub drop : ℕ → List A → List A
  drop zero xs = xs
  drop (suc n) [] = []
  drop (suc n) (x ∷ xs) = drop n xs

  pub length-drop : (n : ℕ) (xs : List A) → length (drop n xs) ≡ length xs - n
  length-drop zero xs = omega arith
  length-drop (suc n) [] = omega arith
  length-drop (suc n) (x ∷ xs) = omega (arith, length-drop n xs)

  -- Rust's `iter().last()`.
  abbrev pub last? : List A → Option A
  last? [] = none
  last? (x ∷ []) = some x
  last? (x ∷ y ∷ ys) = last? (y ∷ ys)

  pub last?-append_one : (xs : List A) (a : A) → last? (xs ++ a ∷ []) ≡ some a
  last?-append_one [] a = refl
  last?-append_one (x ∷ []) a = refl
  last?-append_one (x ∷ y ∷ ys) a = last?-append_one (y ∷ ys) a

  -- Rust's `iter().filter(p)`, `iter().any(p)` and `iter().find(p)`.

  abbrev pub filter : (A → Bool) → List A → List A
  filter p [] = []
  filter p (x ∷ xs) = if p x then x ∷ filter p xs else filter p xs

  abbrev pub any : (A → Bool) → List A → Bool
  any p [] = false
  any p (x ∷ xs) = p x || any p xs

  abbrev pub find : (A → Bool) → List A → Option A
  find p [] = none
  find p (x ∷ xs) = if p x then some x else find p xs

  pub length-filter-le : (p : A → Bool) (xs : List A) → length (filter p xs) ≤ length xs
  length-filter-le p [] = omega arith
  length-filter-le p (x ∷ xs) = ground (arith, length-filter-le p xs)

  pub filter-append :
      (p : A → Bool) (xs ys : List A) → filter p (xs ++ ys) ≡ filter p xs ++ filter p ys
  filter-append p [] ys = refl
  filter-append p (x ∷ xs) ys = ground (arith, filter-append p xs ys)

  elim_none : {a : A} → none ≡ some a → ⊥
  elim_none h = cc

  pub find_sound :
      (p : A → Bool) (xs : List A) {a : A} → find p xs ≡ some a → Memᴰ a xs × (p a ≡ true)
  find_sound p [] h = absurd (elim_none h)
  find_sound p (x ∷ xs) {a} h = elim (Bool-cases (p x)) [
    | inl e ↦ let q : x ≡ a = ground arith in (Memᴰ.head (sym q), rw (← q) e)
    | inr e ↦ let (m, q) = find_sound p xs (rw e at h) in (Memᴰ.tail m, q)
  ]

  pub List-cases : (xs : List A) → (xs ≡ []) ⊎ ((y : A) × (ys : List A) × (xs ≡ y ∷ ys))
  List-cases [] = inl refl
  List-cases (y ∷ ys) = inr (y, ys, refl)

  pub mem-filter :
      (p : A → Bool) (x : A) (xs : List A) → Memᴰ x (filter p xs) → Memᴰ x xs × (p x ≡ true)
  mem-filter p x [] m = elim m [ ]
  mem-filter p x (y ∷ ys) m = elim (Bool-cases (p y)) [
    | inl e ↦ elim (Memᴰ.cases_cons (rw e at m)) [
      | inl q ↦ (Memᴰ.head q, rw q e)
      | inr n ↦ (Memᴰ.tail (mem-filter p x ys n).0, (mem-filter p x ys n).1)
    ]
    | inr e ↦ let (n, q) = mem-filter p x ys (rw e at m) in (Memᴰ.tail n, q)
  ]

  pub filter-mem :
      (p : A → Bool) {x : A} {xs : List A} → Memᴰ x xs → p x ≡ true → Memᴰ x (filter p xs)
  filter-mem p (Memᴰ.head {x = y} e) h = let q : p y ≡ true = rw e at h in rw q (Memᴰ.head e)
  filter-mem p (Memᴰ.tail {x = y} m) h = elim (Bool-cases (p y)) [
    | inl q ↦ rw q (Memᴰ.tail (filter-mem p m h))
    | inr q ↦ rw q (filter-mem p m h)
  ]

  pub any-append : (p : A → Bool) (xs ys : List A) → any p (xs ++ ys) ≡ (any p xs || any p ys)
  any-append p [] ys = refl
  any-append p (x ∷ xs) ys = ground (arith, any-append p xs ys)

  pub any-filter : (p : A → Bool) (xs : List A) → filter p xs ≡ [] → any p xs ≡ false
  any-filter p [] h = refl
  any-filter p (x ∷ xs) h = ground (arith, any-filter p xs)

  pub filter-any : (p : A → Bool) (xs : List A) → any p xs ≡ false → filter p xs ≡ []
  filter-any p [] h = refl
  filter-any p (x ∷ xs) h = ground (arith, filter-any p xs)
