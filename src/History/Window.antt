-- ===== src/History/Window.antt =====
-- A ring buffer holds the newest items that were pushed, in order, and never more than it may.
use first_fork.Common.{
  ℕ, zero, suc, ◌+◌, ◌-◌, ◌≤◌, ◌<◌, ◌≡◌, refl, sym, ◌∙◌, ap, inl, inr, List, [], ◌∷◌, ◌++◌, length,
  length-append, length-drop, drop, ◌==◌, Bool-cases, arith, if◌then◌else◌, last?, last?-append_one,
  some,
}
use mathlib.Core.List.{append_assoc, append-nil}
use first_fork.History.{RingBuf, new, push, clear, push_all}

module _ {ℓ} {A : Type ℓ} where
  -- The capacity is positive and respected.
  pub record IsBounded (b : RingBuf A) : Type 0 where
    pub positive : 0 < b.max_size
    pub fits : length b.items ≤ b.max_size

  -- The last `n` items of a list.
  abbrev pub newest : ℕ → List A → List A
  newest n xs = drop (length xs - n) xs

  pub push-IsBounded : (b : RingBuf A) (a : A) → IsBounded b → IsBounded (push b a)
  unfolding push
  push-IsBounded b a h = ground (
    arith,
    length-append b.items (a ∷ []),
    length-append (drop 1 b.items) (a ∷ []),
    length-drop 1 b.items,
  )

  drop-append : (n : ℕ) (xs ys : List A) → n ≤ length xs → drop n (xs ++ ys) ≡ drop n xs ++ ys
  drop-append zero xs ys h = refl
  drop-append (suc n) [] ys h = absurd (omega arith)
  drop-append (suc n) (x ∷ xs) ys h = drop-append n xs ys (omega arith)

  drop_eq : (m n : ℕ) (xs : List A) → m ≡ n → drop m xs ≡ drop n xs
  drop_eq m n xs e = rw e

  drop-drop : (m n : ℕ) (xs : List A) → drop m (drop n xs) ≡ drop (m + n) xs
  drop-drop m zero xs = drop_eq m (m + 0) xs (omega arith)
  drop-drop zero (suc n) xs = drop_eq (suc n) (0 + suc n) xs (omega arith)
  drop-drop (suc m) (suc n) [] = let e : suc m + suc n ≡ suc (m + suc n) = omega arith in rw e refl
  drop-drop (suc m) (suc n) (x ∷ xs) =
      let e : suc m + suc n ≡ suc (suc m + n) = omega arith in rw e (drop-drop (suc m) n xs)

  -- Cutting a list to its newest items before more are added loses nothing.
  newest-newest : (m : ℕ) (ys zs : List A) → newest m (newest m ys ++ zs) ≡ newest m (ys ++ zs)
  newest-newest m ys zs =
      let k : ℕ = length ys - m in
      let w = ys ++ zs in
      rw (← drop-append k ys zs (omega arith)) (
        drop-drop (length (drop k w) - m) k w
        ∙ ap (λ j. drop j w) (omega (arith, length-drop k w, length-append ys zs)))

  push-newest :
      (b : RingBuf A) (a : A)
      → IsBounded b
      → (push b a).items ≡ newest b.max_size (b.items ++ a ∷ [])
  unfolding push
  push-newest b a h = elim (Bool-cases (length b.items == b.max_size)) [
    | inl full ↦ rw full (
        sym (drop-append 1 b.items (a ∷ []) (ground arith))
        ∙ drop_eq 1 (length (b.items ++ a ∷ []) - b.max_size) _
            (ground (arith, length-append b.items (a ∷ []))))
    | inr room ↦ rw room (
        drop_eq 0 (length (b.items ++ a ∷ []) - b.max_size) _
          (ground (arith, length-append b.items (a ∷ []))))
  ]

  max_size-push : (b : RingBuf A) (a : A) → (push b a).max_size ≡ b.max_size
  unfolding push
  max_size-push b a = refl

  -- After any pushes on a buffer within its capacity it holds the newest `max_size` of all the
  -- items, oldest first, and is still within its capacity.
  pub push_all-newest :
      (b : RingBuf A) (xs : List A)
      → IsBounded b
      → ((push_all b xs).items ≡ newest b.max_size (b.items ++ xs)) × IsBounded (push_all b xs)
  unfolding push_all
  push_all-newest b [] h =
      (rw append-nil (drop_eq 0 (length b.items - b.max_size) b.items (omega arith)), h)
  push_all-newest b (x ∷ xs) h =
      let (items_eq, bounded) = push_all-newest (push b x) xs (push-IsBounded b x h) in
      (
        items_eq
            ∙ rw (push-newest b x h, max_size-push b x)
                (newest-newest b.max_size (b.items ++ x ∷ []) xs
                  ∙ ap (newest b.max_size) (append_assoc b.items (x ∷ []) xs)),
        bounded,
      )

  pub new-IsBounded : (n : ℕ) (h : 0 < n) → IsBounded (new {A = A} n h)
  unfolding new
  new-IsBounded n h = record { positive = h; fits = omega arith }

  pub clear-IsBounded : (b : RingBuf A) → IsBounded b → IsBounded (clear b)
  unfolding clear
  clear-IsBounded b h = record { positive = h.positive; fits = omega arith }

  -- What was pushed last is read last.
  pub last-push : (b : RingBuf A) (a : A) → last? (push b a).items ≡ some a
  unfolding push
  last-push b a =
      last?-append_one (if length b.items == b.max_size then drop 1 b.items else b.items) a
