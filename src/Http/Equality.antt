-- ===== src/Http/Equality.antt =====
-- http.rs: `constant_time_eq` compares.
use Prim.Native.Char.{Char, char, code}
use first_fork.Common.{
  ◌≢◌, ltb, inl, inr, ℕ, zero, suc, ◌+◌, ◌*◌, ◌/◌, ◌%◌, ◌<◌, ◌≡◌, ◌↔◌, refl, sym, ap, ◌∙◌, true,
  ◌&&◌, List, [], ◌∷◌, ◌++◌, String, length, ◌==◌, if◌then◌else◌, arith, Bool-cases, subst, str_eq,
  eq_iff,
}
use first_fork.Http.Bearer.{
  char_bytes, xor_bits, or_bits, diff_bytes, constant_time_eq, as_bytes, provided_token,
  is_authorized_bearer,
}

-- The number has no bits beyond the first `n`.
Fits : ℕ → ℕ → Type 0
Fits zero a = a ≡ 0
Fits (suc n) a = Fits n (a / 2)

Fits-byte : (a : ℕ) → a < 256 → Fits 8 a
unfolding Fits
Fits-byte a h = omega (arith, h)

xor_bits-same : (n a : ℕ) → xor_bits n a a ≡ 0
unfolding xor_bits
xor_bits-same zero a = refl
xor_bits-same (suc n) a = ground (arith, xor_bits-same n (a / 2))

xor_bits-equal : (n a b : ℕ) → Fits n a → Fits n b → xor_bits n a b ≡ 0 → a ≡ b
unfolding xor_bits Fits
xor_bits-equal zero a b fa fb h = fa ∙ sym fb
xor_bits-equal (suc n) a b fa fb h = elim (Bool-cases (a % 2 == b % 2)) [
  | inl q ↦
      let half = xor_bits-equal n (a / 2) (b / 2) fa fb (ground (arith, h, q)) in
      let parity : a % 2 ≡ b % 2 = ground (arith, q) in omega (arith, half, parity)
  | inr q ↦ ground (arith, h, q)
]

Fits-cons : (n bit rest : ℕ) → bit < 2 → Fits n rest → Fits (suc n) (bit + 2 * rest)
unfolding Fits
Fits-cons n bit rest h f = subst (Fits n) (omega (arith, h)) f

Fits-xor_bits : (n a b : ℕ) → Fits n (xor_bits n a b)
unfolding xor_bits Fits
Fits-xor_bits zero a b = refl
Fits-xor_bits (suc n) a b =
    Fits-cons n (if a % 2 == b % 2 then 0 else 1) (xor_bits n (a / 2) (b / 2)) (ground arith)
      (Fits-xor_bits n (a / 2) (b / 2))

or_bits-zero : (n : ℕ) → or_bits n 0 0 ≡ 0
unfolding or_bits
or_bits-zero zero = refl
or_bits-zero (suc n) = ground (arith, or_bits-zero n)

or_bits-none : (n a b : ℕ) → Fits n a → Fits n b → or_bits n a b ≡ 0 → (a ≡ 0) × (b ≡ 0)
unfolding or_bits Fits
or_bits-none zero a b fa fb h = (fa, fb)
or_bits-none (suc n) a b fa fb h = elim (Bool-cases ((a % 2 == 0) && (b % 2 == 0))) [
  | inl q ↦
      let halves = or_bits-none n (a / 2) (b / 2) fa fb (ground (arith, h, q)) in
      let even : (a % 2 ≡ 0) × (b % 2 ≡ 0) = ground (arith, q) in
      (omega (arith, halves.0, even.0), omega (arith, halves.1, even.1))
  | inr q ↦ ground (arith, h, q)
]

Fits-or_bits : (n a b : ℕ) → Fits n (or_bits n a b)
unfolding or_bits Fits
Fits-or_bits zero a b = refl
Fits-or_bits (suc n) a b =
    Fits-cons n (if (a % 2 == 0) && (b % 2 == 0) then 0 else 1) (or_bits n (a / 2) (b / 2))
      (ground arith) (Fits-or_bits n (a / 2) (b / 2))

-- Numbers below 256, all of them.
AllBytes : List ℕ → Type 0
AllBytes [] = Unit {0}
AllBytes (b ∷ bs) = (b < 256) × AllBytes bs

one_step :
    (diff x y : ℕ)
    → Fits 8 diff
    → x < 256
    → y < 256
    → (or_bits 8 diff (xor_bits 8 x y) ≡ 0) ↔ ((diff ≡ 0) × (x ≡ y))
one_step diff x y f hx hy = (
  λ h.
      let (before, here) = or_bits-none 8 diff (xor_bits 8 x y) f (Fits-xor_bits 8 x y) h in
      (before, xor_bits-equal 8 x y (Fits-byte x hx) (Fits-byte y hy) here),
  λ (before, same). rw (before, same, xor_bits-same 8 y) (or_bits-zero 8),
)

cong_cons : {x y : ℕ} {a b : List ℕ} → x ≡ y → a ≡ b → (x ∷ a) ≡ (y ∷ b)
cong_cons p q = cc

abbrev head_of : List ℕ → ℕ
head_of [] = 0
head_of (x ∷ xs) = x

abbrev tail_of : List ℕ → List ℕ
tail_of [] = []
tail_of (x ∷ xs) = xs

-- With no difference so far, the loop over two lists of the same length finds none just when they
-- are the same.
diff_bytes_iff :
    (diff : ℕ) (a b : List ℕ)
    → Fits 8 diff
    → AllBytes a
    → AllBytes b
    → length a ≡ length b
    → (diff_bytes diff a b ≡ 0) ↔ ((diff ≡ 0) × (a ≡ b))
unfolding diff_bytes AllBytes
diff_bytes_iff diff [] [] f ha hb same = (λ h. (h, refl), λ h. h.0)
diff_bytes_iff diff [] (y ∷ b) f ha hb same = ground (arith, same)
diff_bytes_iff diff (x ∷ a) [] f ha hb same = ground (arith, same)
diff_bytes_iff diff (x ∷ a) (y ∷ b) f ha hb same =
    let step = one_step diff x y f ha.0 hb.0 in
    let rest =
      diff_bytes_iff (or_bits 8 diff (xor_bits 8 x y)) a b (Fits-or_bits 8 diff (xor_bits 8 x y))
        ha.1 hb.1 (omega (arith, same)) in
    (
      λ h.
          let (none_yet, tails) = rest.0 h in
          let (before, heads) = step.0 none_yet in (before, cong_cons heads tails),
      λ (before, equal). rest.1 (step.1 (before, ap head_of equal), ap tail_of equal),
    )

constant_time_eq_iff :
    (a b : List ℕ) → AllBytes a → AllBytes b → (constant_time_eq a b ≡ true) ↔ (a ≡ b)
unfolding constant_time_eq
constant_time_eq_iff a b ha hb = elim (Bool-cases (length a == length b)) [
  | inl q ↦
      let none_yet = diff_bytes_iff 0 a b (Fits-byte 0 (omega arith)) ha hb (ground (arith, q)) in
      rw q (
        λ h. (none_yet.0 (ground (arith, h))).1,
        λ e. let zero_diff = none_yet.1 (refl, e) in ground (arith, zero_diff),
      )
  | inr q ↦ rw q (λ h. ground (arith, h), λ e. let same = ap length e in ground (arith, q, same))
]

code-lt : (c : Char) → code c < 1114112
code-lt (char n p) = ground (arith, p)

AllBytes-append : (a b : List ℕ) → AllBytes a → AllBytes b → AllBytes (a ++ b)
unfolding AllBytes
AllBytes-append [] b ha hb = hb
AllBytes-append (x ∷ a) b ha hb = (ha.0, AllBytes-append a b ha.1 hb)

AllBytes-char_bytes : (c : ℕ) → c < 1114112 → AllBytes (char_bytes c)
unfolding AllBytes char_bytes
AllBytes-char_bytes c h = elim (Bool-cases (ltb c 128)) [
  | inl q ↦ rw q (ground (arith, q), tt)
  | inr q ↦ elim (Bool-cases (ltb c 2048)) [
    | inl r ↦ rw (q, r) (ground (arith, r), (omega arith, tt))
    | inr r ↦ elim (Bool-cases (ltb c 65536)) [
      | inl t ↦ rw (q, r, t) (ground (arith, t), (omega arith, (omega arith, tt)))
      | inr t ↦ rw (q, r, t) (omega (arith, h), (omega arith, (omega arith, (omega arith, tt))))
    ]
  ]
]

AllBytes-as_bytes : (s : String) → AllBytes (as_bytes s)
unfolding AllBytes as_bytes
AllBytes-as_bytes String.[] = tt
AllBytes-as_bytes (String.◌∷◌ c s) =
    AllBytes-append (char_bytes (code c)) (as_bytes s) (AllBytes-char_bytes (code c) (code-lt c))
      (AllBytes-as_bytes s)

-- A header is accepted just when a token is expected and the header gives the same bytes.
pub is_authorized_bearer_iff :
    (header expected : String)
    → (is_authorized_bearer header expected ≡ true)
      ↔ ((expected ≢ "") × (as_bytes (provided_token header) ≡ as_bytes expected))
unfolding is_authorized_bearer
is_authorized_bearer_iff header expected =
    let a = as_bytes (provided_token header) in
    let b = as_bytes expected in
    let same =
      constant_time_eq_iff a b (AllBytes-as_bytes (provided_token header))
        (AllBytes-as_bytes expected) in
    let empty = eq_iff expected "" in
    (
      λ h. (λ e. let q = empty.1 e in ground (arith, h, q), same.0 (ground (arith, h))),
      λ (given, e).
          let q = same.1 e in
          elim (Bool-cases (str_eq expected "")) [
            | inl r ↦ absurd (given (empty.0 r))
            | inr r ↦ rw (r, q) refl
          ],
    )
