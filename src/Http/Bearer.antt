-- ===== src/Http/Bearer.antt =====
-- http.rs: `is_authorized_bearer` and `constant_time_eq`.
use Prim.Native.Char.{code}
use first_fork.Common.{
  ℕ, zero, suc, ◌+◌, ◌*◌, ◌/◌, ◌%◌, Bool, false, not, ◌&&◌, none, some, List, [], ◌∷◌, ◌++◌, String,
  length, ◌==◌, ltb, if◌then◌else◌, strip_prefix, str_eq, trim,
}

-- The bits of two numbers, `n` of them, put together.

-- `^`.
unfoldable pub xor_bits : (n a b : ℕ) → ℕ
xor_bits zero a b = 0
xor_bits (suc n) a b =
    let rest = xor_bits n (a / 2) (b / 2) in (if a % 2 == b % 2 then 0 else 1) + 2 * rest

-- `|`.
unfoldable pub or_bits : (n a b : ℕ) → ℕ
or_bits zero a b = 0
or_bits (suc n) a b =
    let rest = or_bits n (a / 2) (b / 2) in
    (if (a % 2 == 0) && (b % 2 == 0) then 0 else 1) + 2 * rest

-- The loop over both lists at once; it stops with the shorter one.
unfoldable pub diff_bytes : ℕ → List ℕ → List ℕ → ℕ
diff_bytes diff [] bs = diff
diff_bytes diff (a ∷ as_) [] = diff
diff_bytes diff (a ∷ as_) (b ∷ bs) = diff_bytes (or_bits 8 diff (xor_bits 8 a b)) as_ bs

unfoldable pub constant_time_eq : List ℕ → List ℕ → Bool
constant_time_eq a b = if not (length a == length b) then false else diff_bytes 0 a b == 0

-- `str::as_bytes`: the UTF-8 bytes of a text.
unfoldable pub char_bytes : ℕ → List ℕ
char_bytes c =
    if ltb c 128
    then c ∷ []
    else if ltb c 2048
    then (192 + c / 64) ∷ (128 + c % 64) ∷ []
    else if ltb c 65536
    then (224 + c / 4096) ∷ (128 + c / 64 % 64) ∷ (128 + c % 64) ∷ []
    else (240 + c / 262144) ∷ (128 + c / 4096 % 64) ∷ (128 + c / 64 % 64) ∷ (128 + c % 64) ∷ []

unfoldable pub as_bytes : String → List ℕ
unfolding char_bytes
as_bytes String.[] = []
as_bytes (String.◌∷◌ c s) = char_bytes (code c) ++ as_bytes s

-- What the header gives as the token.
unfoldable pub provided_token : String → String
provided_token header = elim (strip_prefix header "Bearer ") [ none ↦ trim "" | some t ↦ trim t ]

unfoldable pub is_authorized_bearer : String → String → Bool
is_authorized_bearer header expected =
    not (str_eq expected "")
    && constant_time_eq (as_bytes (provided_token header)) (as_bytes expected)
