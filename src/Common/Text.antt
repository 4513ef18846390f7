-- ===== src/Common/Text.antt =====
-- Keys that are texts, and the operations on texts that the program uses: `format!` of a number,
-- `join`, `split`, `strip_prefix` and `str::parse::<u32>`.
use Prim.Native.Nat.{ℕ, zero, suc, ◌+◌, ◌-◌, ◌*◌, ◌/◌, ◌%◌, Ordering}
use Prim.Native.Char.{code}
use Prim.Native.String.{String, compare, ◌++◌}
use mathlib.Core.Path.{◌≡◌, subst, refl}
use mathlib.Core.Logic.{◌↔◌}
use mathlib.Core.Bool.{true, false, ◌&&◌}
use mathlib.Core.Option.{Option, none, some}
use mathlib.Core.List.{List, [], ◌∷◌}
use text.Mathlib.TextEquality.{path_by_compare}
use text.Mathlib.TextPositions.{compare_refl}
use text.Mathlib.TextLemmas.{nil-append, cons-append}
use native.Mathlib.Omega.{arith}
use first_fork.Common.Ordered.{Ord}
use first_fork.Common.Tests.{if◌then◌else◌, ◌==◌, ltb, leb}
use first_fork.Common.Words.{ℤ, pos, negsuc, u16_mod, u32_mod}

pub compare_iff : (s t : String) → (compare s t ≡ Ordering.eq) ↔ (s ≡ t)
compare_iff s t =
    (path_by_compare s t, λ p. subst (λ u. compare s u ≡ Ordering.eq) p (compare_refl s))

instance abbrev pub string_ord : Ord String
string_ord = record { cmp = compare; cmp_iff = compare_iff }

digit : ℕ → String
digit n =
    if n == 0
    then "0"
    else if n == 1
    then "1"
    else if n == 2
    then "2"
    else if n == 3
    then "3"
    else if n == 4
    then "4"
    else if n == 5
    then "5"
    else if n == 6
    then "6"
    else if n == 7
    then "7"
    else if n == 8
    then "8"
    else "9"

-- There are fewer digits than the number has units, so the number itself is fuel enough.
show_from : ℕ → ℕ → String
unfolding digit
show_from zero n = digit n
show_from (suc fuel) n = elim (ltb n 10) [
  | true ↦ digit n
  | false ↦ show_from fuel (n / 10) ++ digit (n % 10)
]

unfoldable pub show : ℕ → String
unfolding show_from
show n = show_from n n

unfoldable pub show_ℤ : ℤ → String
unfolding show
show_ℤ (pos n) = show n
show_ℤ (negsuc n) = "-" ++ show (suc n)

unfoldable pub join : String → List String → String
join sep [] = ""
join sep (s ∷ []) = s
join sep (s ∷ t ∷ ts) = s ++ (sep ++ join sep (t ∷ ts))

unfoldable pub strip_prefix : String → String → Option String
strip_prefix s String.[] = some s
strip_prefix String.[] (String.◌∷◌ d p) = none
strip_prefix (String.◌∷◌ c s) (String.◌∷◌ d p) = if code c == code d then strip_prefix s p else none

-- `split(sep)` with the piece that is being read in front.
abbrev prepend : List String → String → List String
prepend [] s = s ∷ []
prepend (p ∷ ps) s = (s ++ p) ∷ ps

pub strip_prefix-append : (p s : String) → strip_prefix (p ++ s) p ≡ some s
unfolding strip_prefix
strip_prefix-append String.[] s = rw nil-append refl
strip_prefix-append (String.◌∷◌ c p) s =
    let q : (code c == code c) ≡ true = ground arith in
    rw (cons-append c p s, q) (strip_prefix-append p s)

unfoldable pub split : ℕ → String → List String
split sep String.[] = "" ∷ []
split sep (String.◌∷◌ c s) =
    let rest = split sep s in if code c == sep then "" ∷ rest else prepend rest (String.◌∷◌ c "")

-- The digits of an unsigned integer, most significant first; `none` on another character or when
-- the number does not fit below `modulus`.
parse_digits : (modulus acc : ℕ) → String → Option ℕ
parse_digits modulus acc String.[] = some acc
parse_digits modulus acc (String.◌∷◌ c s) =
    let next = acc * 10 + (code c - b'0') in
    let rest = parse_digits modulus next s in
    if leb b'0' (code c) && leb (code c) b'9' && ltb next modulus then rest else none

parse_tail : ℕ → String → Option ℕ
unfolding parse_digits
parse_tail modulus String.[] = none
parse_tail modulus (String.◌∷◌ c s) = parse_digits modulus 0 (String.◌∷◌ c s)

parse_uint : ℕ → String → Option ℕ
unfolding parse_tail
parse_uint modulus String.[] = none
parse_uint modulus (String.◌∷◌ c s) =
    if code c == b'+' then parse_tail modulus s else parse_tail modulus (String.◌∷◌ c s)

unfoldable pub parse_u32 : String → Option ℕ
unfolding parse_uint
parse_u32 s = parse_uint u32_mod s

unfoldable pub parse_u16 : String → Option ℕ
unfolding parse_uint
parse_u16 s = parse_uint u16_mod s

show_runs : show 1024 ≡ "1024"
unfolding show
show_runs = refl

parse_runs : parse_u32 "+0042" ≡ some 42
unfolding parse_u32
parse_runs = refl

parse_overflows : parse_u32 "4294967296" ≡ none
unfolding parse_u32
parse_overflows = refl

split_runs : split b':' "a:b::" ≡ "a" ∷ "b" ∷ "" ∷ "" ∷ []
unfolding split
split_runs = refl
