-- ===== src/Common/Lines.antt =====
-- The lines of a text (`str::lines`), blank texts (`trim().is_empty()`), and searches in a text.
use Prim.Native.Nat.{ℕ}
use Prim.Native.Char.{Char, code}
use Prim.Native.String.{String, ◌++◌}
use mathlib.Core.Path.{◌≡◌, refl}
use mathlib.Core.Bool.{Bool, true, false, ◌&&◌, ◌||◌, not}
use mathlib.Core.List.{List, [], ◌∷◌, map}
use text.Mathlib.Text.{find?}
use text.Mathlib.TextLemmas.{nil-append, cons-append}
use mathlib.Core.Logic.{inl, inr}
use native.Mathlib.Omega.{arith}
use first_fork.Common.Tests.{is_some, Bool-cases, if◌then◌else◌, ◌==◌, leb}
use first_fork.Common.Text.{split}

-- Unicode's `White_Space`.
unfoldable pub is_whitespace : ℕ → Bool
is_whitespace c =
    (leb 9 c && leb c 13)
    || c == 32
    || c == 133
    || c == 160
    || c == 5760
    || (leb 8192 c && leb c 8202)
    || c == 8232
    || c == 8233
    || c == 8239
    || c == 8287
    || c == 12288

unfoldable pub is_blank : String → Bool
unfolding is_whitespace
is_blank String.[] = true
is_blank (String.◌∷◌ c s) = is_whitespace (code c) && is_blank s

-- `chars().any(char::is_whitespace)`.
unfoldable pub has_whitespace : String → Bool
unfolding is_whitespace
has_whitespace String.[] = false
has_whitespace (String.◌∷◌ c s) = is_whitespace (code c) || has_whitespace s

trim_start : String → String
unfolding is_whitespace
trim_start String.[] = ""
trim_start (String.◌∷◌ c s) = if is_whitespace (code c) then trim_start s else String.◌∷◌ c s

-- A text that is all white space ends to nothing.
trim_end : String → String
unfolding is_whitespace is_blank
trim_end String.[] = ""
trim_end (String.◌∷◌ c s) = if is_blank (String.◌∷◌ c s) then "" else String.◌∷◌ c (trim_end s)

-- `str::trim`.
unfoldable pub trim : String → String
unfolding trim_start trim_end
trim s = trim_end (trim_start s)

trim_end-has_whitespace : (s : String) → has_whitespace s ≡ false → trim_end s ≡ s
unfolding trim_end has_whitespace is_blank
trim_end-has_whitespace String.[] h = refl
trim_end-has_whitespace (String.◌∷◌ c s) h =
    let q : is_whitespace (code c) ≡ false = ground (arith, h) in
    rw (q, trim_end-has_whitespace s (ground (arith, h))) refl

trim_start-has_whitespace : (s : String) → has_whitespace s ≡ false → trim_start s ≡ s
unfolding trim_start has_whitespace
trim_start-has_whitespace String.[] h = refl
trim_start-has_whitespace (String.◌∷◌ c s) h =
    let q : is_whitespace (code c) ≡ false = ground (arith, h) in rw q refl

-- Nothing is trimmed from a text without white space.
pub trim-has_whitespace : (s : String) → has_whitespace s ≡ false → trim s ≡ s
unfolding trim
trim-has_whitespace s h = rw (trim_start-has_whitespace s h) (trim_end-has_whitespace s h)

-- A line without its carriage return at the end.
strip_cr : String → String
strip_cr String.[] = ""
strip_cr (String.◌∷◌ c String.[]) = if code c == b'\r' then "" else String.◌∷◌ c ""
strip_cr (String.◌∷◌ c (String.◌∷◌ d s)) = String.◌∷◌ c (strip_cr (String.◌∷◌ d s))

-- The pieces between the line ends; an empty last piece is no line.
line_pieces : List String → List String
line_pieces [] = []
line_pieces (String.[] ∷ []) = []
line_pieces (p ∷ []) = p ∷ []
line_pieces (p ∷ q ∷ ps) = p ∷ line_pieces (q ∷ ps)

unfoldable pub lines : String → List String
unfolding line_pieces strip_cr split
lines s = map strip_cr (line_pieces (split b'\n' s))

-- `str::contains`.
abbrev pub text_contains : String → String → Bool
text_contains s p = is_some (find? s p)

lines_runs : lines "a\r\n\nb\n" ≡ "a" ∷ "" ∷ "b" ∷ []
unfolding lines
lines_runs = refl

contains_runs : text_contains "HTTP/1.1 200 OK" "200" ≡ true
contains_runs = refl

-- No such character is in the text.
abbrev pub lacks : ℕ → String → Bool
lacks sep String.[] = true
lacks sep (String.◌∷◌ c s) = not (code c == sep) && lacks sep s

split-cons : (sep : ℕ) (s : String) → (p : String) × (ps : List String) × (split sep s ≡ p ∷ ps)
unfolding split
split-cons sep String.[] = ("", [], refl)
split-cons sep (String.◌∷◌ c s) =
    let (p, ps, e) = split-cons sep s in
    elim (Bool-cases (code c == sep)) [
      | inl q ↦ ("", split sep s, rw q refl)
      | inr q ↦ (String.◌∷◌ c "" ++ p, ps, rw (q, e) refl)
    ]

-- A text without the separator is the first piece of what it begins.
split-append :
    (c : Char) (line rest : String)
    → lacks (code c) line ≡ true
    → split (code c) (line ++ String.◌∷◌ c rest) ≡ line ∷ split (code c) rest
unfolding split
split-append c String.[] rest h =
    let q : (code c == code c) ≡ true = ground arith in rw (nil-append, q) refl
split-append c (String.◌∷◌ d s) rest h =
    let q : (code d == code c) ≡ false = ground (arith, h) in
    let tail : lacks (code c) s ≡ true = ground (arith, h) in
    rw
      (
        cons-append d s (String.◌∷◌ c rest),
        q,
        split-append c s rest tail,
        cons-append d "" s,
        nil-append,
      )
      refl

strip_cr-lacks : (s : String) → lacks b'\r' s ≡ true → strip_cr s ≡ s
unfolding strip_cr
strip_cr-lacks String.[] h = refl
strip_cr-lacks (String.◌∷◌ c String.[]) h = ground (arith, h)
strip_cr-lacks (String.◌∷◌ c (String.◌∷◌ d s)) h =
    rw (strip_cr-lacks (String.◌∷◌ d s) (ground (arith, h))) refl

line_pieces-cons :
    (p q : String) (ps : List String) → line_pieces (p ∷ q ∷ ps) ≡ p ∷ line_pieces (q ∷ ps)
unfolding line_pieces
line_pieces-cons String.[] q ps = refl
line_pieces-cons (String.◌∷◌ c p) q ps = refl

pieces-cons :
    (line q : String) (ps : List String)
    → lacks b'\r' line ≡ true
    → map strip_cr (line_pieces (line ∷ q ∷ ps)) ≡ line ∷ map strip_cr (line_pieces (q ∷ ps))
pieces-cons line q ps k = rw (line_pieces-cons line q ps, strip_cr-lacks line k) refl

-- The first line of a text that begins with a line and its end.
pub lines-append :
    (line rest : String)
    → lacks b'\n' line ≡ true
    → lacks b'\r' line ≡ true
    → lines (line ++ ("\n" ++ rest)) ≡ line ∷ lines rest
unfolding lines
lines-append line rest h k =
    let (p, ps, e) = split-cons b'\n' rest in
    rw (cons-append "\n" "" rest, nil-append, split-append "\n" line rest h, e)
      (pieces-cons line p ps k)

pub lines-nil : lines "" ≡ []
unfolding lines
lines-nil = refl
