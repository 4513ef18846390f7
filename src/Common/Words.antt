-- ===== src/Common/Words.antt =====
-- Unsigned machine integers: plain numbers, with the wrap-around of a release build written out.
use Prim.Native.Nat.{ℕ, ◌+◌, ◌-◌, ◌%◌, ◌^◌, ◌<◌}
use mathlib.Core.Path.{◌≡◌}
use native.Mathlib.Omega.{arith}

abbrev pub u16_mod : ℕ
u16_mod = 2 ^ 16

abbrev pub u32_mod : ℕ
u32_mod = 2 ^ 32

abbrev pub u64_mod : ℕ
u64_mod = 2 ^ 64

abbrev pub add32 : ℕ → ℕ → ℕ
add32 a b = (a + b) % u32_mod

abbrev pub add64 : ℕ → ℕ → ℕ
add64 a b = (a + b) % u64_mod

-- Rust's `saturating_sub`.
abbrev pub saturating_sub : ℕ → ℕ → ℕ
saturating_sub a b = a - b

pub add64_exact : (a b : ℕ) → a + b < u64_mod → add64 a b ≡ a + b
add64_exact a b h = omega arith

pub add32_exact : (a b : ℕ) → a + b < u32_mod → add32 a b ≡ a + b
add32_exact a b h = omega arith

-- Signed integers; `negsuc n` is -(n + 1).
pub data ℤ : Type 0 where
  pos negsuc : ℕ → ℤ
