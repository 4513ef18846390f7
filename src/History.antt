-- ===== src/History.antt =====
-- history.rs: the bounded FIFO behind every history of the daemon. The front of the list is the
-- oldest item. The test-only helpers of the source (`len`, `capacity`, …) are not modelled.
pub mod Window
mod Tests
use first_fork.Common.{ℕ, ◌<◌, List, [], ◌∷◌, ◌++◌, length, drop, if◌then◌else◌, ◌==◌}

pub record RingBuf {ℓ} (A : Type ℓ) : Type ℓ where
  pub items : List A
  pub max_size : ℕ

module _ {ℓ} {A : Type ℓ} where
  -- The assertion `max_size > 0` is the second argument.
  unfoldable pub new : (max_size : ℕ) → 0 < max_size → RingBuf A
  new max_size _ = record { items = []; max_size = max_size }

  unfoldable pub push : RingBuf A → A → RingBuf A
  push b item = record b {
    items = (if length b.items == b.max_size then drop 1 b.items else b.items) ++ item ∷ [];
  }

  unfoldable pub clear : RingBuf A → RingBuf A
  clear b = record b { items = [] }

  -- A run of pushes, first item first.
  unfoldable pub push_all : RingBuf A → List A → RingBuf A
  push_all b [] = b
  push_all b (x ∷ xs) = push_all (push b x) xs
