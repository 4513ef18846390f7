-- ===== src/Model.antt =====
-- The domain types of model.rs. `String`, `u16`, `u32`, `u64` and `i32` payloads are texts and
-- numbers; maps are ordered maps.
mod Service
mod Backup
mod Protocol
unfoldable pub use Service.*
unfoldable pub use Backup.*
unfoldable pub use Protocol.*
