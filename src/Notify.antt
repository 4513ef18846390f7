-- ===== src/Notify.antt =====
-- notify.rs: the delivery of alerts.
pub mod Outbox
pub mod Send
pub mod Consumer
pub mod Restart
pub mod Delivery
pub mod Redelivery
mod Tests
pub mod Compaction
