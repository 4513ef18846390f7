-- ===== src/Runtime.antt =====
-- runtime.rs: the control loop. It turns what happens into events, hands them to the reducer, and
-- carries out the commands that come back.
pub mod Snapshot
pub mod Machine
pub mod Commands
pub mod Depth
pub mod Startup
pub mod Loop
pub mod Daily
pub mod Frames
pub mod Leased
pub mod Protection
pub mod Restic
mod Tests
