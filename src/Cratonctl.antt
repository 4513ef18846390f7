-- ===== src/Cratonctl.antt =====
-- cratonctl: the command-line client.
pub mod Errors
pub mod Auth
pub mod Tokens
pub mod Cli
pub mod Client
pub mod Commands
pub mod Mutations
pub mod Outcome
mod Tests
