-- ===== src/Http.antt =====
-- http.rs: the HTTP server, as a function from a request to a response and the event that it sends to
-- the control loop. Sockets, JSON and the processes that `handle_diagnose` runs are parameters.
pub mod Bearer
pub mod Equality
pub mod Responses
pub mod Server
pub mod Body
pub mod Access
pub mod HealthCheck
mod Tests
