-- ===== src/Transport.antt =====
-- src/transport: connecting, exchanging PDUs, and the query that is built on both.
pub mod Connect
pub mod Socket
pub mod Session
pub mod Time
pub mod Live
