-- ===== src/UnitTests.antt =====
-- The test functions in the sources, as they are written: each ends, fails an assertion or returns
-- a message. Passing runs them all.
pub mod Outcome
pub mod Hex
pub mod PduHeader
pub mod Descriptor
pub mod Element
pub mod Encode
pub mod Response
pub mod Extract
pub mod Connect
pub mod Public
pub mod Live
pub mod Passing
pub mod Duplex
pub mod Socket
pub mod Session
pub mod Memory
pub mod Serving
pub mod PassingExchanges
