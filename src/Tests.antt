-- ===== src/Tests.antt =====
-- Runs of the model on concrete inputs, and the theorems at such inputs. The crates are played by
-- functions: parsers on lists, a list for a buffer, and a device in memory.
pub mod Parsers
pub mod Device
pub mod Pages
pub mod Fixtures
pub mod Runs
pub mod Failing
pub mod Rounds
pub mod Typed
pub mod Clock
pub mod Kept
pub mod Serving
pub mod Hexadecimal
pub mod Elements
pub mod Pdus
pub mod Queries
pub mod Connections
