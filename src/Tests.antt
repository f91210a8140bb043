-- ===== src/Tests.antt =====
-- Runs of the code at concrete inputs.
pub mod Crypto
pub mod Keys
pub mod Database
pub mod Sessions
pub mod Node
pub mod Rounds
pub mod Watcher
pub mod Clients
