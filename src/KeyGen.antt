-- ===== src/KeyGen.antt =====
-- oprf-key-gen: the service that takes part in key generation.
pub mod Db
pub mod Effects
pub mod Retry
pub mod Manager
pub mod Postgres
pub mod Direct
pub mod Values
pub mod Proof
pub mod Rounds
pub mod Errors
pub mod Events
pub mod Transactions
pub mod Handler
pub mod Watcher
