-- ===== src/Service.antt =====
-- oprf-service: a node that answers clients.
pub mod Session
pub mod Secrets
pub mod Store
pub mod Node
