-- ===== src/Core.antt =====
-- oprf-core: the cryptography of the threshold OPRF.
pub mod Shamir
pub mod Dlog
pub mod Ddlog
pub mod Mappings
pub mod Keygen
pub mod Oprf
