-- ===== src/Client.antt =====
-- oprf-client: a client that collects sessions, makes the challenge, unblinds the answer, and sums up
-- the errors of the nodes, by itself or by way of a delegate; its web-sockets, and its query for the
-- public key.
pub mod Sessions
pub mod Errors
pub mod Distributed
pub mod Delegate
pub mod PublicKeys
pub mod Sockets
