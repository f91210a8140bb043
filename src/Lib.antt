-- ===== src/Lib.antt =====
-- The threshold OPRF of TACEO: a client blinds a query, a threshold of nodes answers with their
-- shares of a key, and the client combines, verifies and unblinds the answers; the key is generated
-- and reshared by parties that never hold it.
--
-- Base holds the names that all modules share: tests on numbers, lists, `Result`, bytes, and the
-- sorting, deduplication and sortedness of slices. Algebra states what the cryptographic libraries
-- promise, as records of operations and laws that the other modules take as parameters: Field a prime
-- field, Suite a prime-order group in a larger curve with its hash functions and encodings. Five and
-- Line are a field of five elements and its additive group, which meet those laws.
--
-- Core models oprf-core. Shamir is oprf-core/src/shamir.rs (single_lagrange_from_coeff,
-- lagrange_from_coeff, evaluate_poly, reconstruct), with interpolation in Poly, Coeff, Interpolation
-- and Sharing. Dlog is dlog_equality.rs (proof, verify, challenge_hash). Ddlog is ddlog_equality.rs and
-- ddlog_equality/shamir.rs (partial_commitments, combine_commitments, challenge, combine_proofs,
-- combine_two_nonce_randomness), which use Dlog and Shamir, and Ddlog.Additive is
-- ddlog_equality/additive.rs. Mappings is oprf/mappings.rs. Oprf is
-- oprf.rs, oprf/client.rs and oprf/server.rs. Keygen is keygen.rs.
--
-- KeyGen.Db models oprf-key-gen/src/postgres.rs over the tables of oprf-key-gen/migrations: each
-- SQL statement is a function on a list of rows, each transaction a function from the tables to a
-- result and the tables; an error keeps the old tables. Step is one call that writes and Steps any
-- number of them, which are taken one after another, as their isolation makes them appear.
--
-- The key-generation service stands on it. KeyGen.Effects is a monad of functions that change a state,
-- may fail and may panic, for Rust's async functions; Effects.Kept are those with a proof of what they
-- keep. KeyGen.Retry is with_retry of postgres.rs on a connection that may lose a statement or its
-- answer at any attempt, with Backon for the retry of that crate. KeyGen.Manager holds the traits of
-- services/secret_manager.rs and services/event_cursor_store.rs, which KeyGen.Postgres implements with
-- retries and KeyGen.Direct without. KeyGen.Values, Proof and Rounds are services/secret_gen.rs:
-- decrypt_key_gen_ciphertexts, compute_keygen_proof, and the rounds. KeyGen.Errors and KeyGen.Watcher
-- are services/key_event_watcher.rs, KeyGen.Events is key_event_watcher/events.rs, KeyGen.Handler is
-- key_event_watcher/handler.rs, with what it writes in Watcher.Writes, and KeyGen.Transactions is services/transaction_handler.rs. A select of
-- the watcher is a list of the turns it takes, in any order; the two futures of a join run one after
-- the other. Types.Chain holds the messages of oprf-types/src/chain.rs and crypto.rs.
--
-- Types holds the epochs and close codes of oprf-types/src/lib.rs and api.rs. Client.Sessions models
-- oprf-client/src/sessions.rs: the answers of the nodes come as a list in the order of their arrival,
-- and init_loop goes through them with the map from epochs to sessions. Client.Distributed models
-- oprf-client/src/lib.rs on top of it and of Core: distributed_oprf_core, verify_dlog_equality and
-- finalize_distributed_oprf; Client.Errors is aggregate_error of the same file.
-- Client.Delegate is the way by a delegate, delegate_distributed_oprf of that file and
-- oprf-service/src/api/oprf_delegate.rs, and Client.PublicKeys is its fetch_oprf_public_key.
-- Client.Sockets is oprf-client/src/ws/native.rs and ws/wasm.rs: what a client reads of each
-- frame.
--
-- Service.Session models the challenge round of oprf-service/src/api/oprf.rs, the sessions of services/oprf_key_material_store.rs
-- and the close frames of api/errors.rs; Service.Secrets models services/secret_manager/postgres.rs,
-- which reads the table that KeyGen.Db writes, and Service.Store the cache of key material in front of
-- it, whose Step is the start or the end of a read, an eviction or a call of KeyGen.Db: between the
-- two, the answer of the secret manager is on its way.
-- Service.Node puts them together: partial_oprf_inner and init_session of api/oprf.rs, and
-- services/open_sessions.rs, whose guards Step and Steps take and drop in any order.
--
-- Conventions: a panic is `none` of Option; `Result` is Rust's, and reports carry no text; random
-- scalars are arguments; ids, epochs and machine integers are natural numbers, with the wrap-around of party_id + 1 at 2 ^ 16 and
-- of the casts between u64 and i64 written out. No loop needs fuel: each goes over a list. Points in
-- affine and projective form are one type, and newtypes around points and scalars are left out.
-- Serialized columns stand for the values, and a session id for its bytes.
--
-- Not modelled: the poseidon2, blake3 and curve libraries, the Groth16 prover, alloy and the event
-- stream, the contract and the decoding of its ABI, the retries of backon (all
-- parameters), the connections of web-sockets and of HTTP, the timeouts of a connection, start-up,
-- logging and metrics.
pub mod Base
pub mod Algebra
pub mod Core
pub mod KeyGen
pub mod Client
pub mod Types
pub mod Service
pub mod Tests
