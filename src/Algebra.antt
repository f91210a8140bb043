-- ===== src/Algebra.antt =====
-- What the program takes from arkworks, poseidon2 and blake3: prime fields, the prime-order group
-- of BabyJubJub, and hash functions.
pub mod Field
pub mod Suite
pub mod Five
pub mod Line
