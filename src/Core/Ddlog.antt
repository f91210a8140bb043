-- ===== src/Core/Ddlog.antt =====
-- oprf-core/src/ddlog_equality.rs and ddlog_equality/shamir.rs: the proof of `dlog_equality.rs`
-- made by many holders of a shared scalar. The wrappers of shamir.rs around the types of
-- ddlog_equality.rs are transparent and left out; random scalars are arguments.
pub mod Sums
pub mod Combine
pub mod Complete
pub mod Additive
use oprf_service.Base.{
  ℕ, List, [], ◌∷◌, ◌++◌, map, Option, some, none, codes, u16_to_le_bytes, length, sort_unstable,
  dedup, ◌==◌, if◌then◌else◌,
}
use oprf_service.Algebra.Field.{Field}
use oprf_service.Algebra.Suite.{Suite}
use oprf_service.Core.Shamir.{◌>>=◌, lagrange_from_coeff}
use oprf_service.Core.Dlog.{DLogEqualityProof, challenge_hash, convert_base_to_scalar}

pub record PartialDLogEqualityCommitments (Affine : Type 0) : Type 0 where
  pub c : Affine
  pub d1 : Affine
  pub d2 : Affine
  pub e1 : Affine
  pub e2 : Affine

pub record DLogEqualityCommitments (Affine : Type 0) : Type 0 where
  pub c : Affine
  pub d1 : Affine
  pub d2 : Affine
  pub e1 : Affine
  pub e2 : Affine
  pub contributing_parties : List ℕ

pub record DLogEqualitySession (Fr Affine : Type 0) : Type 0 where
  pub d : Fr
  pub e : Fr
  pub blinded_query : Affine

-- A `Uuid` is its bytes.
pub record CombineTwoNonceRandomnessArgs (Affine : Type 0) : Type 0 where
  pub session_id : List ℕ
  pub public_key : Affine
  pub oprf_output : Affine
  pub d1 : Affine
  pub d2 : Affine
  pub e1 : Affine
  pub e2 : Affine
  pub parties : List ℕ

-- The updates that the hasher gets for the parties, in a row.
unfoldable pub party_bytes : List ℕ → List ℕ
party_bytes [] = []
party_bytes (party ∷ parties) = u16_to_le_bytes party ++ party_bytes parties

module _ {Fr Fq Affine : Type 0} ⦃S : Field Fr⦄ ⦃B : Field Fq⦄ (C : Suite Fr Fq Affine S) where
  open C use {
    generator, identity, ◌⊕◌, scale, msm, blake3_xof, serialize_compressed,
    scalar_from_le_bytes_mod_order,
  }

  infixl 65 ◌⊕◌
  unfoldable pub partial_commitments :
      Affine → Fr → Fr → Fr → DLogEqualitySession Fr Affine × PartialDLogEqualityCommitments Affine
  partial_commitments b x_share d_share e_share =
      let comm : PartialDLogEqualityCommitments Affine = record {
        c = scale b x_share;
        d1 = scale generator d_share;
        d2 = scale b d_share;
        e1 = scale generator e_share;
        e2 = scale b e_share;
      } in
      (record { d = d_share; e = e_share; blinded_query = b }, comm)

  -- All that the hasher of `combine_two_nonce_randomness` is fed.
  unfoldable pub nonce_combiner_input : CombineTwoNonceRandomnessArgs Affine → List ℕ
  unfolding party_bytes
  nonce_combiner_input args =
      codes "FROST_2_NONCE_COMBINER"
      ++ (args.session_id
          ++ (party_bytes args.parties
              ++ (serialize_compressed args.public_key
                  ++ (serialize_compressed args.oprf_output
                      ++ (serialize_compressed args.d1
                          ++ (serialize_compressed args.d2
                              ++ (serialize_compressed args.e1
                                  ++ serialize_compressed args.e2)))))))

  unfoldable pub combine_two_nonce_randomness :
      CombineTwoNonceRandomnessArgs Affine → Affine × Affine × Fr
  unfolding nonce_combiner_input
  combine_two_nonce_randomness args =
      let b = scalar_from_le_bytes_mod_order (blake3_xof (nonce_combiner_input args) 64) in
      (args.d1 ⊕ scale args.e1 b, args.d2 ⊕ scale args.e2 b, b)

  -- The arguments that `combine_proofs` and `challenge` both build.
  unfoldable pub nonce_args :
      DLogEqualityCommitments Affine → List ℕ → Affine → CombineTwoNonceRandomnessArgs Affine
  nonce_args comm session_id a = record {
    session_id = session_id;
    public_key = a;
    oprf_output = comm.c;
    d1 = comm.d1;
    d2 = comm.d2;
    e1 = comm.e1;
    e2 = comm.e2;
    parties = comm.contributing_parties;
  }

  -- `s += proof.0` over the proof shares.
  unfoldable pub sum_shares : Fr → List Fr → Fr
  sum_shares s [] = s
  sum_shares s (share ∷ shares) = sum_shares (S.◌+◌ s share) shares

  unfoldable pub combine_proofs :
      DLogEqualityCommitments Affine → List ℕ → List Fr → Affine → Affine → DLogEqualityProof Fr Fq
  unfolding nonce_args sum_shares
  combine_proofs comm session_id proofs a b =
      let s = sum_shares S.zero proofs in
      let (r1, r2, _) = combine_two_nonce_randomness (nonce_args comm session_id a) in
      record { e = challenge_hash C a b comm.c generator r1 r2; s = s }

  -- The loop of `combine_commitments` over its four accumulators.
  unfoldable pub sum_commitments :
      Affine
      → Affine
      → Affine
      → Affine
      → List (PartialDLogEqualityCommitments Affine)
      → Affine × Affine × Affine × Affine
  sum_commitments d1 d2 e1 e2 [] = (d1, d2, e1, e2)
  sum_commitments d1 d2 e1 e2 (comm ∷ rest) =
      sum_commitments (d1 ⊕ comm.d1) (d2 ⊕ comm.d2) (e1 ⊕ comm.e1) (e2 ⊕ comm.e2) rest

  -- What `combine_commitments` makes after its assertions.
  unfoldable pub combine_checked :
      List (PartialDLogEqualityCommitments Affine)
      → List ℕ
      → Option (DLogEqualityCommitments Affine)
  unfolding sum_commitments
  combine_checked commitments contributing_parties = do
    lagrange ← lagrange_from_coeff contributing_parties
    let (d1, d2, e1, e2) = sum_commitments identity identity identity identity commitments
    some (record {
      c = msm (map (λ comm. comm.c) commitments) lagrange;
      d1 = d1;
      d2 = d2;
      e1 = e1;
      e2 = e2;
      contributing_parties = contributing_parties;
    })

  unfoldable pub combine_commitments :
      List (PartialDLogEqualityCommitments Affine)
      → List ℕ
      → Option (DLogEqualityCommitments Affine)
  unfolding combine_checked
  combine_commitments commitments contributing_parties =
      let contributing_parties_dedup = dedup (sort_unstable contributing_parties) in
      if length contributing_parties == length contributing_parties_dedup
      then (if length contributing_parties == length commitments
          then combine_checked commitments contributing_parties
          else none)
      else none

  -- The share of the response, for the session's own two nonces.
  unfoldable pub challenge :
      DLogEqualitySession Fr Affine
      → List ℕ
      → Fr
      → Affine
      → DLogEqualityCommitments Affine
      → Fr
      → Fr
  unfolding nonce_args
  challenge session session_id x_share a challenge_input lagrange_coefficient =
      let (r1, r2, b) = combine_two_nonce_randomness (nonce_args challenge_input session_id a) in
      let e = challenge_hash C a session.blinded_query challenge_input.c generator r1 r2 in
      let e_ = convert_base_to_scalar C e in
      S.◌+◌ (S.◌+◌ session.d (S.◌*◌ b session.e)) (S.◌*◌ (S.◌*◌ lagrange_coefficient e_) x_share)
