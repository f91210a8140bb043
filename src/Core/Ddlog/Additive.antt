-- ===== src/Core/Ddlog/Additive.antt =====
-- oprf-core/src/ddlog_equality/additive.rs: the distributed proof where the shares add up to the
-- secret. The wrappers around the types of ddlog_equality.rs are transparent and left out, and so are
-- the calls that it passes on to that file.
pub mod Sums
pub mod Complete
use oprf_service.Base.{ℕ, List, [], ◌∷◌, ◌++◌}
use oprf_service.Algebra.Field.{Field}
use oprf_service.Algebra.Suite.{Suite}
use oprf_service.Core.Dlog.{challenge_hash, convert_base_to_scalar}
use oprf_service.Core.Ddlog.{
  PartialDLogEqualityCommitments, DLogEqualityCommitments, DLogEqualitySession,
  combine_two_nonce_randomness, nonce_args,
}

module _ {Fr Fq Affine : Type 0} ⦃S : Field Fr⦄ ⦃B : Field Fq⦄ (C : Suite Fr Fq Affine S) where
  open C use {generator, identity, ◌⊕◌}

  infixl 65 ◌⊕◌
  -- The loop over the accumulators.
  unfoldable pub add_commitments :
      DLogEqualityCommitments Affine
      → List (ℕ × PartialDLogEqualityCommitments Affine)
      → DLogEqualityCommitments Affine
  add_commitments acc [] = acc
  add_commitments acc ((party_id, comm) ∷ commitments) =
      add_commitments
        (record {
          c = acc.c ⊕ comm.c;
          d1 = acc.d1 ⊕ comm.d1;
          d2 = acc.d2 ⊕ comm.d2;
          e1 = acc.e1 ⊕ comm.e1;
          e2 = acc.e2 ⊕ comm.e2;
          contributing_parties = acc.contributing_parties ++ party_id ∷ [];
        })
        commitments

  unfoldable pub combine_commitments :
      List (ℕ × PartialDLogEqualityCommitments Affine) → DLogEqualityCommitments Affine
  unfolding add_commitments
  combine_commitments commitments =
      add_commitments
        (record {
          c = identity;
          d1 = identity;
          d2 = identity;
          e1 = identity;
          e2 = identity;
          contributing_parties = [];
        })
        commitments

  unfoldable pub challenge :
      DLogEqualitySession Fr Affine → List ℕ → Fr → Affine → DLogEqualityCommitments Affine → Fr
  challenge session session_id x_share a challenge_input =
      let (r1, r2, b) =
        combine_two_nonce_randomness C (nonce_args C challenge_input session_id a) in
      let e = challenge_hash C a session.blinded_query challenge_input.c generator r1 r2 in
      let e_ = convert_base_to_scalar C e in
      S.◌+◌ (S.◌+◌ session.d (S.◌*◌ b session.e)) (S.◌*◌ e_ x_share)
