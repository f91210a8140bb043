-- ===== src/Core/Oprf.antt =====
-- oprf-core/src/oprf.rs, oprf/client.rs and oprf/server.rs: a query blinded, answered and unblinded
-- with one key. The newtypes around points and scalars are left out; a panic is `none`; the random
-- scalar of the proof is an argument.
pub mod Blinding
use mathlib.Core.Logic.{ite}
use oprf_service.Base.{List, [], ◌∷◌, Option, none, some, Result, ok, err}
use oprf_service.Algebra.Field.{Field}
use oprf_service.Algebra.Suite.{Suite}
use oprf_service.Core.Shamir.{◌>>=◌}
use oprf_service.Core.Mappings.{Arithmetic, encode_to_curve}
use oprf_service.Core.Dlog.{DLogEqualityProof, InvalidProof, proof, verify}

pub data InvalidBlindingFactor : Type 0 where
  invalid_blinding_factor : InvalidBlindingFactor

module _ {Fr : Type 0} ⦃S : Field Fr⦄ where
  unfoldable pub from_scalar : Fr → Result InvalidBlindingFactor Fr
  from_scalar value = ite (S.discrete value S.zero) (err invalid_blinding_factor) (ok value)

  unfoldable pub prepare : Fr → Option Fr
  prepare beta = S.inverse beta

module _ {Fr Fq Affine : Type 0} ⦃S : Field Fr⦄ ⦃B : Field Fq⦄ (C : Suite Fr Fq Affine S)
    (A : Arithmetic Fq Affine) where
  open C use {generator, scale, x, y, permutation_t4}

  unfoldable pub unblind_response : Affine → Fr → Affine
  unblind_response response beta_inv = scale response beta_inv

  unfoldable pub blind_query : Fq → Fr → Option Affine
  blind_query query beta =
      ite (S.discrete beta S.zero) none
        (do encoded_input ← encode_to_curve C A query; some (scale encoded_input beta))

  unfoldable pub finalize_query : Fq → Affine → Fr → Fq → Fq
  unfolding unblind_response
  finalize_query query response beta_inv domain_separator =
      let unblinded_point = unblind_response response beta_inv in
      permutation_t4 (domain_separator ∷ query ∷ x unblinded_point ∷ y unblinded_point ∷ []) 1

  unfoldable pub finalize_query_and_verify_proof :
      Affine → Fq → Affine → DLogEqualityProof Fr Fq → Fr → Fq → Option (Result InvalidProof Fq)
  unfolding finalize_query
  finalize_query_and_verify_proof a query response proof beta_inv domain_separator = do
    encoded ← encode_to_curve C A query
    beta ← S.inverse beta_inv
    some (elim (verify C proof a (scale encoded beta) response generator) [
      | err e ↦ err e
      | ok _ ↦ ok (finalize_query query response beta_inv domain_separator)
    ])

  unfoldable pub public_key : Fr → Affine
  public_key key = scale generator key

  unfoldable pub answer_query : Fr → Affine → Affine
  answer_query key query = scale query key

  unfoldable pub answer_query_with_proof : Fr → Affine → Fr → Affine × DLogEqualityProof Fr Fq
  answer_query_with_proof key query k = (scale query key, proof C query key k)
