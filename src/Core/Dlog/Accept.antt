-- ===== src/Core/Dlog/Accept.antt =====
-- When `verify` accepts: the conditions of its branches, in both directions.
use oprf_service.Base.{◌≡◌, false, ok, arith, leb}
use oprf_service.Algebra.Field.{Field}
use oprf_service.Algebra.Suite.{Suite, IsPoint}
use oprf_service.Core.Dlog.{DLogEqualityProof, convert_base_to_scalar, challenge_hash, verify}

module _ {Fr Fq Affine : Type 0} ⦃S : Field Fr⦄ ⦃B : Field Fq⦄ (C : Suite Fr Fq Affine S) where
  open C use {scale, ◌⊖◌, is_zero}

  infixl 65 ◌⊖◌
  -- What the checks of `verify` ask for.
  pub record IsAccepted (p : DLogEqualityProof Fr Fq) (a b c d : Affine) : Type 0 where
    pub a_point : IsPoint C a
    pub b_point : IsPoint C b
    pub c_point : IsPoint C c
    pub d_point : IsPoint C d
    pub a_nonzero : is_zero a ≡ false
    pub b_nonzero : is_zero b ≡ false
    pub c_nonzero : is_zero c ≡ false
    pub d_nonzero : is_zero d ≡ false
    pub r_1_nonzero : is_zero (scale d p.s ⊖ scale a (convert_base_to_scalar C p.e)) ≡ false
    pub r_2_nonzero : is_zero (scale b p.s ⊖ scale c (convert_base_to_scalar C p.e)) ≡ false
    pub hashed :
        challenge_hash C a b c d
          (scale d p.s ⊖ scale a (convert_base_to_scalar C p.e))
          (scale b p.s ⊖ scale c (convert_base_to_scalar C p.e))
        ≡ p.e

  small : (a : Fr) → leb S.modulus (S.into_bigint a) ≡ false
  small a = ground (arith, S.into_bigint-lt a)

  pub verify-of_IsAccepted :
      (p : DLogEqualityProof Fr Fq) (a b c d : Affine)
      → IsAccepted p a b c d
      → verify C p a b c d ≡ ok tt
  unfolding verify
  verify-of_IsAccepted p a b c d h = ground (arith, small p.s)

  pub IsAccepted-of_verify :
      (p : DLogEqualityProof Fr Fq) (a b c d : Affine)
      → verify C p a b c d ≡ ok tt
      → IsAccepted p a b c d
  unfolding verify
  IsAccepted-of_verify p a b c d h = ground (arith, small p.s)
