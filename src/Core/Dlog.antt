-- ===== src/Core/Dlog.antt =====
-- oprf-core/src/dlog_equality.rs: Chaum-Pedersen proofs that two points have one logarithm.
-- The random scalar that `proof` draws is its argument.
pub mod Accept
pub mod Complete
pub mod Sound
use oprf_service.Base.{
  ℕ, List, [], ◌∷◌, Bool, true, false, ◌||◌, not, Result, ok, err, codes, if◌then◌else◌, leb,
}
use oprf_service.Algebra.Field.{Field}
use oprf_service.Algebra.Suite.{Suite}

pub record DLogEqualityProof (Fr Fq : Type 0) : Type 0 where
  pub e : Fq
  pub s : Fr

pub data InvalidProof : Type 0 where
  invalid_proof : InvalidProof

abbrev pub any {ℓ} : {A : Type ℓ} → (A → Bool) → List A → Bool
any p [] = false
any p (a ∷ rest) = p a || any p rest

module _ {Fr Fq Affine : Type 0} ⦃S : Field Fr⦄ ⦃B : Field Fq⦄ (C : Suite Fr Fq Affine S) where
  open C use {
    generator, scale, ◌⊖◌, x, y, is_zero, is_on_curve, is_in_subgroup, permutation_t16, to_bytes_le,
    base_from_be_bytes_mod_order, scalar_from_le_bytes_mod_order,
  }

  infixl 65 ◌⊖◌
  unfoldable pub get_dlog_ds : Fq
  get_dlog_ds = base_from_be_bytes_mod_order (codes "DLOG Equality Proof")

  unfoldable pub challenge_hash : Affine → Affine → Affine → Affine → Affine → Affine → Fq
  unfolding get_dlog_ds
  challenge_hash a b c d r1 r2 =
      permutation_t16
        (get_dlog_ds
          ∷ x a
          ∷ y a
          ∷ x b
          ∷ y b
          ∷ x c
          ∷ y c
          ∷ x d
          ∷ y d
          ∷ x r1
          ∷ y r1
          ∷ x r2
          ∷ y r2
          ∷ B.zero
          ∷ B.zero
          ∷ B.zero
          ∷ [])
        1

  unfoldable pub convert_base_to_scalar : Fq → Fr
  convert_base_to_scalar f = scalar_from_le_bytes_mod_order (to_bytes_le f)

  unfoldable pub proof : Affine → Fr → Fr → DLogEqualityProof Fr Fq
  proof b sk k =
      let r1 = scale generator k in
      let r2 = scale b k in
      let a = scale generator sk in
      let c = scale b sk in
      let e = challenge_hash a b c generator r1 r2 in
      record { e = e; s = S.◌+◌ k (S.◌*◌ (convert_base_to_scalar e) sk) }

  unfoldable pub verify :
      DLogEqualityProof Fr Fq → Affine → Affine → Affine → Affine → Result InvalidProof (Unit {0})
  verify proof a b c d =
      let points = a ∷ b ∷ c ∷ d ∷ [] in
      let e = convert_base_to_scalar proof.e in
      let r_1 = scale d proof.s ⊖ scale a e in
      let r_2 = scale b proof.s ⊖ scale c e in
      if any (λ p. not (is_on_curve p) || not (is_in_subgroup p)) points
      then err invalid_proof
      else if any is_zero points
      then err invalid_proof
      else if leb S.modulus (S.into_bigint proof.s)
      then err invalid_proof
      else if is_zero r_1
      then err invalid_proof
      else if is_zero r_2
      then err invalid_proof
      else elim (B.discrete (challenge_hash a b c d r_1 r_2) proof.e) [
        | yes _ ↦ ok tt
        | no _ ↦ err invalid_proof
      ]
