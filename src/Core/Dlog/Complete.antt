-- ===== src/Core/Dlog/Complete.antt =====
-- Honest proofs are accepted: the response of a nonce `k` to its own challenge.
use oprf_service.Base.{◌≡◌, refl, sym, ap, ◌∙◌, ◌≢◌, false, ok}
use oprf_service.Algebra.Field.{Field, semiring, add-sub_cancel}
use oprf_service.Algebra.Suite.{
  Suite, IsPoint, generator-IsPoint, generator-is_zero, scale-IsPoint, scale-is_zero,
}
use oprf_service.Core.Dlog.{
  DLogEqualityProof, convert_base_to_scalar, challenge_hash, proof, verify,
}
use oprf_service.Core.Dlog.Accept.{verify-of_IsAccepted}

module _ {Fr Fq Affine : Type 0} ⦃S : Field Fr⦄ ⦃B : Field Fq⦄ (C : Suite Fr Fq Affine S) where
  open C use {generator, scale, ◌⊖◌, is_zero}
  open S use {zero, one, ◌+◌, ◌-◌, ◌*◌}

  infixl 65 ◌⊖◌ ◌+◌ ◌-◌
  infixl 70 ◌*◌
  response_log : (b k e sk : Fr) → b * (k + e * sk) - b * sk * e ≡ b * k
  response_log b k e sk =
      ap (λ t. t - b * sk * e) (simp semiring) ∙ add-sub_cancel (b * k) (b * sk * e)

  -- The commitment that a verifier computes is the one that the prover made.
  pub response :
      (p : Affine) (k e sk : Fr)
      → IsPoint C p
      → scale p (k + e * sk) ⊖ scale (scale p sk) e ≡ scale p k
  response p k e sk h =
      let (b, q) = C.scale-surjective p h.0 h.1 in
      rw (q, C.scale-scale b, C.scale-scale b, C.scale-scale (b * sk), C.scale-⊖)
        (ap (scale generator) (response_log b k e sk) ∙ sym (C.scale-scale b k))

  -- Whoever answers the challenge of `k` with `k + e x` is accepted.
  pub verify_of_response :
      (b : Affine) (sk k : Fr) (p : DLogEqualityProof Fr Fq)
      → IsPoint C b
      → is_zero b ≡ false
      → sk ≢ zero
      → k ≢ zero
      → p.e
        ≡ challenge_hash C
            (scale generator sk)
            b
            (scale b sk)
            generator
            (scale generator k)
            (scale b k)
      → p.s ≡ k + convert_base_to_scalar C p.e * sk
      → verify C p (scale generator sk) b (scale b sk) generator ≡ ok tt
  verify_of_response b sk k p hb nb hx hk he hs =
      let e = convert_base_to_scalar C p.e in
      let r_1 : scale generator p.s ⊖ scale (scale generator sk) e ≡ scale generator k =
        ap (λ t. scale generator t ⊖ scale (scale generator sk) e) hs
        ∙ response generator k e sk (generator-IsPoint C) in
      let r_2 : scale b p.s ⊖ scale (scale b sk) e ≡ scale b k =
        ap (λ t. scale b t ⊖ scale (scale b sk) e) hs ∙ response b k e sk hb in
      verify-of_IsAccepted C p _ b _ generator (record {
        a_point = scale-IsPoint C generator sk (generator-IsPoint C);
        b_point = hb;
        c_point = scale-IsPoint C b sk hb;
        d_point = (generator-IsPoint C);
        a_nonzero = scale-is_zero C generator sk (generator-IsPoint C) (generator-is_zero C) hx;
        b_nonzero = nb;
        c_nonzero = scale-is_zero C b sk hb nb hx;
        d_nonzero = (generator-is_zero C);
        r_1_nonzero =
            rw r_1 (scale-is_zero C generator k (generator-IsPoint C) (generator-is_zero C) hk);
        r_2_nonzero = rw r_2 (scale-is_zero C b k hb nb hk);
        hashed = rw (r_1, r_2) (sym he);
      })

  -- For a point `b` of the subgroup other than the identity, a nonzero secret and a nonzero
  -- nonce, `verify` accepts what `proof` makes.
  pub verify-proof :
      (b : Affine) (sk k : Fr)
      → IsPoint C b
      → is_zero b ≡ false
      → sk ≢ zero
      → k ≢ zero
      → verify C (proof C b sk k) (scale generator sk) b (scale b sk) generator ≡ ok tt
  unfolding proof
  verify-proof b sk k hb nb hx hk = verify_of_response b sk k (proof C b sk k) hb nb hx hk refl refl
