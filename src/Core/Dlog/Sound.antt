-- ===== src/Core/Dlog/Sound.antt =====
-- An accepted proof of two points with different logarithms has met the one challenge that answers it.
use oprf_service.Base.{◌≡◌, sym, ap, ap₂, ◌∙◌, ◌≢◌, ok, ◌≡⟨◌⟩◌, ◌∎}
use oprf_service.Algebra.Field.{
  Field, semiring, inv, mul-inv, sub-ne-zero, add-sub, add_left_cancel, mul-one,
}
use oprf_service.Algebra.Suite.{Suite, IsPoint}
use oprf_service.Core.Dlog.{DLogEqualityProof, convert_base_to_scalar, challenge_hash, verify}
use oprf_service.Core.Dlog.Accept.{IsAccepted-of_verify}

module _ {Fr : Type 0} ⦃S : Field Fr⦄ where
  open S use {◌+◌, ◌-◌, ◌*◌}

  infixl 65 ◌+◌ ◌-◌
  infixl 70 ◌*◌
  -- The one challenge that can be answered for commitments with the logarithms `k1` and `k2`, to points
  -- with the different logarithms `x` and `y`.
  unfoldable pub answerable : Fr → Fr → Fr → Fr → Fr
  answerable x y k1 k2 = (k1 - k2) * inv (y - x)

  cross : (x y k1 k2 e : Fr) → k1 + x * e ≡ k2 + y * e → k1 - k2 ≡ (y - x) * e
  cross x y k1 k2 e h = add_left_cancel (k1 - k2) ((y - x) * e) (k2 + x * e) (
      k2 + x * e + (k1 - k2)
      ≡⟨ (simp semiring) ⟩ k2 + (k1 - k2) + x * e
      ≡⟨ ap (λ t. t + x * e) (add-sub k1 k2) ⟩ k1 + x * e
      ≡⟨ h ⟩ k2 + y * e
      ≡⟨ ap (λ t. k2 + t * e) (sym (add-sub y x)) ⟩ k2 + (x + (y - x)) * e
      ≡⟨ (simp semiring) ⟩ k2 + x * e + (y - x) * e ∎)

  answerable_lem : (x y k1 k2 e : Fr) → x ≢ y → k1 + x * e ≡ k2 + y * e → answerable x y k1 k2 ≡ e
  unfolding answerable
  answerable_lem x y k1 k2 e ne h =
      (k1 - k2) * inv (y - x)
      ≡⟨ ap (λ t. t * inv (y - x)) (cross x y k1 k2 e h) ⟩ (y - x) * e * inv (y - x)
      ≡⟨ (simp semiring) ⟩ e * ((y - x) * inv (y - x))
      ≡⟨ ap (λ t. e * t) (mul-inv (y - x) (sub-ne-zero y x (λ q. ne (sym q)))) ∙ mul-one e ⟩ e ∎

module _ {Fr Fq Affine : Type 0} ⦃S : Field Fr⦄ ⦃B : Field Fq⦄ (C : Suite Fr Fq Affine S) where
  open C use {generator, scale, ◌⊖◌}
  open S use {◌+◌, ◌-◌, ◌*◌}

  infixl 65 ◌⊖◌ ◌+◌ ◌-◌
  infixl 70 ◌*◌
  sub_at : (q x s e : Fr) → q * s - q * x * e ≡ q * (s - x * e)
  sub_at q x s e = add_left_cancel (q * s - q * x * e) (q * (s - x * e)) (q * x * e) (
      q * x * e + (q * s - q * x * e)
      ≡⟨ add-sub (q * s) (q * x * e) ⟩ q * s
      ≡⟨ ap (λ t. q * t) (sym (add-sub s (x * e))) ⟩ q * (x * e + (s - x * e))
      ≡⟨ (simp semiring) ⟩ q * x * e + q * (s - x * e) ∎)

  -- The commitment that the verifier computes.
  recomputed :
      (p q : Affine) (x s e : Fr)
      → IsPoint C q
      → p ≡ scale q x
      → scale q s ⊖ scale p e ≡ scale q (s - x * e)
  recomputed p q x s e h w =
      let (d, r) = C.scale-surjective q h.0 h.1 in
      rw (w, r)
        (ap₂ ◌⊖◌ (C.scale-scale d s)
            (ap (λ t. scale t e) (C.scale-scale d x) ∙ C.scale-scale (d * x) e)
          ∙ C.scale-⊖ (d * s) (d * x * e)
          ∙ ap (scale generator) (sub_at d x s e)
          ∙ sym (C.scale-scale d (s - x * e)))

  -- If `verify` accepts a proof that `a` and `c` have one logarithm, to the bases `d` and `b`, though
  -- they have the different logarithms `x` and `y`, then the proof's challenge is the hash of the
  -- points and of two commitments, and that hash is, as a scalar, the one value that can be answered
  -- for them, which the logarithms determine.
  pub verify-answerable :
      (p : DLogEqualityProof Fr Fq) (a b c d : Affine) (x y : Fr)
      → verify C p a b c d ≡ ok tt
      → a ≡ scale d x
      → c ≡ scale b y
      → x ≢ y
      → (k1 k2 : Fr) × (p.e ≡ challenge_hash C a b c d (scale d k1) (scale b k2))
        × (convert_base_to_scalar C (challenge_hash C a b c d (scale d k1) (scale b k2))
            ≡ answerable x y k1 k2)
  verify-answerable p a b c d x y hp ha hc ne =
      let v = IsAccepted-of_verify C p a b c d hp in
      let e = convert_base_to_scalar C p.e in
      let hashed : p.e ≡ challenge_hash C a b c d (scale d (p.s - x * e)) (scale b (p.s - y * e)) =
        sym v.hashed
        ∙ ap₂ (challenge_hash C a b c d) (recomputed a d x p.s e v.d_point ha)
            (recomputed c b y p.s e v.b_point hc) in
      (
        p.s - x * e,
        p.s - y * e,
        hashed,
        ap (convert_base_to_scalar C) (sym hashed)
            ∙ sym (
                answerable_lem x y (p.s - x * e) (p.s - y * e) e ne
                  (S.sub-add_cancel p.s (x * e) ∙ sym (S.sub-add_cancel p.s (y * e)))),
      )
