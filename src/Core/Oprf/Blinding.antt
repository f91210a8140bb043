-- ===== src/Core/Oprf/Blinding.antt =====
-- Blinding by a scalar is undone by its inverse, and shows nothing of the query.
use mathlib.Core.Logic.{if_neg}
use oprf_service.Base.{◌≡◌, refl, sym, ap, ◌∙◌, ◌≢◌, false, some, [], ◌∷◌, ok, subst, ◌≡⟨◌⟩◌, ◌∎}
use oprf_service.Algebra.Field.{
  Field, semiring, inv, inverse-inv, mul-inv, mul-ne-zero, mul-one, mul-zero, inv_unique,
}
use oprf_service.Algebra.Suite.{Suite, IsPoint, exp-ne-zero, scale-IsPoint, scale-is_zero}
use oprf_service.Core.Shamir.{◌>>=◌}
use oprf_service.Core.Mappings.{Arithmetic, encode_to_curve}
use oprf_service.Core.Dlog.{proof}
use oprf_service.Core.Dlog.Complete.{verify-proof}
use oprf_service.Core.Oprf.{
  prepare, unblind_response, blind_query, finalize_query, finalize_query_and_verify_proof,
  public_key, answer_query, answer_query_with_proof,
}

module _ {Fr Fq Affine : Type 0} ⦃S : Field Fr⦄ ⦃B : Field Fq⦄ (C : Suite Fr Fq Affine S)
    (A : Arithmetic Fq Affine) where
  open C use {generator, scale, is_zero, x, y, permutation_t4}
  open S use {zero, one, ◌*◌}

  infixl 70 ◌*◌
  scale_scale : (p : Affine) (a b : Fr) → IsPoint C p → scale (scale p a) b ≡ scale p (a * b)
  scale_scale p a b h =
      let (l, e) = C.scale-surjective p h.0 h.1 in
      rw (e, C.scale-scale l a, C.scale-scale (l * a) b, C.scale-scale l (a * b))
        (ap (scale generator) (S.mul_assoc l a b))

  scale_one : (p : Affine) → IsPoint C p → scale p one ≡ p
  scale_one p h =
      let (l, e) = C.scale-surjective p h.0 h.1 in
      subst (λ t. scale t one ≡ t) (sym e) (C.scale-scale l one ∙ ap (scale generator) (mul-one l))

  -- The blinding `b`, the key and the inverse of the blinding leave the key.
  pub unblind :
      (p : Affine) (b k : Fr)
      → IsPoint C p
      → b ≢ zero
      → scale (scale (scale p b) k) (inv b) ≡ scale p k
  unblind p b k h hb =
      scale_scale (scale p b) k (inv b) (scale-IsPoint C p b h)
      ∙ scale_scale p b (k * inv b) h
      ∙ ap (scale p) (
          b * (k * inv b)
          ≡⟨ (simp semiring) ⟩ k * (b * inv b)
          ≡⟨ ap (λ t. k * t) (mul-inv b hb) ∙ mul-one k ⟩ k ∎)

  inv-ne-zero : (b : Fr) → b ≢ zero → inv b ≢ zero
  inv-ne-zero b h e = S.one-ne-zero (sym (mul-inv b h) ∙ ap (λ t. b * t) e ∙ mul-zero b)

  inv-inv : (b : Fr) → b ≢ zero → inv (inv b) ≡ b
  inv-inv b h = inv_unique (inv b) b (inv-ne-zero b h) (S.mul_comm (inv b) b ∙ mul-inv b h)

  pub blind_query-scale :
      (query : Fq) (beta : Fr) (p : Affine)
      → encode_to_curve C A query ≡ some p
      → beta ≢ zero
      → blind_query C A query beta ≡ some (scale p beta)
  unfolding blind_query
  blind_query-scale query beta p e h = if_neg (S.discrete beta zero) h _ _ ∙ rw e refl

  -- Where the query encodes to a point of the subgroup, blinding it by a nonzero scalar, answering
  -- with a key and finalizing gives the hash of the query and of its encoding times the key,
  -- whatever the scalar.
  pub finalize_query-answer_query :
      (query domain_separator : Fq) (beta key : Fr) (p : Affine)
      → encode_to_curve C A query ≡ some p
      → IsPoint C p
      → beta ≢ zero
      → (do
        request ← blind_query C A query beta
        beta_inv ← prepare beta
        some (finalize_query C A query (answer_query C A key request) beta_inv domain_separator))
        ≡ some
            (permutation_t4 (domain_separator ∷ query ∷ x (scale p key) ∷ y (scale p key) ∷ []) 1)
  unfolding finalize_query answer_query unblind_response prepare
  finalize_query-answer_query query domain_separator beta key p e h hb =
      rw (blind_query-scale query beta p e hb, inverse-inv beta hb)
        (ap (λ t. some (permutation_t4 (domain_separator ∷ query ∷ x t ∷ y t ∷ []) 1))
          (unblind p beta key h hb))

  -- When the encoding is not the identity and the key and the nonce of the proof are not zero, the
  -- client accepts the server's proof and gets the same hash.
  pub finalize_query_and_verify_proof-answer :
      (query domain_separator : Fq) (beta key k : Fr) (p : Affine)
      → encode_to_curve C A query ≡ some p
      → IsPoint C p
      → is_zero p ≡ false
      → beta ≢ zero
      → key ≢ zero
      → k ≢ zero
      → (do
        request ← blind_query C A query beta
        beta_inv ← prepare beta
        let (response, proof) = answer_query_with_proof C A key request k
        finalize_query_and_verify_proof C A
            (public_key C A key)
            query
            response
            proof
            beta_inv
            domain_separator)
        ≡ some (
            ok (
              permutation_t4 (domain_separator ∷ query ∷ x (scale p key) ∷ y (scale p key) ∷ []) 1))
  unfolding finalize_query answer_query_with_proof unblind_response prepare
      finalize_query_and_verify_proof public_key
  finalize_query_and_verify_proof-answer query domain_separator beta key k p e h nz hb hk hn =
      rw
        (
          blind_query-scale query beta p e hb,
          inverse-inv beta hb,
          e,
          inverse-inv (inv beta) (inv-ne-zero beta hb),
          inv-inv beta hb,
          verify-proof C (scale p beta) key k (scale-IsPoint C p beta h)
              (scale-is_zero C p beta h nz hb) hk hn,
        )
        (ap (λ t. some (ok (permutation_t4 (domain_separator ∷ query ∷ x t ∷ y t ∷ []) 1)))
          (unblind p beta key h hb))

  shift : (l l' b : Fr) → l' ≢ zero → l' * (l * b * inv l') ≡ l * b
  shift l l' b h =
      l' * (l * b * inv l')
      ≡⟨ (simp semiring) ⟩ l * b * (l' * inv l')
      ≡⟨ ap (λ t. l * b * t) (mul-inv l' h) ∙ mul-one (l * b) ⟩ l * b ∎

  rescale_exp :
      (p p' : Affine) (l l' b : Fr)
      → p ≡ scale generator l
      → p' ≡ scale generator l'
      → l ≢ zero
      → l' ≢ zero
      → b ≢ zero
      → (b' : Fr) × (b' ≢ zero) × (scale p' b' ≡ scale p b)
  rescale_exp p p' l l' b e e' h h' hb = (
    l * b * inv l',
    mul-ne-zero (l * b) (inv l') (mul-ne-zero l b h hb) (inv-ne-zero l' h'),
    ap (λ t. scale t (l * b * inv l')) e'
        ∙ C.scale-scale l' (l * b * inv l')
        ∙ ap (scale generator) (shift l l' b h')
        ∙ sym (ap (λ t. scale t b) e ∙ C.scale-scale l b),
  )

  rescale :
      (p p' : Affine) (b : Fr)
      → IsPoint C p
      → IsPoint C p'
      → is_zero p ≡ false
      → is_zero p' ≡ false
      → b ≢ zero
      → (b' : Fr) × (b' ≢ zero) × (scale p' b' ≡ scale p b)
  rescale p p' b h h' nz nz' hb =
      let (l, e) = C.scale-surjective p h.0 h.1 in
      let (l', e') = C.scale-surjective p' h'.0 h'.1 in
      rescale_exp p p' l l' b e e' (exp-ne-zero C l (subst (λ t. is_zero t ≡ false) e nz))
        (exp-ne-zero C l' (subst (λ t. is_zero t ≡ false) e' nz')) hb

  -- A blinded query of one query is a blinded query of every other: whatever nonzero scalar blinds
  -- the first, there is a nonzero scalar that blinds the second to the same point.
  pub blind_query-hides :
      (query query' : Fq) (p p' : Affine) (beta : Fr)
      → encode_to_curve C A query ≡ some p
      → encode_to_curve C A query' ≡ some p'
      → IsPoint C p
      → IsPoint C p'
      → is_zero p ≡ false
      → is_zero p' ≡ false
      → beta ≢ zero
      → (beta' : Fr) × (beta' ≢ zero) × (blind_query C A query' beta' ≡ blind_query C A query beta)
  blind_query-hides query query' p p' beta e e' h h' nz nz' hb =
      let (beta', hb', q) = rescale p p' beta h h' nz nz' hb in
      (
        beta',
        hb',
        blind_query-scale query' beta' p' e' hb'
            ∙ ap some q
            ∙ sym (blind_query-scale query beta p e hb),
      )
