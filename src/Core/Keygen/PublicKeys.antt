-- ===== src/Core/Keygen/PublicKeys.antt =====
-- The public keys of the parties, put together with Lagrange coefficients.
use oprf_service.Base.{
  ℕ, ◌≤◌, ◌≡◌, refl, sym, ap, ap₂, ◌∙◌, List, [], ◌∷◌, ◌++◌, map, some, length, length-map, leb,
  Bool-cases, inl, inr, arith,
}
use oprf_service.Algebra.Field.{Field}
use oprf_service.Algebra.Suite.{Suite}
use oprf_service.Core.Shamir.{◌>>=◌, lagrange_from_coeff}
use oprf_service.Core.Shamir.Poly.{eval, eval-zero}
use oprf_service.Core.Shamir.Coeff.{points, coef, coefs, lagrange_from_coeff-coefs}
use oprf_service.Core.Shamir.Interpolation.{weigh, weigh-eval}
use oprf_service.Core.Shamir.Sharing.{AreIds, points-Distinct}
use oprf_service.Core.Keygen.{slice_to, accumulate_lagrange_pks}

slice_to_prefix : {A : Type 0} (xs extra : List A) → slice_to (xs ++ extra) (length xs) ≡ xs
unfolding slice_to
slice_to_prefix [] [] = refl
slice_to_prefix [] (x ∷ extra) = refl
slice_to_prefix (x ∷ xs) extra = ap (λ l. x ∷ l) (slice_to_prefix xs extra)

enough : {A : Type 0} (xs extra : List A) → length xs ≤ length (xs ++ extra)
enough [] extra = omega arith
enough (x ∷ xs) extra = let h = enough xs extra in omega arith

module _ {Fr Fq Affine : Type 0} ⦃S : Field Fr⦄ ⦃B : Field Fq⦄ (C : Suite Fr Fq Affine S) where
  open C use {generator, scale, msm, ◌⊕◌}
  open S use {of_ℕ}

  -- The public keys of the shares of a polynomial.
  abbrev pub share_pks : List Fr → List ℕ → List Affine
  share_pks poly ids = map (λ i. scale generator (eval poly (of_ℕ i))) ids

  msm-weigh :
      (f : Fr → Fr) (all ids : List ℕ)
      → msm (map (λ i. scale generator (f (of_ℕ i))) ids) (coefs all ids)
        ≡ scale generator (weigh f (points all) (points ids))
  unfolding weigh
  msm-weigh f all [] = C.msm-nil [] ∙ sym C.scale-zero
  msm-weigh f all (i ∷ ids) =
      C.msm-cons _ _ _ _
      ∙ ap₂ (λ p q. p ⊕ q) (C.scale-scale (f (of_ℕ i)) (coef (of_ℕ i) (points all)))
          (msm-weigh f all ids)
      ∙ C.scale-⊕ _ _

  accumulate_lagrange_pks-prefix :
      (pks extra : List Affine) (lagrange : List Fr)
      → length lagrange ≡ length pks
      → accumulate_lagrange_pks C (pks ++ extra) lagrange ≡ some (msm pks lagrange)
  unfolding accumulate_lagrange_pks
  accumulate_lagrange_pks-prefix pks extra lagrange e =
      let h = enough pks extra in
      rw (e, slice_to_prefix pks extra)
        (elim (Bool-cases (leb (length pks) (length (pks ++ extra)))) [
          | inl q ↦ rw q refl
          | inr q ↦ absurd (grind arith)
        ])

  -- Parties with distinct ids below the modulus hold shares of a secret, at least as many as the
  -- polynomial has coefficients. Their public keys, with others behind them, give the public key of
  -- the secret, and no step panics.
  pub accumulate_lagrange_pks-public :
      (secret : Fr) (cs : List Fr) (ids : List ℕ) (extra : List Affine)
      → AreIds S.modulus ids
      → length (secret ∷ cs) ≤ length ids
      → (do
        lagrange ← lagrange_from_coeff ids
        accumulate_lagrange_pks C (share_pks (secret ∷ cs) ids ++ extra) lagrange)
        ≡ some (scale generator secret)
  accumulate_lagrange_pks-public secret cs ids extra h l = rw (lagrange_from_coeff-coefs ids h.1) (
      accumulate_lagrange_pks-prefix (share_pks (secret ∷ cs) ids) extra (coefs ids ids) (
        length-map (λ i. coef (of_ℕ i) (points ids)) ids
        ∙ sym (length-map (λ i. scale generator (eval (secret ∷ cs) (of_ℕ i))) ids))
      ∙ ap some (
          msm-weigh (eval (secret ∷ cs)) ids ids
          ∙ ap (scale generator) (
              weigh-eval (points ids) (secret ∷ cs) (points-Distinct S ids h)
                (rw (length-map of_ℕ ids) l)
              ∙ eval-zero secret cs)))
