-- ===== src/Core/Shamir/Sharing.antt =====
-- Shares made by `evaluate_poly` and put together by `lagrange_from_coeff` and `reconstruct`.
use oprf_service.Base.{
  Distinct, ℕ, ◌≤◌, ◌<◌, ◌≡◌, refl, sym, ap, ◌∙◌, ◌≢◌, List, [], ◌∷◌, map, Option, some, length,
  length-map, All, ==_refl,
}
use oprf_service.Algebra.Field.{Field, of_ℕ-injective, add_assoc, add-zero, zero-add}
use oprf_service.Core.Shamir.{◌>>=◌, evaluate_poly, lagrange_from_coeff, dot, reconstruct}
use oprf_service.Core.Shamir.Poly.{eval, eval-zero, evaluate_poly-eval}
use oprf_service.Core.Shamir.Coeff.{coef, points, coefs, lagrange_from_coeff-coefs}
use oprf_service.Core.Shamir.Interpolation.{weigh, weigh-eval}

-- Ids that name different points of a field with that modulus.
abbrev pub AreIds : ℕ → List ℕ → Type 0
AreIds modulus ids = Distinct ids × All (λ i. i < modulus) ids

module _ {F : Type 0} (K : Field F) where
  open K use {of_ℕ}

  point-ne :
      (i : ℕ) (ids : List ℕ)
      → i < K.modulus
      → All (λ j. j < K.modulus) ids
      → All (λ j. i ≢ j) ids
      → All (λ y. of_ℕ i ≢ y) (points ⦃K = K⦄ ids)
  point-ne i [] hi hs h = tt
  point-ne i (j ∷ ids) hi (hj, hs) (ij, h) =
      ((λ e. ij (of_ℕ-injective ⦃K = K⦄ i j hi hj e)), point-ne i ids hi hs h)

  pub points-Distinct : (ids : List ℕ) → AreIds K.modulus ids → Distinct (points ⦃K = K⦄ ids)
  points-Distinct [] h = tt
  points-Distinct (i ∷ ids) ((apart, rest), (hi, hs)) =
      (point-ne i ids hi hs apart, points-Distinct ids (rest, hs))

module _ {F : Type 0} ⦃K : Field F⦄ where
  open K use {zero, one, ◌+◌, ◌*◌, of_ℕ}

  infixl 65 ◌+◌
  infixl 70 ◌*◌
  -- The values of `f` at the points of the ids.
  abbrev pub values : (F → F) → List ℕ → List F
  values f ids = map (λ i. f (of_ℕ i)) ids

  pub dot-weigh :
      (f : F → F) (res : F) (all ids : List ℕ)
      → dot res (values f ids) (coefs all ids) ≡ res + weigh f (points all) (points ids)
  unfolding dot weigh
  dot-weigh f res all [] = sym (add-zero res)
  dot-weigh f res all (i ∷ ids) =
      dot-weigh f (res + f (of_ℕ i) * coef (of_ℕ i) (points all)) all ids ∙ add_assoc res _ _

  -- Each party's share of a polynomial.
  unfoldable pub evaluate_each : List F → List ℕ → Option (List F)
  evaluate_each poly [] = some []
  evaluate_each poly (i ∷ ids) = do
    share ← evaluate_poly poly (of_ℕ i)
    rest ← evaluate_each poly ids
    some (share ∷ rest)

  pub evaluate_each-values :
      (c : F) (cs : List F) (ids : List ℕ)
      → evaluate_each (c ∷ cs) ids ≡ some (values (eval (c ∷ cs)) ids)
  unfolding evaluate_each
  evaluate_each-values c cs [] = refl
  evaluate_each-values c cs (i ∷ ids) =
      rw (evaluate_poly-eval c cs (of_ℕ i), evaluate_each-values c cs ids)

  pub reconstruct-values :
      (f : F → F) (ids : List ℕ)
      → reconstruct (values f ids) (coefs ids ids) ≡ some (weigh f (points ids) (points ids))
  unfolding reconstruct
  reconstruct-values f ids =
      rw
        (
          length-map (λ i. f (of_ℕ i)) ids,
          length-map (λ i. coef (of_ℕ i) (points ids)) ids,
          ==_refl (length ids),
        )
        (ap some (dot-weigh f zero ids ids ∙ zero-add _))

  -- Any set of distinct ids below the modulus, at least as many as the polynomial has
  -- coefficients, gives the constant coefficient back, and no step panics.
  pub reconstruct-evaluate :
      (c : F) (cs : List F) (ids : List ℕ)
      → AreIds K.modulus ids
      → length (c ∷ cs) ≤ length ids
      → (do
        shares ← evaluate_each (c ∷ cs) ids
        lagrange ← lagrange_from_coeff ids
        reconstruct shares lagrange)
        ≡ some c
  reconstruct-evaluate c cs ids h l =
      rw (evaluate_each-values c cs ids, lagrange_from_coeff-coefs ids h.1)
        (reconstruct-values (eval (c ∷ cs)) ids
          ∙ ap some (
              weigh-eval (points ids) (c ∷ cs) (points-Distinct K ids h)
                (rw (length-map of_ℕ ids) l)
              ∙ eval-zero c cs))
