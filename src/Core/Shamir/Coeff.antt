-- ===== src/Core/Shamir/Coeff.antt =====
-- The coefficient that `single_lagrange_from_coeff` computes, as a product over the other points.
use mathlib.Core.Logic.{ite, if_pos, if_neg}
use oprf_service.Base.{
  ℕ, ◌<◌, ◌≡◌, refl, sym, ap, ◌∙◌, ◌≢◌, List, [], ◌∷◌, map, some, All, Bool-cases, ==_iff, ◌==◌,
  inl, inr, false,
}
use oprf_service.Algebra.Field.{
  Field, semiring, inv, inverse-inv, inv-mul, inv-one, mul-ne-zero, sub-ne-zero, of_ℕ-injective,
  one-mul, mul_left_comm,
}
use oprf_service.Core.Shamir.{
  lagrange_loop, single_lagrange_from_coeff, lagrange_each, lagrange_from_coeff,
}

module _ {F : Type 0} ⦃K : Field F⦄ where
  open K use {zero, one, ◌+◌, ◌-◌, ◌*◌, of_ℕ}

  infixl 65 ◌+◌ ◌-◌
  infixl 70 ◌*◌
  -- What the point `y` contributes: `y / (y - x)`, and nothing at `x` itself.
  factor : F → F → F
  factor x y = ite (K.discrete x y) one (y * inv (y - x))

  -- The product over all points.
  pub coef : F → List F → F
  coef x [] = one
  coef x (y ∷ ys) = factor x y * coef x ys

  pub coef-nil : (x : F) → coef x [] ≡ one
  unfolding coef
  coef-nil x = refl

  pub coef_self : (x : F) (ys : List F) → coef x (x ∷ ys) ≡ coef x ys
  unfolding coef factor
  coef_self x ys = ap (λ t. t * coef x ys) (if_pos (K.discrete x x) refl _ _) ∙ one-mul (coef x ys)

  pub coef-other : (x y : F) (ys : List F) → x ≢ y → coef x (y ∷ ys) ≡ y * inv (y - x) * coef x ys
  unfolding coef factor
  coef-other x y ys h = ap (λ t. t * coef x ys) (if_neg (K.discrete x y) h _ _)

  pub coef-swap : (x a b : F) (ys : List F) → coef x (a ∷ b ∷ ys) ≡ coef x (b ∷ a ∷ ys)
  unfolding coef
  coef-swap x a b ys = mul_left_comm (factor x a) (factor x b) (coef x ys)

  abbrev pub points : List ℕ → List F
  points = map of_ℕ

  lagrange_loop-same :
      (i j : ℕ) (num den : F) (ids : List ℕ)
      → i ≡ j
      → lagrange_loop i num den (j ∷ ids) ≡ lagrange_loop i num den ids
  unfolding lagrange_loop
  lagrange_loop-same i j num den ids e = rw ((==_iff i j).1 e, lagrange_loop)

  lagrange_loop-other :
      (i j : ℕ) (num den : F) (ids : List ℕ)
      → (i == j) ≡ false
      → lagrange_loop i num den (j ∷ ids)
        ≡ lagrange_loop i (num * of_ℕ j) (den * (of_ℕ j - of_ℕ i)) ids
  unfolding lagrange_loop
  lagrange_loop-other i j num den ids e = rw (e, lagrange_loop)

  of_ℕ-ne : (i j : ℕ) → i < K.modulus → j < K.modulus → (i == j) ≡ false → of_ℕ i ≢ of_ℕ j
  of_ℕ-ne i j hi hj other e = cc (sym other ∙ (==_iff i j).1 (of_ℕ-injective i j hi hj e))

  -- What the loop leaves in `num` and `den`, against the product.
  abbrev Leaves : ℕ → F → F → List ℕ → F × F → Type 0
  Leaves i num den ids (num', den') =
      (den' ≢ zero) × (num' * inv den' ≡ num * inv den * coef (of_ℕ i) (points ids))

  lagrange_loop-Leaves :
      (i : ℕ) (num den : F) (ids : List ℕ)
      → i < K.modulus
      → All (λ j. j < K.modulus) ids
      → den ≢ zero
      → Leaves i num den ids (lagrange_loop i num den ids)
  unfolding lagrange_loop
  lagrange_loop-Leaves i num den [] hi hs h = (h, unfold coef in sym (simp semiring))
  lagrange_loop-Leaves i num den (j ∷ ids) hi (hj, hs) h = elim (Bool-cases (i == j)) [
    | inl same ↦
        let e = (==_iff i j).0 same in
        let (nz, v) = lagrange_loop-Leaves i num den ids hi hs h in
        rw (lagrange_loop-same i j num den ids e)
          (nz, v ∙ ap (λ t. num * inv den * t) (rw (← e) (sym (coef_self (of_ℕ i) (points ids)))))
    | inr other ↦
        let apart : of_ℕ i ≢ of_ℕ j = λ e. of_ℕ-ne i j hi hj other e in
        let d = sub-ne-zero (of_ℕ j) (of_ℕ i) (λ e. apart (sym e)) in
        let (nz, v) =
          lagrange_loop-Leaves i (num * of_ℕ j) (den * (of_ℕ j - of_ℕ i)) ids hi hs
            (mul-ne-zero den (of_ℕ j - of_ℕ i) h d) in
        rw (lagrange_loop-other i j num den ids other) (
          nz,
          v
              ∙ rw
                  (
                    inv-mul den (of_ℕ j - of_ℕ i) h d,
                    coef-other (of_ℕ i) (of_ℕ j) (points ids) apart,
                  )
                  (simp semiring),
        )
  ]

  -- With ids below the modulus no inverse is missing, and the result is the product.
  pub single_lagrange_from_coeff-coef :
      (i : ℕ) (ids : List ℕ)
      → i < K.modulus
      → All (λ j. j < K.modulus) ids
      → single_lagrange_from_coeff i ids ≡ some (coef (of_ℕ i) (points ids))
  unfolding single_lagrange_from_coeff
  single_lagrange_from_coeff-coef i ids hi hs =
      let (nz, v) = lagrange_loop-Leaves i one one ids hi hs K.one-ne-zero in
      rw (inverse-inv _ nz) (ap some (v ∙ rw inv-one (simp semiring)))

  -- The coefficients for the points `ids` of the set `all`.
  abbrev pub coefs : List ℕ → List ℕ → List F
  coefs all ids = map (λ i. coef (of_ℕ i) (points all)) ids

  lagrange_each-coefs :
      (all ids : List ℕ)
      → All (λ j. j < K.modulus) all
      → All (λ j. j < K.modulus) ids
      → lagrange_each all ids ≡ some (coefs all ids)
  unfolding lagrange_each
  lagrange_each-coefs all [] ha hs = refl
  lagrange_each-coefs all (i ∷ ids) ha (hi, hs) =
      rw (single_lagrange_from_coeff-coef i all hi ha, lagrange_each-coefs all ids ha hs)

  pub lagrange_from_coeff-coefs :
      (ids : List ℕ) → All (λ j. j < K.modulus) ids → lagrange_from_coeff ids ≡ some (coefs ids ids)
  unfolding lagrange_from_coeff
  lagrange_from_coeff-coefs ids hs = lagrange_each-coefs ids ids hs hs
