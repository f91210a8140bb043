-- ===== src/Core/Keygen/Dealing.antt =====
-- Many dealers: the sum of their polynomials shares the sum of their secrets, and shares that are
-- dealt anew and interpolated share the old secret.
use oprf_service.Base.{
  ℕ, ◌≤◌, ◌≡◌, refl, sym, ap, ap₂, ◌∙◌, List, [], ◌∷◌, map, Option, some, length, length-map,
  ==_refl, All,
}
use oprf_service.Algebra.Field.{Field, semiring, add-zero, zero-add, zero-mul}
use oprf_service.Core.Shamir.{◌>>=◌, lagrange_from_coeff, reconstruct, dot}
use oprf_service.Core.Shamir.Poly.{eval, eval-zero}
use oprf_service.Core.Shamir.Coeff.{points, coef, coefs, lagrange_from_coeff-coefs}
use oprf_service.Core.Shamir.Interpolation.{weigh, weigh-eval}
use oprf_service.Core.Shamir.Sharing.{
  AreIds, points-Distinct, values, dot-weigh, reconstruct-values,
}
use oprf_service.Core.Keygen.{fold_shares, accumulate_shares, accumulate_lagrange_shares}

-- A dealer's id and its polynomial, with the constant coefficient apart.
pub record Dealer (F : Type 0) : Type 0 where
  pub id : ℕ
  pub secret : F
  pub coeffs : List F

module _ {F : Type 0} ⦃K : Field F⦄ where
  open K use {zero, ◌+◌, ◌*◌, of_ℕ}

  infixl 65 ◌+◌
  infixl 70 ◌*◌
  abbrev pub poly_of : Dealer F → List F
  poly_of d = d.secret ∷ d.coeffs

  -- Every polynomial has at most as many coefficients as there are ids.
  abbrev pub Short : List ℕ → List (Dealer F) → Type 0
  Short ids dealers = All (λ d. length (poly_of d) ≤ length ids) dealers

  weigh-zero : (all xs : List F) → weigh (λ _. zero) all xs ≡ zero
  unfolding weigh
  weigh-zero all [] = refl
  weigh-zero all (x ∷ xs) =
      ap₂ (λ s t. s + t) (zero-mul (coef x all)) (weigh-zero all xs) ∙ add-zero zero

  split : (a b c v w : F) → (a + b) * c + (v + w) ≡ a * c + v + (b * c + w)
  split a b c v w = simp semiring

  weigh-add :
      (f g : F → F) (all xs : List F)
      → weigh (λ x. f x + g x) all xs ≡ weigh f all xs + weigh g all xs
  unfolding weigh
  weigh-add f g all [] = sym (add-zero zero)
  weigh-add f g all (x ∷ xs) =
      ap (λ t. (f x + g x) * coef x all + t) (weigh-add f g all xs)
      ∙ split (f x) (g x) (coef x all) _ _

  factor_out : (a l c w : F) → a * l * c + w * l ≡ (a * c + w) * l
  factor_out a l c w = simp semiring

  weigh-mul :
      (f : F → F) (l : F) (all xs : List F) → weigh (λ x. f x * l) all xs ≡ weigh f all xs * l
  unfolding weigh
  weigh-mul f l all [] = sym (zero-mul l)
  weigh-mul f l all (x ∷ xs) =
      ap (λ t. f x * l * coef x all + t) (weigh-mul f l all xs) ∙ factor_out (f x) l (coef x all) _

  weigh-fold_shares :
      (acc : F → F) (all xs : List F) (dealers : List (Dealer F))
      → weigh (λ x. fold_shares (acc x) (map (λ d. eval (poly_of d) x) dealers)) all xs
        ≡ fold_shares (weigh acc all xs) (map (λ d. weigh (eval (poly_of d)) all xs) dealers)
  unfolding fold_shares
  weigh-fold_shares acc all xs [] = refl
  weigh-fold_shares acc all xs (d ∷ dealers) =
      weigh-fold_shares (λ x. acc x + eval (poly_of d) x) all xs dealers
      ∙ ap (λ t. fold_shares t (map (λ d. weigh (eval (poly_of d)) all xs) dealers))
          (weigh-add acc (eval (poly_of d)) all xs)

  weigh-secret :
      (ids : List ℕ) (d : Dealer F)
      → AreIds K.modulus ids
      → length (poly_of d) ≤ length ids
      → weigh (eval (poly_of d)) (points ids) (points ids) ≡ d.secret
  weigh-secret ids d h l =
      weigh-eval (points ids) (poly_of d) (points-Distinct K ids h) (rw (length-map of_ℕ ids) l)
      ∙ eval-zero d.secret d.coeffs

  map-secret :
      (ids : List ℕ) (dealers : List (Dealer F))
      → AreIds K.modulus ids
      → Short ids dealers
      → map (λ d. weigh (eval (poly_of d)) (points ids) (points ids)) dealers
        ≡ map (λ d. d.secret) dealers
  map-secret ids [] h l = refl
  map-secret ids (d ∷ dealers) h (l, ls) =
      ap₂ (λ s t. s ∷ t) (weigh-secret ids d h l) (map-secret ids dealers h ls)

  -- What a party holds at the end of a key generation: the sum of its shares of all dealers.
  abbrev pub key_share : List (Dealer F) → F → F
  key_share dealers x = accumulate_shares (map (λ d. eval (poly_of d) x) dealers)

  -- The accumulated shares of any distinct ids below the modulus, as many as the longest polynomial
  -- has coefficients, reconstruct to the accumulated secrets of the dealers.
  pub reconstruct-accumulate_shares :
      (dealers : List (Dealer F)) (ids : List ℕ)
      → AreIds K.modulus ids
      → Short ids dealers
      → (do
        lagrange ← lagrange_from_coeff ids
        reconstruct (values (key_share dealers) ids) lagrange)
        ≡ some (accumulate_shares (map (λ d. d.secret) dealers))
  unfolding accumulate_shares
  reconstruct-accumulate_shares dealers ids h l = rw (lagrange_from_coeff-coefs ids h.1) (
      reconstruct-values (key_share dealers) ids
      ∙ ap some (
          weigh-fold_shares (λ _. zero) (points ids) (points ids) dealers
          ∙ ap₂ fold_shares (weigh-zero (points ids) (points ids)) (map-secret ids dealers h l)))

  weigh-dot :
      (acc : F → F) (all xs : List F) (dealers : List (Dealer F)) (ls : List F)
      → weigh (λ x. dot (acc x) (map (λ d. eval (poly_of d) x) dealers) ls) all xs
        ≡ dot (weigh acc all xs) (map (λ d. weigh (eval (poly_of d)) all xs) dealers) ls
  unfolding dot
  weigh-dot acc all xs [] ls = refl
  weigh-dot acc all xs (d ∷ dealers) [] = refl
  weigh-dot acc all xs (d ∷ dealers) (l ∷ ls) =
      weigh-dot (λ x. acc x + eval (poly_of d) x * l) all xs dealers ls
      ∙ ap (λ t. dot t (map (λ d. weigh (eval (poly_of d)) all xs) dealers) ls)
          (weigh-add acc (λ x. eval (poly_of d) x * l) all xs
            ∙ ap (λ t. weigh acc all xs + t) (weigh-mul (eval (poly_of d)) l all xs))

  abbrev pub ids_of : List (Dealer F) → List ℕ
  ids_of dealers = map (λ d. d.id) dealers

  -- What each receiver makes of the dealers' shares of their shares.
  unfoldable pub reshare_each : List (Dealer F) → List F → List ℕ → Option (List F)
  reshare_each dealers lagrange [] = some []
  reshare_each dealers lagrange (i ∷ ids) = do
    share ← accumulate_lagrange_shares (map (λ d. eval (poly_of d) (of_ℕ i)) dealers) lagrange
    rest ← reshare_each dealers lagrange ids
    some (share ∷ rest)

  abbrev new_share : List (Dealer F) → F → F
  new_share dealers x =
      dot zero (map (λ d. eval (poly_of d) x) dealers) (coefs (ids_of dealers) (ids_of dealers))

  accumulate_lagrange_shares-new :
      (dealers : List (Dealer F)) (x : F)
      → accumulate_lagrange_shares
          (map (λ d. eval (poly_of d) x) dealers)
          (coefs (ids_of dealers) (ids_of dealers))
        ≡ some (new_share dealers x)
  unfolding accumulate_lagrange_shares
  accumulate_lagrange_shares-new dealers x =
      rw
        (
          length-map (λ d. eval (poly_of d) x) dealers,
          length-map (λ i. coef (of_ℕ i) (points (ids_of dealers))) (ids_of dealers),
          length-map (λ d. d.id) dealers,
          ==_refl (length dealers),
        )
        refl

  reshare_each-values :
      (dealers : List (Dealer F)) (ids : List ℕ)
      → reshare_each dealers (coefs (ids_of dealers) (ids_of dealers)) ids
        ≡ some (values (new_share dealers) ids)
  unfolding reshare_each
  reshare_each-values dealers [] = refl
  reshare_each-values dealers (i ∷ ids) =
      rw (accumulate_lagrange_shares-new dealers (of_ℕ i), reshare_each-values dealers ids) refl

  -- Every dealer shares its share of `f`.
  abbrev pub Holds : (F → F) → List (Dealer F) → Type 0
  Holds f dealers = All (λ d. d.secret ≡ f (of_ℕ d.id)) dealers

  secrets :
      (f : F → F) (dealers : List (Dealer F))
      → Holds f dealers
      → map (λ d. d.secret) dealers ≡ values f (ids_of dealers)
  secrets f [] h = refl
  secrets f (d ∷ dealers) (e, h) = ap₂ (λ s t. s ∷ t) e (secrets f dealers h)

  -- Dealers with distinct ids hold shares of a polynomial with constant coefficient `c`, at least
  -- as many as it has coefficients, and each deals a polynomial whose constant coefficient is its
  -- share. What the receivers accumulate with the dealers' Lagrange coefficients reconstructs to
  -- `c` again, for any distinct receivers that are as many as the new polynomials have coefficients.
  pub reconstruct-reshare :
      (c : F) (cs : List F) (dealers : List (Dealer F)) (ids : List ℕ)
      → AreIds K.modulus (ids_of dealers)
      → length (c ∷ cs) ≤ length (ids_of dealers)
      → Holds (eval (c ∷ cs)) dealers
      → AreIds K.modulus ids
      → Short ids dealers
      → (do
        lagrange ← lagrange_from_coeff (ids_of dealers)
        shares ← reshare_each dealers lagrange ids
        new_lagrange ← lagrange_from_coeff ids
        reconstruct shares new_lagrange)
        ≡ some c
  reconstruct-reshare c cs dealers ids hd ld held h l =
      let f = eval (c ∷ cs) in
      let all = ids_of dealers in
      rw
        (
          lagrange_from_coeff-coefs all hd.1,
          reshare_each-values dealers ids,
          lagrange_from_coeff-coefs ids h.1,
        )
        (reconstruct-values (new_share dealers) ids
          ∙ ap some (
              weigh-dot (λ _. zero) (points ids) (points ids) dealers (coefs all all)
              ∙ ap₂ (λ s t. dot s t (coefs all all)) (weigh-zero (points ids) (points ids))
                  (map-secret ids dealers h l ∙ secrets f dealers held)
              ∙ dot-weigh f zero all all
              ∙ zero-add _
              ∙ weigh-secret all (record { id = 0; secret = c; coeffs = cs }) hd ld))
