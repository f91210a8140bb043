-- ===== src/Core/Shamir/Interpolation.antt =====
-- Lagrange interpolation at zero: the weighted sum of a polynomial's values is its constant term.
use oprf_service.Base.{
  Distinct, ◌≤◌, ◌≡◌, refl, sym, ap, ap₂, ◌∙◌, ◌≢◌, List, [], ◌∷◌, length, ◌≡⟨◌⟩◌, ◌∎, All, arith,
}
use oprf_service.Algebra.Field.{
  Field, semiring, inv, mul-inv, sub-ne-zero, add_left_cancel, mul_left_cancel, one-mul, add-sub,
  add_assoc, add_right_cancel, mul-one, zero-add, add_left_comm,
}
use oprf_service.Core.Shamir.Poly.{eval, quotient, eval-quotient, length-quotient}
use oprf_service.Core.Shamir.Coeff.{coef, coef-nil, coef_self, coef-other, coef-swap}

module _ {F : Type 0} ⦃K : Field F⦄ where
  open K use {zero, one, ◌+◌, ◌-◌, ◌*◌}

  infixl 65 ◌+◌ ◌-◌
  infixl 70 ◌*◌
  -- The sum of `f x` times the coefficient of `x` in `all`, over the points `xs`.
  unfoldable pub weigh : (F → F) → List F → List F → F
  weigh f all [] = zero
  weigh f all (x ∷ xs) = f x * coef x all + weigh f all xs

  weigh-cons :
      (f : F → F) (all : List F) (x : F) (xs : List F)
      → weigh f all (x ∷ xs) ≡ f x * coef x all + weigh f all xs
  unfolding weigh
  weigh-cons f all x xs = refl

  weigh-other :
      (f : F → F) (a x : F) (all xs : List F)
      → a ≢ x
      → weigh f (a ∷ all) (x ∷ xs) ≡ f x * (a * inv (a - x) * coef x all) + weigh f (a ∷ all) xs
  weigh-other f a x all xs h =
      weigh-cons f (a ∷ all) x xs
      ∙ ap (λ t. f x * t + weigh f (a ∷ all) xs) (coef-other x a all (λ e. h (sym e)))

  -- One more point `a`: where `f x + (a - x) * g x` is always `v`.
  weigh-extend :
      (f g : F → F) (a v : F)
      → ((x d : F) → x + d ≡ a → f x + d * g x ≡ v)
      → (all xs : List F) → All (λ x. a ≢ x) xs
      → weigh f (a ∷ all) xs + a * weigh g all xs ≡ v * weigh (λ _. one) (a ∷ all) xs
  weigh-extend f g a v line all [] h = unfold weigh in simp semiring
  weigh-extend f g a v line all (x ∷ xs) (hx, h) =
      let d = a - x in
      let c = coef x all in
      let w = weigh f (a ∷ all) xs in
      let u = weigh g all xs in
      let nz = sub-ne-zero a x hx in
      weigh f (a ∷ all) (x ∷ xs) + a * weigh g all (x ∷ xs)
      ≡⟨ ap₂ (λ s t. s + a * t) (weigh-other f a x all xs hx) (weigh-cons g all x xs) ⟩
        f x * (a * inv d * c) + w + a * (g x * c + u)
      ≡⟨ sym (ap (λ t. f x * (a * inv d * c) + w + a * (t * c + u)) (one-mul (g x))) ⟩
        f x * (a * inv d * c) + w + a * (one * g x * c + u)
      ≡⟨ sym (ap (λ t. f x * (a * inv d * c) + w + a * (t * g x * c + u)) (mul-inv d nz)) ⟩
        f x * (a * inv d * c) + w + a * (d * inv d * g x * c + u)
      ≡⟨ (simp semiring) ⟩ (f x + d * g x) * (a * inv d * c) + (w + a * u)
      ≡⟨ ap₂ (λ s t. s * (a * inv d * c) + t) (line x d (add-sub a x))
          (weigh-extend f g a v line all xs h) ⟩
        v * (a * inv d * c) + v * weigh (λ _. one) (a ∷ all) xs
      ≡⟨ (simp semiring) ⟩ v * (one * (a * inv d * c) + weigh (λ _. one) (a ∷ all) xs)
      ≡⟨ ap (λ t. v * t) (sym (weigh-other (λ _. one) a x all xs hx)) ⟩
        v * weigh (λ _. one) (a ∷ all) (x ∷ xs) ∎

  -- The same with `a` itself among the points.
  weigh-extend_every :
      (f g : F → F) (a v : F)
      → ((x d : F) → x + d ≡ a → f x + d * g x ≡ v)
      → f a ≡ v
      → (xs : List F) → All (λ x. a ≢ x) xs
      → weigh f (a ∷ xs) (a ∷ xs) + a * weigh g xs xs ≡ v * weigh (λ _. one) (a ∷ xs) (a ∷ xs)
  weigh-extend_every f g a v line at xs h =
      let c = coef a (a ∷ xs) in
      weigh f (a ∷ xs) (a ∷ xs) + a * weigh g xs xs
      ≡⟨ ap (λ t. t + a * weigh g xs xs) (weigh-cons f (a ∷ xs) a xs) ⟩
        f a * c + weigh f (a ∷ xs) xs + a * weigh g xs xs
      ≡⟨ add_assoc _ _ _ ⟩ f a * c + (weigh f (a ∷ xs) xs + a * weigh g xs xs)
      ≡⟨ ap₂ (λ s t. s * c + t) at (weigh-extend f g a v line xs xs h) ⟩
        v * c + v * weigh (λ _. one) (a ∷ xs) xs
      ≡⟨ (simp semiring) ⟩ v * (one * c + weigh (λ _. one) (a ∷ xs) xs)
      ≡⟨ ap (λ t. v * t) (sym (weigh-cons (λ _. one) (a ∷ xs) a xs)) ⟩
        v * weigh (λ _. one) (a ∷ xs) (a ∷ xs) ∎

  weigh-swap :
      (f : F → F) (a b : F) (all xs : List F) → weigh f (a ∷ b ∷ all) xs ≡ weigh f (b ∷ a ∷ all) xs
  unfolding weigh
  weigh-swap f a b all [] = refl
  weigh-swap f a b all (x ∷ xs) =
      ap₂ (λ s t. f x * s + t) (coef-swap x a b all) (weigh-swap f a b all xs)

  -- The sum over a set does not depend on which of its first two points stands first.
  weigh-swap_all :
      (f : F → F) (a b : F) (xs : List F)
      → weigh f (a ∷ b ∷ xs) (a ∷ b ∷ xs) ≡ weigh f (b ∷ a ∷ xs) (b ∷ a ∷ xs)
  weigh-swap_all f a b xs =
      weigh-swap f a b xs (a ∷ b ∷ xs)
      ∙ (weigh f (b ∷ a ∷ xs) (a ∷ b ∷ xs)
          ≡⟨ (simp (weigh-cons, add_left_comm)) ⟩ weigh f (b ∷ a ∷ xs) (b ∷ a ∷ xs) ∎)

  -- With `a ≢ b`, `a u + b = b u + a` leaves one `u`.
  only_one : (a b u : F) → a ≢ b → a * u + b ≡ b * u + a → u ≡ one
  only_one a b u h e =
      let d = b - a in
      mul_left_cancel u one d (sub-ne-zero b a (λ p. h (sym p))) (
        add_left_cancel (d * u) (d * one) (a * u + a) (
          a * u + a + d * u
          ≡⟨ (simp semiring) ⟩ (a + d) * u + a
          ≡⟨ ap (λ t. t * u + a) (add-sub b a) ⟩ b * u + a
          ≡⟨ sym e ⟩ a * u + b
          ≡⟨ sym (ap (λ t. a * u + t) (add-sub b a)) ⟩ a * u + (a + d)
          ≡⟨ (simp semiring) ⟩ a * u + a + d * one ∎))

  -- The function `x` itself, against the constant one.
  weigh-id :
      (c : F) (ys : List F)
      → All (λ y. c ≢ y) ys
      → weigh (λ _. one) ys ys ≡ one
      → weigh (λ x. x) (c ∷ ys) (c ∷ ys) + c ≡ c * weigh (λ _. one) (c ∷ ys) (c ∷ ys)
  weigh-id c ys hc h =
      weigh (λ x. x) (c ∷ ys) (c ∷ ys) + c
      ≡⟨ sym (ap (λ t. weigh (λ x. x) (c ∷ ys) (c ∷ ys) + t) (ap (λ t. c * t) h ∙ mul-one c)) ⟩
        weigh (λ x. x) (c ∷ ys) (c ∷ ys) + c * weigh (λ _. one) ys ys
      ≡⟨ weigh-extend_every (λ x. x) (λ _. one) c c (λ x d e. ap (λ t. x + t) (mul-one d) ∙ e) refl
          ys hc ⟩
        c * weigh (λ _. one) (c ∷ ys) (c ∷ ys) ∎

  -- The coefficients of a set add up to one.
  weigh-one : (a : F) (xs : List F) → Distinct (a ∷ xs) → weigh (λ _. one) (a ∷ xs) (a ∷ xs) ≡ one
  weigh-one a [] h =
      weigh-cons (λ _. one) (a ∷ []) a []
      ∙ ap (λ t. one * t + weigh (λ _. one) (a ∷ []) []) (coef_self a [] ∙ coef-nil a)
      ∙ unfold weigh in simp semiring
  weigh-one a (b ∷ xs) ((ab, ah), (bh, h)) =
      let v = weigh (λ x. x) (a ∷ b ∷ xs) (a ∷ b ∷ xs) in
      let u = weigh (λ _. one) (a ∷ b ∷ xs) (a ∷ b ∷ xs) in
      let la : v + a ≡ a * u = weigh-id a (b ∷ xs) (ab, ah) (weigh-one b xs (bh, h)) in
      let lb : v + b ≡ b * u =
        ap (λ t. t + b) (weigh-swap_all (λ x. x) a b xs)
        ∙ weigh-id b (a ∷ xs) ((λ e. ab (sym e)), bh) (weigh-one a xs (ah, h))
        ∙ ap (λ t. b * t) (weigh-swap_all (λ _. one) b a xs) in
      only_one a b u ab (
        a * u + b
        ≡⟨ ap (λ t. t + b) (sym la) ⟩ v + a + b
        ≡⟨ (simp semiring) ⟩ v + b + a
        ≡⟨ ap (λ t. t + a) lb ⟩ b * u + a ∎)

  -- Interpolation at zero.
  pub weigh-eval :
      (xs : List F) (p : List F)
      → Distinct xs
      → length p ≤ length xs
      → weigh (eval p) xs xs ≡ eval p zero
  weigh-eval [] [] h l = unfold weigh eval in refl
  weigh-eval [] (c ∷ p) h l = absurd (omega arith)
  weigh-eval (a ∷ xs) p (ah, h) l =
      let q = quotient a p in
      add_right_cancel _ _ (a * eval q zero) (
        weigh (eval p) (a ∷ xs) (a ∷ xs) + a * eval q zero
        ≡⟨ ap (λ t. weigh (eval p) (a ∷ xs) (a ∷ xs) + a * t)
            (sym (weigh-eval xs q h (omega (arith, length-quotient a p)))) ⟩
          weigh (eval p) (a ∷ xs) (a ∷ xs) + a * weigh (eval q) xs xs
        ≡⟨ weigh-extend_every (eval p) (eval q) a (eval p a) (λ x d e. eval-quotient a x d p e) refl
            xs ah ⟩
          eval p a * weigh (λ _. one) (a ∷ xs) (a ∷ xs)
        ≡⟨ ap (λ t. eval p a * t) (weigh-one a xs (ah, h)) ∙ mul-one (eval p a) ⟩ eval p a
        ≡⟨ sym (eval-quotient a zero a p (zero-add a)) ⟩ eval p zero + a * eval q zero ∎)
