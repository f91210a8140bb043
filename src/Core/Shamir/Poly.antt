-- ===== src/Core/Shamir/Poly.antt =====
-- Polynomials as coefficient lists: that `evaluate_poly` evaluates them, and division by `X - a`.
use mathlib.Core.List.{reverse, reverse-cons}
use oprf_service.Base.{
  arith, ◌≡◌, refl, sym, ap, ◌∙◌, List, [], ◌∷◌, ◌++◌, some, length, ◌≡⟨◌⟩◌, ◌∎, ◌-◌ as ◌∸◌,
}
use oprf_service.Algebra.Field.{Field, semiring}
use oprf_service.Core.Shamir.{horner, from_top, evaluate_poly}

module _ {F : Type 0} ⦃K : Field F⦄ where
  open K use {zero, one, ◌+◌, ◌*◌}

  infixl 65 ◌+◌
  infixl 70 ◌*◌
  -- The value at `x`, lowest coefficient first.
  unfoldable pub eval : List F → F → F
  eval [] x = zero
  eval (c ∷ cs) x = c + x * eval cs x

  pub eval-nil : (x : F) → eval [] x ≡ zero
  unfolding eval
  eval-nil x = refl

  pub eval-cons : (c : F) (cs : List F) (x : F) → eval (c ∷ cs) x ≡ c + x * eval cs x
  unfolding eval
  eval-cons c cs x = refl

  ruleset evaluation = (eval-nil, eval-cons, semiring)

  horner-append :
      (x e : F) (rest : List F) (c : F) → horner x e (rest ++ c ∷ []) ≡ horner x e rest * x + c
  unfolding horner
  horner-append x e [] c = refl
  horner-append x e (r ∷ rest) c = horner-append x (e * x + r) rest c

  from_top-append :
      (rest : List F) (x c v : F)
      → from_top rest x ≡ some v
      → from_top (rest ++ c ∷ []) x ≡ some (v * x + c)
  unfolding from_top
  from_top-append [] x c v h = cc
  from_top-append (top ∷ rest) x c v h = ap some (horner-append x top rest c) ∙ cc

  pub evaluate_poly-eval :
      (c : F) (cs : List F) (x : F) → evaluate_poly (c ∷ cs) x ≡ some (eval (c ∷ cs) x)
  unfolding evaluate_poly
  evaluate_poly-eval c [] x = unfold from_top horner in ap some (sym (simp evaluation))
  evaluate_poly-eval c (d ∷ cs) x = rw (reverse-cons c (d ∷ cs)) (
      from_top-append (reverse (d ∷ cs)) x c (eval (d ∷ cs) x) (evaluate_poly-eval d cs x)
      ∙ ap some (simp evaluation))

  pub eval-zero : (c : F) (cs : List F) → eval (c ∷ cs) zero ≡ c
  eval-zero c cs = simp evaluation

  -- The quotient of `p - p(a)` by `X - a`.
  pub quotient : F → List F → List F
  unfolding eval
  quotient a [] = []
  quotient a (c ∷ []) = []
  quotient a (c ∷ d ∷ cs) = eval (d ∷ cs) a ∷ quotient a (d ∷ cs)

  pub length-quotient : (a : F) (p : List F) → length (quotient a p) ≡ length p ∸ 1
  unfolding quotient
  length-quotient a [] = refl
  length-quotient a (c ∷ []) = refl
  length-quotient a (c ∷ d ∷ cs) = omega (arith, length-quotient a (d ∷ cs))

  pub eval-quotient :
      (a x d : F) (p : List F) → x + d ≡ a → eval p x + d * eval (quotient a p) x ≡ eval p a
  unfolding quotient
  eval-quotient a x d [] h = simp evaluation
  eval-quotient a x d (c ∷ []) h = simp evaluation
  eval-quotient a x d (c ∷ e ∷ cs) h =
      let r = e ∷ cs in
      eval (c ∷ r) x + d * eval (eval r a ∷ quotient a r) x
      ≡⟨ (simp evaluation) ⟩ c + (x * (eval r x + d * eval (quotient a r) x) + d * eval r a)
      ≡⟨ ap (λ t. c + (x * t + d * eval r a)) (eval-quotient a x d (e ∷ cs) h) ⟩
        c + (x * eval r a + d * eval r a)
      ≡⟨ (simp semiring) ⟩ c + (x + d) * eval r a
      ≡⟨ ap (λ t. c + t * eval r a) h ⟩ c + a * eval r a
      ≡⟨ sym (eval-cons c r a) ⟩ eval (c ∷ r) a ∎
