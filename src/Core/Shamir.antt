-- ===== src/Core/Shamir.antt =====
-- oprf-core/src/shamir.rs: Lagrange coefficients at zero, Horner evaluation, reconstruction.
-- A panic (`assert!`, `expect`) is `none`. The party ids, `u16` or `u64` there, are numbers.
pub mod Poly
pub mod Coeff
pub mod Interpolation
pub mod Sharing
use mathlib.Core.List.{reverse}
use oprf_service.Base.{ℕ, List, [], ◌∷◌, Option, none, some, length, ◌==◌, if◌then◌else◌}
use oprf_service.Algebra.Field.{Field}

-- `Option`'s `?`, for the panics of a callee.
infixl 5 ◌>>=◌
abbrev pub ◌>>=◌ {ℓ κ} : {A : Type ℓ} {B : Type κ} → Option A → (A → Option B) → Option B
none >>= f = none
some a >>= f = f a

module _ {F : Type 0} ⦃K : Field F⦄ where
  open K use {zero, one, ◌+◌, ◌-◌, ◌*◌, inverse, of_ℕ}

  infixl 65 ◌+◌ ◌-◌
  infixl 70 ◌*◌
  -- The loop of `single_lagrange_from_coeff` over its two accumulators.
  unfoldable pub lagrange_loop : ℕ → F → F → List ℕ → F × F
  lagrange_loop my_id num den [] = (num, den)
  lagrange_loop my_id num den (j ∷ coeffs) =
      lagrange_loop my_id (if my_id == j then num else num * of_ℕ j)
        (if my_id == j then den else den * (of_ℕ j - of_ℕ my_id)) coeffs

  unfoldable pub single_lagrange_from_coeff : ℕ → List ℕ → Option F
  unfolding lagrange_loop
  single_lagrange_from_coeff my_id coeffs = do
    let (num, den) = lagrange_loop my_id one one coeffs
    den_inv ← inverse den
    some (num * den_inv)

  -- The loop of `lagrange_from_coeff`: `all` is the whole slice.
  unfoldable pub lagrange_each : List ℕ → List ℕ → Option (List F)
  unfolding single_lagrange_from_coeff
  lagrange_each all [] = some []
  lagrange_each all (i ∷ ids) = do
    l ← single_lagrange_from_coeff i all
    rest ← lagrange_each all ids
    some (l ∷ rest)

  unfoldable pub lagrange_from_coeff : List ℕ → Option (List F)
  unfolding lagrange_each
  lagrange_from_coeff coeffs = lagrange_each coeffs coeffs

  unfoldable pub horner : F → F → List F → F
  horner x eval [] = eval
  horner x eval (coeff ∷ rest) = horner x (eval * x + coeff) rest

  -- Highest coefficient first.
  unfoldable pub from_top : List F → F → Option F
  unfolding horner
  from_top [] x = none
  from_top (top ∷ rest) x = some (horner x top rest)

  unfoldable pub evaluate_poly : List F → F → Option F
  unfolding from_top
  evaluate_poly poly x = from_top (reverse poly) x

  -- The loop over `shares.iter().zip(lagrange.iter())`.
  unfoldable pub dot : F → List F → List F → F
  dot res [] ls = res
  dot res (s ∷ ss) [] = res
  dot res (s ∷ ss) (l ∷ ls) = dot (res + s * l) ss ls

  unfoldable pub reconstruct : List F → List F → Option F
  unfolding dot
  reconstruct shares lagrange =
      if length shares == length lagrange then some (dot zero shares lagrange) else none
