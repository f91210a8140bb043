-- ===== src/Algebra/Five.antt =====
-- The field of five elements, which shows that the laws asked of a field can be met.
use Prim.Native.Nat.{ℕ, ◌%◌, ◌<◌, ◌≤◌, ◌+◌ as add_ℕ, ◌*◌ as mul_ℕ, ◌-◌ as sub_ℕ}
use native.Mathlib.Nat.{mod-eq_of_lt}
use oprf_service.Base.{
  Bool, true, ◌&&◌, sym, ap, ◌∙◌, ==_iff, ◌≡◌, refl, ◌≢◌, Option, none, some, arith, ltb, ◌==◌,
  if◌then◌else◌,
}
use oprf_service.Algebra.Field.{Field}

pub data Five : Type 0 where
  g0 g1 g2 g3 g4 : Five

abbrev pub to_ℕ : Five → ℕ
to_ℕ g0 = 0
to_ℕ g1 = 1
to_ℕ g2 = 2
to_ℕ g3 = 3
to_ℕ g4 = 4

abbrev pub residue : ℕ → Five
residue n =
    if n == 0 then g0 else if n == 1 then g1 else if n == 2 then g2 else if n == 3 then g3 else g4

abbrev pub of_ℕ : ℕ → Five
of_ℕ n = residue (n % 5)

abbrev pub add : Five → Five → Five
add a b = of_ℕ (add_ℕ (to_ℕ a) (to_ℕ b))

abbrev pub sub : Five → Five → Five
sub a b = of_ℕ (sub_ℕ (add_ℕ (to_ℕ a) 5) (to_ℕ b))

abbrev pub mul : Five → Five → Five
mul a b = of_ℕ (mul_ℕ (to_ℕ a) (to_ℕ b))

abbrev pub inverse : Five → Option Five
inverse g0 = none
inverse g1 = some g1
inverse g2 = some g3
inverse g3 = some g2
inverse g4 = some g4

pub Five-discrete : Discrete Five
Five-discrete = hlevel

pub of_ℕ-to_ℕ : (a : Five) → of_ℕ (to_ℕ a) ≡ a
of_ℕ-to_ℕ g0 = refl
of_ℕ-to_ℕ _ = refl

-- A law is checked at every value.
abbrev every : (Five → Bool) → Bool
every p = p g0 && (p g1 && (p g2 && (p g3 && p g4)))

every_at : (p : Five → Bool) (a : Five) → every p ≡ true → p a ≡ true
every_at p g0 h = ground arith
every_at p g1 h = ground arith
every_at p g2 h = ground arith
every_at p g3 h = ground arith
every_at p g4 h = ground arith

same : Five → Five → Bool
same a b = to_ℕ a == to_ℕ b

same_at : (a b : Five) → same a b ≡ true → a ≡ b
unfolding same
same_at a b h = sym (of_ℕ-to_ℕ a) ∙ ap of_ℕ ((==_iff (to_ℕ a) (to_ℕ b)).0 h) ∙ of_ℕ-to_ℕ b

pub add_comm : (a b : Five) → add a b ≡ add b a
unfolding same
add_comm a b = same_at _ _ (
    every_at (λ b. same (add a b) (add b a)) b
      (every_at (λ a. every (λ b. same (add a b) (add b a))) a refl))

pub add_assoc : (a b c : Five) → add (add a b) c ≡ add a (add b c)
unfolding same
add_assoc a b c = same_at _ _ (
    every_at (λ c. same (add (add a b) c) (add a (add b c))) c
      (every_at (λ b. every (λ c. same (add (add a b) c) (add a (add b c)))) b
        (every_at (λ a. every (λ b. every (λ c. same (add (add a b) c) (add a (add b c))))) a
          refl)))

pub add-zero : (a : Five) → add a g0 ≡ a
unfolding same
add-zero a = same_at _ _ (every_at (λ a. same (add a g0) (a)) a refl)

pub sub-add_cancel : (a b : Five) → add (sub a b) b ≡ a
unfolding same
sub-add_cancel a b = same_at _ _ (
    every_at (λ b. same (add (sub a b) b) (a)) b
      (every_at (λ a. every (λ b. same (add (sub a b) b) (a))) a refl))

pub mul_comm : (a b : Five) → mul a b ≡ mul b a
unfolding same
mul_comm a b = same_at _ _ (
    every_at (λ b. same (mul a b) (mul b a)) b
      (every_at (λ a. every (λ b. same (mul a b) (mul b a))) a refl))

pub mul_assoc : (a b c : Five) → mul (mul a b) c ≡ mul a (mul b c)
unfolding same
mul_assoc a b c = same_at _ _ (
    every_at (λ c. same (mul (mul a b) c) (mul a (mul b c))) c
      (every_at (λ b. every (λ c. same (mul (mul a b) c) (mul a (mul b c)))) b
        (every_at (λ a. every (λ b. every (λ c. same (mul (mul a b) c) (mul a (mul b c))))) a
          refl)))

pub mul-one : (a : Five) → mul a g1 ≡ a
unfolding same
mul-one a = same_at _ _ (every_at (λ a. same (mul a g1) (a)) a refl)

pub mul-add : (a b c : Five) → mul a (add b c) ≡ add (mul a b) (mul a c)
unfolding same
mul-add a b c = same_at _ _ (
    every_at (λ c. same (mul a (add b c)) (add (mul a b) (mul a c))) c
      (every_at (λ b. every (λ c. same (mul a (add b c)) (add (mul a b) (mul a c)))) b
        (every_at (λ a. every (λ b. every (λ c. same (mul a (add b c)) (add (mul a b) (mul a c)))))
          a refl)))

pub mul-inverse : (a : Five) → a ≢ g0 → (b : Five) × (inverse a ≡ some b) × (mul a b ≡ g1)
mul-inverse g0 h = absurd (h refl)
mul-inverse g1 h = (g1, refl, refl)
mul-inverse g2 h = (g3, refl, refl)
mul-inverse g3 h = (g2, refl, refl)
mul-inverse g4 h = (g4, refl, refl)

pub inverse-zero : inverse g0 ≡ none
inverse-zero = refl

pub one-ne-zero : g1 ≢ g0
one-ne-zero e = cc

pub to_ℕ-lt : (a : Five) → to_ℕ a < 5
to_ℕ-lt g0 = omega arith
to_ℕ-lt _ = omega arith

to_ℕ-residue : (n : ℕ) → n < 5 → to_ℕ (residue n) ≡ n
to_ℕ-residue n h = ground arith

pub to_ℕ-of_ℕ : (n : ℕ) → n < 5 → to_ℕ (of_ℕ n) ≡ n
to_ℕ-of_ℕ n h = rw (mod-eq_of_lt h) (to_ℕ-residue n h)

abbrev pub from_bigint : ℕ → Option Five
from_bigint n = if ltb n 5 then some (of_ℕ n) else none

pub from_bigint-lt : (n : ℕ) → n < 5 → from_bigint n ≡ some (of_ℕ n)
from_bigint-lt n h = ground arith

pub from_bigint-ge : (n : ℕ) → 5 ≤ n → from_bigint n ≡ none
from_bigint-ge n h = ground arith

instance abbrev pub five : Field Five
five = record {
  zero = g0;
  one = g1;
  ◌+◌ = add;
  ◌-◌ = sub;
  ◌*◌ = mul;
  inverse = inverse;
  of_ℕ = of_ℕ;
  discrete = Five-discrete;
  modulus = 5;
  into_bigint = to_ℕ;
  from_bigint = from_bigint;
  add_comm = add_comm;
  add_assoc = add_assoc;
  add-zero = add-zero;
  sub-add_cancel = sub-add_cancel;
  mul_comm = mul_comm;
  mul_assoc = mul_assoc;
  mul-one = mul-one;
  mul-add = mul-add;
  inverse-zero = inverse-zero;
  mul-inverse = mul-inverse;
  one-ne-zero = one-ne-zero;
  into_bigint-lt = to_ℕ-lt;
  of_ℕ-into_bigint = of_ℕ-to_ℕ;
  into_bigint-of_ℕ = to_ℕ-of_ℕ;
  from_bigint-lt = from_bigint-lt;
  from_bigint-ge = from_bigint-ge;
}
