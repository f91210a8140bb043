-- ===== src/Algebra/Line.antt =====
-- The group of five elements, written additively: a suite that meets all the laws.
use oprf_service.Base.{ℕ, ◌+◌, ◌≡◌, refl, sym, ap₂, ◌∙◌, ◌↔◌, List, [], ◌∷◌, Bool, true, false}
use oprf_service.Algebra.Five.{
  Five, g0, g1, g2, g3, g4, to_ℕ, of_ℕ, add, sub, mul, five, Five-discrete, mul_assoc, mul_comm,
  mul-one,
}
use oprf_service.Algebra.Suite.{Suite}

abbrev pub total : List ℕ → ℕ
total [] = 0
total (n ∷ ns) = n + total ns

abbrev pub sum_of : List Five → ℕ
sum_of [] = 0
sum_of (a ∷ as') = to_ℕ a + sum_of as'

-- Some function of the state and the index.
abbrev pub mix : List Five → ℕ → Five
mix state i = of_ℕ (sum_of state + i)

abbrev pub product_sum : List Five → List Five → Five
product_sum [] ss = g0
product_sum (p ∷ ps) [] = g0
product_sum (p ∷ ps) (s ∷ ss) = add (mul p s) (product_sum ps ss)

abbrev pub is_g0 : Five → Bool
is_g0 g0 = true
is_g0 _ = false

pub is_g0_iff : (p : Five) → (is_g0 p ≡ true) ↔ (p ≡ g0)
is_g0_iff g0 = ((λ h. refl), λ h. refl)
is_g0_iff g1 = ((λ h. absurd (cc h)), λ h. absurd (cc h))
is_g0_iff g2 = ((λ h. absurd (cc h)), λ h. absurd (cc h))
is_g0_iff g3 = ((λ h. absurd (cc h)), λ h. absurd (cc h))
is_g0_iff g4 = ((λ h. absurd (cc h)), λ h. absurd (cc h))

pub one-mul : (a : Five) → mul g1 a ≡ a
one-mul a = mul_comm g1 a ∙ mul-one a

pub product_sum-nil : (ps : List Five) → product_sum ps [] ≡ g0
product_sum-nil [] = refl
product_sum-nil (p ∷ ps) = refl

abbrev pub line : Suite Five Five Five five
line = record {
  generator = g1;
  identity = g0;
  ◌⊕◌ = add;
  ◌⊖◌ = sub;
  scale = mul;
  msm = product_sum;
  x = λ p. p;
  y = λ p. g1;
  is_zero = is_g0;
  is_on_curve = λ p. true;
  is_in_subgroup = λ p. true;
  point_discrete = Five-discrete;
  permutation_t3 = mix;
  permutation_t4 = mix;
  permutation_t16 = mix;
  blake3_xof = λ bytes n. total bytes ∷ [];
  serialize_compressed = λ p. to_ℕ p ∷ [];
  to_bytes_le = λ a. to_ℕ a ∷ [];
  base_from_be_bytes_mod_order = λ bytes. of_ℕ (total bytes);
  scalar_from_le_bytes_mod_order = λ bytes. of_ℕ (total bytes);
  scale-scale = λ a b. mul_assoc g1 a b;
  scale-⊕ = λ a b. ap₂ add (one-mul a) (one-mul b) ∙ sym (one-mul (add a b));
  scale-⊖ = λ a b. ap₂ sub (one-mul a) (one-mul b) ∙ sym (one-mul (sub a b));
  scale-zero = refl;
  scale-one = refl;
  scale-injective = λ a b e. sym (one-mul a) ∙ e ∙ one-mul b;
  scale-on_curve = λ a. refl;
  scale-in_subgroup = λ a. refl;
  scale-surjective = λ p h k. (p, sym (one-mul p));
  is_zero_iff = is_g0_iff;
  msm-nil = λ ss. refl;
  msm-nil_right = product_sum-nil;
  msm-cons = λ p ps s ss. refl;
}
