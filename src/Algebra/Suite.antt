-- ===== src/Algebra/Suite.antt =====
-- The curve group and the hash functions, as `ark_babyjubjub`, `ark_ec`, `poseidon2` and `blake3`
-- promise them. Points of the prime-order subgroup are the multiples of the generator.
use oprf_service.Base.{
  ℕ, ◌≡◌, sym, subst, ap, ◌∙◌, ◌≢◌, ◌↔◌, List, [], ◌∷◌, Bool, true, false, Bool-cases, inl, inr,
}
use oprf_service.Algebra.Field.{Field, mul-ne-zero}

-- `scale` is the product of a point and a scalar. The first laws speak of `scale generator`, which
-- is a bijection between the scalars and the subgroup; `msm` is the multi-scalar product, which
-- stops at the shorter of its lists.
pub record Suite (Fr Fq Affine : Type 0) (S : Field Fr) : Type 0 where
  pub generator : Affine
  pub identity : Affine
  pub ◌⊕◌ : Affine → Affine → Affine
  pub ◌⊖◌ : Affine → Affine → Affine
  pub scale : Affine → Fr → Affine
  pub msm : List Affine → List Fr → Affine
  pub x : Affine → Fq
  pub y : Affine → Fq
  pub is_zero : Affine → Bool
  pub is_on_curve : Affine → Bool
  pub is_in_subgroup : Affine → Bool
  pub point_discrete : Discrete Affine
  -- `permutation(..)[i]` of the three widths.
  pub permutation_t3 : List Fq → ℕ → Fq
  pub permutation_t4 : List Fq → ℕ → Fq
  pub permutation_t16 : List Fq → ℕ → Fq
  pub blake3_xof : List ℕ → ℕ → List ℕ
  pub serialize_compressed : Affine → List ℕ
  pub to_bytes_le : Fq → List ℕ
  pub base_from_be_bytes_mod_order : List ℕ → Fq
  pub scalar_from_le_bytes_mod_order : List ℕ → Fr
  infixl 65 ◌⊕◌ ◌⊖◌
  pub scale-scale : (a b : Fr) → scale (scale generator a) b ≡ scale generator (S.◌*◌ a b)
  pub scale-⊕ : (a b : Fr) → scale generator a ⊕ scale generator b ≡ scale generator (S.◌+◌ a b)
  pub scale-⊖ : (a b : Fr) → scale generator a ⊖ scale generator b ≡ scale generator (S.◌-◌ a b)
  pub scale-zero : scale generator S.zero ≡ identity
  pub scale-one : scale generator S.one ≡ generator
  pub scale-injective : (a b : Fr) → scale generator a ≡ scale generator b → a ≡ b
  pub scale-on_curve : (a : Fr) → is_on_curve (scale generator a) ≡ true
  pub scale-in_subgroup : (a : Fr) → is_in_subgroup (scale generator a) ≡ true
  pub scale-surjective :
      (p : Affine)
      → is_on_curve p ≡ true
      → is_in_subgroup p ≡ true
      → (a : Fr) × (p ≡ scale generator a)
  pub is_zero_iff : (p : Affine) → (is_zero p ≡ true) ↔ (p ≡ identity)
  pub msm-nil : (ss : List Fr) → msm [] ss ≡ identity
  pub msm-nil_right : (ps : List Affine) → msm ps [] ≡ identity
  pub msm-cons :
      (p : Affine) (ps : List Affine) (s : Fr) (ss : List Fr)
      → msm (p ∷ ps) (s ∷ ss) ≡ scale p s ⊕ msm ps ss

module _ {Fr Fq Affine : Type 0} ⦃S : Field Fr⦄ (C : Suite Fr Fq Affine S) where
  open C use {generator, scale, is_zero, is_on_curve, is_in_subgroup}

  -- The generator times a scalar.
  abbrev pub exp : Fr → Affine
  exp a = scale generator a

  -- On the curve and in the large subgroup.
  abbrev pub IsPoint : Affine → Type 0
  IsPoint p = (is_on_curve p ≡ true) × (is_in_subgroup p ≡ true)

  pub is_zero-exp : (a : Fr) → a ≢ S.zero → is_zero (exp a) ≡ false
  is_zero-exp a h = elim (Bool-cases (is_zero (exp a))) [
    | inl z ↦
        absurd (h (C.scale-injective a S.zero ((C.is_zero_iff (exp a)).0 z ∙ sym C.scale-zero)))
    | inr n ↦ n
  ]

  pub exp-ne-zero : (a : Fr) → is_zero (exp a) ≡ false → a ≢ S.zero
  exp-ne-zero a h e = cc (sym h ∙ (C.is_zero_iff (exp a)).1 (ap exp e ∙ C.scale-zero))

  pub exp-IsPoint : (a : Fr) → IsPoint (exp a)
  exp-IsPoint a = (C.scale-on_curve a, C.scale-in_subgroup a)

  pub generator-exp : generator ≡ scale generator S.one
  generator-exp = sym C.scale-one

  pub generator-IsPoint : IsPoint generator
  generator-IsPoint = subst IsPoint C.scale-one (exp-IsPoint S.one)

  pub generator-is_zero : is_zero generator ≡ false
  generator-is_zero = subst (λ p. is_zero p ≡ false) C.scale-one (is_zero-exp S.one S.one-ne-zero)

  pub scale-IsPoint : (p : Affine) (a : Fr) → IsPoint p → IsPoint (scale p a)
  scale-IsPoint p a h =
      let (b, e) = C.scale-surjective p h.0 h.1 in
      rw (e, C.scale-scale b a) (exp-IsPoint (S.◌*◌ b a))

  pub scale-is_zero :
      (p : Affine) (a : Fr)
      → IsPoint p
      → is_zero p ≡ false
      → a ≢ S.zero
      → is_zero (scale p a) ≡ false
  scale-is_zero p a h n ha =
      let (b, e) = C.scale-surjective p h.0 h.1 in
      rw (e, C.scale-scale b a)
        (is_zero-exp (S.◌*◌ b a) (mul-ne-zero b a (exp-ne-zero b (rw e at n)) ha))
