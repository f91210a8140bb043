-- ===== src/Algebra/Field.antt =====
-- A prime field, as `ark_ff::PrimeField` promises it, and what follows from its laws.
use oprf_service.Base.{ℕ, ◌<◌, ◌≤◌, ◌≡◌, sym, ap, ◌∙◌, ◌≢◌, Option, none, some, ◌≡⟨◌⟩◌, ◌∎}

-- `inverse` is `none` at zero only. `of_ℕ` stands for `From<u16>` and `From<u64>`.
pub record Field (F : Type 0) : Type 0 where
  pub zero : F
  pub one : F
  pub ◌+◌ : F → F → F
  pub ◌-◌ : F → F → F
  pub ◌*◌ : F → F → F
  pub inverse : F → Option F
  pub of_ℕ : ℕ → F
  pub discrete : Discrete F
  pub modulus : ℕ
  pub into_bigint : F → ℕ
  pub from_bigint : ℕ → Option F
  infixl 65 ◌+◌ ◌-◌
  infixl 70 ◌*◌
  pub add_comm : (a b : F) → a + b ≡ b + a
  pub add_assoc : (a b c : F) → a + b + c ≡ a + (b + c)
  pub add-zero : (a : F) → a + zero ≡ a
  pub sub-add_cancel : (a b : F) → a - b + b ≡ a
  pub mul_comm : (a b : F) → a * b ≡ b * a
  pub mul_assoc : (a b c : F) → a * b * c ≡ a * (b * c)
  pub mul-one : (a : F) → a * one ≡ a
  pub mul-add : (a b c : F) → a * (b + c) ≡ a * b + a * c
  pub inverse-zero : inverse zero ≡ none
  pub mul-inverse : (a : F) → a ≢ zero → (b : F) × (inverse a ≡ some b) × (a * b ≡ one)
  pub one-ne-zero : one ≢ zero
  pub into_bigint-lt : (a : F) → into_bigint a < modulus
  pub of_ℕ-into_bigint : (a : F) → of_ℕ (into_bigint a) ≡ a
  pub into_bigint-of_ℕ : (n : ℕ) → n < modulus → into_bigint (of_ℕ n) ≡ n
  pub from_bigint-lt : (n : ℕ) → n < modulus → from_bigint n ≡ some (of_ℕ n)
  pub from_bigint-ge : (n : ℕ) → modulus ≤ n → from_bigint n ≡ none

module _ {F : Type 0} ⦃K : Field F⦄ where
  open K use {zero, one, ◌+◌, ◌-◌, ◌*◌, inverse, sub-add_cancel, mul-inverse}

  infixl 65 ◌+◌ ◌-◌
  infixl 70 ◌*◌
  -- The laws once more, as lemmas that a set may list.
  pub add_comm : (a b : F) → a + b ≡ b + a
  add_comm a b = K.add_comm a b

  pub add_assoc : (a b c : F) → a + b + c ≡ a + (b + c)
  add_assoc a b c = K.add_assoc a b c

  pub add-zero : (a : F) → a + zero ≡ a
  add-zero a = K.add-zero a

  pub mul_comm : (a b : F) → a * b ≡ b * a
  mul_comm a b = K.mul_comm a b

  pub mul_assoc : (a b c : F) → a * b * c ≡ a * (b * c)
  mul_assoc a b c = K.mul_assoc a b c

  pub mul-one : (a : F) → a * one ≡ a
  mul-one a = K.mul-one a

  pub mul-add : (a b c : F) → a * (b + c) ≡ a * b + a * c
  mul-add a b c = K.mul-add a b c

  pub add_left_comm : (a b c : F) → a + (b + c) ≡ b + (a + c)
  add_left_comm a b c = sym (add_assoc a b c) ∙ ap (λ x. x + c) (add_comm a b) ∙ add_assoc b a c

  pub mul_left_comm : (a b c : F) → a * (b * c) ≡ b * (a * c)
  mul_left_comm a b c = sym (mul_assoc a b c) ∙ ap (λ x. x * c) (mul_comm a b) ∙ mul_assoc b a c

  pub zero-add : (a : F) → zero + a ≡ a
  zero-add a = add_comm zero a ∙ add-zero a

  pub one-mul : (a : F) → one * a ≡ a
  one-mul a = mul_comm one a ∙ mul-one a

  pub add-mul : (a b c : F) → (a + b) * c ≡ a * c + b * c
  add-mul a b c = simp (mul_comm, mul-add)

  -- What must be added to `a` to reach zero.
  negated : (a : F) → a + (zero - a) ≡ zero
  negated a = add_comm a (zero - a) ∙ sub-add_cancel zero a

  pub add_right_cancel : (a b c : F) → a + c ≡ b + c → a ≡ b
  add_right_cancel a b c h =
      a
      ≡⟨ (sym (rw (add_assoc, negated, add-zero))) ⟩ (a + c) + (zero - c)
      ≡⟨ ap (λ x. x + (zero - c)) h ⟩ (b + c) + (zero - c)
      ≡⟨ (rw (add_assoc, negated, add-zero)) ⟩ b ∎

  pub add_left_cancel : (a b c : F) → c + a ≡ c + b → a ≡ b
  add_left_cancel a b c h = add_right_cancel a b c (add_comm a c ∙ h ∙ add_comm c b)

  pub mul-zero : (a : F) → a * zero ≡ zero
  mul-zero a =
      add_right_cancel _ _ (a * zero)
        (sym (mul-add a zero zero) ∙ ap (λ x. a * x) (add-zero zero) ∙ sym (zero-add (a * zero)))

  pub zero-mul : (a : F) → zero * a ≡ zero
  zero-mul a = mul_comm zero a ∙ mul-zero a

  pub ruleset semiring = (
    add_comm, add_assoc, add_left_comm, mul_comm, mul_assoc, mul_left_comm, mul-add, add-mul,
    add-zero, zero-add, mul-zero, zero-mul, mul-one, one-mul,
  )

  pub add-sub : (a b : F) → b + (a - b) ≡ a
  add-sub a b = add_comm b (a - b) ∙ sub-add_cancel a b

  pub sub_self : (a : F) → a - a ≡ zero
  sub_self a = add_right_cancel _ _ a (sub-add_cancel a a ∙ sym (zero-add a))

  pub add-sub_cancel : (a b : F) → a + b - b ≡ a
  add-sub_cancel a b = add_right_cancel _ _ b (sub-add_cancel (a + b) b)

  pub sub-ne-zero : (a b : F) → a ≢ b → a - b ≢ zero
  sub-ne-zero a b h e = h (sym (sub-add_cancel a b) ∙ ap (λ x. x + b) e ∙ zero-add b)

  -- `inverse` with zero where the code would panic.
  pub inv : F → F
  inv a = elim (inverse a) [ none ↦ zero | some b ↦ b ]

  pub inverse-inv : (a : F) → a ≢ zero → inverse a ≡ some (inv a)
  unfolding inv
  inverse-inv a h = let (b, e, m) = mul-inverse a h in rw (e, inv)

  pub mul-inv : (a : F) → a ≢ zero → a * inv a ≡ one
  unfolding inv
  mul-inv a h = let (b, e, m) = mul-inverse a h in rw (e, inv) m

  pub mul_left_cancel : (a b c : F) → c ≢ zero → c * a ≡ c * b → a ≡ b
  mul_left_cancel a b c h e =
      a
      ≡⟨ (sym (rw (mul-inv c h, one-mul))) ⟩ c * inv c * a
      ≡⟨ (simp semiring) ⟩ inv c * (c * a)
      ≡⟨ ap (λ x. inv c * x) e ⟩ inv c * (c * b)
      ≡⟨ (simp semiring) ⟩ c * inv c * b
      ≡⟨ (rw (mul-inv c h, one-mul)) ⟩ b ∎

  pub mul-ne-zero : (a b : F) → a ≢ zero → b ≢ zero → a * b ≢ zero
  mul-ne-zero a b ha hb e = hb (mul_left_cancel b zero a ha (e ∙ sym (mul-zero a)))

  pub inv_unique : (a b : F) → a ≢ zero → a * b ≡ one → inv a ≡ b
  inv_unique a b h e = mul_left_cancel (inv a) b a h (mul-inv a h ∙ sym e)

  pub inv-mul : (a b : F) → a ≢ zero → b ≢ zero → inv (a * b) ≡ inv a * inv b
  inv-mul a b ha hb = inv_unique (a * b) (inv a * inv b) (mul-ne-zero a b ha hb) (
      a * b * (inv a * inv b)
      ≡⟨ (simp semiring) ⟩ a * inv a * (b * inv b)
      ≡⟨ (rw (mul-inv a ha, mul-inv b hb, mul-one)) ⟩ one ∎)

  pub of_ℕ-injective : (m n : ℕ) → m < K.modulus → n < K.modulus → K.of_ℕ m ≡ K.of_ℕ n → m ≡ n
  of_ℕ-injective m n hm hn e =
      sym (K.into_bigint-of_ℕ m hm) ∙ ap K.into_bigint e ∙ K.into_bigint-of_ℕ n hn

  pub inv-one : inv one ≡ one
  inv-one = inv_unique one one K.one-ne-zero (mul-one one)
