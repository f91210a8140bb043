-- ===== src/Core/Keygen/Encryption.antt =====
-- Shares sent from one party to another: what is encrypted is what the receiver decrypts.
use oprf_service.Base.{ℕ, ◌≤◌, ◌<◌, ◌+◌, ◌≡◌, refl, sym, ap, ◌∙◌, List, [], ◌∷◌, some, arith}
use oprf_service.Algebra.Field.{Field, add-sub_cancel, add_comm}
use oprf_service.Algebra.Suite.{Suite}
use oprf_service.Core.Shamir.{◌>>=◌}
use oprf_service.Core.Shamir.Poly.{eval, evaluate_poly-eval}
use oprf_service.Core.Keygen.{
  KeyGenPoly, interpret_scalarfield_as_basefield, basefield_as_scalarfield_if_fits,
  dh_key_derivation, get_t1_ds, sym_encrypt, sym_decrypt, decrypt_share, gen_share,
}

module _ {Fr Fq Affine : Type 0} ⦃S : Field Fr⦄ ⦃B : Field Fq⦄ (C : Suite Fr Fq Affine S) where
  open C use {generator, scale, x}

  fits : (msg : Fr) → S.modulus ≤ B.modulus → S.into_bigint msg < B.modulus
  fits msg h = omega (arith, h, S.into_bigint-lt msg)

  interpret_scalarfield_as_basefield-fits :
      (msg : Fr)
      → S.modulus ≤ B.modulus
      → interpret_scalarfield_as_basefield C msg ≡ some (B.of_ℕ (S.into_bigint msg))
  unfolding interpret_scalarfield_as_basefield
  interpret_scalarfield_as_basefield-fits msg h = B.from_bigint-lt _ (fits msg h)

  basefield_as_scalarfield_if_fits-interpret :
      (msg : Fr)
      → S.modulus ≤ B.modulus
      → basefield_as_scalarfield_if_fits C (B.of_ℕ (S.into_bigint msg)) ≡ some msg
  unfolding basefield_as_scalarfield_if_fits
  basefield_as_scalarfield_if_fits-interpret msg h =
      ap S.from_bigint (B.into_bigint-of_ℕ (S.into_bigint msg) (fits msg h))
      ∙ S.from_bigint-lt _ (S.into_bigint-lt msg)
      ∙ ap some (S.of_ℕ-into_bigint msg)

  ciphertext_of : Fq → Fr → Fq → Fq
  ciphertext_of key msg nonce =
      B.◌+◌ (C.permutation_t3 (get_t1_ds C ∷ key ∷ nonce ∷ []) 1) (B.of_ℕ (S.into_bigint msg))

  sym_encrypt-ciphertext :
      (key nonce : Fq) (msg : Fr)
      → S.modulus ≤ B.modulus
      → sym_encrypt C key msg nonce ≡ some (ciphertext_of key msg nonce)
  unfolding sym_encrypt ciphertext_of
  sym_encrypt-ciphertext key nonce msg h = rw (interpret_scalarfield_as_basefield-fits msg h) refl

  cancel : (a b : Fq) → B.◌-◌ (B.◌+◌ a b) a ≡ b
  cancel a b = ap (λ t. B.◌-◌ t a) (add_comm a b) ∙ add-sub_cancel b a

  sym_decrypt-ciphertext :
      (key nonce : Fq) (msg : Fr)
      → S.modulus ≤ B.modulus
      → sym_decrypt C key (ciphertext_of key msg nonce) nonce ≡ some msg
  unfolding sym_decrypt ciphertext_of
  sym_decrypt-ciphertext key nonce msg h =
      ap (basefield_as_scalarfield_if_fits C) (cancel _ _)
      ∙ basefield_as_scalarfield_if_fits-interpret msg h

  -- Where the scalar field is no larger than the base field, encryption does not panic, and
  -- decryption with the same key and nonce gives the message back.
  pub sym_decrypt-sym_encrypt :
      (key nonce : Fq) (msg : Fr)
      → S.modulus ≤ B.modulus
      → (do ciphertext ← sym_encrypt C key msg nonce; sym_decrypt C key ciphertext nonce) ≡ some msg
  sym_decrypt-sym_encrypt key nonce msg h =
      rw (sym_encrypt-ciphertext key nonce msg h) (sym_decrypt-ciphertext key nonce msg h)

  -- Both ends of a pair derive one key.
  dh_key_derivation-exp :
      (a b : Fr)
      → dh_key_derivation C a (scale generator b) ≡ dh_key_derivation C b (scale generator a)
  unfolding dh_key_derivation
  dh_key_derivation-exp a b =
      ap x (C.scale-scale b a ∙ ap (scale generator) (S.mul_comm b a) ∙ sym (C.scale-scale a b))

  -- What a dealer with key `a` encrypts for the party `id` with key `b`, that party decrypts with
  -- the dealer's public key, to the value of the polynomial at `id + 1`; the commitment sent along
  -- is the generator times that value. The polynomial has a coefficient, and the scalar field is no
  -- larger than the base field.
  pub decrypt_share-gen_share :
      (dealt : KeyGenPoly Fr Fq Affine) (c : Fr) (cs : List Fr) (id : ℕ) (a b : Fr) (nonce : Fq)
      → dealt.poly ≡ c ∷ cs
      → S.modulus ≤ B.modulus
      → (do
        sent ← gen_share C dealt id a (scale generator b) nonce
        share ← decrypt_share C b (scale generator a) sent.ciphertext sent.nonce
        let received : Fr × Affine = (share, sent.commitment)
        some received)
        ≡ some (eval (c ∷ cs) (S.of_ℕ (id + 1)), scale generator (eval (c ∷ cs) (S.of_ℕ (id + 1))))
  unfolding gen_share decrypt_share
  decrypt_share-gen_share dealt c cs id a b nonce e h =
      rw
        (
          e,
          C.scale-on_curve b,
          C.scale-in_subgroup b,
          evaluate_poly-eval c cs (S.of_ℕ (id + 1)),
          dh_key_derivation-exp a b,
          sym_encrypt-ciphertext (dh_key_derivation C b (scale generator a)) nonce
              (eval (c ∷ cs) (S.of_ℕ (id + 1))) h,
          sym_decrypt-ciphertext (dh_key_derivation C b (scale generator a)) nonce
              (eval (c ∷ cs) (S.of_ℕ (id + 1))) h,
        )
        refl
