-- ===== src/Types/Chain.antt =====
-- oprf-types/src/chain.rs and crypto.rs: what the nodes send over the chain. A `U256` is a number,
-- and the contract's structs are records of them.
use oprf_service.Base.{
  ℕ, ◌≡◌, refl, ap, ◌∙◌, List, [], ◌∷◌, map, not, some, Result, ok, err, ok_or, bind_ok, leb,
  if◌then◌else◌,
}
use oprf_service.Algebra.Field.{Field}
use oprf_service.Algebra.Suite.{Suite, IsPoint}

-- `eyre::Report`.
pub data Report : Type 0 where
  report : Report

-- `BabyJubJub::Affine` of the contract.
pub record ChainAffine : Type 0 where
  pub x : ℕ
  pub y : ℕ

pub record SecretGenCommitment (Fq Affine : Type 0) : Type 0 where
  pub comm_share : Affine
  pub comm_coeffs : Fq
  pub eph_pub_key : Affine

pub record SecretGenCiphertext (Fq Affine : Type 0) : Type 0 where
  pub nonce : Fq
  pub cipher : Fq
  pub commitment : Affine

pub record SecretGenCiphertexts (Proof Fq Affine : Type 0) : Type 0 where
  pub proof : Proof
  pub ciphers : List (SecretGenCiphertext Fq Affine)

pub record Round1Contribution : Type 0 where
  pub comm_share : ChainAffine
  pub comm_coeffs : ℕ
  pub eph_pub_key : ChainAffine

-- `OprfKeyGen::SecretGenCiphertext` of the contract.
pub record ChainCiphertext : Type 0 where
  pub nonce : ℕ
  pub cipher : ℕ
  pub commitment : ChainAffine

pub record Round2Contribution (CompressedProof : Type 0) : Type 0 where
  pub compressed_proof : CompressedProof
  pub ciphers : List ChainCiphertext

module _ {Fr : Type 0} ⦃S : Field Fr⦄ where
  unfoldable pub try_u256_into_bjj_fr : ℕ → Result Report Fr
  try_u256_into_bjj_fr value = if leb S.modulus value then err report else ok (S.of_ℕ value)

-- `collect` into a `Result`: the values, or the first error.
unfoldable pub try_collect :
    {A B : Type 0} → (A → Result Report B) → List A → Result Report (List B)
try_collect f [] = ok []
try_collect f (a ∷ rest) = bind_ok (f a) (λ b. bind_ok (try_collect f rest) (λ bs. ok (b ∷ bs)))

module _ {Fr Fq Affine : Type 0} ⦃S : Field Fr⦄ ⦃B : Field Fq⦄ (C : Suite Fr Fq Affine S)
    (new_unchecked : Fq → Fq → Affine) where
  open C use {is_on_curve, is_in_subgroup}

  -- `TryFrom<U256>` for the base field.
  abbrev pub base_try_from : ℕ → Result Report Fq
  base_try_from value = ok_or (B.from_bigint value) report

  unfoldable pub affine_try_from : ChainAffine → Result Report Affine
  affine_try_from value = bind_ok (base_try_from value.x) (λ px.
      bind_ok (base_try_from value.y) (λ py.
        let p = new_unchecked px py in
        if not (is_on_curve p)
        then err report
        else if not (is_in_subgroup p)
        then err report
        else ok p))

  unfoldable pub affine_into : Affine → ChainAffine
  affine_into p = record { x = B.into_bigint (C.x p); y = B.into_bigint (C.y p) }

  unfoldable pub round1_from_commitment : SecretGenCommitment Fq Affine → Round1Contribution
  unfolding affine_into
  round1_from_commitment value = record {
    comm_share = affine_into value.comm_share;
    comm_coeffs = B.into_bigint value.comm_coeffs;
    eph_pub_key = affine_into value.eph_pub_key;
  }

  -- Of a consumer.
  unfoldable pub round1_from_key : Affine → Round1Contribution
  unfolding affine_into
  round1_from_key value = record {
    comm_share = record { x = 0; y = 0 };
    comm_coeffs = 0;
    eph_pub_key = affine_into value;
  }

  unfoldable pub ciphertext_into : SecretGenCiphertext Fq Affine → ChainCiphertext
  unfolding affine_into
  ciphertext_into value = record {
    nonce = B.into_bigint value.nonce;
    cipher = B.into_bigint value.cipher;
    commitment = affine_into value.commitment;
  }

  unfoldable pub ciphertext_try_from :
      ChainCiphertext → Result Report (SecretGenCiphertext Fq Affine)
  unfolding affine_try_from
  ciphertext_try_from value = bind_ok (base_try_from value.nonce) (λ nonce.
      bind_ok (base_try_from value.cipher) (λ cipher.
        bind_ok (affine_try_from value.commitment)
          (λ commitment. ok (record { nonce = nonce; cipher = cipher; commitment = commitment }))))

  -- `compress` is `prepare_compressed_proof`.
  unfoldable pub round2_from :
      {Proof CompressedProof : Type 0}
      → (Proof → CompressedProof)
      → SecretGenCiphertexts Proof Fq Affine
      → Round2Contribution CompressedProof
  unfolding ciphertext_into
  round2_from compress value = record {
    compressed_proof = compress value.proof;
    ciphers = map ciphertext_into value.ciphers;
  }

  base_try_from-into : (a : Fq) → base_try_from (B.into_bigint a) ≡ ok a
  base_try_from-into a =
      ap (λ o. ok_or o report)
        (B.from_bigint-lt _ (B.into_bigint-lt a) ∙ ap some (B.of_ℕ-into_bigint a))

  affine_try_from-into :
      (p : Affine)
      → new_unchecked (C.x p) (C.y p) ≡ p
      → IsPoint C p
      → affine_try_from (affine_into p) ≡ ok p
  unfolding affine_try_from affine_into
  affine_try_from-into p e (curve, subgroup) =
      rw (base_try_from-into (C.x p), base_try_from-into (C.y p), e, curve, subgroup) refl

  -- A ciphertext whose commitment is a point of the subgroup, and is made again of its coordinates,
  -- is read back from the chain as it was written.
  pub ciphertext_try_from-into :
      (value : SecretGenCiphertext Fq Affine)
      → new_unchecked (C.x value.commitment) (C.y value.commitment) ≡ value.commitment
      → IsPoint C value.commitment
      → ciphertext_try_from (ciphertext_into value) ≡ ok value
  unfolding ciphertext_try_from ciphertext_into
  ciphertext_try_from-into value e h =
      rw
        (
          base_try_from-into value.nonce,
          base_try_from-into value.cipher,
          affine_try_from-into value.commitment e h,
        )
        refl
