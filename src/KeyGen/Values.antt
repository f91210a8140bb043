-- ===== src/KeyGen/Values.antt =====
-- oprf-key-gen/src/services/secret_gen.rs: the values that a node keeps between the rounds, and what
-- it makes of the ciphertexts that it receives. What the random generator gives is an argument; a
-- panic is `none`.
pub mod Decrypt
use oprf_service.Base.{
  ℕ, suc, zero, List, [], ◌∷◌, Option, none, some, Result, ok, err, ok_or, get_elem?,
}
use mathlib.Core.Logic.{ite}
use oprf_service.Algebra.Field.{Field}
use oprf_service.Algebra.Suite.{Suite}
use oprf_service.Core.Keygen.{
  KeyGenPoly, new, reshare, decrypt_share, accumulate_shares, accumulate_lagrange_shares,
}
use oprf_service.Types.Chain.{
  Report, report, SecretGenCiphertext, Round1Contribution, round1_from_commitment, round1_from_key,
}

pub data Contributions (Fr : Type 0) : Type 0 where
  full : Contributions Fr
  shamir : List Fr → Contributions Fr

pub record KeyGenIntermediateValues (Fr Fq Affine : Type 0) : Type 0 where
  pub sk : Fr
  pub poly : Option (KeyGenPoly Fr Fq Affine)

-- What a fresh random generator gives: the secret, the further coefficients and the private key.
pub record Randomness (Fr : Type 0) : Type 0 where
  pub secret : Fr
  pub coeff : ℕ → Fr
  pub sk : Fr

unfoldable pub sample : {F : Type 0} → ℕ → (ℕ → F) → List F
sample zero draw = []
sample (suc n) draw = draw 0 ∷ sample n (λ i. draw (suc i))

infixl 6 ◌>>?◌
-- `?` where the rest may panic.
abbrev pub ◌>>?◌ :
    {A B : Type 0}
    → Option (Result Report A)
    → (A → Option (Result Report B))
    → Option (Result Report B)
none >>? f = none
some (err e) >>? f = some (err e)
some (ok a) >>? f = f a

-- A value whose computation may panic.
abbrev pub or_panic : {A : Type 0} → Option A → Option (Result Report A)
or_panic none = none
or_panic (some a) = some (ok a)

module _ {Fr Fq Affine : Type 0} ⦃S : Field Fr⦄ ⦃B : Field Fq⦄ (C : Suite Fr Fq Affine S) where
  open C use {generator, scale, point_discrete}

  unfoldable pub get_public_key : Fr → Affine
  get_public_key sk = scale generator sk

  unfoldable pub new_values : ℕ → Randomness Fr → Option (KeyGenIntermediateValues Fr Fq Affine)
  unfolding sample
  new_values degree rng = elim (new C rng.secret (sample degree rng.coeff)) [
    | none ↦ none
    | some poly ↦ some (record { sk = rng.sk; poly = some poly })
  ]

  unfoldable pub reshare_values :
      Fr → ℕ → Randomness Fr → Option (KeyGenIntermediateValues Fr Fq Affine)
  unfolding sample
  reshare_values old_share degree rng = elim (reshare C old_share (sample degree rng.coeff)) [
    | none ↦ none
    | some poly ↦ some (record { sk = rng.sk; poly = some poly })
  ]

  unfoldable pub consumer : Randomness Fr → KeyGenIntermediateValues Fr Fq Affine
  consumer rng = record { sk = rng.sk; poly = none }

  -- The shares of the ciphertexts from the index `idx` on; `pks[idx]` panics out of range.
  unfoldable pub decrypt_each :
      Fr → List Affine → ℕ → List (SecretGenCiphertext Fq Affine) → Option (Result Report (List Fr))
  decrypt_each sk pks idx [] = some (ok [])
  decrypt_each sk pks idx (cipher ∷ ciphers) =
      let rest = decrypt_each sk pks (suc idx) ciphers in
      or_panic (get_elem? pks idx) >>? (λ their_pk.
        some (ok_or (decrypt_share C sk their_pk cipher.cipher cipher.nonce) report) >>? (λ share.
          ite (point_discrete (scale generator share) cipher.commitment)
            (rest >>? (λ shares. some (ok (share ∷ shares)))) (some (err report))))

  unfoldable pub combine : Contributions Fr → List Fr → Option (Result Report Fr)
  combine full shares = some (ok (accumulate_shares shares))
  combine (shamir lagrange) shares = or_panic (accumulate_lagrange_shares shares lagrange)

  unfoldable pub decrypt_key_gen_ciphertexts :
      List (SecretGenCiphertext Fq Affine)
      → KeyGenIntermediateValues Fr Fq Affine
      → Contributions Fr
      → List Affine
      → Option (Result Report Fr)
  unfolding decrypt_each combine
  decrypt_key_gen_ciphertexts ciphers intermediates sharing_type pks =
      decrypt_each intermediates.sk pks 0 ciphers >>? combine sharing_type

module _ {Fr Fq Affine : Type 0} ⦃S : Field Fr⦄ ⦃B : Field Fq⦄ (C : Suite Fr Fq Affine S)
    (new_unchecked : Fq → Fq → Affine) where
  unfoldable pub build_round1_contribution :
      KeyGenIntermediateValues Fr Fq Affine → Round1Contribution
  unfolding get_public_key
  build_round1_contribution values = elim values.poly [
    | some poly ↦ round1_from_commitment C new_unchecked (record {
      comm_share = poly.comm_share;
      comm_coeffs = poly.comm_coeffs;
      eph_pub_key = get_public_key C values.sk;
    })
    | none ↦ round1_from_key C new_unchecked (get_public_key C values.sk)
  ]
