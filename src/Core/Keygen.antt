-- ===== src/Core/Keygen.antt =====
-- oprf-core/src/keygen.rs: secret polynomials, their commitments, and encrypted shares of them.
-- Random scalars are arguments; a panic is `none`.
pub mod Encryption
pub mod Dealing
pub mod PublicKeys
use oprf_service.Base.{
  ℕ, ◌+◌, List, [], ◌∷◌, Bool, ◌&&◌, Option, none, some, codes, length, leb, ◌==◌, if◌then◌else◌,
  zero, suc,
}
use oprf_service.Algebra.Field.{Field}
use oprf_service.Algebra.Suite.{Suite}
use oprf_service.Core.Shamir.{◌>>=◌, dot, evaluate_poly}

pub record KeyGenPoly (Fr Fq Affine : Type 0) : Type 0 where
  pub poly : List Fr
  pub comm_share : Affine
  pub comm_coeffs : Fq

pub record EncryptedShare (Fq Affine : Type 0) : Type 0 where
  pub commitment : Affine
  pub ciphertext : Fq
  pub nonce : Fq

module _ {Fr : Type 0} ⦃S : Field Fr⦄ where
  unfoldable pub fold_shares : Fr → List Fr → Fr
  fold_shares acc [] = acc
  fold_shares acc (x ∷ shares) = fold_shares (S.◌+◌ acc x) shares

  unfoldable pub accumulate_shares : List Fr → Fr
  unfolding fold_shares
  accumulate_shares shares = fold_shares S.zero shares

  unfoldable pub accumulate_lagrange_shares : List Fr → List Fr → Option Fr
  accumulate_lagrange_shares shares lagrange =
      if length shares == length lagrange then some (dot S.zero shares lagrange) else none

-- `&xs[0..n]`, for `n` up to the length.
unfoldable pub slice_to {ℓ} : {A : Type ℓ} → List A → ℕ → List A
slice_to [] n = []
slice_to (x ∷ xs) zero = []
slice_to (x ∷ xs) (suc n) = x ∷ slice_to xs n

module _ {Fr Fq Affine : Type 0} ⦃S : Field Fr⦄ ⦃B : Field Fq⦄ (C : Suite Fr Fq Affine S) where
  open C use {
    generator, scale, msm, x, is_on_curve, is_in_subgroup, permutation_t3, permutation_t4,
    base_from_be_bytes_mod_order,
  }

  -- 0x8000_0002_0000_0001_4142.
  unfoldable pub get_t1_ds : Fq
  get_t1_ds = B.of_ℕ 604462910370264540856642

  unfoldable pub get_coeff_ds : Fq
  get_coeff_ds = base_from_be_bytes_mod_order (codes "KeyGenPolyCoeff")

  unfoldable pub interpret_scalarfield_as_basefield : Fr → Option Fq
  interpret_scalarfield_as_basefield s = B.from_bigint (S.into_bigint s)

  unfoldable pub basefield_as_scalarfield_if_fits : Fq → Option Fr
  basefield_as_scalarfield_if_fits s = S.from_bigint (B.into_bigint s)

  unfoldable pub dh_key_derivation : Fr → Affine → Fq
  dh_key_derivation my_sk their_pk = x (scale their_pk my_sk)

  unfoldable pub sym_encrypt : Fq → Fr → Fq → Option Fq
  unfolding get_t1_ds interpret_scalarfield_as_basefield
  sym_encrypt key msg nonce = do
    let ks = permutation_t3 (get_t1_ds ∷ key ∷ nonce ∷ [])
    msg ← interpret_scalarfield_as_basefield msg
    some (B.◌+◌ (ks 1) msg)

  unfoldable pub sym_decrypt : Fq → Fq → Fq → Option Fr
  unfolding get_t1_ds basefield_as_scalarfield_if_fits
  sym_decrypt key ciphertext nonce =
      let ks = permutation_t3 (get_t1_ds ∷ key ∷ nonce ∷ []) in
      let msg = B.◌-◌ ciphertext (ks 1) in basefield_as_scalarfield_if_fits msg

  unfoldable pub decrypt_share : Fr → Affine → Fq → Fq → Option Fr
  unfolding dh_key_derivation sym_decrypt
  decrypt_share my_sk their_pk ciphertext nonce =
      sym_decrypt (dh_key_derivation my_sk their_pk) ciphertext nonce

  unfoldable pub accumulate_lagrange_pks : List Affine → List Fr → Option Affine
  unfolding slice_to
  accumulate_lagrange_pks pks lagrange =
      if leb (length lagrange) (length pks)
      then some (msm (slice_to pks (length lagrange)) lagrange)
      else none

  -- The permutation in place.
  unfoldable pub permute : Fq → Fq → Fq → Fq → Fq × Fq × Fq × Fq
  permute s0 s1 s2 s3 =
      let out = permutation_t4 (s0 ∷ s1 ∷ s2 ∷ s3 ∷ []) in (out 0, out 1, out 2, out 3)

  -- The loop over `poly[1..].chunks(3)`, to the second entry of the state.
  unfoldable pub absorb : Fq × Fq × Fq × Fq → List Fr → Option Fq
  unfolding interpret_scalarfield_as_basefield permute
  absorb (s0, s1, s2, s3) [] = some s1
  absorb (s0, s1, s2, s3) (a ∷ []) = do
    a ← interpret_scalarfield_as_basefield a
    let (_, out, _, _) = permute s0 (B.◌+◌ s1 a) s2 s3
    some out
  absorb (s0, s1, s2, s3) (a ∷ b ∷ []) = do
    a ← interpret_scalarfield_as_basefield a
    b ← interpret_scalarfield_as_basefield b
    let (_, out, _, _) = permute s0 (B.◌+◌ s1 a) (B.◌+◌ s2 b) s3
    some out
  absorb (s0, s1, s2, s3) (a ∷ b ∷ c ∷ rest) = do
    a ← interpret_scalarfield_as_basefield a
    b ← interpret_scalarfield_as_basefield b
    c ← interpret_scalarfield_as_basefield c
    absorb (permute s0 (B.◌+◌ s1 a) (B.◌+◌ s2 b) (B.◌+◌ s3 c)) rest

  unfoldable pub commit_poly : List Fr → Option (Affine × Fq)
  unfolding get_coeff_ds absorb
  commit_poly [] = none
  commit_poly (secret ∷ coeffs) = do
    let comm_share = scale generator secret
    comm_coeffs ← absorb (get_coeff_ds, B.zero, B.zero, B.zero) coeffs
    some (comm_share, comm_coeffs)

  -- The random coefficients are `degree` many.
  unfoldable pub reshare : Fr → List Fr → Option (KeyGenPoly Fr Fq Affine)
  unfolding commit_poly
  reshare my_share coeffs = do
    let poly = my_share ∷ coeffs
    (comm_share, comm_coeffs) ← commit_poly poly
    some (record { poly = poly; comm_share = comm_share; comm_coeffs = comm_coeffs })

  -- `KeyGenPoly::new`, for a random secret.
  unfoldable pub new : Fr → List Fr → Option (KeyGenPoly Fr Fq Affine)
  unfolding reshare
  new secret coeffs = reshare secret coeffs

  unfoldable pub gen_share :
      KeyGenPoly Fr Fq Affine → ℕ → Fr → Affine → Fq → Option (EncryptedShare Fq Affine)
  unfolding dh_key_derivation sym_encrypt
  gen_share self id my_sk their_pk nonce =
      if is_on_curve their_pk && is_in_subgroup their_pk
      then (do
        let index = S.of_ℕ (id + 1)
        share ← evaluate_poly self.poly index
        let symm_key = dh_key_derivation my_sk their_pk
        ciphertext ← sym_encrypt symm_key share nonce
        some
            (record { commitment = scale generator share; ciphertext = ciphertext; nonce = nonce }))
      else none
