-- ===== src/KeyGen/Proof.antt =====
-- oprf-key-gen/src/services/secret_gen.rs, compute_keygen_proof: the proof of a producer's
-- ciphertexts, and the ciphertexts that its public inputs hold.
use oprf_service.Base.{
  ℕ, ◌+◌, ◌-◌, ◌*◌, suc, zero, List, [], ◌∷◌, Option, none, some, Result, ok, err, ok_or, get_elem?,
  length, if◌then◌else◌, ◌&&◌,
}
use mathlib.Core.Logic.{ite}
use oprf_service.Algebra.Field.{Field}
use oprf_service.Algebra.Suite.{Suite}
use oprf_service.Core.Keygen.{KeyGenPoly}
use oprf_service.Types.Chain.{Report, report, SecretGenCiphertext, SecretGenCiphertexts}
use oprf_service.KeyGen.Values.{KeyGenIntermediateValues, sample, ◌>>?◌, or_panic, get_public_key}

-- The inputs of the circuit.
pub record ProofInputs (Fr Fq Affine : Type 0) : Type 0 where
  pub degree : ℕ
  pub my_sk : Fr
  pub pks : List Affine
  pub poly : List Fr
  pub nonces : List Fq

-- The Groth16 material of the circuit: a proof with its public inputs, and the verifier.
pub record CircomGroth16Material (Proof Fr Fq Affine : Type 0) : Type 0 where
  pub generate_proof : ProofInputs Fr Fq Affine → Result Report (Proof × List Fq)
  pub verify_proof : Proof → List Fq → Result Report (Unit {0})

-- `xs[from..]`, where that is in range.
unfoldable pub drop : {A : Type 0} → ℕ → List A → Option (List A)
drop zero xs = some xs
drop (suc n) [] = none
drop (suc n) (x ∷ xs) = drop n xs

-- The first `n`, where there are as many.
unfoldable pub take : {A : Type 0} → ℕ → List A → Option (List A)
take zero xs = some []
take (suc n) [] = none
take (suc n) (x ∷ xs) = elim (take n xs) [ none ↦ none | some ys ↦ some (x ∷ ys) ]

-- What the public inputs say: the own key, the two commitments, and the ciphertexts.
pub record Outputs (Fq Affine : Type 0) : Type 0 where
  pub pk_computed : Affine
  pub comm_share_computed : Affine
  pub comm_coeffs_computed : Fq
  pub rp_ciphertexts : List (SecretGenCiphertext Fq Affine)

module _ {Fr Fq Affine : Type 0} ⦃S : Field Fr⦄ ⦃B : Field Fq⦄ (C : Suite Fr Fq Affine S) where
  open C use {generator, scale, point_discrete}

  -- The comparison with the own key and commitments.
  unfoldable pub check_outputs :
      {Proof : Type 0}
      → Fr
      → KeyGenPoly Fr Fq Affine
      → Proof
      → Outputs Fq Affine
      → Result Report (SecretGenCiphertexts Proof Fq Affine)
  unfolding get_public_key
  check_outputs sk poly proof outputs =
      ite (point_discrete outputs.pk_computed (get_public_key C sk))
        (ite (point_discrete outputs.comm_share_computed poly.comm_share)
          (ite (B.discrete outputs.comm_coeffs_computed poly.comm_coeffs)
            (ok (record { proof = proof; ciphers = outputs.rp_ciphertexts })) (err report))
          (err report))
        (err report)

module _ {Fr Fq Affine : Type 0} ⦃S : Field Fr⦄ ⦃B : Field Fq⦄ (C : Suite Fr Fq Affine S)
    (new_unchecked : Fq → Fq → Affine) where
  open C use {generator, scale, is_on_curve, is_in_subgroup, point_discrete}

  -- `EdwardsAffine::new`, which panics off the curve and outside of the subgroup.
  abbrev pub affine_new : Fq → Fq → Option Affine
  affine_new px py =
      let p = new_unchecked px py in if is_on_curve p && is_in_subgroup p then some p else none

  -- `public_inputs[i]` and `public_inputs[i + 1]` as a point.
  abbrev pub point_at : List Fq → ℕ → Option Affine
  point_at inputs i = elim (get_elem? inputs i) [
    | none ↦ none
    | some px ↦ elim (get_elem? inputs (i + 1)) [ none ↦ none | some py ↦ affine_new px py ]
  ]

  -- `izip!` of the ciphertexts, the points of the pairs of coordinates, and the nonces.
  unfoldable pub zip_ciphertexts :
      List Fq → List Fq → List Fq → Option (List (SecretGenCiphertext Fq Affine))
  zip_ciphertexts (cipher ∷ ciphers) (px ∷ py ∷ coords) (nonce ∷ nonces) =
      let rest = zip_ciphertexts ciphers coords nonces in
      elim (affine_new px py) [
        | none ↦ none
        | some commitment ↦ elim rest [
          | none ↦ none
          | some more ↦
              some (record { nonce = nonce; cipher = cipher; commitment = commitment } ∷ more)
        ]
      ]
  zip_ciphertexts _ _ _ = some []

  -- The ciphertexts stand at `5..5 + n` of the public inputs, the coordinates of their commitments
  -- behind them.
  unfoldable pub parse_ciphertexts :
      ℕ → List Fq → List Fq → Option (List (SecretGenCiphertext Fq Affine))
  unfolding drop take zip_ciphertexts
  parse_ciphertexts num_parties nonces inputs = elim (drop 5 inputs) [
    | none ↦ none
    | some rest ↦ elim (take num_parties rest) [
      | none ↦ none
      | some ciphers ↦ elim (drop num_parties rest) [
        | none ↦ none
        | some coords ↦ elim (take (num_parties * 2) coords) [
          | none ↦ none
          | some coords ↦ zip_ciphertexts ciphers coords nonces
        ]
      ]
    ]
  ]

  unfoldable pub parse_outputs : ℕ → List Fq → List Fq → Option (Outputs Fq Affine)
  unfolding parse_ciphertexts
  parse_outputs num_parties nonces inputs = elim (point_at inputs 0) [
    | none ↦ none
    | some pk ↦ elim (point_at inputs 2) [
      | none ↦ none
      | some comm_share ↦ elim (get_elem? inputs 4) [
        | none ↦ none
        | some comm_coeffs ↦ elim (parse_ciphertexts num_parties nonces inputs) [
          | none ↦ none
          | some ciphertexts ↦ some (record {
            pk_computed = pk;
            comm_share_computed = comm_share;
            comm_coeffs_computed = comm_coeffs;
            rp_ciphertexts = ciphertexts;
          })
        ]
      ]
    ]
  ]

  unfoldable pub compute_keygen_proof :
      {Proof : Type 0}
      → CircomGroth16Material Proof Fr Fq Affine
      → (ℕ → Fq)
      → KeyGenIntermediateValues Fr Fq Affine
      → List Affine
      → Option (Result Report (SecretGenCiphertexts Proof Fq Affine))
  unfolding sample parse_outputs check_outputs
  compute_keygen_proof key_gen_material draw intermediates pks =
      let num_parties = length pks in
      let nonces = sample num_parties draw in
      some (ok_or intermediates.poly report) >>? (λ poly.
        let inputs : ProofInputs Fr Fq Affine = record {
          degree = length poly.poly - 1;
          my_sk = intermediates.sk;
          pks = pks;
          poly = poly.poly;
          nonces = nonces;
        } in
        some (key_gen_material.generate_proof inputs) >>? (λ (proof, public_inputs).
          some (key_gen_material.verify_proof proof public_inputs) >>? (λ _.
            or_panic (parse_outputs num_parties nonces public_inputs)
            >>? (λ outputs. some (check_outputs C intermediates.sk poly proof outputs)))))
