-- ===== src/KeyGen/Rounds.antt =====
-- oprf-key-gen/src/services/secret_gen.rs: the rounds of key generation and resharing, over a secret
-- manager.
pub mod Again
pub mod Finish
pub mod Runs
use oprf_service.Base.{ℕ, ◌-◌, List, Option, none, some, Result, ok, err, map_err}
use oprf_service.Algebra.Field.{Field}
use oprf_service.Algebra.Suite.{Suite}
use oprf_service.Types.{prev}
use oprf_service.Types.Chain.{Report, SecretGenCiphertext, SecretGenCiphertexts, Round1Contribution}
use oprf_service.KeyGen.Db.{SecretManagerError}
use oprf_service.KeyGen.Effects.{M, ◌>>=◌, pure, lift, lift_panic, call}
use oprf_service.KeyGen.Manager.{SecretManager}
use oprf_service.KeyGen.Values.{
  Contributions, KeyGenIntermediateValues, Randomness, new_values, reshare_values, consumer,
  decrypt_key_gen_ciphertexts, build_round1_contribution,
}
use oprf_service.KeyGen.Proof.{CircomGroth16Material, compute_keygen_proof}

pub data SecretGenError : Type 0 where
  secret_manager_error : SecretManagerError → SecretGenError
  internal : SecretGenError

-- `.context(..)?` of a report.
abbrev pub context : Report → SecretGenError
context _ = internal

abbrev pub with_context : {A : Type 0} → Option (Result Report A) → Option (Result SecretGenError A)
with_context none = none
with_context (some r) = some (map_err context r)

-- A panic of the blocking task is an error where it is joined.
abbrev pub join : {A : Type 0} → Option (Result Report A) → Result SecretGenError A
join none = err internal
join (some r) = map_err context r

module _ {Fr Fq Affine St : Type 0} ⦃S : Field Fr⦄ ⦃B : Field Fq⦄ (C : Suite Fr Fq Affine S)
    (new_unchecked : Fq → Fq → Affine)
    (secret_manager : SecretManager St Fr Affine (KeyGenIntermediateValues Fr Fq Affine)) where
  unfoldable pub delete_oprf_key_material : ℕ → M St SecretGenError (Unit {0})
  delete_oprf_key_material oprf_key_id =
      call secret_manager_error (secret_manager.delete_oprf_key_material oprf_key_id)

  unfoldable pub abort_keygen : ℕ → M St SecretGenError (Unit {0})
  abort_keygen oprf_key_id = call secret_manager_error (secret_manager.abort_keygen oprf_key_id)

  -- Values that may not be computed, and what the database keeps of them.
  unfoldable pub store_round1 :
      ℕ
      → ℕ
      → Option (KeyGenIntermediateValues Fr Fq Affine)
      → M St SecretGenError Round1Contribution
  unfolding build_round1_contribution
  store_round1 oprf_key_id pending_epoch values = do
    intermediates ← lift_panic (elim values [ none ↦ none | some v ↦ some (ok v) ])
    intermediates ←
        call secret_manager_error
          (secret_manager.try_store_keygen_intermediates oprf_key_id pending_epoch intermediates)
    pure (build_round1_contribution C new_unchecked intermediates)

  unfoldable pub key_gen_round1 : ℕ → ℕ → ℕ → Randomness Fr → M St SecretGenError Round1Contribution
  unfolding new_values store_round1
  key_gen_round1 oprf_key_id pending_epoch threshold rng =
      let degree = threshold - 1 in store_round1 oprf_key_id pending_epoch (new_values C degree rng)

  unfoldable pub producer_round2 :
      {Proof : Type 0}
      → CircomGroth16Material Proof Fr Fq Affine
      → (ℕ → Fq)
      → ℕ
      → ℕ
      → List Affine
      → M St SecretGenError (SecretGenCiphertexts Proof Fq Affine)
  unfolding compute_keygen_proof
  producer_round2 key_gen_material draw oprf_key_id pending_epoch pks = do
    intermediate_values ←
        call secret_manager_error
          (secret_manager.fetch_keygen_intermediates oprf_key_id pending_epoch)
    lift (join (compute_keygen_proof C new_unchecked key_gen_material draw intermediate_values pks))

  unfoldable pub round3 :
      ℕ
      → ℕ
      → List (SecretGenCiphertext Fq Affine)
      → Contributions Fr
      → List Affine
      → M St SecretGenError (Unit {0})
  unfolding decrypt_key_gen_ciphertexts
  round3 oprf_key_id pending_epoch ciphers sharing_type pks = do
    intermediate_values ←
        call secret_manager_error
          (secret_manager.fetch_keygen_intermediates oprf_key_id pending_epoch)
    share ←
        lift_panic (
          with_context (decrypt_key_gen_ciphertexts C ciphers intermediate_values sharing_type pks))
    call secret_manager_error
        (secret_manager.store_pending_dlog_share oprf_key_id pending_epoch share)

  unfoldable pub finalize : ℕ → ℕ → Affine → M St SecretGenError (Unit {0})
  finalize oprf_key_id epoch public_key =
      call secret_manager_error (secret_manager.confirm_dlog_share oprf_key_id epoch public_key)

  -- With the share of the previous epoch, if there is one.
  unfoldable pub reshare_from :
      ℕ → Randomness Fr → Option Fr → Option (KeyGenIntermediateValues Fr Fq Affine)
  unfolding reshare_values consumer
  reshare_from threshold rng (some old_share) = reshare_values C old_share (threshold - 1) rng
  reshare_from threshold rng none = some (consumer C rng)

  unfoldable pub reshare_round1 : ℕ → ℕ → ℕ → Randomness Fr → M St SecretGenError Round1Contribution
  unfolding store_round1 reshare_from
  reshare_round1 oprf_key_id pending_epoch threshold rng = do
    old_share ←
        call secret_manager_error
          (secret_manager.get_share_by_epoch oprf_key_id (prev pending_epoch))
    store_round1 oprf_key_id pending_epoch (reshare_from threshold rng old_share)
