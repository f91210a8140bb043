-- ===== src/KeyGen/Rounds/Runs.antt =====
-- What every call of the secret manager keeps, a round keeps.
use oprf_service.Base.{ℕ, ◌-◌, List, Option, none, some, ok}
use oprf_service.Algebra.Field.{Field}
use oprf_service.Algebra.Suite.{Suite}
use oprf_service.Types.{prev}
use oprf_service.Types.Chain.{SecretGenCiphertext, SecretGenCiphertexts, Round1Contribution}
use oprf_service.KeyGen.Effects.Kept.{
  IsClosed, Keeps, Kept, ◌>>=◌, pure, lifted, lifted_panic, called,
}
use oprf_service.KeyGen.Manager.{SecretManager, Call, ManagerKeeps}
use oprf_service.KeyGen.Values.{
  Contributions, KeyGenIntermediateValues, Randomness, new_values, build_round1_contribution,
  decrypt_key_gen_ciphertexts,
}
use oprf_service.KeyGen.Proof.{CircomGroth16Material, compute_keygen_proof}
use oprf_service.KeyGen.Rounds.{
  SecretGenError, secret_manager_error, join, with_context, store_round1, reshare_from,
  delete_oprf_key_material, abort_keygen, key_gen_round1, producer_round2, round3, finalize,
  reshare_round1,
}

module _ {Fr Fq Affine St : Type 0} ⦃S : Field Fr⦄ ⦃B : Field Fq⦄ (C : Suite Fr Fq Affine S)
    (new_unchecked : Fq → Fq → Affine)
    (secret_manager : SecretManager St Fr Affine (KeyGenIntermediateValues Fr Fq Affine))
    (R : St → St → Type 0) ⦃closed : IsClosed R⦄ (May : Call → Type 0)
    (manager : ManagerKeeps R May secret_manager) where
  abbrev Rounds : Type 0 → Type 0
  Rounds A = Kept R SecretGenError A

  pub delete-Keeps :
      (id : ℕ)
      → May (Call.delete id)
      → Keeps R (delete_oprf_key_material C new_unchecked secret_manager id)
  unfolding delete_oprf_key_material
  delete-Keeps = manager.delete

  pub abort-Keeps :
      (id : ℕ) → May (Call.abort id) → Keeps R (abort_keygen C new_unchecked secret_manager id)
  unfolding abort_keygen
  abort-Keeps = manager.abort

  stored :
      (id epoch : ℕ)
      → May (Call.try_store id epoch)
      → Option (KeyGenIntermediateValues Fr Fq Affine)
      → Rounds Round1Contribution
  stored id epoch m values = do
    v ← lifted_panic (elim values [ none ↦ none | some v ↦ some (ok v) ])
    w ←
        called secret_manager_error (secret_manager.try_store_keygen_intermediates id epoch v)
          (manager.try_store id epoch m v)
    pure (build_round1_contribution C new_unchecked w)

  pub key_gen_round1-Keeps :
      (id epoch threshold : ℕ)
      → May (Call.try_store id epoch)
      → (rng : Randomness Fr)
      → Keeps R (key_gen_round1 C new_unchecked secret_manager id epoch threshold rng)
  unfolding key_gen_round1 store_round1 stored
  key_gen_round1-Keeps id epoch threshold m rng =
      (stored id epoch m (new_values C (threshold - 1) rng)).keeps

  reshared :
      (id epoch : ℕ) → ℕ → May (Call.try_store id epoch) → Randomness Fr → Rounds Round1Contribution
  reshared id epoch threshold m rng = do
    old_share ←
        called secret_manager_error (secret_manager.get_share_by_epoch id (prev epoch))
          (manager.get_share id (prev epoch))
    stored id epoch m (reshare_from C new_unchecked secret_manager threshold rng old_share)

  pub reshare_round1-Keeps :
      (id epoch threshold : ℕ)
      → May (Call.try_store id epoch)
      → (rng : Randomness Fr)
      → Keeps R (reshare_round1 C new_unchecked secret_manager id epoch threshold rng)
  unfolding reshare_round1 store_round1 stored reshared
  reshare_round1-Keeps id epoch threshold m rng = (reshared id epoch threshold m rng).keeps

  produced :
      {Proof : Type 0}
      → CircomGroth16Material Proof Fr Fq Affine
      → (ℕ → Fq)
      → ℕ
      → ℕ
      → List Affine
      → Rounds (SecretGenCiphertexts Proof Fq Affine)
  produced material draw id epoch pks = do
    v ←
        called secret_manager_error (secret_manager.fetch_keygen_intermediates id epoch)
          (manager.fetch id epoch)
    lifted (join (compute_keygen_proof C new_unchecked material draw v pks))

  pub producer_round2-Keeps :
      {Proof : Type 0} (material : CircomGroth16Material Proof Fr Fq Affine) (draw : ℕ → Fq)
      (id epoch : ℕ) (pks : List Affine)
      → Keeps R (producer_round2 C new_unchecked secret_manager material draw id epoch pks)
  unfolding producer_round2 produced
  producer_round2-Keeps material draw id epoch pks = (produced material draw id epoch pks).keeps

  received :
      (id epoch : ℕ)
      → May (Call.store_share id epoch)
      → List (SecretGenCiphertext Fq Affine)
      → Contributions Fr
      → List Affine
      → Rounds (Unit {0})
  received id epoch m ciphers sharing_type pks = do
    v ←
        called secret_manager_error (secret_manager.fetch_keygen_intermediates id epoch)
          (manager.fetch id epoch)
    share ← lifted_panic (with_context (decrypt_key_gen_ciphertexts C ciphers v sharing_type pks))
    called secret_manager_error (secret_manager.store_pending_dlog_share id epoch share)
        (manager.store_share id epoch m share)

  pub round3-Keeps :
      (id epoch : ℕ)
      → May (Call.store_share id epoch)
      → (ciphers : List (SecretGenCiphertext Fq Affine)) (sharing_type : Contributions Fr)
        (pks : List Affine)
      → Keeps R (round3 C new_unchecked secret_manager id epoch ciphers sharing_type pks)
  unfolding round3 received
  round3-Keeps id epoch m ciphers sharing_type pks =
      (received id epoch m ciphers sharing_type pks).keeps

  pub finalize-Keeps :
      (id epoch : ℕ)
      → May (Call.confirm id epoch)
      → (public_key : Affine)
      → Keeps R (finalize C new_unchecked secret_manager id epoch public_key)
  unfolding finalize
  finalize-Keeps = manager.confirm
