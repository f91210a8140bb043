-- ===== src/KeyGen/Handler/Runs.antt =====
-- What every call of the database and of the chain keeps, the handling of an event keeps.
use oprf_service.Base.{ℕ, ◌≡◌, refl, List, [], ◌∷◌, Option, none, some, Result, map_err}
use oprf_service.Algebra.Field.{Field}
use oprf_service.Algebra.Suite.{Suite}
use oprf_service.Types.Chain.{
  SecretGenCiphertext, affine_try_from, ciphertext_try_from, try_collect, round2_from,
}
use oprf_service.KeyGen.Effects.{M}
use oprf_service.KeyGen.Effects.Kept.{
  IsClosed, Keeps, Kept, ◌>>=◌, ◌>>◌, pure, lifted, called, seen, inside,
}
use oprf_service.KeyGen.Manager.{Call, ManagerKeeps}
use oprf_service.KeyGen.Values.{Contributions}
use oprf_service.KeyGen.Rounds as Rounds
use oprf_service.KeyGen.Rounds.{
  SecretGenError, key_gen_round1, producer_round2, delete_oprf_key_material, abort_keygen,
}
use oprf_service.KeyGen.Errors.{KeyRegistryEventError, internal, from_secret_gen, from_contract}
use oprf_service.KeyGen.Transactions.{
  Transaction, add_round1_keygen_contribution, add_round1_reshare_contribution,
  add_round2_contribution, add_round3_contribution, submit,
}
use oprf_service.KeyGen.Transactions.Runs.{ProviderKeeps, submit-Keeps}
use oprf_service.KeyGen.Rounds.Runs.{
  delete-Keeps, abort-Keeps, key_gen_round1-Keeps, reshare_round1-Keeps, producer_round2-Keeps,
  round3-Keeps, finalize-Keeps,
}
use oprf_service.KeyGen.Events.{KeyRegistryEvent}
use oprf_service.KeyGen.Handler.{
  Registry, KeyRegistryEventHandler, join, join_results, producer_nodes, public_key_of,
  fetch_producer_public_keys, fetch_oprf_public_key, fetch_round2_ciphers,
  fetch_consumer_public_keys, keygen_round1, contribute_round2, round2, round3, confirm_key,
  finalize, reshare_round1, delete, abort, handle,
}

-- The one write that each event may make.
pub Serves : {Fr : Type 0} → KeyRegistryEvent Fr → Call → Type 0
Serves (KeyRegistryEvent.key_gen_round1 id) call = call ≡ Call.try_store id 0
Serves (KeyRegistryEvent.round2 id epoch) call = ⊥
Serves (KeyRegistryEvent.round3 id epoch contributions) call = call ≡ Call.store_share id epoch
Serves (KeyRegistryEvent.finalize id epoch) call = call ≡ Call.confirm id epoch
Serves (KeyRegistryEvent.reshare_round1 id epoch) call = call ≡ Call.try_store id epoch
Serves (KeyRegistryEvent.delete id) call = call ≡ Call.delete id
Serves (KeyRegistryEvent.abort id) call = call ≡ Call.abort id
Serves (KeyRegistryEvent.not_enough_producers id) call = ⊥
Serves KeyRegistryEvent.unknown call = ⊥

module _ {W : Type 0} (R : W → W → Type 0) where
  -- Every view call goes from a state to a related one.
  pub record RegistryKeeps {E : Type 0} (contract : Registry W E) : Type 0 where
    pub producers : (id : ℕ) (w : W) → R w (contract.load_peer_public_keys_for_producers id w).1
    pub public_key : (id : ℕ) (w : W) → R w (contract.get_oprf_public_key id w).1
    pub ciphers :
        (id : ℕ) (w : W) → R w (contract.check_is_participant_and_return_round2_ciphers id w).1
    pub consumers : (id : ℕ) (w : W) → R w (contract.load_peer_public_keys_for_consumers id w).1

module _ {W Fr Fq Affine E Proof CompressedProof Receipt : Type 0} ⦃S : Field Fr⦄ ⦃B : Field Fq⦄
    (C : Suite Fr Fq Affine S)
    (self : KeyRegistryEventHandler W Fr Fq Affine E Proof CompressedProof Receipt)
    (R : W → W → Type 0) ⦃closed : IsClosed R⦄ (May : Call → Type 0)
    (manager : ManagerKeeps R May self.secret_manager) (registry : RegistryKeeps R self.contract)
    (provider : ProviderKeeps R self.provider) where
  abbrev Handles : Type 0 → Type 0
  Handles A = Kept R (KeyRegistryEventError E) A

  -- A round, with its error converted.
  abbrev rounds : {A : Type 0} (m : M W SecretGenError A) → Keeps R m → Handles A
  rounds m h = inside from_secret_gen (record { run = m; keeps = h })

  submitted : Transaction CompressedProof → Handles ℕ
  submitted t = record {
    run = submit self.decoder self.provider self.backon self.tx t;
    keeps = submit-Keeps R self.decoder self.provider self.backon self.tx provider t;
  }

  producers : ℕ → Handles (List Affine)
  producers id = do
    answer ← seen (self.contract.load_peer_public_keys_for_producers id) (registry.producers id)
    nodes ← lifted (producer_nodes C self answer)
    lifted (map_err internal (try_collect (affine_try_from C self.new_unchecked) nodes))

  public_key : ℕ → Handles (Option Affine)
  public_key id = do
    answer ← seen (self.contract.get_oprf_public_key id) (registry.public_key id)
    lifted (public_key_of C self answer)

  began : (id : ℕ) → May (Call.try_store id 0) → Handles (Unit {0})
  began id m = do
    contribution ←
        rounds
          (λ w.
            key_gen_round1 C self.new_unchecked self.secret_manager id 0 self.threshold (self.rng w)
              w)
          (λ w.
            key_gen_round1-Keeps C self.new_unchecked self.secret_manager R May manager id 0
              self.threshold m (self.rng w) w)
    submitted (add_round1_keygen_contribution id contribution)
    pure tt

  keygen_round1-Keeps : (id : ℕ) → May (Call.try_store id 0) → Keeps R (keygen_round1 C self id)
  unfolding keygen_round1 began submitted
  keygen_round1-Keeps id m = (began id m).keeps

  second_round : ℕ → ℕ → List Affine → Handles (Unit {0})
  second_round id epoch [] = pure tt
  second_round id epoch (node ∷ nodes) = do
    contribution ←
        rounds
          (λ w.
            producer_round2 C self.new_unchecked self.secret_manager self.key_gen_material
              (self.draw w) id epoch (node ∷ nodes) w)
          (λ w.
            producer_round2-Keeps C self.new_unchecked self.secret_manager R May manager
              self.key_gen_material (self.draw w) id epoch (node ∷ nodes) w)
    submitted
        (add_round2_contribution id (round2_from C self.new_unchecked self.compress contribution))
    pure tt

  contribute_round2-Keeps :
      (id epoch : ℕ) (nodes : List Affine) → Keeps R (contribute_round2 C self id epoch nodes)
  unfolding contribute_round2 second_round submitted
  contribute_round2-Keeps id epoch [] = (second_round id epoch []).keeps
  contribute_round2-Keeps id epoch (node ∷ nodes) = (second_round id epoch (node ∷ nodes)).keeps

  contributed : ℕ → ℕ → Handles (Unit {0})
  contributed id epoch = do
    nodes ← producers id
    record {
      run = contribute_round2 C self id epoch nodes;
      keeps = contribute_round2-Keeps id epoch nodes;
    }

  round2-Keeps : (id epoch : ℕ) → Keeps R (round2 C self id epoch)
  unfolding round2 fetch_producer_public_keys contributed producers
  round2-Keeps id epoch = (contributed id epoch).keeps

  join_results-state :
      {A X : Type 0} (w : W) (a : Option (Result (KeyRegistryEventError E) A))
      (out : Option (Result (KeyRegistryEventError E) X) × W)
      → R w out.1
      → R w (join_results C self a out).1
  join_results-state w none (x, w') h = h
  join_results-state w (some a) (none, w') h = h
  join_results-state w (some a) (some x, w') h = h

  joined : {A X : Type 0} → Handles A → Handles X → Handles (A × X)
  joined first second = record {
    run = join C self first.run second.run;
    keeps = λ w.
        let w' = (first.run w).1 in
        join_results-state w (first.run w).0 (second.run w')
          (closed.transitive w w' (second.run w').1 (first.keeps w) (second.keeps w'));
  }

  fetched : ℕ → Handles (List (SecretGenCiphertext Fq Affine) × List Affine)
  fetched id =
      joined
        (do
          ciphers ←
              called (from_contract self.decoder)
                (self.contract.check_is_participant_and_return_round2_ciphers id)
                (registry.ciphers id)
          lifted
              (map_err internal (try_collect (ciphertext_try_from C self.new_unchecked) ciphers)))
        (do
          pks ←
              called (from_contract self.decoder)
                (self.contract.load_peer_public_keys_for_consumers id) (registry.consumers id)
          lifted (map_err internal (try_collect (affine_try_from C self.new_unchecked) pks)))

  third_round :
      (id epoch : ℕ) → May (Call.store_share id epoch) → Contributions Fr → Handles (Unit {0})
  third_round id epoch m contributions = do
    read ← fetched id
    rounds
        (Rounds.round3 C self.new_unchecked self.secret_manager id epoch read.0 contributions
          read.1)
        (round3-Keeps C self.new_unchecked self.secret_manager R May manager id epoch m read.0
          contributions read.1)
    submitted (add_round3_contribution id)
    pure tt

  round3_lem :
      (id epoch : ℕ)
      → May (Call.store_share id epoch)
      → (contributions : Contributions Fr) → Keeps R (round3 C self id epoch contributions)
  unfolding round3 fetch_round2_ciphers fetch_consumer_public_keys third_round fetched joined
      submitted
  round3_lem id epoch m contributions = (third_round id epoch m contributions).keeps

  confirm_key-Keeps :
      (id epoch : ℕ)
      → May (Call.confirm id epoch)
      → (key : Option Affine) → Keeps R (confirm_key C self id epoch key)
  unfolding confirm_key
  confirm_key-Keeps id epoch m none = closed.reflexive
  confirm_key-Keeps id epoch m (some key) =
      (rounds (Rounds.finalize C self.new_unchecked self.secret_manager id epoch key) (
        finalize-Keeps C self.new_unchecked self.secret_manager R May manager id epoch m key)).keeps

  finalized : (id epoch : ℕ) → May (Call.confirm id epoch) → Handles (Unit {0})
  finalized id epoch m = do
    key ← public_key id
    record { run = confirm_key C self id epoch key; keeps = confirm_key-Keeps id epoch m key }

  finalize_lem : (id epoch : ℕ) → May (Call.confirm id epoch) → Keeps R (finalize C self id epoch)
  unfolding finalize fetch_oprf_public_key finalized public_key
  finalize_lem id epoch m = (finalized id epoch m).keeps

  reshared : (id epoch : ℕ) → May (Call.try_store id epoch) → Handles (Unit {0})
  reshared id epoch m = do
    contribution ←
        rounds
          (λ w.
            Rounds.reshare_round1 C self.new_unchecked self.secret_manager id epoch self.threshold
              (self.rng w) w)
          (λ w.
            reshare_round1-Keeps C self.new_unchecked self.secret_manager R May manager id epoch
              self.threshold m (self.rng w) w)
    submitted (add_round1_reshare_contribution id contribution)
    pure tt

  reshare_round1_lem :
      (id epoch : ℕ) → May (Call.try_store id epoch) → Keeps R (reshare_round1 C self id epoch)
  unfolding reshare_round1 reshared submitted
  reshare_round1_lem id epoch m = (reshared id epoch m).keeps

  pub handle-Keeps :
      (event : KeyRegistryEvent Fr)
      → ((call : Call) → Serves event call → May call)
      → Keeps R (handle C self event)
  unfolding handle delete abort Serves
  handle-Keeps (KeyRegistryEvent.key_gen_round1 id) m = keygen_round1-Keeps id (m _ refl)
  handle-Keeps (KeyRegistryEvent.round2 id epoch) m = round2-Keeps id epoch
  handle-Keeps (KeyRegistryEvent.round3 id epoch contributions) m =
      round3_lem id epoch (m _ refl) contributions
  handle-Keeps (KeyRegistryEvent.finalize id epoch) m = finalize_lem id epoch (m _ refl)
  handle-Keeps (KeyRegistryEvent.reshare_round1 id epoch) m = reshare_round1_lem id epoch (m _ refl)
  handle-Keeps (KeyRegistryEvent.delete id) m =
      (rounds (delete_oprf_key_material C self.new_unchecked self.secret_manager id)
        (delete-Keeps C self.new_unchecked self.secret_manager R May manager id (m _ refl))).keeps
  handle-Keeps (KeyRegistryEvent.abort id) m =
      (rounds (abort_keygen C self.new_unchecked self.secret_manager id)
        (abort-Keeps C self.new_unchecked self.secret_manager R May manager id (m _ refl))).keeps
  handle-Keeps (KeyRegistryEvent.not_enough_producers id) m = closed.reflexive
  handle-Keeps KeyRegistryEvent.unknown m = closed.reflexive
