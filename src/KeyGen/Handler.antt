-- ===== src/KeyGen/Handler.antt =====
-- oprf-key-gen/src/services/key_event_watcher/handler.rs: what a node does on each event. `W` is the
-- state of the world: the tables of the node and the chain.
pub mod Runs
use oprf_service.Base.{ℕ, List, [], ◌∷◌, Option, none, some, Result, ok, err, map_err, bind_ok}
use oprf_service.Algebra.Field.{Field}
use oprf_service.Algebra.Suite.{Suite}
use oprf_service.Types.Chain.{
  Report, report, ChainAffine, ChainCiphertext, SecretGenCiphertext, affine_try_from,
  ciphertext_try_from, try_collect, round2_from,
}
use oprf_service.KeyGen.Effects.{M, ◌>>=◌, ◌>>◌, pure, fail, lift, call, within}
use oprf_service.KeyGen.Manager.{SecretManager}
use oprf_service.KeyGen.Retry.{Backon}
use oprf_service.KeyGen.Values.{Contributions, KeyGenIntermediateValues, Randomness}
use oprf_service.KeyGen.Proof.{CircomGroth16Material}
use oprf_service.KeyGen.Rounds as Rounds
use oprf_service.KeyGen.Rounds.{
  key_gen_round1, producer_round2, delete_oprf_key_material, abort_keygen,
}
use oprf_service.KeyGen.Errors.{
  RpcError, Decoder, KeyRegistryEventError, internal, from_secret_gen, from_contract,
}
use oprf_service.KeyGen.Transactions.{
  Transaction, add_round1_keygen_contribution, add_round1_reshare_contribution,
  add_round2_contribution, add_round3_contribution, Provider, TransactionHandler, submit,
}
use oprf_service.KeyGen.Events as Events
use oprf_service.KeyGen.Events.{KeyRegistryEvent}

-- The view calls of the contract.
pub record Registry (W E : Type 0) : Type 0 where
  pub load_peer_public_keys_for_producers : ℕ → W → Result E (List ChainAffine) × W
  pub get_oprf_public_key : ℕ → W → Result E ChainAffine × W
  pub check_is_participant_and_return_round2_ciphers : ℕ → W → Result E (List ChainCiphertext) × W
  pub load_peer_public_keys_for_consumers : ℕ → W → Result E (List ChainAffine) × W

-- What the handler is made of: the node's own state, and what it calls. `rng` and `draw` are what
-- the random generators give at a moment.
pub record KeyRegistryEventHandler (W Fr Fq Affine E Proof CompressedProof Receipt : Type 0)
    : Type 0 where
  pub contract : Registry W E
  pub decoder : Decoder E
  pub secret_manager : SecretManager W Fr Affine (KeyGenIntermediateValues Fr Fq Affine)
  pub key_gen_material : CircomGroth16Material Proof Fr Fq Affine
  pub threshold : ℕ
  pub provider : Provider W E CompressedProof Receipt
  pub backon : Backon W RpcError Receipt
  pub tx : TransactionHandler
  pub compress : Proof → CompressedProof
  pub new_unchecked : Fq → Fq → Affine
  pub rng : W → Randomness Fr
  pub draw : W → ℕ → Fq

-- A report of what was read from the chain.
abbrev parsed : {E A : Type 0} → Result Report A → Result (KeyRegistryEventError E) A
parsed r = map_err internal r

module _ {W Fr Fq Affine E Proof CompressedProof Receipt : Type 0} ⦃S : Field Fr⦄ ⦃B : Field Fq⦄
    (C : Suite Fr Fq Affine S)
    (self : KeyRegistryEventHandler W Fr Fq Affine E Proof CompressedProof Receipt) where
  open self use {contract, decoder, secret_manager, new_unchecked}

  abbrev Handles : Type 0 → Type 0
  Handles A = M W (KeyRegistryEventError E) A

  -- `?` of a view call.
  abbrev view : {A : Type 0} → (W → Result E A × W) → Handles A
  view op = call (from_contract decoder) op

  -- A view call whose result is looked at.
  abbrev view_result : {A : Type 0} → (W → Result E A × W) → Handles (Result E A)
  view_result op w = (some (ok (op w).0), (op w).1)

  abbrev submitted : Transaction CompressedProof → Handles ℕ
  submitted transaction = submit decoder self.provider self.backon self.tx transaction

  -- The answer of `loadPeerPublicKeysForProducers`; in the wrong round the node is a consumer.
  unfoldable pub producer_nodes :
      Result E (List ChainAffine) → Result (KeyRegistryEventError E) (List ChainAffine)
  unfolding from_contract
  producer_nodes (ok nodes) = ok nodes
  producer_nodes (err e) = elim (decoder.as_wrong_round e) [
    | some round ↦ ok []
    | none ↦ err (from_contract decoder e)
  ]

  unfoldable pub fetch_producer_public_keys : ℕ → Handles (List Affine)
  unfolding producer_nodes
  fetch_producer_public_keys oprf_key_id = do
    answer ← view_result (contract.load_peer_public_keys_for_producers oprf_key_id)
    nodes ← lift (producer_nodes answer)
    lift (parsed (try_collect (affine_try_from C new_unchecked) nodes))

  -- The answer of `getOprfPublicKey`; `none` for a deleted key.
  unfoldable pub public_key_of :
      Result E ChainAffine → Result (KeyRegistryEventError E) (Option Affine)
  unfolding from_contract
  public_key_of (ok key) =
      bind_ok (parsed (affine_try_from C new_unchecked key)) (λ key. ok (some key))
  public_key_of (err e) = elim (decoder.as_deleted_id e) [
    | some id ↦ ok none
    | none ↦ err (from_contract decoder e)
  ]

  unfoldable pub fetch_oprf_public_key : ℕ → Handles (Option Affine)
  unfolding public_key_of
  fetch_oprf_public_key oprf_key_id = do
    answer ← view_result (contract.get_oprf_public_key oprf_key_id)
    lift (public_key_of answer)

  unfoldable pub fetch_round2_ciphers : ℕ → Handles (List (SecretGenCiphertext Fq Affine))
  fetch_round2_ciphers oprf_key_id = do
    ciphers ← view (contract.check_is_participant_and_return_round2_ciphers oprf_key_id)
    lift (parsed (try_collect (ciphertext_try_from C new_unchecked) ciphers))

  unfoldable pub fetch_consumer_public_keys : ℕ → Handles (List Affine)
  fetch_consumer_public_keys oprf_key_id = do
    pks ← view (contract.load_peer_public_keys_for_consumers oprf_key_id)
    lift (parsed (try_collect (affine_try_from C new_unchecked) pks))

  -- `tokio::join!`, the first future before the second: both run to their ends, and then the errors
  -- are looked at in order.
  abbrev pub join_results :
      {A X : Type 0}
      → Option (Result (KeyRegistryEventError E) A)
      → Option (Result (KeyRegistryEventError E) X) × W
      → Option (Result (KeyRegistryEventError E) (A × X)) × W
  join_results none (x, w) = (none, w)
  join_results (some a) (none, w) = (none, w)
  join_results (some a) (some x, w) = (some (bind_ok a (λ a. bind_ok x (λ x. ok (a, x)))), w)

  abbrev pub join : {A X : Type 0} → Handles A → Handles X → Handles (A × X)
  join first second w = let (a, w') = first w in join_results a (second w')

  unfoldable pub keygen_round1 : ℕ → Handles (Unit {0})
  keygen_round1 oprf_key_id = do
    contribution ← within from_secret_gen (λ w.
        key_gen_round1 C new_unchecked secret_manager oprf_key_id 0 self.threshold (self.rng w) w)
    submitted (add_round1_keygen_contribution oprf_key_id contribution)
    pure tt

  -- With the public keys of the nodes: without any, as a consumer.
  unfoldable pub contribute_round2 : ℕ → ℕ → List Affine → Handles (Unit {0})
  unfolding producer_round2 round2_from
  contribute_round2 oprf_key_id epoch [] = pure tt
  contribute_round2 oprf_key_id epoch (node ∷ nodes) = do
    contribution ← within from_secret_gen (λ w.
        producer_round2 C new_unchecked secret_manager self.key_gen_material (self.draw w)
          oprf_key_id epoch (node ∷ nodes) w)
    submitted (
        add_round2_contribution oprf_key_id
          (round2_from C new_unchecked self.compress contribution))
    pure tt

  unfoldable pub round2 : ℕ → ℕ → Handles (Unit {0})
  unfolding contribute_round2
  round2 oprf_key_id epoch = do
    nodes ← fetch_producer_public_keys oprf_key_id
    contribute_round2 oprf_key_id epoch nodes

  unfoldable pub round3 : ℕ → ℕ → Contributions Fr → Handles (Unit {0})
  unfolding fetch_round2_ciphers fetch_consumer_public_keys
  round3 oprf_key_id epoch contributions = do
    fetched ← join (fetch_round2_ciphers oprf_key_id) (fetch_consumer_public_keys oprf_key_id)
    within from_secret_gen (
        Rounds.round3 C new_unchecked secret_manager oprf_key_id epoch fetched.0 contributions
          fetched.1)
    submitted (add_round3_contribution oprf_key_id)
    pure tt

  -- A key that is deleted on the chain is left as it is.
  unfoldable pub confirm_key : ℕ → ℕ → Option Affine → Handles (Unit {0})
  confirm_key oprf_key_id epoch none = pure tt
  confirm_key oprf_key_id epoch (some key) =
      within from_secret_gen (Rounds.finalize C new_unchecked secret_manager oprf_key_id epoch key)

  unfoldable pub finalize : ℕ → ℕ → Handles (Unit {0})
  unfolding fetch_oprf_public_key confirm_key
  finalize oprf_key_id epoch = do
    oprf_public_key ← fetch_oprf_public_key oprf_key_id
    confirm_key oprf_key_id epoch oprf_public_key

  unfoldable pub reshare_round1 : ℕ → ℕ → Handles (Unit {0})
  reshare_round1 oprf_key_id epoch = do
    contribution ← within from_secret_gen (λ w.
        Rounds.reshare_round1 C new_unchecked secret_manager oprf_key_id epoch self.threshold
          (self.rng w) w)
    submitted (add_round1_reshare_contribution oprf_key_id contribution)
    pure tt

  unfoldable pub delete : ℕ → Handles (Unit {0})
  delete oprf_key_id =
      within from_secret_gen (delete_oprf_key_material C new_unchecked secret_manager oprf_key_id)

  unfoldable pub abort : ℕ → Handles (Unit {0})
  abort oprf_key_id =
      within from_secret_gen (abort_keygen C new_unchecked secret_manager oprf_key_id)

  unfoldable pub handle : KeyRegistryEvent Fr → Handles (Unit {0})
  unfolding keygen_round1 round2 round3 finalize reshare_round1 delete abort
  handle (KeyRegistryEvent.key_gen_round1 key_id) = keygen_round1 key_id
  handle (KeyRegistryEvent.round2 key_id epoch) = round2 key_id epoch
  handle (KeyRegistryEvent.round3 key_id epoch contributions) = round3 key_id epoch contributions
  handle (KeyRegistryEvent.finalize key_id epoch) = finalize key_id epoch
  handle (KeyRegistryEvent.reshare_round1 key_id epoch) = reshare_round1 key_id epoch
  handle (KeyRegistryEvent.delete key_id) = delete key_id
  handle (KeyRegistryEvent.abort key_id) = abort key_id
  handle (KeyRegistryEvent.not_enough_producers key_id) = pure tt
  handle KeyRegistryEvent.unknown = pure tt
