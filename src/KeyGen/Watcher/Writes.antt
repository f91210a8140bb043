-- ===== src/KeyGen/Watcher/Writes.antt =====
-- What the handling of an event writes into the tables of the node.
use oprf_service.Base.{
  ℕ, ◌≡◌, refl, sym, subst, ap, List, [], ◌∷◌, Option, none, some, Result, ok, err, map_err, arith,
}
use oprf_service.Algebra.Field.{Field}
use oprf_service.Algebra.Suite.{Suite}
use oprf_service.KeyGen.Db as Db
use oprf_service.KeyGen.Db.{
  ShareRow, KeygenRow, PostgresDbError, SecretManagerError, from_db_error, get_share_by_epoch_inner,
  soft_delete_shares_inner, delete_intermediates_inner, fetch_keygen,
}
use oprf_service.KeyGen.Effects.{call, within}
use oprf_service.KeyGen.Retry.{Backon, Attempt, Store, with_retry}
use oprf_service.KeyGen.Manager.{Beside, manager_beside-ManagerKeeps}
use oprf_service.KeyGen.Postgres.{
  writes, retried, postgres_manager, delete_oprf_key_material, abort_keygen,
}
use oprf_service.KeyGen.Postgres.Runs.{postgres_manager-Keeps, Took, with_retry-Took}
use oprf_service.KeyGen.Values.{KeyGenIntermediateValues}
use oprf_service.KeyGen.Events.{KeyRegistryEvent}
use oprf_service.KeyGen.Errors.{KeyRegistryEventError}
use oprf_service.KeyGen.Rounds as Rounds
use oprf_service.KeyGen.Transactions.Runs.{ProviderKeeps}
use oprf_service.KeyGen.Handler.{KeyRegistryEventHandler, handle, delete, abort}
use oprf_service.KeyGen.Handler.Runs.{RegistryKeeps, Serves, handle-Keeps}
use oprf_service.KeyGen.Watcher.Tables.{World, Apart, over_postgres}
use oprf_service.KeyGen.Watcher.Serving.{
  Serving, still, Serving-IsClosed, Beside-IsClosed, Serving-DbKeeps,
}

module _ {Share PublicKey : Type 0} where
  soft_deleted :
      (id epoch : ℕ) (rows : List (ShareRow Share PublicKey))
      → get_share_by_epoch_inner id epoch (soft_delete_shares_inner id rows).1 ≡ ok none
  unfolding get_share_by_epoch_inner soft_delete_shares_inner
  soft_deleted id epoch [] = refl
  soft_deleted id epoch (row ∷ rows) = ground (arith, soft_deleted id epoch rows)

module _ {Share Intermediates : Type 0} where
  aborted :
      (id epoch : ℕ) (rows : List (KeygenRow Share Intermediates))
      → fetch_keygen id epoch (delete_intermediates_inner id rows).1 ≡ none
  unfolding fetch_keygen delete_intermediates_inner
  aborted id epoch [] = refl
  aborted id epoch (row ∷ rows) = ground (arith, aborted id epoch rows)

module _ {Share PublicKey Intermediates : Type 0} where
  -- No share and no intermediates of the key can be read, of whatever epoch.
  abbrev pub IsGone : ℕ → Db.Db Share PublicKey Intermediates → Type 0
  IsGone id db =
      ((epoch : ℕ) → Db.get_share_by_epoch id epoch db ≡ ok none)
      × ((epoch : ℕ) → fetch_keygen id epoch db.in_progress_keygens ≡ none)

  -- What is left when an event is handled without an error.
  pub Completed : {Fr : Type 0} → KeyRegistryEvent Fr → Db.Db Share PublicKey Intermediates → Type 0
  Completed (KeyRegistryEvent.delete id) db = IsGone id db
  Completed (KeyRegistryEvent.abort id) db =
      (epoch : ℕ) → fetch_keygen id epoch db.in_progress_keygens ≡ none
  Completed (KeyRegistryEvent.key_gen_round1 id) db = Unit
  Completed (KeyRegistryEvent.round2 id epoch) db = Unit
  Completed (KeyRegistryEvent.round3 id epoch contributions) db = Unit
  Completed (KeyRegistryEvent.finalize id epoch) db = Unit
  Completed (KeyRegistryEvent.reshare_round1 id epoch) db = Unit
  Completed (KeyRegistryEvent.not_enough_producers id) db = Unit
  Completed KeyRegistryEvent.unknown db = Unit

  deleted-IsGone :
      (id : ℕ) (db : Db.Db Share PublicKey Intermediates)
      → IsGone id (Db.delete_oprf_key_material id db)
  unfolding Db.delete_oprf_key_material Db.get_share_by_epoch
  deleted-IsGone id db = (
    λ epoch. ap (map_err from_db_error) (soft_deleted id epoch db.shares),
    λ epoch. aborted id epoch db.in_progress_keygens,
  )

  deleted-Completed :
      (Fr : Type 0) (id : ℕ) (db : Db.Db Share PublicKey Intermediates)
      → Completed {Fr = Fr} (KeyRegistryEvent.delete id) (Db.delete_oprf_key_material id db)
  unfolding Completed
  deleted-Completed Fr id db = deleted-IsGone id db

  aborted-Completed :
      (Fr : Type 0) (id : ℕ) (db : Db.Db Share PublicKey Intermediates)
      → Completed {Fr = Fr} (KeyRegistryEvent.abort id) (Db.abort_keygen id db)
  unfolding Completed Db.abort_keygen
  aborted-Completed Fr id db epoch = aborted id epoch db.in_progress_keygens

module _ {Chain Fr Fq Affine E : Type 0} where
  -- What an event leaves when it is handled without an error.
  abbrev pub Leaves :
      KeyRegistryEvent Fr
      → Option (Result (KeyRegistryEventError E) (Unit {0})) × World Chain Fr Fq Affine
      → Type 0
  Leaves event (none, w) = Unit
  Leaves event (some (err e), w) = Unit
  Leaves event (some (ok _), w) = Completed event w.0.db

  idle :
      (event : KeyRegistryEvent Fr)
      → ((db : Db.Db Fr Affine (KeyGenIntermediateValues Fr Fq Affine)) → Completed event db)
      → (out : Option (Result (KeyRegistryEventError E) (Unit {0})) × World Chain Fr Fq Affine)
      → Leaves event out
  idle event h (none, w) = tt
  idle event h (some (err e), w) = tt
  idle event h (some (ok _), w) = h w.0.db

  -- The end of a call of the manager, with its errors converted.
  abbrev ended :
      (SecretManagerError → KeyRegistryEventError E)
      → Chain
      → Result PostgresDbError (Unit {0}) × Store Fr Affine (KeyGenIntermediateValues Fr Fq Affine)
      → Option (Result (KeyRegistryEventError E) (Unit {0})) × World Chain Fr Fq Affine
  ended f chain (r, s) = (some (map_err f (map_err from_db_error r)), (s, chain))

  Leaves-Took :
      (event : KeyRegistryEvent Fr) (f : SecretManagerError → KeyRegistryEventError E)
      (statement : Db.Db Fr Affine (KeyGenIntermediateValues Fr Fq Affine)
        → Db.Db Fr Affine (KeyGenIntermediateValues Fr Fq Affine))
      → ((db : Db.Db Fr Affine (KeyGenIntermediateValues Fr Fq Affine))
          → Completed event (statement db))
      → (chain : Chain)
        (out : Result PostgresDbError (Unit {0})
          × Store Fr Affine (KeyGenIntermediateValues Fr Fq Affine))
      → Took (writes statement) out
      → Leaves event (ended f chain out)
  Leaves-Took event f statement h chain (ok _, s) (db, e) = subst (Completed event) (sym e) (h db)
  Leaves-Took event f statement h chain (err e, s) t = tt

  within-ended :
      (f : SecretManagerError → Rounds.SecretGenError)
      (g : Rounds.SecretGenError → KeyRegistryEventError E) (chain : Chain)
      (out : Result PostgresDbError (Unit {0})
        × Store Fr Affine (KeyGenIntermediateValues Fr Fq Affine))
      → ended (λ e. g (f e)) chain out
        ≡ within g
            (call f
              (λ (w : World Chain Fr Fq Affine). ((map_err from_db_error out.0), (out.1, chain))))
            (out.1, chain)
  within-ended f g chain (ok _, s) = refl
  within-ended f g chain (err e, s) = refl

module _ {Chain Fr Fq Affine E Proof CompressedProof Receipt : Type 0} ⦃S : Field Fr⦄ ⦃B : Field Fq⦄
    (C : Suite Fr Fq Affine S) (network : ℕ → Attempt)
    (backon : (A : Type 0)
      → Backon (Store Fr Affine (KeyGenIntermediateValues Fr Fq Affine)) PostgresDbError A)
    (max_retries : ℕ)
    (handler : KeyRegistryEventHandler
      (World Chain Fr Fq Affine)
      Fr
      Fq
      Affine
      E
      Proof
      CompressedProof
      Receipt) where
  abbrev outcome :
      KeyRegistryEvent Fr
      → World Chain Fr Fq Affine
      → Option (Result (KeyRegistryEventError E) (Unit {0})) × World Chain Fr Fq Affine
  outcome event w = handle C (over_postgres network backon max_retries handler) event w

  handle-Leaves :
      (event : KeyRegistryEvent Fr) (w : World Chain Fr Fq Affine) → Leaves event (outcome event w)
  unfolding handle delete abort Rounds.delete_oprf_key_material Rounds.abort_keygen
      delete_oprf_key_material abort_keygen retried Completed
  handle-Leaves (KeyRegistryEvent.delete id) w =
      subst (Leaves (KeyRegistryEvent.delete id))
        (within-ended _ _ w.1 (
          with_retry network (backon Unit) max_retries (writes (Db.delete_oprf_key_material id))
            w.0))
        (Leaves-Took (KeyRegistryEvent.delete id) _ (Db.delete_oprf_key_material id)
          (deleted-Completed Fr id) w.1 _
          (with_retry-Took (writes (Db.delete_oprf_key_material id)) network (backon Unit)
            max_retries w.0))
  handle-Leaves (KeyRegistryEvent.abort id) w =
      subst (Leaves (KeyRegistryEvent.abort id))
        (within-ended _ _ w.1
          (with_retry network (backon Unit) max_retries (writes (Db.abort_keygen id)) w.0))
        (Leaves-Took (KeyRegistryEvent.abort id) _ (Db.abort_keygen id) (aborted-Completed Fr id)
          w.1 _
          (with_retry-Took (writes (Db.abort_keygen id)) network (backon Unit) max_retries w.0))
  handle-Leaves (KeyRegistryEvent.key_gen_round1 id) w =
      idle (KeyRegistryEvent.key_gen_round1 id) (λ db. tt)
        (outcome (KeyRegistryEvent.key_gen_round1 id) w)
  handle-Leaves (KeyRegistryEvent.round2 id epoch) w =
      idle (KeyRegistryEvent.round2 id epoch) (λ db. tt)
        (outcome (KeyRegistryEvent.round2 id epoch) w)
  handle-Leaves (KeyRegistryEvent.round3 id epoch contributions) w =
      idle (KeyRegistryEvent.round3 id epoch contributions) (λ db. tt)
        (outcome (KeyRegistryEvent.round3 id epoch contributions) w)
  handle-Leaves (KeyRegistryEvent.finalize id epoch) w =
      idle (KeyRegistryEvent.finalize id epoch) (λ db. tt)
        (outcome (KeyRegistryEvent.finalize id epoch) w)
  handle-Leaves (KeyRegistryEvent.reshare_round1 id epoch) w =
      idle (KeyRegistryEvent.reshare_round1 id epoch) (λ db. tt)
        (outcome (KeyRegistryEvent.reshare_round1 id epoch) w)
  handle-Leaves (KeyRegistryEvent.not_enough_producers id) w =
      idle (KeyRegistryEvent.not_enough_producers id) (λ db. tt)
        (outcome (KeyRegistryEvent.not_enough_producers id) w)
  handle-Leaves KeyRegistryEvent.unknown w =
      idle KeyRegistryEvent.unknown (λ db. tt) (outcome KeyRegistryEvent.unknown w)

  module _ (registry : RegistryKeeps (Apart {Chain = Chain}) handler.contract)
      (provider : ProviderKeeps (Apart {Chain = Chain}) handler.provider) where
    -- However often the connection to the database fails, whatever the contract and the provider
    -- answer, as long as these leave the tables alone: the handling of an event changes the tables
    -- of the node only by the one call that serves this event, for its key and its epoch, made any
    -- number of times. The first round of a generation stores intermediates for epoch 0, that of a
    -- resharing for its epoch, the third round stores a pending share, the end confirms it, a
    -- deletion deletes the key, an abort removes its intermediates, and a second round, a failed
    -- contract and an unknown event change nothing. When the deletion of a key is handled without an
    -- error, no share and no intermediates of the key can be read, of whatever epoch; after an abort
    -- no intermediates can.
    pub handle-Serves :
        (event : KeyRegistryEvent Fr) (w : World Chain Fr Fq Affine)
        → Serving event w.0.db
            (handle C (over_postgres network backon max_retries handler) event w).1.0.db
          × Leaves event (handle C (over_postgres network backon max_retries handler) event w)
    handle-Serves event w = (
      handle-Keeps C (over_postgres network backon max_retries handler)
          (Beside (λ a b. Serving event a.db b.db)) ⦃closed = Beside-IsClosed event⦄ (Serves event)
          (manager_beside-ManagerKeeps (λ a b. Serving event a.db b.db) (Serves event)
            (postgres_manager network backon max_retries)
            (postgres_manager-Keeps (Serving event) ⦃closed = Serving-IsClosed event⦄ (Serves event)
              (Serving-DbKeeps event) network backon max_retries))
          (record {
            producers = λ id w. still event (registry.producers id w);
            public_key = λ id w. still event (registry.public_key id w);
            ciphers = λ id w. still event (registry.ciphers id w);
            consumers = λ id w. still event (registry.consumers id w);
          })
          (record {
            simulate = λ gas t w. still event (provider.simulate gas t w);
            send = λ gas t w. still event (provider.send gas t w);
            get_receipt = λ confirmations timeout hash w.
                still event (provider.get_receipt confirmations timeout hash w);
            get_transaction_receipt =
                λ hash w. still event (provider.get_transaction_receipt hash w);
            get_balance = λ address w. still event (provider.get_balance address w);
          })
          event (λ call m. m) w,
      handle-Leaves event w,
    )
