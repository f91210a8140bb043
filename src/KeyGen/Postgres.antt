-- ===== src/KeyGen/Postgres.antt =====
-- oprf-key-gen/src/postgres.rs: the traits of the database, each call with its retries over the
-- statements and transactions of Db.
pub mod Stable
pub mod Runs
use oprf_service.Base.{
  ℕ, List, Option, none, some, Result, ok, err, bind_ok, map_err, ◌==◌, if◌then◌else◌,
}
use oprf_service.KeyGen.Db as Db
use oprf_service.KeyGen.Db.{
  PostgresDbError, SecretManagerError, NodeInformation, ChainCursor, from_db_error,
  get_share_by_epoch_inner, fetch_keygen, store_pending, store_intermediates, confirm_transaction,
}
use oprf_service.KeyGen.Retry.{Backon, Attempt, Store, with_retry}
use oprf_service.KeyGen.Manager.{SecretManager, ChainCursorStorage}

-- A statement that reads.
abbrev pub reads :
    {D A : Type 0} → (D → Result PostgresDbError A) → D → Result PostgresDbError A × D
reads f db = (f db, db)

-- A statement or transaction that changes the tables; rows affected are for the log.
abbrev pub writes : {D : Type 0} → (D → D) → D → Result PostgresDbError (Unit {0}) × D
writes f db = (ok tt, f db)

-- What a transaction leaves: its tables, or those before.
abbrev pub rollback :
    {D : Type 0} → D → Result PostgresDbError D → Result PostgresDbError (Unit {0}) × D
rollback db (ok db') = (ok tt, db')
rollback db (err e) = (err e, db)

module _ {Share PublicKey Intermediates : Type 0} where
  -- The upsert of `try_store_keygen_intermediates`.
  unfoldable pub stored :
      ℕ
      → ℕ
      → Intermediates
      → Db.Db Share PublicKey Intermediates
      → Result PostgresDbError Intermediates × Db.Db Share PublicKey Intermediates
  stored id epoch v db =
      let out = Db.try_store_keygen_intermediates id epoch v db in (ok out.0, out.1)

  -- The update of `store_pending_dlog_share`, to the rows affected.
  unfoldable pub pending :
      ℕ
      → ℕ
      → Share
      → Db.Db Share PublicKey Intermediates
      → Result PostgresDbError ℕ × Db.Db Share PublicKey Intermediates
  pending id epoch share db =
      let out = store_pending id epoch share db.in_progress_keygens in
      (ok out.0, record db { in_progress_keygens = out.1 })

  -- The transaction of `confirm_dlog_share`.
  unfoldable pub confirmed :
      ℕ
      → ℕ
      → PublicKey
      → Db.Db Share PublicKey Intermediates
      → Result PostgresDbError (Unit {0}) × Db.Db Share PublicKey Intermediates
  confirmed id epoch public_key db = rollback db (confirm_transaction id epoch public_key db)

module _ {Share PublicKey Intermediates : Type 0} (network : ℕ → Attempt)
    (backon : (A : Type 0) → Backon (Store Share PublicKey Intermediates) PostgresDbError A)
    (max_retries : ℕ) where
  -- `with_retry`, with its error converted.
  unfoldable pub retried :
      {A : Type 0}
      → (Db.Db Share PublicKey Intermediates
          → Result PostgresDbError A × Db.Db Share PublicKey Intermediates)
      → Store Share PublicKey Intermediates
      → Result SecretManagerError A × Store Share PublicKey Intermediates
  retried {A} f s =
      let out = with_retry network (backon A) max_retries f s in
      (map_err from_db_error out.0, out.1)

  unfoldable pub store_node_information :
      NodeInformation
      → Store Share PublicKey Intermediates
      → Result SecretManagerError (Unit {0}) × Store Share PublicKey Intermediates
  store_node_information node_information =
      retried (writes (Db.store_node_information node_information))

  unfoldable pub get_share_by_epoch :
      ℕ
      → ℕ
      → Store Share PublicKey Intermediates
      → Result SecretManagerError (Option Share) × Store Share PublicKey Intermediates
  get_share_by_epoch id epoch = retried (reads (λ db. get_share_by_epoch_inner id epoch db.shares))

  unfoldable pub delete_oprf_key_material :
      ℕ
      → Store Share PublicKey Intermediates
      → Result SecretManagerError (Unit {0}) × Store Share PublicKey Intermediates
  delete_oprf_key_material id = retried (writes (Db.delete_oprf_key_material id))

  unfoldable pub abort_keygen :
      ℕ
      → Store Share PublicKey Intermediates
      → Result SecretManagerError (Unit {0}) × Store Share PublicKey Intermediates
  abort_keygen id = retried (writes (Db.abort_keygen id))

  unfoldable pub try_store_keygen_intermediates :
      ℕ
      → ℕ
      → Intermediates
      → Store Share PublicKey Intermediates
      → Result SecretManagerError Intermediates × Store Share PublicKey Intermediates
  unfolding stored
  try_store_keygen_intermediates id epoch v = retried (stored id epoch v)

  unfoldable pub fetch_keygen_intermediates :
      ℕ
      → ℕ
      → Store Share PublicKey Intermediates
      → Result SecretManagerError Intermediates × Store Share PublicKey Intermediates
  fetch_keygen_intermediates id epoch s =
      let (found, s') =
        retried (reads (λ db. ok (fetch_keygen id epoch db.in_progress_keygens))) s in
      (
        bind_ok found (λ intermediates. elim intermediates [
          | none ↦ err (from_db_error (PostgresDbError.missing_intermediates id epoch))
          | some v ↦ ok v
        ]),
        s',
      )

  unfoldable pub store_pending_dlog_share :
      ℕ
      → ℕ
      → Share
      → Store Share PublicKey Intermediates
      → Result SecretManagerError (Unit {0}) × Store Share PublicKey Intermediates
  unfolding pending
  store_pending_dlog_share id epoch share s =
      let (rows, s') = retried (pending id epoch share) s in
      (
        bind_ok rows (λ rows_affected.
            if rows_affected == 1
            then ok tt
            else err (SecretManagerError.missing_intermediates id epoch)),
        s',
      )

  unfoldable pub confirm_dlog_share :
      ℕ
      → ℕ
      → PublicKey
      → Store Share PublicKey Intermediates
      → Result SecretManagerError (Unit {0}) × Store Share PublicKey Intermediates
  unfolding confirmed
  confirm_dlog_share id epoch public_key = retried (confirmed id epoch public_key)

  -- `impl SecretManager for PostgresDb`.
  abbrev pub postgres_manager :
      SecretManager (Store Share PublicKey Intermediates) Share PublicKey Intermediates
  postgres_manager = record {
    store_node_information = store_node_information;
    get_share_by_epoch = get_share_by_epoch;
    delete_oprf_key_material = delete_oprf_key_material;
    abort_keygen = abort_keygen;
    try_store_keygen_intermediates = try_store_keygen_intermediates;
    fetch_keygen_intermediates = fetch_keygen_intermediates;
    store_pending_dlog_share = store_pending_dlog_share;
    confirm_dlog_share = confirm_dlog_share;
  }

  -- `impl ChainCursorStorage for PostgresDb`.
  abbrev pub postgres_cursor :
      ChainCursorStorage (Store Share PublicKey Intermediates) PostgresDbError
  postgres_cursor = record {
    load_chain_cursor =
        with_retry network (backon ChainCursor) max_retries
          (reads (λ db. ok (Db.load_chain_cursor db)));
    store_chain_cursor = λ cursor.
        with_retry network (backon Unit) max_retries (writes (Db.store_chain_cursor cursor));
  }
