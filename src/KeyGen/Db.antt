-- ===== src/KeyGen/Db.antt =====
-- oprf-key-gen/src/postgres.rs over the tables of oprf-key-gen/migrations: the statements as
-- functions on lists of rows, a transaction as state that is kept when it commits. What is
-- serialized into a column stands for itself; ids and epochs are numbers.
pub mod Rows
pub mod Cursor
pub mod Keygens
pub mod Confirm
pub mod History
pub mod Fresh
use oprf_service.Base.{
  ℕ, ◌+◌, ◌^◌, ◌%◌, suc, zero, List, [], ◌∷◌, Bool, true, false, ◌&&◌, ◌||◌, not, Option, none,
  some, Result, ok, err, bind_ok, map_err, ltb, ◌==◌, if◌then◌else◌,
}

-- The errors of `sqlx` that the code tells apart.
pub data SqlxError : Type 0 where
  pool_timed_out io tls protocol any_driver_error worker_crashed begin_failed : SqlxError
  -- A database error: whether it is a check violation, and whether its code is 40001 or 40P01.
  database : Bool → Bool → SqlxError
  column_decode : SqlxError

pub data PostgresDbError : Type 0 where
  missing_intermediates : ℕ → ℕ → PostgresDbError
  refusing_to_rollback_epoch : PostgresDbError
  db_error : SqlxError → PostgresDbError
  -- Bytes of a column that do not deserialize.
  internal : PostgresDbError

pub data SecretManagerError : Type 0 where
  duplicate_intermediates : ℕ → ℕ → SecretManagerError
  missing_intermediates : ℕ → ℕ → SecretManagerError
  store_on_deleted_share : SecretManagerError
  refusing_to_rollback_epoch : SecretManagerError
  internal : SecretManagerError

abbrev pub check_violation : SqlxError
check_violation = database true false

-- `From<PostgresDbError>`.
unfoldable pub from_db_error : PostgresDbError → SecretManagerError
from_db_error (missing_intermediates id epoch) = SecretManagerError.missing_intermediates id epoch
from_db_error refusing_to_rollback_epoch = SecretManagerError.refusing_to_rollback_epoch
from_db_error (db_error (database true _)) = store_on_deleted_share
from_db_error (db_error _) = SecretManagerError.internal
from_db_error internal = SecretManagerError.internal

unfoldable pub is_retryable_error : PostgresDbError → Bool
is_retryable_error (db_error (database _ code)) = code
is_retryable_error (db_error column_decode) = false
is_retryable_error (db_error _) = true
is_retryable_error _ = false

pub record ShareRow (Share PublicKey : Type 0) : Type 0 where
  pub id : ℕ
  pub share : Option Share
  pub epoch : ℕ
  pub public_key : PublicKey
  pub deleted : Bool

pub record KeygenRow (Share Intermediates : Type 0) : Type 0 where
  pub id : ℕ
  pub pending_epoch : ℕ
  pub pending_share : Option Share
  pub intermediates : Intermediates

-- `block` and `idx` are `BIGINT`s, each kept as itself plus 2 ^ 63, which keeps their order.
pub record CursorRow : Type 0 where
  pub block : ℕ
  pub idx : ℕ

pub record NodeInformation : Type 0 where
  pub address : List ℕ
  pub party_id : ℕ
  pub threshold : ℕ

pub record Db (Share PublicKey Intermediates : Type 0) : Type 0 where
  pub shares : List (ShareRow Share PublicKey)
  pub in_progress_keygens : List (KeygenRow Share Intermediates)
  pub chain_cursor : CursorRow
  pub node_information : Option NodeInformation

abbrev pub is_some {ℓ} : {A : Type ℓ} → Option A → Bool
is_some none = false
is_some (some _) = true

-- A `u64` cast to `i64`, and back.
abbrev pub as_i64 : ℕ → ℕ
as_i64 n = (n + 2 ^ 63) % 2 ^ 64

pub record ChainCursor : Type 0 where
  pub block : ℕ
  pub index : ℕ

-- The condition of the update.
abbrev pub is_after : CursorRow → CursorRow → Bool
is_after row new = ltb row.block new.block || (new.block == row.block && ltb row.idx new.idx)

module _ {Share PublicKey Intermediates : Type 0} where
  unfoldable pub load_chain_cursor : Db Share PublicKey Intermediates → ChainCursor
  load_chain_cursor db = record {
    block = as_i64 db.chain_cursor.block;
    index = as_i64 db.chain_cursor.idx;
  }

  unfoldable pub store_chain_cursor :
      ChainCursor → Db Share PublicKey Intermediates → Db Share PublicKey Intermediates
  store_chain_cursor cursor db =
      let new : CursorRow = record { block = as_i64 cursor.block; idx = as_i64 cursor.index } in
      if is_after db.chain_cursor new then record db { chain_cursor = new } else db

  unfoldable pub store_node_information :
      NodeInformation → Db Share PublicKey Intermediates → Db Share PublicKey Intermediates
  store_node_information node_information db = record db {
    node_information = some node_information;
  }

module _ {Share PublicKey : Type 0} where
  -- The constraint `deleted_share_null`.
  unfoldable pub deleted_share_null : ShareRow Share PublicKey → Bool
  deleted_share_null row =
      (not row.deleted && is_some row.share) || (row.deleted && not (is_some row.share))

  unfoldable pub get_share_by_epoch_inner :
      ℕ → ℕ → List (ShareRow Share PublicKey) → Result PostgresDbError (Option Share)
  get_share_by_epoch_inner id epoch [] = ok none
  get_share_by_epoch_inner id epoch (row ∷ rows) =
      if row.id == id && (row.epoch == epoch && not row.deleted)
      then elim row.share [ none ↦ err (db_error column_decode) | some share ↦ ok (some share) ]
      else get_share_by_epoch_inner id epoch rows

  -- Rows affected and the new table.
  unfoldable pub soft_delete_shares_inner :
      ℕ → List (ShareRow Share PublicKey) → ℕ × List (ShareRow Share PublicKey)
  soft_delete_shares_inner id [] = (0, [])
  soft_delete_shares_inner id (row ∷ rows) =
      let (n, rest) = soft_delete_shares_inner id rows in
      if row.id == id
      then (suc n, record row { share = none; deleted = true } ∷ rest)
      else (n, row ∷ rest)

  -- `DO UPDATE SET .. WHERE shares.epoch < EXCLUDED.epoch` on the row of the key.
  unfoldable pub update_share :
      ℕ
      → PublicKey
      → Share
      → ShareRow Share PublicKey
      → Result PostgresDbError (ℕ × ShareRow Share PublicKey)
  unfolding deleted_share_null
  update_share epoch public_key share row =
      let updated : ShareRow Share PublicKey = record row {
        share = some share;
        epoch = epoch;
        public_key = public_key;
      } in
      if ltb row.epoch epoch
      then (if deleted_share_null updated then ok (1, updated) else err (db_error check_violation))
      else ok (0, row)

  unfoldable pub store_confirmed_dlog_share_inner :
      ℕ
      → ℕ
      → PublicKey
      → Share
      → List (ShareRow Share PublicKey)
      → Result PostgresDbError (ℕ × List (ShareRow Share PublicKey))
  unfolding update_share
  store_confirmed_dlog_share_inner id epoch public_key share [] =
      let row : ShareRow Share PublicKey = record {
        id = id;
        share = some share;
        epoch = epoch;
        public_key = public_key;
        deleted = false;
      } in
      ok (1, row ∷ [])
  store_confirmed_dlog_share_inner id epoch public_key share (row ∷ rows) =
      let rest = store_confirmed_dlog_share_inner id epoch public_key share rows in
      if row.id == id
      then bind_ok (update_share epoch public_key share row)
          (λ (n, updated). ok (n, updated ∷ rows))
      else bind_ok rest (λ (n, rows). ok (n, row ∷ rows))

module _ {Share Intermediates : Type 0} where
  unfoldable pub fetch_pending_share_inner :
      ℕ → ℕ → List (KeygenRow Share Intermediates) → Option Share
  fetch_pending_share_inner id pending_epoch [] = none
  fetch_pending_share_inner id pending_epoch (row ∷ rows) =
      if row.id == id && row.pending_epoch == pending_epoch
      then row.pending_share
      else fetch_pending_share_inner id pending_epoch rows

  unfoldable pub delete_intermediates_inner :
      ℕ → List (KeygenRow Share Intermediates) → ℕ × List (KeygenRow Share Intermediates)
  delete_intermediates_inner id [] = (0, [])
  delete_intermediates_inner id (row ∷ rows) =
      let (n, rest) = delete_intermediates_inner id rows in
      if row.id == id then (suc n, rest) else (n, row ∷ rest)

  -- The upsert of the intermediates, to the stored ones and the new table.
  unfoldable pub store_intermediates :
      ℕ
      → ℕ
      → Intermediates
      → List (KeygenRow Share Intermediates)
      → Intermediates × List (KeygenRow Share Intermediates)
  store_intermediates id pending_epoch intermediates [] = (
    intermediates,
    record {
      id = id;
      pending_epoch = pending_epoch;
      pending_share = none;
      intermediates = intermediates;
    }
        ∷ [],
  )
  store_intermediates id pending_epoch intermediates (row ∷ rows) =
      let (stored, rest) = store_intermediates id pending_epoch intermediates rows in
      if row.id == id && row.pending_epoch == pending_epoch
      then (row.intermediates, row ∷ rows)
      else (stored, row ∷ rest)

  unfoldable pub fetch_keygen : ℕ → ℕ → List (KeygenRow Share Intermediates) → Option Intermediates
  fetch_keygen id pending_epoch [] = none
  fetch_keygen id pending_epoch (row ∷ rows) =
      if row.id == id && row.pending_epoch == pending_epoch
      then some row.intermediates
      else fetch_keygen id pending_epoch rows

  unfoldable pub store_pending :
      ℕ
      → ℕ
      → Share
      → List (KeygenRow Share Intermediates)
      → ℕ × List (KeygenRow Share Intermediates)
  store_pending id pending_epoch share [] = (0, [])
  store_pending id pending_epoch share (row ∷ rows) =
      let (n, rest) = store_pending id pending_epoch share rows in
      if row.id == id && row.pending_epoch == pending_epoch
      then (suc n, record row { pending_share = some share } ∷ rest)
      else (n, row ∷ rest)

module _ {Share PublicKey Intermediates : Type 0} where
  unfoldable pub get_share_by_epoch :
      ℕ → ℕ → Db Share PublicKey Intermediates → Result SecretManagerError (Option Share)
  get_share_by_epoch id epoch db =
      map_err from_db_error (get_share_by_epoch_inner id epoch db.shares)

  -- Its two statements are one step: no other call comes between them, since one task owns the tables.
  unfoldable pub delete_oprf_key_material :
      ℕ → Db Share PublicKey Intermediates → Db Share PublicKey Intermediates
  unfolding soft_delete_shares_inner delete_intermediates_inner
  delete_oprf_key_material id db =
      let (_, shares) = soft_delete_shares_inner id db.shares in
      let (_, keygens) = delete_intermediates_inner id db.in_progress_keygens in
      record db { shares = shares; in_progress_keygens = keygens }

  unfoldable pub try_store_keygen_intermediates :
      ℕ
      → ℕ
      → Intermediates
      → Db Share PublicKey Intermediates
      → Intermediates × Db Share PublicKey Intermediates
  unfolding store_intermediates
  try_store_keygen_intermediates id pending_epoch intermediates db =
      let (stored, keygens) =
        store_intermediates id pending_epoch intermediates db.in_progress_keygens in
      (stored, record db { in_progress_keygens = keygens })

  unfoldable pub fetch_keygen_intermediates :
      ℕ → ℕ → Db Share PublicKey Intermediates → Result SecretManagerError Intermediates
  unfolding fetch_keygen
  fetch_keygen_intermediates id pending_epoch db =
      elim (fetch_keygen id pending_epoch db.in_progress_keygens) [
        | none ↦ err (from_db_error (PostgresDbError.missing_intermediates id pending_epoch))
        | some intermediates ↦ ok intermediates
      ]

  unfoldable pub abort_keygen :
      ℕ → Db Share PublicKey Intermediates → Db Share PublicKey Intermediates
  unfolding delete_intermediates_inner
  abort_keygen id db =
      let (_, keygens) = delete_intermediates_inner id db.in_progress_keygens in
      record db { in_progress_keygens = keygens }

  unfoldable pub store_pending_dlog_share :
      ℕ
      → ℕ
      → Share
      → Db Share PublicKey Intermediates
      → Result SecretManagerError (Unit {0}) × Db Share PublicKey Intermediates
  unfolding store_pending
  store_pending_dlog_share id pending_epoch share db =
      let (rows_affected, keygens) = store_pending id pending_epoch share db.in_progress_keygens in
      (
        (if rows_affected == 1
            then ok tt
            else err (SecretManagerError.missing_intermediates id pending_epoch)),
        record db { in_progress_keygens = keygens },
      )

  -- The tables once the intermediates of the key are deleted.
  unfoldable pub without_intermediates :
      ℕ → Db Share PublicKey Intermediates → Db Share PublicKey Intermediates
  unfolding delete_intermediates_inner
  without_intermediates id db =
      let (_, keygens) = delete_intermediates_inner id db.in_progress_keygens in
      record db { in_progress_keygens = keygens }

  -- The end of the transaction: from the rows affected and the new table.
  unfoldable pub commit_confirmed :
      ℕ
      → Db Share PublicKey Intermediates
      → ℕ × List (ShareRow Share PublicKey)
      → Result PostgresDbError (Db Share PublicKey Intermediates)
  unfolding without_intermediates
  commit_confirmed id db (rows_affected, shares) =
      if rows_affected == 1
      then ok (without_intermediates id (record db { shares = shares }))
      else err PostgresDbError.refusing_to_rollback_epoch

  -- With what `fetch_pending_share_inner` gives.
  unfoldable pub confirm_pending :
      ℕ
      → ℕ
      → PublicKey
      → Db Share PublicKey Intermediates
      → Option Share
      → Result PostgresDbError (Db Share PublicKey Intermediates)
  unfolding store_confirmed_dlog_share_inner commit_confirmed
  confirm_pending id epoch public_key db none = err (PostgresDbError.missing_intermediates id epoch)
  confirm_pending id epoch public_key db (some pending_share) =
      bind_ok (store_confirmed_dlog_share_inner id epoch public_key pending_share db.shares)
        (commit_confirmed id db)

  -- With what `get_share_by_epoch_inner` gives.
  unfoldable pub confirm_stored :
      ℕ
      → ℕ
      → PublicKey
      → Db Share PublicKey Intermediates
      → Option Share
      → Result PostgresDbError (Db Share PublicKey Intermediates)
  unfolding without_intermediates confirm_pending fetch_pending_share_inner
  confirm_stored id epoch public_key db (some _) = ok (without_intermediates id db)
  confirm_stored id epoch public_key db none =
      confirm_pending id epoch public_key db
        (fetch_pending_share_inner id epoch db.in_progress_keygens)

  -- The transaction, to the tables that it commits.
  unfoldable pub confirm_transaction :
      ℕ
      → ℕ
      → PublicKey
      → Db Share PublicKey Intermediates
      → Result PostgresDbError (Db Share PublicKey Intermediates)
  unfolding get_share_by_epoch_inner confirm_stored
  confirm_transaction id epoch public_key db =
      bind_ok (get_share_by_epoch_inner id epoch db.shares) (confirm_stored id epoch public_key db)

  -- What fails is rolled back.
  unfoldable pub settle :
      Db Share PublicKey Intermediates
      → Result PostgresDbError (Db Share PublicKey Intermediates)
      → Result SecretManagerError (Unit {0}) × Db Share PublicKey Intermediates
  settle db (ok db') = (ok tt, db')
  settle db (err e) = (err (from_db_error e), db)

  unfoldable pub confirm_dlog_share :
      ℕ
      → ℕ
      → PublicKey
      → Db Share PublicKey Intermediates
      → Result SecretManagerError (Unit {0}) × Db Share PublicKey Intermediates
  unfolding confirm_transaction settle
  confirm_dlog_share id epoch public_key db = settle db (confirm_transaction id epoch public_key db)
