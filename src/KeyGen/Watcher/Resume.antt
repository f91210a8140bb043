-- ===== src/KeyGen/Watcher/Resume.antt =====
-- The cursor that the watcher leaves in Postgres.
use oprf_service.Base.{ℕ, ◌≡◌, refl, ap, ◌∙◌, inl, inr, List, Result, ok, err, map_err, arith}
use oprf_service.Algebra.Field.{Field}
use oprf_service.Algebra.Suite.{Suite}
use oprf_service.Types.Chain.{report}
use oprf_service.KeyGen.Db as Db
use oprf_service.KeyGen.Db.{PostgresDbError, SqlxError, db_error, ChainCursor, CursorRow}
use oprf_service.KeyGen.Db.History.{confirm_dlog_share-cursor}
use oprf_service.KeyGen.Effects.Kept.{IsClosed}
use oprf_service.KeyGen.Retry.{Backon, Attempt, Store, with_retry}
use oprf_service.KeyGen.Retry.Once.{RunsOnce, with_retry-RunsOnce}
use oprf_service.KeyGen.Manager.{Any, manager_beside-ManagerKeeps}
use oprf_service.KeyGen.Postgres.{writes, postgres_manager}
use oprf_service.KeyGen.Postgres.Stable.{store_chain_cursor-IsStable}
use oprf_service.KeyGen.Postgres.Runs.{DbKeeps, postgres_manager-Keeps}
use oprf_service.KeyGen.Values.{KeyGenIntermediateValues}
use oprf_service.KeyGen.Events.{Abi}
use oprf_service.KeyGen.Transactions.Runs.{ProviderKeeps}
use oprf_service.KeyGen.Handler.{KeyRegistryEventHandler}
use oprf_service.KeyGen.Handler.Runs.{RegistryKeeps}
use oprf_service.KeyGen.Watcher.{Turn, event_loop}
use oprf_service.KeyGen.Watcher.Cursor.{moved, Stored, Same, Progress, IsDone, event_loop-Progress}
use oprf_service.KeyGen.Watcher.Tables.{World, over_postgres, cursor_service}

module _ {Share PublicKey Intermediates : Type 0} where
  -- Only the store of a cursor changes it.
  abbrev pub SameCursor :
      Db.Db Share PublicKey Intermediates → Db.Db Share PublicKey Intermediates → Type 0
  SameCursor a b = b.chain_cursor ≡ a.chain_cursor

  pub SameCursor-IsClosed : IsClosed SameCursor
  SameCursor-IsClosed = record { reflexive = λ a. refl; transitive = λ a b c e f. f ∙ e }

  pub SameCursor-DbKeeps : DbKeeps SameCursor ⦃closed = SameCursor-IsClosed⦄ Any
  unfolding Db.delete_oprf_key_material Db.abort_keygen Db.try_store_keygen_intermediates
      Db.store_pending_dlog_share
  SameCursor-DbKeeps = record {
    delete = λ id m db. refl;
    abort = λ id m db. refl;
    try_store = λ id epoch m v db. refl;
    store_share = λ id epoch m share db. refl;
    confirm = λ id epoch m public_key db. confirm_dlog_share-cursor id epoch public_key db;
  }

  store_chain_cursor-moved :
      (cursor : ChainCursor) (db : Db.Db Share PublicKey Intermediates)
      → (Db.store_chain_cursor cursor db).chain_cursor ≡ moved cursor db.chain_cursor
  unfolding Db.store_chain_cursor
  store_chain_cursor-moved cursor db = ground arith

  abbrev pub cursor_row : {W : Type 0} → Store Share PublicKey Intermediates × W → CursorRow
  cursor_row w = w.0.db.chain_cursor

  -- What the store with its retries leaves of the cursor.
  RunsOnce-Stored :
      {W : Type 0} (cursor : ChainCursor) (s : Store Share PublicKey Intermediates) (w : W)
      (out : Result PostgresDbError (Unit {0}) × Store Share PublicKey Intermediates)
      → RunsOnce (writes (Db.store_chain_cursor cursor)) s.db out
      → Stored (cursor_row {W = W}) cursor (s, w) (map_err (λ e. report) out.0, (out.1, w))
  RunsOnce-Stored cursor s w (ok u, s') (inl (e, h)) =
      ap (λ db. db.chain_cursor) h ∙ store_chain_cursor-moved cursor s.db
  RunsOnce-Stored cursor s w (ok u, s') (inr (x, e, h)) = absurd (cc e)
  RunsOnce-Stored cursor s w (err x, s') (inl (e, h)) = absurd (cc e)
  RunsOnce-Stored cursor s w (err x, s') (inr (y, e, inl h)) = inl (ap (λ db. db.chain_cursor) h)
  RunsOnce-Stored cursor s w (err x, s') (inr (y, e, inr h)) =
      inr (ap (λ db. db.chain_cursor) h ∙ store_chain_cursor-moved cursor s.db)

module _ {Chain Fr Fq Affine E Proof CompressedProof Receipt Data : Type 0} ⦃S : Field Fr⦄
    ⦃B : Field Fq⦄ (C : Suite Fr Fq Affine S) (abi : Abi Data) (network : ℕ → Attempt)
    (backon : (A : Type 0)
      → Backon (Store Fr Affine (KeyGenIntermediateValues Fr Fq Affine)) PostgresDbError A)
    (max_retries : ℕ)
    (handler : KeyRegistryEventHandler
      (World Chain Fr Fq Affine)
      Fr
      Fq
      Affine
      E
      Proof
      CompressedProof
      Receipt)
    (registry : RegistryKeeps (Same (cursor_row {W = Chain})) handler.contract)
    (provider : ProviderKeeps (Same (cursor_row {W = Chain})) handler.provider) where
  -- However often the connection to Postgres fails, as long as the calls of the chain leave the
  -- stored cursor alone: every run of the loop moves the stored cursor from handled log to handled
  -- log, in order, and stops at the first turn that is not handled. A log that fails, or whose
  -- handling fails, leaves the cursor before it; a log that is handled is behind the cursor, except
  -- where its own store failed before it took effect. A log is handled when it was processed
  -- without an error, or with one of the errors that are taken as handled.
  pub event_loop-cursor :
      (turns : List (Turn Data)) (w : World Chain Fr Fq Affine)
      → Progress
          (IsDone C abi
            (over_postgres network backon max_retries handler)
            (cursor_service network backon max_retries))
          turns
          (cursor_row w)
          (event_loop C abi
            (over_postgres network backon max_retries handler)
            (cursor_service network backon max_retries)
            turns
            w).0
          (cursor_row
            (event_loop C abi
              (over_postgres network backon max_retries handler)
              (cursor_service network backon max_retries)
              turns
              w).1)
  event_loop-cursor =
      event_loop-Progress C abi (over_postgres network backon max_retries handler)
        (cursor_service network backon max_retries) cursor_row
        (manager_beside-ManagerKeeps (λ a b. SameCursor a.db b.db) Any
          (postgres_manager network backon max_retries)
          (postgres_manager-Keeps SameCursor ⦃closed = SameCursor-IsClosed⦄ Any SameCursor-DbKeeps
            network backon max_retries))
        registry provider
        (λ cursor w.
          RunsOnce-Stored cursor w.0 w.1
            (with_retry network (backon Unit) max_retries (writes (Db.store_chain_cursor cursor))
              w.0)
            (with_retry-RunsOnce (writes (Db.store_chain_cursor cursor))
              (store_chain_cursor-IsStable cursor) network (backon Unit) max_retries w.0).0)
