-- ===== src/KeyGen/Watcher/Tables.antt =====
-- The watcher over Postgres: the world, the handler and the store of the cursor.
use oprf_service.Base.{ℕ, ◌≡◌}
use oprf_service.Types.Chain.{Report, report}
use oprf_service.KeyGen.Db.{PostgresDbError}
use oprf_service.KeyGen.Retry.{Backon, Attempt, Store}
use oprf_service.KeyGen.Manager.{ChainCursorStorage, manager_beside, cursor_beside}
use oprf_service.KeyGen.Postgres.{postgres_manager, postgres_cursor}
use oprf_service.KeyGen.Values.{KeyGenIntermediateValues}
use oprf_service.KeyGen.Handler.{KeyRegistryEventHandler}

-- The tables of the node, and the chain.
abbrev pub World : Type 0 → Type 0 → Type 0 → Type 0 → Type 0
World Chain Fr Fq Affine = Store Fr Affine (KeyGenIntermediateValues Fr Fq Affine) × Chain

-- A call that leaves the tables alone.
abbrev pub Apart :
    {Chain Fr Fq Affine : Type 0} → World Chain Fr Fq Affine → World Chain Fr Fq Affine → Type 0
Apart a b = a.0.db ≡ b.0.db

module _ {Chain Fr Fq Affine : Type 0} (network : ℕ → Attempt)
    (backon : (A : Type 0)
      → Backon (Store Fr Affine (KeyGenIntermediateValues Fr Fq Affine)) PostgresDbError A)
    (max_retries : ℕ) where
  -- A handler with Postgres for its secret manager, and the store of the cursor.
  abbrev pub over_postgres :
      {E Proof CompressedProof Receipt : Type 0}
      → KeyRegistryEventHandler
          (World Chain Fr Fq Affine)
          Fr
          Fq
          Affine
          E
          Proof
          CompressedProof
          Receipt
      → KeyRegistryEventHandler
          (World Chain Fr Fq Affine)
          Fr
          Fq
          Affine
          E
          Proof
          CompressedProof
          Receipt
  over_postgres handler = record handler {
    secret_manager = manager_beside (postgres_manager network backon max_retries);
  }

  abbrev pub cursor_service : ChainCursorStorage (World Chain Fr Fq Affine) Report
  cursor_service = cursor_beside (λ e. report) (postgres_cursor network backon max_retries)
