-- ===== src/KeyGen/Postgres/Runs.antt =====
-- What the writing calls of Db keep, each call of the manager keeps, with its retries.
use oprf_service.Base.{ℕ, ◌≡◌, refl, Result, ok, err, subst}
use oprf_service.KeyGen.Db as Db
use oprf_service.KeyGen.Db.{
  PostgresDbError, SecretManagerError, ChainCursor, is_retryable_error, get_share_by_epoch_inner,
  fetch_keygen, store_pending_dlog_share, confirm_dlog_share, confirm_transaction, settle,
}
use oprf_service.KeyGen.Db.History.{Step, Steps, done, next}
use oprf_service.KeyGen.Effects.Kept.{IsClosed}
use oprf_service.KeyGen.Retry.Induction.{retry-induct}
use oprf_service.KeyGen.Retry.{
  Backon, Attempt, Store, reached, lost, unacknowledged, attempt, with_retry,
}
use oprf_service.KeyGen.Manager.{Call, ManagerKeeps}
use oprf_service.KeyGen.Postgres as Postgres
use oprf_service.KeyGen.Postgres.{
  reads, writes, rollback, stored, pending, confirmed, retried, get_share_by_epoch,
  delete_oprf_key_material, abort_keygen, try_store_keygen_intermediates,
  fetch_keygen_intermediates, postgres_manager, postgres_cursor,
}

module _ {Share PublicKey Intermediates : Type 0} where
  pub Steps-trans :
      (a b c : Db.Db Share PublicKey Intermediates) → Steps a b → Steps b c → Steps a c
  Steps-trans a _ c done t = t
  Steps-trans a b c (next {b = x} step steps) t = next step (Steps-trans x b c steps t)

  pub one : {a b : Db.Db Share PublicKey Intermediates} → Step a b → Steps a b
  one step = next step done

  pub Steps-IsClosed :
      IsClosed (Steps {Share = Share} {PublicKey = PublicKey} {Intermediates = Intermediates})
  Steps-IsClosed = record { reflexive = λ a. done; transitive = Steps-trans }

module _ {Share PublicKey Intermediates : Type 0}
    (R : Db.Db Share PublicKey Intermediates → Db.Db Share PublicKey Intermediates → Type 0)
    ⦃closed : IsClosed R⦄ where
  module _ {A : Type 0}
      (f : Db.Db Share PublicKey Intermediates
        → Result PostgresDbError A × Db.Db Share PublicKey Intermediates)
      (keeps : (db : Db.Db Share PublicKey Intermediates) → R db (f db).1) where
    attempt-Keeps :
        (a : Attempt) (s : Store Share PublicKey Intermediates) → R s.db (attempt a f s).1.db
    unfolding attempt
    attempt-Keeps reached s = keeps s.db
    attempt-Keeps (lost e) s = closed.reflexive s.db
    attempt-Keeps (unacknowledged e) s = keeps s.db

    pub with_retry-Keeps :
        (network : ℕ → Attempt)
        (backon : Backon (Store Share PublicKey Intermediates) PostgresDbError A) (n : ℕ)
        (s : Store Share PublicKey Intermediates)
        → R s.db (with_retry network backon n f s).1.db
    unfolding with_retry
    with_retry-Keeps network backon n s =
        retry-induct backon is_retryable_error (λ s. attempt (network s.now) f s)
          (λ n s out. R s.db out.1.db) (λ n s. attempt-Keeps (network s.now) s)
          (λ n s x s' out e rest.
            closed.transitive s.db s'.db out.1.db
              (subst (λ out. R s.db out.1.db) e (attempt-Keeps (network s.now) s)) rest)
          n s

  -- What the writing calls of Db keep, those that may be made.
  pub record DbKeeps (May : Call → Type 0) : Type 0 where
    pub delete :
        (id : ℕ)
        → May (Call.delete id)
        → (db : Db.Db Share PublicKey Intermediates) → R db (Db.delete_oprf_key_material id db)
    pub abort :
        (id : ℕ)
        → May (Call.abort id)
        → (db : Db.Db Share PublicKey Intermediates) → R db (Db.abort_keygen id db)
    pub try_store :
        (id epoch : ℕ)
        → May (Call.try_store id epoch)
        → (v : Intermediates) (db : Db.Db Share PublicKey Intermediates)
        → R db (Db.try_store_keygen_intermediates id epoch v db).1
    pub store_share :
        (id epoch : ℕ)
        → May (Call.store_share id epoch)
        → (share : Share) (db : Db.Db Share PublicKey Intermediates)
        → R db (store_pending_dlog_share id epoch share db).1
    pub confirm :
        (id epoch : ℕ)
        → May (Call.confirm id epoch)
        → (public_key : PublicKey) (db : Db.Db Share PublicKey Intermediates)
        → R db (confirm_dlog_share id epoch public_key db).1

  rollback-settle :
      (db : Db.Db Share PublicKey Intermediates)
      (r : Result PostgresDbError (Db.Db Share PublicKey Intermediates))
      → (settle db r).1 ≡ (rollback db r).1
  unfolding settle
  rollback-settle db (ok db') = refl
  rollback-settle db (err x) = refl

  module _ (May : Call → Type 0) (keeps : DbKeeps May) (network : ℕ → Attempt)
      (backon : (A : Type 0) → Backon (Store Share PublicKey Intermediates) PostgresDbError A)
      (max_retries : ℕ) where
    confirmed-Keeps :
        (id epoch : ℕ)
        → May (Call.confirm id epoch)
        → (public_key : PublicKey) (db : Db.Db Share PublicKey Intermediates)
        → R db (confirmed id epoch public_key db).1
    unfolding confirmed confirm_dlog_share
    confirmed-Keeps id epoch m public_key db =
        subst (R db) (rollback-settle db (confirm_transaction id epoch public_key db))
          (keeps.confirm id epoch m public_key db)

    pending-Keeps :
        (id epoch : ℕ)
        → May (Call.store_share id epoch)
        → (share : Share) (db : Db.Db Share PublicKey Intermediates)
        → R db (pending id epoch share db).1
    unfolding pending store_pending_dlog_share
    pending-Keeps = keeps.store_share

    retried-Keeps :
        {A : Type 0}
        (f : Db.Db Share PublicKey Intermediates
          → Result PostgresDbError A × Db.Db Share PublicKey Intermediates)
        → ((db : Db.Db Share PublicKey Intermediates) → R db (f db).1)
        → (s : Store Share PublicKey Intermediates)
        → R s.db (retried network backon max_retries f s).1.db
    unfolding retried
    retried-Keeps {A} f h s = with_retry-Keeps f h network (backon A) max_retries s

    -- With its retries, every call of the manager keeps it.
    pub postgres_manager-Keeps :
        ManagerKeeps (λ s t. R s.db t.db) May (postgres_manager network backon max_retries)
    unfolding get_share_by_epoch delete_oprf_key_material abort_keygen
        try_store_keygen_intermediates fetch_keygen_intermediates Postgres.store_pending_dlog_share
        Postgres.confirm_dlog_share stored
    postgres_manager-Keeps = record {
      get_share = λ id epoch.
          retried-Keeps (reads (λ db. get_share_by_epoch_inner id epoch db.shares))
            closed.reflexive;
      delete = λ id m. retried-Keeps (writes (Db.delete_oprf_key_material id)) (keeps.delete id m);
      abort = λ id m. retried-Keeps (writes (Db.abort_keygen id)) (keeps.abort id m);
      try_store = λ id epoch m v. retried-Keeps (stored id epoch v) (keeps.try_store id epoch m v);
      fetch = λ id epoch.
          retried-Keeps (reads (λ db. ok (fetch_keygen id epoch db.in_progress_keygens)))
            closed.reflexive;
      store_share = λ id epoch m share.
          retried-Keeps (pending id epoch share) (pending-Keeps id epoch m share);
      confirm = λ id epoch m public_key.
          retried-Keeps (confirmed id epoch public_key) (confirmed-Keeps id epoch m public_key);
    }

module _ {Share PublicKey Intermediates A : Type 0}
    (f : Db.Db Share PublicKey Intermediates
      → Result PostgresDbError A × Db.Db Share PublicKey Intermediates) where
  -- The state that a call leaves is what its statement made of some tables.
  abbrev pub Took : Result PostgresDbError A × Store Share PublicKey Intermediates → Type 0
  Took (ok a, s) = (db : Db.Db Share PublicKey Intermediates) × (s.db ≡ (f db).1)
  Took (err e, s) = Unit

  took :
      (r : Result PostgresDbError A) (s : Store Share PublicKey Intermediates)
      (db : Db.Db Share PublicKey Intermediates)
      → s.db ≡ (f db).1
      → Took (r, s)
  took (ok a) s db e = (db, e)
  took (err x) s db e = tt

  attempt-Took : (a : Attempt) (s : Store Share PublicKey Intermediates) → Took (attempt a f s)
  unfolding attempt
  attempt-Took reached s = took (f s.db).0 _ s.db refl
  attempt-Took (lost e) s = tt
  attempt-Took (unacknowledged e) s = tt

  -- When a call with its retries succeeds, its statement took effect at the end.
  pub with_retry-Took :
      (network : ℕ → Attempt)
      (backon : Backon (Store Share PublicKey Intermediates) PostgresDbError A) (n : ℕ)
      (s : Store Share PublicKey Intermediates)
      → Took (with_retry network backon n f s)
  unfolding with_retry
  with_retry-Took network backon n s =
      retry-induct backon is_retryable_error (λ s. attempt (network s.now) f s)
        (λ n s out. Took out) (λ n s. attempt-Took (network s.now) s) (λ n s e s' out q p. p) n s
