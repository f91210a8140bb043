-- ===== src/KeyGen/Retry.antt =====
-- oprf-key-gen/src/postgres.rs, with_retry: a statement or transaction is tried again while the
-- connection to the database fails. `Backon` is the retry of the crate of that name.
pub mod Induction
pub mod Once
use oprf_service.Base.{ℕ, suc, zero, ◌+◌, ◌≡◌, Bool, true, false, Result, ok, err}
use oprf_service.KeyGen.Db.{Db, SqlxError, PostgresDbError, db_error, is_retryable_error}

-- What is documented of `f.retry(ConstantBuilder with max_times).when(..)`: `f` is called again
-- after an error that `when` accepts, `max_times` times at most.
pub record Backon (St E A : Type 0) : Type 0 where
  pub retry : ℕ → (E → Bool) → (St → Result E A × St) → St → Result E A × St
  pub retry-zero :
      (accepts : E → Bool) (f : St → Result E A × St) (s : St) → retry 0 accepts f s ≡ f s
  pub retry-ok :
      (n : ℕ) (accepts : E → Bool) (f : St → Result E A × St) (s : St) (a : A) (s' : St)
      → f s ≡ (ok a, s')
      → retry (suc n) accepts f s ≡ (ok a, s')
  pub retry-refused :
      (n : ℕ) (accepts : E → Bool) (f : St → Result E A × St) (s : St) (e : E) (s' : St)
      → f s ≡ (err e, s')
      → accepts e ≡ false
      → retry (suc n) accepts f s ≡ (err e, s')
  pub retry-again :
      (n : ℕ) (accepts : E → Bool) (f : St → Result E A × St) (s : St) (e : E) (s' : St)
      → f s ≡ (err e, s')
      → accepts e ≡ true
      → retry (suc n) accepts f s ≡ retry n accepts f s'

-- A function with that behaviour.
-- After an attempt, where `again` is the rest.
abbrev pub retry_after :
    {St E A : Type 0} → (E → Bool) → (St → Result E A × St) → Result E A × St → Result E A × St
retry_after accepts again (ok a, s) = (ok a, s)
retry_after accepts again (err e, s) = elim (accepts e) [ true ↦ again s | false ↦ (err e, s) ]

unfoldable pub retry_constant :
    {St E A : Type 0} → ℕ → (E → Bool) → (St → Result E A × St) → St → Result E A × St
retry_constant zero accepts f s = f s
retry_constant (suc n) accepts f s = retry_after accepts (retry_constant n accepts f) (f s)

-- What the connection does at an attempt: the statement is run, or it is not, or it is run and the
-- answer is lost.
pub data Attempt : Type 0 where
  reached : Attempt
  lost unacknowledged : SqlxError → Attempt

-- The tables, and how many attempts there have been.
pub record Store (Share PublicKey Intermediates : Type 0) : Type 0 where
  pub db : Db Share PublicKey Intermediates
  pub now : ℕ

module _ {Share PublicKey Intermediates A : Type 0} where
  unfoldable pub attempt :
      Attempt
      → (Db Share PublicKey Intermediates
          → Result PostgresDbError A × Db Share PublicKey Intermediates)
      → Store Share PublicKey Intermediates
      → Result PostgresDbError A × Store Share PublicKey Intermediates
  attempt reached f s = let (r, db) = f s.db in (r, record { db = db; now = suc s.now })
  attempt (lost e) f s = (err (db_error e), record s { now = suc s.now })
  attempt (unacknowledged e) f s = (err (db_error e), record { db = (f s.db).1; now = suc s.now })

  -- On a connection that does `network n` at the attempt `n`.
  unfoldable pub with_retry :
      (ℕ → Attempt)
      → Backon (Store Share PublicKey Intermediates) PostgresDbError A
      → ℕ
      → (Db Share PublicKey Intermediates
          → Result PostgresDbError A × Db Share PublicKey Intermediates)
      → Store Share PublicKey Intermediates
      → Result PostgresDbError A × Store Share PublicKey Intermediates
  unfolding is_retryable_error attempt
  with_retry network backon max_retries f s =
      backon.retry max_retries is_retryable_error (λ s. attempt (network s.now) f s) s
