-- ===== src/KeyGen/Retry/Once.antt =====
-- However the connection fails, a statement that is tried again takes effect once at most.
use oprf_service.Base.{
  ℕ, suc, ◌+◌, ◌≤◌, ◌<◌, ◌≡◌, refl, sym, ap, subst, ◌∙◌, ◌⊎◌, inl, inr, Result, err, arith,
}
use oprf_service.KeyGen.Db.{Db, SqlxError, PostgresDbError, db_error, is_retryable_error}
use oprf_service.KeyGen.Retry.Induction.{retry-induct}
use oprf_service.KeyGen.Retry.{
  Backon, Attempt, Store, reached, lost, unacknowledged, attempt, with_retry,
}

module _ {Share PublicKey Intermediates A : Type 0} where
  -- A statement that gives the same answer when it is run again, and then changes nothing.
  abbrev pub IsStable :
      (Db Share PublicKey Intermediates
        → Result PostgresDbError A × Db Share PublicKey Intermediates)
      → Type 0
  IsStable f = (db : Db Share PublicKey Intermediates) → f (f db).1 ≡ f db

  -- The answer and the tables are those of one run; or the answer is an error of the connection,
  -- and the tables are as before or those of one run.
  abbrev pub RunsOnce :
      (Db Share PublicKey Intermediates
        → Result PostgresDbError A × Db Share PublicKey Intermediates)
      → Db Share PublicKey Intermediates
      → Result PostgresDbError A × Store Share PublicKey Intermediates
      → Type 0
  RunsOnce f db (r, s) =
      ((r ≡ (f db).0) × (s.db ≡ (f db).1))
      ⊎ ((e : SqlxError) × (r ≡ err (db_error e)) × ((s.db ≡ db) ⊎ (s.db ≡ (f db).1)))

  module _
      (f : Db Share PublicKey Intermediates
        → Result PostgresDbError A × Db Share PublicKey Intermediates)
      (stable : IsStable f) where
    -- From tables that are those before or after one run.
    abbrev Begun : Db Share PublicKey Intermediates → Db Share PublicKey Intermediates → Type 0
    Begun db now = (now ≡ db) ⊎ (now ≡ (f db).1)

    run_begun : (db now : Db Share PublicKey Intermediates) → Begun db now → f now ≡ f db
    run_begun db now (inl e) = ap f e
    run_begun db now (inr e) = ap f e ∙ stable db

    attempt-RunsOnce :
        (a : Attempt) (db : Db Share PublicKey Intermediates)
        (s : Store Share PublicKey Intermediates)
        → Begun db s.db
        → RunsOnce f db (attempt a f s)
    unfolding attempt
    attempt-RunsOnce reached db s b =
        inl (ap (λ t. t.0) (run_begun db s.db b), ap (λ t. t.1) (run_begun db s.db b))
    attempt-RunsOnce (lost e) db s b = inr (e, refl, b)
    attempt-RunsOnce (unacknowledged e) db s b =
        inr (e, refl, inr (ap (λ t. t.1) (run_begun db s.db b)))

    attempt-now :
        (a : Attempt) (s : Store Share PublicKey Intermediates) → (attempt a f s).1.now ≡ suc s.now
    unfolding attempt
    attempt-now reached s = refl
    attempt-now (lost e) s = refl
    attempt-now (unacknowledged e) s = refl

    begun :
        (db : Db Share PublicKey Intermediates)
        (out : Result PostgresDbError A × Store Share PublicKey Intermediates)
        → RunsOnce f db out
        → Begun db out.1.db
    begun db out (inl (_, e)) = inr e
    begun db out (inr (_, _, b)) = b

    abbrev Bounded : ℕ → ℕ → ℕ → Type 0
    Bounded n before after = (before < after) × (after ≤ before + suc n)

    retry-RunsOnce :
        (network : ℕ → Attempt)
        (backon : Backon (Store Share PublicKey Intermediates) PostgresDbError A) (n : ℕ)
        (db : Db Share PublicKey Intermediates) (s : Store Share PublicKey Intermediates)
        → Begun db s.db
        → RunsOnce f db (with_retry network backon n f s)
          × Bounded n s.now (with_retry network backon n f s).1.now
    unfolding with_retry
    retry-RunsOnce network backon n db s b =
        retry-induct backon is_retryable_error (λ s. attempt (network s.now) f s)
          (λ n s out. Begun db s.db → RunsOnce f db out × Bounded n s.now out.1.now)
          (λ n s b.
            let e = attempt-now (network s.now) s in
            (attempt-RunsOnce (network s.now) db s b, (omega arith, omega arith)))
          (λ n s x s' out e rest b.
            let once = subst (RunsOnce f db) e (attempt-RunsOnce (network s.now) db s b) in
            let now = sym (ap (λ out. out.1.now) e) ∙ attempt-now (network s.now) s in
            let (finally, (more, most)) = rest (begun db (err x, s') once) in
            (finally, (omega arith, omega arith)))
          n s b

    -- A stable statement that is tried again on a connection that fails in any way: the answer and
    -- the tables are those of one run, or the answer is an error of the connection and the tables are
    -- as before or those of one run. There is an attempt, and at most one more than there are retries.
    pub with_retry-RunsOnce :
        (network : ℕ → Attempt)
        (backon : Backon (Store Share PublicKey Intermediates) PostgresDbError A) (max_retries : ℕ)
        (s : Store Share PublicKey Intermediates)
        → RunsOnce f s.db (with_retry network backon max_retries f s)
          × (s.now < (with_retry network backon max_retries f s).1.now)
          × ((with_retry network backon max_retries f s).1.now ≤ s.now + suc max_retries)
    with_retry-RunsOnce network backon max_retries s =
        let (once, bounds) = retry-RunsOnce network backon max_retries s.db s (inl refl) in
        (once, bounds.0, bounds.1)
