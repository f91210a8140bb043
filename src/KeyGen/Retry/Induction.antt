-- ===== src/KeyGen/Retry/Induction.antt =====
-- Induction over the attempts of a retry.
use oprf_service.Base.{ℕ, suc, zero, ◌≡◌, refl, Bool, Bool-cases, inl, inr, Result, ok, err}
use oprf_service.KeyGen.Retry.{Backon}

module _ {St E A : Type 0} (backon : Backon St E A) (accepts : E → Bool) (f : St → Result E A × St)
    (P : ℕ → St → Result E A × St → Type 0) where
  -- A property of what a retry gives, with the number of retries and the state before: it holds of
  -- one attempt, and goes from the rest of the attempts to all of them.
  pub retry-induct :
      ((n : ℕ) (s : St) → P n s (f s))
      → ((n : ℕ) (s : St) (e : E) (s' : St) (out : Result E A × St)
          → f s ≡ (err e, s')
          → P n s' out
          → P (suc n) s out)
      → (n : ℕ) (s : St) → P n s (backon.retry n accepts f s)
  retry-induct last more zero s = rw (backon.retry-zero accepts f s) (last zero s)
  retry-induct last more (suc n) s = go (f s) refl (last (suc n) s) (retry-induct last more n)
    where
      go :
          (out : Result E A × St)
          → f s ≡ out
          → P (suc n) s out
          → ((s' : St) → P n s' (backon.retry n accepts f s'))
          → P (suc n) s (backon.retry (suc n) accepts f s)
      go (ok a, s') e p ih = rw (backon.retry-ok n accepts f s a s' e) p
      go (err x, s') e p ih = elim (Bool-cases (accepts x)) [
        | inl q ↦
            rw (backon.retry-again n accepts f s x s' e q)
              (more n s x s' (backon.retry n accepts f s') e (ih s'))
        | inr q ↦ rw (backon.retry-refused n accepts f s x s' e q) p
      ]
