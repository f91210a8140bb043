-- ===== src/KeyGen/Transactions/Runs.antt =====
-- What every call of the provider keeps, a submission keeps.
use oprf_service.Base.{ℕ, subst, Bool-cases, inl, inr, Result, ok, err, map_err}
use oprf_service.KeyGen.Effects.Kept.{
  IsClosed, Keeps, Kept, ◌>>=◌, ◌>>◌, pure, lifted, called, seen,
}
use oprf_service.KeyGen.Retry.{Backon}
use oprf_service.KeyGen.Retry.Induction.{retry-induct}
use oprf_service.KeyGen.Errors.{
  RpcError, PendingTransactionError, Decoder, KeyRegistryEventError, transaction_failed_error,
  from_contract,
}
use oprf_service.KeyGen.Transactions.{
  Transaction, Provider, TransactionHandler, found, is_null_resp, starts_backoff, fetch_receipt,
  after_get_receipt, await_receipt, send_transaction, simulate_transaction, confirm_receipt,
  record_metrics, submit,
}

module _ {W : Type 0} (R : W → W → Type 0) where
  -- Every call of the provider goes from a state to a related one.
  pub record ProviderKeeps {E CompressedProof Receipt : Type 0}
      (provider : Provider W E CompressedProof Receipt) : Type 0 where
    pub simulate :
        (gas : ℕ) (t : Transaction CompressedProof) (w : W) → R w (provider.simulate gas t w).1
    pub send : (gas : ℕ) (t : Transaction CompressedProof) (w : W) → R w (provider.send gas t w).1
    pub get_receipt :
        (confirmations timeout hash : ℕ) (w : W)
        → R w (provider.get_receipt confirmations timeout hash w).1
    pub get_transaction_receipt :
        (hash : ℕ) (w : W) → R w (provider.get_transaction_receipt hash w).1
    pub get_balance : (address : ℕ) (w : W) → R w (provider.get_balance address w).1

module _ {W E CompressedProof Receipt : Type 0} (R : W → W → Type 0) ⦃closed : IsClosed R⦄
    (decoder : Decoder E) (handler_provider : Provider W E CompressedProof Receipt)
    (backon : Backon W RpcError Receipt) (tx : TransactionHandler)
    (provider : ProviderKeeps R handler_provider) where
  fetch_receipt-Keeps :
      (hash : ℕ) (w : W) → R w (fetch_receipt decoder handler_provider backon tx hash w).1
  unfolding fetch_receipt
  fetch_receipt-Keeps hash w =
      retry-induct backon is_null_resp
        (λ w. found (handler_provider.get_transaction_receipt hash w)) (λ n w out. R w out.1)
        (λ n w. provider.get_transaction_receipt hash w)
        (λ n w x w' out e rest.
          closed.transitive w w' out.1
            (subst (λ out. R w out.1) e (provider.get_transaction_receipt hash w)) rest)
        tx.max_tries_fetching_receipt w

  after_get_receipt-Keeps :
      (hash : ℕ) (r : Result PendingTransactionError Receipt)
      → Keeps R (after_get_receipt decoder handler_provider backon tx hash r)
  unfolding after_get_receipt
  after_get_receipt-Keeps hash (ok receipt) w = closed.reflexive w
  after_get_receipt-Keeps hash (err e) w = elim (Bool-cases (starts_backoff e)) [
    | inl q ↦ rw (after_get_receipt, q) (fetch_receipt-Keeps hash w)
    | inr q ↦ rw (after_get_receipt, q) (closed.reflexive w)
  ]

  abbrev Handles : Type 0 → Type 0
  Handles A = Kept R (KeyRegistryEventError E) A

  submitted : Transaction CompressedProof → Handles ℕ
  submitted t = do
    called (from_contract decoder) (handler_provider.simulate tx.max_gas_per_transaction t)
        (provider.simulate tx.max_gas_per_transaction t)
    receipt ← (do
      hash ←
          called (from_contract decoder) (handler_provider.send tx.max_gas_per_transaction t)
            (provider.send tx.max_gas_per_transaction t)
      waited ←
          seen
            (handler_provider.get_receipt tx.confirmations_for_transaction
              tx.max_wait_time_watch_transaction hash)
            (provider.get_receipt tx.confirmations_for_transaction
              tx.max_wait_time_watch_transaction hash)
      record {
        run = after_get_receipt decoder handler_provider backon tx hash waited;
        keeps = after_get_receipt-Keeps hash waited;
      })
    seen (handler_provider.get_balance tx.wallet_address) (provider.get_balance tx.wallet_address)
    lifted (map_err transaction_failed_error (handler_provider.ensure_success receipt))
    pure (handler_provider.transaction_hash receipt)

  pub submit-Keeps :
      (t : Transaction CompressedProof) → Keeps R (submit decoder handler_provider backon tx t)
  unfolding submitted submit simulate_transaction send_transaction await_receipt confirm_receipt
      record_metrics
  submit-Keeps t = (submitted t).keeps
