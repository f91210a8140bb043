-- ===== src/KeyGen/Transactions.antt =====
-- oprf-key-gen/src/services/transaction_handler.rs: a transaction is simulated, sent, and waited for.
-- `W` is the state of the world; alloy's provider is a parameter.
pub mod Runs
pub mod Sent
use oprf_service.Base.{
  ℕ, Bool, true, false, Option, none, some, Result, ok, err, ok_or, bind_ok, map_err,
}
use oprf_service.Types.Chain.{Report, Round1Contribution, Round2Contribution}
use oprf_service.KeyGen.Effects.{M, ◌>>=◌, ◌>>◌, pure, fail, lift, call}
use oprf_service.KeyGen.Retry.{Backon}
use oprf_service.KeyGen.Errors.{
  RpcError, null_resp, other_rpc, PendingTransactionError, transport_error, tx_watcher_timeout,
  other_pending, Decoder, KeyRegistryEventError, rpc, pending_transaction_error,
  transaction_failed_error, from_contract,
}

-- The calls of the contract, with the key they are about.
pub data Transaction (CompressedProof : Type 0) : Type 0 where
  add_round1_keygen_contribution : ℕ → Round1Contribution → Transaction CompressedProof
  add_round1_reshare_contribution : ℕ → Round1Contribution → Transaction CompressedProof
  add_round2_contribution : ℕ → Round2Contribution CompressedProof → Transaction CompressedProof
  add_round3_contribution : ℕ → Transaction CompressedProof

-- The provider: the gas limit comes before a call, the confirmations and the timeout before a wait.
pub record Provider (W E CompressedProof Receipt : Type 0) : Type 0 where
  pub simulate : ℕ → Transaction CompressedProof → W → Result E (Unit {0}) × W
  pub send : ℕ → Transaction CompressedProof → W → Result E ℕ × W
  pub get_receipt : ℕ → ℕ → ℕ → W → Result PendingTransactionError Receipt × W
  pub get_transaction_receipt : ℕ → W → Result RpcError (Option Receipt) × W
  pub get_balance : ℕ → W → Result RpcError ℕ × W
  pub ensure_success : Receipt → Result Report (Unit {0})
  pub transaction_hash : Receipt → ℕ

pub record TransactionHandler : Type 0 where
  pub max_wait_time_watch_transaction : ℕ
  pub confirmations_for_transaction : ℕ
  pub max_tries_fetching_receipt : ℕ
  pub max_gas_per_transaction : ℕ
  pub wallet_address : ℕ

unfoldable pub is_null_resp : RpcError → Bool
is_null_resp null_resp = true
is_null_resp (other_rpc r) = false

-- The errors of `get_receipt` after which the receipt is asked for again.
unfoldable pub starts_backoff : PendingTransactionError → Bool
starts_backoff (transport_error null_resp) = true
starts_backoff tx_watcher_timeout = true
starts_backoff (transport_error (other_rpc r)) = false
starts_backoff (other_pending r) = false

-- `.await?.ok_or(NullResp)`.
abbrev pub found : {A W : Type 0} → Result RpcError (Option A) × W → Result RpcError A × W
found (r, w) = (bind_ok r (λ o. ok_or o null_resp), w)

module _ {W E CompressedProof Receipt : Type 0} (decoder : Decoder E)
    (provider : Provider W E CompressedProof Receipt) (backon : Backon W RpcError Receipt)
    (handler : TransactionHandler) where
  unfoldable pub simulate_transaction :
      Transaction CompressedProof → M W (KeyRegistryEventError E) (Unit {0})
  simulate_transaction transaction =
      call (from_contract decoder) (provider.simulate handler.max_gas_per_transaction transaction)

  -- The receipt of a hash, with retries.
  unfoldable pub fetch_receipt : ℕ → W → Result RpcError Receipt × W
  unfolding is_null_resp
  fetch_receipt tx_hash =
      backon.retry handler.max_tries_fetching_receipt is_null_resp
        (λ w. found (provider.get_transaction_receipt tx_hash w))

  -- What is made of the result of `get_receipt`.
  unfoldable pub after_get_receipt :
      ℕ → Result PendingTransactionError Receipt → M W (KeyRegistryEventError E) Receipt
  unfolding starts_backoff fetch_receipt
  after_get_receipt tx_hash (ok receipt) = pure receipt
  after_get_receipt tx_hash (err e) = elim (starts_backoff e) [
    | true ↦ call rpc (fetch_receipt tx_hash)
    | false ↦ fail (pending_transaction_error e)
  ]

  -- A call whose result is taken as it is.
  abbrev pub outcome :
      {A X : Type 0} → (W → Result X A × W) → M W (KeyRegistryEventError E) (Result X A)
  outcome op w = (some (ok (op w).0), (op w).1)

  -- What `send_transaction` does once the transaction is pending.
  unfoldable pub await_receipt : ℕ → M W (KeyRegistryEventError E) Receipt
  unfolding after_get_receipt
  await_receipt tx_hash = do
    get_receipt_result ← outcome (
        provider.get_receipt handler.confirmations_for_transaction
          handler.max_wait_time_watch_transaction tx_hash)
    after_get_receipt tx_hash get_receipt_result

  unfoldable pub send_transaction :
      Transaction CompressedProof → M W (KeyRegistryEventError E) Receipt
  unfolding await_receipt
  send_transaction transaction = do
    tx_hash ←
        call (from_contract decoder) (provider.send handler.max_gas_per_transaction transaction)
    await_receipt tx_hash

  -- Asks for the balance, whose failure is for the log.
  unfoldable pub record_metrics : M W (KeyRegistryEventError E) (Unit {0})
  record_metrics = outcome (provider.get_balance handler.wallet_address) >>= (λ _. pure tt)

  -- The rest of `submit`, once there is a receipt.
  unfoldable pub confirm_receipt : Receipt → M W (KeyRegistryEventError E) ℕ
  unfolding record_metrics
  confirm_receipt receipt = do
    record_metrics
    lift (map_err transaction_failed_error (provider.ensure_success receipt))
    pure (provider.transaction_hash receipt)

  unfoldable pub submit : Transaction CompressedProof → M W (KeyRegistryEventError E) ℕ
  unfolding simulate_transaction send_transaction confirm_receipt
  submit transaction = do
    simulate_transaction transaction
    receipt ← send_transaction transaction
    confirm_receipt receipt
