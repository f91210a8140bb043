-- ===== src/KeyGen/Transactions/Sent.antt =====
-- How often a submission sends its transaction and asks for its receipt.
use oprf_service.Base.{
  ℕ, suc, ◌+◌, ◌≤◌, ◌≡◌, refl, sym, ap, subst, ◌∙◌, Bool-cases, inl, inr, Option, none, some,
  Result, ok, err, arith,
}
use oprf_service.Types.Chain.{Report}
use oprf_service.KeyGen.Effects.{after, convert}
use oprf_service.KeyGen.Retry.{Backon}
use oprf_service.KeyGen.Retry.Induction.{retry-induct}
use oprf_service.KeyGen.Errors.{
  RpcError, PendingTransactionError, Decoder, KeyRegistryEventError, from_contract,
}
use oprf_service.KeyGen.Transactions.{
  Transaction, Provider, TransactionHandler, is_null_resp, starts_backoff, found, fetch_receipt,
  after_get_receipt, simulate_transaction, await_receipt, send_transaction, record_metrics,
  confirm_receipt, submit,
}

-- What a provider does to the number of transactions that were sent, and to that of receipts that
-- were asked for by hash.
pub record Counted {W E CompressedProof Receipt : Type 0}
    (provider : Provider W E CompressedProof Receipt) (sent fetched : W → ℕ) : Type 0 where
  pub simulate :
      (gas : ℕ) (t : Transaction CompressedProof) (w : W)
      → (sent (provider.simulate gas t w).1 ≡ sent w)
        × (fetched (provider.simulate gas t w).1 ≡ fetched w)
  pub send :
      (gas : ℕ) (t : Transaction CompressedProof) (w : W)
      → (sent (provider.send gas t w).1 ≡ suc (sent w))
        × (fetched (provider.send gas t w).1 ≡ fetched w)
  pub get_receipt :
      (confirmations timeout hash : ℕ) (w : W)
      → (sent (provider.get_receipt confirmations timeout hash w).1 ≡ sent w)
        × (fetched (provider.get_receipt confirmations timeout hash w).1 ≡ fetched w)
  pub get_transaction_receipt :
      (hash : ℕ) (w : W)
      → (sent (provider.get_transaction_receipt hash w).1 ≡ sent w)
        × (fetched (provider.get_transaction_receipt hash w).1 ≡ suc (fetched w))
  pub get_balance :
      (address : ℕ) (w : W)
      → (sent (provider.get_balance address w).1 ≡ sent w)
        × (fetched (provider.get_balance address w).1 ≡ fetched w)

module _ {W E CompressedProof Receipt : Type 0} (decoder : Decoder E)
    (provider : Provider W E CompressedProof Receipt) (backon : Backon W RpcError Receipt)
    (handler : TransactionHandler) (sent fetched : W → ℕ)
    (counted : Counted provider sent fetched) where
  -- Nothing is sent, and the receipt is asked for `n` times more at most.
  abbrev Waits : ℕ → W → W → Type 0
  Waits n w w' = (sent w' ≡ sent w) × (fetched w' ≤ fetched w + n)

  found-state : {A : Type 0} (out : Result RpcError (Option A) × W) → (found out).1 ≡ out.1
  found-state (r, w) = refl

  fetch-Waits : (hash : ℕ) (w : W) → Waits 1 w (found (provider.get_transaction_receipt hash w)).1
  fetch-Waits hash w =
      let (same, one) = counted.get_transaction_receipt hash w in
      subst (Waits 1 w) (sym (found-state (provider.get_transaction_receipt hash w)))
        (same, omega arith)

  fetch_receipt-Waits :
      (hash : ℕ) (w : W)
      → Waits
          (suc handler.max_tries_fetching_receipt)
          w
          (fetch_receipt decoder provider backon handler hash w).1
  unfolding fetch_receipt
  fetch_receipt-Waits hash w =
      retry-induct backon is_null_resp (λ w. found (provider.get_transaction_receipt hash w))
        (λ n w out. Waits (suc n) w out.1)
        (λ n w. let (same, one) = fetch-Waits hash w in (same, omega arith))
        (λ n w x w' out e (same, more).
          let (first, one) = subst (λ out. Waits 1 w out.1) e (fetch-Waits hash w) in
          (same ∙ first, omega arith))
        handler.max_tries_fetching_receipt w

  -- There is a result, an error or a value.
  abbrev Returns : {A : Type 0} → Option (Result (KeyRegistryEventError E) A) → Type 0
  Returns none = ⊥
  Returns (some r) = Unit

  after_get_receipt-Waits :
      (hash : ℕ) (r : Result PendingTransactionError Receipt) (w : W)
      → Waits
          (suc handler.max_tries_fetching_receipt)
          w
          (after_get_receipt decoder provider backon handler hash r w).1
        × Returns (after_get_receipt decoder provider backon handler hash r w).0
  unfolding after_get_receipt
  after_get_receipt-Waits hash (ok receipt) w = ((refl, omega arith), tt)
  after_get_receipt-Waits hash (err e) w = elim (Bool-cases (starts_backoff e)) [
    | inl q ↦ rw (after_get_receipt, q) (fetch_receipt-Waits hash w, tt)
    | inr q ↦ rw (after_get_receipt, q) ((refl, omega arith), tt)
  ]

  -- The hash is that of a receipt of success.
  abbrev pub Answer : Option (Result (KeyRegistryEventError E) ℕ) → Type 0
  Answer none = ⊥
  Answer (some (err e)) = Unit
  Answer (some (ok hash)) =
      (receipt : Receipt) × (provider.transaction_hash receipt ≡ hash)
      × (provider.ensure_success receipt ≡ ok tt)

  confirm_receipt-Answer :
      (receipt : Receipt) (w : W)
      → Waits 0 w (confirm_receipt decoder provider backon handler receipt w).1
        × Answer (confirm_receipt decoder provider backon handler receipt w).0
  unfolding confirm_receipt record_metrics
  confirm_receipt-Answer receipt w =
      let (same, one) = counted.get_balance handler.wallet_address w in
      go (provider.ensure_success receipt) refl (same, omega arith)
    where
      w' : W
      w' = (provider.get_balance handler.wallet_address w).1

      go :
          (r : Result Report (Unit {0}))
          → provider.ensure_success receipt ≡ r
          → Waits 0 w w'
          → Waits 0 w (confirm_receipt decoder provider backon handler receipt w).1
            × Answer (confirm_receipt decoder provider backon handler receipt w).0
      go (ok u) e h = rw (confirm_receipt, e) (h, (receipt, refl, e))
      go (err x) e h = rw (confirm_receipt, e) (h, tt)

  -- The transaction is sent once.
  abbrev pub Sends : W → Option (Result (KeyRegistryEventError E) ℕ) × W → Type 0
  Sends w (answer, w') =
      (sent w' ≡ suc (sent w))
      × (fetched w' ≤ fetched w + suc handler.max_tries_fetching_receipt)
      × Answer answer

  -- The result of the wait, and the rest of `submit`.
  received-Sends :
      (w w' : W) (out : Option (Result (KeyRegistryEventError E) Receipt) × W)
      → (sent w' ≡ suc (sent w)) × (fetched w' ≡ fetched w)
      → Waits (suc handler.max_tries_fetching_receipt) w' out.1 × Returns out.0
      → Sends w (after (confirm_receipt decoder provider backon handler) out)
  received-Sends w w' (none, v) h (waits, r) = absurd r
  received-Sends w w' (some (err e), v) (s, f) ((same, more), r) = (same ∙ s, omega arith, tt)
  received-Sends w w' (some (ok receipt), v) (s, f) ((same, more), r) =
      let ((again, no_more), answer) = confirm_receipt-Answer receipt v in
      (again ∙ same ∙ s, omega arith, answer)

  sent_one :
      (transaction : Transaction CompressedProof) (w : W) (out : Result E ℕ × W)
      → (sent out.1 ≡ suc (sent w)) × (fetched out.1 ≡ fetched w)
      → Sends w (
          after (confirm_receipt decoder provider backon handler) (
            after
              (await_receipt decoder provider backon handler)
              (convert (from_contract decoder) out)))
  unfolding await_receipt
  sent_one transaction w (err e, w') (s, f) = (s, omega arith, tt)
  sent_one transaction w (ok hash, w') (s, f) =
      let waiting =
        provider.get_receipt handler.confirmations_for_transaction
          handler.max_wait_time_watch_transaction hash w' in
      let (same, none_asked) =
        counted.get_receipt handler.confirmations_for_transaction
          handler.max_wait_time_watch_transaction hash w' in
      received-Sends w waiting.1
        (after_get_receipt decoder provider backon handler hash waiting.0 waiting.1)
        (same ∙ s, none_asked ∙ f) (after_get_receipt-Waits hash waiting.0 waiting.1)

  -- By the result of the simulation: its error, and nothing is sent; or the transaction is sent.
  abbrev pub Submits :
      W → Result E (Unit {0}) → Option (Result (KeyRegistryEventError E) ℕ) × W → Type 0
  Submits w (err e) (answer, w') =
      (answer ≡ some (err (from_contract decoder e)))
      × (sent w' ≡ sent w)
      × (fetched w' ≡ fetched w)
  Submits w (ok u) out = Sends w out

  simulated-Submits :
      (transaction : Transaction CompressedProof) (w : W) (out : Result E (Unit {0}) × W)
      → (sent out.1 ≡ sent w) × (fetched out.1 ≡ fetched w)
      → Submits w out.0 (
          after
            (λ _ w.
              after
                (confirm_receipt decoder provider backon handler)
                (send_transaction decoder provider backon handler transaction w))
            (convert (from_contract decoder) out))
  unfolding send_transaction
  simulated-Submits transaction w (err e, w') (s, f) = (refl, s, f)
  simulated-Submits transaction w (ok u, w') (s, f) =
      let (one, same) = counted.send handler.max_gas_per_transaction transaction w' in
      sent_one transaction w (provider.send handler.max_gas_per_transaction transaction w')
        (one ∙ ap suc s, same ∙ f)

  -- A submission never panics. When the simulation fails its error is the answer, and nothing is
  -- sent. Otherwise the transaction is sent exactly once, the receipt is asked for by its hash at
  -- most once more than there are tries, and the answer is an error, or the hash of a receipt of
  -- success. The numbers are those that the provider counts.
  pub submit-Submits :
      (transaction : Transaction CompressedProof) (w : W)
      → Submits w
          (provider.simulate handler.max_gas_per_transaction transaction w).0
          (submit decoder provider backon handler transaction w)
  unfolding submit simulate_transaction
  submit-Submits transaction w =
      simulated-Submits transaction w
        (provider.simulate handler.max_gas_per_transaction transaction w)
        (counted.simulate handler.max_gas_per_transaction transaction w)
