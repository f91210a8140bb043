-- ===== src/Client/Errors/Consensus.antt =====
-- Which error the client ends with, in terms of how often each error came from the nodes.
use oprf_service.Base.{
  ℕ, ◌≤◌, ◌<◌, ◌≡◌, refl, ap, List, [], Result, ok, err, length, leb, subst, arith, Bool-cases, inl,
  inr,
}
use mathlib.Core.Path.{fun_ext}
use oprf_service.Client.Sessions.{NodeError, ServiceError}
use oprf_service.Client.Errors.Counts.{lookup}
use oprf_service.Client.Errors.Shape.{
  Shape, aggregate_loop-Shape, service_count, message_count, epochs_of,
}
use oprf_service.Client.Errors.{
  Error, Tally, aggregate_loop, ws_errors, aggregate_tally, aggregate_error, epoch_mismatches,
  threshold_service_error, networking, unexpected_messages, node_error_disagreement,
  non_unique_services, invalid_threshold, invalid_dlog_proof, inconsistent_oprf_public_keys,
  cannot_finish_session, unknown_error, delegate_request, delegate_server_error,
}

module _ {E : Type 0} where
  -- No error of the application and no unexpected message came `threshold` times.
  abbrev pub Disagree : ℕ → List (NodeError E) → Type 0
  Disagree threshold errors =
      ((e : ServiceError) → service_count e errors < threshold)
      × ((reason : List ℕ) → message_count reason errors < threshold)

  -- What an error says of the errors of the nodes.
  abbrev pub Explains : ℕ → List (NodeError E) → Error E → Type 0
  Explains threshold errors (threshold_service_error e) = threshold ≤ service_count e errors
  Explains threshold errors (unexpected_messages reason) = threshold ≤ message_count reason errors
  Explains threshold errors (epoch_mismatches epochs) =
      Disagree threshold errors × (epochs ≡ epochs_of errors) × (threshold ≤ length epochs)
  Explains threshold errors (networking sockets) =
      Disagree threshold errors
      × (length (epochs_of errors) < threshold)
      × (sockets ≡ ws_errors errors)
      × (threshold ≤ length sockets)
  Explains threshold errors (node_error_disagreement all) =
      Disagree threshold errors
      × (length (epochs_of errors) < threshold)
      × (length (ws_errors errors) < threshold)
      × (all ≡ errors)
  Explains threshold errors _ = ⊥

  Shape-cong :
      (threshold : ℕ) {services services' : ServiceError → ℕ} {messages messages' : List ℕ → ℕ}
      {sockets sockets' : ℕ} (epochs : List ℕ) (r : Result (Error E) Tally)
      → services ≡ services'
      → messages ≡ messages'
      → sockets ≡ sockets'
      → Shape threshold services messages sockets epochs r
      → Shape threshold services' messages' sockets' epochs r
  Shape-cong threshold {services = services} {messages = messages} {messages' = messages'}
        {sockets' = sockets'} epochs r a b c s =
      subst (λ x. Shape threshold x messages' sockets' epochs r) a
        (subst (λ x. Shape threshold services x sockets' epochs r) b
          (subst (λ x. Shape threshold services messages x epochs r) c s))

  aggregate_tally-Explains :
      (threshold : ℕ) (errors : List (NodeError E)) (r : Result (Error E) Tally)
      → Shape threshold
          (λ e. service_count e errors)
          (λ reason. message_count reason errors)
          (length (ws_errors errors))
          (epochs_of errors)
          r
      → Explains threshold errors (aggregate_tally threshold errors r)
  unfolding aggregate_tally
  aggregate_tally-Explains threshold errors (err (threshold_service_error e)) s = s
  aggregate_tally-Explains threshold errors (err (unexpected_messages reason)) s = s
  aggregate_tally-Explains threshold errors (err non_unique_services) s = absurd s
  aggregate_tally-Explains threshold errors (err (epoch_mismatches _)) s = absurd s
  aggregate_tally-Explains threshold errors (err (invalid_threshold _ _)) s = absurd s
  aggregate_tally-Explains threshold errors (err invalid_dlog_proof) s = absurd s
  aggregate_tally-Explains threshold errors (err inconsistent_oprf_public_keys) s = absurd s
  aggregate_tally-Explains threshold errors (err (networking _)) s = absurd s
  aggregate_tally-Explains threshold errors (err (cannot_finish_session _)) s = absurd s
  aggregate_tally-Explains threshold errors (err (node_error_disagreement _)) s = absurd s
  aggregate_tally-Explains threshold errors (err (unknown_error _)) s = absurd s
  aggregate_tally-Explains threshold errors (err (delegate_request _)) s = absurd s
  aggregate_tally-Explains threshold errors (err (delegate_server_error _ _)) s = absurd s
  aggregate_tally-Explains threshold errors (ok tally) (services, messages, sockets, epochs) =
      let e : length tally.epoch_mismatches ≡ length (epochs_of errors) = ap length epochs in
      elim (Bool-cases (leb threshold (length tally.epoch_mismatches))) [
        | inl q ↦ rw q ((services, messages), epochs, grind arith)
        | inr q ↦ elim (Bool-cases (leb threshold tally.ws_errors_counters)) [
          | inl w ↦ rw (q, w) ((services, messages), grind arith, refl, grind arith)
          | inr w ↦ rw (q, w) ((services, messages), grind arith, grind arith, refl)
        ]
      ]

  -- For a threshold above zero, the error that the client makes of the nodes' errors names an error
  -- of the application or an unexpected message that came threshold many times; or none did, and it
  -- has all the epochs if they are threshold many; or neither, and it has all the errors of
  -- web-sockets if they are threshold many; or none of these, and it has all the errors.
  pub aggregate_error-Explains :
      (threshold : ℕ) (errors : List (NodeError E))
      → 0 < threshold
      → Explains threshold errors (aggregate_error threshold errors)
  unfolding aggregate_error lookup
  aggregate_error-Explains threshold errors h =
      aggregate_tally-Explains threshold errors (aggregate_loop threshold errors empty) (
        Shape-cong threshold (epochs_of errors) (aggregate_loop threshold errors empty)
          (fun_ext λ e. omega arith) (fun_ext λ reason. omega arith) (omega arith)
          (aggregate_loop-Shape threshold errors empty (λ e. h, λ reason. h)))
    where
      empty : Tally
      empty = record {
        service_errors = [];
        ws_errors_counters = 0;
        unexpected_message = [];
        epoch_mismatches = [];
      }
