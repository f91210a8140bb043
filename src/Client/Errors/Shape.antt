-- ===== src/Client/Errors/Shape.antt =====
-- What the loop of `aggregate_error` counts.
use oprf_service.Base.{
  ℕ, suc, ◌+◌, ◌≤◌, ◌<◌, ◌≡◌, sym, ap, ◌∙◌, List, [], ◌∷◌, ◌++◌, Result, ok, err, length, leb,
  subst, arith, Bool-cases, inl, inr,
}
use mathlib.Core.Path.{fun_ext}
use mathlib.Core.List.{append_assoc, append-nil}
use oprf_service.Client.Sessions.{
  NodeError, ServiceError, service_error, ws_error, unexpected_message, epoch_mismatch, unknown,
}
use oprf_service.Client.Errors.Counts.{lookup, tick, reached, below_count, lookup-count, tick-add}
use oprf_service.Client.Errors.{
  Error, Tally, bytes_discrete, ServiceError-discrete, count_entry, aggregate_loop, ws_errors,
  threshold_service_error, unexpected_messages,
}

-- Nothing of the tally has reached the threshold.
abbrev pub Below : ℕ → Tally → Type 0
Below threshold tally =
    ((e : ServiceError) → lookup ServiceError-discrete e tally.service_errors < threshold)
    × ((reason : List ℕ) → lookup bytes_discrete reason tally.unexpected_message < threshold)

module _ {E : Type 0} where
  -- How often the nodes sent an error or a message, and the epochs they sent.
  unfoldable pub service_count : ServiceError → List (NodeError E) → ℕ
  unfolding tick
  service_count e [] = 0
  service_count e (service_error e' ∷ errors) =
      tick ServiceError-discrete e' e (service_count e errors)
  service_count e (ws_error _ ∷ errors) = service_count e errors
  service_count e (unexpected_message _ ∷ errors) = service_count e errors
  service_count e (epoch_mismatch _ ∷ errors) = service_count e errors
  service_count e (unknown _ ∷ errors) = service_count e errors

  unfoldable pub message_count : List ℕ → List (NodeError E) → ℕ
  unfolding tick
  message_count reason [] = 0
  message_count reason (service_error _ ∷ errors) = message_count reason errors
  message_count reason (ws_error _ ∷ errors) = message_count reason errors
  message_count reason (unexpected_message other ∷ errors) =
      tick bytes_discrete other reason (message_count reason errors)
  message_count reason (epoch_mismatch _ ∷ errors) = message_count reason errors
  message_count reason (unknown _ ∷ errors) = message_count reason errors

  unfoldable pub epochs_of : List (NodeError E) → List ℕ
  epochs_of [] = []
  epochs_of (service_error _ ∷ errors) = epochs_of errors
  epochs_of (ws_error _ ∷ errors) = epochs_of errors
  epochs_of (unexpected_message _ ∷ errors) = epochs_of errors
  epochs_of (epoch_mismatch epoch ∷ errors) = epoch ∷ epochs_of errors
  epochs_of (unknown _ ∷ errors) = epochs_of errors

  -- An early return names what came threshold many times; else nothing did, and the tally has the
  -- number of the errors of web-sockets and the epochs.
  abbrev pub Shape :
      ℕ → (ServiceError → ℕ) → (List ℕ → ℕ) → ℕ → List ℕ → Result (Error E) Tally → Type 0
  Shape threshold services messages sockets epochs (err (threshold_service_error e)) =
      threshold ≤ services e
  Shape threshold services messages sockets epochs (err (unexpected_messages reason)) =
      threshold ≤ messages reason
  Shape threshold services messages sockets epochs (err _) = ⊥
  Shape threshold services messages sockets epochs (ok tally) =
      ((e : ServiceError) → services e < threshold)
      × ((reason : List ℕ) → messages reason < threshold)
      × (tally.ws_errors_counters ≡ sockets)
      × (tally.epoch_mismatches ≡ epochs)

  abbrev pub services_of : Tally → List (NodeError E) → ServiceError → ℕ
  services_of tally errors e =
      lookup ServiceError-discrete e tally.service_errors + service_count e errors

  abbrev pub messages_of : Tally → List (NodeError E) → List ℕ → ℕ
  messages_of tally errors reason =
      lookup bytes_discrete reason tally.unexpected_message + message_count reason errors

  abbrev pub ShapeFrom : ℕ → List (NodeError E) → Tally → Result (Error E) Tally → Type 0
  ShapeFrom threshold errors tally =
      Shape threshold (services_of tally errors) (messages_of tally errors)
        (tally.ws_errors_counters + length (ws_errors errors))
        (tally.epoch_mismatches ++ epochs_of errors)

  services_step :
      (e : ServiceError) (errors : List (NodeError E)) (tally : Tally)
      → services_of
          (record tally {
            service_errors = (count_entry ServiceError-discrete e tally.service_errors).1;
          })
          errors
        ≡ services_of tally (service_error e ∷ errors)
  unfolding service_count
  services_step e errors tally = fun_ext λ e'.
      ap (λ n. n + service_count e' errors)
        (lookup-count ServiceError-discrete e e' tally.service_errors)
      ∙ tick-add ServiceError-discrete e e' (lookup ServiceError-discrete e' tally.service_errors)
          (service_count e' errors)

  messages_step :
      (reason : List ℕ) (errors : List (NodeError E)) (tally : Tally)
      → messages_of
          (record tally {
            unexpected_message = (count_entry bytes_discrete reason tally.unexpected_message).1;
          })
          errors
        ≡ messages_of tally (unexpected_message reason ∷ errors)
  unfolding message_count
  messages_step reason errors tally = fun_ext λ other.
      ap (λ n. n + message_count other errors)
        (lookup-count bytes_discrete reason other tally.unexpected_message)
      ∙ tick-add bytes_discrete reason other (lookup bytes_discrete other tally.unexpected_message)
          (message_count other errors)

  pub aggregate_loop-Shape :
      (threshold : ℕ) (errors : List (NodeError E)) (tally : Tally)
      → Below threshold tally
      → ShapeFrom threshold errors tally (aggregate_loop threshold errors tally)
  unfolding aggregate_loop service_count message_count epochs_of ws_errors
  aggregate_loop-Shape threshold [] tally h = (
    λ e. let q = h.0 e in omega arith,
    λ reason. let q = h.1 reason in omega arith,
    omega arith,
    sym (append-nil tally.epoch_mismatches),
  )
  aggregate_loop-Shape threshold (service_error e ∷ errors) tally h =
      elim (Bool-cases
        (leb threshold (count_entry ServiceError-discrete e tally.service_errors).0)) [
          | inl q ↦ rw q (
              reached ServiceError-discrete e tally.service_errors threshold
                (service_count e errors) q)
          | inr q ↦ rw q (
              subst
                (λ services.
                  Shape threshold services (messages_of tally errors)
                    (tally.ws_errors_counters + length (ws_errors errors))
                    (tally.epoch_mismatches ++ epochs_of errors)
                    (aggregate_loop threshold errors (record tally {
                      service_errors = (count_entry ServiceError-discrete e tally.service_errors).1;
                    })))
                (services_step e errors tally)
                (aggregate_loop-Shape threshold errors
                  (record tally {
                    service_errors = (count_entry ServiceError-discrete e tally.service_errors).1;
                  })
                  (below_count ServiceError-discrete e tally.service_errors threshold q h.0, h.1)))
        ]
  aggregate_loop-Shape threshold (ws_error e ∷ errors) tally h =
      subst
        (λ sockets.
          Shape threshold (services_of tally errors) (messages_of tally errors) sockets
            (tally.epoch_mismatches ++ epochs_of errors)
            (aggregate_loop threshold errors
              (record tally { ws_errors_counters = suc tally.ws_errors_counters })))
        (omega arith)
        (aggregate_loop-Shape threshold errors
          (record tally { ws_errors_counters = suc tally.ws_errors_counters }) h)
  aggregate_loop-Shape threshold (unexpected_message reason ∷ errors) tally h =
      elim (Bool-cases
        (leb threshold (count_entry bytes_discrete reason tally.unexpected_message).0)) [
          | inl q ↦ rw q (
              reached bytes_discrete reason tally.unexpected_message threshold
                (message_count reason errors) q)
          | inr q ↦ rw q (
              subst
                (λ messages.
                  Shape threshold (services_of tally errors) messages
                    (tally.ws_errors_counters + length (ws_errors errors))
                    (tally.epoch_mismatches ++ epochs_of errors)
                    (aggregate_loop threshold errors (record tally {
                      unexpected_message =
                          (count_entry bytes_discrete reason tally.unexpected_message).1;
                    })))
                (messages_step reason errors tally)
                (aggregate_loop-Shape threshold errors
                  (record tally {
                    unexpected_message =
                        (count_entry bytes_discrete reason tally.unexpected_message).1;
                  })
                  (
                    h.0,
                    below_count bytes_discrete reason tally.unexpected_message threshold q h.1,
                  )))
        ]
  aggregate_loop-Shape threshold (epoch_mismatch epoch ∷ errors) tally h =
      subst
        (λ epochs.
          Shape threshold (services_of tally errors) (messages_of tally errors)
            (tally.ws_errors_counters + length (ws_errors errors)) epochs
            (aggregate_loop threshold errors
              (record tally { epoch_mismatches = tally.epoch_mismatches ++ epoch ∷ [] })))
        (append_assoc tally.epoch_mismatches (epoch ∷ []) (epochs_of errors))
        (aggregate_loop-Shape threshold errors
          (record tally { epoch_mismatches = tally.epoch_mismatches ++ epoch ∷ [] }) h)
  aggregate_loop-Shape threshold (unknown e ∷ errors) tally h =
      aggregate_loop-Shape threshold errors tally h
