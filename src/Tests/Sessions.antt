-- ===== src/Tests/Sessions.antt =====
-- Runs of a client that opens sessions, and of the nodes' checks.
use oprf_service.Types.{coeff_of}
use oprf_service.Base.{
  ℕ, ◌≡◌, refl, inl, inr, List, [], ◌∷◌, map, length, some, none, Result, ok, err, Ascends, ◌↔◌,
  arith,
}
use oprf_service.Client.Sessions.{OprfSessions, OprfResponse, NodeError, init_sessions, ws_error}
use oprf_service.Client.Sessions.{ServiceError, service_error, epoch_mismatch}
use oprf_service.Client.Errors.{
  aggregate_error, aggregate_loop, aggregate_tally, count_entry, bytes_discrete,
  ServiceError-discrete, threshold_service_error,
}
use native.Mathlib.Decide.{ℕ_discrete}
use oprf_service.Client.Errors.Consensus.{Explains, aggregate_error-Explains}
use oprf_service.Client.Sessions.Chosen.{Among, Ends, init_sessions-Ends}
use oprf_service.Service.Session.{check_coefficients}
use oprf_service.Service.Session.Checks.{
  Contains, check_coefficients_iff, check_coefficients-init_sessions,
}

-- The answers of nodes 4 and 1 for epoch 2, one for epoch 1, and a failure; services, commitments
-- and keys are numbers.
abbrev results : List (Result (NodeError ℕ) (ℕ × OprfResponse ℕ ℕ))
results =
    ok (100, record { commitments = 7; party_id = 4; key = 9; epoch = 2 })
    ∷ err (ws_error 0)
    ∷ ok (101, record { commitments = 6; party_id = 3; key = 8; epoch = 1 })
    ∷ ok (102, record { commitments = 5; party_id = 1; key = 9; epoch = 2 })
    ∷ []

abbrev sessions : OprfSessions ℕ ℕ ℕ
sessions = record {
  ws = 102 ∷ 100 ∷ [];
  party_ids = 1 ∷ 4 ∷ [];
  commitments = 5 ∷ 7 ∷ [];
  oprf_public_keys = 9 ∷ 9 ∷ [];
  epoch = 2;
}

init_sessions-results : init_sessions 2 results ≡ some (ok sessions)
unfolding init_sessions
init_sessions-results = refl

init_sessions-Ends_example : Ends (λ answer. Among answer results) 2 (init_sessions 2 results)
init_sessions-Ends_example = init_sessions-Ends 2 results

check_coefficients-init_sessions_example :
    check_coefficients 2 4 (map coeff_of sessions.party_ids) ≡ ok tt
check_coefficients-init_sessions_example =
    check_coefficients-init_sessions 2 4 results sessions init_sessions-results (ground arith)
      (inr (inl refl))

check_coefficients_iff_example :
    (check_coefficients 2 4 (2 ∷ 5 ∷ []) ≡ ok tt)
    ↔ ((length {A = ℕ} (2 ∷ 5 ∷ []) ≡ 2) × Contains 5 (2 ∷ 5 ∷ []) × Ascends (2 ∷ 5 ∷ []))
check_coefficients_iff_example = check_coefficients_iff 2 4 (2 ∷ 5 ∷ [])

abbrev refused : ServiceError
refused = record { error_code = 4500; msg = none }

-- Two nodes refuse the client, one is at another epoch, and one cannot be reached.
abbrev node_errors : List (NodeError ℕ)
node_errors = service_error refused ∷ epoch_mismatch 3 ∷ ws_error 0 ∷ service_error refused ∷ []

aggregate_error-Explains_example : Explains 2 node_errors (aggregate_error 2 node_errors)
aggregate_error-Explains_example = aggregate_error-Explains 2 node_errors (omega arith)

refused_twice : aggregate_error 2 node_errors ≡ threshold_service_error refused
unfolding aggregate_error aggregate_loop aggregate_tally count_entry bytes_discrete
    ServiceError-discrete ℕ_discrete
refused_twice = refl
