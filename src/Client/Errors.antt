-- ===== src/Client/Errors.antt =====
-- oprf-client/src/lib.rs: the errors of the client, and the one that it makes of the errors of the
-- nodes. A hash map that counts is a list of keys with their counts.
pub mod Counts
pub mod Shape
pub mod Consensus
use oprf_service.Base.{ℕ, suc, List, [], ◌∷◌, ◌++◌, Result, ok, err, length, leb, if◌then◌else◌}
use mathlib.Core.Logic.{ite}
use native.Mathlib.Decide.{ℕ_discrete}
use oprf_service.Client.Sessions.{
  NodeError, ServiceError, service_error, ws_error, unexpected_message, epoch_mismatch, unknown,
}

-- A string: the decimal digits of a number, or another one.
pub data Text : Type 0 where
  digits : ℕ → Text
  words : List ℕ → Text

-- The errors of the client; `E` stands for boxed errors and those of `reqwest`.
-- `EpochMismatch` and `UnexpectedMessage` are in the plural, since `NodeError` has the same names.
pub data Error (E : Type 0) : Type 0 where
  non_unique_services : Error E
  epoch_mismatches : List ℕ → Error E
  invalid_threshold : ℕ → ℕ → Error E
  invalid_dlog_proof : Error E
  inconsistent_oprf_public_keys : Error E
  threshold_service_error : ServiceError → Error E
  networking : List E → Error E
  unexpected_messages : List ℕ → Error E
  cannot_finish_session : NodeError E → Error E
  node_error_disagreement : List (NodeError E) → Error E
  unknown_error delegate_request : E → Error E
  delegate_server_error : ℕ → Text → Error E

unfoldable pub bytes_discrete : Discrete (List ℕ)
bytes_discrete = hlevel ℕ_discrete

unfoldable pub ServiceError-discrete : Discrete ServiceError
ServiceError-discrete = hlevel ℕ_discrete

-- The state of the loop.
pub record Tally : Type 0 where
  pub service_errors : List (ServiceError × ℕ)
  pub ws_errors_counters : ℕ
  pub unexpected_message : List (List ℕ × ℕ)
  pub epoch_mismatches : List ℕ

-- `entry(..).or_insert(0)` and the increment: the new count, and the map.
unfoldable pub count_entry : {K : Type 0} → Discrete K → K → List (K × ℕ) → ℕ × List (K × ℕ)
count_entry d k [] = (1, (k, 1) ∷ [])
count_entry d k (entry ∷ entries) =
    let rest = count_entry d k entries in
    ite (d entry.0 k) (suc entry.1, (entry.0, suc entry.1) ∷ entries) (rest.0, entry ∷ rest.1)

module _ {E : Type 0} where
  -- The loop; `err` is an early return.
  unfoldable pub aggregate_loop : ℕ → List (NodeError E) → Tally → Result (Error E) Tally
  unfolding count_entry
  aggregate_loop threshold [] tally = ok tally
  aggregate_loop threshold (service_error e ∷ errors) tally =
      let counted = count_entry ServiceError-discrete e tally.service_errors in
      let rest = aggregate_loop threshold errors (record tally { service_errors = counted.1 }) in
      if leb threshold counted.0 then err (threshold_service_error e) else rest
  aggregate_loop threshold (ws_error e ∷ errors) tally =
      aggregate_loop threshold errors
        (record tally { ws_errors_counters = suc tally.ws_errors_counters })
  aggregate_loop threshold (unexpected_message reason ∷ errors) tally =
      let counted = count_entry bytes_discrete reason tally.unexpected_message in
      let rest =
        aggregate_loop threshold errors (record tally { unexpected_message = counted.1 }) in
      if leb threshold counted.0 then err (unexpected_messages reason) else rest
  aggregate_loop threshold (epoch_mismatch epoch ∷ errors) tally =
      aggregate_loop threshold errors
        (record tally { epoch_mismatches = tally.epoch_mismatches ++ epoch ∷ [] })
  aggregate_loop threshold (unknown e ∷ errors) tally = aggregate_loop threshold errors tally

  -- `filter_map` on the errors of the web-socket.
  unfoldable pub ws_errors : List (NodeError E) → List E
  ws_errors [] = []
  ws_errors (service_error _ ∷ errors) = ws_errors errors
  ws_errors (ws_error e ∷ errors) = e ∷ ws_errors errors
  ws_errors (unexpected_message _ ∷ errors) = ws_errors errors
  ws_errors (epoch_mismatch _ ∷ errors) = ws_errors errors
  ws_errors (unknown _ ∷ errors) = ws_errors errors

  -- After the loop.
  unfoldable pub aggregate_tally : ℕ → List (NodeError E) → Result (Error E) Tally → Error E
  unfolding ws_errors
  aggregate_tally threshold errors (err e) = e
  aggregate_tally threshold errors (ok tally) =
      if leb threshold (length tally.epoch_mismatches)
      then epoch_mismatches tally.epoch_mismatches
      else if leb threshold tally.ws_errors_counters
      then networking (ws_errors errors)
      else node_error_disagreement errors

  unfoldable pub aggregate_error : ℕ → List (NodeError E) → Error E
  unfolding aggregate_loop aggregate_tally
  aggregate_error threshold errors = aggregate_tally threshold errors (
      aggregate_loop threshold errors (record {
        service_errors = [];
        ws_errors_counters = 0;
        unexpected_message = [];
        epoch_mismatches = [];
      }))
