-- ===== src/Client/Delegate/Equivalence.antt =====
-- A client that goes by way of a delegate ends as one that talks to the nodes.
use oprf_service.Base.{
  ℕ, ◌<◌, ◌^◌, ◌≡◌, refl, List, [], Option, none, some, Result, ok, err, ok_or, bind_ok, map_err,
  ltb, arith, true,
}
use oprf_service.Algebra.Field.{Field}
use oprf_service.Algebra.Suite.{Suite}
use oprf_service.Core.Shamir.{◌>>=◌}
use oprf_service.Core.Ddlog.{DLogEqualityCommitments}
use oprf_service.Core.Mappings.{Arithmetic}
use oprf_service.Core.Oprf.{blind_query}
use oprf_service.Client.Errors.{
  Error, Text, words, threshold_service_error, networking, cannot_finish_session, epoch_mismatches,
  node_error_disagreement, delegate_request, delegate_server_error,
}
use oprf_service.Client.Distributed.{VerifiableOprfOutput, distributed_oprf_core}
use oprf_service.Client.Delegate.{
  DelegateOprfResponse, Nodes, Messages, matching, delegate_response, delegate_oprf_handler,
  finalized, distributed_oprf, read_delegate_response, delegate_distributed_oprf,
}

-- How the core of the protocol ends, and the output of a client.
abbrev pub Core : Type 0 → Type 0 → Type 0 → Type 0
Core Fr Affine E = Option (Result (Error E) (Affine × ℕ × DLogEqualityCommitments Affine × List Fr))

abbrev pub Output : Type 0 → Type 0 → Type 0 → Type 0 → Type 0
Output Fr Fq Affine E = Option (Result (Error E) (VerifiableOprfOutput Fr Fq Affine))

-- The codes are numbers of 16 bits.
abbrev pub IsU16 : {Fr Affine E : Type 0} → Core Fr Affine E → Type 0
IsU16 (some (err (threshold_service_error e))) = e.error_code < 2 ^ 16
IsU16 _ = Unit

module _ {Fr Fq Affine E : Type 0} where
  -- By how the core ended, at the client or at the delegate: the end of a client that talks to the
  -- nodes, and that of one that goes by way of the delegate.
  abbrev pub Delegates :
      E → Core Fr Affine E → Output Fr Fq Affine E → Output Fr Fq Affine E → Type 0
  Delegates lost none direct via = (direct ≡ none) × (via ≡ some (err (delegate_request lost)))
  Delegates lost (some (ok result)) direct via = via ≡ direct
  Delegates lost (some (err (threshold_service_error e))) direct via =
      (direct ≡ some (err (threshold_service_error e)))
      × (via
          ≡ some (err (threshold_service_error (record { error_code = e.error_code; msg = none }))))
  Delegates lost (some (err (networking errors))) direct via =
      (direct ≡ some (err (networking errors)))
      × (via ≡ some (err (delegate_server_error 503 (words []))))
  Delegates lost (some (err (cannot_finish_session e))) direct via =
      (direct ≡ some (err (cannot_finish_session e)))
      × (via ≡ some (err (delegate_server_error 503 (words []))))
  Delegates lost (some (err (epoch_mismatches epochs))) direct via =
      (direct ≡ some (err (epoch_mismatches epochs)))
      × (via ≡ some (err (delegate_server_error 503 (words []))))
  Delegates lost (some (err (node_error_disagreement errors))) direct via =
      (direct ≡ some (err (node_error_disagreement errors)))
      × (via ≡ some (err (delegate_server_error 503 (words []))))
  Delegates lost (some (err e)) direct via =
      (direct ≡ some (err e)) × (via ≡ some (err (delegate_server_error 500 (words []))))

module _ {Fr Fq Affine : Type 0} ⦃S : Field Fr⦄ ⦃B : Field Fq⦄ (C : Suite Fr Fq Affine S)
    (A : Arithmetic Fq Affine) where
  -- The response of the delegate, and what the client reads of it.
  abbrev relayed :
      {E : Type 0}
      → E
      → E
      → (DelegateOprfResponse Fr Affine → Text)
      → Core Fr Affine E
      → Result (Error E) (Affine × ℕ × DLogEqualityCommitments Affine × List Fr)
  relayed lost bad_json text_of core =
      bind_ok
        (map_err delegate_request
          (ok_or (core >>= (λ result. some (delegate_response C A result))) lost))
        (read_delegate_response C A bad_json text_of)

  core-Delegates :
      {E : Type 0} (lost bad_json : E) (text_of : DelegateOprfResponse Fr Affine → Text)
      (request_id : List ℕ) (query : Fq) (beta : Fr) (domain_separator : Fq) (blinded : Affine)
      (core : Core Fr Affine E)
      → IsU16 core
      → Delegates lost core
          (core >>= finalized C A request_id query beta domain_separator blinded)
          (finalized C A request_id query beta domain_separator blinded
            (relayed lost bad_json text_of core))
  unfolding delegate_response read_delegate_response finalized
  core-Delegates lost bad_json text_of request_id query beta ds blinded none h = (refl, refl)
  core-Delegates lost bad_json text_of request_id query beta ds blinded (some (ok result)) h = refl
  core-Delegates lost bad_json text_of request_id query beta ds blinded
        (some (err (threshold_service_error e))) h =
      (refl, let small : ltb e.error_code (2 ^ 16) ≡ true = ground (arith, h) in rw small refl)
  core-Delegates lost bad_json text_of request_id query beta ds blinded
        (some (err (networking errors))) h =
      (refl, refl)
  core-Delegates lost bad_json text_of request_id query beta ds blinded
        (some (err (cannot_finish_session e))) h =
      (refl, refl)
  core-Delegates lost bad_json text_of request_id query beta ds blinded
        (some (err (epoch_mismatches epochs))) h =
      (refl, refl)
  core-Delegates lost bad_json text_of request_id query beta ds blinded
        (some (err (node_error_disagreement errors))) h =
      (refl, refl)
  core-Delegates lost bad_json text_of request_id query beta ds blinded (some (err e)) h =
      (refl, refl)

  -- A client whose blinding succeeds sends its request over a connection that works to a delegate
  -- that takes its version. Where the core of the protocol, which the delegate runs on the same
  -- answers of the nodes, gives a result, the client ends exactly as if it had talked to the nodes
  -- itself. Where threshold many nodes send an error of the application, it gets the code of that
  -- error; after every other error of the core, an error of the delegate with status 503 for those
  -- that may pass, and 500 else; and the loss of the connection where the core panics.
  pub delegate_distributed_oprf-Delegates :
      {Auth Uri E : Type 0} (lost bad_json : E) (text_of : DelegateOprfResponse Fr Affine → Text)
      (messages : Messages) (request_id services : List ℕ) (threshold : ℕ) (query : Fq) (beta : Fr)
      (domain_separator : Fq) (auth : Auth) (nodes : Nodes Auth Uri E Fr Affine) (blinded : Affine)
      → blind_query C A query beta ≡ some blinded
      → IsU16 (
          distributed_oprf_core C A services threshold
            (nodes.results
              (record { request_id = request_id; blinded_query = blinded; auth = auth }))
            nodes.finish)
      → Delegates lost
          (distributed_oprf_core C A services threshold
            (nodes.results
              (record { request_id = request_id; blinded_query = blinded; auth = auth }))
            nodes.finish)
          (distributed_oprf C A request_id services threshold query beta domain_separator auth
            nodes)
          (delegate_distributed_oprf C A request_id query beta domain_separator auth bad_json
            text_of
            (λ req.
              ok_or
                (delegate_oprf_handler C A messages services threshold nodes matching req)
                lost))
  unfolding distributed_oprf delegate_distributed_oprf delegate_oprf_handler
  delegate_distributed_oprf-Delegates lost bad_json text_of messages request_id services threshold
        query beta domain_separator auth nodes blinded e h =
      rw e (
        core-Delegates lost bad_json text_of request_id query beta domain_separator blinded
          (distributed_oprf_core C A services threshold
            (nodes.results
              (record { request_id = request_id; blinded_query = blinded; auth = auth }))
            nodes.finish)
          h)
