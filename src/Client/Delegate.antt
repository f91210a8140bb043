-- ===== src/Client/Delegate.antt =====
-- The protocol by way of a delegate: distributed_oprf and delegate_distributed_oprf of
-- oprf-client/src/lib.rs, and the handler of oprf-service/src/api/oprf_delegate.rs. What is sent as
-- JSON stands for itself, and a status for its number.
pub mod Equivalence
use oprf_service.Base.{
  ℕ, ◌^◌, ◌<◌, List, [], ◌∷◌, Bool, true, false, ◌&&◌, Option, none, some, Result, ok, err, ok_or,
  bind_ok, map_err, ltb, leb, if◌then◌else◌,
}
use oprf_service.Algebra.Field.{Field}
use oprf_service.Algebra.Suite.{Suite}
use oprf_service.Core.Shamir.{◌>>=◌}
use oprf_service.Core.Ddlog.{DLogEqualityCommitments, PartialDLogEqualityCommitments}
use oprf_service.Core.Mappings.{Arithmetic}
use oprf_service.Core.Oprf.{blind_query}
use oprf_service.Service.Node.{OprfRequest}
use oprf_service.Client.Sessions.{NodeError, ServiceError, OprfResponse}
use oprf_service.Client.Errors.{
  Error, Text, digits, words, threshold_service_error, networking, cannot_finish_session,
  epoch_mismatches, node_error_disagreement, delegate_request, delegate_server_error,
}
use oprf_service.Client.PublicKeys.{OprfPublicKeyWithEpoch}
use oprf_service.Client.Distributed.{
  VerifiableOprfOutput, distributed_oprf_core, finalize_distributed_oprf,
}

pub record DelegateOprfResponse (Fr Affine : Type 0) : Type 0 where
  pub challenge : DLogEqualityCommitments Affine
  pub responses : List Fr
  pub oprf_pub_key_with_epoch : OprfPublicKeyWithEpoch Affine

pub data Body (A : Type 0) : Type 0 where
  json : A → Body A
  plain : Text → Body A

pub record HttpResponse (A : Type 0) : Type 0 where
  pub status : ℕ
  pub body : Body A

-- `StatusCode::is_success`.
abbrev pub is_success : ℕ → Bool
is_success status = leb 200 status && ltb status 300

-- `parse::<u16>`.
abbrev pub parse_u16 : Text → Option ℕ
parse_u16 (digits n) = if ltb n (2 ^ 16) then some n else none
parse_u16 (words bytes) = none

-- How the nodes answer a request: their first answers in the order of their arrival, and their
-- second ones to a challenge.
pub record Nodes (Auth Uri E Fr Affine : Type 0) : Type 0 where
  pub results :
      OprfRequest Auth Affine
      → List
          (Result (NodeError E) (Uri × OprfResponse (PartialDLogEqualityCommitments Affine) Affine))
  pub finish : DLogEqualityCommitments Affine → List (Result (NodeError E) Fr)

-- What is found for a version: whether it is there, and whether it matches.
pub data Version : Type 0 where
  missing mismatched matching : Version

-- The texts of the two refusals, and that of a response without a body.
pub record Messages : Type 0 where
  pub missing_client_version : List ℕ
  pub invalid_version : List ℕ

abbrev pub no_body : {A : Type 0} → Body A
no_body = plain (words [])

module _ {Fr Fq Affine : Type 0} ⦃S : Field Fr⦄ ⦃B : Field Fq⦄ (C : Suite Fr Fq Affine S)
    (A : Arithmetic Fq Affine) where
  -- The response of the delegate to how the core of the protocol ended.
  unfoldable pub delegate_response :
      {E : Type 0}
      → Result (Error E) (Affine × ℕ × DLogEqualityCommitments Affine × List Fr)
      → HttpResponse (DelegateOprfResponse Fr Affine)
  delegate_response (ok (key, epoch, challenge, responses)) = record {
    status = 200;
    body = json (record {
      challenge = challenge;
      responses = responses;
      oprf_pub_key_with_epoch = record { key = key; epoch = epoch };
    });
  }
  delegate_response (err (threshold_service_error e)) = record {
    status = 400;
    body = plain (digits e.error_code);
  }
  delegate_response (err (networking errors)) = record { status = 503; body = no_body }
  delegate_response (err (cannot_finish_session e)) = record { status = 503; body = no_body }
  delegate_response (err (epoch_mismatches epochs)) = record { status = 503; body = no_body }
  delegate_response (err (node_error_disagreement errors)) = record { status = 503; body = no_body }
  delegate_response (err e) = record { status = 500; body = no_body }

  unfoldable pub delegate_oprf_handler :
      {Auth Uri E : Type 0}
      → Messages
      → List ℕ
      → ℕ
      → Nodes Auth Uri E Fr Affine
      → Version
      → OprfRequest Auth Affine
      → Option (HttpResponse (DelegateOprfResponse Fr Affine))
  unfolding delegate_response
  delegate_oprf_handler messages services threshold nodes missing req =
      some (record { status = 400; body = plain (words messages.missing_client_version) })
  delegate_oprf_handler messages services threshold nodes mismatched req =
      some (record { status = 400; body = plain (words messages.invalid_version) })
  delegate_oprf_handler messages services threshold nodes matching req = do
    result ← distributed_oprf_core C A services threshold (nodes.results req) nodes.finish
    some (delegate_response result)

  -- The last step of both ways, with what the nodes gave.
  unfoldable pub finalized :
      {E : Type 0}
      → List ℕ
      → Fq
      → Fr
      → Fq
      → Affine
      → Result (Error E) (Affine × ℕ × DLogEqualityCommitments Affine × List Fr)
      → Option (Result (Error E) (VerifiableOprfOutput Fr Fq Affine))
  finalized request_id query blinding_factor domain_separator blinded_request (err e) = some (err e)
  finalized request_id query blinding_factor domain_separator blinded_request
        (ok (oprf_public_key, epoch, challenge, responses)) =
      finalize_distributed_oprf C A (record {
        request_id = request_id;
        query = query;
        blinding_factor = blinding_factor;
        domain_separator = domain_separator;
        blinded_request = blinded_request;
        challenge = challenge;
        responses = responses;
        oprf_public_key = oprf_public_key;
        epoch = epoch;
      })

  unfoldable pub distributed_oprf :
      {Auth Uri E : Type 0}
      → List ℕ
      → List ℕ
      → ℕ
      → Fq
      → Fr
      → Fq
      → Auth
      → Nodes Auth Uri E Fr Affine
      → Option (Result (Error E) (VerifiableOprfOutput Fr Fq Affine))
  unfolding finalized
  distributed_oprf request_id services threshold query blinding_factor domain_separator auth nodes =
      do
        blinded_request ← blind_query C A query blinding_factor
        let oprf_req : OprfRequest _ Affine = record {
          request_id = request_id;
          blinded_query = blinded_request;
          auth = auth;
        }
        result ← distributed_oprf_core C A services threshold (nodes.results oprf_req) nodes.finish
        finalized request_id query blinding_factor domain_separator blinded_request result

  -- What the client makes of the response; `bad_json` is the error of a body that is not JSON, and
  -- `text_of` the text of one that is.
  unfoldable pub read_delegate_response :
      {E : Type 0}
      → E
      → (DelegateOprfResponse Fr Affine → Text)
      → HttpResponse (DelegateOprfResponse Fr Affine)
      → Result (Error E) (Affine × ℕ × DLogEqualityCommitments Affine × List Fr)
  read_delegate_response bad_json text_of response =
      let reason : Text = elim response.body [ json r ↦ text_of r | plain text ↦ text ] in
      if is_success response.status
      then elim response.body [
        | json r ↦ ok (
          r.oprf_pub_key_with_epoch.key, r.oprf_pub_key_with_epoch.epoch, r.challenge, r.responses,
        )
        | plain text ↦ err (delegate_request bad_json)
      ]
      else elim (parse_u16 reason) [
        | some error_code ↦
            err (threshold_service_error (record { error_code = error_code; msg = none }))
        | none ↦ err (delegate_server_error response.status reason)
      ]

  -- `post` sends the request with the client's version.
  unfoldable pub delegate_distributed_oprf :
      {Auth E : Type 0}
      → List ℕ
      → Fq
      → Fr
      → Fq
      → Auth
      → E
      → (DelegateOprfResponse Fr Affine → Text)
      → (OprfRequest Auth Affine → Result E (HttpResponse (DelegateOprfResponse Fr Affine)))
      → Option (Result (Error E) (VerifiableOprfOutput Fr Fq Affine))
  unfolding read_delegate_response finalized
  delegate_distributed_oprf request_id query blinding_factor domain_separator auth bad_json text_of
        post =
      do
        blinded_request ← blind_query C A query blinding_factor
        let oprf_req : OprfRequest _ Affine = record {
          request_id = request_id;
          blinded_query = blinded_request;
          auth = auth;
        }
        finalized request_id query blinding_factor domain_separator blinded_request (
            bind_ok (map_err delegate_request (post oprf_req))
              (read_delegate_response bad_json text_of))
