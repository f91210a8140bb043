-- ===== src/Client/Distributed.antt =====
-- oprf-client/src/lib.rs: the challenge, the answers put together, and the output. What the nodes
-- send is an argument: their first answers in the order of their arrival, and their second ones in
-- the order of the sessions. A panic is `none`.
pub mod Output
use oprf_service.Types.{coeff_of}
use oprf_service.Base.{
  ℕ, List, [], ◌∷◌, Bool, true, false, ◌||◌, not, map, Option, none, some, Result, ok, err, bind_ok,
  map_err, length, ltb, ◌==◌, if◌then◌else◌,
}
use mathlib.Core.Logic.{ite}
use oprf_service.Algebra.Field.{Field}
use oprf_service.Algebra.Suite.{Suite}
use oprf_service.Core.Shamir.{◌>>=◌}
use oprf_service.Core.Dlog.{DLogEqualityProof, InvalidProof, verify}
use oprf_service.Core.Ddlog.{
  DLogEqualityCommitments, PartialDLogEqualityCommitments, combine_commitments, combine_proofs,
}
use oprf_service.Core.Mappings.{Arithmetic}
use oprf_service.Core.Oprf.{prepare, unblind_response}
use oprf_service.Client.Errors.{
  Error, aggregate_error, invalid_threshold, non_unique_services, inconsistent_oprf_public_keys,
  cannot_finish_session, invalid_dlog_proof,
}
use oprf_service.Client.Sessions.{NodeError, OprfResponse, OprfSessions, init_sessions}

pub record FinalizeDistributedOprfArgs (Fr Fq Affine : Type 0) : Type 0 where
  pub request_id : List ℕ
  pub query : Fq
  pub blinding_factor : Fr
  pub domain_separator : Fq
  pub blinded_request : Affine
  pub challenge : DLogEqualityCommitments Affine
  pub responses : List Fr
  pub oprf_public_key : Affine
  pub epoch : ℕ

pub record VerifiableOprfOutput (Fr Fq Affine : Type 0) : Type 0 where
  pub output : Fq
  pub dlog_proof : DLogEqualityProof Fr Fq
  pub blinded_request : Affine
  pub blinded_response : Affine
  pub unblinded_response : Affine
  pub oprf_public_key : Affine
  pub epoch : ℕ

unfoldable pub occurs : ℕ → List ℕ → Bool
occurs x [] = false
occurs x (y ∷ ys) = y == x || occurs x ys

-- `collect::<HashSet<_>>()`; a service is a number.
unfoldable pub collect : List ℕ → List ℕ
unfolding occurs
collect [] = []
collect (x ∷ xs) = let rest = collect xs in if occurs x rest then rest else x ∷ rest

-- `try_join_all`: an error, or all the values. Of several errors it takes the first in the order of
-- the sessions, where the futures take the first in time.
unfoldable pub try_join_all :
    {A E : Type 0} → List (Result (NodeError E) A) → Result (NodeError E) (List A)
try_join_all [] = ok []
try_join_all (r ∷ rest) = bind_ok r (λ a. bind_ok (try_join_all rest) (λ as'. ok (a ∷ as')))

module _ {Fr Fq Affine : Type 0} ⦃S : Field Fr⦄ ⦃B : Field Fq⦄ (C : Suite Fr Fq Affine S)
    (A : Arithmetic Fq Affine) where
  open C use {generator, x, y, permutation_t4, point_discrete}

  unfoldable pub generate_challenge_request :
      {Uri : Type 0}
      → OprfSessions Uri (PartialDLogEqualityCommitments Affine) Affine
      → Option (DLogEqualityCommitments Affine)
  generate_challenge_request sessions =
      let contributing_parties = map coeff_of sessions.party_ids in
      combine_commitments C sessions.commitments contributing_parties

  -- `verify` on the proof that the shares add up to, with the proof.
  unfoldable pub verify_dlog_equality :
      {E : Type 0}
      → List ℕ
      → Affine
      → Affine
      → List Fr
      → DLogEqualityCommitments Affine
      → Result (Error E) (DLogEqualityProof Fr Fq)
  verify_dlog_equality request_id oprf_public_key blinded_request proofs challenge =
      let blinded_response = challenge.c in
      let dlog_proof =
        combine_proofs C challenge request_id proofs oprf_public_key blinded_request in
      bind_ok
        (map_err (λ _. invalid_dlog_proof)
          (verify C dlog_proof oprf_public_key blinded_request blinded_response generator))
        (λ _. ok dlog_proof)

  unfoldable pub finalize_distributed_oprf :
      {E : Type 0}
      → FinalizeDistributedOprfArgs Fr Fq Affine
      → Option (Result (Error E) (VerifiableOprfOutput Fr Fq Affine))
  unfolding verify_dlog_equality
  finalize_distributed_oprf args = do
    blinding_factor_prepared ← prepare args.blinding_factor
    let blinded_response = args.challenge.c
    let unblinded_response = unblind_response C A blinded_response blinding_factor_prepared
    some (
        bind_ok
          (verify_dlog_equality args.request_id args.oprf_public_key args.blinded_request
            args.responses args.challenge)
          (λ dlog_proof.
            let digest = permutation_t4 (
              args.domain_separator
              ∷ args.query
              ∷ x unblinded_response
              ∷ y unblinded_response
              ∷ []) in
            ok (record {
              output = digest 1;
              dlog_proof = dlog_proof;
              blinded_request = args.blinded_request;
              blinded_response = blinded_response;
              unblinded_response = unblinded_response;
              oprf_public_key = args.oprf_public_key;
              epoch = args.epoch;
            })))

  unfoldable pub all_same : Affine → List Affine → Bool
  all_same key [] = true
  all_same key (k ∷ keys) = let rest = all_same key keys in ite (point_discrete k key) rest false

  -- From the chosen sessions on: the key, the epoch, the challenge and the answers. `finish` gives
  -- the nodes' second answers to a challenge.
  unfoldable pub finish_core :
      {Uri E : Type 0}
      → (DLogEqualityCommitments Affine → List (Result (NodeError E) Fr))
      → OprfSessions Uri (PartialDLogEqualityCommitments Affine) Affine
      → Option (Result (Error E) (Affine × ℕ × DLogEqualityCommitments Affine × List Fr))
  unfolding generate_challenge_request all_same try_join_all
  finish_core finish sessions = elim sessions.oprf_public_keys [
    | [] ↦ none
    | oprf_public_key ∷ rest ↦
        if not (all_same oprf_public_key (oprf_public_key ∷ rest))
        then some (err inconsistent_oprf_public_keys)
        else (do
          challenge ← generate_challenge_request sessions
          some (
              bind_ok (map_err cannot_finish_session (try_join_all (finish challenge)))
                (λ responses. ok (oprf_public_key, sessions.epoch, challenge, responses))))
  ]

  unfoldable pub distributed_oprf_core :
      {Uri E : Type 0}
      → List ℕ
      → ℕ
      → List
          (Result (NodeError E) (Uri × OprfResponse (PartialDLogEqualityCommitments Affine) Affine))
      → (DLogEqualityCommitments Affine → List (Result (NodeError E) Fr))
      → Option (Result (Error E) (Affine × ℕ × DLogEqualityCommitments Affine × List Fr))
  unfolding collect finish_core
  distributed_oprf_core services threshold results finish =
      if threshold == 0 || ltb (length services) threshold
      then some (err (invalid_threshold (length services) threshold))
      else if not (length (collect services) == length services)
      then some (err non_unique_services)
      else (do
        sessions ← init_sessions threshold results
        elim sessions [
          | err errors ↦ some (err (aggregate_error threshold errors))
          | ok sessions ↦ finish_core finish sessions
        ])
