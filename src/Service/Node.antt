-- ===== src/Service/Node.antt =====
-- oprf-service/src/services/open_sessions.rs and the life-cycle of a session in api/oprf.rs. What a
-- socket, the authenticator and the key store give is an argument; a panic is `none`.
pub mod Guards
pub mod Rounds
pub mod Runs
use oprf_service.Base.{
  ℕ, List, [], ◌∷◌, Bool, true, false, Option, none, some, Result, ok, err, map_err, bind_ok,
  if◌then◌else◌, not,
}
use mathlib.Core.Logic.{ite}
use oprf_service.Algebra.Field.{Field}
use oprf_service.Algebra.Suite.{Suite}
use oprf_service.Core.Shamir.{◌>>=◌}
use oprf_service.Core.Ddlog as Ddlog
use oprf_service.Client.Sessions.{OprfResponse}
use oprf_service.Service.Session.{
  Error, AxumError, SecretManagerError, OprfKeyMaterial, OprfSession, axum, connection_closed, json,
  cbor, unexpected_message, session_reuse, auth, blinded_query_is_identity, secret_manager,
  partial_commit, challenge,
}

-- The set of `OpenSessions`.
unfoldable pub is_open : {Uuid : Type 0} → Discrete Uuid → Uuid → List Uuid → Bool
is_open d session [] = false
is_open d session (other ∷ sessions) =
    let rest = is_open d session sessions in ite (d other session) true rest

unfoldable pub remove_session : {Uuid : Type 0} → Discrete Uuid → Uuid → List Uuid → List Uuid
remove_session d session [] = []
remove_session d session (other ∷ sessions) =
    let rest = remove_session d session sessions in ite (d other session) rest (other ∷ rest)

-- The set with the session in it; its guard is the caller's.
unfoldable pub insert_new_session :
    Discrete (List ℕ) → List ℕ → List (List ℕ) → Result Error (List (List ℕ))
unfolding is_open
insert_new_session d session sessions =
    if is_open d session sessions then err (session_reuse session) else ok (session ∷ sessions)

-- A frame, with its payload where that deserializes.
pub data Message (M : Type 0) : Type 0 where
  text binary : Option M → Message M
  close other_message : Message M

-- The message, and whether it is human-readable.
unfoldable pub read_request :
    {M : Type 0} → Option (Result AxumError (Message M)) → Result Error (M × Bool)
read_request none = err connection_closed
read_request (some (err e)) = err (axum e)
read_request (some (ok (text none))) = err json
read_request (some (ok (text (some m)))) = ok (m, true)
read_request (some (ok (binary none))) = err cbor
read_request (some (ok (binary (some m)))) = ok (m, false)
read_request (some (ok close)) = err connection_closed
read_request (some (ok other_message)) = err unexpected_message

-- `?` where the rest may panic.
abbrev pub and_then :
    {A B : Type 0} → Result Error A → (A → Option (Result Error B)) → Option (Result Error B)
and_then (ok a) f = f a
and_then (err e) f = some (err e)

pub record OprfRequest (Auth Affine : Type 0) : Type 0 where
  pub request_id : List ℕ
  pub blinded_query : Affine
  pub auth : Auth

-- What a connection meets: its two messages, whether its two writes go through, and the node's
-- randomness.
pub record Connection (Auth Fr Affine : Type 0) : Type 0 where
  pub first : Option (Result AxumError (Message (OprfRequest Auth Affine)))
  pub write_response : Result AxumError (Unit {0})
  pub second : Option (Result AxumError (Message (Ddlog.DLogEqualityCommitments Affine)))
  pub write_proof_share : Result AxumError (Unit {0})
  pub d_share : Fr
  pub e_share : Fr

abbrev pub same_encoding : Bool → Bool → Bool
same_encoding true b = b
same_encoding false b = not b

module _ {Fr Fq Affine Auth : Type 0} ⦃S : Field Fr⦄ ⦃B : Field Fq⦄ (C : Suite Fr Fq Affine S)
    (authenticate : OprfRequest Auth Affine → Result ℕ ℕ)
    (try_get : ℕ → Result SecretManagerError (OprfKeyMaterial Fr Affine))
    (party_id threshold : ℕ) where
  open C use {is_zero}

  unfoldable pub init_session :
      OprfRequest Auth Affine
      → Fr
      → Fr
      → Result Error (
          OprfSession Fr Affine × OprfResponse (Ddlog.PartialDLogEqualityCommitments Affine) Affine)
  init_session init_request d_share e_share =
      if is_zero init_request.blinded_query
      then err blinded_query_is_identity
      else bind_ok (map_err auth (authenticate init_request)) (λ oprf_key_id.
        bind_ok (map_err secret_manager (try_get oprf_key_id)) (λ key_material.
          let (session, commitments) =
            partial_commit C init_request.blinded_query oprf_key_id key_material d_share e_share in
          ok (
            session,
            record {
              commitments = commitments;
              party_id = party_id;
              key = session.key_material.public_key;
              epoch = session.key_material.epoch;
            },
          )))

  -- The second round, in the encoding of the first.
  unfoldable pub finish_session :
      Connection Auth Fr Affine
      → List ℕ
      → Bool
      → OprfSession Fr Affine
      → Option (Result Error (List ℕ))
  finish_session connection request_id human_readable session =
      and_then (read_request connection.second) (λ (challenge_request, still_human_readable).
        if not (same_encoding still_human_readable human_readable)
        then some (err unexpected_message)
        else challenge C challenge_request request_id party_id threshold session >>= (λ answer.
          and_then answer (λ proof_share.
            some (bind_ok (map_err axum connection.write_proof_share) (λ _. ok request_id)))))

  -- With the guard of the session.
  unfoldable pub run_session :
      Connection Auth Fr Affine → OprfRequest Auth Affine → Bool → Option (Result Error (List ℕ))
  unfolding init_session finish_session
  run_session connection init_request human_readable =
      and_then (init_session init_request connection.d_share connection.e_share)
        (λ (session, response).
          and_then (map_err axum connection.write_response)
            (λ _. finish_session connection init_request.request_id human_readable session))

  -- The open sessions after the connection, and its result. The guard is dropped at the end, also
  -- of an early return or a panic.
  unfoldable pub with_guard :
      Discrete (List ℕ)
      → Connection Auth Fr Affine
      → OprfRequest Auth Affine
      → Bool
      → List (List ℕ)
      → Result Error (List (List ℕ))
      → List (List ℕ) × Option (Result Error (List ℕ))
  unfolding remove_session run_session
  with_guard d connection init_request human_readable open_sessions (err e) =
      (open_sessions, some (err e))
  with_guard d connection init_request human_readable open_sessions (ok reserved) = (
    remove_session d init_request.request_id reserved,
    run_session connection init_request human_readable,
  )

  unfoldable pub with_request :
      Discrete (List ℕ)
      → Connection Auth Fr Affine
      → List (List ℕ)
      → Result Error (OprfRequest Auth Affine × Bool)
      → List (List ℕ) × Option (Result Error (List ℕ))
  unfolding insert_new_session with_guard
  with_request d connection open_sessions (err e) = (open_sessions, some (err e))
  with_request d connection open_sessions (ok (init_request, human_readable)) =
      with_guard d connection init_request human_readable open_sessions
        (insert_new_session d init_request.request_id open_sessions)

  unfoldable pub partial_oprf_inner :
      Discrete (List ℕ)
      → Connection Auth Fr Affine
      → List (List ℕ)
      → List (List ℕ) × Option (Result Error (List ℕ))
  unfolding read_request with_request
  partial_oprf_inner d connection open_sessions =
      with_request d connection open_sessions (read_request connection.first)
