-- ===== src/Client/Sockets/Meets.antt =====
-- A client and a node that open a session and finish it.
use oprf_service.Base.{ℕ, ◌≡◌, refl, List, Option, none, some, Result, ok, err, bind_ok, inl, inr}
use oprf_service.Algebra.Field.{Field}
use oprf_service.Algebra.Suite.{Suite}
use oprf_service.Core.Ddlog.{DLogEqualityCommitments, PartialDLogEqualityCommitments}
use oprf_service.Service.Session.{
  Error, SecretManagerError, OprfKeyMaterial, OprfSession, challenge,
}
use oprf_service.Service.Node.{OprfRequest, insert_new_session}
use oprf_service.Service.Node as Node
use oprf_service.Client.Sessions.{NodeError, OprfResponse, ws_error}
use oprf_service.Client.Sockets.{
  WebSocketSession, Message, Reasons, send, read, init_session, finish_session,
}
use oprf_service.Client.Sockets.Frames.{
  Meaning, coded, kinded, nothing, meaning_of, Reports, sent, read-Reports,
}

abbrev pub response_of : {A B : Type 0} → Result Error (A × B) → Result Error B
response_of (ok (session, response)) = ok response
response_of (err e) = err e

module _ {E Uri A B : Type 0} (reasons : Reasons E) where
  -- By how the node's first part ended: how the client's ends.
  abbrev pub Opens : List ℕ → Uri → Result Error (A × B) → Result (NodeError E) (Uri × B) → Type 0
  Opens reason service (ok (session, response)) r = r ≡ ok (service, response)
  Opens reason service (err e) r = Reports reasons reason (meaning_of e) r

module _ {E A : Type 0} (reasons : Reasons E) where
  -- The same of the second part; the connection of a node that panics is lost.
  abbrev pub Finishes : List ℕ → E → Option (Result Error A) → Result (NodeError E) A → Type 0
  Finishes reason lost none r = r ≡ err (ws_error lost)
  Finishes reason lost (some (ok answer)) r = r ≡ ok answer
  Finishes reason lost (some (err e)) r = Reports reasons reason (meaning_of e) r

  abbrev pub sent_if : E → List ℕ → Option (Result Error A) → Option (Result E (Message A))
  sent_if lost reason none = some (err lost)
  sent_if lost reason (some answer) = sent reason answer

-- A connection over which everything goes through, to a node that answers so.
abbrev pub connection :
    {Uri E Req Msg : Type 0}
    → Uri
    → (Req → Option (Result E (Message Msg)))
    → WebSocketSession Uri E Req Msg
connection service answer = record { service = service; write = λ req. ok tt; inner = answer }

module _ {E : Type 0} (reasons : Reasons E) where
  bind_ok-Reports :
      {A B : Type 0} (reason : List ℕ) (meaning : Meaning) (r : Result (NodeError E) A)
      (rest : A → Result (NodeError E) B)
      → Reports reasons reason meaning r
      → Reports reasons reason meaning (bind_ok r rest)
  bind_ok-Reports reason nothing r rest h = rw h refl
  bind_ok-Reports reason (kinded kind) r rest (refused, e, k, m) = (refused, rw e refl, k, m)
  bind_ok-Reports reason (coded code) r rest (inl (e, h)) = inl (e, rw h refl)
  bind_ok-Reports reason (coded code) r rest (inr (ne, h, k)) = inr (ne, rw h refl, k)

  open_connection :
      {Uri Req A B : Type 0} (service : Uri) (reason : List ℕ) (part : Req → Result Error (A × B))
      (req : Req)
      → Opens reasons reason service (part req) (
          init_session reasons
            (ok (connection service (λ r. sent reason (response_of (part r)))))
            req)
  unfolding init_session send read
  open_connection {A = A} {B = B} service reason part req = go (part req)
    where
      go :
          (r : Result Error (A × B))
          → Opens reasons reason service r (
              bind_ok
                (read reasons (sent reason (response_of r)))
                (λ response. ok (service, response)))
      go (ok (session, response)) = refl
      go (err e) =
          bind_ok-Reports reason (meaning_of e) (read reasons (sent reason (err e))) _
            (read-Reports reasons B reason e)

  finish_connection :
      {Uri Req A : Type 0} (service : Uri) (lost : E) (reason : List ℕ)
      (part : Req → Option (Result Error A)) (req : Req)
      → Finishes reasons reason lost (part req) (
          finish_session reasons
            (connection service (λ r. sent_if reasons lost reason (part r)))
            req)
  unfolding finish_session send read
  finish_connection {A = A} service lost reason part req = go (part req)
    where
      go :
          (r : Option (Result Error A))
          → Finishes reasons reason lost r (read reasons (sent_if reasons lost reason r))
      go none = refl
      go (some (ok answer)) = refl
      go (some (err e)) = read-Reports reasons A reason e

module _ {Fr Fq Affine Auth : Type 0} ⦃S : Field Fr⦄ ⦃B : Field Fq⦄ (C : Suite Fr Fq Affine S)
    (authenticate : OprfRequest Auth Affine → Result ℕ ℕ)
    (try_get : ℕ → Result SecretManagerError (OprfKeyMaterial Fr Affine)) (party_id threshold : ℕ)
    (d : Discrete (List ℕ)) where
  open C use {is_zero}

  -- The node's first part: the reservation of the session, and what `init_session` makes of it.
  abbrev pub node_opens :
      List (List ℕ)
      → Fr
      → Fr
      → OprfRequest Auth Affine
      → Result Error
          (OprfSession Fr Affine × OprfResponse (PartialDLogEqualityCommitments Affine) Affine)
  node_opens open_sessions d_share e_share req =
      bind_ok (insert_new_session d req.request_id open_sessions)
        (λ _. Node.init_session C authenticate try_get party_id threshold req d_share e_share)

  -- A client and a node meet over a connection that works. The client opens its session with what
  -- the node answers. If the node refuses, the client ends with an error of the kind of that reason
  -- and the reason's text; or with the very code of the authenticator, whatever that is, except that
  -- the code 1000 of a normal end is an early end of the stream, and codes of the range for
  -- authenticators are of their kind; or with the end of the stream where the node sends no frame.
  -- The same holds of any challenge that the client sends next, where a node that panics is a lost
  -- connection.
  pub session-Meets :
      {E Uri : Type 0} (reasons : Reasons E) (service : Uri) (lost : E) (reason : List ℕ)
      (open_sessions : List (List ℕ)) (d_share e_share : Fr) (req : OprfRequest Auth Affine)
      (session : OprfSession Fr Affine) (comm : DLogEqualityCommitments Affine)
      → Opens reasons reason service (node_opens open_sessions d_share e_share req) (
          init_session reasons
            (ok (
              connection service
                (λ r. sent reason (response_of (node_opens open_sessions d_share e_share r)))))
            req)
        × Finishes reasons reason lost
            (challenge C comm req.request_id party_id threshold session)
            (finish_session reasons
              (connection service (λ c.
                sent_if reasons lost reason
                  (challenge C c req.request_id party_id threshold session)))
              comm)
  session-Meets reasons service lost reason open_sessions d_share e_share req session comm = (
    open_connection reasons service reason (node_opens open_sessions d_share e_share) req,
    finish_connection reasons service lost reason
        (λ c. challenge C c req.request_id party_id threshold session) comm,
  )
