-- ===== src/Service/Node/Runs.antt =====
-- One connection at a node, from its first message to its last.
use oprf_service.Base.{
  ℕ, List, ◌∷◌, ◌≡◌, refl, Bool, false, Bool-cases, inl, inr, arith, Result, ok, err, Option, some,
  none, subst, map_err,
}
use oprf_service.Algebra.Field.{Field}
use oprf_service.Algebra.Suite.{Suite}
use oprf_service.Core.Ddlog.{DLogEqualityCommitments}
use oprf_service.Service.Session.{
  Error, SecretManagerError, OprfKeyMaterial, axum, check_coefficients,
}
use oprf_service.Service.Node.{
  is_open, remove_session, insert_new_session, OprfRequest, Connection, read_request,
  partial_oprf_inner, run_session, finish_session, with_guard, with_request,
}
use oprf_service.Service.Node.Rounds.{and_then-ok, init_session-ok, finish_session-ok}
use oprf_service.Service.Node.Guards.{remove_inserted}

module _ {Fr Fq Affine Auth : Type 0} ⦃S : Field Fr⦄ ⦃B : Field Fq⦄ (C : Suite Fr Fq Affine S)
    (authenticate : OprfRequest Auth Affine → Result ℕ ℕ)
    (try_get : ℕ → Result SecretManagerError (OprfKeyMaterial Fr Affine))
    (party_id threshold : ℕ) where
  open C use {is_zero}

  released :
      (d : Discrete (List ℕ)) (session : List ℕ) (open_sessions reserved : List (List ℕ))
      → insert_new_session d session open_sessions ≡ ok reserved
      → remove_session d session reserved ≡ open_sessions
  unfolding insert_new_session
  released d session open_sessions reserved e =
      elim (Bool-cases (is_open d session open_sessions)) [
        | inl q ↦ absurd (ground (arith, e, q))
        | inr q ↦
            let same : session ∷ open_sessions ≡ reserved = ground (arith, e, q) in
            subst (λ sessions. remove_session d session sessions ≡ open_sessions) same
              (remove_inserted d session open_sessions q)
      ]

  reserved_closed :
      (d : Discrete (List ℕ)) (session : List ℕ) (open_sessions reserved : List (List ℕ))
      → insert_new_session d session open_sessions ≡ ok reserved
      → is_open d session open_sessions ≡ false
  unfolding insert_new_session
  reserved_closed d session open_sessions reserved e = ground (arith, e)

  -- What a connection that ends well has shown: its session was not open, its query is not the
  -- identity, it is authenticated for a key that the node has, and its second message, in the
  -- encoding of the first, names parties that the node accepts.
  abbrev pub Served :
      Discrete (List ℕ) → Connection Auth Fr Affine → List (List ℕ) → List ℕ → Type 0
  Served d connection open_sessions request_id =
      (request : OprfRequest Auth Affine) × (human_readable : Bool) × (read_request connection.first
        ≡ ok (request, human_readable))
      × (request.request_id ≡ request_id)
      × (is_open d request_id open_sessions ≡ false)
      × (is_zero request.blinded_query ≡ false)
      × ((oprf_key_id : ℕ) × (material : OprfKeyMaterial Fr Affine) × (authenticate request
            ≡ ok oprf_key_id)
          × (try_get oprf_key_id ≡ ok material))
      × ((request' : DLogEqualityCommitments Affine) × (read_request connection.second
            ≡ ok (request', human_readable))
          × (check_coefficients threshold party_id request'.contributing_parties ≡ ok tt))

  -- A connection ends as below, with the open sessions as it found them.
  abbrev pub Ended :
      Discrete (List ℕ)
      → Connection Auth Fr Affine
      → List (List ℕ)
      → List (List ℕ) × Option (Result Error (List ℕ))
      → Type 0
  Ended d connection open_sessions (sessions, some (ok request_id)) =
      (sessions ≡ open_sessions) × Served d connection open_sessions request_id
  Ended d connection open_sessions (sessions, some (err _)) = sessions ≡ open_sessions
  Ended d connection open_sessions (sessions, none) = sessions ≡ open_sessions

  run_session-Ended :
      (d : Discrete (List ℕ)) (connection : Connection Auth Fr Affine)
      (request : OprfRequest Auth Affine) (human_readable : Bool)
      (open_sessions sessions : List (List ℕ)) (r : Option (Result Error (List ℕ)))
      → read_request connection.first ≡ ok (request, human_readable)
      → is_open d request.request_id open_sessions ≡ false
      → sessions ≡ open_sessions
      → run_session C authenticate try_get party_id threshold connection request human_readable ≡ r
      → Ended d connection open_sessions (sessions, r)
  unfolding run_session
  run_session-Ended d connection request human_readable open_sessions sessions none f o s e = s
  run_session-Ended d connection request human_readable open_sessions sessions (some (err _)) f o s
        e =
      s
  run_session-Ended d connection request human_readable open_sessions sessions (some (ok id)) f o s
        e =
      let (m, a, rest) = and_then-ok _ _ id e in
      let (_, _, rest') =
        and_then-ok (map_err axum connection.write_response)
          (λ _.
            finish_session C authenticate try_get party_id threshold connection request.request_id
              human_readable m.0)
          id rest in
      let (zero_free, material) =
        init_session-ok C authenticate try_get party_id threshold request connection.d_share
          connection.e_share m a in
      let (same, second) =
        finish_session-ok C authenticate try_get party_id threshold connection request.request_id id
          human_readable m.0 rest' in
      (
        s,
        (
          request,
          human_readable,
          f,
          same,
          subst (λ t. is_open d t open_sessions ≡ false) same o,
          zero_free,
          material,
          second,
        ),
      )

  with_guard-Ended :
      (d : Discrete (List ℕ)) (connection : Connection Auth Fr Affine)
      (request : OprfRequest Auth Affine) (human_readable : Bool) (open_sessions : List (List ℕ))
      (r : Result Error (List (List ℕ)))
      → read_request connection.first ≡ ok (request, human_readable)
      → insert_new_session d request.request_id open_sessions ≡ r
      → Ended d connection open_sessions (
          with_guard C authenticate try_get party_id threshold d connection request human_readable
            open_sessions r)
  unfolding with_guard
  with_guard-Ended d connection request human_readable open_sessions (err _) f e = refl
  with_guard-Ended d connection request human_readable open_sessions (ok reserved) f e =
      run_session-Ended d connection request human_readable open_sessions
        (remove_session d request.request_id reserved)
        (run_session C authenticate try_get party_id threshold connection request human_readable) f
        (reserved_closed d request.request_id open_sessions reserved e)
        (released d request.request_id open_sessions reserved e) refl

  with_request-Ended :
      (d : Discrete (List ℕ)) (connection : Connection Auth Fr Affine)
      (open_sessions : List (List ℕ)) (r : Result Error (OprfRequest Auth Affine × Bool))
      → read_request connection.first ≡ r
      → Ended d connection open_sessions
          (with_request C authenticate try_get party_id threshold d connection open_sessions r)
  unfolding with_request
  with_request-Ended d connection open_sessions (err _) f = refl
  with_request-Ended d connection open_sessions (ok (request, human_readable)) f =
      with_guard-Ended d connection request human_readable open_sessions
        (insert_new_session d request.request_id open_sessions) f refl

  -- A connection leaves the open sessions as it found them, also when it fails or panics. When it
  -- ends well, its session was not open before, its query is not the identity, it is authenticated
  -- for a key that the node has, and its second message is in the encoding of the first and names
  -- parties that pass the node's checks.
  pub partial_oprf_inner-Ended :
      (d : Discrete (List ℕ)) (connection : Connection Auth Fr Affine)
      (open_sessions : List (List ℕ))
      → Ended d connection open_sessions
          (partial_oprf_inner C authenticate try_get party_id threshold d connection open_sessions)
  unfolding partial_oprf_inner
  partial_oprf_inner-Ended d connection open_sessions =
      with_request-Ended d connection open_sessions (read_request connection.first) refl
