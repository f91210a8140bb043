-- ===== src/Service/Node/Rounds.antt =====
-- What holds when a round of a session ends well.
use oprf_service.Base.{
  ℕ, List, ◌≡◌, refl, sym, ap, ◌∙◌, Bool, true, false, Bool-cases, inl, inr, arith, Result, ok, err,
  Option, some, none, map_err, bind_ok,
}
use oprf_service.Algebra.Field.{Field}
use oprf_service.Algebra.Suite.{Suite}
use oprf_service.Core.Shamir.{◌>>=◌}
use oprf_service.Core.Ddlog.{DLogEqualityCommitments, PartialDLogEqualityCommitments}
use oprf_service.Client.Sessions.{OprfResponse}
use oprf_service.Service.Session.{
  Error, SecretManagerError, OprfKeyMaterial, OprfSession, axum, check_coefficients, challenge,
}
use oprf_service.Service.Node.{
  OprfRequest, Connection, read_request, init_session, finish_session, and_then, same_encoding,
}

pub and_then-ok :
    {X Y : Type 0} (r : Result Error X) (f : X → Option (Result Error Y)) (y : Y)
    → and_then r f ≡ some (ok y)
    → (x : X) × (r ≡ ok x) × (f x ≡ some (ok y))
and_then-ok (ok x) f y e = (x, refl, e)
and_then-ok (err e') f y e = absurd (cc e)

bind_ok-ok :
    {X Y E : Type 0} (r : Result E X) (f : X → Result E Y) (y : Y)
    → bind_ok r f ≡ ok y
    → (x : X) × (r ≡ ok x) × (f x ≡ ok y)
bind_ok-ok (ok x) f y e = (x, refl, e)
bind_ok-ok (err e') f y e = absurd (cc e)

map_err-ok : {X E E' : Type 0} (f : E → E') (r : Result E X) (x : X) → map_err f r ≡ ok x → r ≡ ok x
map_err-ok f (ok x') x e = ap ok (cc e)
map_err-ok f (err e') x e = absurd (cc e)

same_encoding-same : (a b : Bool) → same_encoding a b ≡ true → a ≡ b
same_encoding-same true b e = sym e
same_encoding-same false true e = absurd (cc e)
same_encoding-same false false e = refl

module _ {Fr Fq Affine Auth : Type 0} ⦃S : Field Fr⦄ ⦃B : Field Fq⦄ (C : Suite Fr Fq Affine S)
    (authenticate : OprfRequest Auth Affine → Result ℕ ℕ)
    (try_get : ℕ → Result SecretManagerError (OprfKeyMaterial Fr Affine))
    (party_id threshold : ℕ) where
  open C use {is_zero}

  pub init_session-ok :
      (request : OprfRequest Auth Affine) (d_share e_share : Fr)
      (out : OprfSession Fr Affine × OprfResponse (PartialDLogEqualityCommitments Affine) Affine)
      → init_session C authenticate try_get party_id threshold request d_share e_share ≡ ok out
      → (is_zero request.blinded_query ≡ false)
        × ((oprf_key_id : ℕ) × (material : OprfKeyMaterial Fr Affine) × (authenticate request
              ≡ ok oprf_key_id)
            × (try_get oprf_key_id ≡ ok material))
  unfolding init_session
  init_session-ok request d_share e_share out e =
      elim (Bool-cases (is_zero request.blinded_query)) [
        | inl q ↦ absurd (ground (arith, e, q))
        | inr q ↦
            let (key, a, rest) = bind_ok-ok _ _ out (rw q at e) in
            let (material, b, _) = bind_ok-ok _ _ out rest in
            (q, (key, material, map_err-ok _ _ key a, map_err-ok _ _ material b))
      ]

  challenge-ok :
      (request : DLogEqualityCommitments Affine) (request_id : List ℕ)
      (session : OprfSession Fr Affine) (r : Result Error (Unit {0})) (share : Fr)
      → check_coefficients threshold party_id request.contributing_parties ≡ r
      → challenge C request request_id party_id threshold session ≡ some (ok share)
      → check_coefficients threshold party_id request.contributing_parties ≡ ok tt
  unfolding challenge
  challenge-ok request request_id session (ok _) share q e = q
  challenge-ok request request_id session (err _) share q e = absurd (cc (rw (q, challenge) at e))

  written :
      (connection : Connection Auth Fr Affine) (request_id id : List ℕ)
      (answer : Option (Result Error Fr))
      → (answer >>= (λ answer. and_then answer (λ proof_share.
          some (bind_ok (map_err axum connection.write_proof_share) (λ _. ok request_id)))))
        ≡ some (ok id)
      → (request_id ≡ id) × ((share : Fr) × (answer ≡ some (ok share)))
  written connection request_id id none e = absurd (cc e)
  written connection request_id id (some (err _)) e = absurd (cc e)
  written connection request_id id (some (ok share)) e =
      let (_, _, q) =
        bind_ok-ok (map_err axum connection.write_proof_share) (λ _. ok request_id) id (cc e) in
      (cc q, (share, refl))

  pub finish_session-ok :
      (connection : Connection Auth Fr Affine) (request_id id : List ℕ) (human_readable : Bool)
      (session : OprfSession Fr Affine)
      → finish_session C authenticate try_get party_id threshold connection request_id
          human_readable session
        ≡ some (ok id)
      → (request_id ≡ id)
        × ((request' : DLogEqualityCommitments Affine) × (read_request connection.second
              ≡ ok (request', human_readable))
            × (check_coefficients threshold party_id request'.contributing_parties ≡ ok tt))
  unfolding finish_session
  finish_session-ok connection request_id id human_readable session e =
      let (m, a, rest) = and_then-ok (read_request connection.second) _ id e in
      elim (Bool-cases (same_encoding m.1 human_readable)) [
        | inr q ↦ absurd (cc (rw q at rest))
        | inl q ↦
            let (same, (share, answered)) =
              written connection request_id id
                (challenge C m.0 request_id party_id threshold session) (rw q at rest) in
            (
              same,
              (
                m.0,
                a ∙ ap (λ b. ok (m.0, b)) (same_encoding-same m.1 human_readable q),
                challenge-ok m.0 request_id session _ share refl answered,
              ),
            )
      ]
