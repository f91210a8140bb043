-- ===== src/Tests/Node.antt =====
-- Runs of a node, over the group of five elements.
use oprf_service.Base.{ℕ, [], ◌∷◌, refl, Result, ok, some}
use native.Mathlib.Decide.{ℕ_discrete}
use oprf_service.Algebra.Five.{Five, five, g1, g2, g3, g4}
use oprf_service.Algebra.Line.{line}
use oprf_service.Client.Errors.{bytes_discrete}
use oprf_service.Core.Ddlog.{DLogEqualityCommitments}
use oprf_service.Service.Session.{OprfKeyMaterial, SecretManagerError}
use oprf_service.Service.Node.{
  Connection, OprfRequest, text, partial_oprf_inner, insert_new_session, is_open,
}
use oprf_service.Service.Node.Guards.{
  Guarded, Steps, IsGuarded, Steps-IsGuarded, reserve, done, then_step,
}
use oprf_service.Service.Node.Runs.{Ended, partial_oprf_inner-Ended}

abbrev pub request : OprfRequest ℕ Five
request = record { request_id = 7 ∷ []; blinded_query = g2; auth = 0 }

abbrev pub combined : DLogEqualityCommitments Five
combined = record { c = g3; d1 = g1; d2 = g2; e1 = g4; e2 = g1; contributing_parties = 1 ∷ 4 ∷ [] }

abbrev connection : Connection ℕ Five Five
connection = record {
  first = some (ok (text (some request)));
  write_response = ok tt;
  second = some (ok (text (some combined)));
  write_proof_share = ok tt;
  d_share = g1;
  e_share = g3;
}

abbrev authenticate : OprfRequest ℕ Five → Result ℕ ℕ
authenticate _ = ok 5

abbrev pub try_get : ℕ → Result SecretManagerError (OprfKeyMaterial Five Five)
try_get _ = ok (record { share = g4; public_key = g2; epoch = 3 })

-- Node 3 has another session open.
partial_oprf_inner-Ended_example :
    Ended ⦃S = five⦄ ⦃B = five⦄ line authenticate try_get 3 2 bytes_discrete connection
      ((9 ∷ []) ∷ [])
      (partial_oprf_inner ⦃S = five⦄ ⦃B = five⦄ line authenticate try_get 3 2 bytes_discrete
        connection
        ((9 ∷ []) ∷ []))
partial_oprf_inner-Ended_example =
    partial_oprf_inner-Ended ⦃S = five⦄ ⦃B = five⦄ line authenticate try_get 3 2 bytes_discrete
      connection ((9 ∷ []) ∷ [])

abbrev empty : Guarded
empty = record { open_sessions = []; guards = [] }

abbrev one_open : Guarded
one_open = record { open_sessions = (1 ∷ []) ∷ []; guards = (1 ∷ []) ∷ [] }

abbrev two_open : Guarded
two_open = record { open_sessions = (2 ∷ []) ∷ (1 ∷ []) ∷ []; guards = (2 ∷ []) ∷ (1 ∷ []) ∷ [] }

-- Two connections, each with its own session.
two_connections : Steps bytes_discrete empty two_open
unfolding insert_new_session is_open bytes_discrete ℕ_discrete
two_connections =
    then_step {b = one_open} (then_step {b = empty} done (reserve {node = empty} (1 ∷ []) refl))
      (reserve {node = one_open} (2 ∷ []) refl)

Steps-IsGuarded_example : IsGuarded bytes_discrete two_open
Steps-IsGuarded_example = Steps-IsGuarded bytes_discrete empty two_open refl refl two_connections
