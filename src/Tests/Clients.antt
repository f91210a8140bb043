-- ===== src/Tests/Clients.antt =====
-- Runs of a client with a delegate, with the services of the public keys, and with a node.
use oprf_service.Base.{ℕ, ◌≡◌, List, [], ◌∷◌, Option, none, some, Result, ok, err, ok_or, arith}
use native.Mathlib.Decide.{ℕ_discrete}
use oprf_service.Algebra.Five.{Five, five, g1, g2, g3, g4}
use oprf_service.Algebra.Line.{line}
use oprf_service.Core.Ddlog.{PartialDLogEqualityCommitments}
use oprf_service.Core.Oprf.{blind_query}
use oprf_service.Tests.Crypto.{toy, encoded}
use oprf_service.Core.Oprf.Blinding.{blind_query-scale}
use oprf_service.Tests.Node.{request, combined, try_get}
use oprf_service.Service.Node.{OprfRequest}
use oprf_service.Service.Session.{Error, OprfSession, challenge}
use oprf_service.Client.Errors.{
  words, bytes_discrete, aggregate_error, aggregate_loop, aggregate_tally, count_entry,
  ServiceError-discrete,
}
use oprf_service.Client.Sessions.{OprfResponse, ServiceError, service_error, init_sessions}
use oprf_service.Client.Distributed.{distributed_oprf_core}
use oprf_service.Client.Delegate.{
  Nodes, Messages, delegate_distributed_oprf, delegate_oprf_handler, distributed_oprf, matching,
}
use oprf_service.Client.Delegate.Equivalence.{
  Core, IsU16, Delegates, delegate_distributed_oprf-Delegates,
}
use oprf_service.Client.PublicKeys.{OprfPublicKeyWithEpoch, fetch_oprf_public_key}
use oprf_service.Client.PublicKeys.Agreement.{Fetches, fetch_oprf_public_key-Fetches}
use oprf_service.Client.Sockets.{Reasons, init_session, finish_session}
use oprf_service.Client.Sockets.Frames.{sent}
use oprf_service.Client.Sockets.Meets.{
  session-Meets, Opens, Finishes, connection, node_opens, response_of, sent_if,
}

abbrev refusal : ServiceError
refusal = record { error_code = 4500; msg = none }

-- Two nodes refuse.
abbrev nodes : Nodes ℕ ℕ ℕ Five Five
nodes = record {
  results = λ req. err (service_error refusal) ∷ err (service_error refusal) ∷ [];
  finish = λ comm. [];
}

blinded : blind_query ⦃S = five⦄ ⦃B = five⦄ line toy g1 g3 ≡ some g1
blinded = blind_query-scale line toy g1 g3 g2 (encoded g1) (λ e. cc)

abbrev messages : Messages
messages = record { missing_client_version = 1 ∷ []; invalid_version = 2 ∷ [] }

abbrev core : Core Five Five ℕ
core =
    distributed_oprf_core line toy (1 ∷ 2 ∷ 3 ∷ []) 2
      (nodes.results (record { request_id = 7 ∷ []; blinded_query = g1; auth = 0 })) nodes.finish

core_code : IsU16 core
unfolding distributed_oprf_core init_sessions aggregate_error aggregate_loop aggregate_tally
    count_entry ServiceError-discrete ℕ_discrete
core_code = omega arith

delegate_distributed_oprf-Delegates_example :
    Delegates 9 core (distributed_oprf line toy (7 ∷ []) (1 ∷ 2 ∷ 3 ∷ []) 2 g1 g3 g2 0 nodes) (
      delegate_distributed_oprf line toy
        (7 ∷ [])
        g1
        g3
        g2
        0
        8
        (λ r. words [])
        (λ req.
          ok_or (delegate_oprf_handler line toy messages (1 ∷ 2 ∷ 3 ∷ []) 2 nodes matching req) 9))
delegate_distributed_oprf-Delegates_example =
    delegate_distributed_oprf-Delegates line toy 9 8 (λ r. words []) messages (7 ∷ [])
      (1 ∷ 2 ∷ 3 ∷ []) 2 g1 g3 g2 0 nodes g1 blinded core_code

abbrev key : OprfPublicKeyWithEpoch ℕ
key = record { key = 5; epoch = 2 }

-- Two of three nodes give the key, and one cannot be reached.
abbrev answers : List (Result ℕ (Option (OprfPublicKeyWithEpoch ℕ)))
answers = ok (some key) ∷ err 1 ∷ ok (some key) ∷ []

abbrev keys_discrete : Discrete (OprfPublicKeyWithEpoch ℕ)
keys_discrete = hlevel ℕ_discrete

fetch_oprf_public_key-Fetches_example :
    Fetches keys_discrete
      (1 ∷ 2 ∷ 3 ∷ [])
      2
      answers
      (fetch_oprf_public_key keys_discrete (1 ∷ 2 ∷ 3 ∷ []) 2 answers)
fetch_oprf_public_key-Fetches_example =
    fetch_oprf_public_key-Fetches keys_discrete (1 ∷ 2 ∷ 3 ∷ []) 2 answers

abbrev reasons : Reasons ℕ
reasons = record {
  could_not_parse = 1 ∷ [];
  text_frame = 2 ∷ [];
  non_binary_frame = 3 ∷ [];
  unexpected_close = 4;
  closed_without_finishing = 5;
}

abbrev refuse : OprfRequest ℕ Five → Result ℕ ℕ
refuse req = err 4501

abbrev service : ℕ
service = 100

abbrev opens :
    OprfRequest ℕ Five
    → Result Error (OprfSession Five Five × OprfResponse (PartialDLogEqualityCommitments Five) Five)
opens = node_opens ⦃S = five⦄ ⦃B = five⦄ line refuse try_get 3 2 bytes_discrete [] g1 g3

abbrev session : OprfSession Five Five
session = record {
  oprf_key_id = 5;
  dlog_session = record { d = g1; e = g3; blinded_query = g2 };
  key_material = record { share = g4; public_key = g2; epoch = 3 };
}

session-Meets_example :
    Opens reasons (7 ∷ []) service (opens request) (
      init_session reasons
        (ok (connection service (λ r. sent (7 ∷ []) (response_of (opens r)))))
        request)
    × Finishes reasons (7 ∷ []) 6 (challenge line combined (7 ∷ []) 3 2 session) (
        finish_session reasons
          (connection service
            (λ comm. sent_if reasons 6 (7 ∷ []) (challenge line comm (7 ∷ []) 3 2 session)))
          combined)
session-Meets_example =
    session-Meets ⦃S = five⦄ ⦃B = five⦄ line refuse try_get 3 2 bytes_discrete reasons service 6
      (7 ∷ []) [] g1 g3 request session combined
