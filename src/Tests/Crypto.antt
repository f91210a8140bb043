-- ===== src/Tests/Crypto.antt =====
-- Runs of oprf-core in the group of five elements: proofs and queries.
use oprf_service.Base.{
  ℕ, dedup, sort_unstable, ◌≡◌, refl, ◌≢◌, false, List, [], ◌∷◌, some, ok, arith,
}
use oprf_service.Algebra.Five.{Five, g0, g1, g2, g3, g4, five, mul}
use oprf_service.Algebra.Line.{line, is_g0}
use oprf_service.Core.Shamir.{◌>>=◌, lagrange_from_coeff, reconstruct}
use oprf_service.Core.Shamir.Sharing.{evaluate_each, reconstruct-evaluate}
use oprf_service.Core.Shamir.Poly.{eval}
use oprf_service.Core.Dlog.{
  DLogEqualityProof, challenge_hash, convert_base_to_scalar, proof, verify,
}
use oprf_service.Core.Dlog.Complete.{verify-proof}
use oprf_service.Core.Dlog.Sound.{answerable, verify-answerable}
use oprf_service.Core.Dlog.Accept.{verify-of_IsAccepted}
use oprf_service.Core.Ddlog.{
  DLogEqualityCommitments, combine_commitments, combine_proofs, combine_two_nonce_randomness,
  nonce_args, partial_commitments,
}
use oprf_service.Core.Ddlog.Additive as Additive
use oprf_service.Core.Ddlog.Additive.Sums.{Holder, commit_all, challenge_all}
use oprf_service.Core.Ddlog.Additive.Complete.{verify-additive}
use oprf_service.Core.Ddlog.Sums.{Server, ids_of, commit_each}
use oprf_service.Core.Ddlog.Complete.{challenge_each, verify-combine_proofs}
use oprf_service.Client.Distributed.{finalize_distributed_oprf}
use oprf_service.Client.Distributed.Output.{output_of, finalize_distributed_oprf-output}
use oprf_service.Core.Mappings.{Arithmetic, encode_to_curve}
use oprf_service.Core.Oprf.{
  blind_query, prepare, answer_query_with_proof, finalize_query_and_verify_proof, public_key,
}
use oprf_service.Core.Oprf.Blinding.{finalize_query_and_verify_proof-answer, blind_query-hides}

reconstruct-evaluate_example :
    (do
      shares ← evaluate_each (g2 ∷ g3 ∷ []) (1 ∷ 4 ∷ [])
      lagrange ← lagrange_from_coeff (1 ∷ 4 ∷ [])
      reconstruct shares lagrange)
    ≡ some g2
reconstruct-evaluate_example =
    reconstruct-evaluate g2 (g3 ∷ []) (1 ∷ 4 ∷ []) (ground arith) (omega arith)

verify-proof_example : verify line (proof line g3 g2 g1) g2 g3 g1 g1 ≡ ok tt
verify-proof_example = verify-proof line g3 g2 g1 (refl, refl) refl (λ e. cc) (λ e. cc)

abbrev servers : List (Server Five)
servers = record { id = 1; d = g1; e = g1 } ∷ record { id = 2; d = g2; e = g1 } ∷ []

abbrev comm : DLogEqualityCommitments Five
comm = record { c = g1; d1 = g3; d2 = g4; e1 = g2; e2 = g1; contributing_parties = 1 ∷ 2 ∷ [] }

comm_combined :
    combine_commitments line (commit_each line g3 (eval (g2 ∷ g1 ∷ [])) servers) (ids_of servers)
    ≡ some comm
unfolding combine_commitments eval partial_commitments lagrange_from_coeff dedup sort_unstable
comm_combined = refl

nonce_nonzero :
    is_g0 (combine_two_nonce_randomness line (nonce_args line comm (7 ∷ []) g2)).0 ≡ false
unfolding combine_two_nonce_randomness nonce_args
nonce_nonzero = refl

verify-combine_proofs_example :
    (do
      proofs ← challenge_each line g3 (7 ∷ []) (eval (g2 ∷ g1 ∷ [])) g2 comm servers
      some (verify line (combine_proofs line comm (7 ∷ []) proofs g2 g3) g2 g3 g1 g1))
    ≡ some (ok tt)
verify-combine_proofs_example =
    verify-combine_proofs line g3 g2 (g1 ∷ []) servers (7 ∷ []) comm (refl, refl) refl (λ e. cc)
      (ground arith) (omega arith) comm_combined nonce_nonzero

-- A proof that the toy hash lets pass, of points with the logarithms 1 and 2.
abbrev lucky : DLogEqualityProof Five Five
lucky = record { e = g4; s = g1 }

lucky_accepted : verify line lucky g1 g1 g2 g1 ≡ ok tt
unfolding challenge_hash convert_base_to_scalar
lucky_accepted = verify-of_IsAccepted line lucky g1 g1 g2 g1 (record {
  a_point = (refl, refl);
  b_point = (refl, refl);
  c_point = (refl, refl);
  d_point = (refl, refl);
  a_nonzero = refl;
  b_nonzero = refl;
  c_nonzero = refl;
  d_nonzero = refl;
  r_1_nonzero = refl;
  r_2_nonzero = refl;
  hashed = refl;
})

verify-answerable_example :
    (k1 k2 : Five) × (g4 ≡ challenge_hash line g1 g1 g2 g1 (mul g1 k1) (mul g1 k2))
    × (convert_base_to_scalar line (challenge_hash line g1 g1 g2 g1 (mul g1 k1) (mul g1 k2))
        ≡ answerable g1 g2 k1 k2)
verify-answerable_example =
    verify-answerable line lucky g1 g1 g2 g1 g1 g2 lucky_accepted refl refl (λ e. cc)

-- What is enough of the field for the mapping to run.
abbrev pub toy : Arithmetic Five Five
toy = record {
  pow = λ a n. a;
  modulus_minus_one_div_two = 2;
  sqrt = λ a. some a;
  affine = λ v w. g2;
  clear_cofactor = λ p. p;
}

pub encoded : (query : Five) → encode_to_curve line toy query ≡ some g2
unfolding encode_to_curve
encoded query = refl

finalize_query_and_verify_proof-answer_example :
    (do
      request ← blind_query line toy g1 g3
      beta_inv ← prepare g3
      let (response, proof) = answer_query_with_proof line toy g4 request g1
      finalize_query_and_verify_proof line toy
          (public_key line toy g4)
          g1
          response
          proof
          beta_inv
          g2)
    ≡ some (ok g3)
finalize_query_and_verify_proof-answer_example =
    finalize_query_and_verify_proof-answer line toy g1 g2 g3 g4 g1 g2 (encoded g1) (refl, refl) refl
      (λ e. cc) (λ e. cc) (λ e. cc)

blind_query-hides_example :
    (beta' : Five) × (beta' ≢ g0) × (blind_query line toy g4 beta' ≡ blind_query line toy g1 g3)
blind_query-hides_example =
    blind_query-hides line toy g1 g4 g2 g2 g3 (encoded g1) (encoded g4) (refl, refl) (refl, refl)
      refl refl (λ e. cc)

finalize_distributed_oprf-output_example :
    (do
      request ← blind_query line toy g1 g4
      responses ← challenge_each line request (7 ∷ []) (eval (g2 ∷ g1 ∷ [])) g2 comm servers
      output_of line toy {E = ℕ} (
          finalize_distributed_oprf line toy (record {
            request_id = 7 ∷ [];
            query = g1;
            blinding_factor = g4;
            domain_separator = g2;
            blinded_request = request;
            challenge = comm;
            responses = responses;
            oprf_public_key = g2;
            epoch = 3;
          })))
    ≡ some (ok g4)
finalize_distributed_oprf-output_example =
    finalize_distributed_oprf-output line toy g1 g2 g4 g2 (g1 ∷ []) g2 servers (7 ∷ []) comm 3
      (encoded g1) (refl, refl) refl (λ e. cc) (λ e. cc) (ground arith) (omega arith) comm_combined
      nonce_nonzero

abbrev holders : List (Holder Five)
holders =
    record { server = record { id = 1; d = g1; e = g1 }; x_share = g4 }
    ∷ record { server = record { id = 2; d = g2; e = g1 }; x_share = g3 }
    ∷ []

additive_nonce :
    is_g0
      (combine_two_nonce_randomness line (
        nonce_args line
          (Additive.combine_commitments line (commit_all line g3 holders))
          (7 ∷ [])
          g2)).0
    ≡ false
unfolding combine_two_nonce_randomness nonce_args Additive.combine_commitments partial_commitments
additive_nonce = refl

verify-additive_example :
    ((Additive.combine_commitments line (commit_all line g3 holders)).c ≡ g1)
    × (verify line
          (combine_proofs line
            (Additive.combine_commitments line (commit_all line g3 holders))
            (7 ∷ [])
            (challenge_all line g3
              (7 ∷ [])
              g2
              (Additive.combine_commitments line (commit_all line g3 holders))
              holders)
            g2
            g3)
          g2
          g3
          (Additive.combine_commitments line (commit_all line g3 holders)).c
          g1
        ≡ ok tt)
verify-additive_example =
    verify-additive line g3 holders (7 ∷ []) (refl, refl) refl (λ e. cc) additive_nonce
