-- ===== src/Client/Distributed/Output.antt =====
-- What the client ends with, when the nodes hold shares of a key.
use oprf_service.Base.{
  ℕ, ◌≤◌, ◌≡◌, refl, sym, ap, ◌∙◌, ◌≢◌, false, List, [], ◌∷◌, Option, none, some, Result, ok, err,
  length, subst,
}
use oprf_service.Algebra.Field.{Field, inv, inverse-inv}
use oprf_service.Algebra.Suite.{Suite, IsPoint, scale-IsPoint, scale-is_zero}
use oprf_service.Core.Shamir.{◌>>=◌}
use oprf_service.Core.Shamir.Poly.{eval}
use oprf_service.Core.Shamir.Sharing.{AreIds}
use oprf_service.Core.Dlog.{verify}
use oprf_service.Core.Ddlog.{
  DLogEqualityCommitments, combine_commitments, combine_proofs, combine_two_nonce_randomness,
  nonce_args,
}
use oprf_service.Core.Ddlog.Sums.{Server, ids_of, commit_each}
use oprf_service.Core.Ddlog.Complete.{
  challenge_each, combine_commitments-commit, verify-combine_proofs,
}
use oprf_service.Core.Mappings.{Arithmetic, encode_to_curve}
use oprf_service.Core.Oprf.{blind_query, prepare, unblind_response}
use oprf_service.Core.Oprf.Blinding.{blind_query-scale, unblind}
use oprf_service.Client.Errors.{Error}
use oprf_service.Client.Distributed.{
  FinalizeDistributedOprfArgs, VerifiableOprfOutput, verify_dlog_equality,
  finalize_distributed_oprf,
}

module _ {Fr Fq Affine : Type 0} ⦃S : Field Fr⦄ ⦃B : Field Fq⦄ (C : Suite Fr Fq Affine S)
    (A : Arithmetic Fq Affine) where
  open C use {generator, scale, is_zero, x, y, permutation_t4}
  open S use {zero}

  -- What `finalize_distributed_oprf` says the output is.
  abbrev pub output_of :
      {E : Type 0}
      → Option (Result (Error E) (VerifiableOprfOutput Fr Fq Affine))
      → Option (Result (Error E) Fq)
  output_of none = none
  output_of (some (err e)) = some (err e)
  output_of (some (ok out)) = some (ok out.output)

  finalize_distributed_oprf-verified :
      {E : Type 0} (args : FinalizeDistributedOprfArgs Fr Fq Affine)
      → args.blinding_factor ≢ zero
      → verify C
          (combine_proofs C args.challenge args.request_id args.responses args.oprf_public_key
            args.blinded_request)
          args.oprf_public_key
          args.blinded_request
          args.challenge.c
          generator
        ≡ ok tt
      → output_of {E = E} (finalize_distributed_oprf C A args)
        ≡ some (
            ok (
              permutation_t4
                (args.domain_separator
                  ∷ args.query
                  ∷ x (scale args.challenge.c (inv args.blinding_factor))
                  ∷ y (scale args.challenge.c (inv args.blinding_factor))
                  ∷ [])
                1))
  unfolding finalize_distributed_oprf verify_dlog_equality prepare unblind_response
  finalize_distributed_oprf-verified args h e = rw (inverse-inv args.blinding_factor h, e) refl

  combined_response :
      (b : Affine) (key : Fr) (cs : List Fr) (servers : List (Server Fr))
      (comm : DLogEqualityCommitments Affine)
      → IsPoint C b
      → AreIds S.modulus (ids_of servers)
      → length (key ∷ cs) ≤ length (ids_of servers)
      → combine_commitments C (commit_each C b (eval (key ∷ cs)) servers) (ids_of servers)
        ≡ some comm
      → comm.c ≡ scale b key
  combined_response b key cs servers comm hb h l e =
      let (comm', e', q, _) = combine_commitments-commit C b key cs servers hb h l in
      let same : comm' ≡ comm = cc (sym e' ∙ e) in subst (λ m. m.c ≡ scale b key) same q

  -- A client blinds a query whose encoding is a point other than the identity, with a nonzero
  -- scalar. Nodes with distinct ids below the modulus hold shares of a nonzero key, as many as the
  -- polynomial has coefficients; they answer the client's combined commitments, whose combined first
  -- nonce commitment is not the identity. Then the client accepts and ends with the hash of the query
  -- and of its encoding times the key.
  pub finalize_distributed_oprf-output :
      {E : Type 0} (query domain_separator : Fq) (beta key : Fr) (cs : List Fr) (p : Affine)
      (servers : List (Server Fr)) (request_id : List ℕ) (comm : DLogEqualityCommitments Affine)
      (epoch : ℕ)
      → encode_to_curve C A query ≡ some p
      → IsPoint C p
      → is_zero p ≡ false
      → beta ≢ zero
      → key ≢ zero
      → AreIds S.modulus (ids_of servers)
      → length (key ∷ cs) ≤ length (ids_of servers)
      → combine_commitments C
          (commit_each C (scale p beta) (eval (key ∷ cs)) servers)
          (ids_of servers)
        ≡ some comm
      → is_zero
          (combine_two_nonce_randomness C (nonce_args C comm request_id (scale generator key))).0
        ≡ false
      → (do
        request ← blind_query C A query beta
        responses ←
            challenge_each C request request_id (eval (key ∷ cs)) (scale generator key) comm servers
        output_of {E = E} (
            finalize_distributed_oprf C A (record {
              request_id = request_id;
              query = query;
              blinding_factor = beta;
              domain_separator = domain_separator;
              blinded_request = request;
              challenge = comm;
              responses = responses;
              oprf_public_key = scale generator key;
              epoch = epoch;
            })))
        ≡ some (
            ok (
              permutation_t4 (domain_separator ∷ query ∷ x (scale p key) ∷ y (scale p key) ∷ []) 1))
  finalize_distributed_oprf-output {E = E} query domain_separator beta key cs p servers request_id
        comm epoch e hp nz hb hk h l hcomm hn =
      let b = scale p beta in
      let point = scale-IsPoint C p beta hp in
      rw (blind_query-scale C A query beta p e hb) (
        go (challenge_each C b request_id (eval (key ∷ cs)) (scale generator key) comm servers)
          (verify-combine_proofs C b key cs servers request_id comm point
            (scale-is_zero C p beta hp nz hb) hk h l hcomm hn)
          (ap (λ t. scale t (inv beta)) (combined_response b key cs servers comm point h l hcomm)
            ∙ unblind C A p beta key hp hb))
    where
      go :
          (o : Option (List Fr))
          → (o >>= (λ proofs. some (
              verify C
                (combine_proofs C comm request_id proofs (scale generator key) (scale p beta))
                (scale generator key)
                (scale p beta)
                comm.c
                generator)))
            ≡ some (ok tt)
          → scale comm.c (inv beta) ≡ scale p key
          → (o >>= (λ responses. output_of {E = E} (
              finalize_distributed_oprf C A (record {
                request_id = request_id;
                query = query;
                blinding_factor = beta;
                domain_separator = domain_separator;
                blinded_request = scale p beta;
                challenge = comm;
                responses = responses;
                oprf_public_key = scale generator key;
                epoch = epoch;
              }))))
            ≡ some (
                ok (
                  permutation_t4
                    (domain_separator ∷ query ∷ x (scale p key) ∷ y (scale p key) ∷ [])
                    1))
      go none q u = absurd (cc q)
      go (some responses) q u =
          finalize_distributed_oprf-verified {E = E}
            (record {
              request_id = request_id;
              query = query;
              blinding_factor = beta;
              domain_separator = domain_separator;
              blinded_request = scale p beta;
              challenge = comm;
              responses = responses;
              oprf_public_key = scale generator key;
              epoch = epoch;
            })
            hb (cc q)
          ∙ ap (λ t. some (ok (permutation_t4 (domain_separator ∷ query ∷ x t ∷ y t ∷ []) 1))) u
