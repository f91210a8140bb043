-- ===== src/Core/Ddlog/Complete.antt =====
-- A full run of the distributed proof: commitments, combination, challenge, combined proof.
use oprf_service.Base.{
  ℕ, ◌≤◌, ◌≡◌, refl, sym, ap, subst, ◌∙◌, ◌≢◌, false, List, [], ◌∷◌, Option, some, length, ok, All,
  ◌<◌,
}
use oprf_service.Algebra.Field.{Field, semiring}
use oprf_service.Algebra.Suite.{Suite, IsPoint, exp-ne-zero, exp-IsPoint, is_zero-exp}
use oprf_service.Core.Shamir.{◌>>=◌, single_lagrange_from_coeff}
use oprf_service.Core.Shamir.Poly.{eval}
use oprf_service.Core.Shamir.Coeff.{points, coef, single_lagrange_from_coeff-coef}
use oprf_service.Core.Shamir.Sharing.{AreIds}
use oprf_service.Core.Dlog.{DLogEqualityProof, convert_base_to_scalar, challenge_hash, verify}
use oprf_service.Core.Dlog.Complete.{verify_of_response}
use oprf_service.Core.Ddlog.{
  DLogEqualityCommitments, partial_commitments, combine_commitments, combine_two_nonce_randomness,
  nonce_args, challenge, combine_proofs,
}
use oprf_service.Core.Ddlog.Sums.{Server, ids_of, commit_each, respond_each, sum_shares-respond}
use oprf_service.Core.Ddlog.Combine.{
  combined, combine_commitments-combined, combine_two_nonce_randomness-combined, weigh-secret,
  combiner, nonce_of, hash_of,
}

module _ {Fr Fq Affine : Type 0} ⦃S : Field Fr⦄ ⦃B : Field Fq⦄ (C : Suite Fr Fq Affine S) where
  open C use {generator, scale, is_zero, ◌⊕◌}
  open S use {zero, ◌+◌, ◌*◌, of_ℕ}

  infixl 65 ◌+◌ ◌⊕◌
  infixl 70 ◌*◌
  -- The servers' answers to a challenge, each with the coefficient that it computes itself.
  unfoldable pub challenge_each :
      Affine
      → List ℕ
      → (Fr → Fr)
      → Affine
      → DLogEqualityCommitments Affine
      → List (Server Fr)
      → Option (List Fr)
  challenge_each b session_id f a comm [] = some []
  challenge_each b session_id f a comm (s ∷ servers) = do
    let x_share = f (of_ℕ s.id)
    let (session, _) = partial_commitments C b x_share s.d s.e
    lagrange ← single_lagrange_from_coeff s.id comm.contributing_parties
    rest ← challenge_each b session_id f a comm servers
    some (challenge C session session_id x_share a comm lagrange ∷ rest)

  challenge-combined :
      (β sk x d e l : Fr) (servers : List (Server Fr)) (session_id : List ℕ)
      → challenge C
          (partial_commitments C (scale generator β) x d e).0
          session_id
          x
          (scale generator sk)
          (combined C β sk servers)
          l
        ≡ d
          + combiner C β sk servers session_id * e
          + l * convert_base_to_scalar C (hash_of C β sk servers session_id) * x
  unfolding challenge partial_commitments hash_of
  challenge-combined β sk x d e l servers session_id =
      ap
        (λ t.
          d
          + t.2 * e
          + l
            * convert_base_to_scalar C (
                challenge_hash C (scale generator sk) (scale generator β) (scale generator (β * sk))
                  generator t.0 t.1)
            * x)
        (combine_two_nonce_randomness-combined C β sk servers session_id)

  challenge_each-respond :
      (β sk : Fr) (f : Fr → Fr) (session_id : List ℕ) (all servers : List (Server Fr))
      → All (λ j. j < S.modulus) (ids_of all)
      → All (λ j. j < S.modulus) (ids_of servers)
      → challenge_each
          (scale generator β)
          session_id
          f
          (scale generator sk)
          (combined C β sk all)
          servers
        ≡ some (
            respond_each C
              (combiner C β sk all session_id)
              (convert_base_to_scalar C (hash_of C β sk all session_id))
              f
              (ids_of all)
              servers)
  unfolding challenge_each
  challenge_each-respond β sk f session_id all [] ha hs = refl
  challenge_each-respond β sk f session_id all (s ∷ servers) ha (h, hs) =
      rw
        (
          single_lagrange_from_coeff-coef s.id (ids_of all) h ha,
          challenge_each-respond β sk f session_id all servers ha hs,
          challenge-combined β sk (f (of_ℕ s.id)) s.d s.e (coef (of_ℕ s.id) (points (ids_of all)))
              all session_id,
        )
        refl

  -- The proof that the answers add up to.
  proof_of : Fr → Fr → (Fr → Fr) → List (Server Fr) → List ℕ → DLogEqualityProof Fr Fq
  proof_of β c f servers session_id =
      combine_proofs C (combined C β c servers) session_id
        (respond_each C (combiner C β c servers session_id)
          (convert_base_to_scalar C (hash_of C β c servers session_id)) f (ids_of servers) servers)
        (scale generator c) (scale generator β)

  proof_of-e :
      (β c : Fr) (f : Fr → Fr) (servers : List (Server Fr)) (session_id : List ℕ)
      → (proof_of β c f servers session_id).e ≡ hash_of C β c servers session_id
  unfolding proof_of combine_proofs hash_of
  proof_of-e β c f servers session_id =
      ap
        (λ t.
          challenge_hash C (scale generator c) (scale generator β) (scale generator (β * c))
            generator t.0 t.1)
        (combine_two_nonce_randomness-combined C β c servers session_id)

  proof_of-s :
      (β c : Fr) (cs : List Fr) (servers : List (Server Fr)) (session_id : List ℕ)
      → AreIds S.modulus (ids_of servers)
      → length (c ∷ cs) ≤ length (ids_of servers)
      → (proof_of β c (eval (c ∷ cs)) servers session_id).s
        ≡ nonce_of C β c servers session_id
          + convert_base_to_scalar C (hash_of C β c servers session_id) * c
  unfolding proof_of combine_proofs nonce_of
  proof_of-s β c cs servers session_id h l =
      sum_shares-respond C (combiner C β c servers session_id)
        (convert_base_to_scalar C (hash_of C β c servers session_id)) (eval (c ∷ cs))
        (ids_of servers) zero servers
      ∙ rw (weigh-secret C c cs (ids_of servers) h l) (simp semiring)

  verify-proof_of :
      (β c : Fr) (cs : List Fr) (servers : List (Server Fr)) (session_id : List ℕ)
      → AreIds S.modulus (ids_of servers)
      → length (c ∷ cs) ≤ length (ids_of servers)
      → c ≢ zero
      → β ≢ zero
      → nonce_of C β c servers session_id ≢ zero
      → verify C
          (proof_of β c (eval (c ∷ cs)) servers session_id)
          (scale generator c)
          (scale generator β)
          (scale generator (β * c))
          generator
        ≡ ok tt
  verify-proof_of β c cs servers session_id h l hc hb hk =
      let p = proof_of β c (eval (c ∷ cs)) servers session_id in
      let e = proof_of-e β c (eval (c ∷ cs)) servers session_id in
      subst (λ t. verify C p (scale generator c) (scale generator β) t generator ≡ ok tt)
        (C.scale-scale β c)
        (verify_of_response C (scale generator β) c (nonce_of C β c servers session_id) p
          (exp-IsPoint C β) (is_zero-exp C β hb) hc hk
          (e ∙ unfold hash_of in rw (C.scale-scale β c) refl)
          (proof_of-s β c cs servers session_id h l
            ∙ ap (λ t. nonce_of C β c servers session_id + convert_base_to_scalar C t * c) (sym e)))

  verify-combine_exp :
      (β c : Fr) (cs : List Fr) (servers : List (Server Fr)) (session_id : List ℕ)
      → β ≢ zero
      → c ≢ zero
      → AreIds S.modulus (ids_of servers)
      → length (c ∷ cs) ≤ length (ids_of servers)
      → is_zero
          (combine_two_nonce_randomness C
            (nonce_args C (combined C β c servers) session_id (scale generator c))).0
        ≡ false
      → (do
        proofs ←
            challenge_each
              (scale generator β)
              session_id
              (eval (c ∷ cs))
              (scale generator c)
              (combined C β c servers)
              servers
        some (
            verify C
              (combine_proofs C
                (combined C β c servers)
                session_id
                proofs
                (scale generator c)
                (scale generator β))
              (scale generator c)
              (scale generator β)
              (scale generator (β * c))
              generator))
        ≡ some (ok tt)
  verify-combine_exp β c cs servers session_id hb hc h l nz =
      rw (challenge_each-respond β c (eval (c ∷ cs)) session_id servers servers h.1 h.1) (
        ap some (
          unfold proof_of in
          verify-proof_of β c cs servers session_id h l hc hb (
            exp-ne-zero C (nonce_of C β c servers session_id)
              (rw (combine_two_nonce_randomness-combined C β c servers session_id) at nz))))

  abbrev Accepted :
      Affine → Fr → List Fr → List (Server Fr) → List ℕ → DLogEqualityCommitments Affine → Type 0
  Accepted b c cs servers session_id comm =
      (do
        proofs ← challenge_each b session_id (eval (c ∷ cs)) (scale generator c) comm servers
        some (
            verify C (combine_proofs C comm session_id proofs (scale generator c) b)
              (scale generator c) b comm.c generator))
      ≡ some (ok tt)

  verify-combine_at :
      (β c : Fr) (cs : List Fr) (servers : List (Server Fr)) (session_id : List ℕ)
      (comm : DLogEqualityCommitments Affine)
      → β ≢ zero
      → c ≢ zero
      → AreIds S.modulus (ids_of servers)
      → length (c ∷ cs) ≤ length (ids_of servers)
      → combine_commitments C
          (commit_each C (scale generator β) (eval (c ∷ cs)) servers)
          (ids_of servers)
        ≡ some comm
      → is_zero
          (combine_two_nonce_randomness C (nonce_args C comm session_id (scale generator c))).0
        ≡ false
      → Accepted (scale generator β) c cs servers session_id comm
  verify-combine_at β c cs servers session_id comm hb hc h l hcomm =
      let q : combined C β c servers ≡ comm =
        cc (sym (combine_commitments-combined C β c cs servers h l) ∙ hcomm) in
      subst
        (λ m.
          is_zero (combine_two_nonce_randomness C (nonce_args C m session_id (scale generator c))).0
            ≡ false
          → Accepted (scale generator β) c cs servers session_id m)
        q (verify-combine_exp β c cs servers session_id hb hc h l)

  -- Servers with distinct ids below the modulus hold shares of a secret `c`, at least as many as the
  -- polynomial has coefficients, and the query `b` is a point of the subgroup. Then their
  -- commitments combine without a panic, to `b` times the secret.
  pub combine_commitments-commit :
      (b : Affine) (c : Fr) (cs : List Fr) (servers : List (Server Fr))
      → IsPoint C b
      → AreIds S.modulus (ids_of servers)
      → length (c ∷ cs) ≤ length (ids_of servers)
      → (comm : DLogEqualityCommitments Affine) × (combine_commitments C
            (commit_each C b (eval (c ∷ cs)) servers)
            (ids_of servers)
          ≡ some comm)
        × (comm.c ≡ scale b c)
        × (comm.contributing_parties ≡ ids_of servers)
  combine_commitments-commit b c cs servers hb h l =
      let (β, e) = C.scale-surjective b hb.0 hb.1 in
      rw e (
        combined C β c servers,
        combine_commitments-combined C β c cs servers h l,
        sym (C.scale-scale β c),
        refl,
      )

  -- Under the same conditions, when the combined first nonce commitment is not the identity, the
  -- servers' answers to the combined commitments add up to a proof that `verify` accepts for the
  -- public key of `c`, the query and the combined response.
  pub verify-combine_proofs :
      (b : Affine) (c : Fr) (cs : List Fr) (servers : List (Server Fr)) (session_id : List ℕ)
      (comm : DLogEqualityCommitments Affine)
      → IsPoint C b
      → is_zero b ≡ false
      → c ≢ zero
      → AreIds S.modulus (ids_of servers)
      → length (c ∷ cs) ≤ length (ids_of servers)
      → combine_commitments C (commit_each C b (eval (c ∷ cs)) servers) (ids_of servers) ≡ some comm
      → is_zero
          (combine_two_nonce_randomness C (nonce_args C comm session_id (scale generator c))).0
        ≡ false
      → (do
        proofs ← challenge_each b session_id (eval (c ∷ cs)) (scale generator c) comm servers
        some (
            verify C
              (combine_proofs C comm session_id proofs (scale generator c) b)
              (scale generator c)
              b
              comm.c
              generator))
        ≡ some (ok tt)
  verify-combine_proofs b c cs servers session_id comm hb nb hc h l hcomm nz =
      let (β, e) = C.scale-surjective b hb.0 hb.1 in
      subst
        (λ p.
          is_zero p ≡ false
          → combine_commitments C (commit_each C p (eval (c ∷ cs)) servers) (ids_of servers)
            ≡ some comm
          → Accepted p c cs servers session_id comm)
        (sym e)
        (λ nb hcomm.
          verify-combine_at β c cs servers session_id comm (exp-ne-zero C β nb) hc h l hcomm nz)
        nb hcomm
