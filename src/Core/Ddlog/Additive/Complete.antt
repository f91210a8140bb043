-- ===== src/Core/Ddlog/Additive/Complete.antt =====
-- A full run of the additive variant.
use oprf_service.Base.{ℕ, ◌≡◌, ◌≢◌, refl, sym, ap, subst, ◌∙◌, List, ok, false}
use oprf_service.Algebra.Field.{Field, zero-add}
use oprf_service.Algebra.Suite.{Suite, IsPoint, exp-ne-zero, exp-IsPoint}
use oprf_service.Core.Dlog.{DLogEqualityProof, convert_base_to_scalar, challenge_hash, verify}
use oprf_service.Core.Dlog.Complete.{verify_of_response}
use oprf_service.Core.Ddlog.{
  DLogEqualityCommitments, combine_two_nonce_randomness, nonce_args, combine_proofs,
}
use oprf_service.Core.Ddlog.Combine.{
  combined, combine_two_nonce_randomness-combined, nonce_of, hash_of,
}
use oprf_service.Core.Ddlog.Additive.{combine_commitments}
use oprf_service.Core.Ddlog.Additive.Sums.{
  Holder, servers_of, secret, commit_all, challenge_all, combine_commitments-combined,
  sum_shares-challenge_all,
}

module _ {Fr Fq Affine : Type 0} ⦃S : Field Fr⦄ ⦃B : Field Fq⦄ (C : Suite Fr Fq Affine S) where
  open C use {generator, scale, is_zero}
  open S use {zero, ◌+◌, ◌*◌}

  infixl 65 ◌+◌
  infixl 70 ◌*◌
  -- The proof that the answers add up to.
  proof_of : Fr → List (Holder Fr) → List ℕ → DLogEqualityProof Fr Fq
  proof_of β holders session_id =
      let comm = combined C β (secret C holders) (servers_of holders) in
      combine_proofs C comm session_id
        (challenge_all C (scale generator β) session_id (scale generator (secret C holders)) comm
          holders)
        (scale generator (secret C holders)) (scale generator β)

  proof_of-e :
      (β : Fr) (holders : List (Holder Fr)) (session_id : List ℕ)
      → (proof_of β holders session_id).e
        ≡ hash_of C β (secret C holders) (servers_of holders) session_id
  unfolding proof_of combine_proofs hash_of
  proof_of-e β holders session_id =
      ap
        (λ t.
          challenge_hash C (scale generator (secret C holders)) (scale generator β)
            (scale generator (β * secret C holders)) generator t.0 t.1)
        (combine_two_nonce_randomness-combined C β (secret C holders) (servers_of holders)
          session_id)

  proof_of-s :
      (β : Fr) (holders : List (Holder Fr)) (session_id : List ℕ)
      → (proof_of β holders session_id).s
        ≡ nonce_of C β (secret C holders) (servers_of holders) session_id
          + convert_base_to_scalar C
              (hash_of C β (secret C holders) (servers_of holders) session_id)
            * secret C holders
  unfolding proof_of combine_proofs nonce_of
  proof_of-s β holders session_id =
      sum_shares-challenge_all C β (secret C holders) (servers_of holders) session_id holders zero
      ∙ zero-add _

  -- That the commitments combine to the query times the secret, and that the proof is accepted.
  abbrev Accepted : Affine → List (Holder Fr) → List ℕ → DLogEqualityCommitments Affine → Type 0
  Accepted b holders session_id comm =
      is_zero
          (combine_two_nonce_randomness C
            (nonce_args C comm session_id (scale generator (secret C holders)))).0
        ≡ false
      → (comm.c ≡ scale b (secret C holders))
        × (verify C
              (combine_proofs C comm session_id
                (challenge_all C b session_id (scale generator (secret C holders)) comm holders)
                (scale generator (secret C holders)) b)
              (scale generator (secret C holders)) b comm.c generator
            ≡ ok tt)

  verify-at :
      (β : Fr) (holders : List (Holder Fr)) (session_id : List ℕ)
      → is_zero (scale generator β) ≡ false
      → secret C holders ≢ zero
      → Accepted
          (scale generator β)
          holders
          session_id
          (combined C β (secret C holders) (servers_of holders))
  verify-at β holders session_id nb hx hk =
      let x = secret C holders in
      let servers = servers_of holders in
      let nz =
        exp-ne-zero C (nonce_of C β x servers session_id)
          (rw (combine_two_nonce_randomness-combined C β x servers session_id) at hk) in
      let e = proof_of-e β holders session_id in
      let accepted =
        verify_of_response C (scale generator β) x (nonce_of C β x servers session_id)
          (proof_of β holders session_id) (exp-IsPoint C β) nb hx nz
          (e ∙ unfold hash_of in rw (C.scale-scale β x) refl)
          (proof_of-s β holders session_id
            ∙ ap (λ t. nonce_of C β x servers session_id + convert_base_to_scalar C t * x)
                (sym e)) in
      (
        sym (C.scale-scale β x),
        unfold proof_of in
            subst
              (λ t.
                verify C (proof_of β holders session_id) (scale generator x) (scale generator β) t
                  generator
                ≡ ok tt)
              (C.scale-scale β x) accepted,
      )

  -- The servers hold shares that add up to a nonzero secret, and the query is a point of the subgroup
  -- other than the identity. Their commitments combine to the query times the secret, and when the
  -- combined first nonce commitment is not the identity, the servers' answers add up to a proof that
  -- `verify` accepts for the public key of the secret, the query and the combined response.
  pub verify-additive :
      (b : Affine) (holders : List (Holder Fr)) (session_id : List ℕ)
      → IsPoint C b
      → is_zero b ≡ false
      → secret C holders ≢ zero
      → is_zero
          (combine_two_nonce_randomness C (
            nonce_args C
              (combine_commitments C (commit_all C b holders))
              session_id
              (scale generator (secret C holders)))).0
        ≡ false
      → ((combine_commitments C (commit_all C b holders)).c ≡ scale b (secret C holders))
        × (verify C
              (combine_proofs C
                (combine_commitments C (commit_all C b holders))
                session_id
                (challenge_all C b session_id
                  (scale generator (secret C holders))
                  (combine_commitments C (commit_all C b holders))
                  holders)
                (scale generator (secret C holders))
                b)
              (scale generator (secret C holders))
              b
              (combine_commitments C (commit_all C b holders)).c
              generator
            ≡ ok tt)
  verify-additive b holders session_id hb nb hx hk =
      let (β, e) = C.scale-surjective b hb.0 hb.1 in
      subst
        (λ q.
          is_zero q ≡ false
          → Accepted q holders session_id (combine_commitments C (commit_all C q holders)))
        (sym e)
        (λ nz.
          subst (Accepted (scale generator β) holders session_id)
            (sym (combine_commitments-combined C β holders)) (verify-at β holders session_id nz hx))
        nb hk
