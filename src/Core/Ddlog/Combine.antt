-- ===== src/Core/Ddlog/Combine.antt =====
-- What the servers' commitments combine to, and what the two nonces combine to.
use oprf_service.Base.{
  ℕ, ◌≤◌, ◌≡◌, refl, sym, ap, ap₂, ◌∙◌, List, ◌∷◌, some, length, length-map, ==_refl, sort_unstable,
  length-sort_unstable, sort_unstable-Ascends, dedup, dedup_of_Ascends,
}
use oprf_service.Algebra.Field.{Field, semiring}
use oprf_service.Algebra.Suite.{Suite}
use oprf_service.Core.Shamir.Poly.{eval, eval-zero}
use oprf_service.Core.Shamir.Coeff.{points, lagrange_from_coeff-coefs}
use oprf_service.Core.Shamir.Interpolation.{weigh, weigh-eval}
use oprf_service.Core.Shamir.Sharing.{AreIds, points-Distinct}
use oprf_service.Core.Dlog.{challenge_hash}
use oprf_service.Core.Ddlog.{
  DLogEqualityCommitments, partial_commitments, combine_checked, combine_commitments,
  combine_two_nonce_randomness, nonce_args,
}
use oprf_service.Core.Ddlog.Sums.{Server, ids_of, sum, commit_each, sum_commitments-exp, msm-exp}

dedup-sort_unstable-length :
    (ids : List ℕ) (m : ℕ) → AreIds m ids → length (dedup (sort_unstable ids)) ≡ length ids
dedup-sort_unstable-length ids m h =
    ap length (dedup_of_Ascends (sort_unstable ids) (sort_unstable-Ascends ids h.0))
    ∙ length-sort_unstable ids

module _ {Fr Fq Affine : Type 0} ⦃S : Field Fr⦄ ⦃B : Field Fq⦄ (C : Suite Fr Fq Affine S) where
  open C use {generator, scale, is_zero, ◌⊕◌}
  open S use {zero, ◌+◌, ◌*◌, of_ℕ}

  infixl 65 ◌+◌ ◌⊕◌
  infixl 70 ◌*◌
  -- What `combine_commitments` gives, in logarithms.
  abbrev pub combined : Fr → Fr → List (Server Fr) → DLogEqualityCommitments Affine
  combined β sk servers = record {
    c = scale generator (β * sk);
    d1 = scale generator (sum C (λ s. s.d) servers);
    d2 = scale generator (β * sum C (λ s. s.d) servers);
    e1 = scale generator (sum C (λ s. s.e) servers);
    e2 = scale generator (β * sum C (λ s. s.e) servers);
    contributing_parties = ids_of servers;
  }

  pub weigh-secret :
      (c : Fr) (cs : List Fr) (ids : List ℕ)
      → AreIds S.modulus ids
      → length (c ∷ cs) ≤ length ids
      → weigh (eval (c ∷ cs)) (points ids) (points ids) ≡ c
  weigh-secret c cs ids h l =
      weigh-eval (points ids) (c ∷ cs) (points-Distinct S ids h) (rw (length-map of_ℕ ids) l)
      ∙ eval-zero c cs

  combine_checked-combined :
      (β c : Fr) (cs : List Fr) (servers : List (Server Fr))
      → AreIds S.modulus (ids_of servers)
      → length (c ∷ cs) ≤ length (ids_of servers)
      → combine_checked C
          (commit_each C (scale generator β) (eval (c ∷ cs)) servers)
          (ids_of servers)
        ≡ some (combined β c servers)
  unfolding combine_checked
  combine_checked-combined β c cs servers h l =
      rw
        (
          lagrange_from_coeff-coefs (ids_of servers) h.1,
          sum_commitments-exp C β (eval (c ∷ cs)) servers,
          msm-exp C β (eval (c ∷ cs)) (ids_of servers) servers,
          weigh-secret c cs (ids_of servers) h l,
        )
        refl

  pub combine_commitments-combined :
      (β c : Fr) (cs : List Fr) (servers : List (Server Fr))
      → AreIds S.modulus (ids_of servers)
      → length (c ∷ cs) ≤ length (ids_of servers)
      → combine_commitments C
          (commit_each C (scale generator β) (eval (c ∷ cs)) servers)
          (ids_of servers)
        ≡ some (combined β c servers)
  unfolding combine_commitments
  combine_commitments-combined β c cs servers h l =
      rw
        (
          dedup-sort_unstable-length (ids_of servers) S.modulus h,
          length-map
              (λ s.
                (partial_commitments C (scale generator β) (eval (c ∷ cs) (of_ℕ s.id)) s.d s.e).1)
              servers,
          length-map (λ s. s.id) servers,
          ==_refl (length servers),
        )
        (combine_checked-combined β c cs servers h l)

  -- The factor of the second nonces.
  unfoldable pub combiner : Fr → Fr → List (Server Fr) → List ℕ → Fr
  combiner β sk servers session_id =
      (combine_two_nonce_randomness C
        (nonce_args C (combined β sk servers) session_id (scale generator sk))).2

  unfoldable pub nonce_of : Fr → Fr → List (Server Fr) → List ℕ → Fr
  nonce_of β sk servers session_id =
      sum C (λ s. s.d) servers + sum C (λ s. s.e) servers * combiner β sk servers session_id

  unfoldable pub hash_of : Fr → Fr → List (Server Fr) → List ℕ → Fq
  hash_of β sk servers session_id =
      challenge_hash C (scale generator sk) (scale generator β) (scale generator (β * sk)) generator
        (scale generator (nonce_of β sk servers session_id))
        (scale (scale generator β) (nonce_of β sk servers session_id))

  combine_exp :
      (d e b : Fr) → scale generator d ⊕ scale (scale generator e) b ≡ scale generator (d + e * b)
  combine_exp d e b = rw (C.scale-scale e b) (C.scale-⊕ d (e * b))

  combine_exp_at :
      (β d e b : Fr)
      → scale generator (β * d) ⊕ scale (scale generator (β * e)) b
        ≡ scale (scale generator β) (d + e * b)
  combine_exp_at β d e b =
      combine_exp (β * d) (β * e) b
      ∙ ap (scale generator) (simp semiring)
      ∙ sym (C.scale-scale β (d + e * b))

  -- The two commitments of the combined proof are to the combined nonce.
  pub combine_two_nonce_randomness-combined :
      (β sk : Fr) (servers : List (Server Fr)) (session_id : List ℕ)
      → combine_two_nonce_randomness C
          (nonce_args C (combined β sk servers) session_id (scale generator sk))
        ≡ (
          scale generator (nonce_of β sk servers session_id),
          scale (scale generator β) (nonce_of β sk servers session_id),
          combiner β sk servers session_id,
        )
  unfolding combine_two_nonce_randomness nonce_of nonce_args combiner
  combine_two_nonce_randomness-combined β sk servers session_id =
      ap₂ (λ s t. (s, t, combiner β sk servers session_id)) (combine_exp _ _ _)
        (combine_exp_at β _ _ _)
