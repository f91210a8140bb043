-- ===== src/Core/Ddlog/Additive/Sums.antt =====
-- The sums over the servers that hold additive shares.
use oprf_service.Base.{ℕ, ◌≡◌, refl, sym, ap, ◌∙◌, List, [], ◌∷◌, ◌++◌, map, ap₂}
use oprf_service.Algebra.Field.{Field, semiring, add-zero, mul-zero, zero-add}
use oprf_service.Algebra.Suite.{Suite}
use oprf_service.Core.Dlog.{convert_base_to_scalar, challenge_hash}
use oprf_service.Core.Ddlog.{
  PartialDLogEqualityCommitments, DLogEqualityCommitments, partial_commitments, sum_shares,
}
use oprf_service.Core.Ddlog.Sums.{Server, ids_of, sum}
use oprf_service.Core.Ddlog.Combine.{
  combined, combine_two_nonce_randomness-combined, combiner, hash_of,
}
use oprf_service.Core.Ddlog.Additive.{add_commitments, combine_commitments, challenge}

-- A server with its share.
pub record Holder (Fr : Type 0) : Type 0 where
  pub server : Server Fr
  pub x_share : Fr

abbrev pub servers_of : {Fr : Type 0} → List (Holder Fr) → List (Server Fr)
servers_of holders = map (λ h. h.server) holders

append-nil : (ids : List ℕ) → ids ++ [] ≡ ids
append-nil [] = refl
append-nil (id ∷ ids) = ap (λ rest. id ∷ rest) (append-nil ids)

append_assoc : (xs ys zs : List ℕ) → (xs ++ ys) ++ zs ≡ xs ++ (ys ++ zs)
append_assoc [] ys zs = refl
append_assoc (x ∷ xs) ys zs = ap (λ rest. x ∷ rest) (append_assoc xs ys zs)

module _ {Fr Fq Affine : Type 0} ⦃S : Field Fr⦄ ⦃B : Field Fq⦄ (C : Suite Fr Fq Affine S) where
  open C use {generator, identity, ◌⊕◌, scale, is_zero}
  open S use {zero, ◌+◌, ◌*◌}

  infixl 65 ◌⊕◌ ◌+◌
  infixl 70 ◌*◌
  abbrev pub secret : List (Holder Fr) → Fr
  secret [] = zero
  secret (h ∷ holders) = h.x_share + secret holders

  abbrev pub commit_all :
      Affine → List (Holder Fr) → List (ℕ × PartialDLogEqualityCommitments Affine)
  commit_all b holders =
      map (λ h. (h.server.id, (partial_commitments C b h.x_share h.server.d h.server.e).1)) holders

  abbrev pub challenge_all :
      Affine → List ℕ → Affine → DLogEqualityCommitments Affine → List (Holder Fr) → List Fr
  challenge_all b session_id a comm holders =
      map
        (λ h.
          challenge C (partial_commitments C b h.x_share h.server.d h.server.e).0 session_id
            h.x_share a comm)
        holders

  -- Commitments with these logarithms.
  abbrev exps : Fr → Fr → Fr → Fr → List ℕ → DLogEqualityCommitments Affine
  exps β x d e parties = record {
    c = scale generator (β * x);
    d1 = scale generator d;
    d2 = scale generator (β * d);
    e1 = scale generator e;
    e2 = scale generator (β * e);
    contributing_parties = parties;
  }

  add_exp : (p x : Fr) → scale generator p ⊕ scale generator x ≡ scale generator (p + x)
  add_exp p x = C.scale-⊕ p x

  add_exp_at :
      (β p x : Fr)
      → scale generator (β * p) ⊕ scale (scale generator β) x ≡ scale generator (β * (p + x))
  add_exp_at β p x =
      ap (λ t. scale generator (β * p) ⊕ t) (C.scale-scale β x)
      ∙ C.scale-⊕ (β * p) (β * x)
      ∙ ap (scale generator) (sym (S.mul-add β p x))

  step-exps :
      (β x d e : Fr) (parties : List ℕ) (h : Holder Fr)
      → record {
        c = scale generator (β * x) ⊕ scale (scale generator β) h.x_share;
        d1 = scale generator d ⊕ scale generator h.server.d;
        d2 = scale generator (β * d) ⊕ scale (scale generator β) h.server.d;
        e1 = scale generator e ⊕ scale generator h.server.e;
        e2 = scale generator (β * e) ⊕ scale (scale generator β) h.server.e;
        contributing_parties = parties ++ h.server.id ∷ [];
      }
        ≡ exps β (x + h.x_share) (d + h.server.d) (e + h.server.e) (parties ++ h.server.id ∷ [])
  step-exps β x d e parties h =
      rw
        (
          add_exp_at β x h.x_share,
          add_exp d h.server.d,
          add_exp_at β d h.server.d,
          add_exp e h.server.e,
          add_exp_at β e h.server.e,
        )
        refl

  add_commitments-exps :
      (β x d e : Fr) (parties : List ℕ) (holders : List (Holder Fr))
      → add_commitments C (exps β x d e parties) (commit_all (scale generator β) holders)
        ≡ exps β
            (x + secret holders)
            (d + sum C (λ s. s.d) (servers_of holders))
            (e + sum C (λ s. s.e) (servers_of holders))
            (parties ++ ids_of (servers_of holders))
  unfolding add_commitments partial_commitments
  add_commitments-exps β x d e parties [] =
      rw (add-zero x, add-zero d, add-zero e, append-nil parties) refl
  add_commitments-exps β x d e parties (h ∷ holders) =
      ap (λ acc. add_commitments C acc (commit_all (scale generator β) holders))
        (step-exps β x d e parties h)
      ∙ add_commitments-exps β (x + h.x_share) (d + h.server.d) (e + h.server.e)
          (parties ++ h.server.id ∷ []) holders
      ∙ rw
          (
            S.add_assoc x h.x_share (secret holders),
            S.add_assoc d h.server.d (sum C (λ s. s.d) (servers_of holders)),
            S.add_assoc e h.server.e (sum C (λ s. s.e) (servers_of holders)),
            append_assoc parties (h.server.id ∷ []) (ids_of (servers_of holders)),
          )
          refl

  start : identity ≡ scale generator zero
  start = sym C.scale-zero

  start_at : (β : Fr) → identity ≡ scale generator (β * zero)
  start_at β = start ∙ ap (scale generator) (sym (mul-zero β))

  pub combine_commitments-combined :
      (β : Fr) (holders : List (Holder Fr))
      → combine_commitments C (commit_all (scale generator β) holders)
        ≡ combined C β (secret holders) (servers_of holders)
  unfolding combine_commitments
  combine_commitments-combined β holders =
      ap₂
        (λ p q.
          add_commitments C
            (record { c = q; d1 = p; d2 = q; e1 = p; e2 = q; contributing_parties = [] })
            (commit_all (scale generator β) holders))
        start (start_at β)
      ∙ add_commitments-exps β zero zero zero [] holders
      ∙ rw
          (
            zero-add (secret holders),
            zero-add (sum C (λ s. s.d) (servers_of holders)),
            zero-add (sum C (λ s. s.e) (servers_of holders)),
          )
          refl

  challenge-combined :
      (β sk x d e : Fr) (servers : List (Server Fr)) (session_id : List ℕ)
      → challenge C
          (partial_commitments C (scale generator β) x d e).0
          session_id
          x
          (scale generator sk)
          (combined C β sk servers)
        ≡ d
          + combiner C β sk servers session_id * e
          + convert_base_to_scalar C (hash_of C β sk servers session_id) * x
  unfolding challenge partial_commitments hash_of
  challenge-combined β sk x d e servers session_id =
      ap
        (λ t.
          d
          + t.2 * e
          + convert_base_to_scalar C (
              challenge_hash C (scale generator sk) (scale generator β) (scale generator (β * sk))
                generator t.0 t.1)
            * x)
        (combine_two_nonce_randomness-combined C β sk servers session_id)

  gather :
      (s d b n e x ds ns w : Fr)
      → s + (d + b * n + e * x) + (ds + ns * b + e * w) ≡ s + (d + ds + (n + ns) * b + e * (x + w))
  gather s d b n e x ds ns w = simp semiring

  pub sum_shares-challenge_all :
      (β sk : Fr) (all : List (Server Fr)) (session_id : List ℕ) (holders : List (Holder Fr))
      (s : Fr)
      → sum_shares C s (
          challenge_all
            (scale generator β)
            session_id
            (scale generator sk)
            (combined C β sk all)
            holders)
        ≡ s
          + (sum C (λ s. s.d) (servers_of holders)
              + sum C (λ s. s.e) (servers_of holders) * combiner C β sk all session_id
              + convert_base_to_scalar C (hash_of C β sk all session_id) * secret holders)
  unfolding sum_shares
  sum_shares-challenge_all β sk all session_id [] s = simp semiring
  sum_shares-challenge_all β sk all session_id (h ∷ holders) s =
      sum_shares-challenge_all β sk all session_id holders _
      ∙ rw (challenge-combined β sk h.x_share h.server.d h.server.e all session_id) (
          gather s h.server.d (combiner C β sk all session_id) h.server.e
            (convert_base_to_scalar C (hash_of C β sk all session_id)) h.x_share _ _ _)
