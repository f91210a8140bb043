-- ===== src/Core/Ddlog/Sums.antt =====
-- The sums and products over the servers, in logarithms to the base of the generator.
use oprf_service.Base.{ℕ, ◌≡◌, refl, sym, ap, ap₂, ◌∙◌, List, [], ◌∷◌, map}
use oprf_service.Algebra.Field.{Field, semiring, add-zero, mul-zero, zero-add}
use oprf_service.Algebra.Suite.{Suite}
use oprf_service.Core.Shamir.Coeff.{coef, points, coefs}
use oprf_service.Core.Shamir.Interpolation.{weigh}
use oprf_service.Core.Ddlog.{
  PartialDLogEqualityCommitments, partial_commitments, sum_commitments, sum_shares,
}

-- A server of a session: its id and its two nonces.
pub record Server (Fr : Type 0) : Type 0 where
  pub id : ℕ
  pub d : Fr
  pub e : Fr

abbrev pub ids_of : {Fr : Type 0} → List (Server Fr) → List ℕ
ids_of servers = map (λ s. s.id) servers

module _ {Fr Fq Affine : Type 0} ⦃S : Field Fr⦄ ⦃B : Field Fq⦄ (C : Suite Fr Fq Affine S) where
  open C use {generator, identity, ◌⊕◌, scale, msm}
  open S use {zero, ◌+◌, ◌*◌, of_ℕ}

  infixl 65 ◌⊕◌ ◌+◌
  infixl 70 ◌*◌
  abbrev pub sum : (Server Fr → Fr) → List (Server Fr) → Fr
  sum f [] = zero
  sum f (s ∷ servers) = f s + sum f servers

  -- What the servers send when `f` shares the secret.
  abbrev pub commit_each :
      Affine → (Fr → Fr) → List (Server Fr) → List (PartialDLogEqualityCommitments Affine)
  commit_each b f servers = map (λ s. (partial_commitments C b (f (of_ℕ s.id)) s.d s.e).1) servers

  add-exp :
      (p : Affine) (a d : Fr)
      → p ≡ scale generator a
      → p ⊕ scale generator d ≡ scale generator (a + d)
  add-exp p a d e = ap (λ t. t ⊕ scale generator d) e ∙ C.scale-⊕ a d

  add-exp_at :
      (β : Fr) (p : Affine) (a d : Fr)
      → p ≡ scale generator (β * a)
      → p ⊕ scale (scale generator β) d ≡ scale generator (β * (a + d))
  add-exp_at β p a d e =
      ap₂ (λ s t. s ⊕ t) e (C.scale-scale β d)
      ∙ C.scale-⊕ (β * a) (β * d)
      ∙ ap (scale generator) (sym (S.mul-add β a d))

  -- With accumulators that hold known multiples.
  sum_commitments-exp_from :
      (β : Fr) (f : Fr → Fr) (p q : Fr) (d1 d2 e1 e2 : Affine) (servers : List (Server Fr))
      → d1 ≡ scale generator p
      → d2 ≡ scale generator (β * p)
      → e1 ≡ scale generator q
      → e2 ≡ scale generator (β * q)
      → sum_commitments C d1 d2 e1 e2 (commit_each (scale generator β) f servers) ≡ (
        scale generator (p + sum (λ s. s.d) servers),
        scale generator (β * (p + sum (λ s. s.d) servers)),
        scale generator (q + sum (λ s. s.e) servers),
        scale generator (β * (q + sum (λ s. s.e) servers)),
      )
  unfolding sum_commitments partial_commitments
  sum_commitments-exp_from β f p q d1 d2 e1 e2 [] h1 h2 h3 h4 =
      rw (add-zero p, add-zero q, h1, h2, h3, h4) refl
  sum_commitments-exp_from β f p q d1 d2 e1 e2 (s ∷ servers) h1 h2 h3 h4 =
      rw
        (← S.add_assoc p s.d (sum (λ s. s.d) servers), ← S.add_assoc q s.e (sum (λ s. s.e) servers))
        (sum_commitments-exp_from β f (p + s.d) (q + s.e) _ _ _ _ servers (add-exp d1 p s.d h1)
          (add-exp_at β d2 p s.d h2) (add-exp e1 q s.e h3) (add-exp_at β e2 q s.e h4))

  pub sum_commitments-exp :
      (β : Fr) (f : Fr → Fr) (servers : List (Server Fr))
      → sum_commitments C identity identity identity identity
          (commit_each (scale generator β) f servers)
        ≡ (
          scale generator (sum (λ s. s.d) servers),
          scale generator (β * sum (λ s. s.d) servers),
          scale generator (sum (λ s. s.e) servers),
          scale generator (β * sum (λ s. s.e) servers),
        )
  sum_commitments-exp β f servers =
      let start : identity ≡ scale generator zero = sym C.scale-zero in
      let start_at : identity ≡ scale generator (β * zero) =
        start ∙ ap (scale generator) (sym (mul-zero β)) in
      rw (← zero-add (sum (λ s. s.d) servers), ← zero-add (sum (λ s. s.e) servers))
        (sum_commitments-exp_from β f zero zero _ _ _ _ servers start start_at start start_at)

  gather : (β x c w : Fr) → β * x * c + β * w ≡ β * (x * c + w)
  gather β x c w = simp semiring

  pub msm-exp :
      (β : Fr) (f : Fr → Fr) (all : List ℕ) (servers : List (Server Fr))
      → msm
          (map (λ comm. comm.c) (commit_each (scale generator β) f servers))
          (coefs all (ids_of servers))
        ≡ scale generator (β * weigh f (points all) (points (ids_of servers)))
  unfolding partial_commitments weigh
  msm-exp β f all [] = C.msm-nil _ ∙ sym C.scale-zero ∙ ap (scale generator) (sym (mul-zero β))
  msm-exp β f all (s ∷ servers) =
      rw (C.msm-cons, msm-exp β f all servers, C.scale-scale, C.scale-scale, C.scale-⊕)
        (ap (scale generator) (gather β (f (of_ℕ s.id)) (coef (of_ℕ s.id) (points all)) _))

  -- The shares of the response, for the challenge `e` and the factor `b` of the second nonces.
  abbrev pub respond_each : Fr → Fr → (Fr → Fr) → List ℕ → List (Server Fr) → List Fr
  respond_each b e f all servers =
      map (λ s. s.d + b * s.e + coef (of_ℕ s.id) (points all) * e * f (of_ℕ s.id)) servers

  gather_shares :
      (s d b n c e x ds ns w : Fr)
      → s + (d + b * n + c * e * x) + (ds + b * ns + e * w)
        ≡ s + (d + ds + b * (n + ns) + e * (x * c + w))
  gather_shares s d b n c e x ds ns w = simp semiring

  pub sum_shares-respond :
      (b e : Fr) (f : Fr → Fr) (all : List ℕ) (s : Fr) (servers : List (Server Fr))
      → sum_shares C s (respond_each b e f all servers)
        ≡ s
          + (sum (λ s. s.d) servers
              + b * sum (λ s. s.e) servers
              + e * weigh f (points all) (points (ids_of servers)))
  unfolding sum_shares weigh
  sum_shares-respond b e f all s [] = simp semiring
  sum_shares-respond b e f all s (server ∷ servers) =
      sum_shares-respond b e f all
        (s
          + (server.d + b * server.e + coef (of_ℕ server.id) (points all) * e * f (of_ℕ server.id)))
        servers
      ∙ gather_shares s server.d b server.e (coef (of_ℕ server.id) (points all)) e
          (f (of_ℕ server.id)) (sum (λ s. s.d) servers) (sum (λ s. s.e) servers) _
