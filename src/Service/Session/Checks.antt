-- ===== src/Service/Session/Checks.antt =====
-- What a node demands of a challenge, and that the client's challenge meets it.
use oprf_service.Types.{coeff_of}
use oprf_service.Base.{
  ℕ, ◌+◌, ◌^◌, ◌<◌, ◌≡◌, subst, ap, ◌∙◌, ◌↔◌, List, [], ◌∷◌, map, true, Result, ok, some, length,
  length-map, inl, inr, arith, All, AscendsFrom, Ascends, ◌⊎◌, Ascends-of_dedup, dedup_of_Ascends,
  is_sorted_of_Ascends, dedup,
}
use oprf_service.Service.Session.{check_coefficients, contains}
use oprf_service.Client.Sessions.{OprfSessions, OprfResponse, NodeError, init_sessions}
use oprf_service.Client.Sessions.Chosen.{IsChosen, Among, Ends, init_sessions-Ends}

-- The number occurs in the list.
abbrev pub Contains : ℕ → List ℕ → Type 0
Contains x [] = ⊥
Contains x (y ∷ ys) = (x ≡ y) ⊎ Contains x ys

contains_iff : (x : ℕ) (ys : List ℕ) → (contains x ys ≡ true) ↔ Contains x ys
unfolding contains
contains_iff x [] = ground arith
contains_iff x (y ∷ ys) = ground (arith, contains_iff x ys)

length-dedup_of_Ascends : (coeffs : List ℕ) → Ascends coeffs → length (dedup coeffs) ≡ length coeffs
length-dedup_of_Ascends coeffs h = ap length (dedup_of_Ascends coeffs h)

-- A node goes on exactly when the challenge names threshold many parties in strictly ascending
-- order, its own among them.
pub check_coefficients_iff :
    (threshold party_id : ℕ) (coeffs : List ℕ)
    → (check_coefficients threshold party_id coeffs ≡ ok tt)
      ↔ ((length coeffs ≡ threshold) × Contains (coeff_of party_id) coeffs × Ascends coeffs)
unfolding check_coefficients
check_coefficients_iff threshold party_id coeffs = ground (
  arith,
  contains_iff (coeff_of party_id) coeffs,
  Ascends-of_dedup coeffs,
  length-dedup_of_Ascends coeffs,
  is_sorted_of_Ascends coeffs,
)

-- Ids that are no more than 2 ^ 16 - 2, so that the coefficient does not wrap.
abbrev pub AreLow : List ℕ → Type 0
AreLow ids = All (λ id. id + 1 < 2 ^ 16) ids

coeff_of-AscendsFrom :
    (id : ℕ) (ids : List ℕ)
    → id + 1 < 2 ^ 16
    → AreLow ids
    → AscendsFrom id ids
    → AscendsFrom (coeff_of id) (map coeff_of ids)
coeff_of-AscendsFrom id [] l ls h = tt
coeff_of-AscendsFrom id (next ∷ ids) l (l', ls) (lt, h) =
    ((omega (arith, l, l', lt)), coeff_of-AscendsFrom next ids l' ls h)

coeff_of-Ascends : (ids : List ℕ) → AreLow ids → Ascends ids → Ascends (map coeff_of ids)
coeff_of-Ascends [] l h = tt
coeff_of-Ascends (id ∷ ids) (l, ls) h = coeff_of-AscendsFrom id ids l ls h

Contains-map : (x : ℕ) (ids : List ℕ) → Contains x ids → Contains (coeff_of x) (map coeff_of ids)
Contains-map x [] h = absurd h
Contains-map x (id ∷ ids) (inl e) = inl (ap coeff_of e)
Contains-map x (id ∷ ids) (inr h) = inr (Contains-map x ids h)

module _ {Uri Commitments PublicKey E : Type 0} where
  -- When a client ends with sessions for the nodes' threshold, and the party ids do not wrap, every
  -- node of those sessions accepts the challenge that names their parties.
  pub check_coefficients-init_sessions :
      (threshold party_id : ℕ)
      (results : List (Result (NodeError E) (Uri × OprfResponse Commitments PublicKey)))
      (sessions : OprfSessions Uri Commitments PublicKey)
      → init_sessions threshold results ≡ some (ok sessions)
      → AreLow sessions.party_ids
      → Contains party_id sessions.party_ids
      → check_coefficients threshold party_id (map coeff_of sessions.party_ids) ≡ ok tt
  check_coefficients-init_sessions threshold party_id results sessions e low mine =
      let (n, _, asc) : IsChosen threshold sessions =
        (subst (Ends (λ answer. Among answer results) threshold) e
          (init_sessions-Ends threshold results)).0 in
      (check_coefficients_iff threshold party_id (map coeff_of sessions.party_ids)).1 (
        length-map coeff_of sessions.party_ids ∙ n,
        Contains-map party_id sessions.party_ids mine,
        coeff_of-Ascends sessions.party_ids low asc,
      )
