-- ===== src/Client/Sessions/Chosen.antt =====
-- The sessions that `init_sessions` chooses.
use oprf_service.Base.{
  ℕ, ◌<◌, ◌≡◌, refl, sym, subst, ap, ◌∙◌, List, [], ◌∷◌, ◌++◌, length, Option, none, some, Result,
  ok, err, Bool-cases, inl, inr, ==_iff, ◌==◌, All, Distinct, Ascends, ◌⊎◌, sort_unstable-Ascends,
  length-sort_unstable, if◌then◌else◌,
}
use oprf_service.Client.Sessions.{
  OprfSessions, OprfResponse, Entry, NodeError, position, with_capacity, push, push_at, entry_of,
  set_entry, sort_by_party_id, init_loop, init_sessions, zip_entries,
}
use oprf_service.Client.Sessions.Lists.{
  position-none, position-lt, get_elem?-lt, All-snoc, Distinct-snoc, grow,
}
use oprf_service.Client.Sessions.Sorted.{
  IsParallel, sort_by_party_id-party_ids, sort_by_party_id-IsParallel, entries_of, zip_entries-snoc,
  sort_by_party_id-All,
}

module _ {Uri Commitments PublicKey : Type 0} where
  -- What a node answered, from an entry of the sessions of an epoch.
  abbrev pub answer_of :
      ℕ → Entry Uri Commitments PublicKey → Uri × OprfResponse Commitments PublicKey
  answer_of epoch entry = (
    entry.ws,
    record {
      commitments = entry.commitments;
      party_id = entry.party_id;
      key = entry.oprf_public_key;
      epoch = epoch;
    },
  )

  -- Threshold many sessions, with party ids that ascend.
  abbrev pub IsChosen : ℕ → OprfSessions Uri Commitments PublicKey → Type 0
  IsChosen threshold self =
      (length self.party_ids ≡ threshold) × IsParallel self × Ascends self.party_ids

  -- Every entry of the sessions is an answer of their epoch for which `P` holds.
  abbrev pub EachAnswer :
      (Uri × OprfResponse Commitments PublicKey → Type 0)
      → OprfSessions Uri Commitments PublicKey
      → Type 0
  EachAnswer P self = All (λ entry. P (answer_of self.epoch entry)) (entries_of self)

module _ {Uri Commitments PublicKey : Type 0}
    (P : Uri × OprfResponse Commitments PublicKey → Type 0) where
  -- Sessions as the loop keeps them.
  abbrev IsOpen : OprfSessions Uri Commitments PublicKey → Type 0
  IsOpen self = IsParallel self × Distinct self.party_ids × EachAnswer P self

  Pushed :
      OprfSessions Uri Commitments PublicKey
      → Option (Result Uri (OprfSessions Uri Commitments PublicKey))
      → Type 0
  Pushed self none = ⊥
  Pushed self (some (err _)) = Unit
  Pushed self (some (ok new)) = IsOpen new × (new.epoch ≡ self.epoch)

  push_at-Pushed :
      (ws : Uri) (response : OprfResponse Commitments PublicKey)
      (self : OprfSessions Uri Commitments PublicKey) (at : Option ℕ)
      → IsOpen self
      → P (ws, response)
      → response.epoch ≡ self.epoch
      → position response.party_id self.party_ids ≡ at
      → Pushed self (push_at ws response self at)
  unfolding push_at Pushed
  push_at-Pushed ws response self none ((p, c, k), d, a) q s e = (
    (
      (grow _ _ _ _ p, grow _ _ _ _ c, grow _ _ _ _ k),
      Distinct-snoc self.party_ids response.party_id d
          (position-none response.party_id self.party_ids e),
      subst (All (λ entry. P (answer_of self.epoch entry)))
          (sym (
            zip_entries-snoc self.ws self.party_ids self.commitments self.oprf_public_keys
              (record {
                ws = ws;
                party_id = response.party_id;
                commitments = response.commitments;
                oprf_public_key = response.key;
              })
              p c k))
          (All-snoc (λ entry. P (answer_of self.epoch entry)) (entries_of self) _ a
            (subst (λ epoch. P (ws, record response { epoch = epoch })) s q)),
    ),
    refl,
  )
  push_at-Pushed ws response self (some i) ((p, _, _), _, _) q s e =
      let (service, found) =
        get_elem?-lt self.ws i
          (subst (λ n. i < n) p (position-lt response.party_id self.party_ids i e)) in
      rw found tt

  push-Pushed :
      (ws : Uri) (response : OprfResponse Commitments PublicKey)
      (self : OprfSessions Uri Commitments PublicKey)
      → IsOpen self
      → P (ws, response)
      → response.epoch ≡ self.epoch
      → Pushed self (push ws response self)
  unfolding push
  push-Pushed ws response self h q s = push_at-Pushed ws response self _ h q s refl

  entry_of-IsOpen :
      (epoch : ℕ) (sessions : List (OprfSessions Uri Commitments PublicKey))
      → All IsOpen sessions
      → IsOpen (entry_of epoch sessions) × ((entry_of epoch sessions).epoch ≡ epoch)
  unfolding entry_of with_capacity zip_entries
  entry_of-IsOpen epoch [] h = (((refl, refl, refl), tt, tt), refl)
  entry_of-IsOpen epoch (s ∷ sessions) (o, h) = elim (Bool-cases (s.epoch == epoch)) [
    | inl e ↦ rw e (o, (==_iff s.epoch epoch).0 e)
    | inr e ↦ rw e (entry_of-IsOpen epoch sessions h)
  ]

  set_entry-IsOpen :
      (new : OprfSessions Uri Commitments PublicKey)
      (sessions : List (OprfSessions Uri Commitments PublicKey))
      → IsOpen new
      → All IsOpen sessions
      → All IsOpen (set_entry new sessions)
  unfolding set_entry
  set_entry-IsOpen new [] o h = (o, tt)
  set_entry-IsOpen new (s ∷ sessions) o (os, h) = elim (Bool-cases (s.epoch == new.epoch)) [
    | inl e ↦ rw e (o, h)
    | inr e ↦ rw e (os, set_entry-IsOpen new sessions o h)
  ]

  sorted_answers :
      (self : OprfSessions Uri Commitments PublicKey)
      → EachAnswer P self
      → EachAnswer P (sort_by_party_id self)
  unfolding sort_by_party_id
  sorted_answers self = sort_by_party_id-All (λ entry. P (answer_of self.epoch entry)) self

  sort_by_party_id-IsChosen :
      (threshold : ℕ) (self : OprfSessions Uri Commitments PublicKey)
      → IsOpen self
      → length self.ws ≡ threshold
      → IsChosen threshold (sort_by_party_id self) × EachAnswer P (sort_by_party_id self)
  sort_by_party_id-IsChosen threshold self (h, d, a) e =
      let q = sort_by_party_id-party_ids self h in
      (
        (
          ap length q ∙ length-sort_unstable self.party_ids ∙ h.0 ∙ e,
          sort_by_party_id-IsParallel self,
          subst Ascends (sym q) (sort_unstable-Ascends self.party_ids d),
        ),
        sorted_answers self a,
      )

module _ {Uri Commitments PublicKey E : Type 0} where
  -- The answer is one of those that arrived.
  pub Among :
      Uri × OprfResponse Commitments PublicKey
      → List (Result (NodeError E) (Uri × OprfResponse Commitments PublicKey))
      → Type 0
  Among a [] = ⊥
  Among a (ok b ∷ results) = (a ≡ b) ⊎ Among a results
  Among a (err _ ∷ results) = Among a results

  -- Every answer that arrived has the property.
  Answered :
      (Uri × OprfResponse Commitments PublicKey → Type 0)
      → List (Result (NodeError E) (Uri × OprfResponse Commitments PublicKey))
      → Type 0
  Answered P [] = Unit
  Answered P (ok b ∷ results) = P b × Answered P results
  Answered P (err _ ∷ results) = Answered P results

  Answered-mono :
      (P Q : Uri × OprfResponse Commitments PublicKey → Type 0)
      (results : List (Result (NodeError E) (Uri × OprfResponse Commitments PublicKey)))
      → ((a : Uri × OprfResponse Commitments PublicKey) → P a → Q a)
      → Answered P results
      → Answered Q results
  unfolding Answered
  Answered-mono P Q [] f h = tt
  Answered-mono P Q (ok b ∷ results) f (p, h) = (f b p, Answered-mono P Q results f h)
  Answered-mono P Q (err _ ∷ results) f h = Answered-mono P Q results f h

  Answered-Among :
      (results : List (Result (NodeError E) (Uri × OprfResponse Commitments PublicKey)))
      → Answered (λ a. Among a results) results
  unfolding Answered Among
  Answered-Among [] = tt
  Answered-Among (ok b ∷ results) = (
    inl refl,
    Answered-mono (λ a. Among a results) (λ a. (a ≡ b) ⊎ Among a results) results (λ a. inr)
        (Answered-Among results),
  )
  Answered-Among (err _ ∷ results) = Answered-Among results

  -- No panic, and of the sessions that it returns each is an answer for which `P` holds.
  abbrev pub Ends :
      (Uri × OprfResponse Commitments PublicKey → Type 0)
      → ℕ
      → Option (Result (List (NodeError E)) (OprfSessions Uri Commitments PublicKey))
      → Type 0
  Ends P threshold none = ⊥
  Ends P threshold (some (err errors)) = Unit
  Ends P threshold (some (ok self)) = IsChosen threshold self × EachAnswer P self

  module _ (P : Uri × OprfResponse Commitments PublicKey → Type 0) where
    init_loop-Ends :
        (threshold : ℕ)
        (results : List (Result (NodeError E) (Uri × OprfResponse Commitments PublicKey)))
        (sessions : List (OprfSessions Uri Commitments PublicKey)) (errors : List (NodeError E))
        → Answered P results
        → All (IsOpen P) sessions
        → Ends P threshold (init_loop threshold results sessions errors)
    unfolding init_loop Pushed Answered
    init_loop-Ends threshold [] sessions errors a h = tt
    init_loop-Ends threshold (err e ∷ results) sessions errors a h =
        init_loop-Ends threshold results sessions (errors ++ (e ∷ [])) a h
    init_loop-Ends threshold (ok (ws, response) ∷ results) sessions errors a h =
        go (push ws response (entry_of response.epoch sessions))
          (push-Pushed P ws response (entry_of response.epoch sessions)
            (entry_of-IsOpen P response.epoch sessions h).0 a.0
            (sym (entry_of-IsOpen P response.epoch sessions h).1))
          (λ kept. init_loop-Ends threshold results kept errors a.1)
      where
        go :
            (r : Option (Result Uri (OprfSessions Uri Commitments PublicKey)))
            → Pushed P (entry_of response.epoch sessions) r
            → ((kept : List (OprfSessions Uri Commitments PublicKey))
                → All (IsOpen P) kept
                → Ends P threshold (init_loop threshold results kept errors))
            → Ends P threshold (elim r [
              | none ↦ none
              | some (err duplicate_service) ↦ init_loop threshold results sessions errors
              | some (ok epoch_session) ↦
                  let rest =
                    init_loop threshold results (set_entry epoch_session sessions) errors in
                  if length epoch_session.ws == threshold
                  then some (ok (sort_by_party_id epoch_session))
                  else rest
            ])
        go none p k = p
        go (some (err _)) p k = k sessions h
        go (some (ok new)) (o, _) k = elim (Bool-cases (length new.ws == threshold)) [
          | inl e ↦
              rw e (
                sort_by_party_id-IsChosen P threshold new o
                  ((==_iff (length new.ws) threshold).0 e))
          | inr e ↦ rw e (k (set_entry new sessions) (set_entry-IsOpen P new sessions o h))
        ]

  -- `init_sessions` does not panic. When it returns sessions, they are threshold many, their party
  -- ids ascend, the lists of services, party ids, commitments and keys are of the same length, and
  -- what stands at one place of them comes together from one answer that arrived, of the epoch of
  -- the sessions.
  pub init_sessions-Ends :
      (threshold : ℕ)
      (results : List (Result (NodeError E) (Uri × OprfResponse Commitments PublicKey)))
      → Ends (λ answer. Among answer results) threshold (init_sessions threshold results)
  unfolding init_sessions
  init_sessions-Ends threshold results =
      init_loop-Ends (λ answer. Among answer results) threshold results [] []
        (Answered-Among results) tt
