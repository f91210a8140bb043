-- ===== src/Client/Sessions/Sorted.antt =====
-- Sorting the sessions sorts their party ids.
use oprf_service.Base.{
  ℕ, ◌≡◌, refl, sym, ap, ◌∙◌, List, [], ◌∷◌, ◌++◌, All, subst, map, length, leb, Bool-cases, inl,
  inr, sort_unstable, insert_sorted, arith, length-map,
}
use oprf_service.Client.Sessions.{
  OprfSessions, Entry, zip_entries, insert_by_key, sort_by_key, sort_by_party_id,
}

module _ {Uri Commitments PublicKey : Type 0} where
  -- The parallel lists have one length.
  abbrev pub IsParallel : OprfSessions Uri Commitments PublicKey → Type 0
  IsParallel self =
      (length self.party_ids ≡ length self.ws)
      × (length self.commitments ≡ length self.ws)
      × (length self.oprf_public_keys ≡ length self.ws)

  insert_by_key-map :
      (x : Entry Uri Commitments PublicKey) (xs : List (Entry Uri Commitments PublicKey))
      → map (λ entry. entry.party_id) (insert_by_key x xs)
        ≡ insert_sorted x.party_id (map (λ entry. entry.party_id) xs)
  unfolding insert_by_key insert_sorted
  insert_by_key-map x [] = refl
  insert_by_key-map x (y ∷ ys) = elim (Bool-cases (leb x.party_id y.party_id)) [
    | inl e ↦ rw e refl
    | inr e ↦ rw e (ap (λ t. y.party_id ∷ t) (insert_by_key-map x ys))
  ]

  sort_by_key-map :
      (xs : List (Entry Uri Commitments PublicKey))
      → map (λ entry. entry.party_id) (sort_by_key xs)
        ≡ sort_unstable (map (λ entry. entry.party_id) xs)
  unfolding sort_by_key sort_unstable
  sort_by_key-map [] = refl
  sort_by_key-map (x ∷ xs) =
      insert_by_key-map x (sort_by_key xs) ∙ ap (insert_sorted x.party_id) (sort_by_key-map xs)

  zip_entries-party_ids :
      (ws : List Uri) (ps : List ℕ) (cs : List Commitments) (ks : List PublicKey)
      → length ps ≡ length ws
      → length cs ≡ length ws
      → length ks ≡ length ws
      → map (λ entry. entry.party_id) (zip_entries ws ps cs ks) ≡ ps
  unfolding zip_entries
  zip_entries-party_ids [] [] cs ks p c k = refl
  zip_entries-party_ids (w ∷ ws) (q ∷ ps) (d ∷ cs) (l ∷ ks) p c k =
      ap (λ t. q ∷ t)
        (zip_entries-party_ids ws ps cs ks (omega (arith, p)) (omega (arith, c)) (omega (arith, k)))
  zip_entries-party_ids [] (q ∷ ps) cs ks p c k = absurd (omega (arith, p))
  zip_entries-party_ids (w ∷ ws) [] cs ks p c k = absurd (omega (arith, p))
  zip_entries-party_ids (w ∷ ws) (q ∷ ps) [] ks p c k = absurd (omega (arith, c))
  zip_entries-party_ids (w ∷ ws) (q ∷ ps) (d ∷ cs) [] p c k = absurd (omega (arith, k))

  pub sort_by_party_id-party_ids :
      (self : OprfSessions Uri Commitments PublicKey)
      → IsParallel self
      → (sort_by_party_id self).party_ids ≡ sort_unstable self.party_ids
  unfolding sort_by_party_id
  sort_by_party_id-party_ids self (p, c, k) =
      sort_by_key-map _
      ∙ ap sort_unstable (
          zip_entries-party_ids self.ws self.party_ids self.commitments self.oprf_public_keys p c k)

  pub sort_by_party_id-IsParallel :
      (self : OprfSessions Uri Commitments PublicKey) → IsParallel (sort_by_party_id self)
  unfolding sort_by_party_id
  sort_by_party_id-IsParallel self =
      let combined =
        sort_by_key (zip_entries self.ws self.party_ids self.commitments self.oprf_public_keys) in
      (
        length-map (λ entry. entry.party_id) combined
            ∙ sym (length-map (λ entry. entry.ws) combined),
        length-map (λ entry. entry.commitments) combined
            ∙ sym (length-map (λ entry. entry.ws) combined),
        length-map (λ entry. entry.oprf_public_key) combined
            ∙ sym (length-map (λ entry. entry.ws) combined),
      )

  -- The sessions as a list of entries.
  abbrev pub entries_of :
      OprfSessions Uri Commitments PublicKey → List (Entry Uri Commitments PublicKey)
  entries_of self = zip_entries self.ws self.party_ids self.commitments self.oprf_public_keys

  pub zip_entries-snoc :
      (ws : List Uri) (ps : List ℕ) (cs : List Commitments) (ks : List PublicKey)
      (x : Entry Uri Commitments PublicKey)
      → length ps ≡ length ws
      → length cs ≡ length ws
      → length ks ≡ length ws
      → zip_entries
          (ws ++ (x.ws ∷ []))
          (ps ++ (x.party_id ∷ []))
          (cs ++ (x.commitments ∷ []))
          (ks ++ (x.oprf_public_key ∷ []))
        ≡ zip_entries ws ps cs ks ++ (x ∷ [])
  unfolding zip_entries
  zip_entries-snoc [] [] [] [] x p c k = refl
  zip_entries-snoc (w ∷ ws) (q ∷ ps) (d ∷ cs) (l ∷ ks) x p c k =
      ap (λ t. record { ws = w; party_id = q; commitments = d; oprf_public_key = l } ∷ t)
        (zip_entries-snoc ws ps cs ks x (omega (arith, p)) (omega (arith, c)) (omega (arith, k)))
  zip_entries-snoc [] (q ∷ ps) cs ks x p c k = absurd (omega (arith, p))
  zip_entries-snoc [] [] (d ∷ cs) ks x p c k = absurd (omega (arith, c))
  zip_entries-snoc [] [] [] (l ∷ ks) x p c k = absurd (omega (arith, k))
  zip_entries-snoc (w ∷ ws) [] cs ks x p c k = absurd (omega (arith, p))
  zip_entries-snoc (w ∷ ws) (q ∷ ps) [] ks x p c k = absurd (omega (arith, c))
  zip_entries-snoc (w ∷ ws) (q ∷ ps) (d ∷ cs) [] x p c k = absurd (omega (arith, k))

  zip_entries-map :
      (xs : List (Entry Uri Commitments PublicKey))
      → zip_entries
          (map (λ x. x.ws) xs)
          (map (λ x. x.party_id) xs)
          (map (λ x. x.commitments) xs)
          (map (λ x. x.oprf_public_key) xs)
        ≡ xs
  unfolding zip_entries
  zip_entries-map [] = refl
  zip_entries-map (x ∷ xs) = ap (λ t. x ∷ t) (zip_entries-map xs)

  module _ (P : Entry Uri Commitments PublicKey → Type 0) where
    insert_by_key-All :
        (x : Entry Uri Commitments PublicKey) (xs : List (Entry Uri Commitments PublicKey))
        → P x
        → All P xs
        → All P (insert_by_key x xs)
    unfolding insert_by_key
    insert_by_key-All x [] p h = (p, tt)
    insert_by_key-All x (y ∷ ys) p h = elim (Bool-cases (leb x.party_id y.party_id)) [
      | inl e ↦ rw e (p, h)
      | inr e ↦ rw e (h.0, insert_by_key-All x ys p h.1)
    ]

    sort_by_key-All :
        (xs : List (Entry Uri Commitments PublicKey)) → All P xs → All P (sort_by_key xs)
    unfolding sort_by_key
    sort_by_key-All [] h = tt
    sort_by_key-All (x ∷ xs) h = insert_by_key-All x (sort_by_key xs) h.0 (sort_by_key-All xs h.1)

    -- Sorting keeps what each session has together.
    pub sort_by_party_id-All :
        (self : OprfSessions Uri Commitments PublicKey)
        → All P (entries_of self)
        → All P (entries_of (sort_by_party_id self))
    unfolding sort_by_party_id
    sort_by_party_id-All self h =
        subst (All P) (sym (zip_entries-map (sort_by_key (entries_of self))))
          (sort_by_key-All (entries_of self) h)
