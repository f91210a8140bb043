-- ===== src/KeyGen/Db/Keygens.antt =====
-- How the statements on `in_progress_keygens` change the rows of a key.
use oprf_service.Base.{ℕ, ◌≡◌, refl, List, [], ◌∷◌, none, some, arith, ◌⊎◌, inl, ◌≢◌}
use oprf_service.KeyGen.Db.{
  KeygenRow, Db, delete_intermediates_inner, fetch_keygen, store_intermediates,
  try_store_keygen_intermediates,
}

module _ {Share Intermediates : Type 0} where
  pub fetch_keygen-delete :
      (id epoch : ℕ) (rows : List (KeygenRow Share Intermediates))
      → fetch_keygen id epoch (delete_intermediates_inner id rows).1 ≡ none
  unfolding fetch_keygen delete_intermediates_inner
  fetch_keygen-delete id epoch [] = refl
  fetch_keygen-delete id epoch (row ∷ rows) = ground (arith, fetch_keygen-delete id epoch rows)

  pub fetch_keygen-delete_other :
      (id other epoch : ℕ) (rows : List (KeygenRow Share Intermediates))
      → other ≢ id
      → fetch_keygen other epoch (delete_intermediates_inner id rows).1
        ≡ fetch_keygen other epoch rows
  unfolding fetch_keygen delete_intermediates_inner
  fetch_keygen-delete_other id other epoch [] h = refl
  fetch_keygen-delete_other id other epoch (row ∷ rows) h =
      ground (arith, fetch_keygen-delete_other id other epoch rows h)

  pub delete_intermediates_inner-twice :
      (id : ℕ) (rows : List (KeygenRow Share Intermediates))
      → (delete_intermediates_inner id (delete_intermediates_inner id rows).1).1
        ≡ (delete_intermediates_inner id rows).1
  unfolding delete_intermediates_inner
  delete_intermediates_inner-twice id [] = refl
  delete_intermediates_inner-twice id (row ∷ rows) =
      ground (arith, delete_intermediates_inner-twice id rows)

  pub store_intermediates-fetch :
      (id epoch : ℕ) (v : Intermediates) (rows : List (KeygenRow Share Intermediates))
      → fetch_keygen id epoch (store_intermediates id epoch v rows).1
        ≡ some (store_intermediates id epoch v rows).0
  unfolding store_intermediates fetch_keygen
  store_intermediates-fetch id epoch v [] = ground arith
  store_intermediates-fetch id epoch v (row ∷ rows) =
      ground (arith, store_intermediates-fetch id epoch v rows)

  pub store_intermediates-stored :
      (id epoch : ℕ) (v : Intermediates) (rows : List (KeygenRow Share Intermediates))
      → ((fetch_keygen id epoch rows ≡ none) × ((store_intermediates id epoch v rows).0 ≡ v))
        ⊎ (fetch_keygen id epoch rows ≡ some (store_intermediates id epoch v rows).0)
  unfolding store_intermediates fetch_keygen
  store_intermediates-stored id epoch v [] = inl (refl, refl)
  store_intermediates-stored id epoch v (row ∷ rows) =
      ground (arith, store_intermediates-stored id epoch v rows)

  pub store_intermediates-again :
      (id epoch : ℕ) (v w : Intermediates) (rows : List (KeygenRow Share Intermediates))
      → store_intermediates id epoch w (store_intermediates id epoch v rows).1
        ≡ store_intermediates id epoch v rows
  unfolding store_intermediates
  store_intermediates-again id epoch v w [] = ground arith
  store_intermediates-again id epoch v w (row ∷ rows) =
      ground (arith, store_intermediates-again id epoch v w rows)

module _ {Share PublicKey Intermediates : Type 0} where
  -- The first intermediates for a key and epoch win: storing others later changes nothing, and both
  -- calls return the first ones.
  pub try_store_keygen_intermediates-again :
      (id epoch : ℕ) (v w : Intermediates) (db : Db Share PublicKey Intermediates)
      → try_store_keygen_intermediates id epoch w (try_store_keygen_intermediates id epoch v db).1
        ≡ try_store_keygen_intermediates id epoch v db
  unfolding try_store_keygen_intermediates
  try_store_keygen_intermediates-again id epoch v w db =
      rw (store_intermediates-again id epoch v w db.in_progress_keygens) refl
