-- ===== src/KeyGen/Db/Rows.antt =====
-- How the statements on `shares` change the row of a key.
use oprf_service.Base.{
  ltb, ◌≢◌, ℕ, ◌≤◌, ◌≡◌, refl, subst, List, [], ◌∷◌, true, not, ◌||◌, false, Option, none, some,
  Result, ok, err, arith, ◌==◌, if◌then◌else◌, All,
}
use oprf_service.KeyGen.Db.{
  db_error, check_violation, ShareRow, PostgresDbError, deleted_share_null,
  get_share_by_epoch_inner, soft_delete_shares_inner, update_share,
  store_confirmed_dlog_share_inner,
}

module _ {Share PublicKey : Type 0} where
  -- The row of a key.
  unfoldable pub find_row : ℕ → List (ShareRow Share PublicKey) → Option (ShareRow Share PublicKey)
  find_row id [] = none
  find_row id (row ∷ rows) = let rest = find_row id rows in if row.id == id then some row else rest

  -- A row may be made; once made it stays, its epoch never falls, and a deleted one stays deleted.
  abbrev pub Later : Option (ShareRow Share PublicKey) → Option (ShareRow Share PublicKey) → Type 0
  Later none new = Unit
  Later (some row) none = ⊥
  Later (some row) (some row') =
      (row.epoch ≤ row'.epoch) × ((not row.deleted || row'.deleted) ≡ true)

  -- The table's constraint holds of every row.
  abbrev pub IsChecked : List (ShareRow Share PublicKey) → Type 0
  IsChecked rows = All (λ row. deleted_share_null row ≡ true) rows

  pub Later-refl : (row : Option (ShareRow Share PublicKey)) → Later row row
  Later-refl none = tt
  Later-refl (some row) = ground arith

  pub Later-trans : (a b c : Option (ShareRow Share PublicKey)) → Later a b → Later b c → Later a c
  Later-trans none b c h k = tt
  Later-trans (some a) none c h k = absurd h
  Later-trans (some a) (some b) none h k = absurd k
  Later-trans (some a) (some b) (some c) (h, h') (k, k') = ground arith

  pub soft_delete_shares_inner-Later :
      (k id : ℕ) (rows : List (ShareRow Share PublicKey))
      → Later (find_row k rows) (find_row k (soft_delete_shares_inner id rows).1)
  unfolding find_row soft_delete_shares_inner
  soft_delete_shares_inner-Later k id [] = tt
  soft_delete_shares_inner-Later k id (row ∷ rows) =
      ground (arith, soft_delete_shares_inner-Later k id rows)

  pub soft_delete_shares_inner-IsChecked :
      (id : ℕ) (rows : List (ShareRow Share PublicKey))
      → IsChecked rows
      → IsChecked (soft_delete_shares_inner id rows).1
  unfolding soft_delete_shares_inner deleted_share_null
  soft_delete_shares_inner-IsChecked id [] h = tt
  soft_delete_shares_inner-IsChecked id (row ∷ rows) h =
      ground (arith, soft_delete_shares_inner-IsChecked id rows)

  -- A property of the table that a statement leaves, when it leaves one.
  abbrev pub Leaves :
      (List (ShareRow Share PublicKey) → Type 0)
      → Result PostgresDbError (ℕ × List (ShareRow Share PublicKey))
      → Type 0
  Leaves P (ok (n, rows)) = P rows
  Leaves P (err _) = Unit

  pub store_confirmed_dlog_share_inner-Later :
      (k id epoch : ℕ) (public_key : PublicKey) (share : Share)
      (rows : List (ShareRow Share PublicKey))
      → Leaves
          (λ rows'. Later (find_row k rows) (find_row k rows'))
          (store_confirmed_dlog_share_inner id epoch public_key share rows)
  unfolding find_row store_confirmed_dlog_share_inner update_share
  store_confirmed_dlog_share_inner-Later k id epoch public_key share [] = tt
  store_confirmed_dlog_share_inner-Later k id epoch public_key share (row ∷ rows) =
      ground (arith, store_confirmed_dlog_share_inner-Later k id epoch public_key share rows)

  pub store_confirmed_dlog_share_inner-IsChecked :
      (id epoch : ℕ) (public_key : PublicKey) (share : Share)
      (rows : List (ShareRow Share PublicKey))
      → IsChecked rows
      → Leaves IsChecked (store_confirmed_dlog_share_inner id epoch public_key share rows)
  unfolding store_confirmed_dlog_share_inner update_share deleted_share_null
  store_confirmed_dlog_share_inner-IsChecked id epoch public_key share [] h = ground arith
  store_confirmed_dlog_share_inner-IsChecked id epoch public_key share (row ∷ rows) h =
      ground (arith, store_confirmed_dlog_share_inner-IsChecked id epoch public_key share rows h.1)

  -- Where one row was written, the share of the key and epoch is the new one.
  abbrev pub Stored :
      ℕ → ℕ → Share → Result PostgresDbError (ℕ × List (ShareRow Share PublicKey)) → Type 0
  Stored id epoch share (ok (n, rows)) =
      n ≡ 1 → get_share_by_epoch_inner id epoch rows ≡ ok (some share)
  Stored id epoch share (err _) = Unit

  pub store_confirmed_dlog_share_inner-Stored :
      (id epoch : ℕ) (public_key : PublicKey) (share : Share)
      (rows : List (ShareRow Share PublicKey))
      → Stored id epoch share (store_confirmed_dlog_share_inner id epoch public_key share rows)
  unfolding get_share_by_epoch_inner store_confirmed_dlog_share_inner update_share
      deleted_share_null
  store_confirmed_dlog_share_inner-Stored id epoch public_key share [] = ground arith
  store_confirmed_dlog_share_inner-Stored id epoch public_key share (row ∷ rows) =
      ground (arith, store_confirmed_dlog_share_inner-Stored id epoch public_key share rows)

  -- The primary key.
  abbrev pub IsKeyed : List (ShareRow Share PublicKey) → Type 0
  IsKeyed [] = Unit
  IsKeyed (row ∷ rows) = All (λ other. row.id ≢ other.id) rows × IsKeyed rows

  soft_delete_shares_inner-other :
      (k id : ℕ) (rows : List (ShareRow Share PublicKey))
      → All (λ other. k ≢ other.id) rows
      → All (λ other. k ≢ other.id) (soft_delete_shares_inner id rows).1
  unfolding soft_delete_shares_inner
  soft_delete_shares_inner-other k id [] h = tt
  soft_delete_shares_inner-other k id (row ∷ rows) h =
      ground (arith, soft_delete_shares_inner-other k id rows h.1)

  pub soft_delete_shares_inner-IsKeyed :
      (id : ℕ) (rows : List (ShareRow Share PublicKey))
      → IsKeyed rows
      → IsKeyed (soft_delete_shares_inner id rows).1
  unfolding soft_delete_shares_inner
  soft_delete_shares_inner-IsKeyed id [] h = tt
  soft_delete_shares_inner-IsKeyed id (row ∷ rows) h = ground (
    arith,
    soft_delete_shares_inner-IsKeyed id rows h.1,
    soft_delete_shares_inner-other row.id id rows h.0,
  )

  store_confirmed_dlog_share_inner-other :
      (k id epoch : ℕ) (public_key : PublicKey) (share : Share)
      (rows : List (ShareRow Share PublicKey))
      → k ≢ id
      → All (λ other. k ≢ other.id) rows
      → Leaves
          (All (λ other. k ≢ other.id))
          (store_confirmed_dlog_share_inner id epoch public_key share rows)
  unfolding store_confirmed_dlog_share_inner update_share
  store_confirmed_dlog_share_inner-other k id epoch public_key share [] ne h = (ne, tt)
  store_confirmed_dlog_share_inner-other k id epoch public_key share (row ∷ rows) ne h =
      ground (arith, store_confirmed_dlog_share_inner-other k id epoch public_key share rows ne h.1)

  pub store_confirmed_dlog_share_inner-IsKeyed :
      (id epoch : ℕ) (public_key : PublicKey) (share : Share)
      (rows : List (ShareRow Share PublicKey))
      → IsKeyed rows
      → Leaves IsKeyed (store_confirmed_dlog_share_inner id epoch public_key share rows)
  unfolding store_confirmed_dlog_share_inner update_share
  store_confirmed_dlog_share_inner-IsKeyed id epoch public_key share [] h = (tt, tt)
  store_confirmed_dlog_share_inner-IsKeyed id epoch public_key share (row ∷ rows) h = ground (
    arith,
    store_confirmed_dlog_share_inner-IsKeyed id epoch public_key share rows h.1,
    (λ (ne : row.id ≢ id).
        store_confirmed_dlog_share_inner-other row.id id epoch public_key share rows ne h.0),
  )

  pub get_share_by_epoch_inner-other :
      (id epoch : ℕ) (rows : List (ShareRow Share PublicKey))
      → All (λ other. id ≢ other.id) rows
      → get_share_by_epoch_inner id epoch rows ≡ ok none
  unfolding get_share_by_epoch_inner
  get_share_by_epoch_inner-other id epoch [] h = refl
  get_share_by_epoch_inner-other id epoch (row ∷ rows) h =
      ground (arith, get_share_by_epoch_inner-other id epoch rows h.1)

  -- A deleted key has no share of any epoch.
  pub get_share_by_epoch_inner-deleted :
      (id epoch : ℕ) (rows : List (ShareRow Share PublicKey)) (row : ShareRow Share PublicKey)
      → IsKeyed rows
      → find_row id rows ≡ some row
      → row.deleted ≡ true
      → get_share_by_epoch_inner id epoch rows ≡ ok none
  unfolding get_share_by_epoch_inner find_row
  get_share_by_epoch_inner-deleted id epoch [] row h f d = refl
  get_share_by_epoch_inner-deleted id epoch (first ∷ rows) row h f d = ground (
    arith,
    get_share_by_epoch_inner-deleted id epoch rows row h.1,
    (λ (e : first.id ≡ id).
        get_share_by_epoch_inner-other id epoch rows
          (subst (λ t. All (λ other. t ≢ other.id) rows) e h.0)),
  )

  -- A confirmed share is refused by the constraint, or by the epoch of the deleted row.
  pub store_confirmed_dlog_share_inner-deleted :
      (id epoch : ℕ) (public_key : PublicKey) (share : Share)
      (rows : List (ShareRow Share PublicKey)) (row : ShareRow Share PublicKey)
      → find_row id rows ≡ some row
      → row.deleted ≡ true
      → (ltb row.epoch epoch ≡ true
          → store_confirmed_dlog_share_inner id epoch public_key share rows
            ≡ err (db_error check_violation))
        × (ltb row.epoch epoch ≡ false
            → store_confirmed_dlog_share_inner id epoch public_key share rows ≡ ok (0, rows))
  unfolding store_confirmed_dlog_share_inner update_share deleted_share_null find_row
  store_confirmed_dlog_share_inner-deleted id epoch public_key share [] row f d = ground arith
  store_confirmed_dlog_share_inner-deleted id epoch public_key share (first ∷ rows) row f d =
      ground (arith, store_confirmed_dlog_share_inner-deleted id epoch public_key share rows row)
