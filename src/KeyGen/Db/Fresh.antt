-- ===== src/KeyGen/Db/Fresh.antt =====
-- A key that the tables do not know: its intermediates, its pending share and its confirmation.
use oprf_service.Base.{
  ℕ, ◌≡◌, refl, sym, ap, ◌∙◌, List, [], ◌∷◌, none, some, Result, ok, err, bind_ok, map_err, arith,
  subst,
}
use oprf_service.KeyGen.Db.{
  Db, ShareRow, KeygenRow, PostgresDbError, fetch_keygen, store_intermediates, store_pending,
  fetch_pending_share_inner, get_share_by_epoch_inner, get_share_by_epoch,
  store_confirmed_dlog_share_inner, try_store_keygen_intermediates, fetch_keygen_intermediates,
  store_pending_dlog_share, confirm_dlog_share, confirm_transaction, confirm_stored,
  confirm_pending, commit_confirmed, settle, without_intermediates, from_db_error,
}
use oprf_service.KeyGen.Db.Rows.{find_row}
use oprf_service.KeyGen.Db.Keygens.{store_intermediates-fetch}

module _ {Share Intermediates : Type 0} where
  store_pending-none :
      (id epoch : ℕ) (share : Share) (rows : List (KeygenRow Share Intermediates))
      → fetch_keygen id epoch rows ≡ none
      → (store_pending id epoch share rows).0 ≡ 0
  unfolding store_pending fetch_keygen
  store_pending-none id epoch share [] h = refl
  store_pending-none id epoch share (row ∷ rows) h =
      ground (arith, h, store_pending-none id epoch share rows)

  store_intermediates-fresh :
      (id epoch : ℕ) (v : Intermediates) (rows : List (KeygenRow Share Intermediates))
      → fetch_keygen id epoch rows ≡ none
      → (store_intermediates id epoch v rows).0 ≡ v
  unfolding store_intermediates fetch_keygen
  store_intermediates-fresh id epoch v [] h = refl
  store_intermediates-fresh id epoch v (row ∷ rows) h =
      ground (arith, h, store_intermediates-fresh id epoch v rows)

  store_pending-fresh :
      (id epoch : ℕ) (v : Intermediates) (share : Share)
      (rows : List (KeygenRow Share Intermediates))
      → fetch_keygen id epoch rows ≡ none
      → (store_pending id epoch share (store_intermediates id epoch v rows).1).0 ≡ 1
  unfolding store_pending store_intermediates fetch_keygen
  store_pending-fresh id epoch v share [] h = ground arith
  store_pending-fresh id epoch v share (row ∷ rows) h =
      ground (arith, h, store_pending-fresh id epoch v share rows)

  fetch_pending-fresh :
      (id epoch : ℕ) (v : Intermediates) (share : Share)
      (rows : List (KeygenRow Share Intermediates))
      → fetch_keygen id epoch rows ≡ none
      → fetch_pending_share_inner id epoch
          (store_pending id epoch share (store_intermediates id epoch v rows).1).1
        ≡ some share
  unfolding store_pending store_intermediates fetch_keygen fetch_pending_share_inner
  fetch_pending-fresh id epoch v share [] h = ground arith
  fetch_pending-fresh id epoch v share (row ∷ rows) h =
      ground (arith, h, fetch_pending-fresh id epoch v share rows)

module _ {Share PublicKey : Type 0} where
  get_share_by_epoch_inner-none :
      (id epoch : ℕ) (rows : List (ShareRow Share PublicKey))
      → find_row id rows ≡ none
      → get_share_by_epoch_inner id epoch rows ≡ ok none
  unfolding get_share_by_epoch_inner find_row
  get_share_by_epoch_inner-none id epoch [] h = refl
  get_share_by_epoch_inner-none id epoch (row ∷ rows) h =
      ground (arith, h, get_share_by_epoch_inner-none id epoch rows)

  -- One row is affected, and the share can be read.
  abbrev Stored :
      ℕ → ℕ → Share → Result PostgresDbError (ℕ × List (ShareRow Share PublicKey)) → Type 0
  Stored id epoch share (err e) = ⊥
  Stored id epoch share (ok (n, rows)) =
      (n ≡ 1) × (get_share_by_epoch_inner id epoch rows ≡ ok (some share))

  store_confirmed-fresh :
      (id epoch : ℕ) (public_key : PublicKey) (share : Share)
      (rows : List (ShareRow Share PublicKey))
      → find_row id rows ≡ none
      → Stored id epoch share (store_confirmed_dlog_share_inner id epoch public_key share rows)
  unfolding store_confirmed_dlog_share_inner get_share_by_epoch_inner find_row
  store_confirmed-fresh id epoch public_key share [] h = ground arith
  store_confirmed-fresh id epoch public_key share (row ∷ rows) h =
      ground (arith, h, store_confirmed-fresh id epoch public_key share rows)

module _ {Share PublicKey Intermediates : Type 0} where
  module _ (id epoch : ℕ) (v : Intermediates) (share : Share) (public_key : PublicKey)
      (db : Db Share PublicKey Intermediates) (no_row : find_row id db.shares ≡ none)
      (no_keygen : fetch_keygen id epoch db.in_progress_keygens ≡ none) where
    abbrev pub begun : Db Share PublicKey Intermediates
    begun = (try_store_keygen_intermediates id epoch v db).1

    abbrev pub received : Db Share PublicKey Intermediates
    received = (store_pending_dlog_share id epoch share begun).1

    abbrev pub finished : Db Share PublicKey Intermediates
    finished = (confirm_dlog_share id epoch public_key received).1

    pub try_store-fresh : try_store_keygen_intermediates id epoch v db ≡ (v, begun)
    unfolding try_store_keygen_intermediates
    try_store-fresh =
        ap (λ t. (t, begun)) (store_intermediates-fresh id epoch v db.in_progress_keygens no_keygen)

    pub fetch-fresh : fetch_keygen_intermediates id epoch begun ≡ ok v
    unfolding try_store_keygen_intermediates fetch_keygen_intermediates
    fetch-fresh =
        rw
          (
            fetch_keygen_intermediates,
            store_intermediates-fetch id epoch v db.in_progress_keygens,
            store_intermediates-fresh id epoch v db.in_progress_keygens no_keygen,
          )
          refl

    pub store_pending_dlog_share-fresh :
        store_pending_dlog_share id epoch share begun ≡ (ok tt, received)
    unfolding try_store_keygen_intermediates store_pending_dlog_share
    store_pending_dlog_share-fresh =
        rw (store_pending-fresh id epoch v share db.in_progress_keygens no_keygen) refl

    -- The result of the transaction.
    confirm_transaction-fresh :
        (db' : Db Share PublicKey Intermediates) × (confirm_transaction id epoch public_key received
          ≡ ok db')
        × (get_share_by_epoch_inner id epoch db'.shares ≡ ok (some share))
    unfolding try_store_keygen_intermediates store_pending_dlog_share confirm_transaction
        confirm_stored confirm_pending commit_confirmed without_intermediates
    confirm_transaction-fresh =
        rw
          (
            get_share_by_epoch_inner-none id epoch db.shares no_row,
            fetch_pending-fresh id epoch v share db.in_progress_keygens no_keygen,
          )
          (go (store_confirmed_dlog_share_inner id epoch public_key share db.shares)
            (store_confirmed-fresh id epoch public_key share db.shares no_row))
      where
        go :
            (r : Result PostgresDbError (ℕ × List (ShareRow Share PublicKey)))
            → Stored id epoch share r
            → (db' : Db Share PublicKey Intermediates) × (bind_ok r (commit_confirmed id received)
                ≡ ok db')
              × (get_share_by_epoch_inner id epoch db'.shares ≡ ok (some share))
        go (err e) h = absurd h
        go (ok (n, rows)) (e, h) =
            (without_intermediates id (record received { shares = rows }), rw e refl, h)

    pub confirm_dlog_share-fresh :
        (confirm_dlog_share id epoch public_key received ≡ (ok tt, finished))
        × (get_share_by_epoch id epoch finished ≡ ok (some share))
    unfolding confirm_dlog_share get_share_by_epoch settle store_pending_dlog_share
        confirm_transaction-fresh
    confirm_dlog_share-fresh =
        let (db', e, h) = confirm_transaction-fresh in
        (
          (let t = ap (settle received) e in t ∙ ap (λ d. (ok tt, d)) (sym (ap (λ t. t.1) t))),
          subst (λ t. get_share_by_epoch id epoch (settle received t).1 ≡ ok (some share)) (sym e)
              (ap (map_err from_db_error) h),
        )
