-- ===== src/KeyGen/Db/History.antt =====
-- The database over any sequence of calls.
use oprf_service.Base.{
  map_err, ap, sym, subst, arith, ℕ, ◌≡◌, refl, List, true, Option, none, some, Result, ok, err,
  Bool-cases, inl, inr, ◌==◌, bind_ok,
}
use oprf_service.KeyGen.Db.{
  Db, ShareRow, NodeInformation, ChainCursor, PostgresDbError, store_chain_cursor,
  store_node_information, delete_oprf_key_material, try_store_keygen_intermediates, abort_keygen,
  store_pending_dlog_share, confirm_dlog_share, confirm_transaction, confirm_stored,
  confirm_pending, commit_confirmed, settle, without_intermediates,
  store_confirmed_dlog_share_inner, get_share_by_epoch_inner, fetch_pending_share_inner,
  get_share_by_epoch, soft_delete_shares_inner, from_db_error,
}
use oprf_service.KeyGen.Db.Rows.{
  find_row, Later, Later-refl, Later-trans, IsChecked, IsKeyed, Leaves,
  soft_delete_shares_inner-Later, soft_delete_shares_inner-IsChecked,
  soft_delete_shares_inner-IsKeyed, store_confirmed_dlog_share_inner-Later,
  store_confirmed_dlog_share_inner-IsChecked, store_confirmed_dlog_share_inner-IsKeyed,
  get_share_by_epoch_inner-deleted,
}

module _ {Share PublicKey : Type 0} where
  get_share_by_epoch_inner-Later :
      (id epoch : ℕ) (rows : List (ShareRow Share PublicKey)) (old : ShareRow Share PublicKey)
      (new : Option (ShareRow Share PublicKey))
      → IsKeyed rows
      → find_row id rows ≡ new
      → Later (some old) new
      → old.deleted ≡ true
      → get_share_by_epoch_inner id epoch rows ≡ ok none
  get_share_by_epoch_inner-Later id epoch rows old none k f l d = absurd l
  get_share_by_epoch_inner-Later id epoch rows old (some row) k f l d =
      get_share_by_epoch_inner-deleted id epoch rows row k f (ground (arith, l.1, d))

any-Leaves :
    {Q Share PublicKey : Type 0} (r : Result PostgresDbError (ℕ × List (ShareRow Share PublicKey)))
    → Q
    → Leaves (λ rows. Q) r
any-Leaves (err e) q = tt
any-Leaves (ok (n, rows)) q = q

module _ {Share PublicKey Intermediates : Type 0} where
  -- One call that writes.
  pub data Step : Db Share PublicKey Intermediates → Db Share PublicKey Intermediates → Type 0 where
    store_cursor :
        (cursor : ChainCursor) {db : Db Share PublicKey Intermediates}
        → Step db (store_chain_cursor cursor db)
    store_node :
        (node_information : NodeInformation) {db : Db Share PublicKey Intermediates}
        → Step db (store_node_information node_information db)
    delete :
        (id : ℕ) {db : Db Share PublicKey Intermediates} → Step db (delete_oprf_key_material id db)
    try_store :
        (id epoch : ℕ) (intermediates : Intermediates) {db : Db Share PublicKey Intermediates}
        → Step db (try_store_keygen_intermediates id epoch intermediates db).1
    abort : (id : ℕ) {db : Db Share PublicKey Intermediates} → Step db (abort_keygen id db)
    store_share :
        (id epoch : ℕ) (share : Share) {db : Db Share PublicKey Intermediates}
        → Step db (store_pending_dlog_share id epoch share db).1
    confirm :
        (id epoch : ℕ) (public_key : PublicKey) {db : Db Share PublicKey Intermediates}
        → Step db (confirm_dlog_share id epoch public_key db).1

  -- Any number of calls.
  pub data Steps
      : Db Share PublicKey Intermediates → Db Share PublicKey Intermediates → Type 0 where
    done : {db : Db Share PublicKey Intermediates} → Steps db db
    next : {a b c : Db Share PublicKey Intermediates} → Step a b → Steps b c → Steps a c

  -- A property of what is there before a confirmation, of what is left without the intermediates,
  -- and of that with the new table of shares, holds after the confirmation.
  pub confirm_dlog_share-Keeps :
      (P : Db Share PublicKey Intermediates → Type 0) (id epoch : ℕ) (public_key : PublicKey)
      (db : Db Share PublicKey Intermediates)
      → P db
      → P (without_intermediates id db)
      → ((share : Share)
          → Leaves
              (λ rows. P (without_intermediates id (record db { shares = rows })))
              (store_confirmed_dlog_share_inner id epoch public_key share db.shares))
      → P (confirm_dlog_share id epoch public_key db).1
  unfolding confirm_dlog_share confirm_transaction settle commit_confirmed confirm_pending
      confirm_stored
  confirm_dlog_share-Keeps P id epoch public_key db h hw hs =
      stored (get_share_by_epoch_inner id epoch db.shares)
    where
      committed :
          (r : Result PostgresDbError (ℕ × List (ShareRow Share PublicKey)))
          → Leaves (λ rows. P (without_intermediates id (record db { shares = rows }))) r
          → P (settle db (bind_ok r (commit_confirmed id db))).1
      committed (err e) l = h
      committed (ok (n, rows)) l = elim (Bool-cases (n == 1)) [ inl e ↦ rw e l | inr e ↦ rw e h ]

      pending : (o : Option Share) → P (settle db (confirm_pending id epoch public_key db o)).1
      pending none = h
      pending (some share) = committed _ (hs share)

      stored :
          (r : Result PostgresDbError (Option Share))
          → P (settle db (bind_ok r (confirm_stored id epoch public_key db))).1
      stored (err e) = h
      stored (ok (some share)) = hw
      stored (ok none) = pending (fetch_pending_share_inner id epoch db.in_progress_keygens)

  -- A property of the new table of shares that holds of every result of a confirmation.
  confirm_dlog_share-Leaves :
      (P : List (ShareRow Share PublicKey) → Type 0) (id epoch : ℕ) (public_key : PublicKey)
      (db : Db Share PublicKey Intermediates)
      → P db.shares
      → ((share : Share)
          → Leaves P (store_confirmed_dlog_share_inner id epoch public_key share db.shares))
      → P (confirm_dlog_share id epoch public_key db).1.shares
  unfolding without_intermediates
  confirm_dlog_share-Leaves P id epoch public_key db h hs =
      confirm_dlog_share-Keeps (λ db. P db.shares) id epoch public_key db h h hs

  pub confirm_dlog_share-cursor :
      (id epoch : ℕ) (public_key : PublicKey) (db : Db Share PublicKey Intermediates)
      → (confirm_dlog_share id epoch public_key db).1.chain_cursor ≡ db.chain_cursor
  unfolding without_intermediates
  confirm_dlog_share-cursor id epoch public_key db =
      confirm_dlog_share-Keeps (λ d. d.chain_cursor ≡ db.chain_cursor) id epoch public_key db refl
        refl (λ share. any-Leaves _ refl)

  -- The table of shares meets its constraint and its primary key.
  abbrev pub IsValid : Db Share PublicKey Intermediates → Type 0
  IsValid db = IsChecked db.shares × IsKeyed db.shares

  store_chain_cursor-shares :
      (cursor : ChainCursor) (db : Db Share PublicKey Intermediates)
      → (store_chain_cursor cursor db).shares ≡ db.shares
  unfolding store_chain_cursor
  store_chain_cursor-shares cursor db = ground arith

  -- A call keeps a property of the table of shares that its two kinds of statements keep.
  Step-shares :
      (P : List (ShareRow Share PublicKey) → Type 0) (a b : Db Share PublicKey Intermediates)
      → ((id : ℕ) → P (soft_delete_shares_inner id a.shares).1)
      → ((id epoch : ℕ) (public_key : PublicKey) (share : Share)
          → Leaves P (store_confirmed_dlog_share_inner id epoch public_key share a.shares))
      → P a.shares
      → Step a b
      → P b.shares
  unfolding store_node_information delete_oprf_key_material try_store_keygen_intermediates
      abort_keygen store_pending_dlog_share
  Step-shares P a _ hd hs h (store_cursor cursor) =
      subst P (sym (store_chain_cursor-shares cursor a)) h
  Step-shares P a _ hd hs h (store_node node_information) = h
  Step-shares P a _ hd hs h (delete id) = hd id
  Step-shares P a _ hd hs h (try_store id epoch intermediates) = h
  Step-shares P a _ hd hs h (abort id) = h
  Step-shares P a _ hd hs h (store_share id epoch share) = h
  Step-shares P a _ hd hs h (confirm id epoch public_key) =
      confirm_dlog_share-Leaves P id epoch public_key a h (hs id epoch public_key)

  Step-IsValid : (a b : Db Share PublicKey Intermediates) → Step a b → IsValid a → IsValid b
  Step-IsValid a b step (c, k) = (
    Step-shares IsChecked a b (λ id. soft_delete_shares_inner-IsChecked id a.shares c)
        (λ id epoch public_key share.
          store_confirmed_dlog_share_inner-IsChecked id epoch public_key share a.shares c)
        c step,
    Step-shares IsKeyed a b (λ id. soft_delete_shares_inner-IsKeyed id a.shares k)
        (λ id epoch public_key share.
          store_confirmed_dlog_share_inner-IsKeyed id epoch public_key share a.shares k)
        k step,
  )

  Step-Later :
      (k : ℕ) (a b : Db Share PublicKey Intermediates)
      → Step a b
      → Later (find_row k a.shares) (find_row k b.shares)
  Step-Later k a b step =
      Step-shares (λ rows. Later (find_row k a.shares) (find_row k rows)) a b
        (λ id. soft_delete_shares_inner-Later k id a.shares)
        (λ id epoch public_key share.
          store_confirmed_dlog_share_inner-Later k id epoch public_key share a.shares)
        (Later-refl (find_row k a.shares)) step

  -- Through any number of calls the table of shares keeps its constraint and its primary key.
  pub Steps-IsValid : (a b : Db Share PublicKey Intermediates) → Steps a b → IsValid a → IsValid b
  Steps-IsValid a _ done h = h
  Steps-IsValid a c (next {b = b} step steps) h = Steps-IsValid b c steps (Step-IsValid a b step h)

  -- Through any number of calls a key's row stays once it is there, its epoch never falls, and once
  -- deleted it stays deleted.
  pub Steps-Later :
      (k : ℕ) (a b : Db Share PublicKey Intermediates)
      → Steps a b
      → Later (find_row k a.shares) (find_row k b.shares)
  Steps-Later k a _ done = Later-refl (find_row k a.shares)
  Steps-Later k a c (next {b = b} step steps) =
      Later-trans _ (find_row k b.shares) _ (Step-Later k a b step) (Steps-Later k b c steps)

  -- Once the row of a key is deleted in a valid table, no share of the key is ever read again, of
  -- whatever epoch, through any number of calls.
  pub get_share_by_epoch-deleted :
      (id epoch : ℕ) (a b : Db Share PublicKey Intermediates) (row : ShareRow Share PublicKey)
      → IsValid a
      → find_row id a.shares ≡ some row
      → row.deleted ≡ true
      → Steps a b
      → get_share_by_epoch id epoch b ≡ ok none
  unfolding get_share_by_epoch
  get_share_by_epoch-deleted id epoch a b row h f d steps = ap (map_err from_db_error) (
      get_share_by_epoch_inner-Later id epoch b.shares row _ (Steps-IsValid a b steps h).1 refl
        (subst (λ t. Later t (find_row id b.shares)) f (Steps-Later id a b steps)) d)
