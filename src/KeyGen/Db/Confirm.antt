-- ===== src/KeyGen/Db/Confirm.antt =====
-- `confirm_dlog_share` on every outcome.
use oprf_service.Base.{
  ltb, ℕ, ◌≡◌, refl, sym, ap, ◌∙◌, List, true, Option, none, some, Result, ok, err, Bool-cases, inl,
  inr, ◌==◌, ==_iff, ◌⊎◌, map_err, bind_ok, subst, if◌then◌else◌,
}
use oprf_service.KeyGen.Db.{
  Db, ShareRow, SecretManagerError, store_on_deleted_share, from_db_error, PostgresDbError,
  get_share_by_epoch, get_share_by_epoch_inner, fetch_pending_share_inner, fetch_keygen, settle,
  confirm_transaction, confirm_dlog_share, confirm_stored, confirm_pending, commit_confirmed,
  without_intermediates, delete_intermediates_inner,
}
use oprf_service.KeyGen.Db.Rows.{
  Stored, find_row, IsKeyed, get_share_by_epoch_inner-deleted,
  store_confirmed_dlog_share_inner-deleted, store_confirmed_dlog_share_inner-Stored,
}
use oprf_service.KeyGen.Db.Keygens.{fetch_keygen-delete, delete_intermediates_inner-twice}

-- The error for a deleted key, by what is pending and whether the epoch is new.
abbrev deleted_error : {Share : Type 0} → ℕ → ℕ → ℕ → Option Share → SecretManagerError
deleted_error id epoch old none = SecretManagerError.missing_intermediates id epoch
deleted_error id epoch old (some _) =
    if ltb old epoch then store_on_deleted_share else SecretManagerError.refusing_to_rollback_epoch

module _ {Share PublicKey Intermediates : Type 0} where
  -- What a successful transaction leaves.
  abbrev Confirmed :
      ℕ
      → ℕ
      → Db Share PublicKey Intermediates
      → Result PostgresDbError (Db Share PublicKey Intermediates)
      → Type 0
  Confirmed id epoch db (err e) = Unit
  Confirmed id epoch db (ok db') =
      (share : Share) × (get_share_by_epoch_inner id epoch db'.shares ≡ ok (some share))
      × ((get_share_by_epoch_inner id epoch db.shares ≡ ok (some share))
          ⊎ (fetch_pending_share_inner id epoch db.in_progress_keygens ≡ some share))
      × (db'.in_progress_keygens ≡ (delete_intermediates_inner id db.in_progress_keygens).1)

  commit_confirmed-Confirmed :
      (id epoch : ℕ) (share : Share) (db : Db Share PublicKey Intermediates)
      (stored : Result PostgresDbError (ℕ × List (ShareRow Share PublicKey)))
      → Stored id epoch share stored
      → fetch_pending_share_inner id epoch db.in_progress_keygens ≡ some share
      → Confirmed id epoch db (bind_ok stored (commit_confirmed id db))
  unfolding commit_confirmed without_intermediates
  commit_confirmed-Confirmed id epoch share db (err e) h p = tt
  commit_confirmed-Confirmed id epoch share db (ok (n, rows)) h p = elim (Bool-cases (n == 1)) [
    | inl e ↦ rw e (share, h ((==_iff n 1).0 e), inr p, refl)
    | inr e ↦ rw e tt
  ]

  confirm_pending-Confirmed :
      (id epoch : ℕ) (public_key : PublicKey) (db : Db Share PublicKey Intermediates)
      (pending : Option Share)
      → fetch_pending_share_inner id epoch db.in_progress_keygens ≡ pending
      → Confirmed id epoch db (confirm_pending id epoch public_key db pending)
  unfolding confirm_pending
  confirm_pending-Confirmed id epoch public_key db none p = tt
  confirm_pending-Confirmed id epoch public_key db (some share) p =
      commit_confirmed-Confirmed id epoch share db _
        (store_confirmed_dlog_share_inner-Stored id epoch public_key share db.shares) p

  confirm_stored-Confirmed :
      (id epoch : ℕ) (public_key : PublicKey) (db : Db Share PublicKey Intermediates)
      (stored : Result PostgresDbError (Option Share))
      → get_share_by_epoch_inner id epoch db.shares ≡ stored
      → Confirmed id epoch db (bind_ok stored (confirm_stored id epoch public_key db))
  unfolding confirm_stored without_intermediates
  confirm_stored-Confirmed id epoch public_key db (err e) p = tt
  confirm_stored-Confirmed id epoch public_key db (ok (some share)) p = (share, p, inl p, refl)
  confirm_stored-Confirmed id epoch public_key db (ok none) p =
      confirm_pending-Confirmed id epoch public_key db _ refl

  confirm_transaction-Confirmed :
      (id epoch : ℕ) (public_key : PublicKey) (db : Db Share PublicKey Intermediates)
      → Confirmed id epoch db (confirm_transaction id epoch public_key db)
  unfolding confirm_transaction
  confirm_transaction-Confirmed id epoch public_key db =
      confirm_stored-Confirmed id epoch public_key db _ refl

  -- The two outcomes of `confirm_dlog_share` on a transaction's result.
  abbrev pub Outcome :
      ℕ
      → ℕ
      → Db Share PublicKey Intermediates
      → Result SecretManagerError (Unit {0}) × Db Share PublicKey Intermediates
      → Type 0
  Outcome id epoch db (err e, db') = db' ≡ db
  Outcome id epoch db (ok _, db') =
      (share : Share) × (get_share_by_epoch id epoch db' ≡ ok (some share))
      × ((get_share_by_epoch id epoch db ≡ ok (some share))
          ⊎ (fetch_pending_share_inner id epoch db.in_progress_keygens ≡ some share))
      × ((any_epoch : ℕ) → fetch_keygen id any_epoch db'.in_progress_keygens ≡ none)

  -- When `confirm_dlog_share` returns an error the tables are as before. When it returns `ok`, the
  -- share of the key and epoch can be read, it is the one that could be read before or the pending
  -- one, and no intermediates of the key are left, of whatever epoch.
  pub confirm_dlog_share-Outcome :
      (id epoch : ℕ) (public_key : PublicKey) (db : Db Share PublicKey Intermediates)
      → Outcome id epoch db (confirm_dlog_share id epoch public_key db)
  unfolding confirm_dlog_share get_share_by_epoch settle
  confirm_dlog_share-Outcome id epoch public_key db =
      go (confirm_transaction id epoch public_key db)
        (confirm_transaction-Confirmed id epoch public_key db)
    where
      go :
          (r : Result PostgresDbError (Db Share PublicKey Intermediates))
          → Confirmed id epoch db r
          → Outcome id epoch db (settle db r)
      go (err e) h = refl
      go (ok db') (share, now, before, rows) = (
        share,
        ap (map_err from_db_error) now,
        elim before [ inl e ↦ inl (ap (map_err from_db_error) e) | inr e ↦ inr e ],
        λ any_epoch.
            ap (fetch_keygen id any_epoch) rows
            ∙ fetch_keygen-delete id any_epoch db.in_progress_keygens,
      )

  -- Once a share of the epoch can be read, confirming it deletes the intermediates and returns `ok`.
  confirm_dlog_share-stored :
      (id epoch : ℕ) (public_key : PublicKey) (share : Share)
      (db : Db Share PublicKey Intermediates)
      → get_share_by_epoch_inner id epoch db.shares ≡ ok (some share)
      → confirm_dlog_share id epoch public_key db ≡ (ok tt, without_intermediates id db)
  unfolding confirm_dlog_share confirm_transaction confirm_stored settle
  confirm_dlog_share-stored id epoch public_key share db e =
      ap (λ t. settle db (bind_ok t (confirm_stored id epoch public_key db))) e

  Repeats : ℕ → ℕ → PublicKey → Result PostgresDbError (Db Share PublicKey Intermediates) → Type 0
  Repeats id epoch public_key (err e) = Unit
  Repeats id epoch public_key (ok db') = confirm_dlog_share id epoch public_key db' ≡ (ok tt, db')

  confirm_transaction-Repeats :
      (id epoch : ℕ) (public_key : PublicKey) (db : Db Share PublicKey Intermediates)
      (r : Result PostgresDbError (Db Share PublicKey Intermediates))
      → Confirmed id epoch db r
      → Repeats id epoch public_key r
  unfolding Repeats without_intermediates
  confirm_transaction-Repeats id epoch public_key db (err e) h = tt
  confirm_transaction-Repeats id epoch public_key db (ok db') (share, now, _, rows) =
      confirm_dlog_share-stored id epoch public_key share db' now
      ∙ ap (λ t. (ok tt, record db' { in_progress_keygens = t }))
          (ap (λ t. (delete_intermediates_inner id t).1) rows
            ∙ delete_intermediates_inner-twice id db.in_progress_keygens
            ∙ sym rows)

  -- A confirmation that returned `ok` can be repeated, with whatever public key: it returns `ok`
  -- again and changes nothing.
  pub confirm_dlog_share-again :
      (id epoch : ℕ) (public_key again : PublicKey) (db db' : Db Share PublicKey Intermediates)
      → confirm_dlog_share id epoch public_key db ≡ (ok tt, db')
      → confirm_dlog_share id epoch again db' ≡ (ok tt, db')
  unfolding confirm_dlog_share Repeats settle
  confirm_dlog_share-again id epoch public_key again db db' e =
      go (confirm_transaction id epoch public_key db)
        (confirm_transaction-Repeats id epoch again db _
          (confirm_transaction-Confirmed id epoch public_key db))
        e
    where
      go :
          (r : Result PostgresDbError (Db Share PublicKey Intermediates))
          → Repeats id epoch again r
          → settle db r ≡ (ok tt, db')
          → confirm_dlog_share id epoch again db' ≡ (ok tt, db')
      go (err e) h q = absurd (cc q)
      go (ok db'') h q =
          let e : db'' ≡ db' = ap (λ t. t.1) q in
          subst (λ t. confirm_dlog_share id epoch again t ≡ (ok tt, t)) e h

  confirm_pending-deleted :
      (id epoch : ℕ) (public_key : PublicKey) (db : Db Share PublicKey Intermediates)
      (row : ShareRow Share PublicKey) (pending : Option Share)
      → find_row id db.shares ≡ some row
      → row.deleted ≡ true
      → map_err from_db_error (confirm_pending id epoch public_key db pending)
        ≡ err (deleted_error id epoch row.epoch pending)
  unfolding confirm_pending commit_confirmed from_db_error
  confirm_pending-deleted id epoch public_key db row none f d = refl
  confirm_pending-deleted id epoch public_key db row (some share) f d =
      let refused =
        store_confirmed_dlog_share_inner-deleted id epoch public_key share db.shares row f d in
      elim (Bool-cases (ltb row.epoch epoch)) [
        | inl e ↦ rw (refused.0 e, e) refl
        | inr e ↦ rw (refused.1 e, e) refl
      ]

  settle-err :
      (db : Db Share PublicKey Intermediates)
      (r : Result PostgresDbError (Db Share PublicKey Intermediates)) (e : SecretManagerError)
      → map_err from_db_error r ≡ err e
      → settle db r ≡ (err e, db)
  unfolding settle
  settle-err db (ok _) e q = absurd (cc q)
  settle-err db (err e') e q = cc q

  -- A deleted key is never confirmed: with distinct keys in the table, the call fails and changes
  -- nothing. Without a pending share the intermediates are missing; with one, an epoch above that
  -- of the deleted row violates the constraint, and any other is refused as a rollback.
  pub confirm_dlog_share-deleted :
      (id epoch : ℕ) (public_key : PublicKey) (db : Db Share PublicKey Intermediates)
      (row : ShareRow Share PublicKey)
      → IsKeyed db.shares
      → find_row id db.shares ≡ some row
      → row.deleted ≡ true
      → confirm_dlog_share id epoch public_key db ≡ (
        err (
            deleted_error id epoch row.epoch
              (fetch_pending_share_inner id epoch db.in_progress_keygens)),
        db,
      )
  unfolding confirm_dlog_share confirm_transaction confirm_stored
  confirm_dlog_share-deleted id epoch public_key db row k f d =
      ap (λ t. settle db (bind_ok t (confirm_stored id epoch public_key db)))
        (get_share_by_epoch_inner-deleted id epoch db.shares row k f d)
      ∙ settle-err db _ _ (confirm_pending-deleted id epoch public_key db row _ f d)
