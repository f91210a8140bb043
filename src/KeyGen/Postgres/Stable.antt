-- ===== src/KeyGen/Postgres/Stable.antt =====
-- The statements and transactions give the same when they are run again, so that a retry after a lost
-- answer does no harm.
use oprf_service.Base.{ℕ, ◌≡◌, refl, ap, ap₂, List, [], ◌∷◌, Result, ok, err, arith}
use oprf_service.KeyGen.Db as Db
use oprf_service.KeyGen.Db.{
  ShareRow, KeygenRow, PostgresDbError, ChainCursor, NodeInformation, soft_delete_shares_inner,
  store_pending, confirm_transaction, confirm_dlog_share, settle,
}
use oprf_service.KeyGen.Db.Keygens.{
  delete_intermediates_inner-twice, try_store_keygen_intermediates-again,
}
use oprf_service.KeyGen.Db.Confirm.{confirm_dlog_share-again}
use oprf_service.KeyGen.Retry.Once.{IsStable}
use oprf_service.KeyGen.Postgres.{writes, rollback, stored, pending, confirmed}

module _ {Share PublicKey : Type 0} where
  soft_delete_shares_inner-twice :
      (id : ℕ) (rows : List (ShareRow Share PublicKey))
      → (soft_delete_shares_inner id (soft_delete_shares_inner id rows).1).1
        ≡ (soft_delete_shares_inner id rows).1
  unfolding soft_delete_shares_inner
  soft_delete_shares_inner-twice id [] = refl
  soft_delete_shares_inner-twice id (row ∷ rows) =
      ground (arith, soft_delete_shares_inner-twice id rows)

module _ {Share Intermediates : Type 0} where
  store_pending-twice :
      (id epoch : ℕ) (share : Share) (rows : List (KeygenRow Share Intermediates))
      → store_pending id epoch share (store_pending id epoch share rows).1
        ≡ store_pending id epoch share rows
  unfolding store_pending
  store_pending-twice id epoch share [] = refl
  store_pending-twice id epoch share (row ∷ rows) =
      ground (arith, store_pending-twice id epoch share rows)

module _ {Share PublicKey Intermediates : Type 0} where
  pub delete_oprf_key_material-IsStable :
      (id : ℕ)
      → IsStable (
          writes (
            Db.delete_oprf_key_material {Share = Share} {PublicKey = PublicKey}
              {Intermediates = Intermediates} id))
  unfolding Db.delete_oprf_key_material
  delete_oprf_key_material-IsStable id db =
      ap₂ (λ shares keygens. (ok tt, record db { shares = shares; in_progress_keygens = keygens }))
        (soft_delete_shares_inner-twice id db.shares)
        (delete_intermediates_inner-twice id db.in_progress_keygens)

  pub abort_keygen-IsStable :
      (id : ℕ)
      → IsStable (
          writes (
            Db.abort_keygen {Share = Share} {PublicKey = PublicKey} {Intermediates = Intermediates}
              id))
  unfolding Db.abort_keygen
  abort_keygen-IsStable id db =
      ap (λ keygens. (ok tt, record db { in_progress_keygens = keygens }))
        (delete_intermediates_inner-twice id db.in_progress_keygens)

  pub store_node_information-IsStable :
      (node_information : NodeInformation)
      → IsStable (
          writes (
            Db.store_node_information {Share = Share} {PublicKey = PublicKey}
              {Intermediates = Intermediates} node_information))
  unfolding Db.store_node_information
  store_node_information-IsStable node_information db = refl

  pub store_chain_cursor-IsStable :
      (cursor : ChainCursor)
      → IsStable (
          writes (
            Db.store_chain_cursor {Share = Share} {PublicKey = PublicKey}
              {Intermediates = Intermediates} cursor))
  unfolding Db.store_chain_cursor
  store_chain_cursor-IsStable cursor db = ground arith

  pub stored-IsStable :
      (id epoch : ℕ) (v : Intermediates)
      → IsStable (stored {Share = Share} {PublicKey = PublicKey} id epoch v)
  unfolding stored
  stored-IsStable id epoch v db =
      ap (λ out. (ok out.0, out.1)) (try_store_keygen_intermediates-again id epoch v v db)

  pub pending-IsStable :
      (id epoch : ℕ) (share : Share)
      → IsStable (
          pending {Share = Share} {PublicKey = PublicKey} {Intermediates = Intermediates} id epoch
            share)
  unfolding pending
  pending-IsStable id epoch share db =
      ap (λ out. (ok out.0, record db { in_progress_keygens = out.1 }))
        (store_pending-twice id epoch share db.in_progress_keygens)

  settled :
      (db db' : Db.Db Share PublicKey Intermediates)
      (r : Result PostgresDbError (Db.Db Share PublicKey Intermediates))
      → settle db r ≡ (ok tt, db')
      → r ≡ ok db'
  unfolding settle
  settled db db' (ok x) e = ap ok (cc e)
  settled db db' (err x) e = absurd (cc e)

  pub confirmed-IsStable :
      (id epoch : ℕ) (public_key : PublicKey)
      → IsStable (
          confirmed {Share = Share} {PublicKey = PublicKey} {Intermediates = Intermediates} id epoch
            public_key)
  unfolding confirmed confirm_dlog_share settle
  confirmed-IsStable id epoch public_key db = go (confirm_transaction id epoch public_key db) refl
    where
      go :
          (r : Result PostgresDbError (Db.Db Share PublicKey Intermediates))
          → confirm_transaction id epoch public_key db ≡ r
          → confirmed id epoch public_key (rollback db r).1 ≡ rollback db r
      go (err x) e = ap (rollback db) e
      go (ok db') e = ap (rollback db') (
          settled db' db' _
            (confirm_dlog_share-again id epoch public_key public_key db db' (ap (settle db) e)))
