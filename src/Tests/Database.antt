-- ===== src/Tests/Database.antt =====
-- Runs of the key-generation service's database.
use oprf_service.Base.{All, ℕ, ◌≡◌, refl, [], ◌∷◌, true, false, none, some, ok, err, arith, ◌⊎◌}
use oprf_service.KeyGen.Db.{
  get_share_by_epoch_inner, Db, ShareRow, KeygenRow, ChainCursor, get_share_by_epoch,
  confirm_dlog_share, load_chain_cursor, store_chain_cursor, try_store_keygen_intermediates,
  delete_oprf_key_material, store_on_deleted_share, deleted_share_null, fetch_pending_share_inner,
}
use oprf_service.KeyGen.Db.Rows.{find_row, Later, IsKeyed}
use oprf_service.KeyGen.Db.Cursor.{Before, load-store_chain_cursor}
use oprf_service.KeyGen.Db.Keygens.{try_store_keygen_intermediates-again}
use oprf_service.KeyGen.Db.Confirm.{Outcome, confirm_dlog_share-Outcome, confirm_dlog_share-deleted}
use oprf_service.KeyGen.Db.History.{
  Steps, IsValid, done, next, delete, confirm, Steps-IsValid, Steps-Later,
  get_share_by_epoch-deleted,
}
use oprf_service.Service.Session.{deleted_oprf_key_id, OprfKeyMaterial}
use oprf_service.Service.Store.{fetching, try_get_begin, cached, try_insert}
use oprf_service.Service.Store.Past.{IsPast, Begins, try_get-Past}
use oprf_service.Service.Store.Steps as Cache
use oprf_service.Service.Store.Steps.{Node}
use oprf_service.Service.Store.Deleted.{IsGone, IsDeleted, Refuses, try_get-deleted}
use oprf_service.Service.Secrets.{get_oprf_key_material}
use oprf_service.Service.Secrets.Reads.{Gives, get_oprf_key_material-Gives}

-- Shares, keys and intermediates are numbers here.
abbrev row : ShareRow ℕ ℕ
row = record { id = 1; share = some 11; epoch = 2; public_key = 5; deleted = false }

abbrev deleted_row : ShareRow ℕ ℕ
deleted_row = record { id = 2; share = none; epoch = 4; public_key = 6; deleted = true }

abbrev pending : KeygenRow ℕ ℕ
pending = record { id = 1; pending_epoch = 3; pending_share = some 12; intermediates = 9 }

abbrev pending_deleted : KeygenRow ℕ ℕ
pending_deleted = record { id = 2; pending_epoch = 5; pending_share = some 13; intermediates = 8 }

abbrev db : Db ℕ ℕ ℕ
db = record {
  shares = row ∷ deleted_row ∷ [];
  in_progress_keygens = pending ∷ pending_deleted ∷ [];
  chain_cursor = record { block = 9223372036854775818; idx = 9223372036854775809 };
  node_information = none;
}

abbrev confirmed : Db ℕ ℕ ℕ
confirmed = record db {
  shares =
      record { id = 1; share = some 12; epoch = 3; public_key = 5; deleted = false }
      ∷ deleted_row
      ∷ [];
  in_progress_keygens = pending_deleted ∷ [];
}

confirm_db : confirm_dlog_share 1 3 5 db ≡ (ok tt, confirmed)
unfolding confirm_dlog_share
confirm_db = refl

confirm_dlog_share-Outcome_example : Outcome 1 3 db (confirm_dlog_share 1 3 5 db)
confirm_dlog_share-Outcome_example = confirm_dlog_share-Outcome 1 3 5 db

deleted_found : find_row 2 db.shares ≡ some deleted_row
unfolding find_row
deleted_found = refl

keyed : IsKeyed db.shares
keyed = ground arith

valid : IsValid db
unfolding deleted_share_null
valid = ground arith

confirm_dlog_share-deleted_example : confirm_dlog_share 2 5 6 db ≡ (err store_on_deleted_share, db)
unfolding fetch_pending_share_inner
confirm_dlog_share-deleted_example =
    confirm_dlog_share-deleted 2 5 6 db deleted_row keyed deleted_found refl

abbrev two_steps : Steps db (delete_oprf_key_material 1 (confirm_dlog_share 1 3 5 db).1)
two_steps = next (confirm 1 3 5) (next (delete 1) done)

get_share_by_epoch-deleted_example :
    get_share_by_epoch 2 4 (delete_oprf_key_material 1 (confirm_dlog_share 1 3 5 db).1) ≡ ok none
get_share_by_epoch-deleted_example =
    get_share_by_epoch-deleted 2 4 db _ deleted_row valid deleted_found refl two_steps

Steps-IsValid_example : IsValid (delete_oprf_key_material 1 (confirm_dlog_share 1 3 5 db).1)
Steps-IsValid_example = Steps-IsValid db _ two_steps valid

Steps-Later_example :
    Later
      (find_row 1 db.shares)
      (find_row 1 (delete_oprf_key_material 1 (confirm_dlog_share 1 3 5 db).1).shares)
Steps-Later_example = Steps-Later 1 db _ two_steps

abbrev cursor : ChainCursor
cursor = record { block = 10; index = 3 }

loaded : load_chain_cursor db ≡ record { block = 10; index = 1 }
unfolding load_chain_cursor
loaded = refl

load-store_chain_cursor_example :
    (Before (load_chain_cursor db) cursor
      × (load_chain_cursor (store_chain_cursor cursor db) ≡ cursor))
    ⊎ (¬ Before (load_chain_cursor db) cursor
        × (load_chain_cursor (store_chain_cursor cursor db) ≡ load_chain_cursor db))
unfolding load_chain_cursor
load-store_chain_cursor_example = load-store_chain_cursor cursor db (ground arith) (ground arith)

try_store_keygen_intermediates-again_example :
    try_store_keygen_intermediates 3 1 22 (try_store_keygen_intermediates 3 1 21 db).1
    ≡ try_store_keygen_intermediates 3 1 21 db
try_store_keygen_intermediates-again_example = try_store_keygen_intermediates-again 3 1 21 22 db

shares_read : get_share_by_epoch_inner 1 3 confirmed.shares ≡ ok (some 12)
unfolding get_share_by_epoch_inner
shares_read = refl

get_oprf_key_material-Gives_example : Gives 12 3 (get_oprf_key_material 1 confirmed.shares)
get_oprf_key_material-Gives_example =
    get_oprf_key_material-Gives 1 3 12 confirmed.shares (ground arith) (omega arith) shares_read

-- A node whose cache is empty, and the share of key 1 at that time.
abbrev started : Node ℕ ℕ ℕ
started = record { db = db; store = []; readings = [] }

abbrev material : OprfKeyMaterial ℕ ℕ
material = record { share = 11; public_key = 5; epoch = 2 }

-- The query has the share, but it is not yet in the cache.
abbrev asked : Node ℕ ℕ ℕ
asked = record started { readings = (1, ok material) ∷ [] }

query_answered : try_get_begin 1 db.shares [] ≡ some (fetching (ok material))
unfolding try_get_begin get_oprf_key_material cached
query_answered = refl

-- The share of the next epoch is confirmed before the old one is inserted.
abbrev overtaken : Node ℕ ℕ ℕ
overtaken = record asked { db = (confirm_dlog_share 1 3 5 db).1 }

abbrev stale : Node ℕ ℕ ℕ
stale = record overtaken { store = try_insert 1 (ok material) []; readings = [] }

abbrev read_and_confirmed : Cache.Steps started stale
read_and_confirmed =
    Cache.next {b = asked} (Cache.fetches 1 {node = started} (ok material) query_answered) (
      Cache.next {b = overtaken}
        (Cache.writes {node = asked} (confirm_dlog_share 1 3 5 db).1 (confirm 1 3 5))
        (Cache.next {b = stale} (Cache.inserts 1 {node = overtaken} (ok material) [] [] refl)
          Cache.done))

try_get-Past_example :
    IsPast db stale × Begins 1 db stale.db (try_get_begin 1 stale.db.shares stale.store)
try_get-Past_example = try_get-Past 1 started stale refl refl read_and_confirmed

gone : IsGone 2 started.db.shares started.store started.readings
unfolding IsDeleted find_row cached
gone = (refl, refl, tt)

try_get-deleted_example :
    (try_get_begin 2 stale.db.shares stale.store ≡ some (fetching (err (deleted_oprf_key_id 2))))
    × All (Refuses 2) stale.readings
    × (cached 2 stale.store ≡ none)
try_get-deleted_example = try_get-deleted 2 started stale gone read_and_confirmed
