-- ===== src/KeyGen/Manager.antt =====
-- The traits of oprf-key-gen/src/services/secret_manager.rs and event_cursor_store.rs: what the
-- rounds of key generation and the event watcher ask of the database.
use oprf_service.Base.{ℕ, Option, Result, map_err}
use oprf_service.KeyGen.Db.{SecretManagerError, NodeInformation, ChainCursor}

pub record SecretManager (St Share PublicKey Intermediates : Type 0) : Type 0 where
  pub store_node_information : NodeInformation → St → Result SecretManagerError (Unit {0}) × St
  pub get_share_by_epoch : ℕ → ℕ → St → Result SecretManagerError (Option Share) × St
  pub delete_oprf_key_material : ℕ → St → Result SecretManagerError (Unit {0}) × St
  pub abort_keygen : ℕ → St → Result SecretManagerError (Unit {0}) × St
  pub try_store_keygen_intermediates :
      ℕ → ℕ → Intermediates → St → Result SecretManagerError Intermediates × St
  pub fetch_keygen_intermediates : ℕ → ℕ → St → Result SecretManagerError Intermediates × St
  pub store_pending_dlog_share : ℕ → ℕ → Share → St → Result SecretManagerError (Unit {0}) × St
  pub confirm_dlog_share : ℕ → ℕ → PublicKey → St → Result SecretManagerError (Unit {0}) × St

-- `E` is the error report.
pub record ChainCursorStorage (St E : Type 0) : Type 0 where
  pub load_chain_cursor : St → Result E ChainCursor × St
  pub store_chain_cursor : ChainCursor → St → Result E (Unit {0}) × St

-- The writing calls, less the values that they store.
pub data Call : Type 0 where
  delete : ℕ → Call
  abort : ℕ → Call
  try_store : ℕ → ℕ → Call
  store_share : ℕ → ℕ → Call
  confirm : ℕ → ℕ → Call

module _ {St : Type 0} (R : St → St → Type 0) (May : Call → Type 0) where
  -- Every read, and every write that may be made, goes from a state to a related one.
  pub record ManagerKeeps {Share PublicKey Intermediates : Type 0}
      (manager : SecretManager St Share PublicKey Intermediates) : Type 0 where
    pub get_share : (id epoch : ℕ) (s : St) → R s (manager.get_share_by_epoch id epoch s).1
    pub fetch : (id epoch : ℕ) (s : St) → R s (manager.fetch_keygen_intermediates id epoch s).1
    pub delete :
        (id : ℕ) → May (Call.delete id) → (s : St) → R s (manager.delete_oprf_key_material id s).1
    pub abort : (id : ℕ) → May (Call.abort id) → (s : St) → R s (manager.abort_keygen id s).1
    pub try_store :
        (id epoch : ℕ)
        → May (Call.try_store id epoch)
        → (v : Intermediates) (s : St) → R s (manager.try_store_keygen_intermediates id epoch v s).1
    pub store_share :
        (id epoch : ℕ)
        → May (Call.store_share id epoch)
        → (share : Share) (s : St) → R s (manager.store_pending_dlog_share id epoch share s).1
    pub confirm :
        (id epoch : ℕ)
        → May (Call.confirm id epoch)
        → (public_key : PublicKey) (s : St)
        → R s (manager.confirm_dlog_share id epoch public_key s).1

-- Any write.
abbrev pub Any : Call → Type 0
Any call = Unit

-- The tables are a part of the world.
abbrev pub beside : {St W A : Type 0} → (St → A × St) → St × W → A × (St × W)
beside op (s, w) = let out = op s in (out.0, (out.1, w))

abbrev pub manager_beside :
    {St W Share PublicKey Intermediates : Type 0}
    → SecretManager St Share PublicKey Intermediates
    → SecretManager (St × W) Share PublicKey Intermediates
manager_beside manager = record {
  store_node_information = λ info. beside (manager.store_node_information info);
  get_share_by_epoch = λ id epoch. beside (manager.get_share_by_epoch id epoch);
  delete_oprf_key_material = λ id. beside (manager.delete_oprf_key_material id);
  abort_keygen = λ id. beside (manager.abort_keygen id);
  try_store_keygen_intermediates =
      λ id epoch v. beside (manager.try_store_keygen_intermediates id epoch v);
  fetch_keygen_intermediates = λ id epoch. beside (manager.fetch_keygen_intermediates id epoch);
  store_pending_dlog_share =
      λ id epoch share. beside (manager.store_pending_dlog_share id epoch share);
  confirm_dlog_share =
      λ id epoch public_key. beside (manager.confirm_dlog_share id epoch public_key);
}

-- With its errors reported as `report` has it.
abbrev pub cursor_beside :
    {St W E E' : Type 0} → (E → E') → ChainCursorStorage St E → ChainCursorStorage (St × W) E'
cursor_beside report storage = record {
  load_chain_cursor =
      beside (λ s. let out = storage.load_chain_cursor s in (map_err report out.0, out.1));
  store_chain_cursor = λ cursor.
      beside (λ s. let out = storage.store_chain_cursor cursor s in (map_err report out.0, out.1));
}

module _ {St W : Type 0} (R : St → St → Type 0) where
  abbrev pub Beside : St × W → St × W → Type 0
  Beside a b = R a.0 b.0

  pub manager_beside-ManagerKeeps :
      (May : Call → Type 0) {Share PublicKey Intermediates : Type 0}
      (manager : SecretManager St Share PublicKey Intermediates)
      → ManagerKeeps R May manager
      → ManagerKeeps Beside May (manager_beside manager)
  manager_beside-ManagerKeeps May manager h = record {
    get_share = λ id epoch w. h.get_share id epoch w.0;
    delete = λ id m w. h.delete id m w.0;
    abort = λ id m w. h.abort id m w.0;
    try_store = λ id epoch m v w. h.try_store id epoch m v w.0;
    fetch = λ id epoch w. h.fetch id epoch w.0;
    store_share = λ id epoch m share w. h.store_share id epoch m share w.0;
    confirm = λ id epoch m public_key w. h.confirm id epoch m public_key w.0;
  }
