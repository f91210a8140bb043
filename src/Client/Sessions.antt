-- ===== src/Client/Sessions.antt =====
-- oprf-client/src/sessions.rs: the sessions that a client opens at the nodes, in the order in which
-- the nodes answer. A connection is known by the address of its service; a panic is `none`.
pub mod Sorted
pub mod Lists
pub mod Chosen
use oprf_service.Base.{
  ℕ, suc, zero, List, [], ◌∷◌, ◌++◌, map, Option, none, some, Result, ok, err, length, get_elem?,
  leb, ◌==◌, if◌then◌else◌,
}

pub record OprfResponse (Commitments PublicKey : Type 0) : Type 0 where
  pub commitments : Commitments
  pub party_id : ℕ
  pub key : PublicKey
  pub epoch : ℕ

pub record OprfSessions (Uri Commitments PublicKey : Type 0) : Type 0 where
  pub ws : List Uri
  pub party_ids : List ℕ
  pub commitments : List Commitments
  pub oprf_public_keys : List PublicKey
  pub epoch : ℕ

-- `ServiceError`; its `kind` is a function of the code.
pub record ServiceError : Type 0 where
  pub error_code : ℕ
  pub msg : Option (List ℕ)

-- `E` stands for boxed errors.
pub data NodeError (E : Type 0) : Type 0 where
  service_error : ServiceError → NodeError E
  ws_error : E → NodeError E
  unexpected_message : List ℕ → NodeError E
  epoch_mismatch : ℕ → NodeError E
  unknown : E → NodeError E

-- `iter().position(..)`.
unfoldable pub position : ℕ → List ℕ → Option ℕ
position id [] = none
position id (hay ∷ rest) =
    if hay == id then some 0 else elim (position id rest) [ none ↦ none | some i ↦ some (suc i) ]

abbrev pub option_map {ℓ κ} : {A : Type ℓ} {B : Type κ} → (A → B) → Option A → Option B
option_map f none = none
option_map f (some a) = some (f a)

-- One entry of the zipped lists.
pub record Entry (Uri Commitments PublicKey : Type 0) : Type 0 where
  pub ws : Uri
  pub party_id : ℕ
  pub commitments : Commitments
  pub oprf_public_key : PublicKey

module _ {Uri Commitments PublicKey : Type 0} where
  unfoldable pub with_capacity : ℕ → OprfSessions Uri Commitments PublicKey
  with_capacity epoch = record {
    ws = [];
    party_ids = [];
    commitments = [];
    oprf_public_keys = [];
    epoch = epoch;
  }

  -- From the position of the party id among those that are there.
  unfoldable pub push_at :
      Uri
      → OprfResponse Commitments PublicKey
      → OprfSessions Uri Commitments PublicKey
      → Option ℕ
      → Option (Result Uri (OprfSessions Uri Commitments PublicKey))
  push_at ws response self (some i) = option_map err (get_elem? self.ws i)
  push_at ws response self none = some (
      ok (record self {
        ws = self.ws ++ (ws ∷ []);
        party_ids = self.party_ids ++ (response.party_id ∷ []);
        commitments = self.commitments ++ (response.commitments ∷ []);
        oprf_public_keys = self.oprf_public_keys ++ (response.key ∷ []);
      }))

  -- `Err` with the service that has the party id already; an index past `ws` panics.
  unfoldable pub push :
      Uri
      → OprfResponse Commitments PublicKey
      → OprfSessions Uri Commitments PublicKey
      → Option (Result Uri (OprfSessions Uri Commitments PublicKey))
  unfolding position push_at
  push ws response self = push_at ws response self (position response.party_id self.party_ids)

  -- The three `zip`s.
  unfoldable pub zip_entries :
      List Uri → List ℕ → List Commitments → List PublicKey → List (Entry Uri Commitments PublicKey)
  zip_entries (w ∷ ws) (p ∷ ps) (c ∷ cs) (k ∷ ks) =
      record { ws = w; party_id = p; commitments = c; oprf_public_key = k }
      ∷ zip_entries ws ps cs ks
  zip_entries _ _ _ _ = []

  unfoldable pub insert_by_key :
      Entry Uri Commitments PublicKey
      → List (Entry Uri Commitments PublicKey)
      → List (Entry Uri Commitments PublicKey)
  insert_by_key x [] = x ∷ []
  insert_by_key x (y ∷ ys) =
      if leb x.party_id y.party_id then x ∷ y ∷ ys else y ∷ insert_by_key x ys

  -- The stable sort by party id.
  unfoldable pub sort_by_key :
      List (Entry Uri Commitments PublicKey) → List (Entry Uri Commitments PublicKey)
  unfolding insert_by_key
  sort_by_key [] = []
  sort_by_key (x ∷ xs) = insert_by_key x (sort_by_key xs)

  unfoldable pub sort_by_party_id :
      OprfSessions Uri Commitments PublicKey → OprfSessions Uri Commitments PublicKey
  unfolding zip_entries sort_by_key
  sort_by_party_id self =
      let combined =
        sort_by_key (zip_entries self.ws self.party_ids self.commitments self.oprf_public_keys) in
      record self {
        ws = map (λ entry. entry.ws) combined;
        party_ids = map (λ entry. entry.party_id) combined;
        commitments = map (λ entry. entry.commitments) combined;
        oprf_public_keys = map (λ entry. entry.oprf_public_key) combined;
      }

  -- `entry(epoch).or_insert_with(..)`.
  unfoldable pub entry_of :
      ℕ → List (OprfSessions Uri Commitments PublicKey) → OprfSessions Uri Commitments PublicKey
  unfolding with_capacity
  entry_of epoch [] = with_capacity epoch
  entry_of epoch (sessions ∷ rest) =
      if sessions.epoch == epoch then sessions else entry_of epoch rest

  -- The map with the entry of these sessions' epoch replaced, or added.
  unfoldable pub set_entry :
      OprfSessions Uri Commitments PublicKey
      → List (OprfSessions Uri Commitments PublicKey)
      → List (OprfSessions Uri Commitments PublicKey)
  set_entry new [] = new ∷ []
  set_entry new (sessions ∷ rest) =
      if sessions.epoch == new.epoch then new ∷ rest else sessions ∷ set_entry new rest

  -- One `EpochMismatch` for every session of the map.
  unfoldable pub mismatches :
      {E : Type 0} → List (OprfSessions Uri Commitments PublicKey) → List (NodeError E)
  mismatches [] = []
  mismatches (sessions ∷ rest) =
      map (λ _. epoch_mismatch sessions.epoch) sessions.party_ids ++ mismatches rest

module _ {Uri Commitments PublicKey E : Type 0} where
  -- The loop over the answers, with the map from epochs to sessions and the errors so far.
  unfoldable pub init_loop :
      ℕ
      → List (Result (NodeError E) (Uri × OprfResponse Commitments PublicKey))
      → List (OprfSessions Uri Commitments PublicKey)
      → List (NodeError E)
      → Option (Result (List (NodeError E)) (OprfSessions Uri Commitments PublicKey))
  unfolding push entry_of set_entry sort_by_party_id mismatches
  init_loop threshold [] epoch_session_map session_errors =
      some (err (session_errors ++ mismatches epoch_session_map))
  init_loop threshold (err e ∷ results) epoch_session_map session_errors =
      init_loop threshold results epoch_session_map (session_errors ++ (e ∷ []))
  init_loop threshold (ok (ws, response) ∷ results) epoch_session_map session_errors =
      elim (push ws response (entry_of response.epoch epoch_session_map)) [
        | none ↦ none
        | some (err duplicate_service) ↦
            init_loop threshold results epoch_session_map session_errors
        | some (ok epoch_session) ↦
            let rest =
              init_loop threshold results (set_entry epoch_session epoch_session_map)
                session_errors in
            if length epoch_session.ws == threshold
            then some (ok (sort_by_party_id epoch_session))
            else rest
      ]

  unfoldable pub init_sessions :
      ℕ
      → List (Result (NodeError E) (Uri × OprfResponse Commitments PublicKey))
      → Option (Result (List (NodeError E)) (OprfSessions Uri Commitments PublicKey))
  unfolding init_loop
  init_sessions threshold results = init_loop threshold results [] []
