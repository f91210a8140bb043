-- ===== src/Service/Store/Deleted.antt =====
-- The cache after the deletion of a key.
use oprf_service.Base.{
  ℕ, ◌≡◌, ◌≢◌, ◌⊎◌, refl, subst, List, [], ◌∷◌, Option, none, some, Result, ok, err, arith, All,
  Bool-cases, inl, inr, ◌==◌, true, false,
}
use oprf_service.KeyGen.Db.{ShareRow}
use oprf_service.KeyGen.Db.Rows.{find_row, Later}
use oprf_service.KeyGen.Db.History as History
use oprf_service.Service.Session.{SecretManagerError, OprfKeyMaterial, deleted_oprf_key_id}
use oprf_service.Service.Secrets.{get_oprf_key_material, material_of}
use oprf_service.Service.Secrets.Reads.{fetch_row-find_row}
use oprf_service.Service.Store.{cached, evict, fetching, try_get_begin, try_insert}
use oprf_service.Service.Store.Steps.{
  Reading, Node, Step, Steps, hits, fetches, inserts, evicts, writes, done, next,
}
use oprf_service.Service.Store.Past.{All-split}

module _ {Share PublicKey : Type 0} where
  unfoldable pub IsDeleted : Option (ShareRow Share PublicKey) → Type 0
  IsDeleted none = ⊥
  IsDeleted (some row) = row.deleted ≡ true

  IsDeleted-Later :
      (old new : Option (ShareRow Share PublicKey)) → Later old new → IsDeleted old → IsDeleted new
  unfolding IsDeleted
  IsDeleted-Later none new l h = absurd h
  IsDeleted-Later (some row) none l h = absurd l
  IsDeleted-Later (some row) (some row') l h = ground (arith, l.1, h)

  material_of-deleted :
      (id : ℕ) (row : Option (ShareRow Share PublicKey))
      → IsDeleted row
      → material_of id row ≡ some (err (deleted_oprf_key_id id))
  unfolding IsDeleted material_of
  material_of-deleted id none h = absurd h
  material_of-deleted id (some row) h = rw h refl

  -- A read of another key, or one whose answer is the error for the deleted key.
  abbrev pub Refuses : ℕ → Reading Share PublicKey → Type 0
  Refuses id reading = (reading.0 ≢ id) ⊎ (reading.1 ≡ err (deleted_oprf_key_id id))

  -- The key is deleted in the table, not in the cache, and no read is under way that has found it.
  abbrev pub IsGone :
      ℕ
      → List (ShareRow Share PublicKey)
      → List (ℕ × OprfKeyMaterial Share PublicKey)
      → List (Reading Share PublicKey)
      → Type 0
  IsGone id rows store readings =
      IsDeleted (find_row id rows) × (cached id store ≡ none) × All (Refuses id) readings

  try_get_begin-deleted :
      (id : ℕ) (rows : List (ShareRow Share PublicKey))
      (store : List (ℕ × OprfKeyMaterial Share PublicKey))
      → IsDeleted (find_row id rows)
      → cached id store ≡ none
      → try_get_begin id rows store ≡ some (fetching (err (deleted_oprf_key_id id)))
  unfolding try_get_begin get_oprf_key_material
  try_get_begin-deleted id rows store h e =
      rw
        (
          try_get_begin,
          e,
          get_oprf_key_material,
          fetch_row-find_row id rows,
          material_of-deleted id (find_row id rows) h,
        )
        refl

  cached-evict :
      (id other : ℕ) (store : List (ℕ × OprfKeyMaterial Share PublicKey))
      → cached id store ≡ none
      → cached id (evict other store) ≡ none
  unfolding cached evict
  cached-evict id other [] e = refl
  cached-evict id other ((key, material) ∷ store) e = elim (Bool-cases (key == id)) [
    | inl q ↦ absurd (cc (rw q at e))
    | inr q ↦
        let rest = cached-evict id other store (rw q at e) in
        elim (Bool-cases (key == other)) [ inl p ↦ rw p rest | inr p ↦ rw (p, q) rest ]
  ]

  try_insert-Refuses :
      (id key : ℕ) (r : Result SecretManagerError (OprfKeyMaterial Share PublicKey))
      (store : List (ℕ × OprfKeyMaterial Share PublicKey))
      → Refuses id (key, r)
      → cached id store ≡ none
      → cached id (try_insert key r store) ≡ none
  unfolding try_insert cached
  try_insert-Refuses id key (err error) store h e = e
  try_insert-Refuses id key (ok material) store (inl ne) e =
      let q : (key == id) ≡ false = ground (arith, ne) in rw q e
  try_insert-Refuses id key (ok material) store (inr wrong) e = absurd (cc wrong)

module _ {Share PublicKey Intermediates : Type 0} where
  abbrev Gone : ℕ → Node Share PublicKey Intermediates → Type 0
  Gone id node = IsGone id node.db.shares node.store node.readings

  Step-Gone : (id : ℕ) (a b : Node Share PublicKey Intermediates) → Step a b → Gone id a → Gone id b
  Step-Gone id a _ (hits key material e) h = h
  Step-Gone id a _ (fetches key r e) (h, m, readings) = elim (Bool-cases (key == id)) [
    | inl q ↦
        let same : key ≡ id = ground (arith, q) in
        let found : try_get_begin id a.db.shares a.store ≡ some (fetching r) =
          subst (λ t. try_get_begin t a.db.shares a.store ≡ some (fetching r)) same e in
        (h, m, (inr (cc (try_get_begin-deleted id a.db.shares a.store h m, found)), readings))
    | inr q ↦ (h, m, (inl (ground (arith, q)), readings))
  ]
  Step-Gone id a _ (inserts key r before after e) (h, m, readings) =
      let (p, rest) =
        All-split (Refuses id) before (key, r) after (subst (All (Refuses id)) e readings) in
      (h, try_insert-Refuses id key r a.store p m, rest)
  Step-Gone id a _ (evicts key) (h, m, readings) = (h, cached-evict id key a.store m, readings)
  Step-Gone id a _ (writes db step) (h, m, readings) = (
    IsDeleted-Later (find_row id a.db.shares) (find_row id db.shares)
        (History.Steps-Later id a.db db (History.next step History.done)) h,
    m,
    readings,
  )

  Steps-Gone :
      (id : ℕ) (a b : Node Share PublicKey Intermediates) → Steps a b → Gone id a → Gone id b
  Steps-Gone id a _ done h = h
  Steps-Gone id a c (next {b = b} step steps) h = Steps-Gone id b c steps (Step-Gone id a b step h)

  -- Once a key is deleted in the table, its entry is not, or no longer, in the cache, and no read is
  -- under way that has found it: whatever reads, evictions and calls of the key-generation service come
  -- after, a read of the key begins with a query that answers with the error for deleted keys, all
  -- reads of it that are under way have that answer, and it is not in the cache.
  pub try_get-deleted :
      (id : ℕ) (a b : Node Share PublicKey Intermediates)
      → IsGone id a.db.shares a.store a.readings
      → Steps a b
      → (try_get_begin id b.db.shares b.store ≡ some (fetching (err (deleted_oprf_key_id id))))
        × All (Refuses id) b.readings
        × (cached id b.store ≡ none)
  try_get-deleted id a b h steps =
      let (d, m, readings) = Steps-Gone id a b steps h in
      (try_get_begin-deleted id b.db.shares b.store d m, readings, m)
