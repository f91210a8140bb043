-- ===== src/Service/Store/Past.antt =====
-- What the cache gives, the tables have given.
use oprf_service.Base.{
  ℕ, ◌≡◌, refl, sym, subst, List, [], ◌∷◌, ◌++◌, Option, none, some, Result, ok, err, All,
  Bool-cases, inl, inr, ◌==◌, arith,
}
use oprf_service.KeyGen.Db.{Db}
use oprf_service.KeyGen.Db.Rows.{find_row}
use oprf_service.KeyGen.Db.History as History
use oprf_service.KeyGen.Postgres.Runs.{Steps-trans, one}
use oprf_service.Service.Session.{SecretManagerError, OprfKeyMaterial}
use oprf_service.Service.Secrets.{get_oprf_key_material}
use oprf_service.Service.Store.{cached, evict, Begun, hit, fetching, try_get_begin, try_insert}
use oprf_service.Service.Store.Steps.{
  Reading, Node, Step, Steps, hits, fetches, inserts, evicts, writes, done, next,
}
use oprf_service.Service.Store.Given.{Given, get_oprf_key_material-Given}

-- Of a list with an element in the middle.
pub All-split {ℓ κ} :
    {A : Type ℓ} (P : A → Type κ) (before : List A) (x : A) (after : List A)
    → All P (before ++ (x ∷ after))
    → P x × All P (before ++ after)
All-split P [] x after h = h
All-split P (y ∷ before) x after (q, h) =
    let (p, rest) = All-split P before x after h in (p, (q, rest))

module _ {Share PublicKey Intermediates : Type 0} where
  -- At some moment since the tables were `a`, up to where they are `b`, the row of the key gave that
  -- answer.
  abbrev pub Past :
      ℕ
      → Result SecretManagerError (OprfKeyMaterial Share PublicKey)
      → Db Share PublicKey Intermediates
      → Db Share PublicKey Intermediates
      → Type 0
  Past id r a b =
      (c : Db Share PublicKey Intermediates) × History.Steps a c
      × History.Steps c b
      × Given id (find_row id c.shares) r

  abbrev pub PastEntries :
      Db Share PublicKey Intermediates
      → Db Share PublicKey Intermediates
      → List (ℕ × OprfKeyMaterial Share PublicKey)
      → Type 0
  PastEntries a b store = All (λ entry. Past entry.0 (ok entry.1) a b) store

  abbrev pub PastReadings :
      Db Share PublicKey Intermediates
      → Db Share PublicKey Intermediates
      → List (Reading Share PublicKey)
      → Type 0
  PastReadings a b readings = All (λ reading. Past reading.0 reading.1 a b) readings

  -- Every entry of the cache, and every answer that is under way.
  abbrev pub IsPast : Db Share PublicKey Intermediates → Node Share PublicKey Intermediates → Type 0
  IsPast a node = PastEntries a node.db node.store × PastReadings a node.db node.readings

  -- How a read begins: with such material, or such an answer.
  abbrev pub Begins :
      ℕ
      → Db Share PublicKey Intermediates
      → Db Share PublicKey Intermediates
      → Option (Begun Share PublicKey)
      → Type 0
  Begins id a b none = get_oprf_key_material id b.shares ≡ none
  Begins id a b (some (hit material)) = Past id (ok material) a b
  Begins id a b (some (fetching r)) = Past id r a b

  cached-Past :
      (id : ℕ) (a b : Db Share PublicKey Intermediates)
      (store : List (ℕ × OprfKeyMaterial Share PublicKey))
      (material : OprfKeyMaterial Share PublicKey)
      → PastEntries a b store
      → cached id store ≡ some material
      → Past id (ok material) a b
  unfolding cached
  cached-Past id a b [] material h e = absurd (cc e)
  cached-Past id a b ((key, m) ∷ store) material h e = elim (Bool-cases (key == id)) [
    | inl q ↦
        let same : key ≡ id = ground (arith, q) in
        let taken : some m ≡ some material = rw q at e in
        subst (λ t. Past id (ok t) a b) (cc taken) (subst (λ k. Past k (ok m) a b) same h.0)
    | inr q ↦ cached-Past id a b store material h.1 (rw q at e)
  ]

  evict-Past :
      (id : ℕ) (a b : Db Share PublicKey Intermediates)
      (store : List (ℕ × OprfKeyMaterial Share PublicKey))
      → PastEntries a b store
      → PastEntries a b (evict id store)
  unfolding evict
  evict-Past id a b [] h = h
  evict-Past id a b ((key, m) ∷ store) h = elim (Bool-cases (key == id)) [
    | inl q ↦ rw q (evict-Past id a b store h.1)
    | inr q ↦ rw q (h.0, evict-Past id a b store h.1)
  ]

  try_insert-Past :
      (id : ℕ) (a b : Db Share PublicKey Intermediates)
      (r : Result SecretManagerError (OprfKeyMaterial Share PublicKey))
      (store : List (ℕ × OprfKeyMaterial Share PublicKey))
      → Past id r a b
      → PastEntries a b store
      → PastEntries a b (try_insert id r store)
  unfolding try_insert
  try_insert-Past id a b (ok material) store p h = (p, h)
  try_insert-Past id a b (err e) store p h = h

  try_get_begin-Begins :
      (id : ℕ) (a b : Db Share PublicKey Intermediates)
      (store : List (ℕ × OprfKeyMaterial Share PublicKey))
      → History.Steps a b
      → PastEntries a b store
      → Begins id a b (try_get_begin id b.shares store)
  unfolding try_get_begin
  try_get_begin-Begins id a b store steps h = begin (cached id store) refl
    where
      query :
          (r : Option (Result SecretManagerError (OprfKeyMaterial Share PublicKey)))
          → get_oprf_key_material id b.shares ≡ r
          → Begins id a b (elim r [ none ↦ none | some r ↦ some (fetching r) ])
      query none e = e
      query (some r) e = (b, steps, History.done, get_oprf_key_material-Given id b.shares r e)

      begin :
          (c : Option (OprfKeyMaterial Share PublicKey))
          → cached id store ≡ c
          → Begins id a b (elim c [
            | some material ↦ some (hit material)
            | none ↦ elim (get_oprf_key_material id b.shares) [
              | none ↦ none
              | some r ↦ some (fetching r)
            ]
          ])
      begin (some material) e = cached-Past id a b store material h e
      begin none e = query (get_oprf_key_material id b.shares) refl

  later :
      (id : ℕ) (r : Result SecretManagerError (OprfKeyMaterial Share PublicKey))
      (a b b' : Db Share PublicKey Intermediates)
      → History.Step b b'
      → Past id r a b
      → Past id r a b'
  later id r a b b' step (c, before, after, given) =
      (c, before, Steps-trans c b b' after (one step), given)

  later_entries :
      (a b b' : Db Share PublicKey Intermediates)
      (store : List (ℕ × OprfKeyMaterial Share PublicKey))
      → History.Step b b'
      → PastEntries a b store
      → PastEntries a b' store
  later_entries a b b' [] step h = h
  later_entries a b b' ((id, m) ∷ store) step (p, h) =
      (later id (ok m) a b b' step p, later_entries a b b' store step h)

  later_readings :
      (a b b' : Db Share PublicKey Intermediates) (readings : List (Reading Share PublicKey))
      → History.Step b b'
      → PastReadings a b readings
      → PastReadings a b' readings
  later_readings a b b' [] step h = h
  later_readings a b b' ((id, r) ∷ readings) step (p, h) =
      (later id r a b b' step p, later_readings a b b' readings step h)

  abbrev Reached : Db Share PublicKey Intermediates → Node Share PublicKey Intermediates → Type 0
  Reached a node = History.Steps a node.db × IsPast a node

  Step-Reached :
      (a : Db Share PublicKey Intermediates) (m n : Node Share PublicKey Intermediates)
      → Step m n
      → Reached a m
      → Reached a n
  Step-Reached a m _ (hits id material e) h = h
  Step-Reached a m _ (fetches id r e) (steps, (entries, readings)) =
      let begun : Past id r a m.db =
        subst (Begins id a m.db) e (try_get_begin-Begins id a m.db m.store steps entries) in
      (steps, (entries, (begun, readings)))
  Step-Reached a m _ (inserts id r before after e) (steps, (entries, readings)) =
      let (p, rest) =
        All-split (λ reading. Past reading.0 reading.1 a m.db) before (id, r) after
          (subst (PastReadings a m.db) e readings) in
      (steps, (try_insert-Past id a m.db r m.store p entries, rest))
  Step-Reached a m _ (evicts id) (steps, (entries, readings)) =
      (steps, (evict-Past id a m.db m.store entries, readings))
  Step-Reached a m _ (writes db step) (steps, (entries, readings)) = (
    Steps-trans a m.db db steps (one step),
    (
      later_entries a m.db db m.store step entries,
      later_readings a m.db db m.readings step readings,
    ),
  )

  Steps-Reached :
      (a : Db Share PublicKey Intermediates) (m n : Node Share PublicKey Intermediates)
      → Steps m n
      → Reached a m
      → Reached a n
  Steps-Reached a m _ done h = h
  Steps-Reached a m n (next {b = b} step steps) h =
      Steps-Reached a b n steps (Step-Reached a m b step h)

  -- After a start with an empty cache and no reads under way, and any number of reads, evictions and
  -- calls of the key-generation service, in any order, also between the query of a read and its end:
  -- every entry of the cache, every answer that is under way, and whatever a new read begins with, is
  -- what the row of the key gave at some moment since the start. Material has the share, the public key
  -- and the epoch that the row had, which was not deleted; an error is the one for that row.
  pub try_get-Past :
      (id : ℕ) (a b : Node Share PublicKey Intermediates)
      → a.store ≡ []
      → a.readings ≡ []
      → Steps a b
      → IsPast a.db b × Begins id a.db b.db (try_get_begin id b.db.shares b.store)
  try_get-Past id a b e f steps =
      let (reached, past) = Steps-Reached a.db a b steps (
        History.done,
        (subst (PastEntries a.db a.db) (sym e) tt, subst (PastReadings a.db a.db) (sym f) tt),
      ) in
      (past, try_get_begin-Begins id a.db b.db b.store reached past.0)
