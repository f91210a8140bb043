-- ===== src/Service/Store.antt =====
-- oprf-service/src/services/oprf_key_material_store.rs: the cache of key material in front of the
-- table that the key-generation service writes. try_get waits for the secret manager where the key is
-- not cached, so it is three functions: what the cache has, the query, and what is done with its answer
-- once it is there. The cache may evict any entry at any time; a panic is `none`.
pub mod Steps
pub mod Given
pub mod Past
pub mod Deleted
use oprf_service.Base.{ℕ, List, [], ◌∷◌, Option, none, some, Result, ok, err, ◌==◌, if◌then◌else◌}
use oprf_service.KeyGen.Db.{ShareRow}
use oprf_service.Service.Session.{SecretManagerError, OprfKeyMaterial}
use oprf_service.Service.Secrets.{get_oprf_key_material}

-- How `try_get` begins: with the material of the cache, or with the answer of the query, which is
-- still under way.
pub data Begun (Share PublicKey : Type 0) : Type 0 where
  hit : OprfKeyMaterial Share PublicKey → Begun Share PublicKey
  fetching : Result SecretManagerError (OprfKeyMaterial Share PublicKey) → Begun Share PublicKey

module _ {Share PublicKey : Type 0} where
  unfoldable pub cached :
      ℕ → List (ℕ × OprfKeyMaterial Share PublicKey) → Option (OprfKeyMaterial Share PublicKey)
  cached id [] = none
  cached id ((key, material) ∷ store) =
      let rest = cached id store in if key == id then some material else rest

  unfoldable pub evict :
      ℕ → List (ℕ × OprfKeyMaterial Share PublicKey) → List (ℕ × OprfKeyMaterial Share PublicKey)
  evict id [] = []
  evict id ((key, material) ∷ store) =
      let rest = evict id store in if key == id then rest else (key, material) ∷ rest

  unfoldable pub try_get_begin :
      ℕ
      → List (ShareRow Share PublicKey)
      → List (ℕ × OprfKeyMaterial Share PublicKey)
      → Option (Begun Share PublicKey)
  unfolding cached
  try_get_begin id rows store = elim (cached id store) [
    | some material ↦ some (hit material)
    | none ↦ elim (get_oprf_key_material id rows) [ none ↦ none | some r ↦ some (fetching r) ]
  ]

  -- The answer of the query is inserted, unless it is an error; it is what `try_get` gives.
  unfoldable pub try_insert :
      ℕ
      → Result SecretManagerError (OprfKeyMaterial Share PublicKey)
      → List (ℕ × OprfKeyMaterial Share PublicKey)
      → List (ℕ × OprfKeyMaterial Share PublicKey)
  try_insert id (ok material) store = (id, material) ∷ store
  try_insert id (err e) store = store
