-- ===== src/Service/Secrets.antt =====
-- oprf-service/src/services/secret_manager/postgres.rs: the node reads the table `shares` that the
-- key-generation service writes. Columns stand for their values; a panic is `none`.
pub mod Reads
use oprf_service.Base.{
  ℕ, ◌^◌, List, [], ◌∷◌, Option, none, some, Result, ok, err, ltb, ◌==◌, if◌then◌else◌, bind_ok,
}
use oprf_service.KeyGen.Db.{ShareRow}
use oprf_service.Service.Session.{
  SecretManagerError, OprfKeyMaterial, unknown_oprf_key_id, deleted_oprf_key_id, internal,
}

module _ {Share PublicKey : Type 0} where
  -- The query by the primary key.
  unfoldable pub fetch_row : ℕ → List (ShareRow Share PublicKey) → Option (ShareRow Share PublicKey)
  fetch_row id [] = none
  fetch_row id (row ∷ rows) =
      let rest = fetch_row id rows in if row.id == id then some row else rest

  -- An epoch outside of `u32` panics, once the share is there.
  unfoldable pub db_row_into_key_material :
      ShareRow Share PublicKey
      → Option (Result SecretManagerError (OprfKeyMaterial Share PublicKey))
  db_row_into_key_material row = elim row.share [
    | none ↦ some (err internal)
    | some share ↦
        if ltb row.epoch (2 ^ 32)
        then some (ok (record { share = share; public_key = row.public_key; epoch = row.epoch }))
        else none
  ]

  unfoldable pub material_of :
      ℕ
      → Option (ShareRow Share PublicKey)
      → Option (Result SecretManagerError (OprfKeyMaterial Share PublicKey))
  unfolding db_row_into_key_material
  material_of id none = some (err (unknown_oprf_key_id id))
  material_of id (some row) =
      if row.deleted then some (err (deleted_oprf_key_id id)) else db_row_into_key_material row

  unfoldable pub get_oprf_key_material :
      ℕ
      → List (ShareRow Share PublicKey)
      → Option (Result SecretManagerError (OprfKeyMaterial Share PublicKey))
  unfolding fetch_row material_of
  get_oprf_key_material id rows = material_of id (fetch_row id rows)
