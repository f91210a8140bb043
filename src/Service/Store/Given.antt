-- ===== src/Service/Store/Given.antt =====
-- What the answer of the secret manager says of the table.
use oprf_service.Base.{
  ℕ, ◌≡◌, sym, ap, ◌∙◌, List, Option, none, some, Result, ok, err, arith, true, false,
}
use oprf_service.KeyGen.Db.{ShareRow}
use oprf_service.KeyGen.Db.Rows.{find_row}
use oprf_service.Service.Session.{
  SecretManagerError, OprfKeyMaterial, unknown_oprf_key_id, deleted_oprf_key_id, internal,
}
use oprf_service.Service.Secrets.{get_oprf_key_material, material_of, db_row_into_key_material}
use oprf_service.Service.Secrets.Reads.{fetch_row-find_row}

module _ {Share PublicKey : Type 0} where
  -- By the row of the key: the material is that of a row that is not deleted, and an error is the one
  -- for the lack of a row, for a deleted one, or for one without a share.
  unfoldable pub Given :
      ℕ
      → Option (ShareRow Share PublicKey)
      → Result SecretManagerError (OprfKeyMaterial Share PublicKey)
      → Type 0
  Given id none r = r ≡ err (unknown_oprf_key_id id)
  Given id (some row) (ok material) =
      (row.deleted ≡ false)
      × (row.share ≡ some material.share)
      × (material.public_key ≡ row.public_key)
      × (material.epoch ≡ row.epoch)
  Given id (some row) (err (unknown_oprf_key_id _)) = ⊥
  Given id (some row) (err (deleted_oprf_key_id key)) = (row.deleted ≡ true) × (key ≡ id)
  Given id (some row) (err internal) = (row.deleted ≡ false) × (row.share ≡ none)

  material_of-Given :
      (id : ℕ) (row : Option (ShareRow Share PublicKey))
      (r : Result SecretManagerError (OprfKeyMaterial Share PublicKey))
      → material_of id row ≡ some r
      → Given id row r
  unfolding material_of db_row_into_key_material Given
  material_of-Given id none r e = cc e
  material_of-Given id (some row) (ok material) e = ground (arith, e)
  material_of-Given id (some row) (err (unknown_oprf_key_id _)) e = ground (arith, e)
  material_of-Given id (some row) (err (deleted_oprf_key_id key)) e = ground (arith, e)
  material_of-Given id (some row) (err internal) e = ground (arith, e)

  pub get_oprf_key_material-Given :
      (id : ℕ) (rows : List (ShareRow Share PublicKey))
      (r : Result SecretManagerError (OprfKeyMaterial Share PublicKey))
      → get_oprf_key_material id rows ≡ some r
      → Given id (find_row id rows) r
  unfolding get_oprf_key_material
  get_oprf_key_material-Given id rows r e =
      material_of-Given id (find_row id rows) r
        (ap (material_of id) (sym (fetch_row-find_row id rows)) ∙ e)
