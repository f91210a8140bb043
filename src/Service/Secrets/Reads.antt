-- ===== src/Service/Secrets/Reads.antt =====
-- What a node reads after the key-generation service has written.
use oprf_service.Base.{
  ℕ, ◌<◌, ◌^◌, ◌≡◌, refl, ap, ◌∙◌, List, [], ◌∷◌, true, Option, none, some, Result, ok, err, All,
  arith, ◌≢◌, subst,
}
use oprf_service.KeyGen.Db.{Db, ShareRow, get_share_by_epoch_inner}
use oprf_service.KeyGen.Db.Rows.{find_row, IsKeyed, Later, get_share_by_epoch_inner-other}
use oprf_service.KeyGen.Db.History.{Steps, Steps-Later}
use oprf_service.Service.Session.{OprfKeyMaterial, SecretManagerError, deleted_oprf_key_id}
use oprf_service.Service.Secrets.{
  fetch_row, db_row_into_key_material, material_of, get_oprf_key_material,
}

module _ {Share PublicKey : Type 0} where
  pub fetch_row-find_row :
      (id : ℕ) (rows : List (ShareRow Share PublicKey)) → fetch_row id rows ≡ find_row id rows
  unfolding fetch_row find_row
  fetch_row-find_row id [] = refl
  fetch_row-find_row id (row ∷ rows) = ground (arith, fetch_row-find_row id rows)

  -- The material has that share and epoch.
  abbrev pub Gives :
      Share → ℕ → Option (Result SecretManagerError (OprfKeyMaterial Share PublicKey)) → Type 0
  Gives share epoch none = ⊥
  Gives share epoch (some (err _)) = ⊥
  Gives share epoch (some (ok material)) = (material.share ≡ share) × (material.epoch ≡ epoch)

  -- Where the key-generation service reads a share for an epoch of `u32`, the node gets the key
  -- material with that share and epoch. The keys of the table are distinct.
  pub get_oprf_key_material-Gives :
      (id epoch : ℕ) (share : Share) (rows : List (ShareRow Share PublicKey))
      → IsKeyed rows
      → epoch < 2 ^ 32
      → get_share_by_epoch_inner id epoch rows ≡ ok (some share)
      → Gives share epoch (get_oprf_key_material id rows)
  unfolding get_oprf_key_material fetch_row material_of db_row_into_key_material
      get_share_by_epoch_inner
  get_oprf_key_material-Gives id epoch share [] k l e = absurd (cc e)
  get_oprf_key_material-Gives id epoch share (row ∷ rows) k l e = ground (
    arith,
    get_oprf_key_material-Gives id epoch share rows k.1 l,
    (λ (q : row.id ≡ id).
        get_share_by_epoch_inner-other id epoch rows
          (subst (λ t. All (λ other. t ≢ other.id) rows) q k.0)),
  )

  deleted_read :
      (id : ℕ) (old : ShareRow Share PublicKey) (new : Option (ShareRow Share PublicKey))
      → Later (some old) new
      → old.deleted ≡ true
      → material_of id new ≡ some (err (deleted_oprf_key_id id))
  unfolding material_of
  deleted_read id old none l d = absurd l
  deleted_read id old (some row) l d = ground (arith, l.1)

module _ {Share PublicKey Intermediates : Type 0} where
  -- Once a key is deleted, a node that asks for it is told so, after any number of calls of the
  -- key-generation service.
  pub get_oprf_key_material-deleted :
      (id : ℕ) (a b : Db Share PublicKey Intermediates) (row : ShareRow Share PublicKey)
      → find_row id a.shares ≡ some row
      → row.deleted ≡ true
      → Steps a b
      → get_oprf_key_material id b.shares ≡ some (err (deleted_oprf_key_id id))
  unfolding get_oprf_key_material
  get_oprf_key_material-deleted id a b row f d steps =
      ap (material_of id) (fetch_row-find_row id b.shares)
      ∙ deleted_read id row (find_row id b.shares)
          (subst (λ t. Later t (find_row id b.shares)) f (Steps-Later id a b steps)) d
