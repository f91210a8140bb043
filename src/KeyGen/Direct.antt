-- ===== src/KeyGen/Direct.antt =====
-- The secret manager on a connection that never fails: the calls of Db.
use oprf_service.Base.{ok}
use oprf_service.KeyGen.Db as Db
use oprf_service.KeyGen.Db.{Db}
use oprf_service.KeyGen.Manager.{SecretManager}

module _ {Share PublicKey Intermediates : Type 0} where
  abbrev pub direct_manager :
      SecretManager (Db Share PublicKey Intermediates) Share PublicKey Intermediates
  direct_manager = record {
    store_node_information = λ info db. (ok tt, Db.store_node_information info db);
    get_share_by_epoch = λ id epoch db. (Db.get_share_by_epoch id epoch db, db);
    delete_oprf_key_material = λ id db. (ok tt, Db.delete_oprf_key_material id db);
    abort_keygen = λ id db. (ok tt, Db.abort_keygen id db);
    try_store_keygen_intermediates = λ id epoch v db.
        let out = Db.try_store_keygen_intermediates id epoch v db in (ok out.0, out.1);
    fetch_keygen_intermediates = λ id epoch db. (Db.fetch_keygen_intermediates id epoch db, db);
    store_pending_dlog_share = Db.store_pending_dlog_share;
    confirm_dlog_share = Db.confirm_dlog_share;
  }
