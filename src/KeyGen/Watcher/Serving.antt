-- ===== src/KeyGen/Watcher/Serving.antt =====
-- The writes into the tables that serve an event.
use oprf_service.Base.{◌≡◌, refl, subst}
use oprf_service.KeyGen.Db as Db
use oprf_service.KeyGen.Db.{
  ShareRow, KeygenRow, PostgresDbError, SecretManagerError, from_db_error, get_share_by_epoch_inner,
  soft_delete_shares_inner, delete_intermediates_inner, fetch_keygen,
}
use oprf_service.KeyGen.Effects.{call}
use oprf_service.KeyGen.Effects.Kept.{IsClosed}
use oprf_service.KeyGen.Retry.{Store}
use oprf_service.KeyGen.Manager.{Call, Beside}
use oprf_service.KeyGen.Postgres.Runs.{DbKeeps}
use oprf_service.KeyGen.Events.{KeyRegistryEvent}
use oprf_service.KeyGen.Handler.Runs.{Serves}

module _ {Share PublicKey Intermediates : Type 0} where
  -- One call, with some values that it stores.
  pub Made :
      Call → Db.Db Share PublicKey Intermediates → Db.Db Share PublicKey Intermediates → Type 0
  Made (Call.delete id) a b = b ≡ Db.delete_oprf_key_material id a
  Made (Call.abort id) a b = b ≡ Db.abort_keygen id a
  Made (Call.try_store id epoch) a b =
      (v : Intermediates) × (b ≡ (Db.try_store_keygen_intermediates id epoch v a).1)
  Made (Call.store_share id epoch) a b =
      (share : Share) × (b ≡ (Db.store_pending_dlog_share id epoch share a).1)
  Made (Call.confirm id epoch) a b =
      (public_key : PublicKey) × (b ≡ (Db.confirm_dlog_share id epoch public_key a).1)

module _ {Fr Share PublicKey Intermediates : Type 0} (event : KeyRegistryEvent Fr) where
  -- Any number of the writes that the event may make.
  pub data Serving
      : Db.Db Share PublicKey Intermediates → Db.Db Share PublicKey Intermediates → Type 0 where
    done : {a : Db.Db Share PublicKey Intermediates} → Serving a a
    next :
        {a b c : Db.Db Share PublicKey Intermediates} (call : Call)
        → Serves event call
        → Made call a b
        → Serving b c
        → Serving a c

  Serving-trans :
      (a b c : Db.Db Share PublicKey Intermediates) → Serving a b → Serving b c → Serving a c
  Serving-trans a _ c done t = t
  Serving-trans a b c (next {b = x} call s m rest) t = next call s m (Serving-trans x b c rest t)

  pub Serving-IsClosed : IsClosed Serving
  Serving-IsClosed = record { reflexive = λ a. done; transitive = Serving-trans }

  pub still : {a b : Db.Db Share PublicKey Intermediates} → a ≡ b → Serving a b
  still {a} e = subst (Serving a) e done

  pub Beside-IsClosed :
      {W : Type 0}
      → IsClosed (Beside {W = W} (λ (a b : Store Share PublicKey Intermediates). Serving a.db b.db))
  Beside-IsClosed = record {
    reflexive = λ a. done;
    transitive = λ a b c. Serving-trans a.0.db b.0.db c.0.db;
  }

  pub Serving-DbKeeps : DbKeeps Serving ⦃closed = Serving-IsClosed⦄ (Serves event)
  unfolding Made
  Serving-DbKeeps = record {
    delete = λ id m db. next (Call.delete id) m refl done;
    abort = λ id m db. next (Call.abort id) m refl done;
    try_store = λ id epoch m v db. next (Call.try_store id epoch) m (v, refl) done;
    store_share = λ id epoch m share db. next (Call.store_share id epoch) m (share, refl) done;
    confirm = λ id epoch m public_key db. next (Call.confirm id epoch) m (public_key, refl) done;
  }
