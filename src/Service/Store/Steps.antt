-- ===== src/Service/Store/Steps.antt =====
-- The cache over any sequence of reads, evictions, and calls of the key-generation service; any of
-- these may come between the query of a read and its end.
use oprf_service.Base.{ℕ, ◌≡◌, List, ◌∷◌, ◌++◌, some, Result}
use oprf_service.KeyGen.Db.{Db}
use oprf_service.KeyGen.Db.History as History
use oprf_service.Service.Session.{SecretManagerError, OprfKeyMaterial}
use oprf_service.Service.Store.{evict, hit, fetching, try_get_begin, try_insert}

-- A read whose query has its answer.
abbrev pub Reading : Type 0 → Type 0 → Type 0
Reading Share PublicKey = ℕ × Result SecretManagerError (OprfKeyMaterial Share PublicKey)

-- A node with its cache and its reads that are under way, and the tables that it reads.
pub record Node (Share PublicKey Intermediates : Type 0) : Type 0 where
  pub db : Db Share PublicKey Intermediates
  pub store : List (ℕ × OprfKeyMaterial Share PublicKey)
  pub readings : List (Reading Share PublicKey)

module _ {Share PublicKey Intermediates : Type 0} where
  pub data Step
      : Node Share PublicKey Intermediates → Node Share PublicKey Intermediates → Type 0 where
    hits :
        (id : ℕ) {node : Node Share PublicKey Intermediates}
        (material : OprfKeyMaterial Share PublicKey)
        → try_get_begin id node.db.shares node.store ≡ some (hit material)
        → Step node node
    fetches :
        (id : ℕ) {node : Node Share PublicKey Intermediates}
        (r : Result SecretManagerError (OprfKeyMaterial Share PublicKey))
        → try_get_begin id node.db.shares node.store ≡ some (fetching r)
        → Step node (record node { readings = (id, r) ∷ node.readings })
    inserts :
        (id : ℕ) {node : Node Share PublicKey Intermediates}
        (r : Result SecretManagerError (OprfKeyMaterial Share PublicKey))
        (before after : List (Reading Share PublicKey))
        → node.readings ≡ before ++ ((id, r) ∷ after)
        → Step node (record node { store = try_insert id r node.store; readings = before ++ after })
    evicts :
        (id : ℕ) {node : Node Share PublicKey Intermediates}
        → Step node (record node { store = evict id node.store })
    writes :
        {node : Node Share PublicKey Intermediates} (db : Db Share PublicKey Intermediates)
        → History.Step node.db db
        → Step node (record node { db = db })

  pub data Steps
      : Node Share PublicKey Intermediates → Node Share PublicKey Intermediates → Type 0 where
    done : {node : Node Share PublicKey Intermediates} → Steps node node
    next : {a b c : Node Share PublicKey Intermediates} → Step a b → Steps b c → Steps a c
