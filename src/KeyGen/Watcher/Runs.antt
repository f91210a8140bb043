-- ===== src/KeyGen/Watcher/Runs.antt =====
-- What every call of the database and of the chain keeps, the watcher keeps.
use oprf_service.Base.{Option, none, some, Result}
use oprf_service.Algebra.Field.{Field}
use oprf_service.Algebra.Suite.{Suite}
use oprf_service.Types.Chain.{Report}
use oprf_service.KeyGen.Effects.Kept.{IsClosed, Keeps, Kept, ◌>>=◌, lifted}
use oprf_service.KeyGen.Manager.{ChainCursorStorage, Any, ManagerKeeps}
use oprf_service.KeyGen.Errors.{KeyRegistryEventError, handle_soft_errors}
use oprf_service.KeyGen.Events.{Log, Abi, KeyRegistryEvent, try_decode_log}
use oprf_service.KeyGen.Transactions.Runs.{ProviderKeeps}
use oprf_service.KeyGen.Handler.{KeyRegistryEventHandler, handle}
use oprf_service.KeyGen.Handler.Runs.{RegistryKeeps, handle-Keeps}
use oprf_service.KeyGen.Watcher.{inspect, result_of, process}

module _ {W Fr Fq Affine E Proof CompressedProof Receipt Data : Type 0} ⦃S : Field Fr⦄
    ⦃B : Field Fq⦄ (C : Suite Fr Fq Affine S) (abi : Abi Data)
    (self : KeyRegistryEventHandler W Fr Fq Affine E Proof CompressedProof Receipt)
    (service : ChainCursorStorage W Report) (R : W → W → Type 0) ⦃closed_R : IsClosed R⦄
    (manager : ManagerKeeps R Any self.secret_manager) (registry : RegistryKeeps R self.contract)
    (provider : ProviderKeeps R self.provider) where
  inspect-state :
      {A X : Type 0} (w : W) (out : Option (Result X A) × W) → R w out.1 → R w (inspect out).1
  inspect-state w (none, w') h = h
  inspect-state w (some r, w') h = h

  handled : KeyRegistryEvent Fr → Kept R Report (Result (KeyRegistryEventError E) (Unit {0}))
  handled event = record {
    run = result_of (handle C self event);
    keeps = λ w.
        inspect-state w (handle C self event w)
          (handle-Keeps C self R Any manager registry provider event (λ call m. tt) w);
  }

  processed : Log Data → Kept R Report (Unit {0})
  processed log = do
    event ← lifted (try_decode_log abi log)
    result ← handled event
    lifted (handle_soft_errors result)

  pub process-Keeps : (log : Log Data) → Keeps R (process C abi self service log)
  unfolding process processed handled
  process-Keeps log = (processed log).keeps
