-- ===== src/KeyGen/Watcher/Flags.antt =====
-- The flags that the watcher shares with the service: its start, and the cancellation.
use oprf_service.Base.{◌≡◌, refl, true, List, Option, none, some, Result, ok, err}
use oprf_service.Algebra.Field.{Field}
use oprf_service.Algebra.Suite.{Suite}
use oprf_service.Types.Chain.{Report}
use oprf_service.KeyGen.Db.{ChainCursor}
use oprf_service.KeyGen.Effects.{after}
use oprf_service.KeyGen.Manager.{ChainCursorStorage}
use oprf_service.KeyGen.Events.{Abi}
use oprf_service.KeyGen.Handler.{KeyRegistryEventHandler}
use oprf_service.KeyGen.Watcher.{
  Turn, Status, waiting, ended, Task, in_world, event_loop, open_stream, watch, drop_guard,
  key_event_watcher_task,
}

-- The task goes on, started and not cancelled by its guard; or it is over, and cancelled.
abbrev pub Ends : {W : Type 0} → Task W → Option (Result Report Status) × Task W → Type 0
Ends before (some (ok waiting), task) =
    (task.start_signal ≡ true) × (task.cancellation ≡ before.cancellation)
Ends before (some (ok ended), task) = (task.start_signal ≡ true) × (task.cancellation ≡ true)
Ends before (some (err e), task) = task.cancellation ≡ true
Ends before (none, task) = task.cancellation ≡ true

-- By what opening the stream gives: the start is signalled, or the task is over without it.
abbrev pub Signals :
    {W A : Type 0}
    → Task W
    → Option (Result Report A)
    → Option (Result Report Status) × Task W
    → Type 0
Signals before (some (ok turns)) (r, task) = task.start_signal ≡ true
Signals before (some (err e)) (r, task) =
    (r ≡ some (err e)) × (task.start_signal ≡ before.start_signal) × (task.cancellation ≡ true)
Signals before none (r, task) =
    (r ≡ none) × (task.start_signal ≡ before.start_signal) × (task.cancellation ≡ true)

module _ {W Fr Fq Affine E Proof CompressedProof Receipt Data : Type 0} ⦃S : Field Fr⦄
    ⦃B : Field Fq⦄ (C : Suite Fr Fq Affine S) (abi : Abi Data)
    (self : KeyRegistryEventHandler W Fr Fq Affine E Proof CompressedProof Receipt)
    (service : ChainCursorStorage W Report) where
  -- The guard after the loop.
  looped-Ends :
      (task : Task W) (w : W) (out : Option (Result Report Status) × W)
      → Ends task (drop_guard (out.0, record task { world = out.1; start_signal = true }))
        × ((drop_guard (out.0, record task { world = out.1; start_signal = true })).1.start_signal
            ≡ true)
  unfolding drop_guard
  looped-Ends task w (none, w') = (refl, refl)
  looped-Ends task w (some (err e), w') = (refl, refl)
  looped-Ends task w (some (ok waiting), w') = ((refl, refl), refl)
  looped-Ends task w (some (ok ended), w') = ((refl, refl), refl)

  -- The rest of the task once the stream is opened, or not.
  abbrev opened_after :
      Task W
      → Option (Result Report (List (Turn Data))) × W
      → Option (Result Report Status) × Task W
  opened_after task out = drop_guard (
      after
        (λ turns task.
          in_world (event_loop C abi self service turns) (record task { start_signal = true }))
        (out.0, record task { world = out.1 }))

  opened-Ends :
      (task : Task W) (out : Option (Result Report (List (Turn Data))) × W)
      → Signals task out.0 (opened_after task out) × Ends task (opened_after task out)
  unfolding drop_guard
  opened-Ends task (none, w) = ((refl, refl, refl), refl)
  opened-Ends task (some (err e), w) = ((refl, refl, refl), refl)
  opened-Ends task (some (ok turns), w) =
      let (ends, signal) = looped-Ends task w (event_loop C abi self service turns w) in
      (signal, ends)

  -- The start is signalled exactly when the cursor was loaded and the stream of events was built. The
  -- task does not cancel the service while it waits for further events. Once it is over, by the end
  -- of the stream, by a cancellation, by an error or by a panic, the service is cancelled.
  pub key_event_watcher_task-Ends :
      (build : ChainCursor → Result Report (List (Turn Data))) (task : Task W)
      → Signals task
          (open_stream C abi self service build task.world).0
          (key_event_watcher_task C abi self service build task)
        × Ends task (key_event_watcher_task C abi self service build task)
  unfolding key_event_watcher_task watch
  key_event_watcher_task-Ends build task =
      opened-Ends task (open_stream C abi self service build task.world)
