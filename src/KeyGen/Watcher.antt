-- ===== src/KeyGen/Watcher.antt =====
-- oprf-key-gen/src/services/key_event_watcher.rs: the task that takes the contract's events one by
-- one, and keeps in the database how far it has come.
pub mod Runs
pub mod Tables
pub mod Serving
pub mod Writes
pub mod Resume
pub mod Flags
pub mod Cursor
use oprf_service.Base.{
  ℕ, Bool, true, false, List, [], ◌∷◌, Option, none, some, Result, ok, err, ok_or, bind_ok, map_err,
}
use oprf_service.Algebra.Field.{Field}
use oprf_service.Algebra.Suite.{Suite}
use oprf_service.Types.Chain.{Report, report}
use oprf_service.KeyGen.Db.{ChainCursor}
use oprf_service.KeyGen.Effects.{M, ◌>>=◌, ◌>>◌, pure, fail, lift, call}
use oprf_service.KeyGen.Manager.{ChainCursorStorage}
use oprf_service.KeyGen.Errors.{KeyRegistryEventError, handle_soft_errors}
use oprf_service.KeyGen.Events.{Log, Abi, try_decode_log}
use oprf_service.KeyGen.Handler.{KeyRegistryEventHandler, handle}

-- What the loop is woken by: the next item of the stream of events, its end, or the cancellation.
pub data Turn (Data : Type 0) : Type 0 where
  next : Result Report (Log Data) → Turn Data
  closed cancelled : Turn Data

-- How the loop stands: it waits for a further turn, or it has ended.
pub data Status : Type 0 where
  waiting ended : Status

-- `block_number` and `log_index` of a log.
unfoldable pub cursor_of : {Data : Type 0} → Log Data → Result Report ChainCursor
cursor_of log = bind_ok (ok_or log.block_number report) (λ block_number.
    bind_ok (ok_or log.log_index report)
      (λ index. ok (record { block = block_number; index = index })))

-- A result as a value.
abbrev pub inspect :
    {W E A : Type 0} → Option (Result E A) × W → Option (Result Report (Result E A)) × W
inspect (none, w) = (none, w)
inspect (some r, w) = (some (ok r), w)

abbrev pub result_of : {W E A : Type 0} → M W E A → M W Report (Result E A)
result_of m w = inspect (m w)

-- The task with the two flags it shares with the service: its start, and the cancellation.
pub record Task (W : Type 0) : Type 0 where
  pub world : W
  pub start_signal : Bool
  pub cancellation : Bool

abbrev pub in_world : {W E A : Type 0} → M W E A → M (Task W) E A
in_world m task = let out = m task.world in (out.0, record task { world = out.1 })

abbrev pub started : {W : Type 0} → M (Task W) Report (Unit {0})
started task = (some (ok tt), record task { start_signal = true })

-- The guard cancels when the task returns, or unwinds.
unfoldable pub drop_guard :
    {W : Type 0} → Option (Result Report Status) × Task W → Option (Result Report Status) × Task W
drop_guard (some (ok waiting), task) = (some (ok waiting), task)
drop_guard (some (ok ended), task) = (some (ok ended), record task { cancellation = true })
drop_guard (some (err e), task) = (some (err e), record task { cancellation = true })
drop_guard (none, task) = (none, record task { cancellation = true })

module _ {W Fr Fq Affine E Proof CompressedProof Receipt Data : Type 0} ⦃S : Field Fr⦄
    ⦃B : Field Fq⦄ (C : Suite Fr Fq Affine S) (abi : Abi Data)
    (event_handler : KeyRegistryEventHandler W Fr Fq Affine E Proof CompressedProof Receipt)
    (chain_cursor_service : ChainCursorStorage W Report) where
  -- The handling of a log, with its error taken as handled or not.
  unfoldable pub process : Log Data → M W Report (Unit {0})
  unfolding try_decode_log handle handle_soft_errors
  process log = do
    event ← lift (try_decode_log abi log)
    result ← result_of (handle C event_handler event)
    lift (handle_soft_errors result)

  unfoldable pub key_gen_event : Log Data → M W Report (Unit {0})
  unfolding process cursor_of
  key_gen_event log = do
    process log
    chain_cursor ← lift (cursor_of log)
    call (λ e. e) (chain_cursor_service.store_chain_cursor chain_cursor)

  -- The loop, over the turns that there are so far.
  unfoldable pub event_loop : List (Turn Data) → M W Report Status
  unfolding key_gen_event
  event_loop [] = pure waiting
  event_loop (closed ∷ turns) = pure ended
  event_loop (cancelled ∷ turns) = pure ended
  event_loop (next log ∷ turns) =
      let rest = event_loop turns in do log ← lift log; key_gen_event log; rest

  -- The events from where the database has come to.
  unfoldable pub open_stream :
      (ChainCursor → Result Report (List (Turn Data))) → M W Report (List (Turn Data))
  open_stream build = do
    chain_cursor ← call (λ e. e) chain_cursor_service.load_chain_cursor
    lift (build chain_cursor)

  -- `build` is the stream of events that starts at a cursor.
  unfoldable pub watch : (ChainCursor → Result Report (List (Turn Data))) → M (Task W) Report Status
  unfolding open_stream event_loop
  watch build = do
    event_stream ← in_world (open_stream build)
    started
    in_world (event_loop event_stream)

  unfoldable pub key_event_watcher_task :
      (ChainCursor → Result Report (List (Turn Data))) → M (Task W) Report Status
  unfolding watch drop_guard
  key_event_watcher_task build task = drop_guard (watch build task)
