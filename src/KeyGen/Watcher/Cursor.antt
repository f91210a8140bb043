-- ===== src/KeyGen/Watcher/Cursor.antt =====
-- How far the stored cursor is when the loop stops.
use oprf_service.Base.{
  ◌≡◌, refl, sym, ap, subst, ◌∙◌, ◌⊎◌, inl, inr, List, [], ◌∷◌, Option, none, some, Result, ok, err,
  if◌then◌else◌,
}
use oprf_service.Algebra.Field.{Field}
use oprf_service.Algebra.Suite.{Suite}
use oprf_service.Types.Chain.{Report}
use oprf_service.KeyGen.Db.{ChainCursor, CursorRow, as_i64, is_after}
use oprf_service.KeyGen.Effects.{after, convert}
use oprf_service.KeyGen.Effects.Kept.{IsClosed}
use oprf_service.KeyGen.Manager.{ChainCursorStorage, Any, ManagerKeeps}
use oprf_service.KeyGen.Events.{Log, Abi}
use oprf_service.KeyGen.Transactions.Runs.{ProviderKeeps}
use oprf_service.KeyGen.Handler.{KeyRegistryEventHandler}
use oprf_service.KeyGen.Handler.Runs.{RegistryKeeps}
use oprf_service.KeyGen.Watcher.{
  Turn, next, closed, cancelled, Status, waiting, ended, cursor_of, process, key_gen_event,
  event_loop,
}
use oprf_service.KeyGen.Watcher.Runs.{process-Keeps}

-- The stored cursor, once another is stored.
abbrev pub moved : ChainCursor → CursorRow → CursorRow
moved cursor row =
    let new : CursorRow = record { block = as_i64 cursor.block; idx = as_i64 cursor.index } in
    if is_after row new then new else row

module _ {W : Type 0} (at : W → CursorRow) where
  -- What the store of a cursor does, by its result: an error may be of the answer only.
  abbrev pub Stored : ChainCursor → W → Result Report (Unit {0}) × W → Type 0
  Stored cursor w (ok u, w') = at w' ≡ moved cursor (at w)
  Stored cursor w (err e, w') = (at w' ≡ at w) ⊎ (at w' ≡ moved cursor (at w))

  -- The calls that leave the cursor where it is.
  abbrev pub Same : W → W → Type 0
  Same a b = at b ≡ at a

  pub Same-IsClosed : IsClosed Same
  Same-IsClosed = record { reflexive = λ a. refl; transitive = λ a b c e f. f ∙ e }

-- A result that is a failure: an error, or a panic.
abbrev pub IsFailure : {A : Type 0} → Option (Result Report A) → Type 0
IsFailure none = Unit
IsFailure (some (err e)) = Unit
IsFailure (some (ok a)) = ⊥

-- A run of the loop, by the turns, the cursor before, the result and the cursor after. `done log`
-- says that the log was handled.
pub data Progress {Data : Type 0} (done : Log Data → Type 0)
    : List (Turn Data) → CursorRow → Option (Result Report Status) → CursorRow → Type 0 where
  -- No turn is left.
  waits : {row : CursorRow} → Progress done [] row (some (ok waiting)) row
  closes :
      {turns : List (Turn Data)} {row : CursorRow}
      → Progress done (closed ∷ turns) row (some (ok ended)) row
  cancels :
      {turns : List (Turn Data)} {row : CursorRow}
      → Progress done (cancelled ∷ turns) row (some (ok ended)) row
  -- The turn fails, and the cursor is where it was.
  fails :
      {log : Result Report (Log Data)} {turns : List (Turn Data)} {row : CursorRow}
      {r : Option (Result Report Status)}
      → IsFailure r
      → Progress done (next log ∷ turns) row r row
  -- A log is handled and the cursor moved to it, but the answer is an error.
  unacknowledged :
      {log : Log Data} {turns : List (Turn Data)} {row : CursorRow} {e : Report}
      (cursor : ChainCursor)
      → done log
      → cursor_of log ≡ ok cursor
      → Progress done (next (ok log) ∷ turns) row (some (err e)) (moved cursor row)
  -- A log is handled, the cursor moved to it, and the loop goes on.
  goes_on :
      {log : Log Data} {turns : List (Turn Data)} {row last : CursorRow}
      {r : Option (Result Report Status)} (cursor : ChainCursor)
      → done log
      → cursor_of log ≡ ok cursor
      → Progress done turns (moved cursor row) r last
      → Progress done (next (ok log) ∷ turns) row r last

module _ {W Fr Fq Affine E Proof CompressedProof Receipt Data : Type 0} ⦃S : Field Fr⦄
    ⦃B : Field Fq⦄ (C : Suite Fr Fq Affine S) (abi : Abi Data)
    (self : KeyRegistryEventHandler W Fr Fq Affine E Proof CompressedProof Receipt)
    (service : ChainCursorStorage W Report) where
  -- The log was processed in some state of the world, without an error or with one that is taken as
  -- handled.
  abbrev pub IsDone : Log Data → Type 0
  IsDone log = (w w' : W) × (process C abi self service log w ≡ (some (ok tt), w'))

module _ {W Fr Fq Affine E Proof CompressedProof Receipt Data : Type 0} ⦃S : Field Fr⦄
    ⦃B : Field Fq⦄ (C : Suite Fr Fq Affine S) (abi : Abi Data)
    (self : KeyRegistryEventHandler W Fr Fq Affine E Proof CompressedProof Receipt)
    (service : ChainCursorStorage W Report) (at : W → CursorRow)
    (manager : ManagerKeeps (Same at) Any self.secret_manager)
    (registry : RegistryKeeps (Same at) self.contract)
    (provider : ProviderKeeps (Same at) self.provider)
    (store : (cursor : ChainCursor) (w : W)
      → Stored at cursor w (service.store_chain_cursor cursor w)) where
  -- How the handling of one log turns out.
  abbrev Handled : Log Data → W → Option (Result Report (Unit {0})) × W → Type 0
  Handled log w (none, w') = at w' ≡ at w
  Handled log w (some (err e), w') =
      (at w' ≡ at w)
      ⊎ ((cursor : ChainCursor) × (IsDone C abi self service log
            × ((cursor_of log ≡ ok cursor) × (at w' ≡ moved cursor (at w)))))
  Handled log w (some (ok u), w') =
      (cursor : ChainCursor) × (IsDone C abi self service log
        × ((cursor_of log ≡ ok cursor) × (at w' ≡ moved cursor (at w))))

  -- What `key_gen_event` does after the processing.
  abbrev store_after :
      Log Data → Option (Result Report (Unit {0})) × W → Option (Result Report (Unit {0})) × W
  store_after log out =
      after
        (λ _ w.
          after (λ cursor w. convert (λ e. e) (service.store_chain_cursor cursor w))
            (some (cursor_of log), w))
        out

  answered-Handled :
      (log : Log Data) (w w' : W) (cursor : ChainCursor) (out : Result Report (Unit {0}) × W)
      → IsDone C abi self service log
      → cursor_of log ≡ ok cursor
      → at w' ≡ at w
      → Stored at cursor w' out
      → Handled log w (convert (λ e. e) out)
  answered-Handled log w w' cursor (ok u, v) d q s h = (cursor, (d, (q, h ∙ ap (moved cursor) s)))
  answered-Handled log w w' cursor (err e, v) d q s (inl h) = inl (h ∙ s)
  answered-Handled log w w' cursor (err e, v) d q s (inr h) =
      inr (cursor, (d, (q, h ∙ ap (moved cursor) s)))

  cursor-Handled :
      (log : Log Data) (w w' : W) (r : Result Report ChainCursor)
      → cursor_of log ≡ r
      → IsDone C abi self service log
      → at w' ≡ at w
      → Handled log w
          (after (λ cursor w. convert (λ e. e) (service.store_chain_cursor cursor w)) (some r, w'))
  cursor-Handled log w w' (err e) q d s = inl s
  cursor-Handled log w w' (ok cursor) q d s =
      answered-Handled log w w' cursor (service.store_chain_cursor cursor w') d q s
        (store cursor w')

  processed-Handled :
      (log : Log Data) (w : W) (out : Option (Result Report (Unit {0})) × W)
      → process C abi self service log w ≡ out
      → at out.1 ≡ at w
      → Handled log w (store_after log out)
  processed-Handled log w (none, w') e s = s
  processed-Handled log w (some (err x), w') e s = inl s
  processed-Handled log w (some (ok u), w') e s =
      cursor-Handled log w w' (cursor_of log) refl (w, w', e) s

  key_gen_event-Handled :
      (log : Log Data) (w : W) → Handled log w (key_gen_event C abi self service log w)
  unfolding key_gen_event
  key_gen_event-Handled log w = processed-Handled log w (process C abi self service log w) refl (
      process-Keeps C abi self service (Same at) ⦃closed_R = Same-IsClosed at⦄ manager registry
        provider log w)

  -- What the loop does after a log.
  abbrev loop_after :
      List (Turn Data) → Option (Result Report (Unit {0})) × W → Option (Result Report Status) × W
  loop_after turns out = after (λ _. event_loop C abi self service turns) out

  loop_after-Progress :
      (log : Log Data) (turns : List (Turn Data)) (w : W)
      (out : Option (Result Report (Unit {0})) × W)
      → Handled log w out
      → Progress
          (IsDone C abi self service)
          turns
          (at out.1)
          (event_loop C abi self service turns out.1).0
          (at (event_loop C abi self service turns out.1).1)
      → Progress
          (IsDone C abi self service)
          (next (ok log) ∷ turns)
          (at w)
          (loop_after turns out).0
          (at (loop_after turns out).1)
  loop_after-Progress log turns w (none, w') h rest =
      subst (Progress (IsDone C abi self service) (next (ok log) ∷ turns) (at w) none) (sym h)
        (fails tt)
  loop_after-Progress log turns w (some (err e), w') (inl h) rest =
      subst (Progress (IsDone C abi self service) (next (ok log) ∷ turns) (at w) (some (err e)))
        (sym h) (fails tt)
  loop_after-Progress log turns w (some (err e), w') (inr (cursor, (d, (q, h)))) rest =
      subst (Progress (IsDone C abi self service) (next (ok log) ∷ turns) (at w) (some (err e)))
        (sym h) (unacknowledged cursor d q)
  loop_after-Progress log turns w (some (ok u), w') (cursor, (d, (q, h))) rest =
      goes_on cursor d q (
        subst
          (λ row.
            Progress (IsDone C abi self service) turns row
              (event_loop C abi self service turns w').0
              (at (event_loop C abi self service turns w').1))
          h rest)

  -- Where only the store of a cursor moves it, and an error of the store leaves it or is of the
  -- answer only: every run of the loop moves the cursor from handled log to handled log, in order,
  -- and stops at the first turn that is not handled. A log that fails leaves the cursor before it.
  -- The only log before the cursor for which the loop stops is one that was handled, and the answer
  -- of its store was lost.
  pub event_loop-Progress :
      (turns : List (Turn Data)) (w : W)
      → Progress
          (IsDone C abi self service)
          turns
          (at w)
          (event_loop C abi self service turns w).0
          (at (event_loop C abi self service turns w).1)
  unfolding event_loop
  event_loop-Progress [] w = waits
  event_loop-Progress (closed ∷ turns) w = closes
  event_loop-Progress (cancelled ∷ turns) w = cancels
  event_loop-Progress (next (err e) ∷ turns) w = fails tt
  event_loop-Progress (next (ok log) ∷ turns) w =
      let out = key_gen_event C abi self service log w in
      loop_after-Progress log turns w out (key_gen_event-Handled log w)
        (event_loop-Progress turns out.1)
