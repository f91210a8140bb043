-- ===== src/KeyGen/Db/Cursor.antt =====
-- The cursor of the chain moves forwards only.
use oprf_service.Base.{◌+◌, ap₂, ℕ, ◌<◌, ◌≤◌, ◌^◌, ◌≡◌, refl, ◌⊎◌, inl, inr, arith, true, false}
use oprf_service.KeyGen.Db.{
  Db, ChainCursor, CursorRow, load_chain_cursor, store_chain_cursor, as_i64, is_after,
}

-- What a cursor that was stored reads back as.
pub as_i64-as_i64 : (n : ℕ) → n < 2 ^ 64 → as_i64 (as_i64 n) ≡ n
as_i64-as_i64 n h = omega arith

-- The order of numbers of 64 bits that are read as signed: those from 2 ^ 63 on are negative.
abbrev pub Lower : ℕ → ℕ → Type 0
Lower a b =
    ((2 ^ 63 ≤ a) × (b < 2 ^ 63))
    ⊎ ((a < b) × ((a < 2 ^ 63) × (b < 2 ^ 63)))
    ⊎ ((a < b) × ((2 ^ 63 ≤ a) × (2 ^ 63 ≤ b)))

-- The order of cursors whose numbers are read as signed: by block, then by index.
abbrev pub Before : ChainCursor → ChainCursor → Type 0
Before a b = Lower a.block b.block ⊎ ((a.block ≡ b.block) × Lower a.index b.index)

-- A row with bytes of 64 bits, and a cursor with numbers of 64 bits.
abbrev pub IsRow : CursorRow → Type 0
IsRow row = (row.block < 2 ^ 64) × (row.idx < 2 ^ 64)

abbrev pub IsWord : ChainCursor → Type 0
IsWord cursor = (cursor.block < 2 ^ 64) × (cursor.index < 2 ^ 64)

-- The cast swaps the halves.
as_i64-cases :
    (n : ℕ)
    → n < 2 ^ 64
    → ((n < 2 ^ 63) × (as_i64 n ≡ n + 2 ^ 63)) ⊎ ((2 ^ 63 ≤ n) × (n ≡ as_i64 n + 2 ^ 63))
as_i64-cases n h = ground arith

Lower-halves :
    (a a' b b' : ℕ)
    → a < 2 ^ 64
    → b < 2 ^ 64
    → ((a < 2 ^ 63) × (a' ≡ a + 2 ^ 63)) ⊎ ((2 ^ 63 ≤ a) × (a ≡ a' + 2 ^ 63))
    → ((b < 2 ^ 63) × (b' ≡ b + 2 ^ 63)) ⊎ ((2 ^ 63 ≤ b) × (b ≡ b' + 2 ^ 63))
    → ((a < b') × Lower a' b) ⊎ (¬ (a < b') × ¬ Lower a' b)
Lower-halves a a' b b' h k p q = ground arith

equal-halves :
    (a a' b b' : ℕ)
    → a < 2 ^ 64
    → b < 2 ^ 64
    → ((a < 2 ^ 63) × (a' ≡ a + 2 ^ 63)) ⊎ ((2 ^ 63 ≤ a) × (a ≡ a' + 2 ^ 63))
    → ((b < 2 ^ 63) × (b' ≡ b + 2 ^ 63)) ⊎ ((2 ^ 63 ≤ b) × (b ≡ b' + 2 ^ 63))
    → ((a ≡ b') × (a' ≡ b)) ⊎ (¬ (a ≡ b') × ¬ (a' ≡ b))
equal-halves a a' b b' h k p q = ground arith

abbrev unsigned : CursorRow → ChainCursor
unsigned row = record { block = as_i64 row.block; index = as_i64 row.idx }

abbrev signed : ChainCursor → CursorRow
signed cursor = record { block = as_i64 cursor.block; idx = as_i64 cursor.index }

is_after-Before :
    (row : CursorRow) (cursor : ChainCursor)
    → IsRow row
    → IsWord cursor
    → ((is_after row (signed cursor) ≡ true) × Before (unsigned row) cursor)
      ⊎ ((is_after row (signed cursor) ≡ false) × ¬ Before (unsigned row) cursor)
is_after-Before row cursor (vb, vi) (hb, hi) =
    decide row.block (as_i64 cursor.block) row.idx (as_i64 cursor.index)
      (Lower-halves row.block (as_i64 row.block) cursor.block (as_i64 cursor.block) vb hb
        (as_i64-cases row.block vb) (as_i64-cases cursor.block hb))
      (equal-halves row.block (as_i64 row.block) cursor.block (as_i64 cursor.block) vb hb
        (as_i64-cases row.block vb) (as_i64-cases cursor.block hb))
      (Lower-halves row.idx (as_i64 row.idx) cursor.index (as_i64 cursor.index) vi hi
        (as_i64-cases row.idx vi) (as_i64-cases cursor.index hi))
  where
    decide :
        {P Q R : Type 0} (b b' i i' : ℕ)
        → ((b < b') × P) ⊎ (¬ (b < b') × ¬ P)
        → ((b ≡ b') × Q) ⊎ (¬ (b ≡ b') × ¬ Q)
        → ((i < i') × R) ⊎ (¬ (i < i') × ¬ R)
        → ((is_after (record { block = b; idx = i }) (record { block = b'; idx = i' }) ≡ true)
            × (P ⊎ (Q × R)))
          ⊎ ((is_after (record { block = b; idx = i }) (record { block = b'; idx = i' }) ≡ false)
              × ¬ (P ⊎ (Q × R)))
    decide b b' i i' p q r = ground arith

module _ {Share PublicKey Intermediates : Type 0} where
  -- For a cursor and a row of 64 bits, in the order in which numbers from 2 ^ 63 on are negative, which
  -- is the order of the columns: a stored cursor is read back when it is after the one that was there,
  -- and otherwise the one that was there is read again. So the cursor moves forwards only in that
  -- order, which is the plain one below 2 ^ 63; a cursor from there on is before those below.
  pub load-store_chain_cursor :
      (cursor : ChainCursor) (db : Db Share PublicKey Intermediates)
      → IsRow db.chain_cursor
      → IsWord cursor
      → (Before (load_chain_cursor db) cursor
          × (load_chain_cursor (store_chain_cursor cursor db) ≡ cursor))
        ⊎ (¬ Before (load_chain_cursor db) cursor
            × (load_chain_cursor (store_chain_cursor cursor db) ≡ load_chain_cursor db))
  unfolding load_chain_cursor store_chain_cursor
  load-store_chain_cursor cursor db v h = elim (is_after-Before db.chain_cursor cursor v h) [
    | inl (e, b) ↦ inl (
      b,
      rw e (
          ap₂ (λ b i. record { block = b; index = i }) (as_i64-as_i64 cursor.block h.0)
            (as_i64-as_i64 cursor.index h.1)),
    )
    | inr (e, b) ↦ inr (b, rw e refl)
  ]
