-- ===== src/Base/Results.antt =====
-- Rust's `Result` and the chains that `?` makes of it.
use mathlib.Core.Option.{Option, none, some}

pub data Result {ℓ κ} (E : Type κ) (A : Type ℓ) : Type (ℓ ⊔ κ) where
  ok : A → Result E A
  err : E → Result E A

module _ {ℓ κ} {E : Type κ} {A : Type ℓ} where
  -- `Option::ok_or`.
  abbrev pub ok_or : Option A → E → Result E A
  ok_or none e = err e
  ok_or (some a) e = ok a

  abbrev pub bind_ok {ν} : {B : Type ν} → Result E A → (A → Result E B) → Result E B
  bind_ok (ok a) f = f a
  bind_ok (err e) f = err e

  abbrev pub map_err {ν} : {E' : Type ν} → (E → E') → Result E A → Result E' A
  map_err f (ok a) = ok a
  map_err f (err e) = err (f e)
