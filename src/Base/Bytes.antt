-- ===== src/Base/Bytes.antt =====
-- Byte strings as lists of numbers.
use Prim.Native.Nat.{ℕ, ◌/◌, ◌%◌}
use Prim.Native.Char.{code}
use Prim.Native.String.{String}
use mathlib.Core.List.{List, [], ◌∷◌}

-- The bytes of an ASCII literal, `b"..."`.
abbrev pub codes : String → List ℕ
codes String.[] = []
codes (String.◌∷◌ c s) = code c ∷ codes s

-- `u16::to_le_bytes`.
abbrev pub u16_to_le_bytes : ℕ → List ℕ
u16_to_le_bytes n = n % 256 ∷ n / 256 ∷ []
