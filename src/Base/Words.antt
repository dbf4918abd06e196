-- ===== src/Base/Words.antt =====
-- Fixed-width unsigned words as native numbers: a cast is a remainder.
use Prim.Native.Nat.{ℕ, ◌+◌, ◌*◌, ◌/◌, ◌%◌, ◌<◌}
use mathlib.Core.List.{List, [], ◌∷◌}

abbrev pub u8 : ℕ → ℕ
u8 n = n % 256

abbrev pub u16 : ℕ → ℕ
u16 n = n % 65536

abbrev pub u32 : ℕ → ℕ
u32 n = n % 4294967296

abbrev pub IsByte : ℕ → Type 0
IsByte b = b < 256

-- `to_le_bytes` of a `u16` and of a `u32`.
abbrev pub u16_to_le_bytes : ℕ → List ℕ
u16_to_le_bytes w = w % 256 ∷ w / 256 ∷ []

abbrev pub u32_to_le_bytes : ℕ → List ℕ
u32_to_le_bytes w = w % 256 ∷ w / 256 % 256 ∷ w / 65536 % 256 ∷ w / 16777216 ∷ []

-- `to_be_bytes` of a `u16`, which `put_u16` writes.
abbrev pub u16_to_be_bytes : ℕ → List ℕ
u16_to_be_bytes w = w / 256 ∷ w % 256 ∷ []

-- `u16::from_le_bytes`.
abbrev pub u16_from_le_bytes : ℕ → ℕ → ℕ
u16_from_le_bytes lo hi = lo + 256 * hi
