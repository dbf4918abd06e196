-- ===== src/Base/Int.antt =====
-- Signed integers over the native numbers, under the library's names, and the two's complement
-- readings of a byte and of a 16-bit word.
use Prim.Native.Nat.{ℕ, suc, ◌+◌, ◌-◌, ◌%◌, ◌≤◌, ◌<◌}
use mathlib.Core.Path.{◌≡◌}
use mathlib.Core.Bool.{Bool}
use native.Mathlib.Omega.{arith}
use one_kvm_stream_box.Base.Tests.{ltb, if◌then◌else◌}

-- `negsuc n` is -(n + 1).
pub data ℤ : Type 0 where
  pos : ℕ → ℤ
  negsuc : ℕ → ℤ

abbrev pub pos_part : ℤ → ℕ
pos_part (pos n) = n
pos_part (negsuc n) = 0

abbrev pub neg_part : ℤ → ℕ
neg_part (pos n) = 0
neg_part (negsuc n) = suc n

infix 50 ◌≤ℤ◌
abbrev pub ◌≤ℤ◌ : ℤ → ℤ → Type 0
a ≤ℤ b = pos_part a + neg_part b ≤ pos_part b + neg_part a

abbrev pub ltb_ℤ : ℤ → ℤ → Bool
ltb_ℤ a b = ltb (pos_part a + neg_part b) (pos_part b + neg_part a)

-- `Ord::clamp`.
abbrev pub clamp : ℤ → ℤ → ℤ → ℤ
clamp x lo hi = if ltb_ℤ x lo then lo else if ltb_ℤ hi x then hi else x

-- The low `m` values of an integer, as a cast to an unsigned word of `m` values gives them.
abbrev pub wrap : ℕ → ℤ → ℕ
wrap m (pos n) = n % m
wrap m (negsuc n) = m - 1 - n % m

abbrev pub i8 : ℕ → ℤ
i8 w = if ltb w 128 then pos w else negsuc (255 - w)

abbrev pub i16 : ℕ → ℤ
i16 w = if ltb w 32768 then pos w else negsuc (65535 - w)

abbrev pub IsI8 : ℤ → Type 0
IsI8 x = (negsuc 127 ≤ℤ x) × (x ≤ℤ pos 127)

abbrev pub IsI16 : ℤ → Type 0
IsI16 x = (negsuc 32767 ≤ℤ x) × (x ≤ℤ pos 32767)

pub i8-wrap : (x : ℤ) → IsI8 x → i8 (wrap 256 x) ≡ x
i8-wrap (pos n) h = ground arith
i8-wrap (negsuc n) h = ground arith

pub i16-wrap : (x : ℤ) → IsI16 x → i16 (wrap 65536 x) ≡ x
i16-wrap (pos n) h = ground arith
i16-wrap (negsuc n) h = ground arith

pub i16-IsI16 : (w : ℕ) → w < 65536 → IsI16 (i16 w)
i16-IsI16 w h = ground arith

pub i8-IsI8 : (w : ℕ) → w < 256 → IsI8 (i8 w)
i8-IsI8 w h = ground arith

pub wrap-i8 : (w : ℕ) → w < 256 → wrap 256 (i8 w) ≡ w
wrap-i8 w h = ground arith

pub wrap-i16 : (w : ℕ) → w < 65536 → wrap 65536 (i16 w) ≡ w
wrap-i16 w h = ground arith

pub wrap-lt : (m : ℕ) (x : ℤ) → 0 < m → wrap m x < m
wrap-lt m (pos n) h = omega arith
wrap-lt m (negsuc n) h = omega arith
