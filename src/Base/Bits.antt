-- ===== src/Base/Bits.antt =====
-- `|` and `&` at variables: one equation for the lowest binary digit, and from it the two forms
-- that the program uses, a sum of disjoint fields and a remainder by a power of two.
use Prim.Native.Nat.{ℕ, zero, suc, ◌+◌, ◌-◌, ◌*◌, ◌/◌, ◌%◌, ◌^◌, ◌≤◌, ◌<◌, min, max}
use Prim.Native.Nat.{bit_and, bit_or, digits, bitwise, bit_and-bitwise, bit_or-bitwise}
use mathlib.Core.Path.{◌≡◌, refl, ap}
use native.Mathlib.Nat.{le_refl, pow-suc, one-le-pow}
use native.Mathlib.Omega.{arith}

-- The recursion on digits does not depend on its fuel.
module _ (z : ℕ → ℕ) (f : ℕ → ℕ → ℕ) where
  -- With fuel for a number of digits, one digit more changes nothing.
  digits_enough : (b m : ℕ) (a : ℕ) → a ≤ m → (n : ℕ) → a ≤ n → digits z f m a b ≡ digits z f n a b
  digits_enough b m (suc a) h zero h' = absurd (omega arith)
  digits_enough b zero (suc a) h n h' = absurd (omega arith)
  digits_enough b (suc m) (suc a) h (suc n) h' =
      rw (digits_enough (b / 2) m (suc a / 2) (omega arith) n (omega arith))
  digits_enough b zero zero h zero h' = refl
  digits_enough b zero zero h (suc n) h' = refl
  digits_enough b (suc m) zero h zero h' = refl
  digits_enough b (suc m) zero h (suc n) h' = refl

  lowest_digit :
      (a b : ℕ)
      → let half = suc a / 2 in
        bitwise z f (suc a) b ≡ bitwise z f half (b / 2) * 2 + f (suc a % 2) (b % 2)
  lowest_digit a b =
      let same = digits_enough (b / 2) a (suc a / 2) (omega arith) (suc a / 2) (le_refl _) in
      omega (arith, same)

pub bit_or-half : (a b : ℕ) → bit_or a b ≡ bit_or (a / 2) (b / 2) * 2 + max (a % 2) (b % 2)
bit_or-half zero b = simp bit_or-bitwise (omega arith)
bit_or-half (suc a) b = simp bit_or-bitwise (lowest_digit (λ y. y) max a b)

pub bit_and-half : (a b : ℕ) → bit_and a b ≡ bit_and (a / 2) (b / 2) * 2 + min (a % 2) (b % 2)
bit_and-half zero b = simp bit_and-bitwise (omega arith)
bit_and-half (suc a) b = simp bit_and-bitwise (lowest_digit (λ y. 0) min a b)

-- Against 0, both recursions stop where the fuel does.
against_zero : (n a : ℕ) → a ≤ n → (bit_or a 0 ≡ a) × (bit_and a 0 ≡ 0)
against_zero n zero h = (refl, refl)
against_zero zero (suc a) h = absurd (omega arith)
against_zero (suc n) (suc a) h =
    let (either, both) = against_zero n (suc a / 2) (omega arith) in
    (omega (arith, bit_or-half (suc a) 0, either), omega (arith, bit_and-half (suc a) 0, both))

pub bit_or-zero : (a : ℕ) → bit_or a 0 ≡ a
bit_or-zero a = (against_zero a a (le_refl a)).0

pub zero-bit_or : (b : ℕ) → bit_or 0 b ≡ b
zero-bit_or b = bit_or-bitwise 0 b

pub bit_and-zero : (a : ℕ) → bit_and a 0 ≡ 0
bit_and-zero a = (against_zero a a (le_refl a)).1

double_pow : (q k : ℕ) → q * 2 ^ suc k ≡ 2 * (q * 2 ^ k)
double_pow q k = omega (arith, ap (λ (t : ℕ). q * t) (pow-suc 2 k))

-- `(q << k) | r` is a sum where `r` fits `k` bits.
pub bit_or_fields : (k q r : ℕ) → r < 2 ^ k → bit_or (q * 2 ^ k) r ≡ q * 2 ^ k + r
bit_or_fields zero q r fits = ground (arith, bit_or-zero q)
bit_or_fields (suc k) q r fits =
    ground (
      arith,
      bit_or-half (q * 2 ^ suc k) r,
      double_pow q k,
      bit_or_fields k q (r / 2) (omega arith),
    )

-- So is `r | (q << k)`.
pub bit_or_fields_right : (k q r : ℕ) → r < 2 ^ k → bit_or r (q * 2 ^ k) ≡ r + q * 2 ^ k
bit_or_fields_right zero q r fits = ground (arith, zero-bit_or q)
bit_or_fields_right (suc k) q r fits = ground (
  arith,
  bit_or-half r (q * 2 ^ suc k),
  double_pow q k,
  bit_or_fields_right k q (r / 2) (omega arith),
)

mask_fields : (k q r : ℕ) → r < 2 ^ k → bit_and (q * 2 ^ k + r) (2 ^ k - 1) ≡ r
mask_fields zero q r fits = ground (arith, bit_and-zero (q * 1 + r))
mask_fields (suc k) q r fits = ground (
  arith,
  bit_and-half (q * 2 ^ suc k + r) (2 ^ suc k - 1),
  double_pow q k,
  pow-suc 2 k,
  one-le-pow k 2,
  mask_fields k q (r / 2) (omega arith),
)

-- A mask of `k` ones is the remainder by `2 ^ k`.
pub bit_and_mask : (k a : ℕ) → bit_and a (2 ^ k - 1) ≡ a % 2 ^ k
bit_and_mask k a = ground (arith, one-le-pow k 2, mask_fields k (a / 2 ^ k) (a % 2 ^ k))

-- `|` stays within the width of its operands, and `&` within that of the first.
pub bit_or-lt : (k a b : ℕ) → a < 2 ^ k → b < 2 ^ k → bit_or a b < 2 ^ k
bit_or-lt zero a b ha hb = ground (arith, bit_or-zero a)
bit_or-lt (suc k) a b ha hb =
    ground (arith, bit_or-half a b, pow-suc 2 k, bit_or-lt k (a / 2) (b / 2))

bit_and-le_fuel : (n a b : ℕ) → a ≤ n → bit_and a b ≤ a
bit_and-le_fuel n zero b h = ground (arith, bit_and-bitwise 0 b)
bit_and-le_fuel zero (suc a) b h = absurd (omega arith)
bit_and-le_fuel (suc n) (suc a) b h =
    omega (arith, bit_and-half (suc a) b, bit_and-le_fuel n (suc a / 2) (b / 2) (omega arith))

pub bit_and-le : (a b : ℕ) → bit_and a b ≤ a
bit_and-le a b = bit_and-le_fuel a a b (le_refl a)
