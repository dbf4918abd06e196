-- ===== src/Hid/Keyboard/Codes.antt =====
-- The wire codes of the keys: the two tables of src/hid/keyboard.rs are inverse to one another.
use one_kvm_stream_box.Base.{
  ℕ, ◌-◌, ◌^◌, ◌<◌, ◌≡◌, refl, ◌↔◌, Bool, true, Option, none, some, arith, leb, ◌==◌, if◌then◌else◌,
  ==_iff, all_below, all_below_sound,
}
use one_kvm_stream_box.Hid.Keyboard.{CanonicalKey, key_a, to_hid_usage, is_modifier, modifier_bit}
use one_kvm_stream_box.Hid.Keyboard.FromUsage.{from_hid_usage}

pub from_hid_usage-to_hid_usage : (k : CanonicalKey) → from_hid_usage (to_hid_usage k) ≡ some k
unfolding from_hid_usage to_hid_usage
from_hid_usage-to_hid_usage key_a = refl
from_hid_usage-to_hid_usage _ = refl

-- The test that a code, if it has a key, is the key's code.
leads_back : ℕ → Option CanonicalKey → Bool
leads_back usage none = true
leads_back usage (some k) = to_hid_usage k == usage

leads_back_table : all_below 256 (λ u. leads_back u (from_hid_usage u)) ≡ true
unfolding all_below leads_back from_hid_usage to_hid_usage
leads_back_table = refl

leads_back-some :
    (u : ℕ) (k : CanonicalKey) (o : Option CanonicalKey)
    → o ≡ some k
    → leads_back u o ≡ true
    → to_hid_usage k ≡ u
unfolding leads_back
leads_back-some u k none e h = cc
leads_back-some u k (some j) e h = cc ((==_iff (to_hid_usage j) u).0 h)

-- For every key and every byte, `from_hid_usage` gives the key at the byte exactly when the byte is
-- the key's code: no two keys share a code, and every byte that no key has is refused.
pub from_hid_usage_iff :
    (u : ℕ) (k : CanonicalKey) → u < 256 → (from_hid_usage u ≡ some k) ↔ (to_hid_usage k ≡ u)
from_hid_usage_iff u k h = (
  λ e. leads_back-some u k (from_hid_usage u) e (all_below_sound 256 _ u leads_back_table h),
  λ e. rw (← e) (from_hid_usage-to_hid_usage k),
)

-- The eight keys with codes from 0xE0 are the modifiers, and no other key is; the bit of a modifier
-- in the report's modifier byte is the bit at the place that its code gives, counted from 0xE0.
pub modifier_bit_lem :
    (k : CanonicalKey)
    → (is_modifier k ≡ leb 0xE0 (to_hid_usage k))
      × (modifier_bit k
          ≡ (if leb 0xE0 (to_hid_usage k) then some (2 ^ (to_hid_usage k - 0xE0)) else none))
unfolding to_hid_usage is_modifier modifier_bit
modifier_bit_lem key_a = (refl, refl)
modifier_bit_lem _ = (refl, refl)

pub to_hid_usage-IsByte : (k : CanonicalKey) → (0 < to_hid_usage k) × (to_hid_usage k < 256)
unfolding to_hid_usage
to_hid_usage-IsByte key_a = omega arith
to_hid_usage-IsByte _ = omega arith
