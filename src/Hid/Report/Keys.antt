-- ===== src/Hid/Report/Keys.antt =====
-- What pressing and releasing a key does to a keyboard report.
use one_kvm_stream_box.Base.{
  ℕ, ◌+◌, ◌≤◌, ◌<◌, ◌≡◌, refl, ◌∙◌, ◌≢◌, ◌&&◌, arith, ltb, ◌==◌, if◌then◌else◌, length, All, IsByte,
}
use one_kvm_stream_box.Hid.Report.{
  KeyboardReport, empty_report, fill_slot, free_slots, add_key, remove_key, clear,
}
use one_kvm_stream_box.Hid.Report.Slots.{
  count, IsPacked, IsDescending, fill_slot-full, fill_slot-free, count-fill_slot, length-fill_slot,
  fill_slot-IsPacked, fill_slot-All, count-free_slots, length-free_slots, count-sort, length-sort,
  sort-IsDescending, IsDescending-IsPacked, remove-All,
}

-- Six slots of bytes, the free ones behind the others; the two first fields are bytes too.
pub record IsValid (r : KeyboardReport) : Type 0 where
  pub six : length r.keys ≡ 6
  pub bytes : All IsByte r.keys
  pub packed : IsPacked r.keys
  pub modifier_byte : r.modifiers < 256
  pub reserved_byte : r.reserved < 256

pub empty-IsValid : IsValid empty_report
empty-IsValid = record {
  six = refl;
  bytes = omega arith;
  packed = ground arith;
  modifier_byte = omega arith;
  reserved_byte = omega arith;
}

pub add_key-IsValid :
    (r : KeyboardReport) (key : ℕ) → 0 < key → key < 256 → IsValid r → IsValid (add_key r key).0
unfolding add_key
add_key-IsValid r key hk hb v = record {
  six = length-fill_slot key r.keys ∙ v.six;
  bytes = fill_slot-All IsByte key r.keys hb v.bytes;
  packed = fill_slot-IsPacked key r.keys (λ e. omega arith) v.packed;
  modifier_byte = v.modifier_byte;
  reserved_byte = v.reserved_byte;
}

pub remove_key-IsValid : (r : KeyboardReport) (key : ℕ) → IsValid r → IsValid (remove_key r key)
unfolding remove_key
remove_key-IsValid r key v = record {
  six = length-sort (free_slots key r.keys) ∙ length-free_slots key r.keys ∙ v.six;
  bytes = remove-All IsByte key r.keys (omega arith) v.bytes;
  packed = IsDescending-IsPacked _ (sort-IsDescending (free_slots key r.keys));
  modifier_byte = v.modifier_byte;
  reserved_byte = v.reserved_byte;
}

pub clear-IsValid : (r : KeyboardReport) → IsValid r → IsValid (clear r)
unfolding clear
clear-IsValid r v = record {
  six = refl;
  bytes = omega arith;
  packed = ground arith;
  modifier_byte = omega arith;
  reserved_byte = v.reserved_byte;
}

-- `add_key`, `remove_key` and `clear` keep a report well formed: six slots, each a byte, with the free
-- slots behind the keys. The key of `add_key` is a byte other than 0.
pub keys-IsValid :
    (r : KeyboardReport) (key : ℕ)
    → 0 < key
    → key < 256
    → IsValid r
    → IsValid (add_key r key).0 × IsValid (remove_key r key) × IsValid (clear r)
keys-IsValid r key hk hb v =
    (add_key-IsValid r key hk hb v, remove_key-IsValid r key v, clear-IsValid r v)

-- `add_key` succeeds exactly where a slot is free. Then exactly one slot passes from free to the key,
-- and every other code stands in as many slots as before; otherwise all codes do.
pub add_key_lem :
    (r : KeyboardReport) (key j : ℕ)
    → let free = ltb 0 (count 0 r.keys) in
      ((add_key r key).1 ≡ free)
      × (count j (add_key r key).0.keys + (if free && 0 == j then 1 else 0)
          ≡ count j r.keys + (if free && key == j then 1 else 0))
unfolding add_key
add_key_lem r key j =
    ground
      (arith, fill_slot-free key r.keys, fill_slot-full key r.keys, count-fill_slot key j r.keys)

-- For a key that is not 0, `remove_key` frees every slot of the key; every other key stands in as
-- many slots as before, and the slots are in descending order.
pub remove_key_lem :
    (r : KeyboardReport) (key j : ℕ)
    → key ≢ 0
    → (count j (remove_key r key).keys ≡ (
        if j == key
        then 0
        else if j == 0
        then count 0 r.keys + count key r.keys
        else count j r.keys))
      × IsDescending (remove_key r key).keys
unfolding remove_key
remove_key_lem r key j hk = (
  count-sort j (free_slots key r.keys) ∙ count-free_slots key j r.keys hk,
  sort-IsDescending (free_slots key r.keys),
)

-- A key that is pressed twice with room for it, without a release between, holds two slots more than
-- before, though one press says it all: repeated presses of one key use up the slots of the others.
pub add_key_twice :
    (r : KeyboardReport) (key : ℕ)
    → key ≢ 0
    → 2 ≤ count 0 r.keys
    → count key (add_key (add_key r key).0 key).0.keys ≡ count key r.keys + 2
unfolding add_key
add_key_twice r key hk h = ground (
  arith,
  count-fill_slot key 0 r.keys (omega arith),
  count-fill_slot key key r.keys (omega arith),
  count-fill_slot key key (fill_slot key r.keys).0,
)
