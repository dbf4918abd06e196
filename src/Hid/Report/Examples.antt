-- ===== src/Hid/Report/Examples.antt =====
-- The theorems on keyboard reports at the report with `A` and `B` down.
use one_kvm_stream_box.Base.{◌≡◌, refl, [], ◌∷◌, arith}
use one_kvm_stream_box.Hid.Report.{
  KeyboardReport, add_key, remove_key, free_slots, insert_descending, sort_descending,
}
use one_kvm_stream_box.Hid.Report.Slots.{count, IsDescending}
use one_kvm_stream_box.Hid.Report.Keys.{IsValid, remove_key_lem, add_key_twice}

abbrev two_keys : KeyboardReport
two_keys = record { modifiers = 2; reserved = 0; keys = 4 ∷ 5 ∷ 0 ∷ 0 ∷ 0 ∷ 0 ∷ [] }

two_keys-IsValid : IsValid two_keys
two_keys-IsValid = record {
  six = refl;
  bytes = omega arith;
  packed = ground arith;
  modifier_byte = omega arith;
  reserved_byte = omega arith;
}

released : remove_key two_keys 4 ≡ record two_keys { keys = 5 ∷ 0 ∷ 0 ∷ 0 ∷ 0 ∷ 0 ∷ [] }
unfolding remove_key free_slots insert_descending sort_descending
released = refl

remove_key_lem_example :
    (count 4 (remove_key two_keys 4).keys ≡ 0) × IsDescending (remove_key two_keys 4).keys
remove_key_lem_example = remove_key_lem two_keys 4 4 (λ e. omega arith)

add_key_twice_example : count 4 (add_key (add_key two_keys 4).0 4).0.keys ≡ 3
add_key_twice_example = add_key_twice two_keys 4 (λ e. omega arith) (omega arith)
