-- ===== src/Hid/Event/Examples.antt =====
-- The modifier byte of both Control keys.
use one_kvm_stream_box.Base.{◌≡◌, refl, true, false}
use one_kvm_stream_box.Hid.Event.{KeyboardModifiers, to_hid_byte}

abbrev both_controls : KeyboardModifiers
both_controls = record {
  left_ctrl = true;
  left_shift = false;
  left_alt = false;
  left_meta = false;
  right_ctrl = true;
  right_shift = false;
  right_alt = false;
  right_meta = false;
}

both_controls_byte : to_hid_byte both_controls ≡ 0x11
unfolding to_hid_byte
both_controls_byte = refl
