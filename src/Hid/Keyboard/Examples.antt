-- ===== src/Hid/Keyboard/Examples.antt =====
-- The theorems on key codes at a key and a code.
use one_kvm_stream_box.Base.{◌≡◌, refl, none}
use one_kvm_stream_box.Hid.Keyboard.FromUsage.{from_hid_usage}

no_key_at_0x32 : from_hid_usage 0x32 ≡ none
unfolding from_hid_usage
no_key_at_0x32 = refl
