-- ===== src/Hid/DataChannel/Examples.antt =====
-- Messages of the tests in src/hid/datachannel.rs, and the theorems at these.
use one_kvm_stream_box.Base.{◌≡◌, refl, true, false, none, some, [], ◌∷◌, arith}
use one_kvm_stream_box.Base.Int.{pos, negsuc}
use one_kvm_stream_box.Hid.Keyboard.{key_a, to_hid_usage}
use one_kvm_stream_box.Hid.Keyboard.FromUsage.{from_hid_usage}
use one_kvm_stream_box.Hid.Event.{
  KeyEventType, KeyboardEvent, KeyboardModifiers, MouseEvent, MouseEventType, to_hid_byte, middle,
}
use one_kvm_stream_box.Hid.DataChannel.{
  keyboard, mouse, encode_keyboard_event, encode_mouse_event, key_event_code,
}
use one_kvm_stream_box.Hid.DataChannel.Parse.{
  parse_hid_message, parse_keyboard_message, parse_mouse_message, key_event_type, mouse_event_type,
  modifiers_of,
}
use one_kvm_stream_box.Hid.DataChannel.RoundTrip.{parse-encode_mouse_event, parse_hid_message_above}

abbrev left_ctrl_only : KeyboardModifiers
left_ctrl_only = record {
  left_ctrl = true;
  left_shift = false;
  left_alt = false;
  left_meta = false;
  right_ctrl = false;
  right_shift = false;
  right_alt = false;
  right_meta = false;
}

abbrev ctrl_a : KeyboardEvent
ctrl_a = record { event_type = KeyEventType.down; key = key_a; modifiers = left_ctrl_only }

ctrl_a_encoded : encode_keyboard_event ctrl_a ≡ 0x01 ∷ 0x00 ∷ 0x04 ∷ 0x01 ∷ []
unfolding encode_keyboard_event key_event_code to_hid_usage to_hid_byte
ctrl_a_encoded = refl

ctrl_a_parsed : parse_hid_message (0x01 ∷ 0x00 ∷ 0x04 ∷ 0x01 ∷ 9 ∷ []) ≡ some (keyboard ctrl_a)
unfolding parse_hid_message parse_keyboard_message key_event_type from_hid_usage modifiers_of
ctrl_a_parsed = refl

abbrev ten_left : MouseEvent
ten_left = record {
  event_type = MouseEventType.move;
  x = pos 10;
  y = negsuc 9;
  button = none;
  scroll = pos 0;
}

ten_left_parsed :
    parse_hid_message (0x02 ∷ 0x00 ∷ 0x0A ∷ 0x00 ∷ 0xF6 ∷ 0xFF ∷ 0x00 ∷ []) ≡ some (mouse ten_left)
unfolding parse_hid_message parse_mouse_message mouse_event_type
ten_left_parsed = refl

abbrev middle_press : MouseEvent
middle_press = record {
  event_type = MouseEventType.down;
  x = pos 0;
  y = negsuc 32767;
  button = some middle;
  scroll = pos 0;
}

parse-encode_mouse_event_example :
    parse_hid_message (encode_mouse_event middle_press) ≡ some (mouse middle_press)
parse-encode_mouse_event_example =
    parse-encode_mouse_event middle_press
      (record { x_fits = omega arith; y_fits = omega arith; shape = ((middle, refl), refl) })

parse_hid_message_above_example :
    parse_hid_message (0x02 ∷ 0x01 ∷ 0x00 ∷ 0x80 ∷ 0x0A ∷ 0x00 ∷ 0x00 ∷ [])
    ≡ some (
        mouse (record {
          event_type = MouseEventType.move_abs;
          x = negsuc 0x7FFF;
          y = pos 10;
          button = none;
          scroll = pos 0;
        }))
parse_hid_message_above_example =
    parse_hid_message_above 0x8000 10 0 (omega arith) (omega arith) (omega arith)
