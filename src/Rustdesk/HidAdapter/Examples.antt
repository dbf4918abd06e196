-- ===== src/Rustdesk/HidAdapter/Examples.antt =====
-- Events of a RustDesk client, and the theorems on them.
use one_kvm_stream_box.Base.{◌≡◌, refl, true, false, none, some, [], ◌∷◌, arith}
use one_kvm_stream_box.Base.Int.{pos, negsuc}
use one_kvm_stream_box.Hid.Keyboard.{CanonicalKey, to_hid_usage}
use one_kvm_stream_box.Hid.Event.{KeyEventType, MouseEventType}
use one_kvm_stream_box.Rustdesk.HidAdapter.KeyCodes.{ascii_to_hid, keycode_to_hid}
use one_kvm_stream_box.Rustdesk.HidAdapter.{
  at_rest, convert_mouse_event, chr, KeyEvent, usage_of, convert_key_event,
}
use one_kvm_stream_box.Rustdesk.HidAdapter.Mouse.{wheel_moves_pointer}
use one_kvm_stream_box.Rustdesk.HidAdapter.Keys.{convert_key_event-some}

wheel_moves_pointer_example :
    (convert_mouse_event (record { mask = pos 3; x = pos 0; y = negsuc 0 }) 1920 1080 false ≡ (
      record {
        event_type = MouseEventType.move_abs;
        x = pos 0;
        y = pos 0;
        button = none;
        scroll = pos 0;
      }
      ∷ at_rest MouseEventType.scroll none (negsuc 0)
      ∷ []))
    × (convert_mouse_event (record { mask = pos 3; x = pos 0; y = pos 0 }) 1920 1080 false ≡ (
        record {
          event_type = MouseEventType.move_abs;
          x = pos 0;
          y = pos 0;
          button = none;
          scroll = pos 0;
        }
        ∷ at_rest MouseEventType.scroll none (negsuc 0)
        ∷ []))
    × (convert_mouse_event (record { mask = pos 3; x = pos 0; y = pos 1 }) 1920 1080 false ≡ (
        record {
          event_type = MouseEventType.move_abs;
          x = pos 0;
          y = pos 30;
          button = none;
          scroll = pos 0;
        }
        ∷ at_rest MouseEventType.scroll none (pos 1)
        ∷ []))
wheel_moves_pointer_example = wheel_moves_pointer 1920 1080 0 (omega arith) (omega arith)

-- `a`, with the left shift key.
abbrev letter : KeyEvent
letter = record { down = true; press = false; union = chr 97; modifiers = 29 ∷ [] }

letter_usage : usage_of letter.union ≡ some 0x04
unfolding usage_of keycode_to_hid ascii_to_hid
letter_usage = refl

convert_key_event-some_example :
    (key : CanonicalKey) × (convert_key_event letter
      ≡ some (record {
        event_type = KeyEventType.down;
        key = key;
        modifiers = record {
          left_ctrl = false;
          left_shift = true;
          left_alt = false;
          left_meta = false;
          right_ctrl = false;
          right_shift = false;
          right_alt = false;
          right_meta = false;
        };
      }))
    × (to_hid_usage key ≡ 0x04)
convert_key_event-some_example = convert_key_event-some letter 0x04 (omega arith) letter_usage
