-- ===== src/Hid/DataChannel/RoundTrip.antt =====
-- What an encoder writes is what the parser reads.
use one_kvm_stream_box.Base.{
  ℕ, ◌/◌, ◌%◌, ◌-◌, ◌≤◌, ◌<◌, ◌≡◌, refl, Option, none, some, [], ◌∷◌, arith, u16_from_le_bytes,
}
use one_kvm_stream_box.Base.Int.{ℤ, pos, negsuc, ◌≤ℤ◌, wrap, IsI8, IsI16, i8-wrap, i16-wrap}
use one_kvm_stream_box.Hid.Keyboard.Codes.{from_hid_usage-to_hid_usage}
use one_kvm_stream_box.Hid.Event.{
  KeyEventType, KeyboardEvent, MouseButton, left, MouseEventType, MouseEvent, to_hid_byte,
  from_hid_byte,
}
use one_kvm_stream_box.Hid.Event.ModifierByte.{from_hid_byte-to_hid_byte}
use one_kvm_stream_box.Hid.DataChannel.{
  keyboard, mouse, encode_keyboard_event, encode_mouse_event, key_event_code, mouse_event_code,
  button_code,
}
use one_kvm_stream_box.Hid.DataChannel.Parse.{
  key_event_type, mouse_event_type, modifiers_of, button_of, parse_hid_message,
  parse_keyboard_message, parse_mouse_message,
}

pub modifiers_of-from_hid_byte : (b : ℕ) → modifiers_of b ≡ from_hid_byte b
unfolding modifiers_of from_hid_byte
modifiers_of-from_hid_byte b = refl

key_event_type-code : (t : KeyEventType) → key_event_type (key_event_code t) ≡ some t
unfolding key_event_type key_event_code
key_event_type-code KeyEventType.down = refl
key_event_type-code KeyEventType.up = refl

mouse_event_type-code : (t : MouseEventType) → mouse_event_type (mouse_event_code t) ≡ some t
unfolding mouse_event_type mouse_event_code
mouse_event_type-code MouseEventType.move = refl
mouse_event_type-code _ = refl

button_of-code : (b : MouseButton) → button_of (button_code b) ≡ b
unfolding button_of button_code
button_of-code left = refl
button_of-code _ = refl

-- Every keyboard event is what the parser reads from its encoding.
pub parse-encode_keyboard_event :
    (e : KeyboardEvent) → parse_hid_message (encode_keyboard_event e) ≡ some (keyboard e)
unfolding parse_hid_message parse_keyboard_message encode_keyboard_event
parse-encode_keyboard_event e = ground (
  arith,
  key_event_type-code e.event_type,
  from_hid_usage-to_hid_usage e.key,
  modifiers_of-from_hid_byte (to_hid_byte e.modifiers),
  from_hid_byte-to_hid_byte e.modifiers,
)

-- A button for a press and a release and for no other event, and a scroll distance for a scroll only.
abbrev pub HasShape : MouseEventType → Option MouseButton → ℤ → Type 0
HasShape MouseEventType.down button scroll =
    ((b : MouseButton) × (button ≡ some b)) × (scroll ≡ pos 0)
HasShape MouseEventType.up button scroll =
    ((b : MouseButton) × (button ≡ some b)) × (scroll ≡ pos 0)
HasShape MouseEventType.scroll button scroll = (button ≡ none) × IsI8 scroll
HasShape _ button scroll = (button ≡ none) × (scroll ≡ pos 0)

-- The range of a coordinate: an absolute one is neither negative nor above 0x7FFF.
abbrev pub HasRange : MouseEventType → ℤ → Type 0
HasRange MouseEventType.move_abs x = (pos 0 ≤ℤ x) × (x ≤ℤ pos 0x7FFF)
HasRange _ x = IsI16 x

pub record IsWire (e : MouseEvent) : Type 0 where
  pub x_fits : HasRange e.event_type e.x
  pub y_fits : HasRange e.event_type e.y
  pub shape : HasShape e.event_type e.button e.scroll

join_bytes : (w : ℕ) → u16_from_le_bytes (w % 256) (w / 256) ≡ w
join_bytes w = omega arith

parse-encode_mouse :
    (t : MouseEventType) (x y : ℤ) (b : Option MouseButton) (s : ℤ)
    → IsI16 x
    → IsI16 y
    → HasShape t b s
    → parse_hid_message
        (encode_mouse_event (record { event_type = t; x = x; y = y; button = b; scroll = s }))
      ≡ some (mouse (record { event_type = t; x = x; y = y; button = b; scroll = s }))
unfolding parse_hid_message parse_mouse_message encode_mouse_event
parse-encode_mouse MouseEventType.move x y b s hx hy h = ground (
  arith,
  mouse_event_type-code MouseEventType.move,
  join_bytes (wrap 65536 x),
  join_bytes (wrap 65536 y),
  i16-wrap x hx,
  i16-wrap y hy,
)
parse-encode_mouse MouseEventType.move_abs x y b s hx hy h = ground (
  arith,
  mouse_event_type-code MouseEventType.move_abs,
  join_bytes (wrap 65536 x),
  join_bytes (wrap 65536 y),
  i16-wrap x hx,
  i16-wrap y hy,
)
parse-encode_mouse MouseEventType.down x y b s hx hy h = ground (
  arith,
  mouse_event_type-code MouseEventType.down,
  join_bytes (wrap 65536 x),
  join_bytes (wrap 65536 y),
  i16-wrap x hx,
  i16-wrap y hy,
  button_of-code h.0.0,
)
parse-encode_mouse MouseEventType.up x y b s hx hy h = ground (
  arith,
  mouse_event_type-code MouseEventType.up,
  join_bytes (wrap 65536 x),
  join_bytes (wrap 65536 y),
  i16-wrap x hx,
  i16-wrap y hy,
  button_of-code h.0.0,
)
parse-encode_mouse MouseEventType.scroll x y b s hx hy h = ground (
  arith,
  mouse_event_type-code MouseEventType.scroll,
  join_bytes (wrap 65536 x),
  join_bytes (wrap 65536 y),
  i16-wrap x hx,
  i16-wrap y hy,
  i8-wrap s h.1,
)

HasRange-IsI16 : (t : MouseEventType) (x : ℤ) → HasRange t x → IsI16 x
HasRange-IsI16 MouseEventType.move x h = h
HasRange-IsI16 MouseEventType.move_abs (pos n) h = omega arith
HasRange-IsI16 MouseEventType.move_abs (negsuc n) h = absurd (omega (arith, h.0))
HasRange-IsI16 MouseEventType.down x h = h
HasRange-IsI16 MouseEventType.up x h = h
HasRange-IsI16 MouseEventType.scroll x h = h

-- A mouse event is what the parser reads from its encoding, where its coordinates are from 0 to 0x7FFF for an
-- absolute move and of 16 bits with a sign for any other event, and where it has a button exactly for a press
-- and a release, and a scroll distance, of 8 bits, for a scroll only.
pub parse-encode_mouse_event :
    (e : MouseEvent) → IsWire e → parse_hid_message (encode_mouse_event e) ≡ some (mouse e)
parse-encode_mouse_event e w =
    parse-encode_mouse e.event_type e.x e.y e.button e.scroll
      (HasRange-IsI16 e.event_type e.x w.x_fits) (HasRange-IsI16 e.event_type e.y w.y_fits) w.shape

-- An absolute move whose first coordinate is from 0x8000 to 0xFFFF and whose second is below 0x8000, both written
-- as unsigned numbers of 16 bits, which the format of the messages says, is read with the first coordinate
-- 0x10000 below, and so negative, and with the second as it is.
pub parse_hid_message_above :
    (x y b : ℕ)
    → 0x8000 ≤ x
    → x < 0x10000
    → y < 0x8000
    → parse_hid_message (0x02 ∷ 0x01 ∷ x % 256 ∷ x / 256 ∷ y % 256 ∷ y / 256 ∷ b ∷ [])
      ≡ some (
          mouse (record {
            event_type = MouseEventType.move_abs;
            x = negsuc (0xFFFF - x);
            y = pos y;
            button = none;
            scroll = pos 0;
          }))
unfolding parse_hid_message parse_mouse_message mouse_event_type
parse_hid_message_above x y b high fits low = ground (arith, join_bytes x, join_bytes y)
