-- ===== src/Hid/DataChannel/Parse.antt =====
-- src/hid/datachannel.rs: the parser. A payload that is too short is refused before it is indexed.
use one_kvm_stream_box.Base.{
  ℕ, Option, none, some, List, [], ◌∷◌, ◌==◌, ◌!=◌, bit_and, if◌then◌else◌, u16_from_le_bytes,
}
use one_kvm_stream_box.Base.Int.{ℤ, pos, i8, i16}
use one_kvm_stream_box.Hid.Keyboard.FromUsage.{from_hid_usage}
use one_kvm_stream_box.Hid.Event.{
  KeyEventType, KeyboardModifiers, MouseButton, left, right, middle, back, forward, MouseEventType,
}
use one_kvm_stream_box.Hid.DataChannel.{
  HidChannelEvent, keyboard, mouse, consumer, msg_keyboard, msg_mouse, msg_consumer,
}

infixl 5 ◌>>=◌
abbrev pub ◌>>=◌ : {A B : Type 0} → Option A → (A → Option B) → Option B
none >>= f = none
some a >>= f = f a

unfoldable pub key_event_type : ℕ → Option KeyEventType
key_event_type code =
    if code == 0x00
    then some KeyEventType.down
    else if code == 0x01
    then some KeyEventType.up
    else none

unfoldable pub mouse_event_type : ℕ → Option MouseEventType
mouse_event_type code =
    if code == 0x00
    then some MouseEventType.move
    else if code == 0x01
    then some MouseEventType.move_abs
    else if code == 0x02
    then some MouseEventType.down
    else if code == 0x03
    then some MouseEventType.up
    else if code == 0x04
    then some MouseEventType.scroll
    else none

-- The flags as `parse_keyboard_message` reads them, which does not call `from_hid_byte`.
unfoldable pub modifiers_of : ℕ → KeyboardModifiers
modifiers_of byte = record {
  left_ctrl = bit_and byte 0x01 != 0;
  left_shift = bit_and byte 0x02 != 0;
  left_alt = bit_and byte 0x04 != 0;
  left_meta = bit_and byte 0x08 != 0;
  right_ctrl = bit_and byte 0x10 != 0;
  right_shift = bit_and byte 0x20 != 0;
  right_alt = bit_and byte 0x40 != 0;
  right_meta = bit_and byte 0x80 != 0;
}

unfoldable pub parse_keyboard_message : List ℕ → Option HidChannelEvent
parse_keyboard_message (b₀ ∷ b₁ ∷ b₂ ∷ _) = do
  event_type ← key_event_type b₀
  key ← from_hid_usage b₁
  some (keyboard (record { event_type = event_type; key = key; modifiers = modifiers_of b₂ }))
parse_keyboard_message _ = none

-- An unknown button is the left one.
unfoldable pub button_of : ℕ → MouseButton
button_of b =
    if b == 0
    then left
    else if b == 1
    then middle
    else if b == 2
    then right
    else if b == 3
    then back
    else if b == 4
    then forward
    else left

abbrev pub button_and_scroll : MouseEventType → ℕ → Option MouseButton × ℤ
button_and_scroll MouseEventType.down b = (some (button_of b), pos 0)
button_and_scroll MouseEventType.up b = (some (button_of b), pos 0)
button_and_scroll MouseEventType.scroll b = (none, i8 b)
button_and_scroll _ b = (none, pos 0)

unfoldable pub parse_mouse_message : List ℕ → Option HidChannelEvent
parse_mouse_message (b₀ ∷ b₁ ∷ b₂ ∷ b₃ ∷ b₄ ∷ b₅ ∷ _) = do
  event_type ← mouse_event_type b₀
  some (
      mouse (record {
        event_type = event_type;
        x = i16 (u16_from_le_bytes b₁ b₂);
        y = i16 (u16_from_le_bytes b₃ b₄);
        button = (button_and_scroll event_type b₅).0;
        scroll = (button_and_scroll event_type b₅).1;
      }))
parse_mouse_message _ = none

unfoldable pub parse_consumer_message : List ℕ → Option HidChannelEvent
parse_consumer_message (b₀ ∷ b₁ ∷ _) = some (consumer (record { usage = u16_from_le_bytes b₀ b₁ }))
parse_consumer_message _ = none

unfoldable pub parse_hid_message : List ℕ → Option HidChannelEvent
parse_hid_message [] = none
parse_hid_message (msg_type ∷ payload) =
    if msg_type == msg_keyboard
    then parse_keyboard_message payload
    else if msg_type == msg_mouse
    then parse_mouse_message payload
    else if msg_type == msg_consumer
    then parse_consumer_message payload
    else none
