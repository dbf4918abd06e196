-- ===== src/Hid/DataChannel.antt =====
-- src/hid/datachannel.rs: the binary messages that carry HID events over a data channel or a
-- websocket. A message is a list of bytes.
pub mod Parse
pub mod RoundTrip
pub mod Inverse
mod Examples
use one_kvm_stream_box.Base.{ℕ, Option, none, some, List, [], ◌∷◌, ◌%◌, ◌/◌}
use one_kvm_stream_box.Base.Int.{ℤ, wrap}
use one_kvm_stream_box.Hid.Keyboard.{to_hid_usage}
use one_kvm_stream_box.Hid.Event.{
  KeyEventType, KeyboardEvent, MouseButton, left, right, middle, back, forward, MouseEventType,
  MouseEvent, ConsumerEvent, to_hid_byte,
}

abbrev pub msg_keyboard : ℕ
msg_keyboard = 0x01

abbrev pub msg_mouse : ℕ
msg_mouse = 0x02

abbrev pub msg_consumer : ℕ
msg_consumer = 0x03

pub data HidChannelEvent : Type 0 where
  keyboard : KeyboardEvent → HidChannelEvent
  mouse : MouseEvent → HidChannelEvent
  consumer : ConsumerEvent → HidChannelEvent

-- KB_EVENT_DOWN and KB_EVENT_UP.
unfoldable pub key_event_code : KeyEventType → ℕ
key_event_code KeyEventType.down = 0x00
key_event_code KeyEventType.up = 0x01

-- MS_EVENT_MOVE to MS_EVENT_SCROLL.
unfoldable pub mouse_event_code : MouseEventType → ℕ
mouse_event_code MouseEventType.move = 0x00
mouse_event_code MouseEventType.move_abs = 0x01
mouse_event_code MouseEventType.down = 0x02
mouse_event_code MouseEventType.up = 0x03
mouse_event_code MouseEventType.scroll = 0x04

unfoldable pub button_code : MouseButton → ℕ
button_code left = 0
button_code middle = 1
button_code right = 2
button_code back = 3
button_code forward = 4

-- `.as_ref().map(..).unwrap_or(0)`
abbrev code_or_zero : Option MouseButton → ℕ
code_or_zero none = 0
code_or_zero (some b) = button_code b

abbrev extra_byte : MouseEventType → Option MouseButton → ℤ → ℕ
extra_byte MouseEventType.down button scroll = code_or_zero button
extra_byte MouseEventType.up button scroll = code_or_zero button
extra_byte MouseEventType.scroll button scroll = wrap 256 scroll
extra_byte _ button scroll = 0

unfoldable pub encode_keyboard_event : KeyboardEvent → List ℕ
encode_keyboard_event event =
    msg_keyboard
    ∷ key_event_code event.event_type
    ∷ to_hid_usage event.key
    ∷ to_hid_byte event.modifiers
    ∷ []

-- `event.x as i16` keeps the low sixteen bits.
unfoldable pub encode_mouse_event : MouseEvent → List ℕ
encode_mouse_event event =
    let x = wrap 65536 event.x in
    let y = wrap 65536 event.y in
    msg_mouse
    ∷ mouse_event_code event.event_type
    ∷ x % 256
    ∷ x / 256
    ∷ y % 256
    ∷ y / 256
    ∷ extra_byte event.event_type event.button event.scroll
    ∷ []
