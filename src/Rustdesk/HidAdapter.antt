-- ===== src/Rustdesk/HidAdapter.antt =====
-- src/rustdesk/hid_adapter.rs: the mouse and key events of a RustDesk client become those of src/hid/types.rs.
-- The key codes stand in Rustdesk/HidAdapter/KeyCodes. The fields of the protocol's messages that the
-- adapter does not read are left out.
pub mod KeyCodes
pub mod Mouse
pub mod Keys
pub mod Examples
use one_kvm_stream_box.Base.{
  ℕ, ◌+◌, ◌-◌, ◌*◌, ◌/◌, ◌%◌, ◌^◌, max, Bool, true, false, ◌||◌, Option, none, some, List, [], ◌∷◌,
  ◌++◌, ltb, ◌==◌, if◌then◌else◌,
}
use one_kvm_stream_box.Base.Int.{ℤ, pos, negsuc, wrap, pos_part, ltb_ℤ}
use one_kvm_stream_box.Hid.Keyboard.{CanonicalKey}
use one_kvm_stream_box.Hid.Keyboard.FromUsage.{from_hid_usage}
use one_kvm_stream_box.Hid.Event.{
  KeyEventType, KeyboardModifiers, KeyboardEvent, MouseButton, left, right, middle, MouseEventType,
  MouseEvent,
}
use one_kvm_stream_box.Rustdesk.HidAdapter.KeyCodes.{control_key_to_hid, keycode_to_hid}

-- The protocol's `MouseEvent`; an `i32` is an integer.
pub record PeerMouseEvent : Type 0 where
  pub mask : ℤ
  pub x : ℤ
  pub y : ℤ

-- `>> 3` on an `i32`
abbrev pub shift_three : ℤ → ℤ
shift_three (pos n) = pos (n / 8)
shift_three (negsuc n) = negsuc (n / 8)

-- `as i32` on a `u64`
abbrev pub as_i32 : ℕ → ℤ
as_i32 n = let w = n % 2 ^ 32 in if ltb w (2 ^ 31) then pos w else negsuc (2 ^ 32 - 1 - w)

-- A coordinate, on the scale of the absolute mouse.
abbrev pub normalize : ℤ → ℕ → ℤ
normalize x size = as_i32 (pos_part x * 32767 / max size 1)

abbrev pub move_to : PeerMouseEvent → ℕ → ℕ → MouseEvent
move_to e width height = record {
  event_type = MouseEventType.move_abs;
  x = normalize e.x width;
  y = normalize e.y height;
  button = none;
  scroll = pos 0;
}

-- The press or the release of a button, and a turn of the wheel.
abbrev pub at_rest : MouseEventType → Option MouseButton → ℤ → MouseEvent
at_rest t button scroll = record {
  event_type = t;
  x = pos 0;
  y = pos 0;
  button = button;
  scroll = scroll;
}

abbrev id_of : ℕ → Option MouseButton
id_of n =
    if n == 0x01
    then some left
    else if n == 0x02
    then some right
    else if n == 0x04
    then some middle
    else none

unfoldable pub button_id_to_button : ℤ → Option MouseButton
button_id_to_button (pos n) = id_of n
button_id_to_button (negsuc n) = none

abbrev button_event : MouseEventType → Option MouseButton → List MouseEvent
button_event t none = []
button_event t (some button) = at_rest t (some button) (pos 0) ∷ []

unfoldable pub convert_mouse_event :
    PeerMouseEvent → (width height : ℕ) → (relative_mode : Bool) → List MouseEvent
convert_mouse_event e width height relative_mode =
    let event_type = wrap 8 e.mask in
    let button = button_id_to_button (shift_three e.mask) in
    let moves = (if relative_mode then [] else move_to e width height ∷ []) in
    if event_type == 0
    then move_to e width height ∷ []
    else if event_type == 5
    then record {
      event_type = MouseEventType.move;
      x = e.x;
      y = e.y;
      button = none;
      scroll = pos 0;
    }
      ∷ []
    else if event_type == 1
    then moves ++ button_event MouseEventType.down button
    else if event_type == 2
    then moves ++ button_event MouseEventType.up button
    else if event_type == 3
    then moves
      ++ (at_rest MouseEventType.scroll none (if ltb_ℤ (pos 0) e.y then pos 1 else negsuc 0) ∷ [])
    else moves

-- `key_event::Union`; the adapter reads two of its cases.
pub data KeyUnion : Type 0 where
  control_key chr : ℕ → KeyUnion
  other_union : KeyUnion

pub record KeyEvent : Type 0 where
  pub down : Bool
  pub press : Bool
  pub union : KeyUnion
  pub modifiers : List ℕ

abbrev pub no_modifiers : KeyboardModifiers
no_modifiers = record {
  left_ctrl = false;
  left_shift = false;
  left_alt = false;
  left_meta = false;
  right_ctrl = false;
  right_shift = false;
  right_alt = false;
  right_meta = false;
}

abbrev modifier_value : ℕ → Bool
modifier_value n = n == 4 || n == 29 || n == 1 || n == 23 || n == 74 || n == 73 || n == 75

abbrev pub modifier_union : KeyUnion → Bool
modifier_union (control_key n) = modifier_value n
modifier_union (chr n) = false
modifier_union other_union = false

unfoldable pub is_modifier_control_key : KeyEvent → Bool
is_modifier_control_key e = modifier_union e.union

unfoldable pub set_modifier : ℕ → KeyboardModifiers → KeyboardModifiers
set_modifier n m =
    if n == 4
    then record m { left_ctrl = true }
    else if n == 29
    then record m { left_shift = true }
    else if n == 1
    then record m { left_alt = true }
    else if n == 23
    then record m { left_meta = true }
    else if n == 74
    then record m { right_ctrl = true }
    else if n == 73
    then record m { right_shift = true }
    else if n == 75
    then record m { right_alt = true }
    else m

unfoldable pub add_modifiers : List ℕ → KeyboardModifiers → KeyboardModifiers
add_modifiers [] m = m
add_modifiers (n ∷ ns) m = add_modifiers ns (set_modifier n m)

unfoldable pub parse_modifiers : KeyEvent → KeyboardModifiers
parse_modifiers e = add_modifiers e.modifiers no_modifiers

-- The code of the key, where there is one.
unfoldable pub usage_of : KeyUnion → Option ℕ
usage_of (control_key n) = control_key_to_hid n
usage_of (chr n) = keycode_to_hid n
usage_of other_union = none

unfoldable pub event_type_of : KeyEvent → KeyEventType
event_type_of e = if e.down || e.press then KeyEventType.down else KeyEventType.up

unfoldable pub modifiers_for : KeyEvent → KeyboardModifiers
modifiers_for e = if is_modifier_control_key e then no_modifiers else parse_modifiers e

abbrev with_key : KeyEvent → Option CanonicalKey → Option KeyboardEvent
with_key e none = none
with_key e (some key) =
    some (record { event_type = event_type_of e; key = key; modifiers = modifiers_for e })

abbrev with_usage : KeyEvent → Option ℕ → Option KeyboardEvent
with_usage e none = none
with_usage e (some usage) = with_key e (from_hid_usage usage)

unfoldable pub convert_key_event : KeyEvent → Option KeyboardEvent
convert_key_event e = with_usage e (usage_of e.union)
