-- ===== src/Hid/Event.antt =====
-- src/hid/types.rs: the events that a client sends. Numbers of type `i32` and `i8` are integers.
pub mod ModifierByte
mod Examples
use one_kvm_stream_box.Base.{
  ℕ, Bool, true, false, ◌||◌, Option, none, some, bit_and, bit_or, ◌!=◌, if◌then◌else◌,
}
use one_kvm_stream_box.Base.Int.{ℤ, pos}
use one_kvm_stream_box.Hid.Keyboard.{CanonicalKey}

pub data KeyEventType : Type 0 where
  down up : KeyEventType

pub record KeyboardModifiers : Type 0 where
  pub left_ctrl : Bool
  pub left_shift : Bool
  pub left_alt : Bool
  pub left_meta : Bool
  pub right_ctrl : Bool
  pub right_shift : Bool
  pub right_alt : Bool
  pub right_meta : Bool

-- `if flag { byte |= bit; }`
abbrev set_bit : Bool → ℕ → ℕ → ℕ
set_bit flag bit byte = if flag then bit_or byte bit else byte

unfoldable pub to_hid_byte : KeyboardModifiers → ℕ
to_hid_byte m =
    let b₁ = set_bit m.left_ctrl 0x01 0 in
    let b₂ = set_bit m.left_shift 0x02 b₁ in
    let b₃ = set_bit m.left_alt 0x04 b₂ in
    let b₄ = set_bit m.left_meta 0x08 b₃ in
    let b₅ = set_bit m.right_ctrl 0x10 b₄ in
    let b₆ = set_bit m.right_shift 0x20 b₅ in
    let b₇ = set_bit m.right_alt 0x40 b₆ in set_bit m.right_meta 0x80 b₇

unfoldable pub from_hid_byte : ℕ → KeyboardModifiers
from_hid_byte byte = record {
  left_ctrl = bit_and byte 0x01 != 0;
  left_shift = bit_and byte 0x02 != 0;
  left_alt = bit_and byte 0x04 != 0;
  left_meta = bit_and byte 0x08 != 0;
  right_ctrl = bit_and byte 0x10 != 0;
  right_shift = bit_and byte 0x20 != 0;
  right_alt = bit_and byte 0x40 != 0;
  right_meta = bit_and byte 0x80 != 0;
}

unfoldable pub any : KeyboardModifiers → Bool
any m =
    m.left_ctrl || m.left_shift || m.left_alt || m.left_meta || m.right_ctrl || m.right_shift
    || m.right_alt || m.right_meta

pub record KeyboardEvent : Type 0 where
  pub event_type : KeyEventType
  pub key : CanonicalKey
  pub modifiers : KeyboardModifiers

pub data MouseButton : Type 0 where
  left right middle back forward : MouseButton

unfoldable pub to_hid_bit : MouseButton → ℕ
to_hid_bit left = 0x01
to_hid_bit right = 0x02
to_hid_bit middle = 0x04
to_hid_bit back = 0x08
to_hid_bit forward = 0x10

pub data MouseEventType : Type 0 where
  move move_abs down up scroll : MouseEventType

pub record MouseEvent : Type 0 where
  pub event_type : MouseEventType
  pub x : ℤ  -- i32
  pub y : ℤ  -- i32
  pub button : Option MouseButton
  pub scroll : ℤ  -- i8

pub record ConsumerEvent : Type 0 where
  pub usage : ℕ  -- u16
