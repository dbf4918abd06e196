-- ===== src/Hid/Keyboard.antt =====
-- src/hid/keyboard.rs: the keys that the browser and the HID backends share, and their wire codes.
pub mod FromUsage
pub mod Codes
mod Examples
use one_kvm_stream_box.Base.{ℕ, Bool, true, false, Option, none, some}

pub data CanonicalKey : Type 0 where
  key_a key_b key_c key_d key_e key_f key_g key_h key_i key_j key_k key_l key_m key_n key_o key_p :
      CanonicalKey
  key_q key_r key_s key_t key_u key_v key_w key_x key_y key_z digit1 digit2 digit3 digit4 digit5 :
      CanonicalKey
  digit6 digit7 digit8 digit9 digit0 enter escape backspace tab space minus equal bracket_left :
      CanonicalKey
  bracket_right backslash semicolon quote backquote comma period slash caps_lock f1 f2 f3 f4 f5 :
      CanonicalKey
  f6 f7 f8 f9 f10 f11 f12 print_screen scroll_lock pause insert home page_up delete end page_down :
      CanonicalKey
  arrow_right arrow_left arrow_down arrow_up num_lock numpad_divide numpad_multiply : CanonicalKey
  numpad_subtract numpad_add numpad_enter numpad1 numpad2 numpad3 numpad4 numpad5 numpad6 numpad7 :
      CanonicalKey
  numpad8 numpad9 numpad0 numpad_decimal intl_backslash context_menu f13 f14 f15 f16 f17 f18 f19 :
      CanonicalKey
  f20 f21 f22 f23 f24 control_left shift_left alt_left meta_left control_right shift_right :
      CanonicalKey
  alt_right meta_right : CanonicalKey

-- The USB HID usage of the key on the keyboard page.
unfoldable pub to_hid_usage : CanonicalKey → ℕ
to_hid_usage key_a = 0x04
to_hid_usage key_b = 0x05
to_hid_usage key_c = 0x06
to_hid_usage key_d = 0x07
to_hid_usage key_e = 0x08
to_hid_usage key_f = 0x09
to_hid_usage key_g = 0x0A
to_hid_usage key_h = 0x0B
to_hid_usage key_i = 0x0C
to_hid_usage key_j = 0x0D
to_hid_usage key_k = 0x0E
to_hid_usage key_l = 0x0F
to_hid_usage key_m = 0x10
to_hid_usage key_n = 0x11
to_hid_usage key_o = 0x12
to_hid_usage key_p = 0x13
to_hid_usage key_q = 0x14
to_hid_usage key_r = 0x15
to_hid_usage key_s = 0x16
to_hid_usage key_t = 0x17
to_hid_usage key_u = 0x18
to_hid_usage key_v = 0x19
to_hid_usage key_w = 0x1A
to_hid_usage key_x = 0x1B
to_hid_usage key_y = 0x1C
to_hid_usage key_z = 0x1D
to_hid_usage digit1 = 0x1E
to_hid_usage digit2 = 0x1F
to_hid_usage digit3 = 0x20
to_hid_usage digit4 = 0x21
to_hid_usage digit5 = 0x22
to_hid_usage digit6 = 0x23
to_hid_usage digit7 = 0x24
to_hid_usage digit8 = 0x25
to_hid_usage digit9 = 0x26
to_hid_usage digit0 = 0x27
to_hid_usage enter = 0x28
to_hid_usage escape = 0x29
to_hid_usage backspace = 0x2A
to_hid_usage tab = 0x2B
to_hid_usage space = 0x2C
to_hid_usage minus = 0x2D
to_hid_usage equal = 0x2E
to_hid_usage bracket_left = 0x2F
to_hid_usage bracket_right = 0x30
to_hid_usage backslash = 0x31
to_hid_usage semicolon = 0x33
to_hid_usage quote = 0x34
to_hid_usage backquote = 0x35
to_hid_usage comma = 0x36
to_hid_usage period = 0x37
to_hid_usage slash = 0x38
to_hid_usage caps_lock = 0x39
to_hid_usage f1 = 0x3A
to_hid_usage f2 = 0x3B
to_hid_usage f3 = 0x3C
to_hid_usage f4 = 0x3D
to_hid_usage f5 = 0x3E
to_hid_usage f6 = 0x3F
to_hid_usage f7 = 0x40
to_hid_usage f8 = 0x41
to_hid_usage f9 = 0x42
to_hid_usage f10 = 0x43
to_hid_usage f11 = 0x44
to_hid_usage f12 = 0x45
to_hid_usage print_screen = 0x46
to_hid_usage scroll_lock = 0x47
to_hid_usage pause = 0x48
to_hid_usage insert = 0x49
to_hid_usage home = 0x4A
to_hid_usage page_up = 0x4B
to_hid_usage delete = 0x4C
to_hid_usage end = 0x4D
to_hid_usage page_down = 0x4E
to_hid_usage arrow_right = 0x4F
to_hid_usage arrow_left = 0x50
to_hid_usage arrow_down = 0x51
to_hid_usage arrow_up = 0x52
to_hid_usage num_lock = 0x53
to_hid_usage numpad_divide = 0x54
to_hid_usage numpad_multiply = 0x55
to_hid_usage numpad_subtract = 0x56
to_hid_usage numpad_add = 0x57
to_hid_usage numpad_enter = 0x58
to_hid_usage numpad1 = 0x59
to_hid_usage numpad2 = 0x5A
to_hid_usage numpad3 = 0x5B
to_hid_usage numpad4 = 0x5C
to_hid_usage numpad5 = 0x5D
to_hid_usage numpad6 = 0x5E
to_hid_usage numpad7 = 0x5F
to_hid_usage numpad8 = 0x60
to_hid_usage numpad9 = 0x61
to_hid_usage numpad0 = 0x62
to_hid_usage numpad_decimal = 0x63
to_hid_usage intl_backslash = 0x64
to_hid_usage context_menu = 0x65
to_hid_usage f13 = 0x68
to_hid_usage f14 = 0x69
to_hid_usage f15 = 0x6A
to_hid_usage f16 = 0x6B
to_hid_usage f17 = 0x6C
to_hid_usage f18 = 0x6D
to_hid_usage f19 = 0x6E
to_hid_usage f20 = 0x6F
to_hid_usage f21 = 0x70
to_hid_usage f22 = 0x71
to_hid_usage f23 = 0x72
to_hid_usage f24 = 0x73
to_hid_usage control_left = 0xE0
to_hid_usage shift_left = 0xE1
to_hid_usage alt_left = 0xE2
to_hid_usage meta_left = 0xE3
to_hid_usage control_right = 0xE4
to_hid_usage shift_right = 0xE5
to_hid_usage alt_right = 0xE6
to_hid_usage meta_right = 0xE7

unfoldable pub is_modifier : CanonicalKey → Bool
is_modifier control_left = true
is_modifier shift_left = true
is_modifier alt_left = true
is_modifier meta_left = true
is_modifier control_right = true
is_modifier shift_right = true
is_modifier alt_right = true
is_modifier meta_right = true
is_modifier _ = false

-- The bit of the key in the modifier byte of a keyboard report.
unfoldable pub modifier_bit : CanonicalKey → Option ℕ
modifier_bit control_left = some 0x01
modifier_bit shift_left = some 0x02
modifier_bit alt_left = some 0x04
modifier_bit meta_left = some 0x08
modifier_bit control_right = some 0x10
modifier_bit shift_right = some 0x20
modifier_bit alt_right = some 0x40
modifier_bit meta_right = some 0x80
modifier_bit _ = none
