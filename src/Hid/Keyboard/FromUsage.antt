-- ===== src/Hid/Keyboard/FromUsage.antt =====
-- src/hid/keyboard.rs: the key of a wire code. The `match` on the code is a chain of tests.
use one_kvm_stream_box.Base.{ℕ, Option, none, some, ◌==◌, if◌then◌else◌}
use one_kvm_stream_box.Hid.Keyboard.{
  CanonicalKey, key_a, key_b, key_c, key_d, key_e, key_f, key_g, key_h, key_i, key_j, key_k, key_l,
  key_m, key_n, key_o, key_p, key_q, key_r, key_s, key_t, key_u, key_v, key_w, key_x, key_y, key_z,
  digit1, digit2, digit3, digit4, digit5, digit6, digit7, digit8, digit9, digit0, enter, escape,
  backspace, tab, space, minus, equal, bracket_left, bracket_right, backslash, semicolon, quote,
  backquote, comma, period, slash, caps_lock, f1, f2, f3, f4, f5, f6, f7, f8, f9, f10, f11, f12,
  print_screen, scroll_lock, pause, insert, home, page_up, delete, end, page_down, arrow_right,
  arrow_left, arrow_down, arrow_up, num_lock, numpad_divide, numpad_multiply, numpad_subtract,
  numpad_add, numpad_enter, numpad1, numpad2, numpad3, numpad4, numpad5, numpad6, numpad7, numpad8,
  numpad9, numpad0, numpad_decimal, intl_backslash, context_menu, f13, f14, f15, f16, f17, f18, f19,
  f20, f21, f22, f23, f24, control_left, shift_left, alt_left, meta_left, control_right,
  shift_right, alt_right, meta_right,
}

unfoldable pub from_hid_usage : ℕ → Option CanonicalKey
from_hid_usage usage =
    if usage == 0x04
    then some key_a
    else if usage == 0x05
    then some key_b
    else if usage == 0x06
    then some key_c
    else if usage == 0x07
    then some key_d
    else if usage == 0x08
    then some key_e
    else if usage == 0x09
    then some key_f
    else if usage == 0x0A
    then some key_g
    else if usage == 0x0B
    then some key_h
    else if usage == 0x0C
    then some key_i
    else if usage == 0x0D
    then some key_j
    else if usage == 0x0E
    then some key_k
    else if usage == 0x0F
    then some key_l
    else if usage == 0x10
    then some key_m
    else if usage == 0x11
    then some key_n
    else if usage == 0x12
    then some key_o
    else if usage == 0x13
    then some key_p
    else if usage == 0x14
    then some key_q
    else if usage == 0x15
    then some key_r
    else if usage == 0x16
    then some key_s
    else if usage == 0x17
    then some key_t
    else if usage == 0x18
    then some key_u
    else if usage == 0x19
    then some key_v
    else if usage == 0x1A
    then some key_w
    else if usage == 0x1B
    then some key_x
    else if usage == 0x1C
    then some key_y
    else if usage == 0x1D
    then some key_z
    else if usage == 0x1E
    then some digit1
    else if usage == 0x1F
    then some digit2
    else if usage == 0x20
    then some digit3
    else if usage == 0x21
    then some digit4
    else if usage == 0x22
    then some digit5
    else if usage == 0x23
    then some digit6
    else if usage == 0x24
    then some digit7
    else if usage == 0x25
    then some digit8
    else if usage == 0x26
    then some digit9
    else if usage == 0x27
    then some digit0
    else if usage == 0x28
    then some enter
    else if usage == 0x29
    then some escape
    else if usage == 0x2A
    then some backspace
    else if usage == 0x2B
    then some tab
    else if usage == 0x2C
    then some space
    else if usage == 0x2D
    then some minus
    else if usage == 0x2E
    then some equal
    else if usage == 0x2F
    then some bracket_left
    else if usage == 0x30
    then some bracket_right
    else if usage == 0x31
    then some backslash
    else if usage == 0x33
    then some semicolon
    else if usage == 0x34
    then some quote
    else if usage == 0x35
    then some backquote
    else if usage == 0x36
    then some comma
    else if usage == 0x37
    then some period
    else if usage == 0x38
    then some slash
    else if usage == 0x39
    then some caps_lock
    else if usage == 0x3A
    then some f1
    else if usage == 0x3B
    then some f2
    else if usage == 0x3C
    then some f3
    else if usage == 0x3D
    then some f4
    else if usage == 0x3E
    then some f5
    else if usage == 0x3F
    then some f6
    else if usage == 0x40
    then some f7
    else if usage == 0x41
    then some f8
    else if usage == 0x42
    then some f9
    else if usage == 0x43
    then some f10
    else if usage == 0x44
    then some f11
    else if usage == 0x45
    then some f12
    else if usage == 0x46
    then some print_screen
    else if usage == 0x47
    then some scroll_lock
    else if usage == 0x48
    then some pause
    else if usage == 0x49
    then some insert
    else if usage == 0x4A
    then some home
    else if usage == 0x4B
    then some page_up
    else if usage == 0x4C
    then some delete
    else if usage == 0x4D
    then some end
    else if usage == 0x4E
    then some page_down
    else if usage == 0x4F
    then some arrow_right
    else if usage == 0x50
    then some arrow_left
    else if usage == 0x51
    then some arrow_down
    else if usage == 0x52
    then some arrow_up
    else if usage == 0x53
    then some num_lock
    else if usage == 0x54
    then some numpad_divide
    else if usage == 0x55
    then some numpad_multiply
    else if usage == 0x56
    then some numpad_subtract
    else if usage == 0x57
    then some numpad_add
    else if usage == 0x58
    then some numpad_enter
    else if usage == 0x59
    then some numpad1
    else if usage == 0x5A
    then some numpad2
    else if usage == 0x5B
    then some numpad3
    else if usage == 0x5C
    then some numpad4
    else if usage == 0x5D
    then some numpad5
    else if usage == 0x5E
    then some numpad6
    else if usage == 0x5F
    then some numpad7
    else if usage == 0x60
    then some numpad8
    else if usage == 0x61
    then some numpad9
    else if usage == 0x62
    then some numpad0
    else if usage == 0x63
    then some numpad_decimal
    else if usage == 0x64
    then some intl_backslash
    else if usage == 0x65
    then some context_menu
    else if usage == 0x68
    then some f13
    else if usage == 0x69
    then some f14
    else if usage == 0x6A
    then some f15
    else if usage == 0x6B
    then some f16
    else if usage == 0x6C
    then some f17
    else if usage == 0x6D
    then some f18
    else if usage == 0x6E
    then some f19
    else if usage == 0x6F
    then some f20
    else if usage == 0x70
    then some f21
    else if usage == 0x71
    then some f22
    else if usage == 0x72
    then some f23
    else if usage == 0x73
    then some f24
    else if usage == 0xE0
    then some control_left
    else if usage == 0xE1
    then some shift_left
    else if usage == 0xE2
    then some alt_left
    else if usage == 0xE3
    then some meta_left
    else if usage == 0xE4
    then some control_right
    else if usage == 0xE5
    then some shift_right
    else if usage == 0xE6
    then some alt_right
    else if usage == 0xE7
    then some meta_right
    else none
