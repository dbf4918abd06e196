-- ===== src/Rustdesk/HidAdapter/KeyCodes.antt =====
-- src/rustdesk/hid_adapter.rs, the tables of the key codes. A `match` on a code is a chain of tests, and the
-- value of a `ControlKey` is its number in protos/message.proto.
use one_kvm_stream_box.Base.{ℕ, ◌+◌, ◌-◌, ◌&&◌, Option, none, some, leb, ◌==◌, if◌then◌else◌, u8}

unfoldable pub control_key_to_hid : ℕ → Option ℕ
control_key_to_hid key =
    if key == 1
    then some 0xE2
    else if key == 2
    then some 0x2A
    else if key == 3
    then some 0x39
    else if key == 4
    then some 0xE0
    else if key == 5
    then some 0x4C
    else if key == 6
    then some 0x51
    else if key == 7
    then some 0x4D
    else if key == 8
    then some 0x29
    else if key == 9
    then some 0x3A
    else if key == 13
    then some 0x3B
    else if key == 14
    then some 0x3C
    else if key == 15
    then some 0x3D
    else if key == 16
    then some 0x3E
    else if key == 17
    then some 0x3F
    else if key == 18
    then some 0x40
    else if key == 19
    then some 0x41
    else if key == 20
    then some 0x42
    else if key == 10
    then some 0x43
    else if key == 11
    then some 0x44
    else if key == 12
    then some 0x45
    else if key == 21
    then some 0x4A
    else if key == 22
    then some 0x50
    else if key == 23
    then some 0xE3
    else if key == 25
    then some 0x4E
    else if key == 26
    then some 0x4B
    else if key == 27
    then some 0x28
    else if key == 28
    then some 0x4F
    else if key == 29
    then some 0xE1
    else if key == 30
    then some 0x2C
    else if key == 31
    then some 0x2B
    else if key == 32
    then some 0x52
    else if key == 33
    then some 0x62
    else if key == 34
    then some 0x59
    else if key == 35
    then some 0x5A
    else if key == 36
    then some 0x5B
    else if key == 37
    then some 0x5C
    else if key == 38
    then some 0x5D
    else if key == 39
    then some 0x5E
    else if key == 40
    then some 0x5F
    else if key == 41
    then some 0x60
    else if key == 42
    then some 0x61
    else if key == 58
    then some 0x49
    else if key == 46
    then some 0x48
    else if key == 62
    then some 0x47
    else if key == 63
    then some 0x53
    else if key == 73
    then some 0xE5
    else if key == 74
    then some 0xE4
    else if key == 75
    then some 0xE6
    else if key == 66
    then some 0x55
    else if key == 67
    then some 0x57
    else if key == 68
    then some 0x56
    else if key == 69
    then some 0x63
    else if key == 70
    then some 0x54
    else if key == 72
    then some 0x58
    else none

-- An ASCII code.
unfoldable pub ascii_to_hid : ℕ → Option ℕ
ascii_to_hid ascii =
    if leb 97 ascii && leb ascii 122
    then some (u8 (ascii - 97 + 0x04))
    else if leb 65 ascii && leb ascii 90
    then some (u8 (ascii - 65 + 0x04))
    else if ascii == 48
    then some 0x27
    else if leb 49 ascii && leb ascii 57
    then some (u8 (ascii - 49 + 0x1E))
    else if ascii == 32
    then some 0x2C
    else if ascii == 13
    then some 0x28
    else if ascii == 10
    then some 0x28
    else if ascii == 9
    then some 0x2B
    else if ascii == 27
    then some 0x29
    else if ascii == 8
    then some 0x2A
    else if ascii == 127
    then some 0x4C
    else if ascii == 45
    then some 0x2D
    else if ascii == 61
    then some 0x2E
    else if ascii == 91
    then some 0x2F
    else if ascii == 93
    then some 0x30
    else if ascii == 92
    then some 0x31
    else if ascii == 59
    then some 0x33
    else if ascii == 39
    then some 0x34
    else if ascii == 96
    then some 0x35
    else if ascii == 44
    then some 0x36
    else if ascii == 46
    then some 0x37
    else if ascii == 47
    then some 0x38
    else none

-- A virtual key code of Windows. The table of the 26 letters is a sum.
unfoldable pub windows_vk_to_hid : ℕ → Option ℕ
windows_vk_to_hid vk =
    if leb 0x41 vk && leb vk 0x5A
    then some (u8 (vk - 0x41) + 0x04)
    else if vk == 0x30
    then some 0x27
    else if leb 0x31 vk && leb vk 0x39
    then some (u8 (vk - 0x31 + 0x1E))
    else if vk == 0x60
    then some 0x62
    else if leb 0x61 vk && leb vk 0x69
    then some (u8 (vk - 0x61 + 0x59))
    else if vk == 0x6A
    then some 0x55
    else if vk == 0x6B
    then some 0x57
    else if vk == 0x6D
    then some 0x56
    else if vk == 0x6E
    then some 0x63
    else if vk == 0x6F
    then some 0x54
    else if leb 0x70 vk && leb vk 0x7B
    then some (u8 (vk - 0x70 + 0x3A))
    else if vk == 0x08
    then some 0x2A
    else if vk == 0x09
    then some 0x2B
    else if vk == 0x0D
    then some 0x28
    else if vk == 0x1B
    then some 0x29
    else if vk == 0x20
    then some 0x2C
    else if vk == 0x21
    then some 0x4B
    else if vk == 0x22
    then some 0x4E
    else if vk == 0x23
    then some 0x4D
    else if vk == 0x24
    then some 0x4A
    else if vk == 0x25
    then some 0x50
    else if vk == 0x26
    then some 0x52
    else if vk == 0x27
    then some 0x4F
    else if vk == 0x28
    then some 0x51
    else if vk == 0x2D
    then some 0x49
    else if vk == 0x2E
    then some 0x4C
    else if vk == 0xBA
    then some 0x33
    else if vk == 0xBB
    then some 0x2E
    else if vk == 0xBC
    then some 0x36
    else if vk == 0xBD
    then some 0x2D
    else if vk == 0xBE
    then some 0x37
    else if vk == 0xBF
    then some 0x38
    else if vk == 0xC0
    then some 0x35
    else if vk == 0xDB
    then some 0x2F
    else if vk == 0xDC
    then some 0x31
    else if vk == 0xDD
    then some 0x30
    else if vk == 0xDE
    then some 0x34
    else if vk == 0x14
    then some 0x39
    else if vk == 0x90
    then some 0x53
    else if vk == 0x91
    then some 0x47
    else if vk == 0x2C
    then some 0x46
    else if vk == 0x13
    then some 0x48
    else none

-- A key code of X11.
unfoldable pub x11_keycode_to_hid : ℕ → Option ℕ
x11_keycode_to_hid keycode =
    if leb 10 keycode && leb keycode 18
    then some (u8 (keycode - 10 + 0x1E))
    else if keycode == 19
    then some 0x27
    else if keycode == 20
    then some 0x2D
    else if keycode == 21
    then some 0x2E
    else if keycode == 34
    then some 0x2F
    else if keycode == 35
    then some 0x30
    else if keycode == 24
    then some 0x14
    else if keycode == 25
    then some 0x1A
    else if keycode == 26
    then some 0x08
    else if keycode == 27
    then some 0x15
    else if keycode == 28
    then some 0x17
    else if keycode == 29
    then some 0x1C
    else if keycode == 30
    then some 0x18
    else if keycode == 31
    then some 0x0C
    else if keycode == 32
    then some 0x12
    else if keycode == 33
    then some 0x13
    else if keycode == 38
    then some 0x04
    else if keycode == 39
    then some 0x16
    else if keycode == 40
    then some 0x07
    else if keycode == 41
    then some 0x09
    else if keycode == 42
    then some 0x0A
    else if keycode == 43
    then some 0x0B
    else if keycode == 44
    then some 0x0D
    else if keycode == 45
    then some 0x0E
    else if keycode == 46
    then some 0x0F
    else if keycode == 47
    then some 0x33
    else if keycode == 48
    then some 0x34
    else if keycode == 49
    then some 0x35
    else if keycode == 51
    then some 0x31
    else if keycode == 52
    then some 0x1D
    else if keycode == 53
    then some 0x1B
    else if keycode == 54
    then some 0x06
    else if keycode == 55
    then some 0x19
    else if keycode == 56
    then some 0x05
    else if keycode == 57
    then some 0x11
    else if keycode == 58
    then some 0x10
    else if keycode == 59
    then some 0x36
    else if keycode == 60
    then some 0x37
    else if keycode == 61
    then some 0x38
    else if keycode == 65
    then some 0x2C
    else none

abbrev or_then : Option ℕ → Option ℕ → Option ℕ
or_then (some u) o = some u
or_then none o = o

unfoldable pub keycode_to_hid : ℕ → Option ℕ
keycode_to_hid keycode =
    or_then (ascii_to_hid keycode)
      (or_then (windows_vk_to_hid keycode) (x11_keycode_to_hid keycode))
