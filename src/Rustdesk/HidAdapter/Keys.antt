-- ===== src/Rustdesk/HidAdapter/Keys.antt =====
-- The keys of a RustDesk client: each code that has a usage has a key, and codes of two kinds collide.
use one_kvm_stream_box.Base.{
  ℕ, ◌+◌, ◌<◌, ◌≡◌, refl, ap, ◌∙◌, inl, inr, Bool, true, false, not, ◌&&◌, ◌||◌, Option, none, some,
  List, [], ◌∷◌, arith, ltb, ◌==◌, ==_iff, &&→both, Option-cases, Bool-cases, if◌then◌else◌,
  all_below, all_below_sound,
}
use one_kvm_stream_box.Hid.Keyboard.{CanonicalKey, to_hid_usage}
use one_kvm_stream_box.Hid.Keyboard.FromUsage.{from_hid_usage}
use one_kvm_stream_box.Hid.Keyboard.Codes.{from_hid_usage_iff}
use one_kvm_stream_box.Hid.Event.{KeyEventType, KeyboardModifiers}
use one_kvm_stream_box.Rustdesk.HidAdapter.KeyCodes.{
  control_key_to_hid, ascii_to_hid, windows_vk_to_hid, x11_keycode_to_hid, keycode_to_hid,
}
use one_kvm_stream_box.Rustdesk.HidAdapter.{
  KeyUnion, control_key, chr, other_union, KeyEvent, usage_of, event_type_of, modifiers_for,
  set_modifier, add_modifiers, parse_modifiers, is_modifier_control_key, modifier_union,
  no_modifiers, convert_key_event,
}

-- Whether a usage, where there is one, is a byte that a key has.
abbrev has_key : Option CanonicalKey → Bool
has_key none = false
has_key (some k) = true

abbrev is_known : Option ℕ → Bool
is_known none = true
is_known (some u) = ltb u 256 && has_key (from_hid_usage u)

chr_table : all_below 256 (λ n. is_known (keycode_to_hid n)) ≡ true
unfolding all_below keycode_to_hid ascii_to_hid windows_vk_to_hid x11_keycode_to_hid from_hid_usage
chr_table = refl

control_table : all_below 256 (λ n. is_known (control_key_to_hid n)) ≡ true
unfolding all_below control_key_to_hid from_hid_usage
control_table = refl

abbrev code_of : KeyUnion → ℕ
code_of (control_key n) = n
code_of (chr n) = n
code_of other_union = 0

usage_of-is_known : (u : KeyUnion) → code_of u < 256 → is_known (usage_of u) ≡ true
unfolding usage_of
usage_of-is_known (control_key n) small =
    all_below_sound 256 (λ n. is_known (control_key_to_hid n)) n control_table small
usage_of-is_known (chr n) small =
    all_below_sound 256 (λ n. is_known (keycode_to_hid n)) n chr_table small
usage_of-is_known other_union small = refl

-- Whether a number stands in a list.
abbrev pub holds : ℕ → List ℕ → Bool
holds n [] = false
holds n (m ∷ ms) = (m == n) || holds n ms

-- The numbers of Alt, Control, Meta, Shift, and of the right Shift, Control and Alt.
abbrev pub is_modifier_number : ℕ → Bool
is_modifier_number n = holds n (1 ∷ 4 ∷ 23 ∷ 29 ∷ 73 ∷ 74 ∷ 75 ∷ [])

abbrev pub is_modifier_union : KeyUnion → Bool
is_modifier_union (control_key n) = is_modifier_number n
is_modifier_union (chr n) = false
is_modifier_union other_union = false

-- The flags of a list of control keys, beside those that are set already.
abbrev flags : List ℕ → KeyboardModifiers → KeyboardModifiers
flags ns m = record {
  left_ctrl = m.left_ctrl || holds 4 ns;
  left_shift = m.left_shift || holds 29 ns;
  left_alt = m.left_alt || holds 1 ns;
  left_meta = m.left_meta || holds 23 ns;
  right_ctrl = m.right_ctrl || holds 74 ns;
  right_shift = m.right_shift || holds 73 ns;
  right_alt = m.right_alt || holds 75 ns;
  right_meta = m.right_meta;
}

flags-nil : (m : KeyboardModifiers) → m ≡ flags [] m
flags-nil m = ground arith

flags-set :
    (n : ℕ) (ns : List ℕ) (m : KeyboardModifiers) → flags ns (set_modifier n m) ≡ flags (n ∷ ns) m
unfolding set_modifier
flags-set n ns m = ground arith

add_modifiers-flags : (ns : List ℕ) (m : KeyboardModifiers) → add_modifiers ns m ≡ flags ns m
unfolding add_modifiers
add_modifiers-flags [] m = flags-nil m
add_modifiers-flags (n ∷ ns) m = add_modifiers-flags ns (set_modifier n m) ∙ flags-set n ns m

-- The flag of a control key that the client holds, unless the event is of a modifier key itself.
abbrev pub held : ℕ → KeyEvent → Bool
held n e = not (is_modifier_union e.union) && holds n e.modifiers

modifier_union-is_modifier_union : (u : KeyUnion) → modifier_union u ≡ is_modifier_union u
modifier_union-is_modifier_union (control_key n) = ground arith
modifier_union-is_modifier_union (chr n) = refl
modifier_union-is_modifier_union other_union = refl

-- The flags of an event.
abbrev held_modifiers : KeyEvent → KeyboardModifiers
held_modifiers e = record {
  left_ctrl = held 4 e;
  left_shift = held 29 e;
  left_alt = held 1 e;
  left_meta = held 23 e;
  right_ctrl = held 74 e;
  right_shift = held 73 e;
  right_alt = held 75 e;
  right_meta = false;
}

modifiers_for-held : (e : KeyEvent) → modifiers_for e ≡ held_modifiers e
unfolding modifiers_for parse_modifiers is_modifier_control_key
modifiers_for-held e =
    let same = modifier_union-is_modifier_union e.union in
    elim (Bool-cases (is_modifier_union e.union)) [
      | inl own ↦ ground (arith, own, same)
      | inr other ↦ ground (arith, other, same, add_modifiers-flags e.modifiers no_modifiers)
    ]

-- A key event whose code is below 256 and has a usage becomes one event, of the key with that usage, so no
-- usage of the tables is lost. It is a press where the client says `down` or `press`, and a release else. Its
-- flags are those of the control keys that the client lists as held: Control, Shift, Alt and Meta on the left,
-- and Control, Shift and Alt on the right. A modifier key that is sent as a control key carries no flag.
pub convert_key_event-some :
    (e : KeyEvent) (usage : ℕ)
    → code_of e.union < 256
    → usage_of e.union ≡ some usage
    → (key : CanonicalKey) × (convert_key_event e
        ≡ some (record {
          event_type = if e.down || e.press then KeyEventType.down else KeyEventType.up;
          key = key;
          modifiers = record {
            left_ctrl = held 4 e;
            left_shift = held 29 e;
            left_alt = held 1 e;
            left_meta = held 23 e;
            right_ctrl = held 74 e;
            right_shift = held 73 e;
            right_alt = held 75 e;
            right_meta = false;
          };
        }))
      × (to_hid_usage key ≡ usage)
unfolding convert_key_event event_type_of
convert_key_event-some e usage small is =
    let known : is_known (some usage) ≡ true = (rw is at (usage_of-is_known e.union small)) in
    let (byte, there) = &&→both (ltb usage 256) (has_key (from_hid_usage usage)) known in
    elim (Option-cases (from_hid_usage usage)) [
      | inl lost ↦ absurd (missing (from_hid_usage usage) lost there)
      | inr (key, found) ↦ (
        key,
        rw (is, found, modifiers_for-held e) refl,
        (from_hid_usage_iff usage key (ground (arith, byte))).0 found,
      )
    ]
  where
    missing : (o : Option CanonicalKey) → o ≡ none → has_key o ≡ true → ⊥
    missing none lost there = cc
    missing (some k) lost there = cc

-- Whether a code has this usage.
abbrev has_usage : Option ℕ → ℕ → Bool
has_usage none u = false
has_usage (some v) u = v == u

has_usage-some : (o : Option ℕ) (u : ℕ) → has_usage o u ≡ true → o ≡ some u
has_usage-some none u h = cc
has_usage-some (some v) u h = ap (λ (n : ℕ). some n) ((==_iff v u).0 h)

abbrev function_key : ℕ → Bool
function_key n =
    has_usage (keycode_to_hid (0x70 + n)) (0x13 + n)
    && has_usage (windows_vk_to_hid (0x70 + n)) (0x3A + n)

abbrev keypad_digit : ℕ → Bool
keypad_digit n =
    has_usage (keycode_to_hid (0x61 + n)) (0x04 + n)
    && has_usage (windows_vk_to_hid (0x61 + n)) (0x59 + n)

function_key_table : all_below 11 function_key ≡ true
unfolding all_below keycode_to_hid ascii_to_hid windows_vk_to_hid
function_key_table = refl

keypad_table : all_below 9 keypad_digit ≡ true
unfolding all_below keycode_to_hid ascii_to_hid windows_vk_to_hid
keypad_table = refl

-- The virtual codes of Windows for F1 to F11 and for the digits 1 to 9 of the keypad are read as the ASCII
-- codes of letters: the key that is sent is `p` to `z` or `a` to `i`, though the table of these codes has
-- the key that was pressed.
pub function_keys_as_letters :
    (n m : ℕ)
    → n < 11
    → m < 9
    → (keycode_to_hid (0x70 + n) ≡ some (0x13 + n))
      × (windows_vk_to_hid (0x70 + n) ≡ some (0x3A + n))
      × (keycode_to_hid (0x61 + m) ≡ some (0x04 + m))
      × (windows_vk_to_hid (0x61 + m) ≡ some (0x59 + m))
function_keys_as_letters n m small_n small_m =
    let (f, f') =
      &&→both (has_usage (keycode_to_hid (0x70 + n)) (0x13 + n))
        (has_usage (windows_vk_to_hid (0x70 + n)) (0x3A + n))
        (all_below_sound 11 function_key n function_key_table small_n) in
    let (k, k') =
      &&→both (has_usage (keycode_to_hid (0x61 + m)) (0x04 + m))
        (has_usage (windows_vk_to_hid (0x61 + m)) (0x59 + m))
        (all_below_sound 9 keypad_digit m keypad_table small_m) in
    (
      has_usage-some (keycode_to_hid (0x70 + n)) (0x13 + n) f,
      has_usage-some (windows_vk_to_hid (0x70 + n)) (0x3A + n) f',
      has_usage-some (keycode_to_hid (0x61 + m)) (0x04 + m) k,
      has_usage-some (windows_vk_to_hid (0x61 + m)) (0x59 + m) k',
    )
