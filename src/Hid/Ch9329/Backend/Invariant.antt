-- ===== src/Hid/Ch9329/Backend/Invariant.antt =====
-- What holds of the backend after any calls.
use one_kvm_stream_box.Base.{
  ℕ, ◌-◌, ◌≤◌, ◌<◌, ◌≡◌, refl, inl, inr, ◌||◌, Option, none, some, List, [], ◌∷◌, arith, ltb,
  Bool-cases, Option-cases, length, All, All-append, get_or-All, IsByte,
}
use mathlib.Core.Path.{subst}
use one_kvm_stream_box.Base.Bits.{bit_or-lt, bit_and-le}
use one_kvm_stream_box.Hid.Keyboard.{CanonicalKey, key_a, to_hid_usage, is_modifier, modifier_bit}
use one_kvm_stream_box.Hid.Keyboard.Codes.{to_hid_usage-IsByte}
use one_kvm_stream_box.Hid.Event.{KeyEventType, KeyboardEvent, to_hid_byte}
use one_kvm_stream_box.Hid.Event.ModifierByte.{to_hid_byte-IsByte}
use one_kvm_stream_box.Hid.Report.{KeyboardReport, to_bytes}
use one_kvm_stream_box.Hid.Report.Keys.{IsValid, add_key-IsValid, remove_key-IsValid}
use one_kvm_stream_box.Hid.Ch9329.{max_data_len}
use one_kvm_stream_box.Hid.Ch9329.Backend.{
  WorkerCommand, packet, Backend, Outcome, done, failed, Call, ◌>>◌, enqueue_command,
  send_keyboard_report, send_media_key, change_bit, change_keys, update_report,
}

-- A command whose packet fits the chip's limit, of bytes.
abbrev pub IsSendable : WorkerCommand → Type 0
IsSendable (packet cmd payload) = (length payload ≤ max_data_len) × All IsByte payload
IsSendable _ = Unit {0}

pub record Inv (b : Backend) : Type 0 where
  pub report : IsValid b.keyboard_state
  pub buttons : b.mouse_buttons < 32
  pub abs_x : b.last_abs_x < 4096
  pub abs_y : b.last_abs_y < 4096
  pub sendable : All IsSendable b.queue

-- A call that keeps the invariant.
abbrev pub Keeps : Call → Type 0
Keeps m = (b : Backend) → Inv b → Inv (m b).0

pub enqueue-Inv :
    (c : WorkerCommand) (b : Backend) → IsSendable c → Inv b → Inv (enqueue_command c b).0
unfolding enqueue_command
enqueue-Inv c b s v = elim (Bool-cases b.started) [
  | inl on ↦ elim (Bool-cases b.alive) [
    | inl up ↦
        rw (on, up)
          (record {
            report = v.report;
            buttons = v.buttons;
            abs_x = v.abs_x;
            abs_y = v.abs_y;
            sendable = All-append IsSendable b.queue (c ∷ []) v.sendable (s, tt);
          })
    | inr gone ↦
        rw (on, gone)
          (record {
            report = v.report;
            buttons = v.buttons;
            abs_x = v.abs_x;
            abs_y = v.abs_y;
            sendable = v.sendable;
          })
  ]
  | inr off ↦ rw off (record {
    report = v.report;
    buttons = v.buttons;
    abs_x = v.abs_x;
    abs_y = v.abs_y;
    sendable = v.sendable;
  })
]

pub then-Inv : (m k : Call) → Keeps m → Keeps k → Keeps (m >> k)
then-Inv m k hm hk b v = go ((m b).1) refl
  where
    go : (r : Outcome) → (m b).1 ≡ r → Inv ((m >> k) b).0
    go done e = rw (e, ◌>>◌) (hk (m b).0 (hm b v))
    go (failed x) e = rw (e, ◌>>◌) (hm b v)

pub to_bytes-IsByte : (r : KeyboardReport) → IsValid r → All IsByte (to_bytes r)
unfolding to_bytes
to_bytes-IsByte r v =
    let key = λ (i : ℕ). get_or-All IsByte r.keys i 0 (omega arith) v.bytes in
    (v.modifier_byte, (v.reserved_byte, (key 0, (key 1, (key 2, (key 3, (key 4, (key 5, tt))))))))

pub length-to_bytes : (r : KeyboardReport) → length (to_bytes r) ≡ 8
unfolding to_bytes
length-to_bytes r = refl

pub keyboard-Keeps : (b : Backend) → Inv b → Inv (send_keyboard_report b.keyboard_state b).0
keyboard-Keeps b v =
    enqueue-Inv (packet 0x02 (to_bytes b.keyboard_state)) b
      (omega (arith, length-to_bytes b.keyboard_state), to_bytes-IsByte b.keyboard_state v.report) v

pub send_media_key-Inv :
    (payload : List ℕ) (b : Backend) → All IsByte payload → Inv b → Inv (send_media_key payload b).0
unfolding send_media_key
send_media_key-Inv payload b h v =
    elim (Bool-cases (ltb (length payload) 2 || ltb 4 (length payload))) [
      | inl bad ↦ rw bad v
      | inr good ↦ rw good (enqueue-Inv (packet 0x03 payload) b (ground (arith, good), h) v)
    ]

pub change_bit-IsByte :
    (t : KeyEventType) (bit byte : ℕ) → bit < 256 → byte < 256 → change_bit t bit byte < 256
change_bit-IsByte KeyEventType.down bit byte h hb = bit_or-lt 8 byte bit hb h
change_bit-IsByte KeyEventType.up bit byte h hb = omega (arith, bit_and-le byte (255 - bit))

-- The six slots and the reserved byte are as before, and the modifiers are some byte.
set_modifiers-IsValid :
    (r : KeyboardReport) (m : ℕ) → m < 256 → IsValid r → IsValid (record r { modifiers = m })
set_modifiers-IsValid r m h v = record {
  six = v.six;
  bytes = v.bytes;
  packed = v.packed;
  modifier_byte = h;
  reserved_byte = v.reserved_byte;
}

abbrev Small : Option ℕ → Type 0
Small none = Unit {0}
Small (some bit) = bit < 256

modifier_bit-Small : (k : CanonicalKey) → Small (modifier_bit k)
unfolding modifier_bit
modifier_bit-Small key_a = tt
modifier_bit-Small _ = omega arith

modifier_bit-IsByte : (k : CanonicalKey) (bit : ℕ) → modifier_bit k ≡ some bit → bit < 256
modifier_bit-IsByte k bit e = subst Small e (modifier_bit-Small k)

change_keys-IsValid :
    (t : KeyEventType) (k : CanonicalKey) (r : KeyboardReport)
    → IsValid r
    → IsValid (change_keys t (to_hid_usage k) r)
change_keys-IsValid KeyEventType.down k r v =
    add_key-IsValid r (to_hid_usage k) (to_hid_usage-IsByte k).0 (to_hid_usage-IsByte k).1 v
change_keys-IsValid KeyEventType.up k r v = remove_key-IsValid r (to_hid_usage k) v

pub update_report-IsValid :
    (e : KeyboardEvent) (r : KeyboardReport) → IsValid r → IsValid (update_report e r)
unfolding update_report
update_report-IsValid e r v = elim (Bool-cases (is_modifier e.key)) [
  | inl m ↦ elim (Option-cases (modifier_bit e.key)) [
    | inl n ↦ rw (m, n) v
    | inr (bit, h) ↦
        rw (m, h)
          (set_modifiers-IsValid r (change_bit e.event_type bit r.modifiers)
            (change_bit-IsByte e.event_type bit r.modifiers (modifier_bit-IsByte e.key bit h)
              v.modifier_byte)
            v)
  ]
  | inr m ↦ rw m (
      change_keys-IsValid e.event_type e.key (record r { modifiers = to_hid_byte e.modifiers })
        (set_modifiers-IsValid r (to_hid_byte e.modifiers) (to_hid_byte-IsByte e.modifiers) v))
]
