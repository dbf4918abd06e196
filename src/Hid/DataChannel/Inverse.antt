-- ===== src/Hid/DataChannel/Inverse.antt =====
-- What the parser reads, the encoder would write; and what it can read at all.
use one_kvm_stream_box.Base.{
  ℕ, ◌<◌, ◌≡◌, refl, sym, ap, ◌∙◌, inl, inr, Option, some, List, [], ◌∷◌, arith, ◌==◌, ==_iff,
  Bool-cases, Option-cases, take, All, IsByte, u16_from_le_bytes,
}
use one_kvm_stream_box.Base.Int.{IsI16, i16-IsI16, i8-IsI8}
use one_kvm_stream_box.Hid.Keyboard.FromUsage.{from_hid_usage}
use one_kvm_stream_box.Hid.Keyboard.Codes.{from_hid_usage_iff}
use one_kvm_stream_box.Hid.Event.{KeyEventType, KeyboardEvent, MouseEventType, MouseEvent}
use one_kvm_stream_box.Hid.Event.ModifierByte.{to_hid_byte-from_hid_byte}
use one_kvm_stream_box.Hid.DataChannel.{
  HidChannelEvent, keyboard, mouse, msg_keyboard, msg_mouse, msg_consumer, encode_keyboard_event,
  key_event_code,
}
use mathlib.Core.Path.{subst}
use one_kvm_stream_box.Hid.DataChannel.Parse.{
  button_and_scroll, key_event_type, mouse_event_type, modifiers_of, button_of, parse_hid_message,
  parse_keyboard_message, parse_mouse_message, parse_consumer_message,
}
use one_kvm_stream_box.Hid.DataChannel.RoundTrip.{modifiers_of-from_hid_byte, HasShape}

key_event_code-type : (b : ℕ) (t : KeyEventType) → key_event_type b ≡ some t → key_event_code t ≡ b
unfolding key_event_type key_event_code
key_event_code-type b t e = ground arith

mouse-ne-keyboard : (t : List ℕ) (e : KeyboardEvent) → parse_mouse_message t ≡ some (keyboard e) → ⊥
unfolding parse_mouse_message
mouse-ne-keyboard (b₀ ∷ b₁ ∷ b₂ ∷ b₃ ∷ b₄ ∷ b₅ ∷ _) e p = ground arith
mouse-ne-keyboard [] e p = cc
mouse-ne-keyboard (b₀ ∷ []) e p = cc
mouse-ne-keyboard (b₀ ∷ b₁ ∷ []) e p = cc
mouse-ne-keyboard (b₀ ∷ b₁ ∷ b₂ ∷ []) e p = cc
mouse-ne-keyboard (b₀ ∷ b₁ ∷ b₂ ∷ b₃ ∷ []) e p = cc
mouse-ne-keyboard (b₀ ∷ b₁ ∷ b₂ ∷ b₃ ∷ b₄ ∷ []) e p = cc

consumer-ne-keyboard :
    (t : List ℕ) (e : KeyboardEvent) → parse_consumer_message t ≡ some (keyboard e) → ⊥
unfolding parse_consumer_message
consumer-ne-keyboard (b₀ ∷ b₁ ∷ _) e p = cc
consumer-ne-keyboard [] e p = cc
consumer-ne-keyboard (b₀ ∷ []) e p = cc

-- The event of a parse, or `d`.
abbrev keyboard_or : KeyboardEvent → Option HidChannelEvent → KeyboardEvent
keyboard_or d (some (keyboard e)) = e
keyboard_or d _ = d

abbrev mouse_or : MouseEvent → Option HidChannelEvent → MouseEvent
mouse_or d (some (mouse e)) = e
mouse_or d _ = d

keyboard_payload :
    (t : List ℕ) (e : KeyboardEvent)
    → All IsByte t
    → parse_keyboard_message t ≡ some (keyboard e)
    → encode_keyboard_event e ≡ msg_keyboard ∷ take 3 t
unfolding parse_keyboard_message encode_keyboard_event
keyboard_payload (b₀ ∷ b₁ ∷ b₂ ∷ t) e (h₀, (h₁, (h₂, ht))) p =
    elim (Option-cases (key_event_type b₀)) [
      | inl n ↦ absurd (ground (arith, n))
      | inr (k, hk) ↦ elim (Option-cases (from_hid_usage b₁)) [
        | inl n ↦ absurd (ground (arith, hk, n))
        | inr (c, hc) ↦
            let q : record { event_type = k; key = c; modifiers = modifiers_of b₂ } ≡ e =
              ap (keyboard_or e) (rw (hk, hc) at p) in
            rw (
              ← q,
              key_event_code-type b₀ k hk,
              (from_hid_usage_iff b₁ c h₁).0 hc,
              modifiers_of-from_hid_byte b₂,
              to_hid_byte-from_hid_byte b₂ h₂,
            )
      ]
    ]
keyboard_payload [] e h p = cc
keyboard_payload (b₀ ∷ []) e h p = cc
keyboard_payload (b₀ ∷ b₁ ∷ []) e h p = cc

-- Only the type byte 1 leads to a keyboard event, and only a mouse payload to a mouse event.
keyboard_dispatch :
    (b : ℕ) (t : List ℕ) (e : KeyboardEvent)
    → parse_hid_message (b ∷ t) ≡ some (keyboard e)
    → (b ≡ msg_keyboard) × (parse_keyboard_message t ≡ some (keyboard e))
unfolding parse_hid_message
keyboard_dispatch b t e p = elim (Bool-cases (b == msg_keyboard)) [
  | inl k ↦ ((==_iff b msg_keyboard).0 k, rw k at p)
  | inr k ↦ elim (Bool-cases (b == msg_mouse)) [
    | inl m ↦ absurd (mouse-ne-keyboard t e (rw (k, m) at p))
    | inr m ↦ elim (Bool-cases (b == msg_consumer)) [
      | inl c ↦ absurd (consumer-ne-keyboard t e (rw (k, m, c) at p))
      | inr c ↦ absurd (ground (arith, k, m, c))
    ]
  ]
]

-- A message of bytes that the parser reads as a keyboard event begins with the four bytes that the
-- encoder writes for the event.
pub encode-parse_keyboard_event :
    (bytes : List ℕ) (e : KeyboardEvent)
    → All IsByte bytes
    → parse_hid_message bytes ≡ some (keyboard e)
    → encode_keyboard_event e ≡ take 4 bytes
unfolding parse_hid_message
encode-parse_keyboard_event [] e h p = cc
encode-parse_keyboard_event (b ∷ t) e (hb, ht) p =
    let (hk, q) = keyboard_dispatch b t e p in
    keyboard_payload t e ht q ∙ ap (λ (m : ℕ). m ∷ take 3 t) (sym hk)

button_and_scroll-HasShape :
    (t : MouseEventType) (b : ℕ)
    → b < 256
    → HasShape t (button_and_scroll t b).0 (button_and_scroll t b).1
button_and_scroll-HasShape MouseEventType.move b h = (refl, refl)
button_and_scroll-HasShape MouseEventType.move_abs b h = (refl, refl)
button_and_scroll-HasShape MouseEventType.down b h = ((button_of b, refl), refl)
button_and_scroll-HasShape MouseEventType.up b h = ((button_of b, refl), refl)
button_and_scroll-HasShape MouseEventType.scroll b h = (refl, i8-IsI8 b h)

-- A mouse event as the parser reads one.
pub record IsRead (e : MouseEvent) : Type 0 where
  pub x_fits : IsI16 e.x
  pub y_fits : IsI16 e.y
  pub shape : HasShape e.event_type e.button e.scroll

mouse_payload :
    (t : List ℕ) (e : MouseEvent) → All IsByte t → parse_mouse_message t ≡ some (mouse e) → IsRead e
unfolding parse_mouse_message
mouse_payload (b₀ ∷ b₁ ∷ b₂ ∷ b₃ ∷ b₄ ∷ b₅ ∷ t) e (h₀, (h₁, (h₂, (h₃, (h₄, (h₅, ht)))))) p =
    elim (Option-cases (mouse_event_type b₀)) [
      | inl n ↦ absurd (ground (arith, n))
      | inr (k, hk) ↦ subst IsRead (ap (mouse_or e) (rw hk at p)) (record {
        x_fits = i16-IsI16 (u16_from_le_bytes b₁ b₂) (omega arith);
        y_fits = i16-IsI16 (u16_from_le_bytes b₃ b₄) (omega arith);
        shape = button_and_scroll-HasShape k b₅ h₅;
      })
    ]
mouse_payload [] e h p = cc
mouse_payload (b₀ ∷ []) e h p = cc
mouse_payload (b₀ ∷ b₁ ∷ []) e h p = cc
mouse_payload (b₀ ∷ b₁ ∷ b₂ ∷ []) e h p = cc
mouse_payload (b₀ ∷ b₁ ∷ b₂ ∷ b₃ ∷ []) e h p = cc
mouse_payload (b₀ ∷ b₁ ∷ b₂ ∷ b₃ ∷ b₄ ∷ []) e h p = cc

keyboard-ne-mouse : (t : List ℕ) (e : MouseEvent) → parse_keyboard_message t ≡ some (mouse e) → ⊥
unfolding parse_keyboard_message
keyboard-ne-mouse (b₀ ∷ b₁ ∷ b₂ ∷ _) e p = elim (Option-cases (key_event_type b₀)) [
  | inl n ↦ ground (arith, n)
  | inr (k, hk) ↦ elim (Option-cases (from_hid_usage b₁)) [
    | inl n ↦ ground (arith, hk, n)
    | inr (c, hc) ↦ ground (arith, hk, hc)
  ]
]
keyboard-ne-mouse [] e p = cc
keyboard-ne-mouse (b₀ ∷ []) e p = cc
keyboard-ne-mouse (b₀ ∷ b₁ ∷ []) e p = cc

consumer-ne-mouse : (t : List ℕ) (e : MouseEvent) → parse_consumer_message t ≡ some (mouse e) → ⊥
unfolding parse_consumer_message
consumer-ne-mouse (b₀ ∷ b₁ ∷ _) e p = cc
consumer-ne-mouse [] e p = cc
consumer-ne-mouse (b₀ ∷ []) e p = cc

-- Whatever bytes a message has, a mouse event that the parser reads from it has both coordinates of 16 bits with a
-- sign, a button exactly for a press or a release, and a scroll
-- distance for a scroll only.
pub parse-IsRead :
    (bytes : List ℕ) (e : MouseEvent)
    → All IsByte bytes
    → parse_hid_message bytes ≡ some (mouse e)
    → IsRead e
unfolding parse_hid_message
parse-IsRead [] e h p = cc
parse-IsRead (b ∷ t) e (hb, ht) p = elim (Bool-cases (b == msg_keyboard)) [
  | inl k ↦ absurd (keyboard-ne-mouse t e (rw k at p))
  | inr k ↦ elim (Bool-cases (b == msg_mouse)) [
    | inl m ↦ mouse_payload t e ht (rw (k, m) at p)
    | inr m ↦ elim (Bool-cases (b == msg_consumer)) [
      | inl c ↦ absurd (consumer-ne-mouse t e (rw (k, m, c) at p))
      | inr c ↦ absurd (ground (arith, k, m, c))
    ]
  ]
]
