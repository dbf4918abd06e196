-- ===== src/Rustdesk/HidAdapter/Mouse.antt =====
-- Where the mouse goes: the position on the screen, and what a turn of the wheel does to it.
use one_kvm_stream_box.Base.{
  ℕ, ◌+◌, ◌-◌, ◌*◌, ◌/◌, ◌≤◌, ◌<◌, max, ◌≡◌, refl, ap, ◌∙◌, inl, inr, Bool, false, none, some, List,
  [], ◌∷◌, arith, leb, if◌then◌else◌, Bool-cases,
}
use mathlib.Core.Path.{subst}
use one_kvm_stream_box.Base.Int.{ℤ, pos, negsuc, ltb_ℤ}
use one_kvm_stream_box.Hid.Event.{MouseButton, left, right, middle, MouseEventType, MouseEvent}
use one_kvm_stream_box.Rustdesk.HidAdapter.{
  PeerMouseEvent, as_i32, normalize, move_to, at_rest, button_id_to_button, convert_mouse_event,
}

quotient : (a d : ℕ) → 1 ≤ d → (a / d * d ≤ a) × (a < (a / d + 1) * d)
quotient a d some_d = (omega arith, omega arith)

quotient_small : (a b d : ℕ) → 1 ≤ d → a ≤ b * d → a / d ≤ b
quotient_small a b d some_d h = elim (Bool-cases (leb (a / d) b)) [
  | inl small ↦ ground (arith, small)
  | inr large ↦
      let q = a / d in
      let k = q - (b + 1) in
      let over : b + 1 + k ≡ q = ground (arith, large) in
      let times : b * d + d ≤ q * d = subst (λ (m : ℕ). b * d + d ≤ m * d) over (more b k d) in
      absurd (less (b * d) d (q * d) a times (quotient a d some_d).0 h some_d)
]
  where
    more : (b k d : ℕ) → b * d + d ≤ (b + 1 + k) * d
    more b k d = omega arith

    less : (x d y a : ℕ) → x + d ≤ y → y ≤ a → a ≤ x → 1 ≤ d → ⊥
    less x d y a h₁ h₂ h₃ h₄ = omega arith

normalize-quotient :
    (n size : ℕ)
    → 1 ≤ size
    → n * 32767 / size ≤ 32767
    → normalize (pos n) size ≡ pos (n * 32767 / size)
normalize-quotient n size some_size small =
    let e : max size 1 ≡ size = omega arith in rw e (as_i32_small (n * 32767 / size) small)
  where
    as_i32_small : (q : ℕ) → q ≤ 32767 → as_i32 q ≡ pos q
    as_i32_small q small = ground arith

-- A move and then a turn of the wheel.
abbrev wheel : ℤ → ℤ → ℤ → List MouseEvent
wheel a b turn =
    record { event_type = MouseEventType.move_abs; x = a; y = b; button = none; scroll = pos 0 }
    ∷ at_rest MouseEventType.scroll none turn
    ∷ []

nothing : (size : ℕ) → 1 ≤ size → 0 * 32767 / size ≡ 0
nothing size some_size = omega arith

normalize_zero : (size : ℕ) → 1 ≤ size → normalize (pos 0) size ≡ pos 0
normalize_zero size some_size =
    normalize-quotient 0 size some_size (omega arith)
    ∙ ap (λ (q : ℕ). pos q) (nothing size some_size)

downwards : (n : ℕ) → ltb_ℤ (pos 0) (negsuc n) ≡ false
downwards n = ground arith

-- A turn of the wheel in absolute mode, which the client sends with the turn in place of a position, first moves
-- the pointer into the corner of the screen and then scrolls by one: to (0, 0) for a turn downwards or none,
-- which both scroll downwards, and to (0, 32767 / height) for one step upwards.
pub wheel_moves_pointer :
    (width height n : ℕ)
    → 1 ≤ width
    → 2 ≤ height
    → (convert_mouse_event (record { mask = pos 3; x = pos 0; y = negsuc n }) width height false ≡ (
        record {
          event_type = MouseEventType.move_abs;
          x = pos 0;
          y = pos 0;
          button = none;
          scroll = pos 0;
        }
        ∷ at_rest MouseEventType.scroll none (negsuc 0)
        ∷ []))
      × (convert_mouse_event (record { mask = pos 3; x = pos 0; y = pos 0 }) width height false ≡ (
          record {
            event_type = MouseEventType.move_abs;
            x = pos 0;
            y = pos 0;
            button = none;
            scroll = pos 0;
          }
          ∷ at_rest MouseEventType.scroll none (negsuc 0)
          ∷ []))
      × (convert_mouse_event (record { mask = pos 3; x = pos 0; y = pos 1 }) width height false ≡ (
          record {
            event_type = MouseEventType.move_abs;
            x = pos 0;
            y = pos (32767 / height);
            button = none;
            scroll = pos 0;
          }
          ∷ at_rest MouseEventType.scroll none (pos 1)
          ∷ []))
unfolding convert_mouse_event
wheel_moves_pointer width height n some_width some_height =
    let first = normalize_zero width some_width in
    let second = normalize_zero height (omega arith) in
    let step =
      normalize-quotient 1 height (omega arith)
        (quotient_small (1 * 32767) 32767 height (omega arith) (omega arith)) in
    (
      ap
            (λ (a : ℤ).
              wheel a (normalize (pos 0) height)
                (if ltb_ℤ (pos 0) (negsuc n) then pos 1 else negsuc 0))
            first
          ∙ ap (λ (b : ℤ). wheel (pos 0) b (if ltb_ℤ (pos 0) (negsuc n) then pos 1 else negsuc 0))
              second
          ∙ ap (λ (up : Bool). wheel (pos 0) (pos 0) (if up then pos 1 else negsuc 0))
              (downwards n),
      ap (λ (a : ℤ). wheel a (normalize (pos 0) height) (negsuc 0)) first
          ∙ ap (λ (b : ℤ). wheel (pos 0) b (negsuc 0)) second,
      ap (λ (a : ℤ). wheel a (normalize (pos 1) height) (pos 1)) first
          ∙ ap (λ (b : ℤ). wheel (pos 0) b (pos 1)) step,
    )

-- A press and then a release of a button at one place: each moves the pointer there first, and then the left,
-- the right or the middle button goes down, and up again; the buttons with the ids 8 and 16, which the
-- protocol has for back and forward, are moves alone.
pub convert_mouse_event-buttons :
    (e : PeerMouseEvent) (width height : ℕ)
    → let press =
        λ (id : ℕ). convert_mouse_event (record e { mask = pos (8 * id + 1) }) width height false in
      let release =
        λ (id : ℕ). convert_mouse_event (record e { mask = pos (8 * id + 2) }) width height false in
      let here = move_to e width height in
      let goes = λ (t : MouseEventType) (button : MouseButton).
        here ∷ at_rest t (some button) (pos 0) ∷ [] in
      (press 1 ≡ goes MouseEventType.down left)
      × (release 1 ≡ goes MouseEventType.up left)
      × (press 2 ≡ goes MouseEventType.down right)
      × (release 2 ≡ goes MouseEventType.up right)
      × (press 4 ≡ goes MouseEventType.down middle)
      × (release 4 ≡ goes MouseEventType.up middle)
      × (press 8 ≡ here ∷ [])
      × (release 8 ≡ here ∷ [])
      × (press 16 ≡ here ∷ [])
      × (release 16 ≡ here ∷ [])
unfolding convert_mouse_event button_id_to_button
convert_mouse_event-buttons e width height =
    (refl, refl, refl, refl, refl, refl, refl, refl, refl, refl)
