-- ===== src/Hid/Ch9329/Backend/Buttons.antt =====
-- The mouse buttons that the backend holds down.
use one_kvm_stream_box.Base.{
  ℕ, ◌<◌, bit_and, ◌≡◌, refl, ap, ◌∙◌, inl, inr, Bool, true, ◌&&◌, Option, some, arith, ◌==◌,
  if◌then◌else◌, ==_iff, Bool-cases, all_below, all_below_sound,
}
use one_kvm_stream_box.Base.Int.{ℤ, pos}
use one_kvm_stream_box.Hid.Event.{
  KeyEventType, MouseButton, left, right, middle, back, forward, MouseEventType, MouseEvent,
  to_hid_bit,
}
use one_kvm_stream_box.Hid.Ch9329.Backend.{
  WorkerCommand, Backend, Outcome, enqueue_command, change_bit, send_buttons, press_or_release,
  send_mouse_of, send_mouse,
}

every : (MouseButton → Bool) → Bool
every p = p left && p right && p middle && p back && p forward

every_sound : (p : MouseButton → Bool) (b : MouseButton) → every p ≡ true → p b ≡ true
unfolding every
every_sound p left h = ground arith
every_sound p right h = ground arith
every_sound p middle h = ground arith
every_sound p back h = ground arith
every_sound p forward h = ground arith

-- The bit of `other` after `button` is pressed or released.
abbrev pub bit_after : KeyEventType → MouseButton → MouseButton → ℕ → ℕ
bit_after KeyEventType.down button other held =
    if to_hid_bit button == to_hid_bit other
    then to_hid_bit other
    else bit_and held (to_hid_bit other)
bit_after KeyEventType.up button other held =
    if to_hid_bit button == to_hid_bit other then 0 else bit_and held (to_hid_bit other)

agrees : KeyEventType → MouseButton → MouseButton → ℕ → Bool
agrees t button other held =
    bit_and (change_bit t (to_hid_bit button) held) (to_hid_bit other)
    == bit_after t button other held

button_table :
    (t : KeyEventType)
    → every (λ button. every (λ other. all_below 32 (agrees t button other))) ≡ true
unfolding every agrees all_below to_hid_bit
button_table KeyEventType.down = refl
button_table KeyEventType.up = refl

change_bit-bit_after :
    (t : KeyEventType) (button other : MouseButton) (held : ℕ)
    → held < 32
    → bit_and (change_bit t (to_hid_bit button) held) (to_hid_bit other)
      ≡ bit_after t button other held
unfolding agrees
change_bit-bit_after t button other held h = (==_iff _ (bit_after t button other held)).0 (
    all_below_sound 32 (agrees t button other) held
      (every_sound (λ o. all_below 32 (agrees t button o)) other
        (every_sound (λ b. every (λ o. all_below 32 (agrees t b o))) button (button_table t)))
      h)

buttons-enqueue :
    (c : WorkerCommand) (b : Backend) → (enqueue_command c b).0.mouse_buttons ≡ b.mouse_buttons
unfolding enqueue_command
buttons-enqueue c b = ground arith

buttons-send :
    (n : ℕ) (w : ℤ) (b : Backend) → (send_buttons n w b).0.mouse_buttons ≡ b.mouse_buttons
buttons-send n w b = elim (Bool-cases b.relative_mouse_active) [
  | inl rel ↦ simp rel (buttons-enqueue _ b)
  | inr abs ↦ simp abs (buttons-enqueue _ b)
]

-- The event type of a press or a release.
abbrev pub button_event : KeyEventType → MouseEventType
button_event KeyEventType.down = MouseEventType.down
button_event KeyEventType.up = MouseEventType.up

press_or_release-of :
    (t : KeyEventType) (e : MouseEvent) (b : Backend)
    → send_mouse_of (button_event t) e b ≡ press_or_release t e.button b
unfolding send_mouse_of
press_or_release-of KeyEventType.down e b = refl
press_or_release-of KeyEventType.up e b = refl

-- After a press of a button its bit is set in the buttons that the backend holds, after a release it
-- is not, and the bit of any other button is as it was, whether or not the packet could be queued.
pub send_mouse_button :
    (t : KeyEventType) (e : MouseEvent) (button other : MouseButton) (b : Backend)
    → e.event_type ≡ button_event t
    → e.button ≡ some button
    → b.mouse_buttons < 32
    → bit_and (send_mouse e b).0.mouse_buttons (to_hid_bit other)
      ≡ bit_after t button other b.mouse_buttons
unfolding send_mouse
send_mouse_button t e button other b ht hb h =
    let n = change_bit t (to_hid_bit button) b.mouse_buttons in
    let held : (send_mouse_of e.event_type e b).0.mouse_buttons ≡ n =
      ap (λ (k : MouseEventType). (send_mouse_of k e b).0.mouse_buttons) ht
      ∙ ap (λ (r : Backend × Outcome). r.0.mouse_buttons) (press_or_release-of t e b)
      ∙ ap (λ (o : Option MouseButton). (press_or_release t o b).0.mouse_buttons) hb
      ∙ buttons-send n (pos 0) (record b { mouse_buttons = n }) in
    rw held (change_bit-bit_after t button other b.mouse_buttons h)
