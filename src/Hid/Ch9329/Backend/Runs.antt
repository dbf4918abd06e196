-- ===== src/Hid/Ch9329/Backend/Runs.antt =====
-- Every call keeps the invariant, so it holds after any history of calls.
use one_kvm_stream_box.Base.{
  ℕ, ◌-◌, ◌<◌, ◌≡◌, inl, inr, true, Option, none, some, List, [], ◌∷◌, arith, Bool-cases, All,
  All-map, IsByte,
}
use one_kvm_stream_box.Base.Bits.{bit_or-lt, bit_and-le}
use one_kvm_stream_box.Base.Int.{ℤ, pos, wrap-lt}
use one_kvm_stream_box.Hid.Event.{
  KeyEventType, KeyboardEvent, MouseButton, left, MouseEventType, MouseEvent, to_hid_bit,
}
use one_kvm_stream_box.Hid.Report.{KeyboardReport, clear}
use one_kvm_stream_box.Hid.Report.Keys.{IsValid, clear-IsValid}
use one_kvm_stream_box.Hid.Ch9329.{build_packet}
use one_kvm_stream_box.Hid.Ch9329.Packets.{frame, build_packet-frame}
use one_kvm_stream_box.Hid.Ch9329.Backend.{
  WorkerCommand, packet, reset_state, shutdown, Backend, ◌>>◌, release_media_keys,
  send_mouse_relative, send_mouse_absolute, change_bit, update_report, send_keyboard, to_ch9329,
  send_buttons, press_or_release, send_mouse_of, send_mouse, reset_keyboard, reset_mouse, ignore,
  reset, Input, key_input, mouse_input, media_input, reset_input, send_input, run,
}
use one_kvm_stream_box.Hid.Ch9329.Backend.Invariant.{
  IsSendable, Inv, Keeps, enqueue-Inv, then-Inv, keyboard-Keeps, send_media_key-Inv,
  update_report-IsValid,
}

relative-Inv :
    (buttons : ℕ) (dx dy wheel : ℤ) (b : Backend)
    → buttons < 32
    → Inv b
    → Inv (send_mouse_relative buttons dx dy wheel b).0
relative-Inv buttons dx dy wheel b h v =
    enqueue-Inv (packet 0x05 _) b
      (
        omega arith,
        (
          omega arith,
          (
            omega arith,
            (
              wrap-lt 256 dx (omega arith),
              (wrap-lt 256 dy (omega arith), (wrap-lt 256 wheel (omega arith), tt)),
            ),
          ),
        ),
      )
      v

absolute-Inv :
    (buttons x y : ℕ) (wheel : ℤ) (b : Backend)
    → buttons < 32
    → Inv b
    → Inv (send_mouse_absolute buttons x y wheel b).0
absolute-Inv buttons x y wheel b h v =
    enqueue-Inv (packet 0x04 _) b
      (
        omega arith,
        (
          omega arith,
          (
            omega arith,
            (
              omega arith,
              (omega arith, (omega arith, (omega arith, (wrap-lt 256 wheel (omega arith), tt)))),
            ),
          ),
        ),
      )
      v

send_buttons-Inv :
    (buttons : ℕ) (wheel : ℤ) (b : Backend)
    → buttons < 32
    → Inv b
    → Inv (send_buttons buttons wheel b).0
send_buttons-Inv buttons wheel b h v = elim (Bool-cases b.relative_mouse_active) [
  | inl rel ↦ simp rel (relative-Inv buttons (pos 0) (pos 0) wheel b h v)
  | inr abs ↦ simp abs (absolute-Inv buttons b.last_abs_x b.last_abs_y wheel b h v)
]

pub button_bit : (button : MouseButton) → to_hid_bit button < 32
unfolding to_hid_bit
button_bit left = omega arith
button_bit _ = omega arith

pub change_button :
    (t : KeyEventType) (bit byte : ℕ) → bit < 32 → byte < 32 → change_bit t bit byte < 32
change_button KeyEventType.down bit byte h hb = bit_or-lt 5 byte bit hb h
change_button KeyEventType.up bit byte h hb = omega (arith, bit_and-le byte (255 - bit))

set_buttons-Inv : (n : ℕ) (b : Backend) → n < 32 → Inv b → Inv (record b { mouse_buttons = n })
set_buttons-Inv n b h v = record {
  report = v.report;
  buttons = h;
  abs_x = v.abs_x;
  abs_y = v.abs_y;
  sendable = v.sendable;
}

press_or_release-Inv :
    (t : KeyEventType) (o : Option MouseButton) (b : Backend)
    → Inv b
    → Inv (press_or_release t o b).0
press_or_release-Inv t none b v = v
press_or_release-Inv t (some button) b v =
    let n = change_bit t (to_hid_bit button) b.mouse_buttons in
    let h = change_button t (to_hid_bit button) b.mouse_buttons (button_bit button) v.buttons in
    send_buttons-Inv n (pos 0) (record b { mouse_buttons = n }) h (set_buttons-Inv n b h v)

-- A coordinate of the chip has twelve bits.
pub to_ch9329-lt : (x : ℤ) → to_ch9329 x < 4096
unfolding to_ch9329
to_ch9329-lt x = ground arith

mouse_of-Inv :
    (t : MouseEventType) (e : MouseEvent) (b : Backend) → Inv b → Inv (send_mouse_of t e b).0
unfolding send_mouse_of
mouse_of-Inv MouseEventType.move e b v =
    relative-Inv b.mouse_buttons _ _ (pos 0) (record b { relative_mouse_active = true }) v.buttons
      (record {
        report = v.report;
        buttons = v.buttons;
        abs_x = v.abs_x;
        abs_y = v.abs_y;
        sendable = v.sendable;
      })
mouse_of-Inv MouseEventType.move_abs e b v =
    absolute-Inv b.mouse_buttons (to_ch9329 e.x) (to_ch9329 e.y) (pos 0) _ v.buttons (record {
      report = v.report;
      buttons = v.buttons;
      abs_x = to_ch9329-lt e.x;
      abs_y = to_ch9329-lt e.y;
      sendable = v.sendable;
    })
mouse_of-Inv MouseEventType.down e b v = press_or_release-Inv KeyEventType.down e.button b v
mouse_of-Inv MouseEventType.up e b v = press_or_release-Inv KeyEventType.up e.button b v
mouse_of-Inv MouseEventType.scroll e b v = send_buttons-Inv b.mouse_buttons e.scroll b v.buttons v

send_mouse-Inv : (e : MouseEvent) → Keeps (send_mouse e)
unfolding send_mouse
send_mouse-Inv e b v = mouse_of-Inv e.event_type e b v

set_report-Inv :
    (r : KeyboardReport) (b : Backend) → IsValid r → Inv b → Inv (record b { keyboard_state = r })
set_report-Inv r b h v = record {
  report = h;
  buttons = v.buttons;
  abs_x = v.abs_x;
  abs_y = v.abs_y;
  sendable = v.sendable;
}

send_keyboard-Inv : (e : KeyboardEvent) → Keeps (send_keyboard e)
unfolding send_keyboard
send_keyboard-Inv e b v =
    keyboard-Keeps (record b { keyboard_state = update_report e b.keyboard_state })
      (set_report-Inv (update_report e b.keyboard_state) b
        (update_report-IsValid e b.keyboard_state v.report) v)

reset_keyboard-Inv : Keeps reset_keyboard
unfolding reset_keyboard
reset_keyboard-Inv b v =
    keyboard-Keeps (record b { keyboard_state = clear b.keyboard_state })
      (set_report-Inv (clear b.keyboard_state) b (clear-IsValid b.keyboard_state v.report) v)

reset_mouse-Inv : Keeps reset_mouse
unfolding reset_mouse
reset_mouse-Inv b v = absolute-Inv 0 0 0 (pos 0) _ (omega arith) (record {
  report = v.report;
  buttons = omega arith;
  abs_x = omega arith;
  abs_y = omega arith;
  sendable = v.sendable;
})

release_media-Inv : Keeps (ignore release_media_keys)
unfolding ignore
release_media-Inv b v = send_media_key-Inv (0x02 ∷ 0x00 ∷ 0x00 ∷ 0x00 ∷ []) b (omega arith) v

reset-Inv : Keeps reset
unfolding reset
reset-Inv =
    then-Inv (reset_keyboard >> reset_mouse) (ignore release_media_keys)
      (then-Inv reset_keyboard reset_mouse reset_keyboard-Inv reset_mouse-Inv) release_media-Inv

-- The data of a media key are bytes.
abbrev pub IsInput : Input → Type 0
IsInput (media_input payload) = All IsByte payload
IsInput _ = Unit {0}

send_input-Inv : (i : Input) (b : Backend) → IsInput i → Inv b → Inv (send_input i b).0
unfolding send_input
send_input-Inv (key_input e) b h v = send_keyboard-Inv e b v
send_input-Inv (mouse_input e) b h v = send_mouse-Inv e b v
send_input-Inv (media_input payload) b h v = send_media_key-Inv payload b h v
send_input-Inv reset_input b h v = reset-Inv b v

-- Keyboard, mouse and media input and resets, in any order, with a worker or without, keep the
-- backend well formed: a valid keyboard report, five button bits, a position of twelve bits a
-- coordinate, and in the queue only packets of at most 64 bytes.
pub run-Inv : (is : List Input) (b : Backend) → All IsInput is → Inv b → Inv (run b is)
unfolding run
run-Inv [] b h v = v
run-Inv (i ∷ is) b (hi, his) v = run-Inv is (send_input i b).0 his (send_input-Inv i b hi v)

-- The worker's packet of a queued command can be built: no index is out of range.
abbrev pub Builds : ℕ → WorkerCommand → Type 0
Builds address (packet cmd payload) =
    build_packet address cmd payload ≡ some (frame address cmd payload)
Builds address _ = Unit {0}

IsSendable-Builds : (address : ℕ) (c : WorkerCommand) → IsSendable c → Builds address c
IsSendable-Builds address (packet cmd payload) (short, bytes) =
    ground (arith, build_packet-frame address cmd payload)
IsSendable-Builds address reset_state h = tt
IsSendable-Builds address shutdown h = tt

-- After any history of input, from a well-formed backend, `build_packet` gives the frame of every
-- packet in the queue: its panic, at more than 64 bytes, is never met.
pub run-Builds :
    (is : List Input) (b : Backend) (address : ℕ)
    → All IsInput is
    → Inv b
    → All (Builds address) (run b is).queue
run-Builds is b address h v =
    All-map IsSendable (IsSendable-Builds address) (run b is).queue (run-Inv is b h v).sendable
