-- ===== src/Hid/OtgBackend/History.antt =====
-- What holds after any calls, in any worlds.
use one_kvm_stream_box.Base.{
  ℕ, ◌/◌, ◌<◌, bit_and, ◌≡◌, refl, Option, none, some, List, [], ◌∷◌, arith, length, All,
  All-append, u8, IsByte,
}
use one_kvm_stream_box.Base.Int.{ℤ, pos, negsuc, wrap, wrap-lt, clamp, pos_part}
use one_kvm_stream_box.Hid.Event.{
  KeyEventType, KeyboardEvent, MouseButton, MouseEventType, MouseEvent, to_hid_bit,
}
use one_kvm_stream_box.Hid.Report.{KeyboardReport, to_bytes, clear}
use one_kvm_stream_box.Hid.Report.Keys.{IsValid, clear-IsValid}
use one_kvm_stream_box.Hid.Ch9329.Backend.{update_report, change_bit}
use one_kvm_stream_box.Hid.Ch9329.Backend.Invariant.{
  length-to_bytes, to_bytes-IsByte, update_report-IsValid,
}
use one_kvm_stream_box.Hid.Ch9329.Backend.Runs.{button_bit, change_button}
use one_kvm_stream_box.Hid.OtgBackend.{DeviceType, World, OtgBackend}
use one_kvm_stream_box.Hid.OtgBackend.Reports.{
  put, WriteResult, written, dropped, write_failed, release_behind, write_with_timeout,
  nothing_behind, send_keyboard_report, send_mouse_report_relative, send_mouse_report_absolute,
  send_consumer_report,
}
use one_kvm_stream_box.Hid.OtgBackend.Methods.{
  send_keyboard, press_or_release, send_mouse_of, send_mouse, send_consumer, reset_keyboard,
  reset_mouse, reset, Input, key_input, mouse_input, consumer_input, reset_input, send_input, run,
}
use one_kvm_stream_box.Hid.OtgBackend.Stable.{IsStable, Keeps, then-Keeps, send_report-Keeps}

abbrev pub report_size : DeviceType → ℕ
report_size DeviceType.keyboard = 8
report_size DeviceType.mouse_relative = 4
report_size DeviceType.mouse_absolute = 6
report_size DeviceType.consumer_control = 2

-- A report of its device's size, of bytes.
abbrev pub IsReport : DeviceType × List ℕ → Type 0
IsReport (d, bytes) = (length bytes ≡ report_size d) × All IsByte bytes

module _ (P : OtgBackend → Type 0) (stable : IsStable P)
    (writes : (b : OtgBackend) (d : DeviceType) (bytes : List ℕ)
      → IsReport (d, bytes)
      → P b
      → P (put d bytes b)) where
  keyboard-Keeps :
      (world : World) (report : KeyboardReport)
      → IsValid report
      → Keeps P (send_keyboard_report world report)
  keyboard-Keeps world report v =
      send_report-Keeps P stable DeviceType.keyboard (to_bytes report) nothing_behind
        (λ b h.
          writes b DeviceType.keyboard (to_bytes report)
            (length-to_bytes report, to_bytes-IsByte report v) h)
        world "Failed to write keyboard report"

  relative-Keeps :
      (world : World) (buttons : ℕ) (dx dy wheel : ℤ)
      → buttons < 32
      → Keeps P (send_mouse_report_relative world buttons dx dy wheel)
  relative-Keeps world buttons dx dy wheel small =
      let bytes : List ℕ = buttons ∷ wrap 256 dx ∷ wrap 256 dy ∷ wrap 256 wheel ∷ [] in
      send_report-Keeps P stable DeviceType.mouse_relative bytes nothing_behind
        (λ b h.
          writes b DeviceType.mouse_relative bytes
            (
              refl,
              (
                omega arith,
                (
                  wrap-lt 256 dx (omega arith),
                  (wrap-lt 256 dy (omega arith), (wrap-lt 256 wheel (omega arith), tt)),
                ),
              ),
            )
            h)
        world "Failed to write mouse report"

  absolute-Keeps :
      (world : World) (buttons x y : ℕ) (wheel : ℤ)
      → buttons < 32
      → Keeps P (send_mouse_report_absolute world buttons x y wheel)
  absolute-Keeps world buttons x y wheel small =
      let bytes : List ℕ =
        buttons
        ∷ u8 (bit_and x 0xFF)
        ∷ u8 (x / 256)
        ∷ u8 (bit_and y 0xFF)
        ∷ u8 (y / 256)
        ∷ wrap 256 wheel
        ∷ [] in
      send_report-Keeps P stable DeviceType.mouse_absolute bytes nothing_behind
        (λ b h.
          writes b DeviceType.mouse_absolute bytes
            (
              refl,
              (
                omega arith,
                (
                  omega arith,
                  (
                    omega arith,
                    (omega arith, (omega arith, (wrap-lt 256 wheel (omega arith), tt))),
                  ),
                ),
              ),
            )
            h)
        world "Failed to write mouse report"

  released-Keeps : (r : WriteResult) (b : OtgBackend) → P b → P (release_behind r b)
  unfolding release_behind
  released-Keeps written b h =
      writes b DeviceType.consumer_control (0 ∷ 0 ∷ []) (refl, (omega arith, (omega arith, tt))) h
  released-Keeps dropped b h = h
  released-Keeps (write_failed e) b h = h

  consumer-Keeps : (world : World) (usage : ℕ) → Keeps P (send_consumer_report world usage)
  consumer-Keeps world usage =
      let bytes : List ℕ = u8 (bit_and usage 0xFF) ∷ u8 (usage / 256) ∷ [] in
      send_report-Keeps P stable DeviceType.consumer_control bytes
        (release_behind (write_with_timeout world.release_poll world.release_error))
        (λ b h.
          released-Keeps (write_with_timeout world.release_poll world.release_error)
            (put DeviceType.consumer_control bytes b)
            (writes b DeviceType.consumer_control bytes (refl, (omega arith, (omega arith, tt))) h))
        world "Failed to write consumer report"

-- The state and the wire are well formed.
pub record IsSound (b : OtgBackend) : Type 0 where
  pub report : IsValid b.keyboard_state
  pub buttons : b.mouse_buttons < 32
  pub sent : All IsReport b.wire

IsSound-stable : IsStable IsSound
IsSound-stable b r o h = record { report = h.report; buttons = h.buttons; sent = h.sent }

IsSound-writes :
    (b : OtgBackend) (d : DeviceType) (bytes : List ℕ)
    → IsReport (d, bytes)
    → IsSound b
    → IsSound (put d bytes b)
IsSound-writes b d bytes is h = record {
  report = h.report;
  buttons = h.buttons;
  sent = All-append IsReport b.wire ((d, bytes) ∷ []) h.sent (is, tt);
}

set_report-IsSound :
    (r : KeyboardReport) (b : OtgBackend)
    → IsValid r
    → IsSound b
    → IsSound (record b { keyboard_state = r })
set_report-IsSound r b v h = record { report = v; buttons = h.buttons; sent = h.sent }

set_buttons-IsSound :
    (n : ℕ) (b : OtgBackend) → n < 32 → IsSound b → IsSound (record b { mouse_buttons = n })
set_buttons-IsSound n b small h = record { report = h.report; buttons = small; sent = h.sent }

press-IsSound :
    (world : World) (t : KeyEventType) (o : Option MouseButton)
    → Keeps IsSound (press_or_release world t o)
press-IsSound world t none b h = h
press-IsSound world t (some button) b h =
    let n = change_bit t (to_hid_bit button) b.mouse_buttons in
    let small = change_button t (to_hid_bit button) b.mouse_buttons (button_bit button) h.buttons in
    relative-Keeps IsSound IsSound-stable IsSound-writes world n (pos 0) (pos 0) (pos 0) small
      (record b { mouse_buttons = n }) (set_buttons-IsSound n b small h)

send_mouse_of-IsSound :
    (world : World) (t : MouseEventType) (e : MouseEvent) → Keeps IsSound (send_mouse_of world t e)
unfolding send_mouse_of
send_mouse_of-IsSound world MouseEventType.move e b h =
    relative-Keeps IsSound IsSound-stable IsSound-writes world b.mouse_buttons
      (clamp e.x (negsuc 126) (pos 127)) (clamp e.y (negsuc 126) (pos 127)) (pos 0) h.buttons b h
send_mouse_of-IsSound world MouseEventType.move_abs e b h =
    absolute-Keeps IsSound IsSound-stable IsSound-writes world 0
      (pos_part (clamp e.x (pos 0) (pos 32767))) (pos_part (clamp e.y (pos 0) (pos 32767))) (pos 0)
      (omega arith) b h
send_mouse_of-IsSound world MouseEventType.down e b h =
    press-IsSound world KeyEventType.down e.button b h
send_mouse_of-IsSound world MouseEventType.up e b h =
    press-IsSound world KeyEventType.up e.button b h
send_mouse_of-IsSound world MouseEventType.scroll e b h =
    relative-Keeps IsSound IsSound-stable IsSound-writes world b.mouse_buttons (pos 0) (pos 0)
      e.scroll h.buttons b h

send_keyboard-IsSound : (world : World) (e : KeyboardEvent) → Keeps IsSound (send_keyboard world e)
unfolding send_keyboard
send_keyboard-IsSound world e b h =
    let report = update_report e b.keyboard_state in
    let v = update_report-IsValid e b.keyboard_state h.report in
    keyboard-Keeps IsSound IsSound-stable IsSound-writes world report v
      (record b { keyboard_state = report }) (set_report-IsSound report b v h)

reset-IsSound : (world : World) → Keeps IsSound (reset world)
unfolding reset reset_keyboard reset_mouse
reset-IsSound world =
    then-Keeps IsSound (reset_keyboard world) (reset_mouse world)
      (λ b h.
        let v = clear-IsValid b.keyboard_state h.report in
        keyboard-Keeps IsSound IsSound-stable IsSound-writes world (clear b.keyboard_state) v
          (record b { keyboard_state = clear b.keyboard_state })
          (set_report-IsSound (clear b.keyboard_state) b v h))
      (λ b h.
        then-Keeps IsSound (send_mouse_report_relative world 0 (pos 0) (pos 0) (pos 0))
          (send_mouse_report_absolute world 0 0 0 (pos 0))
          (relative-Keeps IsSound IsSound-stable IsSound-writes world 0 (pos 0) (pos 0) (pos 0)
            (omega arith))
          (absolute-Keeps IsSound IsSound-stable IsSound-writes world 0 0 0 (pos 0) (omega arith))
          (record b { mouse_buttons = 0 }) (set_buttons-IsSound 0 b (omega arith) h))

send_input-IsSound : (world : World) (i : Input) → Keeps IsSound (send_input world i)
unfolding send_input send_mouse send_consumer
send_input-IsSound world (key_input e) = send_keyboard-IsSound world e
send_input-IsSound world (mouse_input e) = send_mouse_of-IsSound world e.event_type e
send_input-IsSound world (consumer_input e) =
    consumer-Keeps IsSound IsSound-stable IsSound-writes world e.usage
send_input-IsSound world reset_input = reset-IsSound world

-- Whatever is sent, and whatever the system answers: the keyboard report stays well formed, the buttons
-- stay within their five bits, and each report on the wire has its device's size and is of bytes.
pub run-IsSound : (is : List (World × Input)) (b : OtgBackend) → IsSound b → IsSound (run is b)
unfolding run
run-IsSound [] b h = h
run-IsSound ((world, i) ∷ is) b h =
    run-IsSound is (send_input world i b).0 (send_input-IsSound world i b h)
