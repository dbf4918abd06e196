-- ===== src/Hid/OtgBackend/Delivery.antt =====
-- The report that arrives is that of all key events so far, and a device that was shut down is used again.
use one_kvm_stream_box.Base.{
  ℕ, ◌≡◌, refl, ap, ◌∙◌, true, false, Option, none, some, List, [], ◌∷◌, ◌++◌, arith, if◌then◌else◌,
}
use Prim.Native.String.{String, ◌++◌ as str_append}
use one_kvm_stream_box.Base.Int.{pos}
use one_kvm_stream_box.Hid.Event.{
  KeyEventType, KeyboardEvent, MouseButton, MouseEventType, MouseEvent,
}
use one_kvm_stream_box.Hid.Report.{KeyboardReport, to_bytes, clear}
use one_kvm_stream_box.Hid.Ch9329.Backend.{update_report}
use one_kvm_stream_box.Hid.OtgBackend.{
  DeviceType, same_device, ready, World, OtgBackend, hid_error, done, failed,
}
use one_kvm_stream_box.Hid.OtgBackend.Reports.{
  WriteResult, written, dropped, write_failed, release_behind, write_with_timeout, nothing_behind,
  send_report, send_mouse_report_relative, send_mouse_report_absolute,
}
use one_kvm_stream_box.Hid.OtgBackend.Methods.{
  send_keyboard, press_or_release, send_mouse_of, send_mouse, send_consumer, reset_keyboard,
  reset_mouse, reset, Input, key_input, mouse_input, consumer_input, reset_input, send_input, run,
}
use one_kvm_stream_box.Hid.OtgBackend.Calls.{then-Ensures, same_device_refl}
use one_kvm_stream_box.Hid.OtgBackend.Stable.{Keeps, then-Keeps, send_report-Keeps}
use one_kvm_stream_box.Hid.OtgBackend.Status.{IsOnline, send_report-Agrees}
use one_kvm_stream_box.Hid.OtgBackend.Wire.{IsDelivering, send_report-delivers, send_report-shuts}

-- The report that the host has last been sent by a device.
abbrev pub or_last : Option (List ℕ) → Option (List ℕ) → Option (List ℕ)
or_last none o = o
or_last (some x) o = some x

unfoldable pub last_report : DeviceType → List (DeviceType × List ℕ) → Option (List ℕ)
last_report d [] = none
last_report d ((d', bytes) ∷ wire) =
    or_last (last_report d wire) (if same_device d d' then some bytes else none)

last_report-append :
    (d : DeviceType) (bytes : List ℕ) (wire : List (DeviceType × List ℕ))
    → last_report d (wire ++ ((d, bytes) ∷ [])) ≡ some bytes
unfolding last_report
last_report-append d bytes [] = ground (arith, same_device_refl d)
last_report-append d bytes (x ∷ wire) = rw (last_report-append d bytes wire) refl

-- The keyboard report after an input, whatever the system answers.
abbrev pub report_after : Input → KeyboardReport → KeyboardReport
report_after (key_input e) r = update_report e r
report_after (mouse_input e) r = r
report_after (consumer_input e) r = r
report_after reset_input r = clear r

unfoldable pub replay : List (World × Input) → KeyboardReport → KeyboardReport
replay [] r = r
replay ((world, i) ∷ is) r = replay is (report_after i r)

abbrev Holds : KeyboardReport → (DeviceType → Option String) → OtgBackend → Type 0
Holds r paths b = (b.keyboard_state ≡ r) × (b.paths ≡ paths)

module _ (r : KeyboardReport) (paths : DeviceType → Option String) where
  report-Holds :
      (world : World) (d : DeviceType) (operation : String) (bytes : List ℕ)
      → Keeps (Holds r paths) (send_report world d operation bytes nothing_behind)
  report-Holds world d operation bytes b h =
      send_report-Keeps (Holds r paths) (λ b r' o h. h) d bytes nothing_behind (λ b h. h) world
        operation b h

  released-Holds :
      (x : WriteResult) (b : OtgBackend) → Holds r paths b → Holds r paths (release_behind x b)
  unfolding release_behind
  released-Holds written b h = h
  released-Holds dropped b h = h
  released-Holds (write_failed e) b h = h

  press-Holds :
      (world : World) (t : KeyEventType) (o : Option MouseButton)
      → Keeps (Holds r paths) (press_or_release world t o)
  press-Holds world t none b h = h
  press-Holds world t (some button) b h = report-Holds world DeviceType.mouse_relative _ _ _ h

  mouse-Holds :
      (world : World) (t : MouseEventType) (e : MouseEvent)
      → Keeps (Holds r paths) (send_mouse_of world t e)
  unfolding send_mouse_of
  mouse-Holds world MouseEventType.move e b h = report-Holds world DeviceType.mouse_relative _ _ b h
  mouse-Holds world MouseEventType.move_abs e b h =
      report-Holds world DeviceType.mouse_absolute _ _ b h
  mouse-Holds world MouseEventType.down e b h = press-Holds world KeyEventType.down e.button b h
  mouse-Holds world MouseEventType.up e b h = press-Holds world KeyEventType.up e.button b h
  mouse-Holds world MouseEventType.scroll e b h =
      report-Holds world DeviceType.mouse_relative _ _ b h

send_input-Holds :
    (world : World) (i : Input) (b : OtgBackend)
    → Holds (report_after i b.keyboard_state) b.paths (send_input world i b).0
unfolding send_input send_keyboard send_mouse send_consumer reset reset_keyboard reset_mouse
send_input-Holds world (key_input e) b =
    report-Holds (update_report e b.keyboard_state) b.paths world DeviceType.keyboard _ _ _
      (refl, refl)
send_input-Holds world (mouse_input e) b =
    mouse-Holds b.keyboard_state b.paths world e.event_type e b (refl, refl)
send_input-Holds world (consumer_input e) b =
    send_report-Keeps (Holds b.keyboard_state b.paths) (λ b r' o h. h) DeviceType.consumer_control _
      _
      (λ x h.
        released-Holds b.keyboard_state b.paths
          (write_with_timeout world.release_poll world.release_error) _ h)
      world _ b (refl, refl)
send_input-Holds world reset_input b =
    let r = clear b.keyboard_state in
    let P = Holds r b.paths in
    then-Ensures (λ o b'. P b') (λ o b'. P b') (reset_keyboard world) (reset_mouse world) b
      (report-Holds r b.paths world DeviceType.keyboard _ _ _ (refl, refl)) (λ e b' h. h)
      (λ b' h.
        then-Keeps P (send_mouse_report_relative world 0 (pos 0) (pos 0) (pos 0))
          (send_mouse_report_absolute world 0 0 0 (pos 0))
          (report-Holds r b.paths world DeviceType.mouse_relative _ _)
          (report-Holds r b.paths world DeviceType.mouse_absolute _ _)
          (record b' { mouse_buttons = 0 }) h)

run-Holds :
    (is : List (World × Input)) (b : OtgBackend)
    → Holds (replay is b.keyboard_state) b.paths (run is b)
unfolding run replay
run-Holds [] b = (refl, refl)
run-Holds ((world, i) ∷ is) b =
    let (state, paths) = send_input-Holds world i b in
    let (state', paths') = run-Holds is (send_input world i b).0 in
    (state' ∙ ap (replay is) state, paths' ∙ paths)

keyboard_delivers :
    (world : World) (path : String) (e : KeyboardEvent) (b : OtgBackend)
    → b.paths DeviceType.keyboard ≡ some path
    → IsDelivering (world.node DeviceType.keyboard)
    → let r = send_keyboard world e b in
      (r.1 ≡ done)
      × (last_report DeviceType.keyboard r.0.wire
          ≡ some (to_bytes (update_report e b.keyboard_state)))
      × (r.0.opened DeviceType.keyboard ≡ true)
unfolding send_keyboard
keyboard_delivers world path e b configured n =
    let report = update_report e b.keyboard_state in
    let (ok, wire, held) =
      send_report-delivers world DeviceType.keyboard "Failed to write keyboard report" path
        (to_bytes report) (record b { keyboard_state = report }) configured n in
    (
      ok,
      ap (last_report DeviceType.keyboard) wire
          ∙ last_report-append DeviceType.keyboard (to_bytes report) b.wire,
      held,
    )

-- After any inputs, in any worlds, a key event whose report the keyboard's device takes succeeds, and the
-- last keyboard report on the wire is then the one that all key events and resets so far make, the ones
-- whose own reports were lost included.
pub send_keyboard-replay :
    (is : List (World × Input)) (world : World) (path : String) (e : KeyboardEvent) (b : OtgBackend)
    → b.paths DeviceType.keyboard ≡ some path
    → IsDelivering (world.node DeviceType.keyboard)
    → let r = send_keyboard world e (run is b) in
      (r.1 ≡ done)
      × (last_report DeviceType.keyboard r.0.wire
          ≡ some (to_bytes (update_report e (replay is b.keyboard_state))))
send_keyboard-replay is world path e b configured n =
    let (state, paths) = run-Holds is b in
    let (ok, last, held) =
      keyboard_delivers world path e (run is b)
        (ap (λ (f : DeviceType → Option String). f DeviceType.keyboard) paths ∙ configured) n in
    (ok, last ∙ ap (λ (r : KeyboardReport). some (to_bytes (update_report e r))) state)

-- A keyboard that the host shuts down under a write: the call fails with `eshutdown`, and the device is
-- closed and the backend offline. The next key event, once the device can be opened and takes reports
-- again, succeeds: the device is open, the backend is online without an error, and the report on the wire
-- has both events.
pub send_keyboard_recovers :
    (world world' : World) (path text : String) (e e' : KeyboardEvent) (b : OtgBackend)
    → b.paths DeviceType.keyboard ≡ some path
    → (world.node DeviceType.keyboard).exists ≡ true
    → (world.node DeviceType.keyboard).open_error ≡ none
    → (world.node DeviceType.keyboard).poll ≡ ready false
    → (world.node DeviceType.keyboard).write_error
      ≡ some (record { raw_os_error = some 108; text = text })
    → IsDelivering (world'.node DeviceType.keyboard)
    → let first = send_keyboard world e b in
      let second = send_keyboard world' e' first.0 in
      (first.1
        ≡ failed (
            hid_error
              (str_append "Failed to write keyboard report" (str_append ": " text))
              "eshutdown"))
      × (first.0.opened DeviceType.keyboard ≡ false)
      × (first.0.runtime.online ≡ false)
      × (second.1 ≡ done)
      × (second.0.opened DeviceType.keyboard ≡ true)
      × IsOnline second.0.runtime
      × (last_report DeviceType.keyboard second.0.wire
          ≡ some (to_bytes (update_report e' (update_report e b.keyboard_state))))
unfolding send_keyboard
send_keyboard_recovers world world' path text e e' b configured there opens polls fails n =
    let report = update_report e b.keyboard_state in
    let (fails_now, wire, shut, offline, error) =
      send_report-shuts world DeviceType.keyboard "Failed to write keyboard report" path text
        (to_bytes report) (record b { keyboard_state = report }) configured there opens polls
        fails in
    let first = (send_keyboard world e b).0 in
    let (state, paths) =
      report-Holds report b.paths world DeviceType.keyboard "Failed to write keyboard report"
        (to_bytes report) (record b { keyboard_state = report }) (refl, refl) in
    let configured' : first.paths DeviceType.keyboard ≡ some path =
      ap (λ (f : DeviceType → Option String). f DeviceType.keyboard) paths ∙ configured in
    let (ok, last, held) = keyboard_delivers world' path e' first configured' n in
    let agrees =
      send_report-Agrees world' DeviceType.keyboard "Failed to write keyboard report" path
        (to_bytes (update_report e' first.keyboard_state)) nothing_behind
        (record first { keyboard_state = update_report e' first.keyboard_state }) configured' in
    (
      fails_now,
      shut,
      offline,
      ok,
      held,
      (rw ok at agrees),
      last ∙ ap (λ (r : KeyboardReport). some (to_bytes (update_report e' r))) state,
    )
