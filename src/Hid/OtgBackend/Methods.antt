-- ===== src/Hid/OtgBackend/Methods.antt =====
-- src/hid/otg.rs, the methods of `HidBackend` that take input, reset and shut the backend down, and a history
-- of such calls.
use one_kvm_stream_box.Base.{ℕ, false, Option, none, some, List, [], ◌∷◌}
use one_kvm_stream_box.Base.Int.{pos, negsuc, clamp, pos_part}
use one_kvm_stream_box.Hid.Event.{
  KeyEventType, KeyboardEvent, MouseButton, MouseEventType, MouseEvent, ConsumerEvent, to_hid_bit,
}
use one_kvm_stream_box.Hid.Report.{clear}
use one_kvm_stream_box.Hid.Ch9329.Runtime.{notify}
use one_kvm_stream_box.Hid.Ch9329.Backend.{update_report, change_bit}
use one_kvm_stream_box.Hid.OtgBackend.{Call, OtgBackend, World, clear_error, done, ◌>>◌}
use one_kvm_stream_box.Hid.OtgBackend.Reports.{
  send_consumer_report, send_keyboard_report, send_mouse_report_absolute,
  send_mouse_report_relative,
}

-- The statements that update the report are those of ch9329.rs.
unfoldable pub send_keyboard : World → KeyboardEvent → Call
send_keyboard world e b =
    let report = update_report e b.keyboard_state in
    send_keyboard_report world report (record b { keyboard_state = report })

abbrev pub press_or_release : World → KeyEventType → Option MouseButton → Call
press_or_release world t none b = (b, done)
press_or_release world t (some button) b =
    let buttons = change_bit t (to_hid_bit button) b.mouse_buttons in
    send_mouse_report_relative world buttons (pos 0) (pos 0) (pos 0)
      (record b { mouse_buttons = buttons })

unfoldable pub send_mouse_of : World → MouseEventType → MouseEvent → Call
send_mouse_of world MouseEventType.move e b =
    send_mouse_report_relative world b.mouse_buttons (clamp e.x (negsuc 126) (pos 127))
      (clamp e.y (negsuc 126) (pos 127)) (pos 0) b
send_mouse_of world MouseEventType.move_abs e b =
    send_mouse_report_absolute world 0 (pos_part (clamp e.x (pos 0) (pos 32767)))
      (pos_part (clamp e.y (pos 0) (pos 32767))) (pos 0) b
send_mouse_of world MouseEventType.down e b = press_or_release world KeyEventType.down e.button b
send_mouse_of world MouseEventType.up e b = press_or_release world KeyEventType.up e.button b
send_mouse_of world MouseEventType.scroll e b =
    send_mouse_report_relative world b.mouse_buttons (pos 0) (pos 0) e.scroll b

unfoldable pub send_mouse : World → MouseEvent → Call
send_mouse world e b = send_mouse_of world e.event_type e b

unfoldable pub send_consumer : World → ConsumerEvent → Call
send_consumer world e b = send_consumer_report world e.usage b

unfoldable pub reset_keyboard : World → Call
reset_keyboard world b =
    let report = clear b.keyboard_state in
    send_keyboard_report world report (record b { keyboard_state = report })

unfoldable pub reset_mouse : World → Call
reset_mouse world b =
    (send_mouse_report_relative world 0 (pos 0) (pos 0) (pos 0)
        >> send_mouse_report_absolute world 0 0 0 (pos 0))
      (record b { mouse_buttons = 0 })

unfoldable pub reset : World → Call
reset world = reset_keyboard world >> reset_mouse world

-- The end of `shutdown`, behind a reset that succeeded.
unfoldable pub close_devices : Call
close_devices b = (
  record b {
    opened = λ d. false;
    runtime = notify (clear_error (record b.runtime { initialized = false; online = false }));
  },
  done,
)

unfoldable pub shut_down : World → Call
shut_down world b = (reset world >> close_devices) (record b { monitored = false })

unfoldable pub set_screen_resolution : ℕ → ℕ → OtgBackend → OtgBackend
set_screen_resolution width height b = record b {
  screen_resolution = some (width, height);
  runtime = notify b.runtime;
}

-- The calls that carry input.
pub data Input : Type 0 where
  key_input : KeyboardEvent → Input
  mouse_input : MouseEvent → Input
  consumer_input : ConsumerEvent → Input
  reset_input : Input

unfoldable pub send_input : World → Input → Call
send_input world (key_input e) = send_keyboard world e
send_input world (mouse_input e) = send_mouse world e
send_input world (consumer_input e) = send_consumer world e
send_input world reset_input = reset world

-- A history of calls, each in its world; what a call returns does not stop the client.
unfoldable pub run : List (World × Input) → OtgBackend → OtgBackend
run [] b = b
run ((world, i) ∷ is) b = run is (send_input world i b).0
