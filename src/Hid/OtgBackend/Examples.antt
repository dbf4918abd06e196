-- ===== src/Hid/OtgBackend/Examples.antt =====
-- A backend with all devices, worlds in which they work and fail, and the theorems on them.
use one_kvm_stream_box.Base.{
  ◌≡◌, refl, ◌≢◌, ◌↔◌, ◌⊎◌, inr, true, false, not, ◌&&◌, Option, none, some, List, [], ◌∷◌, arith,
  if◌then◌else◌,
}
use Prim.Native.String.{String, ◌++◌ as str_append}
use one_kvm_stream_box.Base.Int.{pos}
use one_kvm_stream_box.Hid.Keyboard.{shift_left}
use one_kvm_stream_box.Hid.Event.{
  KeyEventType, KeyboardEvent, left, MouseEventType, MouseEvent, ConsumerEvent, from_hid_byte,
}
use one_kvm_stream_box.Hid.Report.{to_bytes}
use one_kvm_stream_box.Hid.Report.Keys.{empty-IsValid}
use one_kvm_stream_box.Hid.Ch9329.Backend.{update_report}
use one_kvm_stream_box.Hid.OtgBackend.{
  DeviceType, ready, timed_out, Node, World, OtgBackend, done, failed, hid_error, from_handles,
}
use one_kvm_stream_box.Hid.OtgBackend.Methods.{
  send_keyboard, shut_down, Input, key_input, mouse_input, consumer_input, run,
}
use one_kvm_stream_box.Hid.OtgBackend.Status.{IsOnline}
use one_kvm_stream_box.Hid.OtgBackend.Wire.{IsDelivering}
use one_kvm_stream_box.Hid.OtgBackend.History.{IsSound, run-IsSound}
use one_kvm_stream_box.Hid.OtgBackend.Delivery.{
  last_report, replay, send_keyboard-replay, send_keyboard_recovers,
}
use one_kvm_stream_box.Hid.OtgBackend.Shutdown.{IsQuiet, shut_down-succeeds, shut_down-fails}
use one_kvm_stream_box.Hid.OtgBackend.Monitor.{
  Controllers, join, read_udc_configured, check_devices_exist, build_runtime_snapshot, MonitorState,
}
use one_kvm_stream_box.Hid.OtgBackend.Watch.{
  AllThere, NotUnconfigured, missing_files, build_runtime_snapshot-online,
}

abbrev all_paths : DeviceType → Option String
all_paths DeviceType.keyboard = some "/dev/hidg0"
all_paths DeviceType.mouse_relative = some "/dev/hidg1"
all_paths DeviceType.mouse_absolute = some "/dev/hidg2"
all_paths DeviceType.consumer_control = some "/dev/hidg3"

abbrev all_devices : OtgBackend
all_devices = from_handles all_paths true (some "fe980000.usb")

abbrev initialized : OtgBackend
initialized = record all_devices {
  opened = λ d. true;
  runtime = record { initialized = true; online = true; last_error = none; notified = 2 };
  monitored = true;
}

abbrev working : Node
working = record { exists = true; open_error = none; poll = ready false; write_error = none }

abbrev good_world : World
good_world = record { node = λ d. working; release_poll = timed_out; release_error = none }

-- The host shuts the devices down under a write.
abbrev shutting_world : World
shutting_world = record good_world {
  node = λ d. record working {
    write_error = some (record {
      raw_os_error = some 108;
      text = "Cannot send after transport endpoint shutdown";
    });
  };
}

abbrev gone_world : World
gone_world = record good_world { node = λ d. record working { exists = false } }

abbrev without_consumer : DeviceType → Node
without_consumer DeviceType.keyboard = working
without_consumer DeviceType.mouse_relative = working
without_consumer DeviceType.mouse_absolute = working
without_consumer DeviceType.consumer_control = record working { exists = false }

abbrev consumer_gone : World
consumer_gone = record good_world { node = without_consumer }

working-IsDelivering : IsDelivering working
working-IsDelivering = record { exists = refl; opens = refl; polls = refl; writes = refl }

abbrev shift_press : KeyboardEvent
shift_press = record {
  event_type = KeyEventType.down;
  key = shift_left;
  modifiers = from_hid_byte 2;
}

abbrev shift_release : KeyboardEvent
shift_release = record {
  event_type = KeyEventType.up;
  key = shift_left;
  modifiers = from_hid_byte 0;
}

abbrev left_press : MouseEvent
left_press = record {
  event_type = MouseEventType.down;
  x = pos 0;
  y = pos 0;
  button = some left;
  scroll = pos 0;
}

abbrev volume_up : ConsumerEvent
volume_up = record { usage = 0xE9 }

abbrev history : List (World × Input)
history =
    (good_world, mouse_input left_press)
    ∷ (shutting_world, key_input shift_press)
    ∷ (good_world, consumer_input volume_up)
    ∷ []

initialized-IsSound : IsSound initialized
unfolding from_handles
initialized-IsSound = record { report = empty-IsValid; buttons = omega arith; sent = tt }

run-IsSound_example : IsSound (run history initialized)
run-IsSound_example = run-IsSound history initialized initialized-IsSound

has_keyboard : (initialized.paths) DeviceType.keyboard ≡ some "/dev/hidg0"
unfolding from_handles
has_keyboard = refl

has_consumer : (initialized.paths) DeviceType.consumer_control ≡ some "/dev/hidg3"
unfolding from_handles
has_consumer = refl

send_keyboard-replay_example :
    let r = send_keyboard good_world shift_release (run history initialized) in
    (r.1 ≡ done)
    × (last_report DeviceType.keyboard r.0.wire
        ≡ some (to_bytes (update_report shift_release (replay history initialized.keyboard_state))))
send_keyboard-replay_example =
    send_keyboard-replay history good_world "/dev/hidg0" shift_release initialized has_keyboard
      working-IsDelivering

send_keyboard_recovers_example :
    let first = send_keyboard shutting_world shift_press initialized in
    let second = send_keyboard good_world shift_release first.0 in
    (first.1
      ≡ failed (
          hid_error
            (str_append "Failed to write keyboard report"
              (str_append ": " "Cannot send after transport endpoint shutdown"))
            "eshutdown"))
    × (first.0.opened DeviceType.keyboard ≡ false)
    × (first.0.runtime.online ≡ false)
    × (second.1 ≡ done)
    × (second.0.opened DeviceType.keyboard ≡ true)
    × IsOnline second.0.runtime
    × (last_report DeviceType.keyboard second.0.wire
        ≡ some (
            to_bytes
              (update_report shift_release (update_report shift_press initialized.keyboard_state))))
send_keyboard_recovers_example =
    send_keyboard_recovers shutting_world good_world "/dev/hidg0"
      "Cannot send after transport endpoint shutdown" shift_press shift_release initialized
      has_keyboard refl refl refl refl working-IsDelivering

all_quiet : (d : DeviceType) → IsQuiet good_world initialized d
all_quiet d = inr working-IsDelivering

shut_down-succeeds_example :
    let r = shut_down good_world initialized in
    (r.1 ≡ done)
    × ((d : DeviceType) → r.0.opened d ≡ false)
    × (r.0.monitored ≡ false)
    × (r.0.runtime.initialized ≡ false)
    × (r.0.runtime.online ≡ false)
    × (r.0.runtime.last_error ≡ none)
shut_down-succeeds_example = shut_down-succeeds good_world initialized all_quiet

not_keyboard : DeviceType.mouse_relative ≢ DeviceType.keyboard
not_keyboard e = cc

shut_down-fails_example :
    let r = shut_down gone_world initialized in
    (r.1 ≡ failed (hid_error (str_append "Device not found: " "/dev/hidg0") "enoent"))
    × (r.0.opened DeviceType.mouse_relative ≡ initialized.opened DeviceType.mouse_relative)
    × (r.0.monitored ≡ false)
    × (r.0.runtime.initialized ≡ initialized.runtime.initialized)
shut_down-fails_example =
    shut_down-fails gone_world "/dev/hidg0" DeviceType.mouse_relative initialized has_keyboard refl
      not_keyboard

abbrev one_controller : Controllers
one_controller = record { find_udc = some "fe980000.usb"; state_is_configured = λ s. some true }

build_runtime_snapshot-online_example :
    let s = (build_runtime_snapshot good_world one_controller initialized).1 in
    let there = check_devices_exist good_world initialized in
    let configured = (read_udc_configured one_controller initialized.udc_name).1 in
    (there ≡ true ↔ AllThere good_world initialized)
    × (configured ≡ true ↔ NotUnconfigured one_controller initialized)
    × (s.online
        ≡ (initialized.runtime.initialized && initialized.runtime.online && there && configured))
    × (s.error ≡ (
        if initialized.runtime.initialized && not there
        then some (
          str_append "HID device node missing: " (join (missing_files good_world initialized)),
          "enoent",
        )
        else if initialized.runtime.initialized && not configured
        then some ("UDC is not in configured state", "udc_not_configured")
        else initialized.runtime.last_error))
    × ((s.online ≡ false) ⊎ (s.error ≡ initialized.runtime.last_error))
build_runtime_snapshot-online_example =
    build_runtime_snapshot-online good_world one_controller initialized

abbrev watching : MonitorState
watching = record { last_udc_configured = true; keyboard_led_file = true }
