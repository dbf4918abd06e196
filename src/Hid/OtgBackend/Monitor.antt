-- ===== src/Hid/OtgBackend/Monitor.antt =====
-- src/hid/otg.rs: `init`, the snapshot of the status, and the thread that watches the controller and the
-- keyboard's LEDs.
use one_kvm_stream_box.Base.{
  ℕ, Bool, true, false, not, ◌&&◌, ◌||◌, Option, none, some, List, [], ◌∷◌, ◌++◌, if◌then◌else◌,
  eqb,
}
use Prim.Native.String.{String, ◌++◌ as str_append}
use one_kvm_stream_box.Hid.Ch9329.Runtime.{notify}
use one_kvm_stream_box.Hid.OtgBackend.{
  DeviceType, LedState, from_byte, World, OtgBackend, done, failed, internal, Call, ◌>>◌,
  mark_online, set_opened,
}
use one_kvm_stream_box.Hid.OtgBackend.Reports.{open_message}

-- `find_udc`, and what the state file of a controller says: `none` where it cannot be read, and else
-- whether its text is `configured`.
pub record Controllers : Type 0 where
  pub find_udc : Option String
  pub state_is_configured : String → Option Bool

abbrev pub or_else : Option String → Option String → Option String
or_else none o = o
or_else (some s) o = some s

abbrev pub configured_of : Option Bool → Bool
configured_of none = true
configured_of (some v) = v

-- The name that is kept, and the answer.
unfoldable pub read_udc_configured : Controllers → Option String → Option String × Bool
read_udc_configured c udc_name = elim (or_else udc_name c.find_udc) [
  | none ↦ (udc_name, true)
  | some udc ↦ (some udc, configured_of (c.state_is_configured udc))
]

-- `init`

abbrev opened_node : Option String → DeviceType → String → Call
opened_node none d path b = (set_opened d true b, done)
opened_node (some text) d path b = (b, failed (internal (open_message path text)))

unfoldable pub open_existing : World → DeviceType → Call
open_existing world d b = elim (b.paths d) [
  | none ↦ (b, done)
  | some path ↦
      if (world.node d).exists then opened_node (world.node d).open_error d path b else (b, done)
]

unfoldable pub open_devices : World → Call
open_devices world =
    open_existing world DeviceType.keyboard
    >> open_existing world DeviceType.mouse_relative
    >> open_existing world DeviceType.mouse_absolute
    >> open_existing world DeviceType.consumer_control

abbrev pub none_of : Option String → Bool
none_of none = true
none_of (some s) = false

unfoldable pub no_devices : OtgBackend → Bool
no_devices b =
    none_of (b.paths DeviceType.keyboard)
    && none_of (b.paths DeviceType.mouse_relative)
    && none_of (b.paths DeviceType.mouse_absolute)
    && none_of (b.paths DeviceType.consumer_control)

-- The end of `init`; `spawned` says whether the monitor's thread could be started.
unfoldable pub start : Bool → Call
start spawned b = (
  record b {
    runtime = mark_online (notify (record b.runtime { initialized = true }));
    monitored = b.monitored || spawned;
  },
  done,
)

-- `appeared` is the answer of `wait_for_hid_devices`.
unfoldable pub init : World → Controllers → (appeared spawned : Bool) → Call
init world c appeared spawned b =
    if no_devices b
    then (
      record b { udc_name = or_else b.udc_name c.find_udc },
      failed (internal "No HID devices configured for OTG backend"),
    )
    else if not appeared
    then (
      record b { udc_name = or_else b.udc_name c.find_udc },
      failed (internal "HID devices did not appear"),
    )
    else (open_devices world >> start spawned)
        (record b { udc_name = or_else b.udc_name c.find_udc })

-- The snapshot

abbrev pub present : World → OtgBackend → DeviceType → Bool
present world b d = none_of (b.paths d) || (world.node d).exists

unfoldable pub check_devices_exist : World → OtgBackend → Bool
check_devices_exist world b =
    present world b DeviceType.keyboard
    && present world b DeviceType.mouse_relative
    && present world b DeviceType.mouse_absolute
    && present world b DeviceType.consumer_control

abbrev pub missing_of : Option String → Bool → List String
missing_of none exists = []
missing_of (some path) exists = if exists then [] else path ∷ []

unfoldable pub get_missing_devices : World → OtgBackend → List String
get_missing_devices world b =
    missing_of (b.paths DeviceType.keyboard) (world.node DeviceType.keyboard).exists
    ++ missing_of (b.paths DeviceType.mouse_relative) (world.node DeviceType.mouse_relative).exists
    ++ missing_of (b.paths DeviceType.mouse_absolute) (world.node DeviceType.mouse_absolute).exists

-- `missing.join(", ")`
abbrev pub join : List String → String
join [] = ""
join (s ∷ []) = s
join (s ∷ t ∷ ss) = str_append s (str_append ", " (join (t ∷ ss)))

pub record Snapshot : Type 0 where
  pub initialized : Bool
  pub online : Bool
  pub supports_absolute_mouse : Bool
  pub keyboard_leds_enabled : Bool
  pub led_state : LedState
  pub screen_resolution : Option (ℕ × ℕ)
  pub device : Option String
  pub error : Option (String × String)

abbrev snapshot_with : World → OtgBackend → Bool → Option (String × String) → Snapshot
snapshot_with world b online error = record {
  initialized = b.runtime.initialized;
  online = online;
  supports_absolute_mouse =
      not (none_of (b.paths DeviceType.mouse_absolute))
      && (world.node DeviceType.mouse_absolute).exists;
  keyboard_leds_enabled = b.keyboard_leds_enabled;
  led_state = b.led_state;
  screen_resolution = b.screen_resolution;
  device = b.udc_name;
  error = error;
}

-- `is_udc_configured` keeps the name that it finds.
unfoldable pub build_runtime_snapshot : World → Controllers → OtgBackend → OtgBackend × Snapshot
build_runtime_snapshot world c b =
    let online = b.runtime.initialized && b.runtime.online in
    let udc = read_udc_configured c b.udc_name in
    let b' = record b { udc_name = udc.0 } in
    if b.runtime.initialized && not (check_devices_exist world b)
    then (
      b,
      snapshot_with world b false (
          some (
            str_append "HID device node missing: " (join (get_missing_devices world b)),
            "enoent",
          )),
    )
    else if b.runtime.initialized
    then (
      b',
      (if udc.1
          then snapshot_with world b' online b.runtime.last_error
          else snapshot_with world b' false
              (some ("UDC is not in configured state", "udc_not_configured"))),
    )
    else (b, snapshot_with world b online b.runtime.last_error)

-- The monitor

-- What `poll` returns for the LEDs' file: nothing, an error, or events: a failure, a byte to read, both or
-- neither.
pub data LedPoll : Type 0 where
  led_timeout led_poll_failed : LedPoll
  led_events : (hangup readable : Bool) → LedPoll

pub data LedRead : Type 0 where
  one_byte : ℕ → LedRead
  no_byte would_block led_read_failed : LedRead

unfoldable pub same_leds : LedState → LedState → Bool
same_leds s t =
    eqb s.num_lock t.num_lock
    && eqb s.caps_lock t.caps_lock
    && eqb s.scroll_lock t.scroll_lock
    && eqb s.compose t.compose
    && eqb s.kana t.kana

-- Whether the file is open, the LEDs, and whether something changed.
unfoldable pub take_byte : LedRead → LedState → Bool × LedState × Bool
take_byte (one_byte n) s = (true, from_byte n, not (same_leds s (from_byte n)))
take_byte no_byte s = (true, s, false)
take_byte would_block s = (true, s, false)
take_byte led_read_failed s = (false, s, true)

unfoldable pub poll_open_file : LedPoll → LedRead → LedState → Bool × LedState × Bool
poll_open_file led_timeout r s = (true, s, false)
poll_open_file led_poll_failed r s = (false, s, true)
poll_open_file (led_events true readable) r s = (false, s, true)
poll_open_file (led_events false false) r s = (true, s, false)
poll_open_file (led_events false true) r s = take_byte r s

unfoldable pub poll_keyboard_led_once :
    (opens : Bool) → LedPoll → LedRead → Bool → LedState → Bool × LedState × Bool
poll_keyboard_led_once opens p r file s =
    if file || opens then poll_open_file p r s else (false, s, false)

-- The thread's own variables.
pub record MonitorState : Type 0 where
  pub last_udc_configured : Bool
  pub keyboard_led_file : Bool

unfoldable pub announce : (changed : Bool) → OtgBackend → OtgBackend
announce changed b = if changed then record b { runtime = notify b.runtime } else b

-- A round of the loop: what changed is announced once.
unfoldable pub monitor_round :
    Controllers
    → (opens : Bool) → LedPoll
    → LedRead
    → MonitorState
    → OtgBackend
    → MonitorState × OtgBackend
monitor_round c opens p r m b =
    let (udc, configured) = read_udc_configured c b.udc_name in
    let watch = b.keyboard_leds_enabled && not (none_of (b.paths DeviceType.keyboard)) in
    let (file, leds, led_changed) =
      (if watch
        then poll_keyboard_led_once opens p r m.keyboard_led_file b.led_state
        else (m.keyboard_led_file, b.led_state, false)) in
    let changed = not (eqb m.last_udc_configured configured) || led_changed in
    let b' = record b { udc_name = udc; led_state = leds } in
    (record { last_udc_configured = configured; keyboard_led_file = file }, announce changed b')
