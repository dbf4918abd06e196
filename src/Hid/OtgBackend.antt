-- ===== src/Hid/OtgBackend.antt =====
-- src/hid/otg.rs, `OtgBackend`: reports are written to the device files of a USB gadget, which may be
-- missing, closed, busy or shut down. What the system answers during a call is its `World`, an argument;
-- `wire` is what was written, oldest first. The state behind each mutex and atomic is a field, and the calls
-- are run one at a time. The counters for log lines are left out, and a write takes a whole report or none.
pub mod Reports
pub mod Methods
pub mod Monitor
pub mod Calls
pub mod Status
pub mod Stable
pub mod Wire
pub mod History
pub mod Delivery
pub mod Shutdown
pub mod Watch
pub mod Examples
use one_kvm_stream_box.Base.{
  ℕ, bit_and, bit_or, Bool, true, false, not, ◌||◌, Option, none, some, List, [], ◌!=◌,
  if◌then◌else◌,
}
use Prim.Native.String.{String}
use one_kvm_stream_box.Hid.Report.{KeyboardReport, empty_report}
use one_kvm_stream_box.Hid.Ch9329.Runtime.{RuntimeState, notify, is_some, differs}

pub data DeviceType : Type 0 where
  keyboard mouse_relative mouse_absolute consumer_control : DeviceType

abbrev pub same_device : DeviceType → DeviceType → Bool
same_device DeviceType.keyboard DeviceType.keyboard = true
same_device DeviceType.mouse_relative DeviceType.mouse_relative = true
same_device DeviceType.mouse_absolute DeviceType.mouse_absolute = true
same_device DeviceType.consumer_control DeviceType.consumer_control = true
same_device d d' = false

pub record LedState : Type 0 where
  pub num_lock : Bool
  pub caps_lock : Bool
  pub scroll_lock : Bool
  pub compose : Bool
  pub kana : Bool

abbrev pub no_leds : LedState
no_leds = record {
  num_lock = false;
  caps_lock = false;
  scroll_lock = false;
  compose = false;
  kana = false;
}

unfoldable pub from_byte : ℕ → LedState
from_byte b = record {
  num_lock = bit_and b 0x01 != 0;
  caps_lock = bit_and b 0x02 != 0;
  scroll_lock = bit_and b 0x04 != 0;
  compose = bit_and b 0x08 != 0;
  kana = bit_and b 0x10 != 0;
}

unfoldable pub to_byte : LedState → ℕ
to_byte s =
    let b₁ = if s.num_lock then bit_or 0 0x01 else 0 in
    let b₂ = if s.caps_lock then bit_or b₁ 0x02 else b₁ in
    let b₃ = if s.scroll_lock then bit_or b₂ 0x04 else b₂ in
    let b₄ = if s.compose then bit_or b₃ 0x08 else b₃ in if s.kana then bit_or b₄ 0x10 else b₄

-- `std::io::Error`: the number of the system's error, where it is one, and its text.
pub record IoError : Type 0 where
  pub raw_os_error : Option ℕ
  pub text : String

-- What `poll` returns: nothing in time, an event with or without an error or a hangup, or neither.
pub data Poll : Type 0 where
  timed_out unexpected : Poll
  ready : (hangup : Bool) → Poll
  poll_failed : IoError → Poll

-- What the system answers for one device during a call.
pub record Node : Type 0 where
  pub exists : Bool
  pub open_error : Option String
  pub poll : Poll
  pub write_error : Option IoError

-- For each device, and for the second report of `send_consumer_report`.
pub record World : Type 0 where
  pub node : DeviceType → Node
  pub release_poll : Poll
  pub release_error : Option IoError

-- `paths` and `opened` have the four fields of each kind: the configured paths, and whether a handle is
-- held. `monitored` says whether the monitor's thread runs.
pub record OtgBackend : Type 0 where
  pub paths : DeviceType → Option String
  pub opened : DeviceType → Bool
  pub keyboard_leds_enabled : Bool
  pub keyboard_state : KeyboardReport
  pub mouse_buttons : ℕ
  pub led_state : LedState
  pub screen_resolution : Option (ℕ × ℕ)
  pub udc_name : Option String
  pub runtime : RuntimeState
  pub monitored : Bool
  pub wire : List (DeviceType × List ℕ)

pub data OtgError : Type 0 where
  hid_error : (reason code : String) → OtgError
  internal : String → OtgError

pub data Outcome : Type 0 where
  done : Outcome
  failed : OtgError → Outcome

abbrev pub Call : Type 0
Call = OtgBackend → OtgBackend × Outcome

infixl 5 ◌>>◌
abbrev pub ◌>>◌ : Call → Call → Call
◌>>◌ m k b = let (b', r) = m b in elim r [ done ↦ k b' | failed e ↦ (b', failed e) ]

-- The status.

unfoldable pub record_error : String → String → RuntimeState → RuntimeState
record_error reason code r =
    let r' = record r { online = false; last_error = some (reason, code) } in
    if r.online || differs r.last_error reason code then notify r' else r'

unfoldable pub mark_online : RuntimeState → RuntimeState
mark_online r =
    let r' = record r { online = true; last_error = none } in
    if not r.online || is_some r.last_error then notify r' else r'

abbrev pub with_error : String → String → OtgBackend → OtgBackend
with_error reason code b = record b { runtime = record_error reason code b.runtime }

abbrev pub online_now : OtgBackend → OtgBackend
online_now b = record b { runtime = mark_online b.runtime }

abbrev pub set_opened : DeviceType → Bool → OtgBackend → OtgBackend
set_opened d v b = record b { opened = λ d'. if same_device d d' then v else b.opened d' }

unfoldable pub clear_error : RuntimeState → RuntimeState
clear_error r = if is_some r.last_error then notify (record r { last_error = none }) else r

-- `from_handles`: the paths, whether the LEDs are reported, and the controller's name.
unfoldable pub from_handles : (DeviceType → Option String) → Bool → Option String → OtgBackend
from_handles paths leds udc = record {
  paths = paths;
  opened = λ d. false;
  keyboard_leds_enabled = leds;
  keyboard_state = empty_report;
  mouse_buttons = 0;
  led_state = no_leds;
  screen_resolution = some (1920, 1080);
  udc_name = udc;
  runtime = record { initialized = false; online = false; last_error = none; notified = 0 };
  monitored = false;
  wire = [];
}
