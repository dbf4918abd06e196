-- ===== src/Hid/OtgBackend/Watch.antt =====
-- The LEDs' byte, the status that the snapshot shows, and what the monitor announces.
use one_kvm_stream_box.Base.{
  ℕ, ◌%◌, ◌<◌, ◌≡◌, ◌≢◌, ◌↔◌, refl, sym, ◌∙◌, ◌⊎◌, inl, inr, Bool-cases, Bool, true, false, not,
  ◌&&◌, ◌||◌, Option, none, some, List, [], ◌∷◌, ◌++◌, arith, ◌==◌, if◌then◌else◌, ==_iff,
  all_below, all_below_sound,
}
use Prim.Native.String.{String, ◌++◌ as str_append}
use one_kvm_stream_box.Hid.OtgBackend.{DeviceType, LedState, from_byte, to_byte, World, OtgBackend}
use one_kvm_stream_box.Hid.OtgBackend.Monitor.{
  Controllers, read_udc_configured, check_devices_exist, get_missing_devices, missing_of, join,
  none_of, configured_of, present, or_else, build_runtime_snapshot,
}

abbrev leds_of : Bool → Bool → Bool → Bool → Bool → LedState
leds_of n c s o k = record { num_lock = n; caps_lock = c; scroll_lock = s; compose = o; kana = k }

leds_from_byte : (n c s o k : Bool) → from_byte (to_byte (leds_of n c s o k)) ≡ leds_of n c s o k
unfolding from_byte to_byte
leds_from_byte n c s o k = ground arith

abbrev byte_back : ℕ → Bool
byte_back b = to_byte (from_byte b) == b % 32

byte_table : all_below 256 byte_back ≡ true
unfolding all_below from_byte to_byte
byte_table = refl

-- The five LEDs come back from their byte, and a byte's low five bits from its LEDs.
pub from_byte-to_byte :
    (s : LedState) (b : ℕ)
    → b < 256
    → (from_byte (to_byte s) ≡ s) × (to_byte (from_byte b) ≡ b % 32)
from_byte-to_byte s b small = (
  leds_from_byte s.num_lock s.caps_lock s.scroll_lock s.compose s.kana,
  (==_iff (to_byte (from_byte b)) (b % 32)).0 (all_below_sound 256 byte_back b byte_table small),
)

none_of_iff :
    (o : Option String) (exists : Bool)
    → (none_of o || exists) ≡ true ↔ ((path : String) → o ≡ some path → exists ≡ true)
none_of_iff none exists = (λ h path e. cc, λ h. refl)
none_of_iff (some s) exists = (λ h path e. h, λ h. h s refl)

-- Each device file that is configured exists.
abbrev pub AllThere : World → OtgBackend → Type 0
AllThere world b =
    (d : DeviceType) (path : String) → b.paths d ≡ some path → (world.node d).exists ≡ true

check_devices_exist_iff :
    (world : World) (b : OtgBackend) → check_devices_exist world b ≡ true ↔ AllThere world b
unfolding check_devices_exist
check_devices_exist_iff world b = (there, back)
  where
    iff :
        (d : DeviceType)
        → present world b d ≡ true
          ↔ ((path : String) → b.paths d ≡ some path → (world.node d).exists ≡ true)
    iff d = none_of_iff (b.paths d) (world.node d).exists

    there : check_devices_exist world b ≡ true → AllThere world b
    there h DeviceType.keyboard = (iff DeviceType.keyboard).0 (ground arith)
    there h DeviceType.mouse_relative = (iff DeviceType.mouse_relative).0 (ground arith)
    there h DeviceType.mouse_absolute = (iff DeviceType.mouse_absolute).0 (ground arith)
    there h DeviceType.consumer_control = (iff DeviceType.consumer_control).0 (ground arith)

    back : AllThere world b → check_devices_exist world b ≡ true
    back h =
        let one = (iff DeviceType.keyboard).1 (h DeviceType.keyboard) in
        let two = (iff DeviceType.mouse_relative).1 (h DeviceType.mouse_relative) in
        let three = (iff DeviceType.mouse_absolute).1 (h DeviceType.mouse_absolute) in
        let four = (iff DeviceType.consumer_control).1 (h DeviceType.consumer_control) in
        ground arith

-- No controller that has a name says that it is in another state than `configured`.
abbrev pub NotUnconfigured : Controllers → OtgBackend → Type 0
NotUnconfigured c b =
    (udc : String)
    → or_else b.udc_name c.find_udc ≡ some udc
    → c.state_is_configured udc ≢ some false

configured_of_iff : (o : Option Bool) → configured_of o ≡ true ↔ (o ≢ some false)
configured_of_iff none = (λ h e. cc, λ h. refl)
configured_of_iff (some true) = (λ h e. cc, λ h. refl)
configured_of_iff (some false) = (λ h e. cc, λ h. absurd (h refl))

read_udc_configured-some :
    (c : Controllers) (b : OtgBackend) (udc : String)
    → or_else b.udc_name c.find_udc ≡ some udc
    → (read_udc_configured c b.udc_name).1 ≡ configured_of (c.state_is_configured udc)
unfolding read_udc_configured
read_udc_configured-some c b udc e = rw (read_udc_configured, e) refl

read_udc_configured-none :
    (c : Controllers) (b : OtgBackend)
    → or_else b.udc_name c.find_udc ≡ none
    → (read_udc_configured c b.udc_name).1 ≡ true
unfolding read_udc_configured
read_udc_configured-none c b e = rw (read_udc_configured, e) refl

read_udc_configured_iff :
    (c : Controllers) (b : OtgBackend)
    → (read_udc_configured c b.udc_name).1 ≡ true ↔ NotUnconfigured c b
read_udc_configured_iff c b = (there, go (or_else b.udc_name c.find_udc) refl)
  where
    there : (read_udc_configured c b.udc_name).1 ≡ true → NotUnconfigured c b
    there h udc is =
        (configured_of_iff (c.state_is_configured udc)).0
          (sym (read_udc_configured-some c b udc is) ∙ h)

    go :
        (o : Option String)
        → or_else b.udc_name c.find_udc ≡ o
        → NotUnconfigured c b
        → (read_udc_configured c b.udc_name).1 ≡ true
    go none e h = read_udc_configured-none c b e
    go (some udc) e h =
        read_udc_configured-some c b udc e
        ∙ (configured_of_iff (c.state_is_configured udc)).1 (h udc e)

-- The path of a device whose file is missing.
abbrev pub unless_there : Option String → Bool → List String
unless_there (some path) false = path ∷ []
unless_there _ _ = []

missing_of-unless_there :
    (o : Option String) (exists : Bool) → missing_of o exists ≡ unless_there o exists
missing_of-unless_there none exists = refl
missing_of-unless_there (some path) true = refl
missing_of-unless_there (some path) false = refl

-- The missing files of the keyboard and the two mice.
abbrev pub missing_files : World → OtgBackend → List String
missing_files world b =
    unless_there (b.paths DeviceType.keyboard) (world.node DeviceType.keyboard).exists
    ++ unless_there (b.paths DeviceType.mouse_relative)
        (world.node DeviceType.mouse_relative).exists
    ++ unless_there (b.paths DeviceType.mouse_absolute)
        (world.node DeviceType.mouse_absolute).exists

get_missing_devices-missing_files :
    (world : World) (b : OtgBackend) → get_missing_devices world b ≡ missing_files world b
unfolding get_missing_devices
get_missing_devices-missing_files world b =
    simp
      (
        missing_of-unless_there (b.paths DeviceType.keyboard)
            (world.node DeviceType.keyboard).exists,
        missing_of-unless_there (b.paths DeviceType.mouse_relative)
            (world.node DeviceType.mouse_relative).exists,
        missing_of-unless_there (b.paths DeviceType.mouse_absolute)
            (world.node DeviceType.mouse_absolute).exists,
      )
      refl

build_runtime_snapshot-both :
    (world : World) (c : Controllers) (b : OtgBackend)
    → let s = (build_runtime_snapshot world c b).1 in
      (s.online ≡ (
        b.runtime.initialized
        && (b.runtime.online
            && (check_devices_exist world b && (read_udc_configured c b.udc_name).1))))
      × (s.error ≡ (
          if b.runtime.initialized && not (check_devices_exist world b)
          then some
              (str_append "HID device node missing: " (join (missing_files world b)), "enoent")
          else if b.runtime.initialized && not (read_udc_configured c b.udc_name).1
          then some ("UDC is not in configured state", "udc_not_configured")
          else b.runtime.last_error))
unfolding build_runtime_snapshot
build_runtime_snapshot-both world c b = ground (arith, get_missing_devices-missing_files world b)

-- The snapshot shows the backend online exactly when it is initialised and online, each device file that
-- is configured exists, and no controller that has a name says that it is in another state than
-- `configured`. Where the backend is initialised and a file is missing, its error says so with the paths of
-- the keyboard and of the two mice that are missing; else, where the backend is initialised and a controller is
-- not configured, it says that; and else it is the last error, also where the snapshot shows the backend online.
pub build_runtime_snapshot-online :
    (world : World) (c : Controllers) (b : OtgBackend)
    → let s = (build_runtime_snapshot world c b).1 in
      let there = check_devices_exist world b in
      let configured = (read_udc_configured c b.udc_name).1 in
      (there ≡ true ↔ AllThere world b)
      × (configured ≡ true ↔ NotUnconfigured c b)
      × (s.online ≡ (b.runtime.initialized && b.runtime.online && there && configured))
      × (s.error ≡ (
          if b.runtime.initialized && not there
          then some
              (str_append "HID device node missing: " (join (missing_files world b)), "enoent")
          else if b.runtime.initialized && not configured
          then some ("UDC is not in configured state", "udc_not_configured")
          else b.runtime.last_error))
      × ((s.online ≡ false) ⊎ (s.error ≡ b.runtime.last_error))
build_runtime_snapshot-online world c b =
    let (online, error) = build_runtime_snapshot-both world c b in
    (
      check_devices_exist_iff world b,
      read_udc_configured_iff c b,
      ground (arith, online),
      error,
      elim (Bool-cases (build_runtime_snapshot world c b).1.online) [
        | inr off ↦ inl off
        | inl on ↦ inr (ground (arith, online, error, on))
      ],
    )

missing_of-there : (o : Option String) → missing_of o true ≡ []
missing_of-there none = refl
missing_of-there (some path) = refl

none_missing :
    (world : World) (b : OtgBackend)
    → (world.node DeviceType.keyboard).exists ≡ true
    → (world.node DeviceType.mouse_relative).exists ≡ true
    → (world.node DeviceType.mouse_absolute).exists ≡ true
    → get_missing_devices world b ≡ []
unfolding get_missing_devices
none_missing world b keyboard relative absolute =
    rw (keyboard, relative, absolute)
      (simp (
        missing_of-there (b.paths DeviceType.keyboard),
        missing_of-there (b.paths DeviceType.mouse_relative),
        missing_of-there (b.paths DeviceType.mouse_absolute),
      ))

-- Where the file of the consumer device is the only one that is missing, the snapshot's error names no
-- file.
pub missing_consumer_unnamed :
    (world : World) (c : Controllers) (b : OtgBackend)
    → b.runtime.initialized ≡ true
    → (world.node DeviceType.keyboard).exists ≡ true
    → (world.node DeviceType.mouse_relative).exists ≡ true
    → (world.node DeviceType.mouse_absolute).exists ≡ true
    → check_devices_exist world b ≡ false
    → let s = (build_runtime_snapshot world c b).1 in
      (s.online ≡ false) × (s.error ≡ some (str_append "HID device node missing: " "", "enoent"))
unfolding build_runtime_snapshot
missing_consumer_unnamed world c b up keyboard relative absolute gone =
    simp (up, gone, none_missing world b keyboard relative absolute) (refl, refl)
