-- ===== src/Hid/OtgBackend/Shutdown.antt =====
-- What `shutdown` leaves, where its reset succeeds and where a device is gone.
use one_kvm_stream_box.Base.{
  ℕ, ◌≡◌, refl, ap, ◌∙◌, ◌≢◌, ◌⊎◌, inl, inr, false, Option, none, some, List, [], ◌∷◌, arith,
  Option-cases,
}
use Prim.Native.String.{String, ◌++◌ as str_append}
use one_kvm_stream_box.Base.Int.{pos}
use one_kvm_stream_box.Hid.Report.{to_bytes, clear}
use one_kvm_stream_box.Hid.Event.{KeyboardEvent, ConsumerEvent}
use one_kvm_stream_box.Hid.Ch9329.Runtime.{notify}
use one_kvm_stream_box.Hid.OtgBackend.{
  DeviceType, World, OtgBackend, Outcome, done, failed, hid_error, record_error, with_error,
  set_opened, same_device, clear_error,
}
use one_kvm_stream_box.Hid.OtgBackend.Reports.{
  if_configured, send_report, ensure_device, ensure_path, write_report, nothing_behind,
  send_mouse_report_relative, send_mouse_report_absolute,
}
use one_kvm_stream_box.Hid.OtgBackend.Methods.{
  reset_keyboard, reset_mouse, reset, close_devices, shut_down, send_keyboard, send_consumer,
}
use one_kvm_stream_box.Hid.OtgBackend.Calls.{Ensures, then-done, then-stops}
use one_kvm_stream_box.Hid.OtgBackend.Stable.{send_report-Keeps}
use one_kvm_stream_box.Hid.OtgBackend.Status.{Agrees, send_report-Agrees}
use one_kvm_stream_box.Hid.OtgBackend.Wire.{IsDelivering, send_report-delivers}

abbrev HasPaths : (DeviceType → Option String) → OtgBackend → Type 0
HasPaths paths b = b.paths ≡ paths

-- A device that is not configured, or that takes reports.
abbrev pub IsQuiet : World → OtgBackend → DeviceType → Type 0
IsQuiet world b d = (b.paths d ≡ none) ⊎ IsDelivering (world.node d)

send_report-paths :
    (world : World) (d : DeviceType) (operation : String) (bytes : List ℕ) (b : OtgBackend)
    → (send_report world d operation bytes nothing_behind b).0.paths ≡ b.paths
send_report-paths world d operation bytes b =
    send_report-Keeps (HasPaths b.paths) (λ b r o h. h) d bytes nothing_behind (λ b h. h) world
      operation b refl

send_report-monitored :
    (world : World) (d : DeviceType) (operation : String) (bytes : List ℕ) (b : OtgBackend)
    → (send_report world d operation bytes nothing_behind b).0.monitored ≡ b.monitored
send_report-monitored world d operation bytes b =
    send_report-Keeps (λ b'. b'.monitored ≡ b.monitored) (λ b r o h. h) d bytes nothing_behind
      (λ b h. h) world operation b refl

send_report-succeeds :
    (world : World) (d : DeviceType) (operation : String) (bytes : List ℕ) (b : OtgBackend)
    → IsQuiet world b d
    → (send_report world d operation bytes nothing_behind b).1 ≡ done
unfolding send_report if_configured
send_report-succeeds world d operation bytes b (inl off) = rw off refl
send_report-succeeds world d operation bytes b (inr n) = elim (Option-cases (b.paths d)) [
  | inl off ↦ rw off refl
  | inr (path, is) ↦ (send_report-delivers world d operation path bytes b is n).0
]

reset-succeeds :
    (world : World) (b : OtgBackend)
    → ((d : DeviceType) → IsQuiet world b d)
    → ((reset world b).1 ≡ done) × ((reset world b).0.monitored ≡ b.monitored)
unfolding reset reset_keyboard reset_mouse
reset-succeeds world b quiet =
    let report = clear b.keyboard_state in
    let b₀ = record b { keyboard_state = report } in
    let bytes = to_bytes report in
    let released : List ℕ = 0 ∷ 0 ∷ 0 ∷ 0 ∷ [] in
    let origin : List ℕ = 0 ∷ 0 ∷ 0 ∷ 0 ∷ 0 ∷ 0 ∷ [] in
    let keyboard_text : String = "Failed to write keyboard report" in
    let mouse_text : String = "Failed to write mouse report" in
    let b₁ = record (reset_keyboard world b).0 { mouse_buttons = 0 } in
    let b₂ = (send_mouse_report_relative world 0 (pos 0) (pos 0) (pos 0) b₁).0 in
    let paths₁ : b₁.paths ≡ b.paths =
      send_report-paths world DeviceType.keyboard keyboard_text bytes b₀ in
    let paths₂ : b₂.paths ≡ b.paths =
      send_report-paths world DeviceType.mouse_relative mouse_text released b₁ ∙ paths₁ in
    let first =
      send_report-succeeds world DeviceType.keyboard keyboard_text bytes b₀
        (quiet DeviceType.keyboard) in
    let second =
      send_report-succeeds world DeviceType.mouse_relative mouse_text released b₁
        (rw paths₁ (quiet DeviceType.mouse_relative)) in
    let third =
      send_report-succeeds world DeviceType.mouse_absolute mouse_text origin b₂
        (rw paths₂ (quiet DeviceType.mouse_absolute)) in
    let kept =
      send_report-monitored world DeviceType.mouse_absolute mouse_text origin b₂
      ∙ send_report-monitored world DeviceType.mouse_relative mouse_text released b₁
      ∙ send_report-monitored world DeviceType.keyboard keyboard_text bytes b₀ in
    let one = then-done (reset_keyboard world) (reset_mouse world) b first in
    let two =
      then-done (send_mouse_report_relative world 0 (pos 0) (pos 0) (pos 0))
        (send_mouse_report_absolute world 0 0 0 (pos 0)) b₁ second in
    let whole = one ∙ two in
    (
      ap (λ (r : OtgBackend × Outcome). r.1) whole ∙ third,
      ap (λ (r : OtgBackend × Outcome). r.0.monitored) whole ∙ kept,
    )

-- Where each device is not configured or takes reports, `shutdown` succeeds: no handle is held, the monitor
-- has stopped, and the backend is neither initialised nor online and has no error.
pub shut_down-succeeds :
    (world : World) (b : OtgBackend)
    → ((d : DeviceType) → IsQuiet world b d)
    → let r = shut_down world b in
      (r.1 ≡ done)
      × ((d : DeviceType) → r.0.opened d ≡ false)
      × (r.0.monitored ≡ false)
      × (r.0.runtime.initialized ≡ false)
      × (r.0.runtime.online ≡ false)
      × (r.0.runtime.last_error ≡ none)
unfolding shut_down close_devices clear_error notify
shut_down-succeeds world b quiet =
    let b₀ = record b { monitored = false } in
    let (ok, kept) = reset-succeeds world b₀ quiet in
    rw (then-done (reset world) close_devices b₀ ok)
      (refl, λ d. refl, kept, ground arith, ground arith, ground arith)

ensure_device-gone :
    (world : World) (d : DeviceType) (path : String) (b : OtgBackend)
    → b.paths d ≡ some path
    → (world.node d).exists ≡ false
    → let reason = str_append "Device not found: " path in
      ensure_device world d b
      ≡ (with_error reason "enoent" (set_opened d false b), failed (hid_error reason "enoent"))
unfolding ensure_device ensure_path
ensure_device-gone world d path b configured gone = rw (configured, gone) refl

reset_keyboard-gone :
    (world : World) (path : String) (b : OtgBackend)
    → b.paths DeviceType.keyboard ≡ some path
    → (world.node DeviceType.keyboard).exists ≡ false
    → let reason = str_append "Device not found: " path in
      reset_keyboard world b ≡ (
        with_error reason "enoent" (
            set_opened DeviceType.keyboard false
              (record b { keyboard_state = clear b.keyboard_state })),
        failed (hid_error reason "enoent"),
      )
unfolding reset_keyboard send_report if_configured
reset_keyboard-gone world path b configured gone =
    let b₀ = record b { keyboard_state = clear b.keyboard_state } in
    rw configured (
      then-stops (ensure_device world DeviceType.keyboard)
        (write_report world DeviceType.keyboard "Failed to write keyboard report"
          (to_bytes (clear b.keyboard_state)) nothing_behind)
        b₀ _ _ (ensure_device-gone world DeviceType.keyboard path b₀ configured gone))

other_device :
    (d : DeviceType) → d ≢ DeviceType.keyboard → same_device DeviceType.keyboard d ≡ false
other_device DeviceType.keyboard other = absurd (other refl)
other_device DeviceType.mouse_relative other = refl
other_device DeviceType.mouse_absolute other = refl
other_device DeviceType.consumer_control other = refl

-- Where the keyboard is configured and its device file is gone, `shutdown` fails with the error of the
-- keyboard's reset and ends there: the monitor has stopped, but the handles of the other devices are still
-- held and the backend still counts as initialised.
pub shut_down-fails :
    (world : World) (path : String) (d : DeviceType) (b : OtgBackend)
    → b.paths DeviceType.keyboard ≡ some path
    → (world.node DeviceType.keyboard).exists ≡ false
    → d ≢ DeviceType.keyboard
    → let r = shut_down world b in
      (r.1 ≡ failed (hid_error (str_append "Device not found: " path) "enoent"))
      × (r.0.opened d ≡ b.opened d)
      × (r.0.monitored ≡ false)
      × (r.0.runtime.initialized ≡ b.runtime.initialized)
unfolding shut_down reset record_error notify
shut_down-fails world path d b configured gone other =
    let b₀ = record b { monitored = false } in
    let first = reset_keyboard-gone world path b₀ configured gone in
    let whole =
      then-stops (reset world) close_devices b₀ _ _
        (then-stops (reset_keyboard world) (reset_mouse world) b₀ _ _ first) in
    rw whole (refl, rw (other_device d other) refl, refl, ground arith)

-- After a key event or a consumer event to a device that is configured, the status agrees with the result:
-- online without an error where the call succeeds, a dropped report included, and else offline with an
-- error.
pub send-Agrees :
    (world : World) (k c : String) (e : KeyboardEvent) (e' : ConsumerEvent) (b : OtgBackend)
    → b.paths DeviceType.keyboard ≡ some k
    → b.paths DeviceType.consumer_control ≡ some c
    → Ensures Agrees (send_keyboard world e b) × Ensures Agrees (send_consumer world e' b)
unfolding send_keyboard send_consumer
send-Agrees world k c e e' b keyboard consumer = (
  send_report-Agrees world DeviceType.keyboard "Failed to write keyboard report" k _ nothing_behind
      _ keyboard,
  send_report-Agrees world DeviceType.consumer_control "Failed to write consumer report" c _ _ b
      consumer,
)
