-- ===== src/Hid/OtgBackend/Reports.antt =====
-- src/hid/otg.rs: `ensure_device`, `write_with_timeout`, and the four methods that send a report.
use one_kvm_stream_box.Base.{
  ℕ, ◌/◌, bit_and, true, false, Option, none, some, List, [], ◌∷◌, ◌++◌, ◌==◌, if◌then◌else◌, u8,
}
use Prim.Native.String.{String, ◌++◌ as str_append}
use one_kvm_stream_box.Base.Int.{ℤ, wrap}
use one_kvm_stream_box.Hid.Event.{}
use one_kvm_stream_box.Hid.Report.{KeyboardReport, to_bytes}
use one_kvm_stream_box.Hid.OtgBackend.{
  Call, DeviceType, IoError, OtgBackend, Poll, World, done, failed, hid_error, internal, online_now,
  poll_failed, ready, set_opened, timed_out, unexpected, with_error, ◌>>◌,
}

unfoldable pub io_error_code : Option ℕ → String
io_error_code none = "io_error"
io_error_code (some n) =
    if n == 32
    then "epipe"
    else if n == 108
    then "eshutdown"
    else if n == 11
    then "eagain"
    else if n == 6
    then "enxio"
    else if n == 19
    then "enodev"
    else if n == 5
    then "eio"
    else if n == 2
    then "enoent"
    else "io_error"

pub data WriteResult : Type 0 where
  written dropped : WriteResult
  write_failed : IoError → WriteResult

abbrev pub write_all : Option IoError → WriteResult
write_all none = written
write_all (some e) = write_failed e

unfoldable pub write_with_timeout : Poll → Option IoError → WriteResult
write_with_timeout (ready true) e =
    write_failed (record { raw_os_error = none; text = "Device error or hangup" })
write_with_timeout (ready false) e = write_all e
write_with_timeout timed_out e = dropped
write_with_timeout unexpected e = dropped
write_with_timeout (poll_failed x) e = write_failed (record { raw_os_error = none; text = x.text })

-- The message of `open_device`.
abbrev pub open_message : String → String → String
open_message path text =
    str_append "Failed to open HID device " (str_append path (str_append ": " text))

unfoldable pub open_or_fail : Option String → DeviceType → String → Call
open_or_fail none d path b = (online_now (set_opened d true b), done)
open_or_fail (some text) d path b = (
  with_error
      (str_append "Failed to reopen HID device "
        (str_append path (str_append ": Internal error: " (open_message path text))))
      "not_opened" b,
  failed (internal (open_message path text)),
)

unfoldable pub ensure_path : Option String → World → DeviceType → Call
ensure_path none world d b =
    (with_error "Device disabled" "disabled" b, failed (hid_error "Device disabled" "disabled"))
ensure_path (some path) world d b =
    if (world.node d).exists
    then (if b.opened d
        then (online_now b, done)
        else open_or_fail (world.node d).open_error d path b)
    else (let reason = str_append "Device not found: " path in
        (with_error reason "enoent" (set_opened d false b), failed (hid_error reason "enoent")))

unfoldable pub ensure_device : World → DeviceType → Call
ensure_device world d b = ensure_path (b.paths d) world d b

-- An error of a write: ESHUTDOWN closes the device, EAGAIN is dropped.
unfoldable pub write_error : DeviceType → String → IoError → Call
write_error d operation e b =
    let reason = str_append operation (str_append ": " e.text) in
    let code = io_error_code e.raw_os_error in
    elim e.raw_os_error [
      | none ↦ (with_error reason code b, failed (hid_error reason code))
      | some n ↦
          if n == 108
          then (
            with_error reason "eshutdown" (set_opened d false b),
            failed (hid_error reason code),
          )
          else if n == 11
          then (b, done)
          else (with_error reason code b, failed (hid_error reason code))
    ]

abbrev pub put : DeviceType → List ℕ → OtgBackend → OtgBackend
put d bytes b = record b { wire = b.wire ++ ((d, bytes) ∷ []) }

-- After the write of a report. `behind` is what follows a report that was written.
unfoldable pub after_write :
    WriteResult → DeviceType → String → List ℕ → (OtgBackend → OtgBackend) → Call
after_write written d operation bytes behind b = (online_now (behind (put d bytes b)), done)
after_write dropped d operation bytes behind b = (b, done)
after_write (write_failed e) d operation bytes behind b = write_error d operation e b

abbrev pub not_opened : DeviceType → String
not_opened DeviceType.keyboard = "Keyboard device not opened"
not_opened DeviceType.mouse_relative = "Relative mouse device not opened"
not_opened DeviceType.mouse_absolute = "Absolute mouse device not opened"
not_opened DeviceType.consumer_control = "Consumer control device not opened"

unfoldable pub write_report :
    World → DeviceType → String → List ℕ → (OtgBackend → OtgBackend) → Call
write_report world d operation bytes behind b =
    if b.opened d
    then after_write (write_with_timeout (world.node d).poll (world.node d).write_error) d operation
        bytes behind b
    else (b, failed (hid_error (not_opened d) "not_opened"))

-- Nothing is done for a device that is not configured.
unfoldable pub if_configured : Option String → Call → Call
if_configured none m b = (b, done)
if_configured (some path) m b = m b

-- The body that the four methods share.
unfoldable pub send_report : World → DeviceType → String → List ℕ → (OtgBackend → OtgBackend) → Call
send_report world d operation bytes behind b =
    if_configured (b.paths d) (ensure_device world d >> write_report world d operation bytes behind)
      b

abbrev pub nothing_behind : OtgBackend → OtgBackend
nothing_behind b = b

abbrev pub send_keyboard_report : World → KeyboardReport → Call
send_keyboard_report world report =
    send_report world DeviceType.keyboard "Failed to write keyboard report" (to_bytes report)
      nothing_behind

abbrev pub send_mouse_report_relative : World → ℕ → ℤ → ℤ → ℤ → Call
send_mouse_report_relative world buttons dx dy wheel =
    send_report world DeviceType.mouse_relative "Failed to write mouse report"
      (buttons ∷ wrap 256 dx ∷ wrap 256 dy ∷ wrap 256 wheel ∷ []) nothing_behind

abbrev pub send_mouse_report_absolute : World → ℕ → ℕ → ℕ → ℤ → Call
send_mouse_report_absolute world buttons x y wheel =
    send_report world DeviceType.mouse_absolute "Failed to write mouse report"
      (buttons
        ∷ u8 (bit_and x 0xFF)
        ∷ u8 (x / 256)
        ∷ u8 (bit_and y 0xFF)
        ∷ u8 (y / 256)
        ∷ wrap 256 wheel
        ∷ [])
      nothing_behind

-- The second report, whose failure is ignored.
unfoldable pub release_behind : WriteResult → OtgBackend → OtgBackend
release_behind written b = put DeviceType.consumer_control (0 ∷ 0 ∷ []) b
release_behind dropped b = b
release_behind (write_failed e) b = b

abbrev pub send_consumer_report : World → ℕ → Call
send_consumer_report world usage =
    send_report world DeviceType.consumer_control "Failed to write consumer report"
      (u8 (bit_and usage 0xFF) ∷ u8 (usage / 256) ∷ [])
      (release_behind (write_with_timeout world.release_poll world.release_error))
