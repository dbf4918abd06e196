-- ===== src/Hid/OtgBackend/Wire.antt =====
-- What reaches the host.
use one_kvm_stream_box.Base.{
  ℕ, ◌≡◌, refl, ap, inl, inr, true, false, none, some, List, [], ◌∷◌, ◌++◌, arith, Bool-cases,
}
use Prim.Native.String.{String, ◌++◌ as str_append}
use one_kvm_stream_box.Hid.Ch9329.Runtime.{notify}
use one_kvm_stream_box.Hid.OtgBackend.{
  DeviceType, ready, Node, World, OtgBackend, done, failed, hid_error, record_error,
}
use one_kvm_stream_box.Hid.OtgBackend.Reports.{
  open_or_fail, ensure_path, ensure_device, write_error, after_write, write_report, if_configured,
  send_report, write_with_timeout, nothing_behind, io_error_code,
}
use one_kvm_stream_box.Hid.OtgBackend.Calls.{then-done, same_device_refl}

-- The device is there, can be opened, and takes a report.
pub record IsDelivering (n : Node) : Type 0 where
  pub exists : n.exists ≡ true
  pub opens : n.open_error ≡ none
  pub polls : n.poll ≡ ready false
  pub writes : n.write_error ≡ none

-- The backend as `ensure_device` leaves it for a device that is there.
ensure_device-ready :
    (world : World) (d : DeviceType) (path : String) (b : OtgBackend)
    → b.paths d ≡ some path
    → (world.node d).exists ≡ true
    → (world.node d).open_error ≡ none
    → let r = ensure_device world d b in
      (r.1 ≡ done)
      × (r.0.opened d ≡ true)
      × (r.0.wire ≡ b.wire)
      × (r.0.keyboard_state ≡ b.keyboard_state)
unfolding ensure_device ensure_path open_or_fail
ensure_device-ready world d path b configured there opens = elim (Bool-cases (b.opened d)) [
  | inl held ↦ rw (configured, there, held) (refl, held, refl, refl)
  | inr closed ↦
      rw (configured, there, closed, opens) (refl, ground (arith, same_device_refl d), refl, refl)
]

send_report-ready :
    (world : World) (d : DeviceType) (operation path : String) (bytes : List ℕ)
    (behind : OtgBackend → OtgBackend) (b : OtgBackend)
    → b.paths d ≡ some path
    → (ensure_device world d b).1 ≡ done
    → send_report world d operation bytes behind b
      ≡ write_report world d operation bytes behind (ensure_device world d b).0
unfolding send_report if_configured
send_report-ready world d operation path bytes behind b configured ok =
    rw configured
      (then-done (ensure_device world d) (write_report world d operation bytes behind) b ok)

-- A report to a device that takes it is the last on the wire.
pub send_report-delivers :
    (world : World) (d : DeviceType) (operation path : String) (bytes : List ℕ) (b : OtgBackend)
    → b.paths d ≡ some path
    → IsDelivering (world.node d)
    → let r = send_report world d operation bytes nothing_behind b in
      (r.1 ≡ done) × (r.0.wire ≡ b.wire ++ ((d, bytes) ∷ [])) × (r.0.opened d ≡ true)
unfolding write_report after_write write_with_timeout
send_report-delivers world d operation path bytes b configured n =
    let (ok, held, wire, state) = ensure_device-ready world d path b configured n.exists n.opens in
    rw
      (
        send_report-ready world d operation path bytes nothing_behind b configured ok,
        held,
        n.polls,
        n.writes,
      )
      (refl, ap (λ (w : List (DeviceType × List ℕ)). w ++ ((d, bytes) ∷ [])) wire, held)

-- One that is shut down under the write is closed.
pub send_report-shuts :
    (world : World) (d : DeviceType) (operation path text : String) (bytes : List ℕ)
    (b : OtgBackend)
    → b.paths d ≡ some path
    → (world.node d).exists ≡ true
    → (world.node d).open_error ≡ none
    → (world.node d).poll ≡ ready false
    → (world.node d).write_error ≡ some (record { raw_os_error = some 108; text = text })
    → let r = send_report world d operation bytes nothing_behind b in
      let reason = str_append operation (str_append ": " text) in
      (r.1 ≡ failed (hid_error reason "eshutdown"))
      × (r.0.wire ≡ b.wire)
      × (r.0.opened d ≡ false)
      × (r.0.runtime.online ≡ false)
      × (r.0.runtime.last_error ≡ some (reason, "eshutdown"))
unfolding write_report after_write write_with_timeout write_error io_error_code record_error notify
send_report-shuts world d operation path text bytes b configured there opens polls fails =
    let (ok, held, wire, state) = ensure_device-ready world d path b configured there opens in
    rw
      (
        send_report-ready world d operation path bytes nothing_behind b configured ok,
        held,
        polls,
        fails,
      )
      (refl, wire, ground (arith, same_device_refl d), ground arith, ground arith)
