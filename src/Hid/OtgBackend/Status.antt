-- ===== src/Hid/OtgBackend/Status.antt =====
-- The status after a call: online without an error where the call succeeds, and else offline with one.
use one_kvm_stream_box.Base.{
  ℕ, ◌≡◌, refl, inl, inr, true, false, Option, none, some, List, arith, ◌==◌, Bool-cases,
}
use Prim.Native.String.{String}
use one_kvm_stream_box.Hid.Ch9329.Runtime.{RuntimeState, notify, is_some}
use one_kvm_stream_box.Hid.OtgBackend.Calls.{Post, Ensures, then-Ensures, same_device_refl}
use one_kvm_stream_box.Hid.OtgBackend.{
  DeviceType, IoError, World, OtgBackend, done, failed, record_error, mark_online,
}
use one_kvm_stream_box.Hid.OtgBackend.Reports.{
  open_or_fail, ensure_path, ensure_device, WriteResult, written, dropped, write_failed,
  write_error, after_write, write_report, if_configured, send_report, write_with_timeout,
}

pub record IsOnline (r : RuntimeState) : Type 0 where
  pub online : r.online ≡ true
  pub no_error : r.last_error ≡ none

pub record IsFaulty (r : RuntimeState) : Type 0 where
  pub offline : r.online ≡ false
  pub has_error : is_some r.last_error ≡ true

-- What the status says beside the result of a call.
abbrev pub Agrees : Post
Agrees done b = IsOnline b.runtime
Agrees (failed e) b = IsFaulty b.runtime

-- A device that is ready is open too.
abbrev pub IsReady : DeviceType → Post
IsReady d done b = IsOnline b.runtime × (b.opened d ≡ true)
IsReady d (failed e) b = IsFaulty b.runtime

mark_online-IsOnline : (r : RuntimeState) → IsOnline (mark_online r)
unfolding mark_online notify
mark_online-IsOnline r = record { online = ground arith; no_error = ground arith }

record_error-IsFaulty :
    (reason code : String) (r : RuntimeState) → IsFaulty (record_error reason code r)
unfolding record_error notify
record_error-IsFaulty reason code r = record { offline = ground arith; has_error = ground arith }

open_or_fail-IsReady :
    (o : Option String) (d : DeviceType) (path : String) (b : OtgBackend)
    → Ensures (IsReady d) (open_or_fail o d path b)
unfolding open_or_fail
open_or_fail-IsReady none d path b =
    (mark_online-IsOnline b.runtime, ground (arith, same_device_refl d))
open_or_fail-IsReady (some text) d path b = record_error-IsFaulty _ "not_opened" b.runtime

ensure_path-IsReady :
    (o : Option String) (world : World) (d : DeviceType) (b : OtgBackend)
    → Ensures (IsReady d) (ensure_path o world d b)
unfolding ensure_path
ensure_path-IsReady none world d b = record_error-IsFaulty "Device disabled" "disabled" b.runtime
ensure_path-IsReady (some path) world d b = elim (Bool-cases (world.node d).exists) [
  | inr gone ↦ rw gone (record_error-IsFaulty _ "enoent" b.runtime)
  | inl there ↦ elim (Bool-cases (b.opened d)) [
    | inl held ↦ rw (there, held) (mark_online-IsOnline b.runtime, held)
    | inr closed ↦ rw (there, closed) (open_or_fail-IsReady (world.node d).open_error d path b)
  ]
]

write_error-Agrees :
    (d : DeviceType) (operation : String) (e : IoError) (b : OtgBackend)
    → IsOnline b.runtime
    → Ensures Agrees (write_error d operation e b)
unfolding write_error
write_error-Agrees d operation e b h = go e.raw_os_error refl
  where
    go : (o : Option ℕ) → e.raw_os_error ≡ o → Ensures Agrees (write_error d operation e b)
    go none is = rw is (record_error-IsFaulty _ _ b.runtime)
    go (some n) is = elim (Bool-cases (n == 108)) [
      | inl shut ↦ rw (is, shut) (record_error-IsFaulty _ "eshutdown" b.runtime)
      | inr other ↦ elim (Bool-cases (n == 11)) [
        | inl busy ↦ rw (is, other, busy) h
        | inr rest ↦ rw (is, other, rest) (record_error-IsFaulty _ _ b.runtime)
      ]
    ]

after_write-Agrees :
    (r : WriteResult) (d : DeviceType) (operation : String) (bytes : List ℕ)
    (behind : OtgBackend → OtgBackend) (b : OtgBackend)
    → IsOnline b.runtime
    → Ensures Agrees (after_write r d operation bytes behind b)
unfolding after_write
after_write-Agrees written d operation bytes behind b h = mark_online-IsOnline _
after_write-Agrees dropped d operation bytes behind b h = h
after_write-Agrees (write_failed e) d operation bytes behind b h =
    write_error-Agrees d operation e b h

write_report-Agrees :
    (world : World) (d : DeviceType) (operation : String) (bytes : List ℕ)
    (behind : OtgBackend → OtgBackend) (b : OtgBackend)
    → IsOnline b.runtime
    → b.opened d ≡ true
    → Ensures Agrees (write_report world d operation bytes behind b)
unfolding write_report
write_report-Agrees world d operation bytes behind b h open_now = rw open_now (
    after_write-Agrees (write_with_timeout (world.node d).poll (world.node d).write_error) d
      operation bytes behind b h)

pub send_report-Agrees :
    (world : World) (d : DeviceType) (operation path : String) (bytes : List ℕ)
    (behind : OtgBackend → OtgBackend) (b : OtgBackend)
    → b.paths d ≡ some path
    → Ensures Agrees (send_report world d operation bytes behind b)
unfolding send_report ensure_device if_configured
send_report-Agrees world d operation path bytes behind b configured = rw configured (
    then-Ensures (IsReady d) Agrees (ensure_device world d)
      (write_report world d operation bytes behind) b (ensure_path-IsReady (b.paths d) world d b)
      (λ e b' faulty. faulty)
      (λ b' ready. write_report-Agrees world d operation bytes behind b' ready.0 ready.1))
