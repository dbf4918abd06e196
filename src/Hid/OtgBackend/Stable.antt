-- ===== src/Hid/OtgBackend/Stable.antt =====
-- A property that neither the status nor the handles matter to is kept by a report, where it is kept by
-- the report's bytes on the wire.
use one_kvm_stream_box.Base.{
  ℕ, ◌≡◌, refl, inl, inr, Bool, Option, none, some, List, ◌==◌, Bool-cases,
}
use Prim.Native.String.{String}
use one_kvm_stream_box.Hid.Ch9329.Runtime.{RuntimeState}
use one_kvm_stream_box.Hid.OtgBackend.{DeviceType, IoError, World, OtgBackend, Call, ◌>>◌}
use one_kvm_stream_box.Hid.OtgBackend.Reports.{
  put, open_or_fail, ensure_path, ensure_device, WriteResult, written, dropped, write_failed,
  write_error, after_write, write_report, if_configured, send_report, write_with_timeout,
}
use one_kvm_stream_box.Hid.OtgBackend.Calls.{then-Ensures}

abbrev pub IsStable : (OtgBackend → Type 0) → Type 0
IsStable P =
    (b : OtgBackend) (r : RuntimeState) (o : DeviceType → Bool)
    → P b
    → P (record b { runtime = r; opened = o })

-- A call that keeps the property.
abbrev pub Keeps : (OtgBackend → Type 0) → Call → Type 0
Keeps P m = (b : OtgBackend) → P b → P (m b).0

pub then-Keeps : (P : OtgBackend → Type 0) (m k : Call) → Keeps P m → Keeps P k → Keeps P (m >> k)
then-Keeps P m k hm hk b h =
    then-Ensures (λ r b'. P b') (λ r b'. P b') m k b (hm b h) (λ e b' p. p) (λ b' p. hk b' p)

module _ (P : OtgBackend → Type 0) (stable : IsStable P) where
  open_or_fail-Keeps :
      (o : Option String) (d : DeviceType) (path : String) → Keeps P (open_or_fail o d path)
  unfolding open_or_fail
  open_or_fail-Keeps none d path b h = stable b _ _ h
  open_or_fail-Keeps (some text) d path b h = stable b _ b.opened h

  ensure_path-Keeps :
      (o : Option String) (world : World) (d : DeviceType) → Keeps P (ensure_path o world d)
  unfolding ensure_path
  ensure_path-Keeps none world d b h = stable b _ b.opened h
  ensure_path-Keeps (some path) world d b h = elim (Bool-cases (world.node d).exists) [
    | inr gone ↦ rw gone (stable b _ _ h)
    | inl there ↦ elim (Bool-cases (b.opened d)) [
      | inl held ↦ rw (there, held) (stable b _ b.opened h)
      | inr closed ↦ rw (there, closed) (open_or_fail-Keeps (world.node d).open_error d path b h)
    ]
  ]

  write_error-Keeps :
      (d : DeviceType) (operation : String) (e : IoError) → Keeps P (write_error d operation e)
  unfolding write_error
  write_error-Keeps d operation e b h = go e.raw_os_error refl
    where
      go : (o : Option ℕ) → e.raw_os_error ≡ o → P (write_error d operation e b).0
      go none is = rw is (stable b _ b.opened h)
      go (some n) is = elim (Bool-cases (n == 108)) [
        | inl shut ↦ rw (is, shut) (stable b _ _ h)
        | inr other ↦ elim (Bool-cases (n == 11)) [
          | inl busy ↦ rw (is, other, busy) h
          | inr rest ↦ rw (is, other, rest) (stable b _ b.opened h)
        ]
      ]

  module _ (d : DeviceType) (bytes : List ℕ) (behind : OtgBackend → OtgBackend)
      (writes : (b : OtgBackend) → P b → P (behind (put d bytes b))) where
    after_write-Keeps :
        (r : WriteResult) (operation : String) → Keeps P (after_write r d operation bytes behind)
    unfolding after_write
    after_write-Keeps written operation b h =
        let b' = behind (put d bytes b) in stable b' _ b'.opened (writes b h)
    after_write-Keeps dropped operation b h = h
    after_write-Keeps (write_failed e) operation b h = write_error-Keeps d operation e b h

    write_report-Keeps :
        (world : World) (operation : String) → Keeps P (write_report world d operation bytes behind)
    unfolding write_report
    write_report-Keeps world operation b h = elim (Bool-cases (b.opened d)) [
      | inl held ↦ rw held (
          after_write-Keeps (write_with_timeout (world.node d).poll (world.node d).write_error)
            operation b h)
      | inr closed ↦ rw closed h
    ]

    if_configured-Keeps : (o : Option String) (m : Call) → Keeps P m → Keeps P (if_configured o m)
    unfolding if_configured
    if_configured-Keeps none m hm b h = h
    if_configured-Keeps (some path) m hm b h = hm b h

    pub send_report-Keeps :
        (world : World) (operation : String) → Keeps P (send_report world d operation bytes behind)
    unfolding send_report ensure_device
    send_report-Keeps world operation b h =
        if_configured-Keeps (b.paths d)
          (ensure_device world d >> write_report world d operation bytes behind)
          (then-Keeps P (ensure_device world d) (write_report world d operation bytes behind)
            (λ b' h'. ensure_path-Keeps (b'.paths d) world d b' h')
            (write_report-Keeps world operation))
          b h
