-- ===== src/Hid/OtgBackend/Calls.antt =====
-- What holds after a call, by its result, and of two calls in a row.
use one_kvm_stream_box.Base.{◌≡◌, refl, ap, ◌∙◌, true}
use one_kvm_stream_box.Hid.OtgBackend.{
  DeviceType, same_device, OtgBackend, OtgError, Outcome, done, failed, Call, ◌>>◌,
}

abbrev pub Post : Type 1
Post = Outcome → OtgBackend → Type 0

abbrev pub Ensures : Post → OtgBackend × Outcome → Type 0
Ensures P r = P r.1 r.0

pub then-Ensures :
    (P Q : Post) (m k : Call) (b : OtgBackend)
    → Ensures P (m b)
    → ((e : OtgError) (b' : OtgBackend) → P (failed e) b' → Q (failed e) b')
    → ((b' : OtgBackend) → P done b' → Ensures Q (k b'))
    → Ensures Q ((m >> k) b)
then-Ensures P Q m k b h stop next = go (m b).1 refl
  where
    go : (r : Outcome) → (m b).1 ≡ r → Ensures Q ((m >> k) b)
    go done e = rw (◌>>◌, e) (next (m b).0 (rw e at h))
    go (failed x) e = rw (◌>>◌, e) (stop x (m b).0 (rw e at h))

pub same_device_refl : (d : DeviceType) → same_device d d ≡ true
same_device_refl DeviceType.keyboard = refl
same_device_refl DeviceType.mouse_relative = refl
same_device_refl DeviceType.mouse_absolute = refl
same_device_refl DeviceType.consumer_control = refl

pub then-done : (m k : Call) (b : OtgBackend) → (m b).1 ≡ done → (m >> k) b ≡ k (m b).0
then-done m k b h = rw (◌>>◌, h) refl

pub then-failed :
    (m k : Call) (b : OtgBackend) (e : OtgError)
    → (m b).1 ≡ failed e
    → (m >> k) b ≡ ((m b).0, failed e)
then-failed m k b e h = rw (◌>>◌, h) refl

pub then-stops :
    (m k : Call) (b b' : OtgBackend) (e : OtgError)
    → m b ≡ (b', failed e)
    → (m >> k) b ≡ (b', failed e)
then-stops m k b b' e h =
    then-failed m k b e (ap (λ (r : OtgBackend × Outcome). r.1) h)
    ∙ ap (λ (r : OtgBackend × Outcome). (r.0, failed e)) h
