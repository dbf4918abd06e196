-- ===== src/Hid/Ch9329/Runtime.antt =====
-- src/hid/ch9329.rs, `Ch9329RuntimeState`: the status that the worker reports. Each method is one
-- step: the fields are atomics and a lock that the methods take one after the other, and only the
-- worker's thread and the backend's own calls change them. `notified` counts the messages that
-- `notify` puts on the watch channel.
use Prim.Native.String.{String}
use text.Mathlib.Text.{◌==◌ as str_eq}
use text.Mathlib.TextEquality.{eq_iff}
use one_kvm_stream_box.Base.{
  ℕ, ◌+◌, ◌≡◌, ap, ◌≢◌, ◌⊎◌, inl, inr, Bool, true, false, not, ◌&&◌, ◌||◌, Option, none, some,
  arith, if◌then◌else◌, eqb, Bool-cases,
}

pub record RuntimeState : Type 0 where
  pub initialized : Bool
  pub online : Bool
  pub last_error : Option (String × String)
  pub notified : ℕ

unfoldable pub notify : RuntimeState → RuntimeState
notify r = record r { notified = r.notified + 1 }

abbrev pub is_some : Option (String × String) → Bool
is_some none = false
is_some (some _) = true

unfoldable pub clear_error : RuntimeState → RuntimeState
clear_error r = if is_some r.last_error then notify (record r { last_error = none }) else r

unfoldable pub set_online : RuntimeState → RuntimeState
set_online r =
    let r' = record r { online = true; last_error = none } in
    if not r.online || is_some r.last_error then notify r' else r'

-- `error.as_ref() != Some(&(reason, error_code))`
abbrev pub differs : Option (String × String) → String → String → Bool
differs none reason code = true
differs (some (r, c)) reason code = not (str_eq r reason && str_eq c code)

unfoldable pub set_error : String → String → RuntimeState → RuntimeState
set_error reason code r =
    let r' = record r { online = false; last_error = some (reason, code) } in
    if r.online || differs r.last_error reason code then notify r' else r'

unfoldable pub set_initialized : Bool → RuntimeState → RuntimeState
set_initialized initialized r =
    let r' = record r { initialized = initialized } in
    if eqb r.initialized initialized then r' else notify r'

unfoldable pub set_offline : RuntimeState → RuntimeState
set_offline r = let r' = record r { online = false } in if r.online then notify r' else r'

-- The methods that change the status.
pub data StatusChange : Type 0 where
  clears_error : StatusChange
  goes_online : StatusChange
  fails : String → String → StatusChange
  initializes : Bool → StatusChange
  goes_offline : StatusChange

unfoldable pub apply : StatusChange → RuntimeState → RuntimeState
unfolding notify clear_error set_online set_error set_initialized set_offline
apply clears_error r = clear_error r
apply goes_online r = set_online r
apply (fails reason code) r = set_error reason code r
apply (initializes b) r = set_initialized b r
apply goes_offline r = set_offline r

-- What a subscriber can read.
abbrev pub status : RuntimeState → Bool × Bool × Option (String × String)
status r = (r.initialized, r.online, r.last_error)

differs-true :
    (o : Option (String × String)) (reason code : String)
    → differs o reason code ≡ true
    → some (reason, code) ≢ o
differs-true none reason code d e = cc
differs-true (some (r, c)) reason code d e = ground (arith, eq_iff r reason, eq_iff c code)

differs-false :
    (o : Option (String × String)) (reason code : String)
    → differs o reason code ≡ false
    → some (reason, code) ≡ o
differs-false none reason code d = cc
differs-false (some (r, c)) reason code d = ground (arith, eq_iff r reason, eq_iff c code)

-- A method sends one notification when it changes the status, and none when it leaves the status as
-- it was.
pub notify_iff_changed :
    (m : StatusChange) (r : RuntimeState)
    → ((apply m r).notified ≡ r.notified) × (status (apply m r) ≡ status r)
      ⊎ ((apply m r).notified ≡ r.notified + 1) × (status (apply m r) ≢ status r)
unfolding apply
notify_iff_changed clears_error r = ground arith
notify_iff_changed goes_online r = ground arith
notify_iff_changed (fails reason code) r = elim (Bool-cases r.online) [
  | inl on ↦
      inr (
        ground (arith, on),
        λ e. cc (ap (λ (s : Bool × Bool × Option (String × String)). s.1) e, on),
      )
  | inr off ↦ elim (Bool-cases (differs r.last_error reason code)) [
    | inl d ↦ inr (
      ground (arith, off, d),
      λ e.
          differs-true r.last_error reason code d
            (ground (arith, off, d, ap (λ (s : Bool × Bool × Option (String × String)). s.2) e)),
    )
    | inr d ↦
        inl
          (ground (arith, off, d), ground (arith, off, d, differs-false r.last_error reason code d))
  ]
]
notify_iff_changed (initializes b) r = ground arith
notify_iff_changed goes_offline r = ground arith

pub status-closed :
    (r : RuntimeState)
    → let c = clear_error (set_initialized false (set_offline r)) in
      (c.online ≡ false) × (c.initialized ≡ false) × (c.last_error ≡ none)
unfolding notify clear_error set_initialized set_offline
status-closed r = ground arith
