-- ===== src/Otg/Endpoint.antt =====
-- src/otg/endpoint.rs: how many endpoints of the controller the gadget's functions use.
pub mod Allocation
mod Examples
use one_kvm_stream_box.Base.{
  ℕ, zero, suc, ◌+◌, ◌-◌, ◌*◌, ◌/◌, ◌%◌, ◌^◌, ◌≤◌, ◌<◌, min, max, bit_and, bit_or, ◌≡◌, refl, sym,
  ap, ◌∙◌, ◌≢◌, ◌↔◌, ◌⊎◌, inl, inr, Bool, true, false, not, ◌&&◌, ◌||◌, Option, none, some, List,
  [], ◌∷◌, ◌++◌, map, append-nil, append_assoc, arith, ltb, leb, ◌==◌, ◌!=◌, if◌then◌else◌, eqb,
  eqb→eq, ==_iff, &&→both, Bool-cases, Option-cases, all_below, all_below_sound, both, both_sound,
  length, get_elem?, get_or, take, drop, replicate, All, All-append, get_or-All, All-map, drop-drop,
  take-all, length-append, take-append-drop, length-take, length-drop, take-length-append,
  drop-length-append, take-append_short, drop-append_short, length-replicate, u8, u16, u32, IsByte,
  u16_to_le_bytes, u32_to_le_bytes, u16_to_be_bytes, u16_from_le_bytes,
}

pub record EndpointAllocator : Type 0 where
  pub max_endpoints : ℕ  -- u8
  pub used_endpoints : ℕ  -- u8

abbrev pub default_max_endpoints : ℕ
default_max_endpoints = 16

abbrev pub new : ℕ → EndpointAllocator
new max = record { max_endpoints = max; used_endpoints = 0 }

-- The sum of two `u8` wraps in a release build. `true` is the source's `Ok`.
unfoldable pub allocate : EndpointAllocator → ℕ → EndpointAllocator × Bool
allocate a count =
    if ltb a.max_endpoints (u8 (a.used_endpoints + count))
    then (a, false)
    else (record a { used_endpoints = u8 (a.used_endpoints + count) }, true)

-- `saturating_sub`
unfoldable pub release : EndpointAllocator → ℕ → EndpointAllocator
release a count = record a { used_endpoints = a.used_endpoints - count }

unfoldable pub available : EndpointAllocator → ℕ
available a = a.max_endpoints - a.used_endpoints

unfoldable pub can_allocate : EndpointAllocator → ℕ → Bool
can_allocate a count = leb count (available a)
