-- ===== src/Otg/Endpoint/Allocation.antt =====
-- The test `can_allocate`, which the gadget manager makes before it allocates.
use one_kvm_stream_box.Base.{ℕ, ◌+◌, ◌-◌, ◌≤◌, ◌<◌, ◌≡◌, refl, ap, true, false, arith, ltb, u8}
use one_kvm_stream_box.Otg.Endpoint.{EndpointAllocator, allocate, release, available, can_allocate}

abbrev pub IsValid : EndpointAllocator → Type 0
IsValid a = (a.used_endpoints ≤ a.max_endpoints) × (a.max_endpoints < 256)

allocate_kept :
    (a : EndpointAllocator) (count : ℕ)
    → IsValid a
    → can_allocate a count ≡ true
    → allocate a count ≡ (record a { used_endpoints = a.used_endpoints + count }, true)
unfolding allocate can_allocate available
allocate_kept a count valid can =
    let (used, small) = valid in
    let room : a.used_endpoints + count ≤ a.max_endpoints = ground (arith, can, used) in
    let sum : u8 (a.used_endpoints + count) ≡ a.used_endpoints + count =
      omega (arith, room, small) in
    let guard : ltb a.max_endpoints (a.used_endpoints + count) ≡ false = ground (arith, room) in
    rw (sum, guard) refl

-- In an allocator that uses no more than its maximum, itself a byte, a count that `can_allocate`
-- allows is allocated: the call succeeds, the number of available endpoints falls by the count, and the
-- allocator is still within its maximum; giving the count back restores it. So the addition of bytes,
-- which wraps, never does so behind the test.
pub allocate-can_allocate :
    (a : EndpointAllocator) (count : ℕ)
    → IsValid a
    → can_allocate a count ≡ true
    → ((allocate a count).1 ≡ true)
      × (available (allocate a count).0 + count ≡ available a)
      × IsValid (allocate a count).0
      × (release (allocate a count).0 count ≡ a)
unfolding available can_allocate release
allocate-can_allocate a count valid can =
    let (used, small) = valid in
    let room : a.used_endpoints + count ≤ a.max_endpoints = ground (arith, can, used) in
    let back : a.used_endpoints + count - count ≡ a.used_endpoints = omega arith in
    rw (allocate_kept a count valid can) (
      refl,
      omega (arith, room),
      (room, small),
      ap (λ (n : ℕ). record a { used_endpoints = n }) back,
    )
