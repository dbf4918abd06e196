-- ===== src/Webrtc/H265Payloader/Fragments.antt =====
-- The loop that cuts a large NAL unit into packets.
use one_kvm_stream_box.Base.{
  ℕ, zero, suc, ◌+◌, ◌-◌, ◌^◌, ◌≤◌, ◌<◌, min, ◌≡◌, sym, ◌∙◌, inl, inr, List, [], ◌∷◌, ◌++◌,
  append-nil, append_assoc, arith, ltb, if◌then◌else◌, Bool-cases, length, drop, All, All-map,
  length-take, length-drop,
}
use one_kvm_stream_box.Webrtc.H265Payloader.{
  get_nal_type, sub_usize, fu_packet, fragment_loop, emit_fragmented,
}

-- The packets of the bytes from `offset` on, by themselves.
unfoldable pub fragments : ℕ → List ℕ → ℕ → ℕ → ℕ → List (List ℕ)
fragments zero nalu t size offset = []
fragments (suc fuel) nalu t size offset =
    let full = length (drop 2 nalu) in
    let n = min (full - offset) size in
    let rest = fragments fuel nalu t size (offset + n) in
    if ltb offset full then fu_packet nalu t offset n ∷ rest else []

fragment_loop-fragments :
    (fuel : ℕ) (nalu : List ℕ) (t size offset : ℕ) (payloads : List (List ℕ))
    → fragment_loop fuel nalu t size offset payloads ≡ payloads ++ fragments fuel nalu t size offset
unfolding fragment_loop fragments
fragment_loop-fragments zero nalu t size offset payloads = sym (append-nil payloads)
fragment_loop-fragments (suc fuel) nalu t size offset payloads =
    elim (Bool-cases (ltb offset (length (drop 2 nalu)))) [
      | inl more ↦
          let n = min (length (drop 2 nalu) - offset) size in
          let packet = fu_packet nalu t offset n in
          rw more (
            fragment_loop-fragments fuel nalu t size (offset + n) (payloads ++ (packet ∷ []))
            ∙ append_assoc payloads (packet ∷ []) (fragments fuel nalu t size (offset + n)))
      | inr done ↦ rw done (sym (append-nil payloads))
    ]

length-fu_packet :
    (nalu : List ℕ) (t offset n : ℕ)
    → length (fu_packet nalu t offset n) ≡ 3 + min n (length (drop 2 nalu) - offset)
unfolding fu_packet
length-fu_packet nalu t offset n =
    omega (arith, length-take n (drop offset (drop 2 nalu)), length-drop offset (drop 2 nalu))

fragments-fit :
    (fuel : ℕ) (nalu : List ℕ) (t size offset : ℕ)
    → All (λ p. length p ≤ 3 + size) (fragments fuel nalu t size offset)
unfolding fragments
fragments-fit zero nalu t size offset = tt
fragments-fit (suc fuel) nalu t size offset =
    elim (Bool-cases (ltb offset (length (drop 2 nalu)))) [
      | inl more ↦
          let n = min (length (drop 2 nalu) - offset) size in
          rw more (
            omega (arith, length-fu_packet nalu t offset n),
            fragments-fit fuel nalu t size (offset + n),
          )
      | inr done ↦ rw done tt
    ]

-- For a unit of more than its header and a packet size of four bytes at least, what `emit_fragmented`
-- appends are the fragments of `mtu - 3` bytes each.
pub emit_fragmented-fragments :
    (nalu : List ℕ) (mtu : ℕ) (payloads : List (List ℕ))
    → 4 ≤ mtu
    → mtu < 2 ^ 64
    → 2 < length nalu
    → emit_fragmented nalu mtu payloads
      ≡ payloads ++ fragments (length nalu - 2) nalu (get_nal_type nalu) (mtu - 3) 0
unfolding emit_fragmented
emit_fragmented-fragments nalu mtu payloads hm hm' h =
    let size : sub_usize (sub_usize mtu 2) 1 ≡ mtu - 3 = omega arith in
    let full = length-drop 2 nalu in
    ground (
      arith,
      size,
      full,
      fragment_loop-fragments (length nalu - 2) nalu (get_nal_type nalu) (mtu - 3) 0 payloads,
    )

-- A unit of more than its header, cut for a packet size of four bytes at least, gives fragments that
-- are no longer than the packet size.
pub emit_fragmented-fits :
    (nalu : List ℕ) (mtu : ℕ)
    → 4 ≤ mtu
    → mtu < 2 ^ 64
    → 2 < length nalu
    → All (λ p. length p ≤ mtu) (emit_fragmented nalu mtu [])
emit_fragmented-fits nalu mtu hm hm' h = rw (emit_fragmented-fragments nalu mtu [] hm hm' h) (
    All-map (λ p. length p ≤ 3 + (mtu - 3)) (λ p l. omega arith) _
      (fragments-fit (length nalu - 2) nalu (get_nal_type nalu) (mtu - 3) 0))
