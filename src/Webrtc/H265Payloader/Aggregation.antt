-- ===== src/Webrtc/H265Payloader/Aggregation.antt =====
-- The packet that carries the parameter sets, and what a receiver of RFC 7798 reads from it.
use mathlib.Core.Option
use one_kvm_stream_box.Base.{
  ℕ, zero, suc, ◌+◌, ◌*◌, ◌/◌, ◌%◌, ◌^◌, ◌≤◌, ◌<◌, ◌≡◌, refl, sym, ap, ◌∙◌, false, Option, none,
  some, List, [], ◌∷◌, ◌++◌, append-nil, arith, ltb, leb, ◌==◌, if◌then◌else◌, length, take, drop,
  All, length-append, take-length-append, drop-length-append, u16,
}
use one_kvm_stream_box.Webrtc.H265Payloader.{
  H265Payloader, new, get_nal_type, with_size, ap_payload_hdr, try_emit_aggregation_packet, emit,
  emit_fragmented, payload,
}
use one_kvm_stream_box.Webrtc.H265Payloader.Units.{Coded, IsClean, stream, emit_all, payload_units}

-- The receiver: units of a size of two bytes, high byte first, and as many bytes, to the end. Each
-- round takes a byte at least, so the length of the packet is enough fuel.
unfoldable pub read_units : ℕ → List ℕ → Option (List (List ℕ))
read_units fuel [] = some []
read_units fuel (b ∷ []) = none
read_units zero (b₁ ∷ b₀ ∷ bytes) = none
read_units (suc fuel) (b₁ ∷ b₀ ∷ bytes) =
    let size = b₁ * 256 + b₀ in
    let rest = read_units fuel (drop size bytes) in
    if ltb (length bytes) size then none else Option.map (λ us. take size bytes ∷ us) rest

unfoldable pub read_aggregation : List ℕ → Option (List (List ℕ))
read_aggregation p = if get_nal_type p == 48 then read_units (length p) (drop 2 p) else none

read-with_size :
    (fuel : ℕ) (nalu rest : List ℕ) (us : List (List ℕ))
    → length nalu < 2 ^ 16
    → read_units fuel rest ≡ some us
    → read_units (suc fuel) (with_size nalu ++ rest) ≡ some (nalu ∷ us)
unfolding read_units
read-with_size fuel nalu rest us h r =
    let size : u16 (length nalu) / 256 * 256 + u16 (length nalu) % 256 ≡ length nalu =
      omega arith in
    let long = length-append nalu rest in
    let guard : ltb (length (nalu ++ rest)) (length nalu) ≡ false = ground (arith, long) in
    rw (size, guard, drop-length-append nalu rest, r, take-length-append nalu rest) refl

-- The packet of three units.
abbrev pub packet_of : List ℕ → List ℕ → List ℕ → List ℕ
packet_of vps sps pps = ap_payload_hdr ++ (with_size vps ++ (with_size sps ++ with_size pps))

length-packet_of :
    (vps sps pps : List ℕ)
    → length (packet_of vps sps pps) ≡ suc (suc (suc (5 + length vps + length sps + length pps)))
length-packet_of vps sps pps =
    omega
      (arith, length-append vps (with_size sps ++ with_size pps), length-append sps (with_size pps))

get_nal_type-packet_of : (vps sps pps : List ℕ) → get_nal_type (packet_of vps sps pps) ≡ 48
unfolding get_nal_type
get_nal_type-packet_of vps sps pps = ground (arith, length-packet_of vps sps pps)

read-packet_of :
    (vps sps pps : List ℕ)
    → length vps < 2 ^ 16
    → length sps < 2 ^ 16
    → length pps < 2 ^ 16
    → read_aggregation (packet_of vps sps pps) ≡ some (vps ∷ sps ∷ pps ∷ [])
unfolding read_aggregation read_units
read-packet_of vps sps pps hv hs hp =
    let k = 5 + length vps + length sps + length pps in
    let last =
      ap (read_units (suc k)) (sym (append-nil (with_size pps)))
      ∙ read-with_size k pps [] [] hp refl in
    let middle = read-with_size (suc k) sps (with_size pps) (pps ∷ []) hs last in
    let all =
      read-with_size (suc (suc k)) vps (with_size sps ++ with_size pps) (sps ∷ pps ∷ []) hv
        middle in
    rw (get_nal_type-packet_of vps sps pps) (
      ap (λ (n : ℕ). read_units n (with_size vps ++ (with_size sps ++ with_size pps)))
        (length-packet_of vps sps pps)
      ∙ all)

emit-vps :
    (s : H265Payloader) (n : List ℕ) (mtu : ℕ) (payloads : List (List ℕ))
    → get_nal_type n ≡ 32
    → 2 ≤ length n
    → emit s n mtu payloads ≡ (record s { vps_nalu = some n }, payloads)
unfolding emit
emit-vps s n mtu payloads h l = ground arith

emit-sps :
    (s : H265Payloader) (n : List ℕ) (mtu : ℕ) (payloads : List (List ℕ))
    → get_nal_type n ≡ 33
    → 2 ≤ length n
    → emit s n mtu payloads ≡ (record s { sps_nalu = some n }, payloads)
unfolding emit
emit-sps s n mtu payloads h l = ground arith

emit-pps :
    (s : H265Payloader) (n : List ℕ) (mtu : ℕ) (payloads : List (List ℕ))
    → get_nal_type n ≡ 34
    → 2 ≤ length n
    → emit s n mtu payloads ≡ (record s { pps_nalu = some n }, payloads)
unfolding emit
emit-pps s n mtu payloads h l = ground arith

-- A coded slice: a unit of types 0 to 31.
abbrev pub IsSlice : List ℕ → Type 0
IsSlice n = (get_nal_type n ≤ 31) × (2 ≤ length n)

abbrev pub payloads_of : List ℕ → ℕ → List (List ℕ) → List (List ℕ)
payloads_of n mtu sent = if leb (length n) mtu then sent ++ (n ∷ []) else emit_fragmented n mtu sent

emit-slice :
    (s : H265Payloader) (n : List ℕ) (mtu : ℕ) (payloads : List (List ℕ))
    → IsSlice n
    → emit s n mtu payloads ≡ (
      (try_emit_aggregation_packet s mtu payloads).0,
      payloads_of n mtu (try_emit_aggregation_packet s mtu payloads).1,
    )
unfolding emit
emit-slice s n mtu payloads h = let (slice, long) = h in ground (arith, slice, long)

-- With all three sets and room in a packet for them.
aggregate-fits :
    (vps sps pps : List ℕ) (mtu : ℕ) (payloads : List (List ℕ))
    → 8 + length vps + length sps + length pps ≤ mtu
    → try_emit_aggregation_packet
        (record { vps_nalu = some vps; sps_nalu = some sps; pps_nalu = some pps })
        mtu
        payloads
      ≡ (new, payloads ++ (packet_of vps sps pps ∷ []))
unfolding try_emit_aggregation_packet
aggregate-fits vps sps pps mtu payloads h = ground (arith, h)

typed_long : (n : List ℕ) (t : ℕ) → get_nal_type n ≡ suc t → 2 ≤ length n
unfolding get_nal_type
typed_long n t h = ground (arith, h)

emit_all-sets :
    (s : H265Payloader) (v sp pp sl : Coded) (mtu : ℕ)
    → get_nal_type v.nalu ≡ 32
    → get_nal_type sp.nalu ≡ 33
    → get_nal_type pp.nalu ≡ 34
    → IsSlice sl.nalu
    → 8 + length v.nalu + length sp.nalu + length pp.nalu ≤ mtu
    → emit_all s (v ∷ sp ∷ pp ∷ sl ∷ []) mtu []
      ≡ (new, payloads_of sl.nalu mtu (packet_of v.nalu sp.nalu pp.nalu ∷ []))
unfolding emit_all
emit_all-sets s v sp pp sl mtu hv hs hp slice fits =
    let s₁ : H265Payloader = record s { vps_nalu = some v.nalu } in
    let s₂ : H265Payloader = record s₁ { sps_nalu = some sp.nalu } in
    let s₃ : H265Payloader = record s₂ { pps_nalu = some pp.nalu } in
    rw
      (
        emit-vps s v.nalu mtu [] hv (typed_long v.nalu 31 hv),
        emit-sps s₁ sp.nalu mtu [] hs (typed_long sp.nalu 32 hs),
        emit-pps s₂ pp.nalu mtu [] hp (typed_long pp.nalu 33 hp),
        emit-slice s₃ sl.nalu mtu [] slice,
        aggregate-fits v.nalu sp.nalu pp.nalu mtu [] fits,
      )
      refl

-- For a packet size below 2 ^ 16 with room for the three sets, and a picture in an Annex B stream, a video, a
-- sequence and a picture parameter set and then a slice, `payload` returns one packet for the three sets,
-- and then the slice or its fragments, and it keeps no set for later. A receiver reads just the three
-- sets, in their order, from the packet, and the packet is no longer than the packet size.
pub payload-parameter_sets :
    (s : H265Payloader) (v sp pp sl : Coded) (mtu : ℕ)
    → All IsClean (v ∷ sp ∷ pp ∷ sl ∷ [])
    → get_nal_type v.nalu ≡ 32
    → get_nal_type sp.nalu ≡ 33
    → get_nal_type pp.nalu ≡ 34
    → IsSlice sl.nalu
    → 8 + length v.nalu + length sp.nalu + length pp.nalu ≤ mtu
    → mtu < 2 ^ 16
    → (payload s mtu (stream (v ∷ sp ∷ pp ∷ sl ∷ []))
        ≡ (new, payloads_of sl.nalu mtu (packet_of v.nalu sp.nalu pp.nalu ∷ [])))
      × (read_aggregation (packet_of v.nalu sp.nalu pp.nalu)
          ≡ some (v.nalu ∷ sp.nalu ∷ pp.nalu ∷ []))
      × (length (packet_of v.nalu sp.nalu pp.nalu) ≤ mtu)
payload-parameter_sets s v sp pp sl mtu clean hv hs hp slice fits small = (
  payload_units s v (sp ∷ pp ∷ sl ∷ []) mtu (omega arith) clean
      ∙ emit_all-sets s v sp pp sl mtu hv hs hp slice fits,
  read-packet_of v.nalu sp.nalu pp.nalu (omega arith) (omega arith) (omega arith),
  omega (arith, length-packet_of v.nalu sp.nalu pp.nalu),
)
