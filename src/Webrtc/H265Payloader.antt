-- ===== src/Webrtc/H265Payloader.antt =====
-- src/webrtc/h265_payloader.rs: the payloads of RTP packets for a stream of H.265 NAL units, by
-- RFC 7798. A byte buffer is a list, and the `payloads` that a method appends to are its last
-- argument and its result.
pub mod Fragments
pub mod Reassembly
pub mod Units
pub mod Aggregation
mod Examples
use one_kvm_stream_box.Base.{
  ℕ, zero, suc, ◌+◌, ◌-◌, ◌*◌, ◌/◌, ◌%◌, ◌^◌, min, Bool, true, false, ◌&&◌, ◌||◌, Option, none,
  some, List, [], ◌∷◌, ◌++◌, bit_and, bit_or, ltb, leb, ◌==◌, if◌then◌else◌, length, get_or, take,
  drop, u8, u16, u16_to_be_bytes,
}

abbrev pub nal_vps : ℕ
nal_vps = 32

abbrev pub nal_sps : ℕ
nal_sps = 33

abbrev pub nal_pps : ℕ
nal_pps = 34

abbrev pub nal_aud : ℕ
nal_aud = 35

abbrev pub nal_filler : ℕ
nal_filler = 38

abbrev pub nal_fu : ℕ
nal_fu = 49

abbrev pub nal_header_size : ℕ
nal_header_size = 2

abbrev pub fu_header_size : ℕ
fu_header_size = 1

-- AP_PAYLOAD_HDR
abbrev pub ap_payload_hdr : List ℕ
ap_payload_hdr = 0x60 ∷ 0x01 ∷ []

pub record H265Payloader : Type 0 where
  pub vps_nalu : Option (List ℕ)
  pub sps_nalu : Option (List ℕ)
  pub pps_nalu : Option (List ℕ)

abbrev pub new : H265Payloader
new = record { vps_nalu = none; sps_nalu = none; pps_nalu = none }

-- The loop of `next_ind`: `i` is the index in the whole buffer of the first byte of the list.
unfoldable pub find_start_code : ℕ → ℕ → List ℕ → Option (ℕ × ℕ)
find_start_code i zero_count [] = none
find_start_code i zero_count (b ∷ bytes) =
    let rest = find_start_code (i + 1) (if b == 0 then zero_count + 1 else 0) bytes in
    if b == 0
    then rest
    else if b == 1 && leb 2 zero_count
    then some (i - zero_count, zero_count + 1)
    else rest

-- Where the next start code begins, and its length; `none` is the source's (-1, -1).
unfoldable pub next_ind : List ℕ → ℕ → Option (ℕ × ℕ)
next_ind nalu start = find_start_code start 0 (drop start nalu)

unfoldable pub get_nal_type : List ℕ → ℕ
get_nal_type nalu = if ltb (length nalu) 2 then 0 else bit_and (get_or nalu 0 0 / 2) 0x3F

-- `usize` subtraction in a release build, which wraps.
abbrev pub sub_usize : ℕ → ℕ → ℕ
sub_usize a b = (a + 2 ^ 64 - b) % 2 ^ 64

unfoldable pub fu_header : ℕ → Bool → Bool → ℕ
fu_header nal_type first last =
    let h = if first then bit_or nal_type 0x80 else nal_type in if last then bit_or h 0x40 else h

-- One packet of a fragmented unit: the bytes of `nalu_payload` from `offset` on.
unfoldable pub fu_packet : List ℕ → ℕ → ℕ → ℕ → List ℕ
fu_packet nalu nal_type offset fragment_size =
    let nalu_payload = drop nal_header_size nalu in
    bit_or (bit_and (get_or nalu 0 0) 0x81) (u8 (nal_fu * 2))
    ∷ get_or nalu 1 0
    ∷ fu_header nal_type (offset == 0) (leb (length nalu_payload) (offset + fragment_size))
    ∷ take fragment_size (drop offset nalu_payload)

-- The `while` loop on fuel; a round takes a byte at least, so the payload's length is enough.
unfoldable pub fragment_loop : ℕ → List ℕ → ℕ → ℕ → ℕ → List (List ℕ) → List (List ℕ)
fragment_loop zero nalu nal_type max_fragment_size offset payloads = payloads
fragment_loop (suc fuel) nalu nal_type max_fragment_size offset payloads =
    let full_nalu_size = length (drop nal_header_size nalu) in
    let fragment_size = min (full_nalu_size - offset) max_fragment_size in
    let rest =
      fragment_loop fuel nalu nal_type max_fragment_size (offset + fragment_size)
        (payloads ++ (fu_packet nalu nal_type offset fragment_size ∷ [])) in
    if ltb offset full_nalu_size then rest else payloads

unfoldable pub emit_fragmented : List ℕ → ℕ → List (List ℕ) → List (List ℕ)
emit_fragmented nalu mtu payloads =
    let max_fragment_size = sub_usize (sub_usize mtu nal_header_size) fu_header_size in
    let full_nalu_size = length (drop nal_header_size nalu) in
    if ltb (length nalu) nal_header_size
    then payloads
    else if max_fragment_size == 0
    then payloads
    else if full_nalu_size == 0
    then payloads
    else fragment_loop full_nalu_size nalu (get_nal_type nalu) max_fragment_size 0 payloads

abbrev pub with_size : List ℕ → List ℕ
with_size nalu = u16_to_be_bytes (u16 (length nalu)) ++ nalu

aggregate :
    Option (List ℕ)
    → Option (List ℕ)
    → Option (List ℕ)
    → H265Payloader
    → ℕ
    → List (List ℕ)
    → H265Payloader × List (List ℕ)
aggregate (some vps) (some sps) (some pps) s mtu payloads =
    let ap_size = nal_header_size + 2 + length vps + 2 + length sps + 2 + length pps in
    if ltb mtu ap_size then (new, payloads ++ (vps ∷ sps ∷ pps ∷ [])) else (
      new,
      payloads ++ ((ap_payload_hdr ++ (with_size vps ++ (with_size sps ++ with_size pps))) ∷ []),
    )
aggregate _ _ _ s mtu payloads = (s, payloads)

unfoldable pub try_emit_aggregation_packet :
    H265Payloader → ℕ → List (List ℕ) → H265Payloader × List (List ℕ)
unfolding aggregate
try_emit_aggregation_packet s mtu payloads =
    aggregate s.vps_nalu s.sps_nalu s.pps_nalu s mtu payloads

unfoldable pub emit : H265Payloader → List ℕ → ℕ → List (List ℕ) → H265Payloader × List (List ℕ)
emit s nalu mtu payloads =
    let nal_type = get_nal_type nalu in
    let (s', sent) = try_emit_aggregation_packet s mtu payloads in
    if ltb (length nalu) nal_header_size
    then (s, payloads)
    else if nal_type == nal_aud || nal_type == nal_filler
    then (s, payloads)
    else if nal_type == nal_vps
    then (record s { vps_nalu = some nalu }, payloads)
    else if nal_type == nal_sps
    then (record s { sps_nalu = some nalu }, payloads)
    else if nal_type == nal_pps
    then (record s { pps_nalu = some nalu }, payloads)
    else if leb (length nalu) mtu
    then (s', sent ++ (nalu ∷ []))
    else (s', emit_fragmented nalu mtu sent)

-- The bytes from a start code's end to the next start code, or to the end.
abbrev pub unit_between : ℕ → Option (ℕ × ℕ) → List ℕ → List ℕ
unit_between prev_start none bytes = drop prev_start bytes
unit_between prev_start (some (stop, len)) bytes = take (stop - prev_start) (drop prev_start bytes)

-- The `while` loop of `payload` on fuel: each round but the last moves on by a start code.
unfoldable pub payload_loop :
    ℕ → Option (ℕ × ℕ) → H265Payloader → ℕ → List ℕ → List (List ℕ) → H265Payloader × List (List ℕ)
payload_loop fuel none s mtu payload payloads = (s, payloads)
payload_loop zero (some _) s mtu payload payloads = (s, payloads)
payload_loop (suc fuel) (some (at, len)) s mtu payload payloads =
    let prev_start = at + len in
    let next = next_ind payload prev_start in
    let (s', sent) = emit s (unit_between prev_start next payload) mtu payloads in
    payload_loop fuel next s' mtu payload sent

unfoldable pub payload : H265Payloader → ℕ → List ℕ → H265Payloader × List (List ℕ)
payload s mtu bytes = if length bytes == 0 || mtu == 0 then (s, []) else elim (next_ind bytes 0) [
  | none ↦ emit s bytes mtu []
  | some found ↦ payload_loop (length bytes) (some found) s mtu bytes []
]
