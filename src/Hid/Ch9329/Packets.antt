-- ===== src/Hid/Ch9329/Packets.antt =====
-- What is built is what is parsed.
use one_kvm_stream_box.Base.{
  ℕ, ◌+◌, ◌-◌, ◌≤◌, ◌≡◌, refl, sym, bit_and, ltb, ◌==◌, ◌&&◌, inl, inr, none, some, List, [], ◌∷◌,
  ◌++◌, append_assoc, arith, leb, if◌then◌else◌, Bool-cases, length, get_or, take, replicate,
  length-append, take-length-append, u8,
}
use one_kvm_stream_box.Hid.Ch9329.{
  packet_head, calculate_checksum, build_packet, error_from, response_of, parse, max_data_len,
  max_packet_size,
}

-- A frame with its checksum behind, as a list.
abbrev pub frame : ℕ → ℕ → List ℕ → List ℕ
frame address cmd payload =
    let front = packet_head address cmd (length payload) ++ payload in
    front ++ (calculate_checksum front ∷ [])

get_or-append : (xs ys : List ℕ) (i d : ℕ) → i ≡ length xs → get_or (xs ++ ys) i d ≡ get_or ys 0 d
get_or-append [] ys i d e = rw e
get_or-append (x ∷ xs) ys i d e = rw e (get_or-append xs ys (length xs) d refl)

pub take_at : (n : ℕ) (xs ys : List ℕ) → n ≡ length xs → take n (xs ++ ys) ≡ xs
take_at n xs ys e = rw e (take-length-append xs ys)

pub length-frame :
    (address cmd : ℕ) (payload : List ℕ) → length (frame address cmd payload) ≡ 6 + length payload
length-frame address cmd payload = omega (
  arith,
  length-append payload
      (calculate_checksum (packet_head address cmd (length payload) ++ payload) ∷ []),
)

-- `build_packet` writes the frame of at most 64 bytes of data, and panics at more.
pub build_packet-frame :
    (address cmd : ℕ) (payload : List ℕ)
    → build_packet address cmd payload
      ≡ (if leb (length payload) max_data_len then some (frame address cmd payload) else none)
unfolding build_packet
build_packet-frame address cmd payload = elim (Bool-cases (leb (length payload) max_data_len)) [
  | inl fits ↦
      let small : length payload ≤ 64 = ground (arith, fits) in
      let same : u8 (length payload) ≡ length payload = omega arith in
      ground (
        arith,
        same,
        take_at (6 + length payload) (frame address cmd payload)
            (replicate (max_packet_size - (6 + length payload)) 0)
            (sym (length-frame address cmd payload)),
      )
  | inr large ↦ ground (arith, large)
]

-- The checksum test, the header test and the length tests all pass on a frame, whatever follows it.
pub parse-frame :
    (address cmd : ℕ) (payload rest : List ℕ)
    → parse (frame address cmd payload ++ rest) ≡ some (response_of address cmd payload)
unfolding parse
parse-frame address cmd payload rest =
    let front = packet_head address cmd (length payload) ++ payload in
    let check = calculate_checksum front in
    let tail : List ℕ = check ∷ rest in
    ground (
      arith,
      append_assoc payload (check ∷ []) rest,
      length-append payload tail,
      get_or-append front tail (5 + length payload) 0 (omega arith),
      take_at (5 + length payload) front tail (omega arith),
      take-length-append payload tail,
    )

-- A packet that `build_packet` has built is parsed, whatever follows it: the response has the packet's
-- address, command and data; it counts as an error exactly where the command has both bits of the error
-- mask 0xC0; and the error code is then that of the first byte of data, if there is one.
pub parse-build_packet :
    (address cmd : ℕ) (payload bytes rest : List ℕ)
    → build_packet address cmd payload ≡ some bytes
    → parse (bytes ++ rest)
      ≡ some (record {
        address = address;
        cmd = cmd;
        payload = payload;
        is_error = bit_and cmd 0xC0 == 0xC0;
        error_code =
            if (bit_and cmd 0xC0 == 0xC0) && ltb 0 (length payload)
            then some (error_from (get_or payload 0 0))
            else none;
      })
parse-build_packet address cmd payload bytes rest e =
    elim (Bool-cases (leb (length payload) max_data_len)) [
      | inl fits ↦
          let same : frame address cmd payload ≡ bytes =
            ground (arith, fits, build_packet-frame address cmd payload) in
          rw (← same) (parse-frame address cmd payload rest)
      | inr large ↦ absurd (ground (arith, large, build_packet-frame address cmd payload))
    ]
