-- ===== src/Rustdesk/BytesCodec/Decoding.antt =====
-- The decoder: it reads back what the encoders write, whatever follows, and a call that finds too
-- few bytes loses nothing.
use one_kvm_stream_box.Base.{
  ℕ, ◌+◌, ◌*◌, ◌/◌, ◌%◌, ◌≤◌, ◌≡◌, inl, inr, some, List, ◌++◌, append_assoc, arith, leb, Bool-cases,
  length, length-append, take-length-append, drop-length-append,
}
use one_kvm_stream_box.Rustdesk.BytesCodec.{
  ok, max_packet_length, encode_frame, BytesCodec, head, decode_head, decode_data, decode_body,
  decode,
}
use one_kvm_stream_box.Rustdesk.BytesCodec.Header.{
  header, head_length_lem, join_two, join_three, join_four,
}
use one_kvm_stream_box.Rustdesk.BytesCodec.Encoders.{encode_frame-header}

decode_head-header :
    (c : BytesCodec) (len : ℕ) (rest : List ℕ)
    → len ≤ max_packet_length
    → len ≤ c.max_length
    → decode_head c (header len ++ rest) ≡ (rest, ok (some len))
unfolding header decode_head
decode_head-header c len rest h hm = ground (
  arith,
  head_length_lem (len * 4),
  head_length_lem ((len * 4 + 1) % 256),
  head_length_lem ((len * 4 + 2) % 256),
  head_length_lem ((len * 4 + 3) % 256),
  join_two ((len * 4 + 1) % 256) ((len * 4 + 1) / 256),
  join_two ((len * 4 + 2) % 256) ((len * 4 + 2) / 256 % 256),
  join_two ((len * 4 + 3) % 256) ((len * 4 + 3) / 256 % 256),
  join_three ((len * 4 + 2) % 256 + (len * 4 + 2) / 256 % 256 * 256) ((len * 4 + 2) / 65536),
  join_three ((len * 4 + 3) % 256 + (len * 4 + 3) / 256 % 256 * 256) ((len * 4 + 3) / 65536 % 256),
  join_four
      ((len * 4 + 3) % 256 + (len * 4 + 3) / 256 % 256 * 256 + (len * 4 + 3) / 65536 % 256 * 65536)
      ((len * 4 + 3) / 16777216),
)

-- The message, once the header is read.
decode_data-append : (m rest : List ℕ) → decode_data (length m) (m ++ rest) ≡ (rest, ok (some m))
unfolding decode_data
decode_data-append m rest =
    ground (arith, length-append m rest, take-length-append m rest, drop-length-append m rest)

decode-header_body :
    (c : BytesCodec) (m rest : List ℕ)
    → c.state ≡ head
    → length m ≤ max_packet_length
    → length m ≤ c.max_length
    → decode c (header (length m) ++ (m ++ rest)) ≡ (c, rest, ok (some m))
unfolding decode decode_body
decode-header_body c m rest hs h hm =
    ground (arith, decode_head-header c (length m) (m ++ rest), decode_data-append m rest)

-- A codec that waits for a header and whose limit allows the message gets it back from the frame of
-- `encode_frame`, waits for the next header, and leaves whatever bytes follow the frame.
pub decode-encode_frame :
    (c : BytesCodec) (m frame rest : List ℕ)
    → c.state ≡ head
    → length m ≤ c.max_length
    → encode_frame m ≡ ok frame
    → decode c (frame ++ rest) ≡ (c, rest, ok (some m))
decode-encode_frame c m frame rest hs hm e = elim (Bool-cases (leb (length m) max_packet_length)) [
  | inl fits ↦ ground (
    arith,
    encode_frame-header m,
    decode-header_body c m rest,
    append_assoc (header (length m)) m rest,
  )
  | inr large ↦ ground (arith, encode_frame-header m)
]
