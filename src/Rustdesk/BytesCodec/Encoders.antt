-- ===== src/Rustdesk/BytesCodec/Encoders.antt =====
-- The three encoders write the same frame, and refuse the same messages.
use one_kvm_stream_box.Base.{
  ℕ, ◌+◌, ◌*◌, ◌/◌, ◌%◌, ◌≡◌, refl, Bool, true, false, List, [], ◌∷◌, ◌++◌, append_assoc, arith,
  leb, if◌then◌else◌, length,
}
use one_kvm_stream_box.Rustdesk.BytesCodec.{
  IoResult, ok, err, invalid_input, max_packet_length, encode_frame, encode_frame_into, encode,
}
use one_kvm_stream_box.Rustdesk.BytesCodec.Header.{header, tag_u16, tag_u32, low_byte, low_word}

-- `encode_frame` puts the header of the length in front, and refuses just the messages over 1 GB.
pub encode_frame-header :
    (m : List ℕ)
    → encode_frame m ≡ (
        if leb (length m) max_packet_length then ok (header (length m) ++ m) else err invalid_input)
unfolding encode_frame header
encode_frame-header m = ground (
  arith,
  tag_u16 (length m),
  tag_u32 (length m) 2,
  tag_u32 (length m) 3,
  low_byte (length m * 4 + 2),
  low_byte ((length m * 4 + 2) / 256),
  low_byte ((length m * 4 + 2) / 65536),
)

-- What an encoder that appends to a buffer does with the frame, or with the refusal.
abbrev pub append_to : List ℕ → IoResult (List ℕ) → List ℕ × IoResult (Unit {0})
append_to buf (ok frame) = (buf ++ frame, ok tt)
append_to buf (err e) = (buf, err e)

into-header :
    (m buf : List ℕ)
    → encode_frame_into m buf ≡ (
        if leb (length m) max_packet_length
        then ((buf ++ header (length m)) ++ m, ok tt)
        else (buf, err invalid_input))
unfolding encode_frame_into header
into-header m buf = ground (
  arith,
  tag_u16 (length m),
  tag_u32 (length m) 2,
  tag_u32 (length m) 3,
  low_byte (length m * 4 + 2),
  low_byte ((length m * 4 + 2) / 256),
  low_byte ((length m * 4 + 2) / 65536),
)

encode-header :
    (m buf : List ℕ)
    → encode m buf ≡ (
        if leb (length m) max_packet_length
        then ((buf ++ header (length m)) ++ m, ok tt)
        else (buf, err invalid_input))
unfolding encode header
encode-header m buf = ground (
  arith,
  tag_u16 (length m),
  tag_u32 (length m) 2,
  tag_u32 (length m) 3,
  low_word (length m * 4 + 2),
  append_assoc buf ((length m * 4 + 2) % 256 ∷ (length m * 4 + 2) / 256 % 256 ∷ [])
      ((length m * 4 + 2) / 65536 ∷ []),
)

append_to-if :
    (b : Bool) (buf f : List ℕ)
    → append_to buf (if b then ok f else err invalid_input)
      ≡ (if b then (buf ++ f, ok tt) else (buf, err invalid_input))
append_to-if true buf f = refl
append_to-if false buf f = refl

-- For every message and buffer, `encode_frame_into` and `BytesCodec::encode` give the same buffer
-- and the same result: the buffer with the frame of `encode_frame` behind it, or, where
-- `encode_frame` refuses the message, the buffer as it was and the same error.
pub encoders_agree :
    (m buf : List ℕ)
    → (encode_frame_into m buf ≡ append_to buf (encode_frame m))
      × (encode m buf ≡ append_to buf (encode_frame m))
encoders_agree m buf =
    rw (encode_frame-header m, append_to-if, ← append_assoc buf (header (length m)) m)
      (into-header m buf, encode-header m buf)
