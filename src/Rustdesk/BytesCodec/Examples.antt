-- ===== src/Rustdesk/BytesCodec/Examples.antt =====
-- Runs of the codec, and its theorems at concrete messages, readers and writers.
use one_kvm_stream_box.Base.{
  ℕ, ◌≤◌, ◌<◌, ◌≡◌, refl, none, some, List, [], ◌∷◌, ◌++◌, arith, leb, if◌then◌else◌, length, take,
  drop, replicate,
}
use one_kvm_stream_box.Rustdesk.BytesCodec.{
  IoResult, ok, err, invalid_data, unexpected_eof, encode_frame, decode, decode_head, decode_body,
  BytesCodec, body, new, set_max_packet_length,
}
use one_kvm_stream_box.Rustdesk.BytesCodec.Streaming.{
  decode_resume, drain, drain-encode_all, encode_all,
}
use one_kvm_stream_box.Rustdesk.BytesCodec.Transport.{
  Reader, Writer, read_frame, write_frame, read_frame-write_frame,
}

abbrev hello : List ℕ
hello = 72 ∷ 105 ∷ []

abbrev hello_frame : List ℕ
hello_frame = 8 ∷ 72 ∷ 105 ∷ []

abbrev seventy : List ℕ
seventy = replicate 70 7

hello_encoded : encode_frame hello ≡ ok hello_frame
unfolding encode_frame
hello_encoded = refl

-- Seventy bytes have a header of two bytes, 70 * 4 + 1 = 281.
seventy_encoded : encode_frame seventy ≡ ok (25 ∷ 1 ∷ seventy)
unfolding encode_frame
seventy_encoded = refl

-- The header and one byte of two: the codec has taken the header.
abbrev waiting : BytesCodec
waiting = record new { state = body 2 }

half_read : decode new (8 ∷ 72 ∷ []) ≡ (waiting, 72 ∷ [], ok none)
unfolding decode decode_head decode_body
half_read = refl

decode_resume_example : decode waiting (72 ∷ 105 ∷ 1 ∷ []) ≡ decode new (8 ∷ 72 ∷ 105 ∷ 1 ∷ [])
decode_resume_example = decode_resume new waiting (8 ∷ 72 ∷ []) (72 ∷ []) (105 ∷ 1 ∷ []) half_read

hello_read : decode new hello_frame ≡ (new, [], ok (some hello))
unfolding decode decode_head decode_body
hello_read = refl

abbrev narrow : BytesCodec
narrow = set_max_packet_length new 1

too_long : decode narrow hello_frame ≡ (narrow, hello_frame, err invalid_data)
unfolding decode decode_head
too_long = refl

two_encoded : encode_all (hello ∷ [] ∷ []) ≡ ok (8 ∷ 72 ∷ 105 ∷ 0 ∷ [])
unfolding encode_all encode_frame
two_encoded = refl

drain-encode_all_example : drain 3 new (8 ∷ 72 ∷ 105 ∷ 0 ∷ []) ≡ (hello ∷ [] ∷ [], [])
drain-encode_all_example = drain-encode_all (hello ∷ [] ∷ []) (8 ∷ 72 ∷ 105 ∷ 0 ∷ []) two_encoded

-- A stream of bytes that are all there, and one that takes whatever is sent.
list_read : ℕ → List ℕ → IoResult (List ℕ × List ℕ)
list_read n s = if leb n (length s) then ok (take n s, drop n s) else err unexpected_eof

list_read_full :
    (n : ℕ) (s : List ℕ)
    → n ≤ length s
    → (s' : List ℕ) × (list_read n s ≡ ok (take n s, s')) × (s' ≡ drop n s)
unfolding list_read
list_read_full n s h = (drop n s, ground arith, refl)

list_read_short : (n : ℕ) (s : List ℕ) → length s < n → list_read n s ≡ err unexpected_eof
unfolding list_read
list_read_short n s h = ground arith

abbrev list_reader : Reader
list_reader = record {
  State = List ℕ;
  pending = λ s. s;
  read_exact = list_read;
  read_exact_full = list_read_full;
  read_exact_short = list_read_short;
}

list_write_sent : (bytes s s' : List ℕ) → ok (s ++ bytes) ≡ ok s' → s' ≡ s ++ bytes
list_write_sent bytes s s' e = cc

list_flush_sent : (s s' : List ℕ) → ok s ≡ ok s' → s' ≡ s
list_flush_sent s s' e = cc

abbrev list_writer : Writer
list_writer = record {
  State = List ℕ;
  sent = λ s. s;
  write_all = λ bytes s. ok (s ++ bytes);
  flush = λ s. ok s;
  write_all_sent = list_write_sent;
  flush_sent = list_flush_sent;
}

hello_written : write_frame list_writer hello [] ≡ ok hello_frame
unfolding write_frame encode_frame
hello_written = refl

read_frame-write_frame_example :
    (t' : List ℕ) × (read_frame list_reader (8 ∷ 72 ∷ 105 ∷ 3 ∷ []) ≡ ok (hello, t'))
    × (t' ≡ 3 ∷ [])
read_frame-write_frame_example =
    read_frame-write_frame list_reader list_writer hello (3 ∷ []) [] hello_frame
      (8 ∷ 72 ∷ 105 ∷ 3 ∷ []) refl hello_written refl
