-- ===== src/Rustdesk/BytesCodec.antt =====
-- src/rustdesk/bytes_codec.rs: the variable-length framing of RustDesk's TCP messages.
-- A byte buffer is a list of numbers. What a function does to a `&mut BytesMut` is the list that it
-- returns. The length of a Rust slice is below 2 ^ 63, and it is shifted only where it is at most
-- `max_packet_length`, so `len << 2` loses no bit before its cast.
pub mod Header
pub mod Encoders
pub mod Decoding
pub mod Streaming
pub mod Transport
mod Examples
use one_kvm_stream_box.Base.{
  ℕ, ◌+◌, ◌*◌, ◌/◌, Bool, ◌&&◌, Option, none, some, List, [], ◌∷◌, ◌++◌, bit_and, bit_or, leb, ltb,
  if◌then◌else◌, length, get_or, take, drop, u8, u16, u32, u16_to_le_bytes, u32_to_le_bytes,
}

-- `io::ErrorKind`, as far as these functions make or pass it on.
pub data IoError : Type 0 where
  invalid_input invalid_data unexpected_eof broken_pipe : IoError

pub data IoResult {ℓ} (A : Type ℓ) : Type ℓ where
  ok : A → IoResult A
  err : IoError → IoResult A

infixl 5 ◌>>=◌
abbrev pub ◌>>=◌ {ℓ κ} : {A : Type ℓ} {B : Type κ} → IoResult A → (A → IoResult B) → IoResult B
ok a >>= f = f a
err e >>= f = err e

abbrev pub max_packet_length : ℕ
max_packet_length = 0x3FFFFFFF

-- The three low bytes of `h`, as the source pushes them one by one.
abbrev low_three_bytes : ℕ → List ℕ
low_three_bytes h = bit_and h 0xFF ∷ bit_and (h / 256) 0xFF ∷ bit_and (h / 65536) 0xFF ∷ []

unfoldable pub encode_frame : List ℕ → IoResult (List ℕ)
encode_frame message =
    let len = length message in
    if leb len 0x3F
    then ok ((u8 (len * 4) ∷ []) ++ message)
    else if leb len 0x3FFF
    then ok (u16_to_le_bytes (bit_or (u16 (len * 4)) 0x1) ++ message)
    else if leb len 0x3FFFFF
    then ok (low_three_bytes (bit_or (u32 (len * 4)) 0x2) ++ message)
    else if leb len max_packet_length
    then ok (u32_to_le_bytes (bit_or (u32 (len * 4)) 0x3) ++ message)
    else err invalid_input

-- Appends to `buf`; on an error `buf` is as it was.
unfoldable pub encode_frame_into : List ℕ → List ℕ → List ℕ × IoResult (Unit {0})
encode_frame_into message buf =
    let len = length message in
    if leb len 0x3F
    then ((buf ++ (u8 (len * 4) ∷ [])) ++ message, ok tt)
    else if leb len 0x3FFF
    then ((buf ++ u16_to_le_bytes (bit_or (u16 (len * 4)) 0x1)) ++ message, ok tt)
    else if leb len 0x3FFFFF
    then ((buf ++ low_three_bytes (bit_or (u32 (len * 4)) 0x2)) ++ message, ok tt)
    else if leb len max_packet_length
    then ((buf ++ u32_to_le_bytes (bit_or (u32 (len * 4)) 0x3)) ++ message, ok tt)
    else (buf, err invalid_input)

-- `BytesCodec::encode`, which does not read the codec's state.
unfoldable pub encode : List ℕ → List ℕ → List ℕ × IoResult (Unit {0})
encode message buf =
    let len = length message in
    let h = bit_or (u32 (len * 4)) 0x2 in
    if leb len 0x3F
    then ((buf ++ (u8 (len * 4) ∷ [])) ++ message, ok tt)
    else if leb len 0x3FFF
    then ((buf ++ u16_to_le_bytes (bit_or (u16 (len * 4)) 0x1)) ++ message, ok tt)
    else if leb len 0x3FFFFF
    then (
      ((buf ++ u16_to_le_bytes (u16 (bit_and h 0xFFFF))) ++ (u8 (h / 65536) ∷ [])) ++ message,
      ok tt,
    )
    else if leb len max_packet_length
    then ((buf ++ u32_to_le_bytes (bit_or (u32 (len * 4)) 0x3)) ++ message, ok tt)
    else (buf, err invalid_input)

-- `((first_byte & 0x3) + 1) as usize`
abbrev pub head_length : ℕ → ℕ
head_length first_byte = bit_and first_byte 0x3 + 1

-- The header's length and the message's length.
unfoldable pub decode_header : ℕ → List ℕ → ℕ × ℕ
decode_header first_byte header_bytes =
    let head_len = head_length first_byte in
    let count = length header_bytes in
    let n₁ =
      if ltb 1 head_len && ltb 0 count
      then bit_or first_byte (get_or header_bytes 0 0 * 256)
      else first_byte in
    let n₂ =
      if ltb 2 head_len && leb 2 count then bit_or n₁ (get_or header_bytes 1 0 * 65536) else n₁ in
    let n₃ =
      if ltb 3 head_len && leb 3 count
      then bit_or n₂ (get_or header_bytes 2 0 * 16777216)
      else n₂ in
    (head_len, n₃ / 4)

-- `Data(n)`: the header has been read, and the message has `n` bytes.
pub data DecodeState : Type 0 where
  head : DecodeState
  body : ℕ → DecodeState

pub record BytesCodec : Type 0 where
  pub state : DecodeState
  pub max_length : ℕ

abbrev pub new : BytesCodec
new = record { state = head; max_length = max_packet_length }

abbrev pub set_max_packet_length : BytesCodec → ℕ → BytesCodec
set_max_packet_length c n = record c { max_length = n }

-- The length field of a header that is wholly there.
abbrev pub header_value : List ℕ → ℕ
header_value src =
    let head_len = head_length (get_or src 0 0) in
    let n₀ = get_or src 0 0 in
    let n₁ = if ltb 1 head_len then bit_or n₀ (get_or src 1 0 * 256) else n₀ in
    let n₂ = if ltb 2 head_len then bit_or n₁ (get_or src 2 0 * 65536) else n₁ in
    let n₃ = if ltb 3 head_len then bit_or n₂ (get_or src 3 0 * 16777216) else n₂ in n₃ / 4

-- The buffer that is left, and the result. An error leaves the buffer as it was.
unfoldable pub decode_head : BytesCodec → List ℕ → List ℕ × IoResult (Option ℕ)
decode_head c [] = ([], ok none)
decode_head c (b ∷ rest) =
    let src : List ℕ = b ∷ rest in
    let head_len = head_length b in
    if ltb (length src) head_len
    then (src, ok none)
    else if ltb c.max_length (header_value src)
    then (src, err invalid_data)
    else (drop head_len src, ok (some (header_value src)))

unfoldable pub decode_data : ℕ → List ℕ → List ℕ × IoResult (Option (List ℕ))
decode_data n src =
    if ltb (length src) n then (src, ok none) else (drop n src, ok (some (take n src)))

abbrev pub Decoded : Type 0
Decoded = BytesCodec × List ℕ × IoResult (Option (List ℕ))

-- The last part of `decode`: the header is known, so the codec is in the state `body n`.
finish : BytesCodec → List ℕ × IoResult (Option (List ℕ)) → Decoded
finish c (src, ok (some message)) = (record c { state = head }, src, ok (some message))
finish c (src, ok none) = (c, src, ok none)
finish c (src, err e) = (c, src, err e)

unfoldable pub decode_body : BytesCodec → ℕ → List ℕ → Decoded
unfolding finish decode_data
decode_body c n src = finish c (decode_data n src)

-- The first part: what `decode_head` answers in the state `head`.
after_head : BytesCodec → List ℕ × IoResult (Option ℕ) → Decoded
after_head c (src, ok (some n)) = decode_body (record c { state = body n }) n src
after_head c (src, ok none) = (c, src, ok none)
after_head c (src, err e) = (c, src, err e)

dispatch : DecodeState → BytesCodec → List ℕ → Decoded
dispatch head c src = after_head c (decode_head c src)
dispatch (body n) c src = decode_body c n src

unfoldable pub decode : BytesCodec → List ℕ → Decoded
unfolding dispatch after_head
decode c src = dispatch c.state c src
