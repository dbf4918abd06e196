-- ===== src/Rustdesk/BytesCodec/Header.antt =====
-- The header of a frame in plain arithmetic: the length times four plus a tag, lowest byte first.
-- The tag is the number of header bytes less one.
use one_kvm_stream_box.Base.{
  ℕ, ◌+◌, ◌*◌, ◌/◌, ◌%◌, ◌≤◌, ◌<◌, ◌≡◌, List, [], ◌∷◌, bit_and, bit_or, leb, if◌then◌else◌, length,
  All, IsByte, u16, u32, arith,
}
use one_kvm_stream_box.Base.Bits.{bit_or_fields, bit_or_fields_right, bit_and_mask}
use one_kvm_stream_box.Rustdesk.BytesCodec.{max_packet_length, head_length}

-- What the four branches of the encoders write.
unfoldable pub header : ℕ → List ℕ
header len =
    if leb len 0x3F
    then len * 4 ∷ []
    else if leb len 0x3FFF
    then (len * 4 + 1) % 256 ∷ (len * 4 + 1) / 256 ∷ []
    else if leb len 0x3FFFFF
    then (len * 4 + 2) % 256 ∷ (len * 4 + 2) / 256 % 256 ∷ (len * 4 + 2) / 65536 ∷ []
    else (len * 4 + 3) % 256
      ∷ (len * 4 + 3) / 256 % 256
      ∷ (len * 4 + 3) / 65536 % 256
      ∷ (len * 4 + 3) / 16777216
      ∷ []

-- `(len << 2) | tag`, cast to a word that it fits.
pub tag_u16 : (len : ℕ) → len ≤ 0x3FFF → bit_or (u16 (len * 4)) 1 ≡ len * 4 + 1
tag_u16 len h = ground (arith, bit_or_fields 2 len 1)

pub tag_u32 : (len t : ℕ) → len ≤ max_packet_length → t < 4 → bit_or (u32 (len * 4)) t ≡ len * 4 + t
tag_u32 len t h lt = ground (arith, bit_or_fields 2 len t)

pub low_byte : (h : ℕ) → bit_and h 0xFF ≡ h % 256
low_byte h = bit_and_mask 8 h

pub low_word : (h : ℕ) → bit_and h 0xFFFF ≡ h % 65536
low_word h = bit_and_mask 16 h

pub head_length_lem : (b : ℕ) → head_length b ≡ b % 4 + 1
head_length_lem b = omega (arith, bit_and_mask 2 b)

pub header-IsByte : (len : ℕ) → len ≤ max_packet_length → All IsByte (header len)
unfolding header
header-IsByte len h = ground arith

pub length-header : (len : ℕ) → (1 ≤ length (header len)) × (length (header len) ≤ 4)
unfolding header
length-header len = ground arith

-- The three `|=` of the decoders are sums, as long as the bytes are bytes.
pub join_two : (a b : ℕ) → a < 256 → bit_or a (b * 256) ≡ a + b * 256
join_two a b h = bit_or_fields_right 8 b a h

pub join_three : (a b : ℕ) → a < 65536 → bit_or a (b * 65536) ≡ a + b * 65536
join_three a b h = bit_or_fields_right 16 b a h

pub join_four : (a b : ℕ) → a < 16777216 → bit_or a (b * 16777216) ≡ a + b * 16777216
join_four a b h = bit_or_fields_right 24 b a h
