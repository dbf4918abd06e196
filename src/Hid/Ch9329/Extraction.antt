-- ===== src/Hid/Ch9329/Extraction.antt =====
-- The search for a response in what the serial port has delivered.
use one_kvm_stream_box.Base.{
  ℕ, suc, ◌+◌, ◌≤◌, ◌≡◌, sym, ap, ◌∙◌, ◌≢◌, inl, inr, ◌||◌, some, List, [], ◌∷◌, ◌++◌, append-nil,
  arith, ◌!=◌, Bool-cases, Option-cases, length, get_or, take, drop, All, length-append,
}
use one_kvm_stream_box.Hid.Ch9329.{Response, response_of, parse, extract_from, try_extract_response}
use one_kvm_stream_box.Hid.Ch9329.Packets.{frame, length-frame, parse-frame, take_at}

-- A frame of `buffer`, `k` bytes into it, that parses as `r` and ends at `n`: it has the two header bytes,
-- and six bytes more than its fifth byte counts.
abbrev pub Found : ℕ → ℕ → Response → List ℕ → Type 0
Found offset n r buffer =
    (k : ℕ) × (get_or (drop k buffer) 0 0 ≡ 0x57)
    × (get_or (drop k buffer) 1 0 ≡ 0xAB)
    × (n ≡ offset + (k + (6 + get_or (drop k buffer) 4 0)))
    × (k + (6 + get_or (drop k buffer) 4 0) ≤ length buffer)
    × (parse (take (6 + get_or (drop k buffer) 4 0) (drop k buffer)) ≡ some r)

later :
    (offset n b : ℕ) (r : Response) (rest : List ℕ)
    → Found (offset + 1) n r rest
    → Found offset n r (b ∷ rest)
later offset n b r rest (k, h₁, h₂, at, fits, found) =
    (suc k, h₁, h₂, omega arith, omega arith, found)

extract_from_sound :
    (buffer : List ℕ) (offset n : ℕ) (r : Response)
    → extract_from offset buffer ≡ some (r, n)
    → Found offset n r buffer
unfolding extract_from
extract_from_sound [] offset n r e = absurd (ground arith)
extract_from_sound (b ∷ rest) offset n r e =
    elim (Bool-cases (b != 0x57 || get_or (b ∷ rest) 1 0 != 0xAB)) [
      | inl other ↦
          later offset n b r rest (extract_from_sound rest (offset + 1) n r (ground (arith, other)))
      | inr here ↦ elim (Option-cases (parse (take (6 + get_or (b ∷ rest) 4 0) (b ∷ rest)))) [
        | inr (a, h) ↦ (
          0,
          ground (arith, here),
          ground (arith, here),
          ground (arith, h, here),
          ground (arith, h, here),
          ground (arith, h, here),
        )
        | inl h ↦
            later offset n b r rest
              (extract_from_sound rest (offset + 1) n r (ground (arith, here, h)))
      ]
    ]

-- A response that is found is a frame of the buffer that parses: some bytes are skipped, the frame
-- follows with its two header bytes, it is whole in the buffer, and the count ends where it ends, six bytes
-- and the count in its fifth byte behind its start.
pub try_extract_sound :
    (buffer : List ℕ) (n : ℕ) (r : Response)
    → try_extract_response buffer ≡ some (r, n)
    → Found 0 n r buffer
unfolding try_extract_response
try_extract_sound buffer n r e = extract_from_sound buffer 0 n r e

extract_from-frame :
    (offset address cmd : ℕ) (payload rest : List ℕ)
    → extract_from offset (frame address cmd payload ++ rest)
      ≡ some (response_of address cmd payload, offset + (6 + length payload))
unfolding extract_from
extract_from-frame offset address cmd payload rest = ground (
  arith,
  append-nil (frame address cmd payload),
  parse-frame address cmd payload [],
  length-frame address cmd payload,
  length-append (frame address cmd payload) rest,
  take_at (6 + length payload) (frame address cmd payload) rest
      (sym (length-frame address cmd payload)),
)

-- Bytes other than the first header byte are skipped.
extract_from-skip :
    (junk rest : List ℕ) (offset : ℕ)
    → All (λ b. b ≢ 0x57) junk
    → 6 ≤ length rest
    → extract_from offset (junk ++ rest) ≡ extract_from (offset + length junk) rest
unfolding extract_from
extract_from-skip [] rest offset h l = ap (λ (k : ℕ). extract_from k rest) (omega arith)
extract_from-skip (b ∷ junk) rest offset (hb, h) l =
    ground (arith, length-append junk rest, extract_from-skip junk rest (offset + 1) h l)

-- The frame of a response is found behind any bytes that are not the first header byte, whatever
-- follows, and is counted to its end.
pub try_extract_frame :
    (junk rest payload : List ℕ) (address cmd : ℕ)
    → All (λ b. b ≢ 0x57) junk
    → try_extract_response (junk ++ (frame address cmd payload ++ rest))
      ≡ some (response_of address cmd payload, length junk + (6 + length payload))
unfolding try_extract_response
try_extract_frame junk rest payload address cmd h =
    extract_from-skip junk (frame address cmd payload ++ rest) 0 h (
      omega
        (arith, length-append (frame address cmd payload) rest, length-frame address cmd payload))
    ∙ extract_from-frame (0 + length junk) address cmd payload rest
    ∙ ap (λ (k : ℕ). some (response_of address cmd payload, k)) (omega arith)
