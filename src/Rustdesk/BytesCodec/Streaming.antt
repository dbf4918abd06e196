-- ===== src/Rustdesk/BytesCodec/Streaming.antt =====
-- The decoder on input that comes in pieces.
use one_kvm_stream_box.Base.{
  ℕ, zero, suc, ◌+◌, ◌≤◌, ◌<◌, ◌≡◌, refl, ◌⊎◌, inl, inr, Option, none, some, List, [], ◌∷◌, ◌++◌,
  arith, length, All, length-append, take-append_short, drop-append_short,
}
use one_kvm_stream_box.Rustdesk.BytesCodec.{
  IoResult, IoError, ok, err, invalid_data, max_packet_length, head_length, header_value,
  encode_frame, BytesCodec, DecodeState, head, body, new, decode_head, decode_body, decode,
}
use one_kvm_stream_box.Rustdesk.BytesCodec.Encoders.{encode_frame-header}
use one_kvm_stream_box.Rustdesk.BytesCodec.{◌>>=◌}
use one_kvm_stream_box.Rustdesk.BytesCodec.Decoding.{decode-encode_frame}

header_value-append :
    (b : ℕ) (src more : List ℕ)
    → head_length b ≤ length src + 1
    → header_value ((b ∷ src) ++ more) ≡ header_value (b ∷ src)
header_value-append b [] more h = ground arith
header_value-append b (b₁ ∷ []) more h = ground arith
header_value-append b (b₁ ∷ b₂ ∷ []) more h = ground arith
header_value-append b (b₁ ∷ b₂ ∷ b₃ ∷ src) more h = refl

decode_head-append_some :
    (c : BytesCodec) (src rest more : List ℕ) (n : ℕ)
    → decode_head c src ≡ (rest, ok (some n))
    → decode_head c (src ++ more) ≡ (rest ++ more, ok (some n))
unfolding decode_head
decode_head-append_some c [] rest more n e = cc
decode_head-append_some c (b ∷ src) rest more n e = ground (
  arith,
  header_value-append b src more,
  length-append src more,
  drop-append_short (head_length b) (b ∷ src) more,
)

decode_head-append_err :
    (c : BytesCodec) (src rest more : List ℕ) (e : IoError)
    → decode_head c src ≡ (rest, err e)
    → (decode_head c (src ++ more) ≡ (rest ++ more, err e))
      × (rest ≡ src)
      × (e ≡ invalid_data)
      × (c.max_length < header_value src)
unfolding decode_head
decode_head-append_err c [] rest more x e = cc
decode_head-append_err c (b ∷ src) rest more x e =
    ground (arith, header_value-append b src more, length-append src more)

decode_head-none :
    (c : BytesCodec) (src rest : List ℕ) → decode_head c src ≡ (rest, ok none) → rest ≡ src
unfolding decode_head
decode_head-none c [] rest e = ground arith
decode_head-none c (b ∷ src) rest e = ground arith

decode_body-append :
    (c c' : BytesCodec) (n : ℕ) (src rest more m : List ℕ)
    → decode_body c n src ≡ (c', rest, ok (some m))
    → decode_body c n (src ++ more) ≡ (c', rest ++ more, ok (some m))
unfolding decode_body
decode_body-append c c' n src rest more m e =
    ground
      (arith, length-append src more, drop-append_short n src more, take-append_short n src more)

decode_body-none :
    (c c' : BytesCodec) (n : ℕ) (src rest : List ℕ)
    → decode_body c n src ≡ (c', rest, ok none)
    → (c' ≡ c) × (rest ≡ src)
unfolding decode_body
decode_body-none c c' n src rest e = ground arith

decode_body-ne-err :
    (c c' : BytesCodec) (n : ℕ) (src rest : List ℕ) (x : IoError)
    → decode_body c n src ≡ (c', rest, err x)
    → ⊥
unfolding decode_body
decode_body-ne-err c c' n src rest x e = ground arith

head_outcome :
    (r : List ℕ × IoResult (Option ℕ))
    → ((s : List ℕ) × (n : ℕ) × (r ≡ (s, ok (some n))))
      ⊎ (((s : List ℕ) × (r ≡ (s, ok none))) ⊎ ((s : List ℕ) × (x : IoError) × (r ≡ (s, err x))))
head_outcome (s, ok (some n)) = inl (s, n, refl)
head_outcome (s, ok none) = inr (inl (s, refl))
head_outcome (s, err x) = inr (inr (s, x, refl))

-- A call of `decode` that answers "not yet" may be repeated when more bytes have come: from the
-- codec and the buffer that it left, with the new bytes behind, the next call gives the very codec,
-- buffer and result of one call on all the bytes.
pub decode_resume :
    (c c' : BytesCodec) (src src' more : List ℕ)
    → decode c src ≡ (c', src', ok none)
    → decode c' (src' ++ more) ≡ decode c (src ++ more)
unfolding decode
decode_resume c c' src src' more e = by_state c.state refl
  where
    by_state : (s : DecodeState) → c.state ≡ s → decode c' (src' ++ more) ≡ decode c (src ++ more)
    by_state (body n) hs = ground (arith, decode_body-none c c' n src src')
    by_state head hs = elim (head_outcome (decode_head c src)) [
      | inl (s, n, h) ↦ ground (
        arith,
        h,
        decode_head-append_some c src s more n h,
        decode_body-none (record c { state = body n }) c' n s src',
      )
      | inr (inl (s, h)) ↦ ground (arith, h, decode_head-none c src s h)
      | inr (inr (s, x, h)) ↦ ground (arith, h)
    ]

-- A message that `decode` has returned does not depend on what comes later: with more bytes behind
-- the buffer the call returns the same message and codec, and the new bytes join what is left.
pub decode-append_some :
    (c c' : BytesCodec) (src src' more m : List ℕ)
    → decode c src ≡ (c', src', ok (some m))
    → decode c (src ++ more) ≡ (c', src' ++ more, ok (some m))
unfolding decode
decode-append_some c c' src src' more m e = by_state c.state refl
  where
    by_state :
        (s : DecodeState) → c.state ≡ s → decode c (src ++ more) ≡ (c', src' ++ more, ok (some m))
    by_state (body n) hs = ground (arith, decode_body-append c c' n src src' more m)
    by_state head hs = elim (head_outcome (decode_head c src)) [
      | inl (s, n, h) ↦ ground (
        arith,
        h,
        decode_head-append_some c src s more n h,
        decode_body-append (record c { state = body n }) c' n s src' more m,
      )
      | inr (inl (s, h)) ↦ ground (arith, h)
      | inr (inr (s, x, h)) ↦ ground (arith, h)
    ]

-- An error of `decode` is `InvalidData`, of a codec that waits for a header, for a header that
-- announces more than the codec's limit. It changes neither the codec nor the buffer, and whatever
-- bytes come behind, the same error comes again.
pub decode_error :
    (c c' : BytesCodec) (src src' more : List ℕ) (x : IoError)
    → decode c src ≡ (c', src', err x)
    → (x ≡ invalid_data)
      × (c.state ≡ head)
      × (c.max_length < header_value src)
      × (c' ≡ c)
      × (src' ≡ src)
      × (decode c (src ++ more) ≡ (c, src ++ more, err x))
unfolding decode
decode_error c c' src src' more x e = by_state c.state refl
  where
    by_state :
        (s : DecodeState)
        → c.state ≡ s
        → (x ≡ invalid_data)
          × (c.state ≡ head)
          × (c.max_length < header_value src)
          × (c' ≡ c)
          × (src' ≡ src)
          × (decode c (src ++ more) ≡ (c, src ++ more, err x))
    by_state (body n) hs = absurd (decode_body-ne-err c c' n src src' x (ground arith))
    by_state head hs = elim (head_outcome (decode_head c src)) [
      | inl (s, n, h) ↦
          absurd
            (decode_body-ne-err (record c { state = body n }) c' n s src' x (ground (arith, h)))
      | inr (inl (s, h)) ↦ ground (arith, h)
      | inr (inr (s, y, h)) ↦ ground (arith, h, decode_head-append_err c src s more y h)
    ]

-- Go on after a call of `decode`: with the calls that follow a message, or with no more.
drain_after :
    (BytesCodec → List ℕ → List (List ℕ) × List ℕ)
    → BytesCodec × List ℕ × IoResult (Option (List ℕ))
    → List (List ℕ) × List ℕ
drain_after go (c, src, ok (some m)) = let (ms, left) = go c src in (m ∷ ms, left)
drain_after go (c, src, ok none) = ([], src)
drain_after go (c, src, err x) = ([], src)

-- Calls of `decode` until it has no further message, `n` at most: the messages, and what is left.
unfoldable pub drain : ℕ → BytesCodec → List ℕ → List (List ℕ) × List ℕ
unfolding drain_after
drain zero c src = ([], src)
drain (suc n) c src = drain_after (drain n) (decode c src)

-- The frames of a list of messages, one behind the other.
unfoldable pub encode_all : List (List ℕ) → IoResult (List ℕ)
encode_all [] = ok []
encode_all (m ∷ ms) = do frame ← encode_frame m; frames ← encode_all ms; ok (frame ++ frames)

frame_cases : (r : IoResult (List ℕ)) → ((f : List ℕ) × (r ≡ ok f)) ⊎ ((x : IoError) × (r ≡ err x))
frame_cases (ok f) = inl (f, refl)
frame_cases (err x) = inr (x, refl)

decode-nil : (c : BytesCodec) → c.state ≡ head → decode c [] ≡ (c, [], ok none)
unfolding decode decode_head
decode-nil c hs = ground arith

drain_from :
    (n : ℕ) (c : BytesCodec) (ms : List (List ℕ)) (bytes : List ℕ)
    → c.state ≡ head
    → All (λ m. length m ≤ c.max_length) ms
    → length ms < n
    → encode_all ms ≡ ok bytes
    → drain n c bytes ≡ (ms, [])
unfolding drain encode_all
drain_from zero c ms bytes hs hm hn e = absurd (omega arith)
drain_from (suc n) c [] bytes hs hm hn e = ground (arith, decode-nil c hs)
drain_from (suc n) c (m ∷ ms) bytes hs (hm, hms) hn e = elim (frame_cases (encode_frame m)) [
  | inl (f, hf) ↦ elim (frame_cases (encode_all ms)) [
    | inl (fs, hfs) ↦ ground (
      arith,
      hf,
      hfs,
      decode-encode_frame c m f fs hs hm hf,
      drain_from n c ms fs hs hms (omega arith) hfs,
    )
    | inr (x, hx) ↦ ground (arith, hf, hx)
  ]
  | inr (x, hx) ↦ ground (arith, hx)
]

encode_frame_fits : (m f : List ℕ) → encode_frame m ≡ ok f → length m ≤ max_packet_length
encode_frame_fits m f e = ground (arith, encode_frame-header m)

within :
    (ms : List (List ℕ)) (bytes : List ℕ)
    → encode_all ms ≡ ok bytes
    → All (λ m. length m ≤ max_packet_length) ms
unfolding encode_all
within [] bytes e = tt
within (m ∷ ms) bytes e = elim (frame_cases (encode_frame m)) [
  | inl (f, hf) ↦ elim (frame_cases (encode_all ms)) [
    | inl (fs, hfs) ↦ (encode_frame_fits m f hf, within ms fs hfs)
    | inr (x, hx) ↦ ground (arith, hf, hx)
  ]
  | inr (x, hx) ↦ ground (arith, hx)
]

-- A new codec that is given the frames of any messages, one behind the other, returns just these
-- messages in their order, within one call more than there are messages, and no byte is left.
pub drain-encode_all :
    (ms : List (List ℕ)) (bytes : List ℕ)
    → encode_all ms ≡ ok bytes
    → drain (suc (length ms)) new bytes ≡ (ms, [])
drain-encode_all ms bytes e =
    drain_from (suc (length ms)) new ms bytes refl (within ms bytes e) (omega arith) e
