-- ===== src/Rustdesk/BytesCodec/Transport.antt =====
-- `read_frame`, `write_frame` and `write_frame_buffered`, over an asynchronous reader and writer of
-- tokio. Those are parameters: a `Reader` and a `Writer` with what tokio documents of `read_exact`,
-- `write_all` and `flush`.
use one_kvm_stream_box.Base.{
  ℕ, suc, ◌+◌, ◌-◌, ◌*◌, ◌/◌, ◌%◌, ◌≤◌, ◌<◌, ◌≡◌, refl, ◌∙◌, ◌⊎◌, inl, inr, List, [], ◌∷◌, ◌++◌,
  append_assoc, arith, ltb, if◌then◌else◌, length, get_or, take, drop, replicate, length-append,
  take-length-append, drop-length-append,
}
use one_kvm_stream_box.Rustdesk.BytesCodec.{
  IoResult, IoError, ok, err, invalid_data, unexpected_eof, max_packet_length, head_length,
  encode_frame, encode_frame_into, decode_header, ◌>>=◌,
}
use one_kvm_stream_box.Rustdesk.BytesCodec.Header.{
  header, head_length_lem, join_two, join_three, join_four,
}
use one_kvm_stream_box.Rustdesk.BytesCodec.Encoders.{encode_frame-header, encoders_agree}

-- `read_exact n` takes the next `n` bytes of the stream, or fails where the stream ends before.
pub record Reader : Type 1 where
  pub State : Type 0
  pub pending : State → List ℕ
  pub read_exact : ℕ → State → IoResult (List ℕ × State)
  pub read_exact_full :
      (n : ℕ) (s : State)
      → n ≤ length (pending s)
      → (s' : State) × (read_exact n s ≡ ok (take n (pending s), s'))
        × (pending s' ≡ drop n (pending s))
  pub read_exact_short :
      (n : ℕ) (s : State) → length (pending s) < n → read_exact n s ≡ err unexpected_eof

-- `write_all` puts its bytes behind those sent before, or fails; `flush` sends no bytes of its own.
pub record Writer : Type 1 where
  pub State : Type 0
  pub sent : State → List ℕ
  pub write_all : List ℕ → State → IoResult State
  pub flush : State → IoResult State
  pub write_all_sent :
      (bytes : List ℕ) (s s' : State) → write_all bytes s ≡ ok s' → sent s' ≡ sent s ++ bytes
  pub flush_sent : (s s' : State) → flush s ≡ ok s' → sent s' ≡ sent s

-- `[0u8; 3]` with the bytes read in its front.
abbrev header_array : List ℕ → List ℕ
header_array bytes = bytes ++ replicate (3 - length bytes) 0

module _ (r : Reader) where
  open r use {State, pending, read_exact, read_exact_full}

  -- The rest of the header, where there is one.
  abbrev read_rest : ℕ → State → IoResult (List ℕ × State)
  read_rest head_len s = if ltb 1 head_len then read_exact (head_len - 1) s else ok ([], s)

  unfoldable pub read_frame : State → IoResult (List ℕ × State)
  read_frame s₀ = read_exact 1 s₀ >>= λ first.
      let b = get_or first.0 0 0 in
      read_rest (head_length b) first.1 >>= λ rest.
      let msg_len = (decode_header b (header_array rest.0)).1 in
      if ltb max_packet_length msg_len then err invalid_data else read_exact msg_len rest.1

module _ (w : Writer) where
  open w use {State, write_all, flush}

  unfoldable pub write_frame : List ℕ → State → IoResult State
  write_frame message s = do frame ← encode_frame message; s' ← write_all frame s; flush s'

  -- The reused buffer is cleared first; it is returned beside the result.
  unfoldable pub write_frame_buffered : List ℕ → List ℕ → State → List ℕ × IoResult State
  write_frame_buffered message buf s =
      let (filled, result) = encode_frame_into message [] in
      (filled, do done ← result; s' ← write_all filled s; flush s')

-- The first byte of a header, and the others.
first_byte : ℕ → ℕ
unfolding header
first_byte len = get_or (header len) 0 0

other_bytes : ℕ → List ℕ
unfolding header
other_bytes len = drop 1 (header len)

header-split : (len : ℕ) → header len ≡ first_byte len ∷ other_bytes len
unfolding first_byte other_bytes
header-split len = ground arith

head_length-first : (len : ℕ) → head_length (first_byte len) ≡ suc (length (other_bytes len))
unfolding first_byte other_bytes
head_length-first len = ground (
  arith,
  head_length_lem (len * 4),
  head_length_lem ((len * 4 + 1) % 256),
  head_length_lem ((len * 4 + 2) % 256),
  head_length_lem ((len * 4 + 3) % 256),
)

-- `decode_header` finds the length in a header's bytes.
decode_header-header :
    (len : ℕ)
    → len ≤ max_packet_length
    → (decode_header (first_byte len) (header_array (other_bytes len))).1 ≡ len
unfolding decode_header first_byte other_bytes
decode_header-header len h = ground (
  arith,
  head_length_lem (len * 4),
  head_length_lem ((len * 4 + 1) % 256),
  head_length_lem ((len * 4 + 2) % 256),
  head_length_lem ((len * 4 + 3) % 256),
  join_two ((len * 4 + 1) % 256) ((len * 4 + 1) / 256),
  join_two ((len * 4 + 2) % 256) ((len * 4 + 2) / 256 % 256),
  join_two ((len * 4 + 3) % 256) ((len * 4 + 3) / 256 % 256),
  join_three ((len * 4 + 2) % 256 + (len * 4 + 2) / 256 % 256 * 256) ((len * 4 + 2) / 65536),
  join_three ((len * 4 + 3) % 256 + (len * 4 + 3) / 256 % 256 * 256) ((len * 4 + 3) / 65536 % 256),
  join_four
      ((len * 4 + 3) % 256 + (len * 4 + 3) / 256 % 256 * 256 + (len * 4 + 3) / 65536 % 256 * 65536)
      ((len * 4 + 3) / 16777216),
)

frame_cases : (r : IoResult (List ℕ)) → ((f : List ℕ) × (r ≡ ok f)) ⊎ ((x : IoError) × (r ≡ err x))
frame_cases (ok f) = inl (f, refl)
frame_cases (err x) = inr (x, refl)

encode_frame-split :
    (m frame : List ℕ)
    → encode_frame m ≡ ok frame
    → (length m ≤ max_packet_length)
      × (frame ≡ first_byte (length m) ∷ (other_bytes (length m) ++ m))
encode_frame-split m frame e = ground (arith, encode_frame-header m, header-split (length m))

module _ (r : Reader) where
  open r use {State, pending, read_exact, read_exact_full}

  read-append :
      (s : State) (xs ys : List ℕ)
      → pending s ≡ xs ++ ys
      → (s' : State) × (read_exact (length xs) s ≡ ok (xs, s')) × (pending s' ≡ ys)
  read-append s xs ys e =
      let (s', got, left) = read_exact_full (length xs) s (rw (e, length-append) (omega arith)) in
      (s', got ∙ rw (e, take-length-append xs ys), left ∙ rw (e, drop-length-append xs ys))

  read_rest-append :
      (s : State) (xs ys : List ℕ)
      → pending s ≡ xs ++ ys
      → (s' : State) × (read_rest r (suc (length xs)) s ≡ ok (xs, s')) × (pending s' ≡ ys)
  read_rest-append s [] ys e = (s, refl, e)
  read_rest-append s (x ∷ xs) ys e =
      let (s', got, left) = read-append s (x ∷ xs) ys e in (s', ground (arith, got), left)

  -- Where the reader still has the frame of `encode_frame` in front, whatever follows, `read_frame`
  -- returns the message and leaves the reader just behind the frame.
  pub read_frame-encode_frame :
      (s : State) (m frame rest : List ℕ)
      → encode_frame m ≡ ok frame
      → pending s ≡ frame ++ rest
      → (s' : State) × (read_frame r s ≡ ok (m, s')) × (pending s' ≡ rest)
  unfolding read_frame
  read_frame-encode_frame s m frame rest e p =
      let (fits, split) = encode_frame-split m frame e in
      let len = length m in
      let (s₁, got₁, left₁) =
        read-append s (first_byte len ∷ []) (other_bytes len ++ (m ++ rest))
          (ground (arith, append_assoc (other_bytes len) m rest)) in
      let (s₂, got₂, left₂) = read_rest-append s₁ (other_bytes len) (m ++ rest) left₁ in
      let (s₃, got₃, left₃) = read-append s₂ m rest left₂ in
      (
        s₃,
        ground (arith, got₁, got₂, got₃, head_length-first len, decode_header-header len fits),
        left₃,
      )

module _ (w : Writer) where
  open w use {State, sent, write_all, write_all_sent, flush, flush_sent}

  -- The two writers do the same: whatever is in the reused buffer, `write_frame_buffered` leaves the
  -- stream, or fails, as `write_frame` does.
  pub write_frame_buffered-write_frame :
      (m buf : List ℕ) (s : State) → (write_frame_buffered w m buf s).1 ≡ write_frame w m s
  unfolding write_frame_buffered write_frame
  write_frame_buffered-write_frame m buf s = elim (frame_cases (encode_frame m)) [
    | inl (f, hf) ↦ ground (arith, hf, (encoders_agree m []).0)
    | inr (x, hx) ↦ ground (arith, hx, (encoders_agree m []).0)
  ]

  write_frame-sent :
      (m : List ℕ) (s s' : State)
      → write_frame w m s ≡ ok s'
      → (frame : List ℕ) × (encode_frame m ≡ ok frame) × (sent s' ≡ sent s ++ frame)
  unfolding write_frame
  write_frame-sent m s s' e = elim (frame_cases (encode_frame m)) [
    | inl (f, hf) ↦
        let go : (q : IoResult State)
            → write_all f s ≡ q
            → (frame : List ℕ) × (encode_frame m ≡ ok frame) × (sent s' ≡ sent s ++ frame) =
          elim [
            | ok s₁ ↦
                λ h. (f, hf, flush_sent s₁ s' (ground (arith, hf, h)) ∙ write_all_sent f s s₁ h)
            | err x ↦ λ h. absurd (ground (arith, hf, h))
          ] in
        go (write_all f s) refl
    | inr (x, hx) ↦ absurd (ground (arith, hx))
  ]

-- A message that `write_frame` sent first on a connection is the message that `read_frame` returns
-- at its other end, with the reader left at the bytes that come after.
pub read_frame-write_frame :
    (r : Reader) (w : Writer) (m rest : List ℕ) (s s' : w.State) (t : r.State)
    → w.sent s ≡ []
    → write_frame w m s ≡ ok s'
    → r.pending t ≡ w.sent s' ++ rest
    → (t' : r.State) × (read_frame r t ≡ ok (m, t')) × (r.pending t' ≡ rest)
read_frame-write_frame r w m rest s s' t fresh e p =
    let (frame, hf, hs) = write_frame-sent w m s s' e in
    read_frame-encode_frame r t m frame rest hf (rw (hs, fresh) at p)
