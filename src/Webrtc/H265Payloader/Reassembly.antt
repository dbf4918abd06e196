-- ===== src/Webrtc/H265Payloader/Reassembly.antt =====
-- A receiver of RFC 7798 puts the fragments of a unit together again. The receiver is not part of the
-- program; it is the reading of the packets that the RFC gives.
use one_kvm_stream_box.Base.{
  ℕ, zero, suc, ◌+◌, ◌-◌, ◌*◌, ◌/◌, ◌^◌, ◌≤◌, ◌<◌, min, bit_and, bit_or, ◌≡◌, refl, sym, ap, ◌∙◌,
  inl, inr, Bool, true, false, not, ◌&&◌, Option, none, some, List, [], ◌∷◌, ◌++◌, arith, ltb, leb,
  ◌==◌, ◌!=◌, if◌then◌else◌, eqb, eqb→eq, ==_iff, &&→both, Bool-cases, all_below, all_below_sound,
  both, both_sound, length, get_or, take, drop, drop-drop, take-all, take-append-drop, length-drop,
}
use mathlib.Core.Option
use one_kvm_stream_box.Webrtc.H265Payloader.{get_nal_type, fu_header, fu_packet, emit_fragmented}
use one_kvm_stream_box.Webrtc.H265Payloader.Fragments.{fragments, emit_fragmented-fragments}

-- The S bit, the E bit and the type in the third byte of a fragment.
abbrev pub starts : List ℕ → Bool
starts p = bit_and (get_or p 2 0) 0x80 != 0

abbrev pub ends : List ℕ → Bool
ends p = bit_and (get_or p 2 0) 0x40 != 0

abbrev pub fu_type : List ℕ → ℕ
fu_type p = bit_and (get_or p 2 0) 0x3F

-- The data of the fragments up to the one with the E bit, which has to be the last. Of these fragments the
-- first has to have the S bit where `first` says so, and the others must not have it.
unfoldable pub collect : (first : Bool) → List (List ℕ) → Option (List ℕ)
collect first [] = none
collect first (p ∷ ps) =
    let later = Option.map (λ body. drop 3 p ++ body) (collect false ps) in
    if not (eqb (starts p) first)
    then none
    else if ends p
    then (if length ps == 0 then some (drop 3 p) else none)
    else later

-- The header of the unit comes from the first fragment.
unfoldable pub reassemble : List (List ℕ) → Option (List ℕ)
reassemble [] = none
reassemble (p ∷ ps) =
    Option.map (λ body. bit_or (bit_and (get_or p 0 0) 0x81) (fu_type p * 2) ∷ get_or p 1 0 ∷ body)
      (collect true (p ∷ ps))

-- The three fields of the fragment header, for every type of six bits.
header_fields : ℕ → Bool
header_fields t = both (λ f. both (λ l.
    let h = fu_header t f l in
    eqb (bit_and h 0x80 != 0) f && eqb (bit_and h 0x40 != 0) l && (bit_and h 0x3F == t)))

header_table : all_below 64 header_fields ≡ true
unfolding header_fields all_below fu_header
header_table = refl

fu_header_fields :
    (t : ℕ) (f l : Bool)
    → t < 64
    → ((bit_and (fu_header t f l) 0x80 != 0) ≡ f)
      × ((bit_and (fu_header t f l) 0x40 != 0) ≡ l)
      × (bit_and (fu_header t f l) 0x3F ≡ t)
unfolding header_fields
fu_header_fields t f l h =
    let row = all_below_sound 64 header_fields t header_table h in
    let cell =
      both_sound
        (λ l.
          eqb (bit_and (fu_header t f l) 0x80 != 0) f
          && eqb (bit_and (fu_header t f l) 0x40 != 0) l
          && (bit_and (fu_header t f l) 0x3F == t))
        l
        (both_sound
          (λ f. both (λ l.
            eqb (bit_and (fu_header t f l) 0x80 != 0) f
            && eqb (bit_and (fu_header t f l) 0x40 != 0) l
            && (bit_and (fu_header t f l) 0x3F == t)))
          f row) in
    let (ab, c) = &&→both _ _ cell in
    let (a, b) = &&→both _ _ ab in (eqb→eq _ _ a, eqb→eq _ _ b, (==_iff _ t).0 c)

-- The first byte of the unit from the first byte of a fragment and the type.
first_byte_table :
    all_below 256
      (λ b. bit_or (bit_and (bit_or (bit_and b 0x81) 98) 0x81) (bit_and (b / 2) 0x3F * 2) == b)
    ≡ true
unfolding all_below
first_byte_table = refl

type_table : all_below 256 (λ b. ltb (bit_and (b / 2) 0x3F) 64) ≡ true
unfolding all_below
type_table = refl

get_nal_type-lt : (nalu : List ℕ) → get_or nalu 0 0 < 256 → get_nal_type nalu < 64
unfolding get_nal_type
get_nal_type-lt nalu h =
    ground (
      arith,
      all_below_sound 256 (λ b. ltb (bit_and (b / 2) 0x3F) 64) (get_or nalu 0 0) type_table h,
    )

get_nal_type_long :
    (nalu : List ℕ) → 2 < length nalu → get_nal_type nalu ≡ bit_and (get_or nalu 0 0 / 2) 0x3F
unfolding get_nal_type
get_nal_type_long nalu h = ground arith

starts-packet :
    (nalu : List ℕ) (t offset n : ℕ) → t < 64 → starts (fu_packet nalu t offset n) ≡ (offset == 0)
unfolding fu_packet
starts-packet nalu t offset n h = (fu_header_fields t (offset == 0) _ h).0

ends-packet :
    (nalu : List ℕ) (t offset n : ℕ)
    → t < 64
    → ends (fu_packet nalu t offset n) ≡ leb (length (drop 2 nalu)) (offset + n)
unfolding fu_packet
ends-packet nalu t offset n h = (fu_header_fields t (offset == 0) _ h).1

body-packet :
    (nalu : List ℕ) (t offset n : ℕ)
    → drop 3 (fu_packet nalu t offset n) ≡ take n (drop offset (drop 2 nalu))
unfolding fu_packet
body-packet nalu t offset n = refl

fragments-done :
    (fuel : ℕ) (nalu : List ℕ) (t size offset : ℕ)
    → length (drop 2 nalu) ≤ offset
    → fragments fuel nalu t size offset ≡ []
unfolding fragments
fragments-done zero nalu t size offset h = refl
fragments-done (suc fuel) nalu t size offset h = ground arith

fragments-more :
    (fuel : ℕ) (nalu : List ℕ) (t size offset : ℕ)
    → offset < length (drop 2 nalu)
    → fragments (suc fuel) nalu t size offset
      ≡ fu_packet nalu t offset (min (length (drop 2 nalu) - offset) size)
        ∷ fragments fuel nalu t size (offset + min (length (drop 2 nalu) - offset) size)
unfolding fragments
fragments-more fuel nalu t size offset h = ground arith

collect-last :
    (first : Bool) (p : List ℕ) (ps : List (List ℕ))
    → starts p ≡ first
    → ends p ≡ true
    → ps ≡ []
    → collect first (p ∷ ps) ≡ some (drop 3 p)
unfolding collect
collect-last true p ps s e n = rw (s, e, n) refl
collect-last false p ps s e n = rw (s, e, n) refl

collect-more :
    (first : Bool) (p body : List ℕ) (ps : List (List ℕ))
    → starts p ≡ first
    → ends p ≡ false
    → collect false ps ≡ some body
    → collect first (p ∷ ps) ≡ some (drop 3 p ++ body)
unfolding collect
collect-more true p body ps s e c = rw (s, e, c) refl
collect-more false p body ps s e c = rw (s, e, c) refl

collect-fragments :
    (fuel : ℕ) (nalu : List ℕ) (t size offset : ℕ)
    → t < 64
    → 1 ≤ size
    → offset < length (drop 2 nalu)
    → length (drop 2 nalu) - offset ≤ fuel
    → collect (offset == 0) (fragments fuel nalu t size offset) ≡ some (drop offset (drop 2 nalu))
collect-fragments zero nalu t size offset ht hs ho hf = absurd (omega arith)
collect-fragments (suc fuel) nalu t size offset ht hs ho hf =
    let full = drop 2 nalu in
    let n = min (length full - offset) size in
    let p = fu_packet nalu t offset n in
    let ps = fragments fuel nalu t size (offset + n) in
    let s = starts-packet nalu t offset n ht in
    let e = ends-packet nalu t offset n ht in
    let body = body-packet nalu t offset n in
    rw (fragments-more fuel nalu t size offset ho)
      (elim (Bool-cases (leb (length full) (offset + n))) [
        | inl last ↦
            collect-last (offset == 0) p ps s (e ∙ last)
              (fragments-done fuel nalu t size (offset + n) (ground (arith, last)))
            ∙ ap some (
                body
                ∙ take-all n (drop offset full) (ground (arith, last, length-drop offset full)))
        | inr more ↦
            let behind : ((offset + n) == 0) ≡ false = ground (arith, more) in
            collect-more (offset == 0) p (drop (offset + n) full) ps s (e ∙ more) (
              ap (λ (first : Bool). collect first ps) (sym behind)
              ∙ collect-fragments fuel nalu t size (offset + n) ht hs (ground (arith, more))
                  (ground (arith, more)))
            ∙ ap some (
                ap (λ (x : List ℕ). x ++ drop (offset + n) full) body
                ∙ ap (λ (x : List ℕ). take n (drop offset full) ++ x)
                    (sym (drop-drop offset n full))
                ∙ take-append-drop n (drop offset full))
      ])

reassemble-first :
    (p body : List ℕ) (ps : List (List ℕ))
    → collect true (p ∷ ps) ≡ some body
    → reassemble (p ∷ ps)
      ≡ some (bit_or (bit_and (get_or p 0 0) 0x81) (fu_type p * 2) ∷ get_or p 1 0 ∷ body)
unfolding reassemble
reassemble-first p body ps c = rw c refl

-- The first byte of the unit, from the first fragment of it.
first_byte :
    (nalu : List ℕ) (n : ℕ)
    → 2 < length nalu
    → get_or nalu 0 0 < 256
    → bit_or
        (bit_and (get_or (fu_packet nalu (get_nal_type nalu) 0 n) 0 0) 0x81)
        (fu_type (fu_packet nalu (get_nal_type nalu) 0 n) * 2)
      ≡ get_or nalu 0 0
unfolding fu_packet
first_byte nalu n h hb =
    let t = get_nal_type nalu in
    let b = get_or nalu 0 0 in
    let field =
      (fu_header_fields t true (leb (length (drop 2 nalu)) (0 + n)) (get_nal_type-lt nalu hb)).2 in
    let ty = get_nal_type_long nalu h in
    let row =
      (==_iff (bit_or (bit_and (bit_or (bit_and b 0x81) 98) 0x81) (bit_and (b / 2) 0x3F * 2)) b).0 (
        all_below_sound 256
          (λ b. bit_or (bit_and (bit_or (bit_and b 0x81) 98) 0x81) (bit_and (b / 2) 0x3F * 2) == b)
          b first_byte_table hb) in
    ap (λ (x : ℕ). bit_or (bit_and (bit_or (bit_and b 0x81) 98) 0x81) (x * 2)) (field ∙ ty) ∙ row

-- A NAL unit of bytes that is more than its header, cut for any packet size of four bytes or more, is
-- put together again from its fragments, and is the unit that was cut. The receiver wants the S bit
-- in the first fragment and in no other, and the E bit in the last and in no other, and no byte is lost or
-- doubled.
pub reassemble-emit_fragmented :
    (b₀ b₁ b₂ : ℕ) (body : List ℕ) (mtu : ℕ)
    → b₀ < 256
    → 4 ≤ mtu
    → mtu < 2 ^ 64
    → reassemble (emit_fragmented (b₀ ∷ b₁ ∷ b₂ ∷ body) mtu []) ≡ some (b₀ ∷ b₁ ∷ b₂ ∷ body)
unfolding fu_packet
reassemble-emit_fragmented b₀ b₁ b₂ body mtu hb hm hm' =
    let nalu = b₀ ∷ b₁ ∷ b₂ ∷ body in
    let t = get_nal_type nalu in
    let ht = get_nal_type-lt nalu hb in
    let size = mtu - 3 in
    let n = min (suc (length body) - 0) size in
    let fuel : length nalu - 2 ≡ suc (length body) = omega arith in
    let cut = emit_fragmented-fragments nalu mtu [] hm hm' (omega arith) in
    let first = fragments-more (length body) nalu t size 0 (omega arith) in
    let whole =
      collect-fragments (suc (length body)) nalu t size 0 ht (omega arith) (omega arith)
        (omega arith) in
    ap reassemble (cut ∙ ap (λ (k : ℕ). fragments k nalu t size 0) fuel ∙ first)
    ∙ reassemble-first (fu_packet nalu t 0 n) (b₂ ∷ body)
        (fragments (length body) nalu t size (0 + n))
        (sym (ap (λ (ps : List (List ℕ)). collect true ps) first) ∙ whole)
    ∙ ap (λ (b : ℕ). some (b ∷ b₁ ∷ b₂ ∷ body)) (first_byte nalu n (omega arith) hb)
