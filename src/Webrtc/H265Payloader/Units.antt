-- ===== src/Webrtc/H265Payloader/Units.antt =====
-- `payload` on an Annex B stream: the units between the start codes are handed to `emit` in order.
use one_kvm_stream_box.Base.{
  ℕ, zero, suc, ◌+◌, ◌-◌, ◌≤◌, ◌<◌, ◌≡◌, refl, sym, ap, ◌∙◌, inl, inr, Bool, true, false, ◌&&◌,
  ◌||◌, Option, none, some, List, [], ◌∷◌, ◌++◌, append-nil, arith, leb, ◌==◌, if◌then◌else◌,
  Bool-cases, length, take, drop, All, drop-drop, length-append, take-length-append,
  drop-length-append,
}
use one_kvm_stream_box.Webrtc.H265Payloader.{
  H265Payloader, find_start_code, next_ind, emit, unit_between, payload_loop, payload,
}

-- The bytes after `seen` seen hold no start code and do not end in a zero.
unfoldable pub is_clean : ℕ → List ℕ → Bool
is_clean seen [] = seen == 0
is_clean seen (b ∷ bytes) =
    let rest = is_clean (if b == 0 then seen + 1 else 0) bytes in
    if b == 0 then rest else if b == 1 && leb 2 seen then false else rest

-- A unit behind a start code of four bytes, or of three.
pub record Coded : Type 0 where
  pub long : Bool
  pub nalu : List ℕ

abbrev pub start_code : Bool → List ℕ
start_code long = if long then 0 ∷ 0 ∷ 0 ∷ 1 ∷ [] else 0 ∷ 0 ∷ 1 ∷ []

abbrev pub code_length : Bool → ℕ
code_length long = if long then 4 else 3

unfoldable pub stream : List Coded → List ℕ
stream [] = []
stream (c ∷ cs) = start_code c.long ++ (c.nalu ++ stream cs)

-- The units, one after the other.
unfoldable pub emit_all :
    H265Payloader → List Coded → ℕ → List (List ℕ) → H265Payloader × List (List ℕ)
emit_all s [] mtu payloads = (s, payloads)
emit_all s (c ∷ cs) mtu payloads =
    let (s', sent) = emit s c.nalu mtu payloads in emit_all s' cs mtu sent

abbrev pub IsClean : Coded → Type 0
IsClean c = is_clean 0 c.nalu ≡ true

-- Where the scan for a start code stands before a stream.
abbrev next_of : ℕ → List Coded → Option (ℕ × ℕ)
next_of i [] = none
next_of i (c ∷ cs) = some (i, code_length c.long)

scan-clean :
    (i seen : ℕ) (nalu rest : List ℕ)
    → is_clean seen nalu ≡ true
    → find_start_code i seen (nalu ++ rest) ≡ find_start_code (i + length nalu) 0 rest
unfolding is_clean find_start_code
scan-clean i seen [] rest h =
    let none_seen : seen ≡ 0 = ground (arith, h) in
    let here : i ≡ i + 0 = omega arith in
    ap (λ (z : ℕ). find_start_code i z rest) none_seen
    ∙ ap (λ (k : ℕ). find_start_code k 0 rest) here
scan-clean i seen (b ∷ nalu) rest h =
    let on : (i + 1) + length nalu ≡ i + suc (length nalu) = omega arith in
    let then_rest = ap (λ (k : ℕ). find_start_code k 0 rest) on in
    elim (Bool-cases (b == 0)) [
      | inl is_zero ↦ ground (arith, is_zero, then_rest, scan-clean (i + 1) (seen + 1) nalu rest)
      | inr other ↦ ground (arith, other, then_rest, scan-clean (i + 1) 0 nalu rest)
    ]

scan-stream : (i : ℕ) (cs : List Coded) → find_start_code i 0 (stream cs) ≡ next_of i cs
unfolding find_start_code stream
scan-stream i [] = refl
scan-stream i (c ∷ cs) = elim (Bool-cases c.long) [
  | inl long ↦
      let at : i + 1 + 1 + 1 - 3 ≡ i = omega arith in simp long (ap (λ (k : ℕ). some (k, 4)) at)
  | inr short ↦
      let at : i + 1 + 1 - 2 ≡ i = omega arith in simp short (ap (λ (k : ℕ). some (k, 3)) at)
]

length-start_code : (long : Bool) → length (start_code long) ≡ code_length long
length-start_code true = refl
length-start_code false = refl

drop-start_code :
    (c : Coded) (rest : List ℕ) → drop (code_length c.long) (start_code c.long ++ rest) ≡ rest
drop-start_code c rest = elim (Bool-cases c.long) [
  | inl long ↦ simp long refl
  | inr short ↦ simp short refl
]

-- Behind a unit, the scan finds the next start code or the end.
next-here :
    (p : ℕ) (nalu : List ℕ) (cs : List Coded) (bytes : List ℕ)
    → drop p bytes ≡ nalu ++ stream cs
    → is_clean 0 nalu ≡ true
    → next_ind bytes p ≡ next_of (p + length nalu) cs
unfolding next_ind
next-here p nalu cs bytes here clean =
    ap (find_start_code p 0) here
    ∙ scan-clean p 0 nalu (stream cs) clean
    ∙ scan-stream (p + length nalu) cs

unit-here :
    (p : ℕ) (nalu : List ℕ) (cs : List Coded) (bytes : List ℕ)
    → drop p bytes ≡ nalu ++ stream cs
    → unit_between p (next_of (p + length nalu) cs) bytes ≡ nalu
unfolding stream
unit-here p nalu [] bytes here = here ∙ append-nil nalu
unit-here p nalu (c ∷ cs) bytes here =
    let n : p + length nalu - p ≡ length nalu = omega arith in
    ap (λ (k : ℕ). take k (drop p bytes)) n
    ∙ ap (take (length nalu)) here
    ∙ take-length-append nalu (stream (c ∷ cs))

rest-here :
    (p : ℕ) (nalu : List ℕ) (c : Coded) (cs : List Coded) (bytes : List ℕ)
    → drop p bytes ≡ nalu ++ stream (c ∷ cs)
    → drop (p + length nalu + code_length c.long) bytes ≡ c.nalu ++ stream cs
unfolding stream
rest-here p nalu c cs bytes here =
    sym (drop-drop (p + length nalu) (code_length c.long) bytes)
    ∙ ap (drop (code_length c.long)) (
        sym (drop-drop p (length nalu) bytes)
        ∙ ap (drop (length nalu)) here
        ∙ drop-length-append nalu (stream (c ∷ cs)))
    ∙ drop-start_code c (c.nalu ++ stream cs)

loop_round :
    (fuel at : ℕ) (c : Coded) (cs : List Coded) (s : H265Payloader) (mtu : ℕ) (bytes : List ℕ)
    (payloads : List (List ℕ))
    → drop (at + code_length c.long) bytes ≡ c.nalu ++ stream cs
    → IsClean c
    → payload_loop (suc fuel) (some (at, code_length c.long)) s mtu bytes payloads
      ≡ payload_loop fuel
          (next_of (at + code_length c.long + length c.nalu) cs)
          (emit s c.nalu mtu payloads).0
          mtu
          bytes
          (emit s c.nalu mtu payloads).1
unfolding payload_loop
loop_round fuel at c cs s mtu bytes payloads here clean =
    let p = at + code_length c.long in
    let next = next_of (p + length c.nalu) cs in
    ap
      (λ n.
        payload_loop fuel n (emit s (unit_between p n bytes) mtu payloads).0 mtu bytes
          (emit s (unit_between p n bytes) mtu payloads).1)
      (next-here p c.nalu cs bytes here clean)
    ∙ ap (λ u. payload_loop fuel next (emit s u mtu payloads).0 mtu bytes (emit s u mtu payloads).1)
        (unit-here p c.nalu cs bytes here)

loop-done :
    (fuel : ℕ) (s : H265Payloader) (mtu : ℕ) (bytes : List ℕ) (payloads : List (List ℕ))
    → payload_loop fuel none s mtu bytes payloads ≡ (s, payloads)
unfolding payload_loop
loop-done zero s mtu bytes payloads = refl
loop-done (suc fuel) s mtu bytes payloads = refl

-- The loop, with a unit and the rest of the stream behind the start code at `at`.
loop-units :
    (fuel at : ℕ) (c : Coded) (cs : List Coded) (s : H265Payloader) (mtu : ℕ) (bytes : List ℕ)
    (payloads : List (List ℕ))
    → length cs < fuel
    → drop (at + code_length c.long) bytes ≡ c.nalu ++ stream cs
    → All IsClean (c ∷ cs)
    → payload_loop fuel (some (at, code_length c.long)) s mtu bytes payloads
      ≡ emit_all s (c ∷ cs) mtu payloads
unfolding emit_all
loop-units zero at c cs s mtu bytes payloads enough here clean = absurd (omega arith)
loop-units (suc fuel) at c [] s mtu bytes payloads enough here clean =
    loop_round fuel at c [] s mtu bytes payloads here clean.0 ∙ loop-done fuel _ mtu bytes _
loop-units (suc fuel) at c (c' ∷ cs) s mtu bytes payloads enough here clean =
    let p = at + code_length c.long in
    loop_round fuel at c (c' ∷ cs) s mtu bytes payloads here clean.0
    ∙ loop-units fuel (p + length c.nalu) c' cs (emit s c.nalu mtu payloads).0 mtu bytes
        (emit s c.nalu mtu payloads).1 (omega arith) (rest-here p c.nalu c' cs bytes here) clean.1

code_length-pos : (long : Bool) → 1 ≤ code_length long
code_length-pos true = omega arith
code_length-pos false = omega arith

length-stream : (cs : List Coded) → length cs ≤ length (stream cs)
unfolding stream
length-stream [] = omega arith
length-stream (c ∷ cs) = ground (
  arith,
  length-append (start_code c.long) (c.nalu ++ stream cs),
  length-append c.nalu (stream cs),
  length-stream cs,
  length-start_code c.long,
  code_length-pos c.long,
)

-- For a packet size of one or more, and on a stream of units, each behind a start code of three or four bytes,
-- with no start code in a unit and no zero at its end, `payload` hands just these units to `emit`, in
-- their order, from the state that the unit before has left; what it returns is what they appended. The
-- fuel of its loop is enough.
pub payload_units :
    (s : H265Payloader) (c : Coded) (cs : List Coded) (mtu : ℕ)
    → 1 ≤ mtu
    → All IsClean (c ∷ cs)
    → payload s mtu (stream (c ∷ cs)) ≡ emit_all s (c ∷ cs) mtu []
unfolding payload next_ind stream
payload_units s c cs mtu hm clean =
    let bytes = stream (c ∷ cs) in
    let full = length-stream (c ∷ cs) in
    let guard : (length bytes == 0 || mtu == 0) ≡ false = ground (arith, full) in
    let start : 0 + code_length c.long ≡ code_length c.long = omega arith in
    rw (guard, scan-stream 0 (c ∷ cs))
      (loop-units (length bytes) 0 c cs s mtu bytes [] (omega (arith, full))
        (ap (λ (k : ℕ). drop k bytes) start ∙ drop-start_code c (c.nalu ++ stream cs)) clean)
