-- ===== src/Ventoy/Exfat/Bits.antt =====
-- The bits of the allocation bitmap, one for a cluster.
use one_kvm_stream_box.Base.{
  ℕ, ◌+◌, ◌-◌, ◌*◌, ◌/◌, ◌%◌, ◌^◌, ◌≤◌, ◌<◌, bit_and, bit_or, ◌≡◌, refl, ap, ◌∙◌, inl, inr, Bool,
  true, false, not, ◌&&◌, ◌||◌, List, arith, ltb, leb, ◌==◌, ◌!=◌, if◌then◌else◌, eqb, eqb→eq,
  ==_iff, &&→both, Bool-cases, all_below, all_below_sound, length, get_or, All, get_or-All, set,
  length-set, get_or-set, set-All, IsByte,
}
use one_kvm_stream_box.Ventoy.Exfat.{sub_u32, is_cluster_allocated, set_cluster_allocated}

-- Within a byte: a bit that is set, and a bit that is cleared, for each byte and each two places.
place_table :
    all_below 256 (λ b. all_below 8 (λ i. all_below 8 (λ j.
      eqb (bit_and (bit_or b (2 ^ i)) (2 ^ j) != 0) (i == j || bit_and b (2 ^ j) != 0)
      && eqb
          (bit_and (bit_and b (255 - 2 ^ i)) (2 ^ j) != 0)
          (not (i == j) && bit_and b (2 ^ j) != 0)
      && ltb (bit_or b (2 ^ i)) 256
      && ltb (bit_and b (255 - 2 ^ i)) 256)))
    ≡ true
unfolding all_below
place_table = refl

place :
    (b i j : ℕ)
    → b < 256
    → i < 8
    → j < 8
    → ((bit_and (bit_or b (2 ^ i)) (2 ^ j) != 0) ≡ (i == j || bit_and b (2 ^ j) != 0))
      × ((bit_and (bit_and b (255 - 2 ^ i)) (2 ^ j) != 0)
          ≡ (not (i == j) && bit_and b (2 ^ j) != 0))
      × (bit_or b (2 ^ i) < 256)
      × (bit_and b (255 - 2 ^ i) < 256)
place b i j hb hi hj =
    let row = all_below_sound 256 _ b place_table hb in
    let cell = all_below_sound 8 _ j (all_below_sound 8 _ i row hi) hj in
    let (abc, d) = &&→both _ _ cell in
    let (ab, c) = &&→both _ _ abc in
    let (a, b') = &&→both _ _ ab in
    (eqb→eq _ _ a, eqb→eq _ _ b', ground (arith, c), ground (arith, d))

-- The same by the number of the bit.
abbrev pub bit : List ℕ → ℕ → Bool
bit bytes n =
    if leb (length bytes) (n / 8)
    then false
    else bit_and (get_or bytes (n / 8) 0) (2 ^ (n % 8)) != 0

abbrev pub with_bit : Bool → ℕ → ℕ → ℕ
with_bit v b i = if v then bit_or b (2 ^ i) else bit_and b (255 - 2 ^ i)

with_bit_lem :
    (v : Bool) (b i j : ℕ)
    → b < 256
    → i < 8
    → j < 8
    → ((bit_and (with_bit v b i) (2 ^ j) != 0) ≡ (if i == j then v else bit_and b (2 ^ j) != 0))
      × (with_bit v b i < 256)
with_bit_lem true b i j hb hi hj = let (a, c, d, e) = place b i j hb hi hj in (a ∙ ground arith, d)
with_bit_lem false b i j hb hi hj = let (a, c, d, e) = place b i j hb hi hj in (c ∙ ground arith, e)

pub bit-set :
    (v : Bool) (bytes : List ℕ) (m n : ℕ)
    → All IsByte bytes
    → m / 8 < length bytes
    → bit (set bytes (m / 8) (with_bit v (get_or bytes (m / 8) 0) (m % 8))) n
      ≡ (if m == n then v else bit bytes n)
bit-set v bytes m n h small =
    let b = get_or bytes (m / 8) 0 in
    let new = with_bit v b (m % 8) in
    let here = get_or-set bytes (m / 8) (n / 8) new 0 small in
    let same_length = length-set bytes (m / 8) new in
    let hb : b < 256 = get_or-All IsByte bytes (m / 8) 0 (omega arith) h in
    let cell = (with_bit_lem v b (m % 8) (n % 8) hb (omega arith) (omega arith)).0 in
    elim (Bool-cases (m / 8 == n / 8)) [
      | inl one ↦
          let same : m / 8 ≡ n / 8 = (==_iff _ _).0 one in
          let old = ap (λ (k : ℕ). bit_and (get_or bytes k 0) (2 ^ (n % 8)) != 0) same in
          let guard : leb (length (set bytes (m / 8) new)) (n / 8) ≡ false =
            ground (arith, same_length, small, same) in
          let read : get_or (set bytes (m / 8) new) (n / 8) 0 ≡ new = ground (arith, here, one) in
          rw (guard, read) (cell ∙ ground (arith, old, same, small))
      | inr other ↦
          let read : get_or (set bytes (m / 8) new) (n / 8) 0 ≡ get_or bytes (n / 8) 0 =
            ground (arith, here, other) in
          rw (same_length, read) (ground (arith, other))
    ]

pub sub_u32_two : (c : ℕ) → 2 ≤ c → c < 2 ^ 32 → sub_u32 c 2 ≡ c - 2
sub_u32_two c lo hi = omega arith

-- Marking a cluster that the bitmap has a bit for changes just the answer for that cluster.
pub is_cluster_allocated-set :
    (v : Bool) (bitmap : List ℕ) (c c' : ℕ)
    → All IsByte bitmap
    → 2 ≤ c
    → c < 2 ^ 32
    → 2 ≤ c'
    → c' < 2 ^ 32
    → c < 8 * length bitmap + 2
    → is_cluster_allocated (set_cluster_allocated v bitmap c) c'
      ≡ (if c == c' then v else is_cluster_allocated bitmap c')
unfolding is_cluster_allocated set_cluster_allocated
is_cluster_allocated-set v bitmap c c' h lo hi lo' hi' inside =
    let small : (c - 2) / 8 < length bitmap = omega arith in
    let guard : ltb ((c - 2) / 8) (length bitmap) ≡ true = ground (arith, small) in
    rw (sub_u32_two c lo hi, sub_u32_two c' lo' hi', guard)
      (bit-set v bitmap (c - 2) (c' - 2) h small ∙ ground arith)

-- Beyond the bitmap nothing is marked, and every cluster counts as free.
pub set_cluster_allocated-beyond :
    (v : Bool) (bitmap : List ℕ) (c : ℕ)
    → 8 * length bitmap + 2 ≤ c
    → c < 2 ^ 32
    → set_cluster_allocated v bitmap c ≡ bitmap
unfolding set_cluster_allocated
set_cluster_allocated-beyond v bitmap c beyond hi =
    let guard : ltb ((c - 2) / 8) (length bitmap) ≡ false = ground arith in
    rw (sub_u32_two c (omega arith) hi, guard) refl

pub is_cluster_allocated-beyond :
    (bitmap : List ℕ) (c : ℕ)
    → 8 * length bitmap + 2 ≤ c
    → c < 2 ^ 32
    → is_cluster_allocated bitmap c ≡ false
unfolding is_cluster_allocated
is_cluster_allocated-beyond bitmap c beyond hi =
    let guard : leb (length bitmap) ((c - 2) / 8) ≡ true = ground arith in
    rw (sub_u32_two c (omega arith) hi, guard) refl

pub length-set_cluster_allocated :
    (v : Bool) (bitmap : List ℕ) (c : ℕ) → length (set_cluster_allocated v bitmap c) ≡ length bitmap
unfolding set_cluster_allocated
length-set_cluster_allocated v bitmap c = ground (
  arith,
  length-set bitmap (sub_u32 c 2 / 8)
      (with_bit v (get_or bitmap (sub_u32 c 2 / 8) 0) (sub_u32 c 2 % 8)),
)

pub set_cluster_allocated-IsByte :
    (v : Bool) (bitmap : List ℕ) (c : ℕ)
    → All IsByte bitmap
    → All IsByte (set_cluster_allocated v bitmap c)
unfolding set_cluster_allocated
set_cluster_allocated-IsByte v bitmap c h =
    let k = sub_u32 c 2 / 8 in
    let i = sub_u32 c 2 % 8 in
    let b = get_or bitmap k 0 in
    let hb : b < 256 = get_or-All IsByte bitmap k 0 (omega arith) h in
    let new = (with_bit_lem v b i i hb (omega arith) (omega arith)).1 in
    elim (Bool-cases (ltb k (length bitmap))) [
      | inl inside ↦ rw inside (set-All IsByte bitmap k (with_bit v b i) new h)
      | inr outside ↦ rw outside h
    ]
