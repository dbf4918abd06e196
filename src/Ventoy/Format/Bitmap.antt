-- ===== src/Ventoy/Format/Bitmap.antt =====
-- The allocation bitmap of a fresh volume, as `is_cluster_allocated` reads it.
use one_kvm_stream_box.Base.{
  ℕ, zero, suc, ◌+◌, ◌*◌, ◌/◌, ◌%◌, ◌^◌, ◌≤◌, ◌<◌, ◌≡◌, refl, ◌∙◌, true, false, ◌&&◌, ◌||◌, List,
  arith, ltb, leb, ◌==◌, length, get_or, replicate, All, length-replicate, u32, IsByte,
}
use one_kvm_stream_box.Base.Bits.{bit_and-le}
use one_kvm_stream_box.Ventoy.Exfat.{sub_u32, is_cluster_allocated, set_cluster_allocated}
use one_kvm_stream_box.Ventoy.Exfat.Bits.{
  is_cluster_allocated-set, length-set_cluster_allocated, set_cluster_allocated-IsByte,
}
use one_kvm_stream_box.Ventoy.Format.{mark_used, mark_run, format_bitmap}

-- `format_exfat` marks bit `m`, which is the bit of cluster `m + 2`.
mark_used_lem :
    (bitmap : List ℕ) (m : ℕ)
    → m + 2 < 2 ^ 32
    → mark_used bitmap m ≡ set_cluster_allocated true bitmap (m + 2)
unfolding mark_used set_cluster_allocated
mark_used_lem bitmap m h = let e : sub_u32 (m + 2) 2 ≡ m = omega arith in rw e refl

marked :
    (bitmap : List ℕ) (m c : ℕ)
    → All IsByte bitmap
    → 2 ≤ c
    → c < 2 ^ 32
    → m < 8 * length bitmap
    → m + 2 < 2 ^ 32
    → (is_cluster_allocated (mark_used bitmap m) c ≡ (m + 2 == c || is_cluster_allocated bitmap c))
      × (length (mark_used bitmap m) ≡ length bitmap)
      × All IsByte (mark_used bitmap m)
marked bitmap m c h lo hi inside small =
    let one =
      is_cluster_allocated-set true bitmap (m + 2) c h (omega arith) small lo hi (omega arith) in
    rw (mark_used_lem bitmap m small) (
      one ∙ ground arith,
      length-set_cluster_allocated true bitmap (m + 2),
      set_cluster_allocated-IsByte true bitmap (m + 2) h,
    )

run_marked :
    (n m c : ℕ) (bitmap : List ℕ)
    → All IsByte bitmap
    → 2 ≤ c
    → c < 2 ^ 32
    → m + n ≤ 8 * length bitmap
    → m + n + 2 < 2 ^ 32
    → (is_cluster_allocated (mark_run n m bitmap) c
        ≡ (leb (m + 2) c && ltb c (m + n + 2) || is_cluster_allocated bitmap c))
      × (length (mark_run n m bitmap) ≡ length bitmap)
      × All IsByte (mark_run n m bitmap)
unfolding mark_run
run_marked zero m c bitmap h lo hi inside small = (ground arith, refl, h)
run_marked (suc n) m c bitmap h lo hi inside small =
    let (here, size, bytes) = marked bitmap m c h lo hi (omega arith) (omega arith) in
    let (rest, size', bytes') =
      run_marked n (m + 1) c (mark_used bitmap m) bytes lo hi (omega (arith, inside, size))
        (omega arith) in
    (rest ∙ ground (arith, here), size' ∙ size, bytes')

replicate-IsByte : (n : ℕ) → All IsByte (replicate n 0)
replicate-IsByte zero = tt
replicate-IsByte (suc n) = (omega arith, replicate-IsByte n)

get_or-replicate : (n k : ℕ) → get_or (replicate {A = ℕ} n 0) k 0 ≡ 0
get_or-replicate zero k = refl
get_or-replicate (suc n) zero = refl
get_or-replicate (suc n) (suc k) = get_or-replicate n k

none_marked : (n c : ℕ) → is_cluster_allocated (replicate {A = ℕ} n 0) c ≡ false
unfolding is_cluster_allocated
none_marked n c =
    let index = sub_u32 c 2 in
    rw (get_or-replicate n (index / 8)) ground (arith, bit_and-le 0 (2 ^ (index % 8)))

pub length-format_bitmap :
    (cluster_size upcase : ℕ)
    → upcase + 4 ≤ 8 * cluster_size
    → upcase + 6 < 2 ^ 32
    → length (format_bitmap cluster_size upcase) ≡ cluster_size
unfolding format_bitmap
length-format_bitmap cluster_size upcase inside small =
    let blank : List ℕ = replicate cluster_size 0 in
    let size = length-replicate {A = ℕ} cluster_size 0 in
    let root : u32 (3 + upcase) ≡ 3 + upcase = omega arith in
    let (a, a₁, a₂) =
      marked blank 2 2 (replicate-IsByte cluster_size) (omega arith) (omega arith)
        (omega (arith, size)) (omega arith) in
    let (b, b₁, b₂) =
      run_marked upcase 3 2 (mark_used blank 2) a₂ (omega arith) (omega arith)
        (omega (arith, a₁, size)) (omega arith) in
    let (d, d₁, d₂) =
      marked (mark_run upcase 3 (mark_used blank 2)) (3 + upcase) 2 b₂ (omega arith) (omega arith)
        (omega (arith, b₁, a₁, size)) (omega arith) in
    rw root (d₁ ∙ b₁ ∙ a₁ ∙ size)

-- A fresh volume has its own structures in clusters 2 (the bitmap), 3 and on (the upcase table) and
-- 3 + upcase (the root directory), but its bitmap has the bits of the clusters two further: for
-- `is_cluster_allocated`, clusters 2 and 3 are free, and the two clusters behind the root directory are
-- taken, where the bitmap has as many bits.
pub is_cluster_allocated-format_bitmap :
    (cluster_size upcase c : ℕ)
    → 2 ≤ c
    → c < 2 ^ 32
    → upcase + 4 ≤ 8 * cluster_size
    → upcase + 6 < 2 ^ 32
    → is_cluster_allocated (format_bitmap cluster_size upcase) c
      ≡ (leb 4 c && leb c (3 + upcase + 2))
unfolding format_bitmap
is_cluster_allocated-format_bitmap cluster_size upcase c lo hi inside small =
    let blank : List ℕ = replicate cluster_size 0 in
    let size = length-replicate {A = ℕ} cluster_size 0 in
    let root : u32 (3 + upcase) ≡ 3 + upcase = omega arith in
    let (a, a₁, a₂) =
      marked blank 2 c (replicate-IsByte cluster_size) lo hi (omega (arith, size)) (omega arith) in
    let (b, b₁, b₂) =
      run_marked upcase 3 c (mark_used blank 2) a₂ lo hi (omega (arith, a₁, size)) (omega arith) in
    let (d, d₁, d₂) =
      marked (mark_run upcase 3 (mark_used blank 2)) (3 + upcase) c b₂ lo hi
        (omega (arith, b₁, a₁, size)) (omega arith) in
    rw root (d ∙ ground (arith, b, a, none_marked cluster_size c))
