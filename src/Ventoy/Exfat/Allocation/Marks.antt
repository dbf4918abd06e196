-- ===== src/Ventoy/Exfat/Allocation/Marks.antt =====
-- Marking several clusters, and the bitmap on the disk.
use one_kvm_stream_box.Base.{
  ℕ, ◌+◌, ◌*◌, ◌^◌, ◌≤◌, ◌<◌, ◌≡◌, refl, ◌∙◌, Bool, false, ◌||◌, List, [], ◌∷◌, arith, ◌==◌,
  if◌then◌else◌, length, All, All-map, IsByte,
}
use one_kvm_stream_box.Ventoy.Exfat.{is_cluster_allocated, set_cluster_allocated, mark_all}
use one_kvm_stream_box.Ventoy.Exfat.Bits.{
  is_cluster_allocated-set, length-set_cluster_allocated, set_cluster_allocated-IsByte,
}

abbrev pub has : ℕ → List ℕ → Bool
has c [] = false
has c (d ∷ ds) = (d == c) || has c ds

abbrev pub IsMarkable : List ℕ → ℕ → Type 0
IsMarkable bitmap c = (2 ≤ c) × (c < 2 ^ 32) × (c < 8 * length bitmap + 2)

pub length-mark_all :
    (v : Bool) (cs bitmap : List ℕ) → length (mark_all v bitmap cs) ≡ length bitmap
unfolding mark_all
length-mark_all v [] bitmap = refl
length-mark_all v (c ∷ cs) bitmap =
    length-mark_all v cs (set_cluster_allocated v bitmap c)
    ∙ length-set_cluster_allocated v bitmap c

pub mark_all-IsByte :
    (v : Bool) (cs bitmap : List ℕ) → All IsByte bitmap → All IsByte (mark_all v bitmap cs)
unfolding mark_all
mark_all-IsByte v [] bitmap h = h
mark_all-IsByte v (c ∷ cs) bitmap h =
    mark_all-IsByte v cs (set_cluster_allocated v bitmap c)
      (set_cluster_allocated-IsByte v bitmap c h)

-- The clusters of the list are marked, and the marks of all others are as they were.
pub is_cluster_allocated-mark_all :
    (v : Bool) (cs bitmap : List ℕ) (c' : ℕ)
    → All IsByte bitmap
    → All (IsMarkable bitmap) cs
    → 2 ≤ c'
    → c' < 2 ^ 32
    → is_cluster_allocated (mark_all v bitmap cs) c'
      ≡ (if has c' cs then v else is_cluster_allocated bitmap c')
unfolding mark_all
is_cluster_allocated-mark_all v [] bitmap c' h m lo hi = refl
is_cluster_allocated-mark_all v (c ∷ cs) bitmap c' h (here, m) lo hi =
    let bitmap' = set_cluster_allocated v bitmap c in
    let same = length-set_cluster_allocated v bitmap c in
    let one = is_cluster_allocated-set v bitmap c c' h here.0 here.1 lo hi here.2 in
    let rest =
      is_cluster_allocated-mark_all v cs bitmap' c' (set_cluster_allocated-IsByte v bitmap c h)
        (All-map (IsMarkable bitmap) (λ d k. (k.0, k.1, omega (arith, k.2, same))) cs m) lo hi in
    rest ∙ ground (arith, one)
