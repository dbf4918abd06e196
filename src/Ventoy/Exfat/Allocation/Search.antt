-- ===== src/Ventoy/Exfat/Allocation/Search.antt =====
-- What the loop of `find_free_clusters` finds.
use one_kvm_stream_box.Base.{
  ℕ, zero, suc, ◌+◌, ◌-◌, ◌≤◌, ◌<◌, min, ◌≡◌, refl, Bool, true, false, List, [], ◌∷◌, arith, leb,
  if◌then◌else◌, length, All, All-map,
}
use one_kvm_stream_box.Ventoy.Exfat.{is_cluster_allocated, free_from}

-- In strictly ascending order.
abbrev pub IsAscending : List ℕ → Type 0
IsAscending [] = Unit
IsAscending (c ∷ cs) = All (λ d. c < d) cs × IsAscending cs

-- How many clusters are free, of as many as the number says, from one on.
unfoldable pub count_free : List ℕ → ℕ → ℕ → ℕ
count_free bitmap zero cluster = 0
count_free bitmap (suc n) cluster =
    (if is_cluster_allocated bitmap cluster then 0 else 1) + count_free bitmap n (cluster + 1)

abbrev pub IsFree : List ℕ → ℕ → ℕ → ℕ → Type 0
IsFree bitmap lo hi c = (is_cluster_allocated bitmap c ≡ false) × (lo ≤ c) × (c < hi)

-- The three ways of a round.
abbrev round : Bool → Bool → ℕ → List ℕ → List ℕ → List ℕ
round taken last c skip more = if taken then skip else if last then c ∷ [] else c ∷ more

round-All :
    (P : ℕ → Type 0) (taken last : Bool) (c : ℕ) (skip more : List ℕ)
    → All P skip
    → (taken ≡ false → P c)
    → All P more
    → All P (round taken last c skip more)
round-All P true last c skip more hs hc hm = hs
round-All P false true c skip more hs hc hm = (hc refl, tt)
round-All P false false c skip more hs hc hm = (hc refl, hm)

round-IsAscending :
    (taken last : Bool) (c : ℕ) (skip more : List ℕ)
    → IsAscending skip
    → All (λ d. c < d) more
    → IsAscending more
    → IsAscending (round taken last c skip more)
round-IsAscending true last c skip more hs ha hm = hs
round-IsAscending false true c skip more hs ha hm = (tt, tt)
round-IsAscending false false c skip more hs ha hm = (ha, hm)

module _ (bitmap : List ℕ) where
  pub free_from-IsFree :
      (n cluster count hi : ℕ)
      → cluster + n ≤ hi
      → All (IsFree bitmap cluster hi) (free_from bitmap n cluster count)
  unfolding free_from
  free_from-IsFree zero cluster count hi h = tt
  free_from-IsFree (suc n) cluster count hi h =
      let widen = λ (c : ℕ) (f : IsFree bitmap (cluster + 1) hi c).
        let r : IsFree bitmap cluster hi c = (f.0, omega (arith, f.1), f.2) in r in
      round-All (IsFree bitmap cluster hi) (is_cluster_allocated bitmap cluster) (leb count 1)
        cluster (free_from bitmap n (cluster + 1) count)
        (free_from bitmap n (cluster + 1) (count - 1))
        (All-map (IsFree bitmap (cluster + 1) hi) widen _
          (free_from-IsFree n (cluster + 1) count hi (omega arith)))
        (λ free. (free, omega arith, omega arith))
        (All-map (IsFree bitmap (cluster + 1) hi) widen _
          (free_from-IsFree n (cluster + 1) (count - 1) hi (omega arith)))

  pub free_from-IsAscending : (n cluster count : ℕ) → IsAscending (free_from bitmap n cluster count)
  unfolding free_from
  free_from-IsAscending zero cluster count = tt
  free_from-IsAscending (suc n) cluster count =
      round-IsAscending (is_cluster_allocated bitmap cluster) (leb count 1) cluster
        (free_from bitmap n (cluster + 1) count) (free_from bitmap n (cluster + 1) (count - 1))
        (free_from-IsAscending n (cluster + 1) count)
        (All-map (IsFree bitmap (cluster + 1) (cluster + 1 + n)) (λ c f. omega (arith, f.1)) _
          (free_from-IsFree n (cluster + 1) (count - 1) (cluster + 1 + n) (omega arith)))
        (free_from-IsAscending n (cluster + 1) (count - 1))

  -- The loop finds as many as it is asked for, or else all that there are.
  pub length-free_from :
      (n cluster count : ℕ)
      → 1 ≤ count
      → length (free_from bitmap n cluster count) ≡ min count (count_free bitmap n cluster)
  unfolding free_from count_free
  length-free_from zero cluster count h = omega arith
  length-free_from (suc n) cluster count h =
      ground (
        arith,
        length-free_from n (cluster + 1) count,
        length-free_from n (cluster + 1) (count - 1),
      )
