-- ===== src/Ventoy/Exfat/Allocation/Beyond.antt =====
-- Clusters for which the single cluster of the bitmap has no bit.
use one_kvm_stream_box.Base.{
  ℕ, ◌+◌, ◌-◌, ◌*◌, ◌^◌, ◌≤◌, ◌<◌, ◌≡◌, refl, ap, ◌∙◌, true, List, [], ◌∷◌, arith, length, get_or,
  All, All-zip,
}
use one_kvm_stream_box.Ventoy.Image.{Image, length-read_at}
use one_kvm_stream_box.Ventoy.Exfat.{Geometry, ExfatFs, ok, mark_all, free_from, allocate_clusters}
use one_kvm_stream_box.Ventoy.Exfat.Disk.{IsGeometry, disk_cluster}
use one_kvm_stream_box.Ventoy.Exfat.Cache.{IsCoherent}
use one_kvm_stream_box.Ventoy.Exfat.Allocation.Search.{count_free}
use one_kvm_stream_box.Ventoy.Exfat.Allocation.Links.{}
use one_kvm_stream_box.Ventoy.Exfat.Allocation.Effects.{}
use one_kvm_stream_box.Ventoy.Exfat.Bits.{set_cluster_allocated-beyond}
use one_kvm_stream_box.Ventoy.Exfat.Allocation.Allocate.{
  found, free_count, allocate_clusters-IsAllocated, found-IsCluster,
}

module _ (g : Geometry) (valid : IsGeometry g) where
  length-bitmap : (image : Image) → length (disk_cluster g image 2) ≡ g.cluster_size
  unfolding disk_cluster
  length-bitmap image = length-read_at image _ g.cluster_size

  found-same :
      (s s' : ExfatFs) (n : ℕ)
      → disk_cluster g s'.image 2 ≡ disk_cluster g s.image 2
      → (found g valid s' n ≡ found g valid s n) × (free_count g valid s' ≡ free_count g valid s)
  unfolding found free_count
  found-same s s' n e =
      let rounds = g.cluster_count + 2 - (g.first_cluster_of_root + 1) in
      let start = g.first_cluster_of_root + 1 in
      (
        ap (λ (b : List ℕ). free_from b rounds start n) e,
        ap (λ (b : List ℕ). count_free b rounds start) e,
      )

  mark_all-beyond :
      (cs bitmap : List ℕ)
      → All (λ c. (8 * length bitmap + 2 ≤ c) × (c < 2 ^ 32)) cs
      → mark_all true bitmap cs ≡ bitmap
  unfolding mark_all
  mark_all-beyond [] bitmap h = refl
  mark_all-beyond (c ∷ cs) bitmap h =
      ap (λ (b : List ℕ). mark_all true b cs)
        (set_cluster_allocated-beyond true bitmap c h.0.0 h.0.1)
      ∙ mark_all-beyond cs bitmap h.1

  -- Where the clusters that are found lie beyond the clusters that the bitmap has bits for, they are
  -- given out twice: two allocations of the same number of clusters, one after the other, both succeed
  -- and return the same first cluster.
  pub allocate_clusters_twice :
      (s : ExfatFs) (n : ℕ)
      → IsCoherent g s
      → 1 ≤ n
      → n ≤ free_count g valid s
      → All (λ c. 8 * g.cluster_size + 2 ≤ c) (found g valid s n)
      → let once = allocate_clusters g n s in
        let twice = allocate_clusters g n once.0 in
        (once.1 ≡ ok (get_or (found g valid s n) 0 0))
        × (twice.1 ≡ ok (get_or (found g valid s n) 0 0))
  allocate_clusters_twice s n h hn enough beyond =
      let (first, taken, size, free, up) = allocate_clusters-IsAllocated g valid s n h hn enough in
      let t = (allocate_clusters g n s).0 in
      let width = length-bitmap s.image in
      let unmarked = mark_all-beyond (found g valid s n) (disk_cluster g s.image 2) (
        All-zip (λ c. 8 * g.cluster_size + 2 ≤ c) (found g valid s n)
          (λ c b k. (omega (arith, b, width), omega (arith, k.1, valid.few_clusters))) beyond
          (found-IsCluster g valid s n)) in
      let (again, count) = found-same s t n (taken.marks ∙ unmarked) in
      let (second, r₁, r₂, r₃, r₄) =
        allocate_clusters-IsAllocated g valid t n taken.coherent hn
          (omega (arith, enough, count)) in
      (first, second ∙ ap (λ (cs : List ℕ). ok (get_or cs 0 0)) again)
