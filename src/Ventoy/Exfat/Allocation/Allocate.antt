-- ===== src/Ventoy/Exfat/Allocation/Allocate.antt =====
-- What `allocate_clusters` leaves on the disk.
use one_kvm_stream_box.Base.{
  ℕ, ◌+◌, ◌-◌, ◌≤◌, ◌<◌, ◌≡◌, refl, ◌∙◌, inl, inr, true, false, List, [], ◌∷◌, arith, ltb, ◌==◌,
  Bool-cases, length, get_or, All, All-map, u32,
}
use one_kvm_stream_box.Ventoy.Exfat.{
  Geometry, ExfatFs, FsResult, ok, err, not_enough_space, Call, and_then, read_bitmap, mark_all,
  free_from, find_free_clusters, link_clusters, allocate_clusters,
}
use one_kvm_stream_box.Ventoy.Exfat.Disk.{IsGeometry, IsCluster, disk_fat, disk_cluster}
use one_kvm_stream_box.Ventoy.Exfat.Cache.{IsCoherent}
use one_kvm_stream_box.Ventoy.Exfat.Chain.{Leads, Reads-elim}
use one_kvm_stream_box.Ventoy.Exfat.Allocation.Search.{
  IsAscending, IsFree, count_free, free_from-IsFree, free_from-IsAscending, length-free_from,
}
use one_kvm_stream_box.Ventoy.Exfat.Allocation.Marks.{has}
use one_kvm_stream_box.Ventoy.Exfat.Allocation.Links.{
  link_clusters-IsCoherent, link_clusters-cluster, link_clusters-other, link_clusters-Leads,
}
use one_kvm_stream_box.Ventoy.Exfat.Allocation.Effects.{
  IsMarked, IsMarked-image, two-IsCluster, read_bitmap-Reads, mark_clusters-elim,
}

module _ (g : Geometry) (valid : IsGeometry g) where
  -- The clusters that are asked for, of a bitmap.
  unfoldable pub found : ExfatFs → ℕ → List ℕ
  found s n =
      free_from (disk_cluster g s.image 2) (g.cluster_count + 2 - (g.first_cluster_of_root + 1))
        (g.first_cluster_of_root + 1) n

  -- How many clusters behind the root directory are free.
  unfoldable pub free_count : ExfatFs → ℕ
  free_count s =
      count_free (disk_cluster g s.image 2) (g.cluster_count + 2 - (g.first_cluster_of_root + 1))
        (g.first_cluster_of_root + 1)

  find_free_clusters-elim :
      {B : Type 0} (P : ExfatFs × FsResult B → Type 0) (s : ExfatFs) (n : ℕ) (k : List ℕ → Call B)
      → IsCoherent g s
      → 1 ≤ n
      → (n ≤ free_count s
          → (s' : ExfatFs) → s'.image ≡ s.image
          → IsCoherent g s'
          → P (k (found s n) s'))
      → (free_count s < n
          → (s' : ExfatFs) → s'.image ≡ s.image
          → IsCoherent g s'
          → P (s', err not_enough_space))
      → P (and_then (find_free_clusters g n s) k)
  unfolding find_free_clusters found free_count
  find_free_clusters-elim {B} P s n k h hn enough short =
      let root = g.first_cluster_of_root in
      let start : u32 (root + 1) ≡ root + 1 =
        omega (arith, valid.root_within, valid.few_clusters) in
      let end : u32 (g.cluster_count + 2) ≡ g.cluster_count + 2 =
        omega (arith, valid.few_clusters) in
      let b = disk_cluster g s.image 2 in
      let count = length-free_from b (g.cluster_count + 2 - (root + 1)) (root + 1) n hn in
      Reads-elim g valid (λ (r : ExfatFs × FsResult (List ℕ)). P (and_then r k)) s (read_bitmap g s)
        b _ (read_bitmap-Reads g valid s h)
        (λ s' same h'.
          rw (start, end)
            (elim (Bool-cases
              (ltb (length (free_from b (g.cluster_count + 2 - (root + 1)) (root + 1) n)) n)) [
                | inl less ↦ rw less (short (ground (arith, less, count)) s' same h')
                | inr all ↦ rw all (enough (ground (arith, all, count)) s' same h')
              ]))

  found-IsFree :
      (s : ExfatFs) (n : ℕ)
      → All
          (IsFree (disk_cluster g s.image 2) (g.first_cluster_of_root + 1) (g.cluster_count + 2))
          (found s n)
  unfolding found
  found-IsFree s n =
      free_from-IsFree (disk_cluster g s.image 2)
        (g.cluster_count + 2 - (g.first_cluster_of_root + 1)) (g.first_cluster_of_root + 1) n
        (g.cluster_count + 2) (omega (arith, valid.root_within))

  pub found-IsCluster : (s : ExfatFs) (n : ℕ) → All (IsCluster g) (found s n)
  found-IsCluster s n =
      All-map
        (IsFree (disk_cluster g s.image 2) (g.first_cluster_of_root + 1) (g.cluster_count + 2))
        (λ c f. (omega (arith, f.1, valid.root_after_bitmap), f.2)) (found s n) (found-IsFree s n)

  pub length-found : (s : ExfatFs) (n : ℕ) → 1 ≤ n → n ≤ free_count s → length (found s n) ≡ n
  unfolding found free_count
  length-found s n hn enough = omega (
    arith,
    length-free_from (disk_cluster g s.image 2)
        (g.cluster_count + 2 - (g.first_cluster_of_root + 1)) (g.first_cluster_of_root + 1) n hn,
  )

  pub found-IsAscending : (s : ExfatFs) (n : ℕ) → IsAscending (found s n)
  unfolding found
  found-IsAscending s n =
      free_from-IsAscending (disk_cluster g s.image 2)
        (g.cluster_count + 2 - (g.first_cluster_of_root + 1)) (g.first_cluster_of_root + 1) n

  -- The disk after an allocation, beside the one before.
  pub record IsAllocated (s : ExfatFs) (cs : List ℕ) (s' : ExfatFs) : Type 0 where
    pub coherent : IsCoherent g s'
    pub chain : Leads (disk_fat g s'.image) (get_or cs 0 0) cs
    pub other_entries :
        (c : ℕ)
        → c < g.cluster_count + 2
        → has c cs ≡ false
        → disk_fat g s'.image c ≡ disk_fat g s.image c
    pub marks : disk_cluster g s'.image 2 ≡ mark_all true (disk_cluster g s.image 2) cs
    pub same_clusters :
        (d : ℕ)
        → IsCluster g d
        → (2 == d) ≡ false
        → disk_cluster g s'.image d ≡ disk_cluster g s.image d

  chain_of :
      (cs : List ℕ) (s : ExfatFs)
      → 1 ≤ length cs
      → All (IsCluster g) cs
      → IsAscending cs
      → Leads (disk_fat g (link_clusters g cs s).image) (get_or cs 0 0) cs
  chain_of [] s h a up = absurd (omega arith)
  chain_of (c ∷ cs) s h a up = link_clusters-Leads g valid c cs s a up

  linked-IsAllocated :
      (s s' : ExfatFs) (cs : List ℕ)
      → 1 ≤ length cs
      → All (IsCluster g) cs
      → IsAscending cs
      → IsMarked g s true cs s'
      → IsAllocated s cs (link_clusters g cs s')
  linked-IsAllocated s s' cs h a up m = record {
    coherent = link_clusters-IsCoherent g valid cs s' a m.coherent;
    chain = chain_of cs s' h a up;
    other_entries = λ c hc out. link_clusters-other g valid cs s' c a out ∙ m.same_fat c hc;
    marks = link_clusters-cluster g valid cs s' 2 a (two-IsCluster g valid) ∙ m.marks;
    same_clusters =
        λ d hd other. link_clusters-cluster g valid cs s' d a hd ∙ m.same_clusters d hd other;
  }

  -- With enough free clusters behind the root directory, `allocate_clusters` takes as many as it is
  -- asked for: they were free, in the volume, and stand in ascending order. It returns the first; the
  -- entries then lead through just these clusters to the end of a chain, and every other entry is as it
  -- was; in the bitmap on the disk just these are marked, and no cluster but the bitmap's is written.
  pub allocate_clusters-IsAllocated :
      (s : ExfatFs) (n : ℕ)
      → IsCoherent g s
      → 1 ≤ n
      → n ≤ free_count s
      → ((allocate_clusters g n s).1 ≡ ok (get_or (found s n) 0 0))
        × IsAllocated s (found s n) (allocate_clusters g n s).0
        × (length (found s n) ≡ n)
        × All
            (IsFree (disk_cluster g s.image 2) (g.first_cluster_of_root + 1) (g.cluster_count + 2))
            (found s n)
        × IsAscending (found s n)
  unfolding allocate_clusters
  allocate_clusters-IsAllocated s n h hn enough =
      let first = get_or (found s n) 0 0 in
      let size = length-found s n hn enough in
      let clusters = found-IsCluster s n in
      let up = found-IsAscending s n in
      let some_asked : (n == 0) ≡ false = ground arith in
      let P = λ (r : ExfatFs × FsResult ℕ). (r.1 ≡ ok first) × IsAllocated s (found s n) r.0 in
      let effect : P (allocate_clusters g n s) = rw some_asked (
        find_free_clusters-elim P s n _ h hn
          (λ e s' same h'. mark_clusters-elim g valid P s' true (found s n) _ h' (λ t m. (
            refl,
            linked-IsAllocated s t (found s n) (omega (arith, size)) clusters up
                (IsMarked-image g valid s s' t true (found s n) same m),
          )))
          (λ short s' same h'. absurd (omega arith))) in
      (effect.0, effect.1, size, found-IsFree s n, up)

  -- With fewer free clusters than it is asked for, `allocate_clusters` fails, and the disk is as it was.
  pub allocate_clusters_short :
      (s : ExfatFs) (n : ℕ)
      → IsCoherent g s
      → free_count s < n
      → ((allocate_clusters g n s).1 ≡ err not_enough_space)
        × ((allocate_clusters g n s).0.image ≡ s.image)
        × IsCoherent g (allocate_clusters g n s).0
  unfolding allocate_clusters
  allocate_clusters_short s n h less =
      let some_asked : (n == 0) ≡ false = ground arith in
      let P = λ (r : ExfatFs × FsResult ℕ).
        (r.1 ≡ err not_enough_space) × (r.0.image ≡ s.image) × IsCoherent g r.0 in
      let effect : P (allocate_clusters g n s) = rw some_asked (
        find_free_clusters-elim P s n _ h (omega arith) (λ e s' same h'. absurd (omega arith))
          (λ short s' same h'. (refl, same, h'))) in
      effect
