-- ===== src/Ventoy/Exfat/Allocation/Outcome.antt =====
-- What `allocate_clusters` and `free_cluster_chain` leave on a volume whose clusters all have a bit in the
-- bitmap, told by the entries and by the question whether a cluster is taken.
use one_kvm_stream_box.Base.{
  ℕ, ◌+◌, ◌*◌, ◌≤◌, ◌<◌, ◌≡◌, ap, ◌∙◌, Bool, true, false, List, arith, ◌==◌, if◌then◌else◌, length,
  get_or, All, All-map, IsByte,
}
use one_kvm_stream_box.Ventoy.Image.{Image}
use one_kvm_stream_box.Ventoy.Exfat.{
  Geometry, ExfatFs, ok, mark_all, is_cluster_allocated, allocate_clusters, free_cluster_chain,
}
use one_kvm_stream_box.Ventoy.Exfat.Disk.{IsGeometry, IsCluster, disk_fat, disk_cluster}
use one_kvm_stream_box.Ventoy.Exfat.Cache.{IsCoherent}
use one_kvm_stream_box.Ventoy.Exfat.Chain.{Leads}
use one_kvm_stream_box.Ventoy.Exfat.Allocation.Search.{IsAscending, IsFree}
use one_kvm_stream_box.Ventoy.Exfat.Allocation.Marks.{
  has, is_cluster_allocated-mark_all, IsMarkable,
}
use one_kvm_stream_box.Ventoy.Exfat.Allocation.Allocate.{
  found, free_count, found-IsCluster, allocate_clusters-IsAllocated,
}
use one_kvm_stream_box.Ventoy.Exfat.Allocation.Free.{length-bitmap, free_cluster_chain-IsFreed}

module _ (g : Geometry) (valid : IsGeometry g) where
  -- Whether a cluster counts as taken on the disk.
  abbrev pub is_taken : Image → ℕ → Bool
  is_taken image c = is_cluster_allocated (disk_cluster g image 2) c

  -- Clusters that are marked on the disk, or whose marks are cleared, have the new marks, and all others
  -- have their old ones.
  marks_after :
      (v : Bool) (cs : List ℕ) (image image' : Image)
      → All IsByte (disk_cluster g image 2)
      → g.cluster_count ≤ 8 * g.cluster_size
      → All (IsCluster g) cs
      → disk_cluster g image' 2 ≡ mark_all v (disk_cluster g image 2) cs
      → (c : ℕ) → IsCluster g c
      → is_taken image' c ≡ (if has c cs then v else is_taken image c)
  marks_after v cs image image' bytes covered clusters marks c hc =
      let few = valid.few_clusters in
      let width = length-bitmap g valid image in
      ap (λ (b : List ℕ). is_cluster_allocated b c) marks
      ∙ is_cluster_allocated-mark_all v cs (disk_cluster g image 2) c bytes
          (All-map (IsCluster g) {Q = IsMarkable (disk_cluster g image 2)}
            (λ d k. (k.0, omega (arith, k.1, few), omega (arith, k.1, covered, width))) cs clusters)
          hc.0 (omega (arith, hc.1, few))

  -- The disk after clusters were taken as a chain, beside the one before.
  pub record IsTaken (s : ExfatFs) (cs : List ℕ) (s' : ExfatFs) : Type 0 where
    pub coherent : IsCoherent g s'
    pub chain : Leads (disk_fat g s'.image) (get_or cs 0 0) cs
    pub other_entries :
        (c : ℕ)
        → c < g.cluster_count + 2
        → has c cs ≡ false
        → disk_fat g s'.image c ≡ disk_fat g s.image c
    pub marks :
        (c : ℕ)
        → IsCluster g c
        → is_taken s'.image c ≡ (if has c cs then true else is_taken s.image c)
    pub same_clusters :
        (d : ℕ)
        → IsCluster g d
        → (2 == d) ≡ false
        → disk_cluster g s'.image d ≡ disk_cluster g s.image d

  -- The disk after the clusters of a chain were given back, beside the one before.
  pub record IsReleased (s : ExfatFs) (cs : List ℕ) (s' : ExfatFs) : Type 0 where
    pub coherent : IsCoherent g s'
    pub entries :
        (c : ℕ)
        → c < g.cluster_count + 2
        → disk_fat g s'.image c ≡ (if has c cs then 0 else disk_fat g s.image c)
    pub marks :
        (c : ℕ)
        → IsCluster g c
        → is_taken s'.image c ≡ (if has c cs then false else is_taken s.image c)
    pub same_clusters :
        (d : ℕ)
        → IsCluster g d
        → (2 == d) ≡ false
        → disk_cluster g s'.image d ≡ disk_cluster g s.image d

  -- With enough free clusters behind the root directory, on a volume whose clusters all have a bit in the
  -- bitmap, `allocate_clusters` takes as many as it is asked for, one or more: they were free, in the
  -- volume, and stand in ascending order. It returns the first; the entries then lead through just these
  -- clusters to the end of a chain, and every other entry is as it was; just these clusters now count as
  -- taken, beside those that did, and no cluster but the bitmap's is written.
  pub allocate_clusters-IsTaken :
      (s : ExfatFs) (n : ℕ)
      → IsCoherent g s
      → All IsByte (disk_cluster g s.image 2)
      → g.cluster_count ≤ 8 * g.cluster_size
      → 1 ≤ n
      → n ≤ free_count g valid s
      → let cs = found g valid s n in
        ((allocate_clusters g n s).1 ≡ ok (get_or cs 0 0))
        × IsTaken s cs (allocate_clusters g n s).0
        × (length cs ≡ n)
        × All
            (IsFree (disk_cluster g s.image 2) (g.first_cluster_of_root + 1) (g.cluster_count + 2))
            cs
        × IsAscending cs
  allocate_clusters-IsTaken s n h bytes covered hn enough =
      let (first, taken, size, free, up) = allocate_clusters-IsAllocated g valid s n h hn enough in
      let cs = found g valid s n in
      let t = (allocate_clusters g n s).0 in
      (
        first,
        record {
          coherent = taken.coherent;
          chain = taken.chain;
          other_entries = taken.other_entries;
          marks =
              marks_after true cs s.image t.image bytes covered (found-IsCluster g valid s n)
                taken.marks;
          same_clusters = taken.same_clusters;
        },
        size,
        free,
        up,
      )

  -- Freeing a chain that the disk holds, on a volume whose clusters all have a bit in the bitmap, clears the
  -- entries of its clusters, and they all count as free. Every other entry is as it was, every other
  -- cluster counts as free or taken as before, and no cluster but the bitmap's is written.
  pub free_cluster_chain-IsReleased :
      (s : ExfatFs) (first : ℕ) (cs : List ℕ)
      → IsCoherent g s
      → All IsByte (disk_cluster g s.image 2)
      → g.cluster_count ≤ 8 * g.cluster_size
      → Leads (disk_fat g s.image) first cs
      → All (IsCluster g) cs
      → length cs ≤ g.cluster_count
      → ((free_cluster_chain g first s).1 ≡ ok tt)
        × IsReleased s cs (free_cluster_chain g first s).0
  free_cluster_chain-IsReleased s first cs h bytes covered leads clusters len =
      let (done, freed) = free_cluster_chain-IsFreed g valid s first cs h leads clusters len in
      let t = (free_cluster_chain g first s).0 in
      (
        done,
        record {
          coherent = freed.coherent;
          entries = freed.entries;
          marks = marks_after false cs s.image t.image bytes covered clusters freed.marks;
          same_clusters = freed.same_clusters;
        },
      )
