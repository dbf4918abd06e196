-- ===== src/Ventoy/Exfat/Allocation/Free.antt =====
-- What `free_cluster_chain` leaves on the disk, and that it undoes an allocation.
use one_kvm_stream_box.Base.{
  ℕ, zero, suc, ◌+◌, ◌-◌, ◌*◌, ◌^◌, ◌≤◌, ◌<◌, ◌≡◌, refl, sym, ap, ◌∙◌, ◌⊎◌, inl, inr, true, false,
  List, [], ◌∷◌, arith, ◌==◌, if◌then◌else◌, ==_iff, Bool-cases, length, get_or, All, All-map,
  IsByte,
}
use one_kvm_stream_box.Ventoy.Image.{Image, length-read_at}
use one_kvm_stream_box.Ventoy.Exfat.{
  Geometry, ExfatFs, FsResult, ok, mark_all, allocate_clusters, clear_entries, free_cluster_chain,
  read_cluster_chain,
}
use one_kvm_stream_box.Ventoy.Exfat.Disk.{IsGeometry, IsCluster, disk_fat, disk_cluster}
use one_kvm_stream_box.Ventoy.Exfat.Cache.{IsCoherent}
use one_kvm_stream_box.Ventoy.Exfat.Chain.{Leads, Reads-elim, read_cluster_chain-Reads}
use one_kvm_stream_box.Ventoy.Exfat.Allocation.Search.{IsFree, count_free}
use one_kvm_stream_box.Ventoy.Exfat.Allocation.Marks.{has, length-mark_all}
use one_kvm_stream_box.Ventoy.Exfat.Allocation.Links.{
  clear_entries-IsCoherent, clear_entries-cluster, clear_entries-fat,
}
use one_kvm_stream_box.Ventoy.Exfat.Allocation.Effects.{
  IsMarked, IsMarked-image, two-IsCluster, mark_clusters-elim,
}
use one_kvm_stream_box.Ventoy.Exfat.{is_cluster_allocated}
use one_kvm_stream_box.Ventoy.Exfat.Allocation.Marks.{
  is_cluster_allocated-mark_all, mark_all-IsByte, IsMarkable,
}
use one_kvm_stream_box.Ventoy.Exfat.Allocation.Allocate.{
  found, free_count, allocate_clusters-IsAllocated, found-IsCluster,
}

module _ (g : Geometry) (valid : IsGeometry g) where
  -- The disk after a chain was freed, beside the one before.
  pub record IsFreed (s : ExfatFs) (cs : List ℕ) (s' : ExfatFs) : Type 0 where
    pub coherent : IsCoherent g s'
    pub entries :
        (c : ℕ)
        → c < g.cluster_count + 2
        → disk_fat g s'.image c ≡ (if has c cs then 0 else disk_fat g s.image c)
    pub marks : disk_cluster g s'.image 2 ≡ mark_all false (disk_cluster g s.image 2) cs
    pub same_clusters :
        (d : ℕ)
        → IsCluster g d
        → (2 == d) ≡ false
        → disk_cluster g s'.image d ≡ disk_cluster g s.image d

  cleared-IsFreed :
      (s s' : ExfatFs) (cs : List ℕ)
      → All (IsCluster g) cs
      → IsMarked g s false cs s'
      → IsFreed s cs (clear_entries g cs s')
  cleared-IsFreed s s' cs a m = record {
    coherent = clear_entries-IsCoherent g valid cs s' a m.coherent;
    entries = λ c hc. clear_entries-fat g valid cs s' c ∙ ground (arith, m.same_fat c hc);
    marks = clear_entries-cluster g valid cs s' 2 a (two-IsCluster g valid) ∙ m.marks;
    same_clusters =
        λ d hd other. clear_entries-cluster g valid cs s' d a hd ∙ m.same_clusters d hd other;
  }

  -- Freeing a chain that the disk holds clears the entries of its clusters and their marks in the
  -- bitmap on the disk. Every other entry, and every cluster but the bitmap's, is as it was.
  pub free_cluster_chain-IsFreed :
      (s : ExfatFs) (first : ℕ) (cs : List ℕ)
      → IsCoherent g s
      → Leads (disk_fat g s.image) first cs
      → All (IsCluster g) cs
      → length cs ≤ g.cluster_count
      → ((free_cluster_chain g first s).1 ≡ ok tt) × IsFreed s cs (free_cluster_chain g first s).0
  unfolding free_cluster_chain
  free_cluster_chain-IsFreed s first cs h leads a len =
      let P = λ (r : ExfatFs × FsResult (Unit {0})). (r.1 ≡ ok tt) × IsFreed s cs r.0 in
      Reads-elim g valid P s (read_cluster_chain g first s) cs _
        (read_cluster_chain-Reads g valid cs s first h leads
          (All-map (IsCluster g) (λ c k. k.1) cs a) len)
        (λ s' same h'.
          mark_clusters-elim g valid P s' false cs _ h' (λ t m.
            (refl, cleared-IsFreed s t cs a (IsMarked-image g valid s s' t false cs same m))))

  count_free-le : (bitmap : List ℕ) (n c : ℕ) → count_free bitmap n c ≤ n
  unfolding count_free
  count_free-le bitmap zero c = omega arith
  count_free-le bitmap (suc n) c = ground (arith, count_free-le bitmap n (c + 1))

  pub free_count-le : (s : ExfatFs) → free_count g valid s ≤ g.cluster_count
  unfolding free_count
  free_count-le s = omega (
    arith,
    count_free-le (disk_cluster g s.image 2) (g.cluster_count + 2 - (g.first_cluster_of_root + 1))
        (g.first_cluster_of_root + 1),
    valid.root_after_bitmap,
  )

  pub length-bitmap : (image : Image) → length (disk_cluster g image 2) ≡ g.cluster_size
  unfolding disk_cluster
  length-bitmap image = length-read_at image _ g.cluster_size

  free_of_has :
      (bitmap cs : List ℕ) (c lo hi : ℕ)
      → All (IsFree bitmap lo hi) cs
      → has c cs ≡ true
      → is_cluster_allocated bitmap c ≡ false
  free_of_has bitmap [] c lo hi free is = cc
  free_of_has bitmap (d ∷ ds) c lo hi free is = elim (Bool-cases (d == c)) [
    | inl same ↦ ap (is_cluster_allocated bitmap) (sym ((==_iff d c).0 same)) ∙ free.0.0
    | inr other ↦ free_of_has bitmap ds c lo hi free.1 (ground (arith, is, other))
  ]

  -- Marking free clusters and clearing the marks again changes no answer.
  restored :
      (bitmap cs : List ℕ) (c lo hi : ℕ)
      → All IsByte bitmap
      → All (IsMarkable bitmap) cs
      → All (IsFree bitmap lo hi) cs
      → 2 ≤ c
      → c < 2 ^ 32
      → is_cluster_allocated (mark_all false (mark_all true bitmap cs) cs) c
        ≡ is_cluster_allocated bitmap c
  restored bitmap cs c lo hi bytes m free two small =
      let marked = mark_all true bitmap cs in
      let size = length-mark_all true cs bitmap in
      let up = is_cluster_allocated-mark_all true cs bitmap c bytes m two small in
      let down =
        is_cluster_allocated-mark_all false cs marked c (mark_all-IsByte true cs bitmap bytes)
          (All-map (IsMarkable bitmap) (λ d k. (k.0, k.1, omega (arith, k.2, size))) cs m) two
          small in
      down ∙ ground (arith, up, free_of_has bitmap cs c lo hi free)

  -- An allocation that is freed again, on a volume whose clusters all have a bit in the bitmap: both
  -- calls succeed, and every cluster counts as free or taken as before, the clusters that were taken have
  -- free entries, every other cluster has its entry of before, and its bytes, unless it is the bitmap's.
  pub free_cluster_chain-allocate_clusters :
      (s : ExfatFs) (n c : ℕ)
      → IsCoherent g s
      → 1 ≤ n
      → n ≤ free_count g valid s
      → All IsByte (disk_cluster g s.image 2)
      → g.cluster_count ≤ 8 * g.cluster_size
      → IsCluster g c
      → let cs = found g valid s n in
        let r = free_cluster_chain g (get_or cs 0 0) (allocate_clusters g n s).0 in
        ((allocate_clusters g n s).1 ≡ ok (get_or cs 0 0))
        × (r.1 ≡ ok tt)
        × (is_cluster_allocated (disk_cluster g r.0.image 2) c
            ≡ is_cluster_allocated (disk_cluster g s.image 2) c)
        × (disk_fat g r.0.image c ≡ (if has c cs then 0 else disk_fat g s.image c))
        × ((2 ≡ c) ⊎ (disk_cluster g r.0.image c ≡ disk_cluster g s.image c))
  free_cluster_chain-allocate_clusters s n c h hn enough bytes covered hc =
      let cs = found g valid s n in
      let (first, taken, size, free, up) = allocate_clusters-IsAllocated g valid s n h hn enough in
      let t = (allocate_clusters g n s).0 in
      let clusters = found-IsCluster g valid s n in
      let (done, freed) =
        free_cluster_chain-IsFreed t (get_or cs 0 0) cs taken.coherent taken.chain clusters
          (omega (arith, size, enough, free_count-le s)) in
      let few = valid.few_clusters in
      let width = length-bitmap s.image in
      let markable =
        All-map (IsCluster g) {Q = IsMarkable (disk_cluster g s.image 2)}
          (λ c k. (k.0, omega (arith, k.1, few), omega (arith, k.1, covered, width))) cs clusters in
      (
        first,
        done,
        ap (λ (b : List ℕ). is_cluster_allocated b c)
              (freed.marks ∙ ap (λ (b : List ℕ). mark_all false b cs) taken.marks)
            ∙ restored (disk_cluster g s.image 2) cs c (g.first_cluster_of_root + 1)
                (g.cluster_count + 2) bytes markable free hc.0 (omega (arith, hc.1, few)),
        freed.entries c hc.1 ∙ ground (arith, taken.other_entries c hc.1),
        elim (Bool-cases (2 == c)) [
          | inl same ↦ inl ((==_iff 2 c).0 same)
          | inr other ↦ inr (freed.same_clusters c hc other ∙ taken.same_clusters c hc other)
        ],
      )
