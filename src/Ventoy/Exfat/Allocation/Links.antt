-- ===== src/Ventoy/Exfat/Allocation/Links.antt =====
-- The loops that write the entries of a new chain, and that clear those of an old one.
use one_kvm_stream_box.Base.{
  ℕ, ◌^◌, ◌<◌, ◌≡◌, refl, sym, ◌∙◌, true, false, List, [], ◌∷◌, arith, ◌==◌, if◌then◌else◌, All,
}
use mathlib.Core.Path.{subst}
use one_kvm_stream_box.Ventoy.Exfat.{
  Geometry, ExfatFs, fat_entry_end_of_chain, fat_entry_free, in_chain, write_fat_entry,
  link_clusters, clear_entries,
}
use one_kvm_stream_box.Ventoy.Exfat.Disk.{
  IsGeometry, IsCluster, disk_fat, disk_cluster, disk_fat-fat_image, disk_cluster-fat_image,
}
use one_kvm_stream_box.Ventoy.Exfat.Cache.{IsCoherent, write_fat_entry-IsCoherent}
use one_kvm_stream_box.Ventoy.Exfat.Chain.{Leads}
use one_kvm_stream_box.Ventoy.Exfat.Allocation.Search.{IsAscending}
use one_kvm_stream_box.Ventoy.Exfat.Allocation.Marks.{has}

module _ (g : Geometry) (valid : IsGeometry g) where
  cluster_u32 : (c : ℕ) → IsCluster g c → c < 2 ^ 32
  cluster_u32 c h = omega (arith, h.1, valid.few_clusters)

  write-fat :
      (s : ExfatFs) (c v c' : ℕ)
      → v < 2 ^ 32
      → disk_fat g (write_fat_entry g c v s).image c'
        ≡ (if c == c' then v else disk_fat g s.image c')
  unfolding write_fat_entry
  write-fat s c v c' hv = disk_fat-fat_image g s.image c c' v hv

  write-cluster :
      (s : ExfatFs) (c v d : ℕ)
      → IsCluster g c
      → IsCluster g d
      → disk_cluster g (write_fat_entry g c v s).image d ≡ disk_cluster g s.image d
  unfolding write_fat_entry
  write-cluster s c v d hc hd = disk_cluster-fat_image g valid s.image c d v hc.1 hd

  pub link_clusters-IsCoherent :
      (cs : List ℕ) (s : ExfatFs)
      → All (IsCluster g) cs
      → IsCoherent g s
      → IsCoherent g (link_clusters g cs s)
  unfolding link_clusters
  link_clusters-IsCoherent [] s a h = h
  link_clusters-IsCoherent (c ∷ []) s a h =
      write_fat_entry-IsCoherent g valid s c fat_entry_end_of_chain a.0.1 (omega arith) h
  link_clusters-IsCoherent (c ∷ d ∷ cs) s a h =
      link_clusters-IsCoherent (d ∷ cs) (write_fat_entry g c d s) a.1
        (write_fat_entry-IsCoherent g valid s c d a.0.1 (cluster_u32 d a.1.0) h)

  pub link_clusters-cluster :
      (cs : List ℕ) (s : ExfatFs) (d : ℕ)
      → All (IsCluster g) cs
      → IsCluster g d
      → disk_cluster g (link_clusters g cs s).image d ≡ disk_cluster g s.image d
  unfolding link_clusters
  link_clusters-cluster [] s d a hd = refl
  link_clusters-cluster (c ∷ []) s d a hd = write-cluster s c fat_entry_end_of_chain d a.0 hd
  link_clusters-cluster (c ∷ e ∷ cs) s d a hd =
      link_clusters-cluster (e ∷ cs) (write_fat_entry g c e s) d a.1 hd
      ∙ write-cluster s c e d a.0 hd

  pub link_clusters-other :
      (cs : List ℕ) (s : ExfatFs) (c' : ℕ)
      → All (IsCluster g) cs
      → has c' cs ≡ false
      → disk_fat g (link_clusters g cs s).image c' ≡ disk_fat g s.image c'
  unfolding link_clusters
  link_clusters-other [] s c' a out = refl
  link_clusters-other (c ∷ []) s c' a out =
      ground (arith, out, write-fat s c fat_entry_end_of_chain c')
  link_clusters-other (c ∷ d ∷ cs) s c' a out = ground (
    arith,
    out,
    write-fat s c d c' (cluster_u32 d a.1.0),
    link_clusters-other (d ∷ cs) (write_fat_entry g c d s) c' a.1,
  )

  not-has : (c : ℕ) (cs : List ℕ) → All (λ d. c < d) cs → has c cs ≡ false
  not-has c [] h = refl
  not-has c (d ∷ ds) h = ground (arith, h.0, not-has c ds h.1)

  cluster-in_chain : (c : ℕ) → IsCluster g c → in_chain c ≡ true
  cluster-in_chain c h = ground (arith, h.0, h.1, valid.few_clusters)

  pub link_clusters-Leads :
      (c : ℕ) (cs : List ℕ) (s : ExfatFs)
      → All (IsCluster g) (c ∷ cs)
      → IsAscending (c ∷ cs)
      → Leads (disk_fat g (link_clusters g (c ∷ cs) s).image) c (c ∷ cs)
  unfolding link_clusters
  link_clusters-Leads c [] s a up =
      let last : disk_fat g (write_fat_entry g c fat_entry_end_of_chain s).image c
          ≡ fat_entry_end_of_chain =
        ground (arith, write-fat s c fat_entry_end_of_chain c) in
      (refl, cluster-in_chain c a.0, rw last refl)
  link_clusters-Leads c (d ∷ cs) s a up =
      let s' = write_fat_entry g c d s in
      let out = not-has c (d ∷ cs) up.0 in
      let link : disk_fat g (link_clusters g (d ∷ cs) s').image c ≡ d =
        link_clusters-other (d ∷ cs) s' c a.1 out
        ∙ ground (arith, write-fat s c d c (cluster_u32 d a.1.0)) in
      (
        refl,
        cluster-in_chain c a.0,
        subst (λ (k : ℕ). Leads (disk_fat g (link_clusters g (d ∷ cs) s').image) k (d ∷ cs))
            (sym link) (link_clusters-Leads d cs s' a.1 up.1),
      )

  pub clear_entries-IsCoherent :
      (cs : List ℕ) (s : ExfatFs)
      → All (IsCluster g) cs
      → IsCoherent g s
      → IsCoherent g (clear_entries g cs s)
  unfolding clear_entries
  clear_entries-IsCoherent [] s a h = h
  clear_entries-IsCoherent (c ∷ cs) s a h =
      clear_entries-IsCoherent cs (write_fat_entry g c fat_entry_free s) a.1
        (write_fat_entry-IsCoherent g valid s c fat_entry_free a.0.1 (omega arith) h)

  pub clear_entries-cluster :
      (cs : List ℕ) (s : ExfatFs) (d : ℕ)
      → All (IsCluster g) cs
      → IsCluster g d
      → disk_cluster g (clear_entries g cs s).image d ≡ disk_cluster g s.image d
  unfolding clear_entries
  clear_entries-cluster [] s d a hd = refl
  clear_entries-cluster (c ∷ cs) s d a hd =
      clear_entries-cluster cs (write_fat_entry g c fat_entry_free s) d a.1 hd
      ∙ write-cluster s c fat_entry_free d a.0 hd

  pub clear_entries-fat :
      (cs : List ℕ) (s : ExfatFs) (c' : ℕ)
      → disk_fat g (clear_entries g cs s).image c'
        ≡ (if has c' cs then 0 else disk_fat g s.image c')
  unfolding clear_entries
  clear_entries-fat [] s c' = refl
  clear_entries-fat (c ∷ cs) s c' = ground (
    arith,
    write-fat s c fat_entry_free c',
    clear_entries-fat cs (write_fat_entry g c fat_entry_free s) c',
  )
