-- ===== src/Ventoy/File/Kept.antt =====
-- Writing a data cluster keeps the FAT, the caches and every other cluster.
use one_kvm_stream_box.Base.{
  ℕ, ◌+◌, ◌-◌, ◌≤◌, ◌<◌, ◌≡◌, refl, sym, ap, ◌∙◌, true, false, Option, none, some, List, [], ◌∷◌,
  arith, ltb, ◌==◌, if◌then◌else◌, length, take, replicate, All, All-map, take-length-append,
}
use one_kvm_stream_box.Ventoy.Exfat.{Geometry, ExfatFs, ok, cluster_image, write_cluster}
use one_kvm_stream_box.Ventoy.Exfat.Disk.{
  IsGeometry, IsCluster, padded, disk_fat, disk_cluster, disk_fat-cluster_image,
  disk_cluster-cluster_image,
}
use one_kvm_stream_box.Ventoy.Exfat.Cache.{IsCoherent, IsCached}
use one_kvm_stream_box.Ventoy.Exfat.Chain.{Leads}
use one_kvm_stream_box.Ventoy.Exfat.Allocation.Effects.{two-IsCluster}

Leads-other :
    (fat fat' : ℕ → ℕ) (first : ℕ) (cs : List ℕ)
    → All (λ c. fat' c ≡ fat c) cs
    → Leads fat first cs
    → Leads fat' first cs
Leads-other fat fat' first [] a h = h
Leads-other fat fat' first (c ∷ cs) a (is, chain, h) =
    (is, chain, rw a.0 (Leads-other fat fat' (fat c) cs a.1 h))

IsCached-same :
    (cached : Option (List ℕ)) (b b' : List ℕ) → b' ≡ b → IsCached cached b → IsCached cached b'
IsCached-same none b b' e h = tt
IsCached-same (some x) b b' e h = h ∙ sym e

module _ (g : Geometry) (valid : IsGeometry g) where
  -- A volume with coherent caches, on which the entries lead through the clusters.
  pub record Keeps (first : ℕ) (clusters : List ℕ) (s : ExfatFs) : Type 0 where
    pub coherent : IsCoherent g s
    pub chain : Leads (disk_fat g s.image) first clusters

  abbrev pub stored_to : ExfatFs → ℕ → List ℕ → ExfatFs
  stored_to s c bytes = record s { image = cluster_image g s.image c bytes }

  pub write_cluster-fits :
      (s : ExfatFs) (c : ℕ) (bytes : List ℕ)
      → length bytes ≤ g.cluster_size
      → write_cluster g c bytes s ≡ (stored_to s c bytes, ok tt)
  unfolding write_cluster
  write_cluster-fits s c bytes fits =
      let small : ltb g.cluster_size (length bytes) ≡ false = ground (arith, fits) in rw small refl

  pub stored_to-Keeps :
      (s : ExfatFs) (first c : ℕ) (clusters bytes : List ℕ)
      → Keeps first clusters s
      → All (IsCluster g) clusters
      → IsCluster g c
      → 2 < c
      → length bytes ≤ g.cluster_size
      → Keeps first clusters (stored_to s c bytes)
  stored_to-Keeps s first c clusters bytes k a hc behind fits =
      let old = k.coherent in
      let fat = (λ (d : ℕ) (hd : d < g.cluster_count + 2).
        disk_fat-cluster_image g valid s.image c d bytes hc hd fits) in
      let bitmap : disk_cluster g (cluster_image g s.image c bytes) 2 ≡ disk_cluster g s.image 2 =
        let two : (c == 2) ≡ false = ground arith in
        disk_cluster-cluster_image g valid s.image c 2 bytes hc (two-IsCluster g valid) fits
        ∙ rw two refl in
      record {
        coherent = record {
          entry_cached = λ i h.
              old.entry_cached i h
              ∙ ap (λ (v : ℕ). some v)
                  (sym
                    (fat (s.fat_cache.start_cluster + i) (omega (arith, h, old.segment_within))));
          segment_within = old.segment_within;
          bitmap_cached = IsCached-same s.bitmap_cache _ _ bitmap old.bitmap_cached;
        };
        chain =
            Leads-other (disk_fat g s.image) _ first clusters
              (All-map (IsCluster g) (λ d hd. fat d hd.1) clusters a) k.chain;
      }

  pub stored_to-cluster :
      (s : ExfatFs) (c d : ℕ) (bytes : List ℕ)
      → IsCluster g c
      → IsCluster g d
      → length bytes ≤ g.cluster_size
      → disk_cluster g (stored_to s c bytes).image d
        ≡ (if c == d then padded g bytes else disk_cluster g s.image d)
  stored_to-cluster s c d bytes hc hd fits =
      disk_cluster-cluster_image g valid s.image c d bytes hc hd fits

  -- What the cluster begins with.
  pub stored_to-front :
      (s : ExfatFs) (c : ℕ) (bytes : List ℕ)
      → IsCluster g c
      → length bytes ≤ g.cluster_size
      → take (length bytes) (disk_cluster g (stored_to s c bytes).image c) ≡ bytes
  stored_to-front s c bytes hc fits =
      let same : (c == c) ≡ true = ground arith in
      ap (take (length bytes)) (stored_to-cluster s c c bytes hc hc fits)
      ∙ rw same (take-length-append bytes (replicate (g.cluster_size - length bytes) 0))
