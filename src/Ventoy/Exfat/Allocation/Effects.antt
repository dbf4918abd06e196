-- ===== src/Ventoy/Exfat/Allocation/Effects.antt =====
-- What marking clusters leaves on the disk.
use one_kvm_stream_box.Base.{
  ℕ, ◌+◌, ◌-◌, ◌≤◌, ◌<◌, ◌≡◌, refl, sym, ap, ◌∙◌, Bool, false, Option, none, some, List, ◌++◌,
  append-nil, arith, ltb, ◌==◌, length, replicate,
}
use mathlib.Core.Path.{subst}
use one_kvm_stream_box.Ventoy.Image.{Image, length-read_at}
use one_kvm_stream_box.Ventoy.Exfat.{
  Geometry, ExfatFs, FsResult, ok, Call, and_then, read_cluster, cluster_image, write_cluster,
  bitmap_or_load, read_bitmap, flush_bitmap_now, mark_all, mark_clusters,
}
use one_kvm_stream_box.Ventoy.Exfat.Disk.{
  IsGeometry, IsCluster, padded, disk_fat, disk_cluster, disk_fat-cluster_image,
  disk_cluster-cluster_image,
}
use one_kvm_stream_box.Ventoy.Exfat.Cache.{IsCoherent, IsCached, Reads}
use one_kvm_stream_box.Ventoy.Exfat.Chain.{Reads-elim}
use one_kvm_stream_box.Ventoy.Exfat.Allocation.Search.{}
use one_kvm_stream_box.Ventoy.Exfat.Allocation.Marks.{length-mark_all}
use one_kvm_stream_box.Ventoy.Exfat.Allocation.Links.{}

-- The disk after the bitmap was written with some clusters marked.
pub record IsMarked (g : Geometry) (s : ExfatFs) (v : Bool) (cs : List ℕ) (s' : ExfatFs)
    : Type 0 where
  pub coherent : IsCoherent g s'
  pub same_fat : (c : ℕ) → c < g.cluster_count + 2 → disk_fat g s'.image c ≡ disk_fat g s.image c
  pub marks : disk_cluster g s'.image 2 ≡ mark_all v (disk_cluster g s.image 2) cs
  pub same_clusters :
      (d : ℕ)
      → IsCluster g d
      → (2 == d) ≡ false
      → disk_cluster g s'.image d ≡ disk_cluster g s.image d

module _ (g : Geometry) (valid : IsGeometry g) where
  pub two-IsCluster : IsCluster g 2
  two-IsCluster = (omega arith, omega (arith, valid.some_cluster))

  loaded :
      (o : Option (List ℕ)) (s : ExfatFs)
      → IsCached o (disk_cluster g s.image 2)
      → IsCoherent g s
      → Reads g valid s (bitmap_or_load g o s) (disk_cluster g s.image 2)
  unfolding bitmap_or_load read_cluster disk_cluster
  loaded (some b) s e h = (ap ok e, refl, h)
  loaded none s e h = (
    refl,
    refl,
    record {
      entry_cached = h.entry_cached;
      segment_within = h.segment_within;
      bitmap_cached = refl;
    },
  )

  pub read_bitmap-Reads :
      (s : ExfatFs) → IsCoherent g s → Reads g valid s (read_bitmap g s) (disk_cluster g s.image 2)
  unfolding read_bitmap
  read_bitmap-Reads s h = loaded s.bitmap_cache s h.bitmap_cached h

  -- A bitmap of a cluster's length, in the cache and on the disk.
  flushed : List ℕ → ExfatFs → ExfatFs
  flushed m s = record s { bitmap_cache = some m; image = cluster_image g s.image 2 m }

  flush-flushed :
      (m : List ℕ) (s : ExfatFs)
      → length m ≡ g.cluster_size
      → flush_bitmap_now g (record s { bitmap_cache = some m }) ≡ (flushed m s, ok tt)
  unfolding flush_bitmap_now write_cluster flushed
  flush-flushed m s size =
      let guard : ltb g.cluster_size (length m) ≡ false = ground (arith, size) in rw guard refl

  padded_full : (m : List ℕ) → length m ≡ g.cluster_size → padded g m ≡ m
  padded_full m size =
      let none_left : g.cluster_size - length m ≡ 0 = omega arith in
      ap (λ (k : ℕ). m ++ replicate k 0) none_left ∙ append-nil m

  length-marked :
      (v : Bool) (cs : List ℕ) (image : Image)
      → length (mark_all v (disk_cluster g image 2) cs) ≡ g.cluster_size
  unfolding disk_cluster
  length-marked v cs image =
      length-mark_all v cs (disk_cluster g image 2) ∙ length-read_at image _ g.cluster_size

  flushed-bitmap :
      (m : List ℕ) (image : Image)
      → length m ≡ g.cluster_size
      → disk_cluster g (cluster_image g image 2 m) 2 ≡ m
  flushed-bitmap m image size =
      disk_cluster-cluster_image g valid image 2 2 m two-IsCluster two-IsCluster
        (omega (arith, size))
      ∙ padded_full m size

  flushed-IsMarked :
      (v : Bool) (cs : List ℕ) (s s' : ExfatFs)
      → s'.image ≡ s.image
      → IsCoherent g s'
      → IsMarked g s v cs (flushed (mark_all v (disk_cluster g s.image 2) cs) s')
  unfolding flushed
  flushed-IsMarked v cs s s' same h =
      let m = mark_all v (disk_cluster g s.image 2) cs in
      let size = length-marked v cs s.image in
      let fits : length m ≤ g.cluster_size = omega (arith, size) in
      let fat = λ (c : ℕ) (hc : c < g.cluster_count + 2).
        disk_fat-cluster_image g valid s'.image 2 c m two-IsCluster hc fits in
      record {
        coherent = record {
          entry_cached = λ i hi.
              h.entry_cached i hi
              ∙ ap some (
                  sym (fat (s'.fat_cache.start_cluster + i) (omega (arith, hi, h.segment_within))));
          segment_within = h.segment_within;
          bitmap_cached = sym (flushed-bitmap m s'.image size);
        };
        same_fat = λ c hc. fat c hc ∙ ap (λ (i : Image). disk_fat g i c) same;
        marks = flushed-bitmap m s'.image size;
        same_clusters = λ d hd other.
            disk_cluster-cluster_image g valid s'.image 2 d m two-IsCluster hd fits
            ∙ ground (arith, other)
            ∙ ap (λ (i : Image). disk_cluster g i d) same;
      }

  -- A call that goes on after the clusters were marked.
  pub mark_clusters-elim :
      {B : Type 0} (P : ExfatFs × FsResult B → Type 0) (s : ExfatFs) (v : Bool) (cs : List ℕ)
      (k : Unit {0} → Call B)
      → IsCoherent g s
      → ((s' : ExfatFs) → IsMarked g s v cs s' → P (k tt s'))
      → P (and_then (mark_clusters g v cs s) k)
  unfolding mark_clusters
  mark_clusters-elim {B} P s v cs k h next =
      Reads-elim g valid (λ (r : ExfatFs × FsResult (Unit {0})). P (and_then r k)) s
        (read_bitmap g s) (disk_cluster g s.image 2) _ (read_bitmap-Reads s h)
        (λ s' same h'.
          let m = mark_all v (disk_cluster g s.image 2) cs in
          subst (λ (r : ExfatFs × FsResult (Unit {0})). P (and_then r k))
            (sym (flush-flushed m s' (length-marked v cs s.image)))
            (next (flushed m s') (flushed-IsMarked v cs s s' same h')))

  -- The same against a state with the same disk.
  pub IsMarked-image :
      (s s' t : ExfatFs) (v : Bool) (cs : List ℕ)
      → s'.image ≡ s.image
      → IsMarked g s' v cs t
      → IsMarked g s v cs t
  IsMarked-image s s' t v cs same m = record {
    coherent = m.coherent;
    same_fat = λ c hc. m.same_fat c hc ∙ ap (λ (i : Image). disk_fat g i c) same;
    marks = m.marks ∙ ap (λ (i : Image). mark_all v (disk_cluster g i 2) cs) same;
    same_clusters = λ d hd o. m.same_clusters d hd o ∙ ap (λ (i : Image). disk_cluster g i d) same;
  }
