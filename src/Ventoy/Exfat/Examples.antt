-- ===== src/Ventoy/Exfat/Examples.antt =====
-- Small volumes, and the theorems on them.
use one_kvm_stream_box.Base.{
  ℕ, ◌<◌, ◌≡◌, refl, ◌⊎◌, none, List, [], ◌∷◌, ◌++◌, arith, if◌then◌else◌, length, get_or, All,
  IsByte,
}
use one_kvm_stream_box.Ventoy.Image.{Image, read_at, write_at}
use one_kvm_stream_box.Ventoy.Exfat.{
  Geometry, ExfatFs, ok, err, chain_too_long, cluster_to_offset, fat_entry_offset,
  is_cluster_allocated, free_from, read_cluster_chain, allocate_clusters, free_cluster_chain,
}
use one_kvm_stream_box.Ventoy.Exfat.Disk.{IsGeometry, disk_fat, disk_cluster}
use one_kvm_stream_box.Ventoy.Exfat.Cache.{IsCoherent, Reads}
use one_kvm_stream_box.Ventoy.Exfat.Chain.{read_cluster_chain-Reads, read_cluster_chain_endless}
use one_kvm_stream_box.Ventoy.Exfat.Allocation.Search.{IsAscending, IsFree, count_free}
use one_kvm_stream_box.Ventoy.Exfat.Allocation.Marks.{has}
use one_kvm_stream_box.Ventoy.Exfat.Allocation.Allocate.{found, free_count}
use one_kvm_stream_box.Ventoy.Exfat.Allocation.Free.{free_cluster_chain-allocate_clusters}
use one_kvm_stream_box.Ventoy.Exfat.Allocation.Outcome.{
  IsTaken, allocate_clusters-IsTaken, IsReleased, free_cluster_chain-IsReleased,
}
use one_kvm_stream_box.Ventoy.Exfat.Allocation.Beyond.{allocate_clusters_twice}

-- Ten clusters of 8 bytes; clusters 3 and 5 are a file, and cluster 4 is the root directory.
abbrev pub tiny : Geometry
tiny = record {
  partition_offset = 0;
  bytes_per_sector = 8;
  cluster_size = 8;
  fat_offset = 1;
  cluster_heap_offset = 8;
  cluster_count = 10;
  first_cluster_of_root = 4;
}

pub tiny-IsGeometry : IsGeometry tiny
tiny-IsGeometry = record {
  fat_before_heap = omega arith;
  few_clusters = omega arith;
  some_cluster = omega arith;
  root_after_bitmap = omega arith;
  root_within = omega arith;
}

abbrev pub end_mark : List ℕ
end_mark = 255 ∷ 255 ∷ 255 ∷ 255 ∷ []

abbrev pub fs_on : Image → ExfatFs
fs_on image = record {
  image = image;
  fat_cache = record { start_cluster = 0; entries = [] };
  bitmap_cache = none;
}

abbrev pub disk : ExfatFs
disk = fs_on (
    write_at
      (write_at (λ a. 0) 8
        ((248 ∷ 255 ∷ 255 ∷ 255 ∷ [])
          ++ end_mark
          ++ end_mark
          ++ (5 ∷ 0 ∷ 0 ∷ 0 ∷ [])
          ++ end_mark
          ++ end_mark))
      64 (15 ∷ []))

pub fs_on-IsCoherent : (g : Geometry) (image : Image) → IsCoherent g (fs_on image)
fs_on-IsCoherent g image = record {
  entry_cached = λ i h. absurd (omega arith);
  segment_within = omega arith;
  bitmap_cached = tt;
}

read_cluster_chain-Reads_example :
    Reads tiny tiny-IsGeometry disk (read_cluster_chain tiny 3 disk) (3 ∷ 5 ∷ [])
unfolding disk_fat fat_entry_offset read_at write_at
read_cluster_chain-Reads_example =
    read_cluster_chain-Reads tiny tiny-IsGeometry (3 ∷ 5 ∷ []) disk 3
      (fs_on-IsCoherent tiny disk.image) (refl, refl, (refl, refl, refl))
      (omega arith, (omega arith, tt)) (omega arith)

-- Cluster 3 leads to itself.
abbrev cyclic : ExfatFs
cyclic = fs_on (
    write_at (λ a. 0) 8
      ((248 ∷ 255 ∷ 255 ∷ 255 ∷ []) ++ end_mark ++ end_mark ++ (3 ∷ 0 ∷ 0 ∷ 0 ∷ [])))

read_cluster_chain_endless_example : (read_cluster_chain tiny 3 cyclic).1 ≡ err chain_too_long
unfolding disk_fat fat_entry_offset read_at write_at
read_cluster_chain_endless_example =
    let w : 3 < 12 = omega arith in
    read_cluster_chain_endless tiny tiny-IsGeometry cyclic 3 (fs_on-IsCoherent tiny cyclic.image) (
      refl,
      w,
      (
        refl,
        w,
        (
          refl,
          w,
          (refl, w, (refl, w, (refl, w, (refl, w, (refl, w, (refl, w, (refl, w, (refl, w)))))))),
        ),
      ),
    )

pub disk-free_count : free_count tiny tiny-IsGeometry disk ≡ 6
unfolding free_count count_free is_cluster_allocated disk_cluster cluster_to_offset read_at write_at
disk-free_count = refl

disk-found : found tiny tiny-IsGeometry disk 2 ≡ 6 ∷ 7 ∷ []
unfolding found free_from is_cluster_allocated disk_cluster cluster_to_offset read_at write_at
disk-found = refl

disk-IsByte : All IsByte (disk_cluster tiny disk.image 2)
unfolding disk_cluster cluster_to_offset read_at write_at
disk-IsByte = let z : 0 < 256 = omega arith in (omega arith, (z, (z, (z, (z, (z, (z, (z, tt))))))))

allocate_clusters-IsTaken_example :
    ((allocate_clusters tiny 2 disk).1 ≡ ok (get_or (found tiny tiny-IsGeometry disk 2) 0 0))
    × IsTaken tiny tiny-IsGeometry disk
        (found tiny tiny-IsGeometry disk 2)
        (allocate_clusters tiny 2 disk).0
    × (length (found tiny tiny-IsGeometry disk 2) ≡ 2)
    × All (IsFree (disk_cluster tiny disk.image 2) 5 12) (found tiny tiny-IsGeometry disk 2)
    × IsAscending (found tiny tiny-IsGeometry disk 2)
allocate_clusters-IsTaken_example =
    allocate_clusters-IsTaken tiny tiny-IsGeometry disk 2 (fs_on-IsCoherent tiny disk.image)
      disk-IsByte (omega arith) (omega arith) (omega (arith, disk-free_count))

free_cluster_chain-IsReleased_example :
    ((free_cluster_chain tiny 3 disk).1 ≡ ok tt)
    × IsReleased tiny tiny-IsGeometry disk (3 ∷ 5 ∷ []) (free_cluster_chain tiny 3 disk).0
unfolding disk_fat fat_entry_offset read_at write_at
free_cluster_chain-IsReleased_example =
    free_cluster_chain-IsReleased tiny tiny-IsGeometry disk 3 (3 ∷ 5 ∷ [])
      (fs_on-IsCoherent tiny disk.image) disk-IsByte (omega arith) (refl, refl, (refl, refl, refl))
      ((omega arith, omega arith), ((omega arith, omega arith), tt)) (omega arith)

free_cluster_chain-allocate_clusters_example :
    let cs = found tiny tiny-IsGeometry disk 2 in
    let r = free_cluster_chain tiny (get_or cs 0 0) (allocate_clusters tiny 2 disk).0 in
    ((allocate_clusters tiny 2 disk).1 ≡ ok (get_or cs 0 0))
    × (r.1 ≡ ok tt)
    × (is_cluster_allocated (disk_cluster tiny r.0.image 2) 6
        ≡ is_cluster_allocated (disk_cluster tiny disk.image 2) 6)
    × (disk_fat tiny r.0.image 6 ≡ (if has 6 cs then 0 else disk_fat tiny disk.image 6))
    × (◌≡◌ {A = ℕ} 2 6 ⊎ (disk_cluster tiny r.0.image 6 ≡ disk_cluster tiny disk.image 6))
free_cluster_chain-allocate_clusters_example =
    free_cluster_chain-allocate_clusters tiny tiny-IsGeometry disk 2 6
      (fs_on-IsCoherent tiny disk.image) (omega arith) (omega (arith, disk-free_count)) disk-IsByte
      (omega arith) (omega arith, omega arith)

-- Sixteen clusters of one byte: the bitmap has bits for clusters 2 to 9, and all of them are set.
abbrev wide : Geometry
wide = record {
  partition_offset = 0;
  bytes_per_sector = 1;
  cluster_size = 1;
  fat_offset = 0;
  cluster_heap_offset = 72;
  cluster_count = 16;
  first_cluster_of_root = 3;
}

wide-IsGeometry : IsGeometry wide
wide-IsGeometry = record {
  fat_before_heap = omega arith;
  few_clusters = omega arith;
  some_cluster = omega arith;
  root_after_bitmap = omega arith;
  root_within = omega arith;
}

abbrev full : ExfatFs
full = fs_on (write_at (λ a. 0) 72 (255 ∷ []))

full-free_count : free_count wide wide-IsGeometry full ≡ 8
unfolding free_count count_free is_cluster_allocated disk_cluster cluster_to_offset read_at write_at
full-free_count = refl

full-found : found wide wide-IsGeometry full 2 ≡ 10 ∷ 11 ∷ []
unfolding found free_from is_cluster_allocated disk_cluster cluster_to_offset read_at write_at
full-found = refl

allocate_clusters_twice_example :
    let once = allocate_clusters wide 2 full in
    let twice = allocate_clusters wide 2 once.0 in
    (once.1 ≡ ok (get_or (found wide wide-IsGeometry full 2) 0 0))
    × (twice.1 ≡ ok (get_or (found wide wide-IsGeometry full 2) 0 0))
allocate_clusters_twice_example =
    allocate_clusters_twice wide wide-IsGeometry full 2 (fs_on-IsCoherent wide full.image)
      (omega arith) (omega (arith, full-free_count))
      (rw full-found (omega arith, (omega arith, tt)))
