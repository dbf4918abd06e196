-- ===== src/Ventoy/Format/Fresh.antt =====
-- What `open` and the operations of ops.rs find on a fresh volume.
use one_kvm_stream_box.Base.{
  ℕ, zero, suc, ◌+◌, ◌*◌, ◌/◌, ◌%◌, ◌^◌, ◌≤◌, ◌<◌, ◌≡◌, refl, ap, ◌∙◌, inl, inr, false, some, List,
  arith, ltb, Bool-cases, length, get_or, u32, u32_to_le_bytes,
}
use one_kvm_stream_box.Ventoy.Image.{Image, read_at}
use one_kvm_stream_box.Ventoy.Exfat.{Geometry, fat_entry_offset, cluster_to_offset}
use one_kvm_stream_box.Ventoy.Exfat.Disk.{
  from_le, from_le-to_le, IsGeometry, disk_fat, disk_cluster,
}
use one_kvm_stream_box.Ventoy.Format.{
  get_cluster_size, sectors_per_cluster_shift, ExfatBootSector, boot_sector_of, to_bytes,
  upcase_clusters, fat_entries, format_bitmap, write_volume, format_exfat, eq_bytes, open_volume,
}
use one_kvm_stream_box.Ventoy.Format.Layout.{IsLaidOut, volume-IsLaidOut}
use one_kvm_stream_box.Ventoy.Format.Bitmap.{length-format_bitmap}
use one_kvm_stream_box.Ventoy.Format.Volume.{
  read_boot_sector, read_fat, read_bitmap_cluster, length-fat_entries, fat_entry-lt,
}
use one_kvm_stream_box.Ventoy.Format.Chains.{HasChains, fat_entries-HasChains}

-- The geometry of a fresh volume of `v` sectors.
unfoldable pub geometry_of : ℕ → ℕ → Geometry
geometry_of partition_offset v =
    let b = boot_sector_of v (get_cluster_size v) 0 in
    record {
      partition_offset = partition_offset;
      bytes_per_sector = 512;
      cluster_size = get_cluster_size v;
      fat_offset = 24;
      cluster_heap_offset = b.cluster_heap_offset;
      cluster_count = b.cluster_count;
      first_cluster_of_root = b.first_cluster_of_root;
    }

shift_lem :
    (v : ℕ)
    → u32 (512 * 2 ^ (sectors_per_cluster_shift (get_cluster_size v) % 32)) ≡ get_cluster_size v
unfolding get_cluster_size sectors_per_cluster_shift
shift_lem v = elim (Bool-cases (ltb (v * 512) 268435456)) [
  | inl below ↦ rw below refl
  | inr above ↦ rw above (elim (Bool-cases (ltb (v * 512) 8589934592)) [
    | inl below ↦ rw below refl
    | inr far ↦ rw far refl
  ])
]

positive : (n m : ℕ) → n * m ≡ 131072 → 1 ≤ n
positive zero m h = absurd (omega arith)
positive (suc n) m h = omega arith

make : ℕ → ℕ → ℕ → ℕ → ℕ → ℕ → Geometry
make partition_offset cluster_size fat heap count root = record {
  partition_offset = partition_offset;
  bytes_per_sector = 512;
  cluster_size = cluster_size;
  fat_offset = fat;
  cluster_heap_offset = heap;
  cluster_count = count;
  first_cluster_of_root = root;
}

-- What `open` reads is what `to_bytes` wrote.
open_volume-to_bytes :
    (image : Image) (partition_offset : ℕ) (b : ExfatBootSector)
    → b.bytes_per_sector_shift ≡ 9
    → b.fat_offset < 2 ^ 32
    → b.cluster_heap_offset < 2 ^ 32
    → b.cluster_count < 2 ^ 32
    → b.first_cluster_of_root < 2 ^ 32
    → read_at image partition_offset 512 ≡ to_bytes b
    → open_volume image partition_offset
      ≡ some (
          make partition_offset
            (u32 (512 * 2 ^ (b.sectors_per_cluster_shift % 32)))
            b.fat_offset
            b.cluster_heap_offset
            b.cluster_count
            b.first_cluster_of_root)
unfolding open_volume to_bytes eq_bytes make
open_volume-to_bytes image partition_offset b shift fat heap count root read =
    let size = u32 (512 * 2 ^ (b.sectors_per_cluster_shift % 32)) in
    let word : ℕ → ℕ = (λ n. from_le (u32_to_le_bytes n)) in
    rw (read, shift)
      (ap
          (λ (n : ℕ). some (
            make partition_offset size n (word b.cluster_heap_offset) (word b.cluster_count)
              (word b.first_cluster_of_root)))
          (from_le-to_le b.fat_offset fat)
        ∙ ap
            (λ (n : ℕ). some (
              make partition_offset size b.fat_offset n (word b.cluster_count)
                (word b.first_cluster_of_root)))
            (from_le-to_le b.cluster_heap_offset heap)
        ∙ ap
            (λ (n : ℕ). some (
              make partition_offset size b.fat_offset b.cluster_heap_offset n
                (word b.first_cluster_of_root)))
            (from_le-to_le b.cluster_count count)
        ∙ ap
            (λ (n : ℕ).
              some
                (make partition_offset size b.fat_offset b.cluster_heap_offset b.cluster_count n))
            (from_le-to_le b.first_cluster_of_root root))

module _ (serial : ℕ) (label upcase_data : List ℕ) (image : Image)
    (partition_offset partition_size : ℕ) where
  abbrev sectors : ℕ
  sectors = partition_size / 512

  abbrev boot : ExfatBootSector
  boot = boot_sector_of sectors (get_cluster_size sectors) serial

  abbrev fresh : Image
  fresh = write_volume image partition_offset (get_cluster_size sectors) boot label upcase_data

  module _ (laid_out : IsLaidOut sectors (get_cluster_size sectors) boot) where
    format_exfat-fresh :
        length upcase_data ≤ 131072
        → format_exfat serial label upcase_data image partition_offset partition_size ≡ some fresh
    unfolding format_exfat
    format_exfat-fresh fits =
        let entries = length-fat_entries (upcase_clusters (get_cluster_size sectors)) in
        let room : ltb (boot.fat_length * 512)
              (length (fat_entries (upcase_clusters (get_cluster_size sectors))) * 4)
            ≡ false =
          ground (
            arith, entries, laid_out.fat_room, laid_out.root_within, laid_out.root_behind_upcase,
          ) in
        let table : ltb (upcase_clusters (get_cluster_size sectors) * get_cluster_size sectors)
              (length upcase_data)
            ≡ false =
          ground (arith, laid_out.upcase_size, fits) in
        rw (room, table) refl

    open_volume-fresh :
        open_volume fresh partition_offset ≡ some (geometry_of partition_offset sectors)
    unfolding geometry_of make boot_sector_of
    open_volume-fresh =
        open_volume-to_bytes fresh partition_offset boot refl (omega arith) (omega arith)
          (omega (arith, laid_out.few_clusters)) (omega arith)
          (read_boot_sector image partition_offset (get_cluster_size sectors) boot label upcase_data
            refl laid_out.heap_behind_fat)
        ∙ ap
            (λ (n : ℕ). some (
              make partition_offset n boot.fat_offset boot.cluster_heap_offset boot.cluster_count
                boot.first_cluster_of_root))
            (shift_lem sectors)

    geometry_of-IsGeometry : IsGeometry (geometry_of partition_offset sectors)
    unfolding geometry_of boot_sector_of
    geometry_of-IsGeometry = record {
      fat_before_heap = omega (arith, laid_out.heap_behind_fat, laid_out.fat_room);
      few_clusters = laid_out.few_clusters;
      some_cluster = omega (arith, laid_out.root_within, laid_out.root_behind_upcase);
      root_after_bitmap = omega (arith, laid_out.root_behind_upcase);
      root_within = laid_out.root_within;
    }

    disk_fat-fresh :
        (c : ℕ)
        → c < boot.cluster_count + 2
        → disk_fat (geometry_of partition_offset sectors) fresh c
          ≡ get_or (fat_entries (upcase_clusters (get_cluster_size sectors))) c 0
    unfolding disk_fat fat_entry_offset geometry_of boot_sector_of
    disk_fat-fresh c within =
        let upcase = upcase_clusters (get_cluster_size sectors) in
        let entries = length-fat_entries upcase in
        let few = laid_out.few_upcase in
        ap from_le (
          read_fat image partition_offset (get_cluster_size sectors) boot label upcase_data refl
            laid_out.heap_behind_fat c
            (omega (
              arith, entries, laid_out.fat_room, laid_out.root_within, laid_out.root_behind_upcase,
            ))
            (omega (arith, laid_out.fat_room)))
        ∙ from_le-to_le (get_or (fat_entries upcase) c 0) (fat_entry-lt upcase c (omega arith))

    disk_cluster-fresh :
        disk_cluster (geometry_of partition_offset sectors) fresh 2
        ≡ format_bitmap (get_cluster_size sectors) (upcase_clusters (get_cluster_size sectors))
    unfolding disk_cluster cluster_to_offset geometry_of boot_sector_of
    disk_cluster-fresh =
        let few = laid_out.few_upcase in
        let big = laid_out.big_clusters in
        let size = get_cluster_size sectors in
        let heap = partition_offset + boot.cluster_heap_offset * 512 in
        let at : heap + 0 * size ≡ heap = omega arith in
        ap (λ (k : ℕ). read_at fresh k size) at
        ∙ read_bitmap_cluster image partition_offset size boot label upcase_data refl
            laid_out.heap_behind_fat
            (length-format_bitmap size (upcase_clusters size) (omega arith) (omega arith))

    chains-fresh :
        HasChains
          (disk_fat (geometry_of partition_offset sectors) fresh)
          (upcase_clusters (get_cluster_size sectors))
    chains-fresh =
        fat_entries-HasChains _ (upcase_clusters (get_cluster_size sectors))
          (positive (upcase_clusters (get_cluster_size sectors)) (get_cluster_size sectors)
            laid_out.upcase_size)
          laid_out.few_upcase
          (λ c small.
            disk_fat-fresh c (omega (arith, laid_out.root_within, laid_out.root_behind_upcase)))

-- Formatting a partition of 31 MB to 2 TB succeeds, with any bytes in the image before. `open` then
-- finds the geometry that was chosen, in which the FAT lies before the clusters; the bitmap, the upcase
-- table and the root directory each have their chain of clusters, and cluster 2 holds the bitmap.
pub format_exfat-open_volume :
    (serial : ℕ) (label upcase_data : List ℕ) (image : Image) (partition_offset partition_size : ℕ)
    → 63488 ≤ partition_size / 512
    → partition_size / 512 < 2 ^ 32
    → length upcase_data ≤ 131072
    → let v = partition_size / 512 in
      let upcase = upcase_clusters (get_cluster_size v) in
      let g = geometry_of partition_offset v in
      (fresh : Image) × (format_exfat serial label upcase_data image partition_offset partition_size
        ≡ some fresh)
      × (open_volume fresh partition_offset ≡ some g)
      × IsGeometry g
      × (g.first_cluster_of_root ≡ 3 + upcase)
      × HasChains (disk_fat g fresh) upcase
      × (disk_cluster g fresh 2 ≡ format_bitmap (get_cluster_size v) upcase)
unfolding geometry_of boot_sector_of
format_exfat-open_volume serial label upcase_data image partition_offset partition_size lo hi fits =
    let laid_out = volume-IsLaidOut (partition_size / 512) serial lo hi in
    (
      fresh serial label upcase_data image partition_offset partition_size,
      format_exfat-fresh serial label upcase_data image partition_offset partition_size laid_out
          fits,
      open_volume-fresh serial label upcase_data image partition_offset partition_size laid_out,
      geometry_of-IsGeometry serial label upcase_data image partition_offset partition_size
          laid_out,
      laid_out.root_behind_upcase,
      chains-fresh serial label upcase_data image partition_offset partition_size laid_out,
      disk_cluster-fresh serial label upcase_data image partition_offset partition_size laid_out,
    )
