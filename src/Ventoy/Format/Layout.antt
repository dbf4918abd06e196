-- ===== src/Ventoy/Format/Layout.antt =====
-- The numbers of a fresh volume: where its FAT, its clusters and its root directory lie.
use one_kvm_stream_box.Base.{
  ℕ, ◌+◌, ◌-◌, ◌*◌, ◌/◌, ◌%◌, ◌^◌, ◌≤◌, ◌<◌, ◌≡◌, refl, ◌⊎◌, inl, inr, true, false, some, arith,
  ltb, Bool-cases,
}
use one_kvm_stream_box.Ventoy.Format.{
  PartitionLayout, calculate, data_size, get_cluster_size, ExfatBootSector, boot_sector_of,
  upcase_clusters,
}

-- Where the parts of a volume lie, in sectors.
pub record IsLaidOut (v cluster_size : ℕ) (b : ExfatBootSector) : Type 0 where
  pub fat_room : (b.cluster_count + 2) * 4 ≤ b.fat_length * 512
  pub heap_behind_fat : b.cluster_heap_offset ≡ 24 + b.fat_length
  pub heap_within : b.cluster_heap_offset * 512 + b.cluster_count * cluster_size ≤ v * 512
  pub root_within : b.first_cluster_of_root < b.cluster_count + 2
  pub root_behind_upcase : b.first_cluster_of_root ≡ 3 + upcase_clusters cluster_size
  pub upcase_size : upcase_clusters cluster_size * cluster_size ≡ 131072
  pub few_upcase : upcase_clusters cluster_size ≤ 32
  pub big_clusters : 4096 ≤ cluster_size
  pub few_clusters : b.cluster_count + 2 ≤ 0xFFFFFFF8

small_volume :
    (v serial : ℕ) → 63488 ≤ v → v < 524288 → IsLaidOut v 4096 (boot_sector_of v 4096 serial)
unfolding boot_sector_of
small_volume v serial lo hi = record {
  fat_room = omega arith;
  heap_behind_fat = omega arith;
  heap_within = omega arith;
  root_within = omega arith;
  root_behind_upcase = refl;
  upcase_size = refl;
  few_upcase = omega arith;
  big_clusters = omega arith;
  few_clusters = omega arith;
}

medium_volume :
    (v serial : ℕ) → 524288 ≤ v → v < 16777216 → IsLaidOut v 32768 (boot_sector_of v 32768 serial)
unfolding boot_sector_of
medium_volume v serial lo hi = record {
  fat_room = omega arith;
  heap_behind_fat = omega arith;
  heap_within = omega arith;
  root_within = omega arith;
  root_behind_upcase = refl;
  upcase_size = refl;
  few_upcase = omega arith;
  big_clusters = omega arith;
  few_clusters = omega arith;
}

large_volume :
    (v serial : ℕ) → 16777216 ≤ v → v < 2 ^ 32 → IsLaidOut v 131072 (boot_sector_of v 131072 serial)
unfolding boot_sector_of
large_volume v serial lo hi = record {
  fat_room = omega arith;
  heap_behind_fat = omega arith;
  heap_within = omega arith;
  root_within = omega arith;
  root_behind_upcase = refl;
  upcase_size = refl;
  few_upcase = omega arith;
  big_clusters = omega arith;
  few_clusters = omega arith;
}

pub volume-IsLaidOut :
    (v serial : ℕ)
    → 63488 ≤ v
    → v < 2 ^ 32
    → IsLaidOut v (get_cluster_size v) (boot_sector_of v (get_cluster_size v) serial)
unfolding get_cluster_size
volume-IsLaidOut v serial lo hi = elim (Bool-cases (ltb (v * 512) 268435456)) [
  | inl below ↦ rw below (small_volume v serial lo (ground (arith, below)))
  | inr above ↦ rw above (elim (Bool-cases (ltb (v * 512) 8589934592)) [
    | inl below ↦ rw below (medium_volume v serial (ground (arith, above)) (ground (arith, below)))
    | inr far ↦ rw far (large_volume v serial (ground (arith, far)) hi)
  ])
]

-- The partitions of an image from 64 MB to 2 TB, and the volume in its first partition: the partitions
-- follow each other within the image, the second on a border of 4 KB; the FAT has an entry for each
-- cluster, the clusters begin behind it and end within the partition, and the root directory is the
-- cluster behind the 128 KB of the upcase table.
pub calculate-IsLaidOut :
    (total_size serial : ℕ)
    → 67108864 ≤ total_size
    → total_size < 2 ^ 41
    → (layout : PartitionLayout) × (calculate total_size ≡ some layout)
      × (layout.data_start_sector + layout.data_size_sectors ≡ layout.efi_start_sector)
      × (layout.efi_start_sector + layout.efi_size_sectors ≤ layout.total_sectors)
      × (layout.efi_start_sector % 8 ≡ 0)
      × (let v = data_size layout / 512 in
          IsLaidOut v (get_cluster_size v) (boot_sector_of v (get_cluster_size v) serial))
unfolding calculate
calculate-IsLaidOut total_size serial lo hi =
    let sectors = total_size / 512 in
    let efi = (sectors - 65536) / 8 * 8 in
    let layout : PartitionLayout = record {
      total_sectors = sectors;
      data_start_sector = 2048;
      data_size_sectors = efi - 2048;
      efi_start_sector = efi;
      efi_size_sectors = 65536;
    } in
    let enough : ltb total_size 67108864 ≡ false = ground (arith, lo) in
    (
      layout,
      rw enough refl,
      omega arith,
      omega arith,
      omega arith,
      volume-IsLaidOut ((efi - 2048) * 512 / 512) serial (omega arith) (omega arith),
    )

-- In volumes of about 128 MB to 256 MB and of about 128 GB to 2 TB there are more clusters than the
-- single cluster of the bitmap has bits.
pub bitmap_too_small :
    (v serial : ℕ)
    → ((262600 ≤ v) × (v < 524288)) ⊎ ((268600000 ≤ v) × (v < 2 ^ 32))
    → 8 * get_cluster_size v < (boot_sector_of v (get_cluster_size v) serial).cluster_count
unfolding get_cluster_size boot_sector_of
bitmap_too_small v serial (inl (lo, hi)) =
    let small : ltb (v * 512) 268435456 ≡ true = ground (arith, hi) in rw small (omega arith)
bitmap_too_small v serial (inr (lo, hi)) =
    let big : ltb (v * 512) 268435456 ≡ false = ground (arith, lo) in
    let large : ltb (v * 512) 8589934592 ≡ false = ground (arith, lo) in
    rw (big, large) (omega arith)
