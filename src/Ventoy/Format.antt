-- ===== src/Ventoy/Format.antt =====
-- libs/ventoy-img-rs/src/partition.rs, the layout of the partitions, and src/exfat/format.rs, a fresh
-- exFAT volume; `open` of src/exfat/ops.rs, which reads its boot sector. Arithmetic on `u32` wraps, as in
-- a release build. The names of the program's `u64` sizes stay below 2^64.
pub mod Bitmap
pub mod Layout
pub mod Volume
pub mod Chains
pub mod Fresh
mod Examples
use one_kvm_stream_box.Base.{
  ℕ, zero, suc, ◌+◌, ◌-◌, ◌*◌, ◌/◌, ◌%◌, ◌^◌, min, max, bit_or, Bool, true, false, ◌&&◌, ◌||◌,
  Option, none, some, List, [], ◌∷◌, ◌++◌, ltb, ◌==◌, if◌then◌else◌, length, get_or, take, drop,
  replicate, set, u32, u16_to_le_bytes, u32_to_le_bytes,
}
use one_kvm_stream_box.Ventoy.Image.{Image, read_at, write_at}
use one_kvm_stream_box.Ventoy.Exfat.{sub_u32, Geometry, fat_entry_end_of_chain}
use one_kvm_stream_box.Ventoy.Exfat.Disk.{from_le}
use one_kvm_stream_box.Ventoy.Exfat.Bits.{with_bit}

abbrev pub min_image_size : ℕ
min_image_size = 67108864

abbrev pub data_part_start_sector : ℕ
data_part_start_sector = 2048

abbrev pub efi_part_size_sectors : ℕ
efi_part_size_sectors = 65536

pub record PartitionLayout : Type 0 where
  pub total_sectors : ℕ
  pub data_start_sector : ℕ
  pub data_size_sectors : ℕ
  pub efi_start_sector : ℕ
  pub efi_size_sectors : ℕ

-- `none` is the error `InvalidSize`.
unfoldable pub calculate : ℕ → Option PartitionLayout
calculate total_size =
    if ltb total_size min_image_size
    then none
    else let total = total_size / 512 in
      let efi_start = (total - efi_part_size_sectors) / 8 * 8 in
      some (record {
        total_sectors = total;
        data_start_sector = data_part_start_sector;
        data_size_sectors = efi_start - data_part_start_sector;
        efi_start_sector = efi_start;
        efi_size_sectors = efi_part_size_sectors;
      })

abbrev pub data_offset : PartitionLayout → ℕ
data_offset layout = layout.data_start_sector * 512

abbrev pub data_size : PartitionLayout → ℕ
data_size layout = layout.data_size_sectors * 512

unfoldable pub get_cluster_size : ℕ → ℕ
get_cluster_size total_sectors =
    if ltb (total_sectors * 512) 268435456
    then 4096
    else if ltb (total_sectors * 512) 8589934592
    then 32768
    else 131072

abbrev pub trailing_zeros : ℕ → ℕ → ℕ
trailing_zeros zero n = 0
trailing_zeros (suc fuel) n =
    let rest = trailing_zeros fuel (n / 2) in if n % 2 == 1 then 0 else suc rest

unfoldable pub sectors_per_cluster_shift : ℕ → ℕ
sectors_per_cluster_shift cluster_size =
    if cluster_size == 4096
    then 3
    else if cluster_size == 8192
    then 4
    else if cluster_size == 16384
    then 5
    else if cluster_size == 32768
    then 6
    else if cluster_size == 65536
    then 7
    else if cluster_size == 131072
    then 8
    else if cluster_size == 262144
    then 9
    else min (max (trailing_zeros 32 (cluster_size / 512)) 3) 9

-- The fields that differ between volumes; `to_bytes` has the others.
pub record ExfatBootSector : Type 0 where
  pub volume_length : ℕ
  pub fat_offset : ℕ
  pub fat_length : ℕ
  pub cluster_heap_offset : ℕ
  pub cluster_count : ℕ
  pub first_cluster_of_root : ℕ
  pub volume_serial_number : ℕ
  pub bytes_per_sector_shift : ℕ
  pub sectors_per_cluster_shift : ℕ

abbrev pub upcase_table_size : ℕ
upcase_table_size = 131072

abbrev pub upcase_clusters : ℕ → ℕ
upcase_clusters cluster_size = u32 ((upcase_table_size + cluster_size - 1) / cluster_size)

unfoldable pub boot_sector_of : ℕ → ℕ → ℕ → ExfatBootSector
boot_sector_of volume_length cluster_size volume_serial =
    let sectors_per_cluster = cluster_size / 512 in
    let rough_count = sub_u32 (sub_u32 (u32 volume_length) 24) 32 / sectors_per_cluster in
    let fat_entries = u32 (rough_count + 2) in
    let fat_length = max (sub_u32 (u32 (u32 (fat_entries * 4) + 512)) 1 / 512) 1 in
    let heap_offset = u32 (24 + fat_length) in
    record {
      volume_length = volume_length;
      fat_offset = 24;
      fat_length = fat_length;
      cluster_heap_offset = heap_offset;
      cluster_count = sub_u32 (u32 volume_length) heap_offset / sectors_per_cluster;
      first_cluster_of_root = u32 (3 + upcase_clusters cluster_size);
      volume_serial_number = volume_serial;
      bytes_per_sector_shift = 9;
      sectors_per_cluster_shift = sectors_per_cluster_shift cluster_size;
    }

abbrev pub u64_to_le_bytes : ℕ → List ℕ
u64_to_le_bytes v = u32_to_le_bytes (v % 2 ^ 32) ++ u32_to_le_bytes (v / 2 ^ 32)

-- "EXFAT   "
abbrev pub fs_name : List ℕ
fs_name = 0x45 ∷ 0x58 ∷ 0x46 ∷ 0x41 ∷ 0x54 ∷ 0x20 ∷ 0x20 ∷ 0x20 ∷ []

unfoldable pub to_bytes : ExfatBootSector → List ℕ
to_bytes b =
    (0xEB ∷ 0x76 ∷ 0x90 ∷ [])
    ++ fs_name
    ++ replicate 53 0
    ++ u64_to_le_bytes 0
    ++ u64_to_le_bytes b.volume_length
    ++ u32_to_le_bytes b.fat_offset
    ++ u32_to_le_bytes b.fat_length
    ++ u32_to_le_bytes b.cluster_heap_offset
    ++ u32_to_le_bytes b.cluster_count
    ++ u32_to_le_bytes b.first_cluster_of_root
    ++ u32_to_le_bytes b.volume_serial_number
    ++ u16_to_le_bytes 0x0100
    ++ u16_to_le_bytes 0
    ++ (b.bytes_per_sector_shift ∷ b.sectors_per_cluster_shift ∷ 1 ∷ 0x80 ∷ 0xFF ∷ [])
    ++ replicate 7 0
    ++ replicate 390 0
    ++ u16_to_le_bytes 0xAA55

-- The step of each checksum: a rotation to the right, whose bit goes to the top, and the byte.
abbrev pub add_byte : ℕ → ℕ → ℕ
add_byte checksum b =
    u32 ((if checksum % 2 == 1 then bit_or 0x80000000 (checksum / 2) else checksum / 2) + b)

unfoldable pub calculate_upcase_checksum : ℕ → List ℕ → ℕ
calculate_upcase_checksum checksum [] = checksum
calculate_upcase_checksum checksum (b ∷ bytes) =
    calculate_upcase_checksum (add_byte checksum b) bytes

-- The bytes of the eleven sectors from the index on, one sector after the other.
unfoldable pub calculate_boot_checksum : ℕ → ℕ → List ℕ → ℕ
calculate_boot_checksum index checksum [] = checksum
calculate_boot_checksum index checksum (b ∷ bytes) =
    calculate_boot_checksum (index + 1)
      (if index == 106 || index == 107 || index == 112 then checksum else add_byte checksum b) bytes

unfoldable pub label_bytes : List ℕ → List ℕ
label_bytes [] = []
label_bytes (u ∷ us) = u16_to_le_bytes u ++ label_bytes us

-- The label is its first eleven UTF-16 units.
unfoldable pub create_volume_label_entry : List ℕ → List ℕ
create_volume_label_entry label =
    let units = take 11 label in
    (0x83 ∷ length units ∷ []) ++ label_bytes units ++ replicate (30 - 2 * length units) 0

unfoldable pub create_bitmap_entry : ℕ → ℕ → List ℕ
create_bitmap_entry start_cluster size =
    (0x81 ∷ 0 ∷ []) ++ replicate 18 0 ++ u32_to_le_bytes start_cluster ++ u64_to_le_bytes size

unfoldable pub create_upcase_entry : ℕ → ℕ → ℕ → List ℕ
create_upcase_entry start_cluster size checksum =
    (0x82 ∷ replicate 3 0)
    ++ u32_to_le_bytes checksum
    ++ replicate 12 0
    ++ u32_to_le_bytes start_cluster
    ++ u64_to_le_bytes size

-- The entries of the clusters of the upcase table: `n` of them, from the cluster on.
unfoldable pub upcase_entries : ℕ → ℕ → List ℕ
upcase_entries zero cluster_num = []
upcase_entries (suc zero) cluster_num = fat_entry_end_of_chain ∷ []
upcase_entries (suc (suc n)) cluster_num =
    (cluster_num + 1) ∷ upcase_entries (suc n) (cluster_num + 1)

unfoldable pub fat_entries : ℕ → List ℕ
fat_entries upcase =
    (0xFFFFFFF8 ∷ 0xFFFFFFFF ∷ fat_entry_end_of_chain ∷ [])
    ++ upcase_entries upcase 3
    ++ (fat_entry_end_of_chain ∷ [])

unfoldable pub entry_bytes : List ℕ → List ℕ
entry_bytes [] = []
entry_bytes (e ∷ es) = u32_to_le_bytes e ++ entry_bytes es

-- `bitmap[cluster / 8] |= 1 << (cluster % 8)`, within the bitmap.
unfoldable pub mark_used : List ℕ → ℕ → List ℕ
mark_used bitmap cluster =
    if ltb (cluster / 8) (length bitmap)
    then set bitmap (cluster / 8) (with_bit true (get_or bitmap (cluster / 8) 0) (cluster % 8))
    else bitmap

-- The loop over the clusters of the upcase table: `n` of them, from the cluster on.
unfoldable pub mark_run : ℕ → ℕ → List ℕ → List ℕ
mark_run zero cluster bitmap = bitmap
mark_run (suc n) cluster bitmap = mark_run n (cluster + 1) (mark_used bitmap cluster)

unfoldable pub format_bitmap : ℕ → ℕ → List ℕ
format_bitmap cluster_size upcase =
    mark_used (mark_run upcase 3 (mark_used (replicate cluster_size 0) 2)) (u32 (3 + upcase))

-- Eleven sectors, the first of which is the boot sector, and the sector of their checksum.
unfoldable pub boot_region : ExfatBootSector → List ℕ
boot_region b =
    let sectors = to_bytes b ++ replicate (10 * 512) 0 in
    sectors ++ entry_bytes (replicate 128 (calculate_boot_checksum 0 0 sectors))

unfoldable pub root_directory : ℕ → ExfatBootSector → List ℕ → List ℕ → List ℕ
root_directory cluster_size b label upcase_data =
    create_volume_label_entry label
    ++ create_bitmap_entry 2 (u32 (b.cluster_count + 7) / 8)
    ++ create_upcase_entry 3 (length upcase_data) (calculate_upcase_checksum 0 upcase_data)
    ++ replicate (cluster_size - 96) 0

-- The writes of `format_exfat`, in their order: the boot region twice, the FAT, the bitmap, the upcase
-- table and the root directory.
unfoldable pub write_volume : Image → ℕ → ℕ → ExfatBootSector → List ℕ → List ℕ → Image
write_volume image partition_offset cluster_size boot label upcase_data =
    let upcase = upcase_clusters cluster_size in
    let entries = fat_entries upcase in
    let heap = partition_offset + boot.cluster_heap_offset * 512 in
    let image₁ = write_at image partition_offset (boot_region boot ++ boot_region boot) in
    let image₂ =
      write_at image₁ (partition_offset + boot.fat_offset * 512)
        (entry_bytes entries ++ replicate (boot.fat_length * 512 - length entries * 4) 0) in
    let image₃ = write_at image₂ heap (format_bitmap cluster_size upcase) in
    let image₄ =
      write_at image₃ (heap + cluster_size)
        (upcase_data ++ replicate (upcase * cluster_size - length upcase_data) 0) in
    write_at image₄ (heap + (1 + upcase) * cluster_size)
      (root_directory cluster_size boot label upcase_data)

-- `none`: the length of the padding behind the FAT or the upcase table is negative, and the `vec!` of
-- that length panics. The time and the table that `unicode::generate_upcase_table` makes are arguments.
unfoldable pub format_exfat : ℕ → List ℕ → List ℕ → Image → ℕ → ℕ → Option Image
format_exfat serial label upcase_data image partition_offset partition_size =
    let volume_sectors = partition_size / 512 in
    let cluster_size = get_cluster_size volume_sectors in
    let boot = boot_sector_of volume_sectors cluster_size serial in
    let upcase = upcase_clusters cluster_size in
    if ltb (boot.fat_length * 512) (length (fat_entries upcase) * 4)
      || ltb (upcase * cluster_size) (length upcase_data)
    then none
    else some (write_volume image partition_offset cluster_size boot label upcase_data)

unfoldable pub eq_bytes : List ℕ → List ℕ → Bool
eq_bytes [] [] = true
eq_bytes (x ∷ xs) [] = false
eq_bytes [] (y ∷ ys) = false
eq_bytes (x ∷ xs) (y ∷ ys) = x == y && eq_bytes xs ys

-- The part of `open` that reads the boot sector; `none` is the error of a wrong signature.
unfoldable pub open_volume : Image → ℕ → Option Geometry
open_volume image partition_offset =
    let boot_sector = read_at image partition_offset 512 in
    let bytes_per_sector = 2 ^ (get_or boot_sector 108 0 % 32) in
    if eq_bytes (take 8 (drop 3 boot_sector)) fs_name
    then some (record {
      partition_offset = partition_offset;
      bytes_per_sector = bytes_per_sector;
      cluster_size = u32 (bytes_per_sector * 2 ^ (get_or boot_sector 109 0 % 32));
      fat_offset = from_le (drop 80 boot_sector);
      cluster_heap_offset = from_le (drop 88 boot_sector);
      cluster_count = from_le (drop 92 boot_sector);
      first_cluster_of_root = from_le (drop 96 boot_sector);
    })
    else none
