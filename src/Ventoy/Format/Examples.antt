-- ===== src/Ventoy/Format/Examples.antt =====
-- A fresh volume of 32 MB, and the theorems on such volumes.
use one_kvm_stream_box.Base.{◌+◌, ◌/◌, ◌%◌, ◌≤◌, ◌≡◌, false, some, [], ◌∷◌, arith}
use one_kvm_stream_box.Ventoy.Exfat.{is_cluster_allocated}
use one_kvm_stream_box.Ventoy.Exfat.Disk.{IsGeometry, disk_fat, disk_cluster}
use one_kvm_stream_box.Ventoy.Format.{
  PartitionLayout, calculate, data_size, get_cluster_size, boot_sector_of, upcase_clusters,
  format_bitmap, format_exfat, open_volume,
}
use one_kvm_stream_box.Ventoy.Image.{Image}
use one_kvm_stream_box.Ventoy.Format.Layout.{IsLaidOut, calculate-IsLaidOut}
use one_kvm_stream_box.Ventoy.Format.Bitmap.{is_cluster_allocated-format_bitmap}
use one_kvm_stream_box.Ventoy.Format.Chains.{HasChains}
use one_kvm_stream_box.Ventoy.Format.Fresh.{geometry_of, format_exfat-open_volume}

is_cluster_allocated-format_bitmap_example : is_cluster_allocated (format_bitmap 4096 32) 2 ≡ false
is_cluster_allocated-format_bitmap_example =
    is_cluster_allocated-format_bitmap 4096 32 2 (omega arith) (omega arith) (omega arith)
      (omega arith)

calculate-IsLaidOut_example :
    (layout : PartitionLayout) × (calculate 67108864 ≡ some layout)
    × (layout.data_start_sector + layout.data_size_sectors ≡ layout.efi_start_sector)
    × (layout.efi_start_sector + layout.efi_size_sectors ≤ layout.total_sectors)
    × (layout.efi_start_sector % 8 ≡ 0)
    × (let v = data_size layout / 512 in
        IsLaidOut v (get_cluster_size v) (boot_sector_of v (get_cluster_size v) 7))
calculate-IsLaidOut_example = calculate-IsLaidOut 67108864 7 (omega arith) (omega arith)

format_exfat-open_volume_example :
    let upcase = upcase_clusters (get_cluster_size 65536) in
    let g = geometry_of 1048576 65536 in
    (fresh : Image) × (format_exfat 7 (86 ∷ []) (0 ∷ 0 ∷ []) (λ a. 0) 1048576 33554432 ≡ some fresh)
    × (open_volume fresh 1048576 ≡ some g)
    × IsGeometry g
    × (g.first_cluster_of_root ≡ 3 + upcase)
    × HasChains (disk_fat g fresh) upcase
    × (disk_cluster g fresh 2 ≡ format_bitmap (get_cluster_size 65536) upcase)
format_exfat-open_volume_example =
    format_exfat-open_volume 7 (86 ∷ []) (0 ∷ 0 ∷ []) (λ a. 0) 1048576 33554432 (omega arith)
      (omega arith) (omega arith)
