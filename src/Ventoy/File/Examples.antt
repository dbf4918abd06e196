-- ===== src/Ventoy/File/Examples.antt =====
-- Eleven bytes written to a small volume in two pieces.
use one_kvm_stream_box.Base.{ℕ, ◌+◌, ◌-◌, ◌/◌, ◌≡◌, refl, List, [], ◌∷◌, arith, get_or}
use one_kvm_stream_box.Ventoy.Exfat.{ok}
use one_kvm_stream_box.Ventoy.Exfat.Examples.{
  tiny, tiny-IsGeometry, disk, fs_on-IsCoherent, disk-free_count,
}
use one_kvm_stream_box.Ventoy.Exfat.Allocation.Allocate.{found}
use one_kvm_stream_box.Ventoy.File.{
  finish_data, clusters_for, new_writer, do_stream_write, read_file_from_location,
}
use one_kvm_stream_box.Ventoy.File.Stream.{joined}
use one_kvm_stream_box.Ventoy.File.RoundTrip.{read_file-do_stream_write}

abbrev pieces : List (List ℕ)
pieces = (1 ∷ 2 ∷ 3 ∷ 4 ∷ 5 ∷ 6 ∷ []) ∷ (7 ∷ 8 ∷ 9 ∷ 10 ∷ 11 ∷ []) ∷ []

read_file-do_stream_write_example :
    let clusters = found tiny tiny-IsGeometry disk ((11 + 8 - 1) / 8) in
    let opened = clusters_for tiny 11 disk in
    let written = do_stream_write tiny pieces (new_writer tiny 11 clusters opened.0) in
    let finished = finish_data tiny written.0 in
    (opened.1 ≡ ok clusters)
    × (written.1 ≡ ok tt)
    × (finished.1 ≡ ok tt)
    × ((read_file_from_location tiny (get_or clusters 0 0) 11 finished.0).1 ≡ ok (joined pieces))
read_file-do_stream_write_example =
    read_file-do_stream_write tiny tiny-IsGeometry disk 11 pieces (fs_on-IsCoherent tiny disk.image)
      (omega arith) (omega arith) (omega (arith, disk-free_count)) refl
