-- ===== src/Ventoy/File/RoundTrip.antt =====
-- A file that is written, and read again.
use one_kvm_stream_box.Base.{
  ℕ, zero, suc, ◌+◌, ◌-◌, ◌*◌, ◌/◌, ◌≤◌, ◌<◌, ◌≡◌, refl, sym, ap, ◌∙◌, true, false, List, [], arith,
  ltb, ◌==◌, length, get_or, All, All-map,
}
use mathlib.Core.Path.{subst}
use one_kvm_stream_box.Ventoy.Image.{Image}
use one_kvm_stream_box.Ventoy.Exfat.{
  Geometry, ExfatFs, FsResult, ok, err, Call, and_then, allocate_clusters, read_cluster_chain,
}
use one_kvm_stream_box.Ventoy.Exfat.Disk.{IsGeometry, IsCluster, disk_fat, disk_cluster}
use one_kvm_stream_box.Ventoy.Exfat.Cache.{IsCoherent}
use one_kvm_stream_box.Ventoy.Exfat.Chain.{Leads, Reads-elim, read_cluster_chain-Reads}
use one_kvm_stream_box.Ventoy.Exfat.Allocation.Search.{IsFree}
use one_kvm_stream_box.Ventoy.Exfat.Allocation.Allocate.{
  found, free_count, allocate_clusters-IsAllocated, found-IsCluster, length-found,
}
use one_kvm_stream_box.Ventoy.Exfat.Allocation.Free.{free_count-le}
use one_kvm_stream_box.Ventoy.File.{
  finish_data, clusters_for, new_writer, do_stream_write, read_data, read_file_from_location,
}
use one_kvm_stream_box.Ventoy.File.Stored.{Holds, read_data-Holds}
use one_kvm_stream_box.Ventoy.File.Kept.{Keeps}
use one_kvm_stream_box.Ventoy.File.Writing.{IsWritable, Writing, with_space, finish_data-Holds}
use one_kvm_stream_box.Ventoy.File.Stream.{joined, do_stream_write-Writing}

enough_clusters : (total size : ℕ) → 1 ≤ size → total ≤ (total + size - 1) / size * size
enough_clusters total size h = omega arith

positive : (q size total : ℕ) → total ≤ q * size → 1 ≤ total → 1 ≤ q
positive zero size total h h' = absurd (omega arith)
positive (suc q) size total h h' = omega arith

and_then-ok :
    {A B : Type 0} (r : ExfatFs × FsResult A) (a : A) (k : A → Call B)
    → r.1 ≡ ok a
    → and_then r k ≡ k a r.0
and_then-ok {A} {B} (s, ok x) a k is = let e : x ≡ a = cc in ap (λ (y : A). k y s) e
and_then-ok (s, err e) a k is = cc

module _ (g : Geometry) (valid : IsGeometry g) where
  module _ (s : ExfatFs) (total : ℕ) (coherent : IsCoherent g s) (size : 1 ≤ g.cluster_size)
      (some_byte : 1 ≤ total)
      (enough : (total + g.cluster_size - 1) / g.cluster_size ≤ free_count g valid s) where
    abbrev count : ℕ
    count = (total + g.cluster_size - 1) / g.cluster_size

    abbrev taken : List ℕ
    taken = found g valid s count

    one_needed : 1 ≤ count
    one_needed =
        positive count g.cluster_size total (enough_clusters total g.cluster_size size) some_byte

    taken-IsWritable : IsWritable g taken total
    taken-IsWritable =
        let (first, done, many, free, up) =
          allocate_clusters-IsAllocated g valid s count coherent one_needed enough in
        let product = ap (λ (n : ℕ). n * g.cluster_size) many in
        record {
          some_byte = size;
          within = found-IsCluster g valid s count;
          behind =
              All-map
                (IsFree (disk_cluster g s.image 2) (g.first_cluster_of_root + 1)
                  (g.cluster_count + 2))
                (λ c f. omega (arith, f.1, valid.root_after_bitmap)) taken free;
          ascending = up;
          room = omega (arith, enough_clusters total g.cluster_size size, product);
        }

    within : All (λ c. c < g.cluster_count + 2) taken
    within = All-map (IsCluster g) (λ c k. k.1) taken (found-IsCluster g valid s count)

    few : length taken ≤ g.cluster_count
    few =
        omega
          (arith, length-found g valid s count one_needed enough, free_count-le g valid s, enough)

    clusters_for-Keeps :
        ((clusters_for g total s).1 ≡ ok taken)
        × Keeps g valid (get_or taken 0 0) taken (clusters_for g total s).0
    unfolding clusters_for
    clusters_for-Keeps =
        let some_total : (total == 0) ≡ false = ground (arith, some_byte) in
        let some_count : ltb 0 count ≡ true = ground (arith, one_needed) in
        let (first, done, many, free, up) =
          allocate_clusters-IsAllocated g valid s count coherent one_needed enough in
        let t = (allocate_clusters g count s).0 in
        let (chain, same, coherent') =
          read_cluster_chain-Reads g valid taken t (get_or taken 0 0) done.coherent done.chain
            within few in
        rw
          (
            some_total,
            some_count,
            and_then-ok (allocate_clusters g count s) (get_or taken 0 0) (read_cluster_chain g)
                first,
          )
          (
            chain,
            record {
              coherent = coherent';
              chain =
                  subst (λ (i : Image). Leads (disk_fat g i) (get_or taken 0 0) taken) (sym same)
                    done.chain;
            },
          )

    new_writer-Writing :
        Writing g valid
          (get_or taken 0 0)
          total
          taken
          taken-IsWritable
          g.cluster_size
          []
          (new_writer g total taken (clusters_for g total s).0)
    unfolding new_writer
    new_writer-Writing = record {
      done = [];
      todo = taken;
      stored = [];
      split = refl;
      allocated = refl;
      size = refl;
      index = refl;
      parts = refl;
      written = refl;
      in_size = omega arith;
      full = omega arith;
      holds = refl;
      space = omega (arith, size);
      keeps = clusters_for-Keeps.1;
    }

    read_file-Holds :
        (content : List ℕ) (s' : ExfatFs)
        → length content ≡ total
        → Holds g.cluster_size (disk_cluster g s'.image) taken content
        → Keeps g valid (get_or taken 0 0) taken s'
        → (read_file_from_location g (get_or taken 0 0) total s').1 ≡ ok content
    unfolding read_file_from_location
    read_file-Holds content s' long holds keeps =
        let some_total : (total == 0) ≡ false = ground (arith, some_byte) in
        rw some_total (
          Reads-elim g valid (λ (r : ExfatFs × FsResult (List ℕ)). r.1 ≡ ok content) s'
            (read_cluster_chain g (get_or taken 0 0) s') taken _
            (read_cluster_chain-Reads g valid taken s' (get_or taken 0 0) keeps.coherent keeps.chain
              within few)
            (λ s'' same coherent''.
              ap (λ (n : ℕ). ok (read_data g n taken s'')) (sym long)
              ∙ ap (λ (l : List ℕ). ok l)
                  (read_data-Holds g s'' taken content (
                    subst (λ (i : Image). Holds g.cluster_size (disk_cluster g i) taken content)
                      (sym same) holds))))

  -- A file is written from a reader: on a volume with coherent caches, clusters of one byte at least and
  -- enough free clusters, the writer takes clusters for as many bytes as the reader gives, one at least
  -- and in any pieces. The stream is then taken to its end, the rest of the buffer is written, and what
  -- `read_file_from_location` reads from the first cluster on is the same bytes.
  pub read_file-do_stream_write :
      (s : ExfatFs) (total : ℕ) (buffers : List (List ℕ))
      → IsCoherent g s
      → 1 ≤ g.cluster_size
      → 1 ≤ total
      → (total + g.cluster_size - 1) / g.cluster_size ≤ free_count g valid s
      → length (joined buffers) ≡ total
      → let clusters = found g valid s ((total + g.cluster_size - 1) / g.cluster_size) in
        let opened = clusters_for g total s in
        let written = do_stream_write g buffers (new_writer g total clusters opened.0) in
        let finished = finish_data g written.0 in
        (opened.1 ≡ ok clusters)
        × (written.1 ≡ ok tt)
        × (finished.1 ≡ ok tt)
        × ((read_file_from_location g (get_or clusters 0 0) total finished.0).1
            ≡ ok (joined buffers))
  read_file-do_stream_write s total buffers coherent size some_byte enough all =
      let clusters = taken s total coherent size some_byte enough in
      let writable = taken-IsWritable s total coherent size some_byte enough in
      let first = get_or clusters 0 0 in
      let (opened, keeps) = clusters_for-Keeps s total coherent size some_byte enough in
      let w = new_writer g total clusters (clusters_for g total s).0 in
      let (done, writing) =
        do_stream_write-Writing g valid first total clusters writable buffers [] w
          (omega (arith, all)) (new_writer-Writing s total coherent size some_byte enough) in
      let w' = (do_stream_write g buffers w).0 in
      let h =
        with_space g valid first total clusters writable g.cluster_size (g.cluster_size + 1)
          (joined buffers) w' (omega (arith, writing.space)) writing in
      let (finished, holds, keeps') =
        finish_data-Holds g valid first total clusters writable (joined buffers) w' h in
      (
        opened,
        done,
        finished,
        read_file-Holds s total coherent size some_byte enough (joined buffers) (finish_data g w').0
            all holds keeps',
      )
