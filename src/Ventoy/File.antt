-- ===== src/Ventoy/File.antt =====
-- libs/ventoy-img-rs/src/exfat/ops.rs: the data of a file. `ExfatFileWriter` with its buffer of a
-- cluster, the clusters that it takes, and the reading of a chain.
pub mod Stored
pub mod Kept
pub mod Writing
pub mod Loop
pub mod Stream
pub mod RoundTrip
mod Examples
use one_kvm_stream_box.Base.{
  ℕ, zero, suc, ◌+◌, ◌-◌, ◌/◌, min, ◌&&◌, List, [], ◌∷◌, ◌++◌, ltb, leb, ◌==◌, if◌then◌else◌,
  length, get_or, take, drop,
}
use one_kvm_stream_box.Ventoy.Exfat.{
  Geometry, ExfatFs, FsResult, ok, err, ExfatError, Call, pure, fail, and_then, ◌>>=◌, read_cluster,
  write_cluster, allocate_clusters, read_cluster_chain,
}

-- The name and the directory of the writer are for the directory entry, and are left out.
pub record ExfatFileWriter : Type 0 where
  pub fs : ExfatFs
  pub total_size : ℕ
  pub allocated_clusters : List ℕ
  pub current_cluster_index : ℕ
  pub cluster_buffer : List ℕ
  pub bytes_written : ℕ

-- What a method of the writer leaves, and its result.
abbrev pub Outcome : Type 0 → Type 0
Outcome A = ExfatFileWriter × FsResult A

abbrev pub go_on : {A B : Type 0} → Outcome A → (ExfatFileWriter → Outcome B) → Outcome B
go_on (w, ok a) k = k w
go_on (w, err e) k = (w, err e)

-- After the write of the buffer.
unfoldable pub next_cluster : ExfatFileWriter → ExfatFs × FsResult (Unit {0}) → Outcome (Unit {0})
next_cluster w (fs, err e) = (record w { fs = fs }, err e)
next_cluster w (fs, ok u) = (
  record w { fs = fs; current_cluster_index = w.current_cluster_index + 1; cluster_buffer = [] },
  ok u,
)

module _ (g : Geometry) where
  unfoldable pub write_full : ExfatFileWriter → Outcome (Unit {0})
  write_full w =
      if leb g.cluster_size (length w.cluster_buffer)
        && ltb w.current_cluster_index (length w.allocated_clusters)
      then next_cluster w (
          write_cluster g (get_or w.allocated_clusters w.current_cluster_index 0) w.cluster_buffer
            w.fs)
      else (w, ok tt)

  -- The loop, on the data from `data_offset` on. Each round takes a byte at least, where the buffer has
  -- space: its fuel is the number of bytes, and `write-Writes` shows that it is enough.
  unfoldable pub write_loop : ℕ → ℕ → List ℕ → ExfatFileWriter → Outcome ℕ
  write_loop zero data_offset rest w = (w, ok data_offset)
  write_loop (suc n) data_offset rest w =
      let chunk_size =
        min (min (g.cluster_size - length w.cluster_buffer) (length rest))
          (w.total_size - w.bytes_written) in
      if ltb 0 (length rest) && ltb w.bytes_written w.total_size
      then go_on
          (write_full (record w {
            cluster_buffer = w.cluster_buffer ++ take chunk_size rest;
            bytes_written = w.bytes_written + chunk_size;
          }))
          (write_loop n (data_offset + chunk_size) (drop chunk_size rest))
      else (w, ok data_offset)

  unfoldable pub write : List ℕ → ExfatFileWriter → Outcome ℕ
  write bytes w = write_loop (length bytes) 0 bytes w

  -- The first part of `finish`: the rest of the buffer. The second makes the directory entry.
  unfoldable pub finish_data : ExfatFileWriter → ExfatFs × FsResult (Unit {0})
  finish_data w =
      if ltb 0 (length w.cluster_buffer)
        && ltb w.current_cluster_index (length w.allocated_clusters)
      then write_cluster g (get_or w.allocated_clusters w.current_cluster_index 0) w.cluster_buffer
          w.fs
      else (w.fs, ok tt)

  -- The clusters that a new writer takes.
  unfoldable pub clusters_for : ℕ → Call (List ℕ)
  clusters_for total_size =
      let needed =
        if total_size == 0 then 0 else (total_size + g.cluster_size - 1) / g.cluster_size in
      if ltb 0 needed
      then (do first ← allocate_clusters g needed; read_cluster_chain g first)
      else pure []

  unfoldable pub new_writer : ℕ → List ℕ → ExfatFs → ExfatFileWriter
  new_writer total_size clusters fs = record {
    fs = fs;
    total_size = total_size;
    allocated_clusters = clusters;
    current_cluster_index = 0;
    cluster_buffer = [];
    bytes_written = 0;
  }

  -- The loop of `read_file_from_location` over the chain, with as many bytes left to read.
  unfoldable pub read_data : ℕ → List ℕ → ExfatFs → List ℕ
  read_data remaining [] s = []
  read_data remaining (c ∷ cs) s =
      let chunk_size = min remaining g.cluster_size in
      take chunk_size (read_cluster g c s) ++ read_data (remaining - chunk_size) cs s

  unfoldable pub read_file_from_location : ℕ → ℕ → Call (List ℕ)
  read_file_from_location first_cluster data_length = if data_length == 0 then pure [] else (do
    chain ← read_cluster_chain g first_cluster
    λ s. (s, ok (read_data data_length chain s)))

  -- The reader gives the buffers that its calls of `read` fill, in order; an empty one, as at the end of
  -- its data, ends the loop.
  unfoldable pub do_stream_write : List (List ℕ) → ExfatFileWriter → Outcome (Unit {0})
  do_stream_write [] w = (w, ok tt)
  do_stream_write ([] ∷ buffers) w = (w, ok tt)
  do_stream_write ((b ∷ bytes) ∷ buffers) w = go_on (write (b ∷ bytes) w) (do_stream_write buffers)
