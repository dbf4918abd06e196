-- ===== src/Ventoy/Exfat.antt =====
-- libs/ventoy-img-rs/src/exfat/ops.rs: the FAT with its cache, the allocation bitmap, and chains of
-- clusters. What `open` reads from the boot sector and nothing changes later is the `Geometry`, an
-- argument; the rest of `ExfatFs` is the state. Offsets are `u64` and stay below the file's length, so
-- that their sums do not wrap.
pub mod Bits
pub mod Disk
pub mod Cache
pub mod Chain
pub mod Allocation
pub mod Examples
use one_kvm_stream_box.Base.{
  ℕ, zero, suc, ◌+◌, ◌-◌, ◌*◌, ◌/◌, ◌%◌, ◌^◌, min, bit_and, bit_or, Bool, true, false, ◌&&◌, Option,
  none, some, List, [], ◌∷◌, ltb, leb, ◌==◌, ◌!=◌, if◌then◌else◌, length, get_elem?, get_or, drop,
  replicate, set, u32, u32_to_le_bytes,
}
use one_kvm_stream_box.Ventoy.Image.{Image, read_at, write_at}

abbrev pub fat_entry_free : ℕ
fat_entry_free = 0

abbrev pub fat_entry_end_of_chain : ℕ
fat_entry_end_of_chain = 0xFFFFFFFF

abbrev pub fat_cache_entries : ℕ
fat_cache_entries = 8192

abbrev pub sub_u32 : ℕ → ℕ → ℕ
sub_u32 a b = u32 (a + 2 ^ 32 - b)

pub record Geometry : Type 0 where
  pub partition_offset : ℕ
  pub bytes_per_sector : ℕ
  pub cluster_size : ℕ
  pub fat_offset : ℕ
  pub cluster_heap_offset : ℕ
  pub cluster_count : ℕ
  pub first_cluster_of_root : ℕ

pub record FatCache : Type 0 where
  pub start_cluster : ℕ
  pub entries : List ℕ

pub record ExfatFs : Type 0 where
  pub image : Image
  pub fat_cache : FatCache
  pub bitmap_cache : Option (List ℕ)

pub data ExfatError : Type 0 where
  data_exceeds_cluster fat_entry_not_cached chain_too_long : ExfatError
  not_enough_space zero_clusters empty_chain : ExfatError

pub data FsResult {ℓ} (A : Type ℓ) : Type ℓ where
  ok : A → FsResult A
  err : ExfatError → FsResult A

-- A method: the state that it leaves, and its result. What was done before an error stays done.
abbrev pub Call : Type 0 → Type 0
Call A = ExfatFs → ExfatFs × FsResult A

abbrev pub pure : {A : Type 0} → A → Call A
pure a s = (s, ok a)

abbrev pub fail : {A : Type 0} → ExfatError → Call A
fail e s = (s, err e)

module _ {A B : Type 0} where
  abbrev pub and_then : ExfatFs × FsResult A → (A → Call B) → ExfatFs × FsResult B
  and_then (s, ok a) k = k a s
  and_then (s, err e) k = (s, err e)

  infixl 5 ◌>>=◌ ◌>>◌
  abbrev pub ◌>>=◌ : Call A → (A → Call B) → Call B
  m >>= k = λ s. and_then (m s) k

  abbrev pub ◌>>◌ : Call A → Call B → Call B
  m >> n = m >>= λ _. n

-- FatCache

unfoldable pub contains : FatCache → ℕ → Bool
contains cache cluster =
    if length cache.entries == 0
    then false
    else leb cache.start_cluster cluster
      && ltb cluster (u32 (cache.start_cluster + length cache.entries))

unfoldable pub get : FatCache → ℕ → Option ℕ
get cache cluster =
    if contains cache cluster then get_elem? cache.entries (cluster - cache.start_cluster) else none

unfoldable pub update : FatCache → ℕ → ℕ → FatCache
update cache cluster value =
    if contains cache cluster
    then record cache { entries = set cache.entries (cluster - cache.start_cluster) value }
    else cache

-- `u32::from_le_bytes` of each chunk of four bytes.
unfoldable pub parse_entries : ℕ → List ℕ → List ℕ
parse_entries zero bytes = []
parse_entries (suc n) bytes =
    (get_or bytes 0 0
      + 256 * get_or bytes 1 0
      + 65536 * get_or bytes 2 0
      + 16777216 * get_or bytes 3 0)
    ∷ parse_entries n (drop 4 bytes)

abbrev pub or_not_cached : Option ℕ → FsResult ℕ
or_not_cached none = err fat_entry_not_cached
or_not_cached (some v) = ok v

-- The test of the chain's loop: neither free nor bad nor the end.
abbrev pub in_chain : ℕ → Bool
in_chain cluster = leb 2 cluster && ltb cluster 0xFFFFFFF8

module _ (g : Geometry) where
  unfoldable pub cluster_to_offset : ℕ → ℕ
  cluster_to_offset cluster =
      g.partition_offset
      + g.cluster_heap_offset * g.bytes_per_sector
      + sub_u32 cluster 2 * g.cluster_size

  unfoldable pub fat_entry_offset : ℕ → ℕ
  fat_entry_offset cluster = g.partition_offset + g.fat_offset * g.bytes_per_sector + cluster * 4

  unfoldable pub read_cluster : ℕ → ExfatFs → List ℕ
  read_cluster cluster s = read_at s.image (cluster_to_offset cluster) g.cluster_size

  -- The data, and behind it the padding.
  unfoldable pub cluster_image : Image → ℕ → List ℕ → Image
  cluster_image image cluster bytes =
      let offset = cluster_to_offset cluster in
      write_at (write_at image offset bytes) (offset + length bytes)
        (replicate (g.cluster_size - length bytes) 0)

  unfoldable pub write_cluster : ℕ → List ℕ → Call (Unit {0})
  write_cluster cluster bytes s =
      if ltb g.cluster_size (length bytes)
      then (s, err data_exceeds_cluster)
      else (record s { image = cluster_image s.image cluster bytes }, ok tt)

  unfoldable pub load_fat_segment : ℕ → ExfatFs → ExfatFs
  load_fat_segment start s =
      let entries_to_read = min fat_cache_entries (sub_u32 (u32 (g.cluster_count + 2)) start) in
      if entries_to_read == 0 then s else record s {
        fat_cache = record {
          start_cluster = start;
          entries =
              parse_entries entries_to_read
                (read_at s.image (fat_entry_offset start) (entries_to_read * 4));
        };
      }

  -- By what the cache has; on a miss, the segment from the cluster on is loaded, and read.
  unfoldable pub entry_or_load : Option ℕ → ℕ → Call ℕ
  entry_or_load (some entry) cluster s = (s, ok entry)
  entry_or_load none cluster s =
      let s' = load_fat_segment cluster s in (s', or_not_cached (get s'.fat_cache cluster))

  unfoldable pub read_fat_entry : ℕ → Call ℕ
  read_fat_entry cluster s = entry_or_load (get s.fat_cache cluster) cluster s

  unfoldable pub write_fat_entry : ℕ → ℕ → ExfatFs → ExfatFs
  write_fat_entry cluster value s = record s {
    image = write_at s.image (fat_entry_offset cluster) (u32_to_le_bytes value);
    fat_cache = update s.fat_cache cluster value;
  }

  -- The loop of `read_cluster_chain`. The number says how many clusters the chain may still take
  -- before it is longer than the volume has clusters: the source's own limit ends the recursion.
  unfoldable pub chain_from : ℕ → ℕ → Call (List ℕ)
  chain_from zero current =
      if in_chain current then (do next ← read_fat_entry current; fail chain_too_long) else pure []
  chain_from (suc n) current =
      if in_chain current
      then (do next ← read_fat_entry current; rest ← chain_from n next; pure (current ∷ rest))
      else pure []

  unfoldable pub read_cluster_chain : ℕ → Call (List ℕ)
  read_cluster_chain first = chain_from g.cluster_count first

  unfoldable pub bitmap_or_load : Option (List ℕ) → Call (List ℕ)
  bitmap_or_load (some bitmap) s = (s, ok bitmap)
  bitmap_or_load none s =
      (record s { bitmap_cache = some (read_cluster 2 s) }, ok (read_cluster 2 s))

  -- `read_bitmap` and `get_bitmap_mut`: the cached bitmap, which is loaded on the first use.
  unfoldable pub read_bitmap : Call (List ℕ)
  read_bitmap s = bitmap_or_load s.bitmap_cache s

  flush : Option (List ℕ) → Call (Unit {0})
  flush none s = (s, ok tt)
  flush (some bitmap) s = write_cluster 2 bitmap s

  unfoldable pub flush_bitmap_now : Call (Unit {0})
  unfolding flush
  flush_bitmap_now s = flush s.bitmap_cache s

-- The bit of a cluster: its byte in the bitmap, and its place there.
unfoldable pub is_cluster_allocated : List ℕ → ℕ → Bool
is_cluster_allocated bitmap cluster =
    let index = sub_u32 cluster 2 in
    if leb (length bitmap) (index / 8)
    then false
    else bit_and (get_or bitmap (index / 8) 0) (2 ^ (index % 8)) != 0

unfoldable pub set_cluster_allocated : Bool → List ℕ → ℕ → List ℕ
set_cluster_allocated allocated bitmap cluster =
    let index = sub_u32 cluster 2 in
    let b = get_or bitmap (index / 8) 0 in
    if ltb (index / 8) (length bitmap)
    then set bitmap (index / 8)
        (if allocated then bit_or b (2 ^ (index % 8)) else bit_and b (255 - 2 ^ (index % 8)))
    else bitmap

unfoldable pub mark_all : Bool → List ℕ → List ℕ → List ℕ
mark_all allocated bitmap [] = bitmap
mark_all allocated bitmap (c ∷ cs) =
    mark_all allocated (set_cluster_allocated allocated bitmap c) cs

-- The loop of `find_free_clusters`, over as many clusters as the number says, from `cluster` on. The
-- loop is left when `count` clusters are found, after a push.
unfoldable pub free_from : List ℕ → ℕ → ℕ → ℕ → List ℕ
free_from bitmap zero cluster count = []
free_from bitmap (suc n) cluster count =
    let skip = free_from bitmap n (cluster + 1) count in
    let more = free_from bitmap n (cluster + 1) (count - 1) in
    if is_cluster_allocated bitmap cluster
    then skip
    else if leb count 1
    then cluster ∷ []
    else cluster ∷ more

module _ (g : Geometry) where
  unfoldable pub find_free_clusters : ℕ → Call (List ℕ)
  find_free_clusters count = do
    bitmap ← read_bitmap g
    let start = u32 (g.first_cluster_of_root + 1)
    let found = free_from bitmap (u32 (g.cluster_count + 2) - start) start count
    if ltb (length found) count then fail not_enough_space else pure found

  -- The loop that makes a chain of clusters.
  unfoldable pub link_clusters : List ℕ → ExfatFs → ExfatFs
  link_clusters [] s = s
  link_clusters (c ∷ []) s = write_fat_entry g c fat_entry_end_of_chain s
  link_clusters (c ∷ d ∷ cs) s = link_clusters (d ∷ cs) (write_fat_entry g c d s)

  unfoldable pub clear_entries : List ℕ → ExfatFs → ExfatFs
  clear_entries [] s = s
  clear_entries (c ∷ cs) s = clear_entries cs (write_fat_entry g c fat_entry_free s)

  -- The bitmap with the clusters marked, in the cache and then on the disk.
  unfoldable pub mark_clusters : Bool → List ℕ → Call (Unit {0})
  mark_clusters allocated clusters = do
    bitmap ← read_bitmap g
    λ s. flush_bitmap_now g (record s { bitmap_cache = some (mark_all allocated bitmap clusters) })

  unfoldable pub allocate_clusters : ℕ → Call ℕ
  allocate_clusters count = if count == 0 then fail zero_clusters else (do
    clusters ← find_free_clusters count
    done ← mark_clusters true clusters
    λ s. (link_clusters clusters s, ok (get_or clusters 0 0)))

  unfoldable pub free_cluster_chain : ℕ → Call (Unit {0})
  free_cluster_chain first = do
    chain ← read_cluster_chain g first
    done ← mark_clusters false chain
    λ s. (clear_entries chain s, ok tt)

  abbrev pub last_of : ℕ → List ℕ → ℕ
  last_of c [] = c
  last_of c (d ∷ ds) = last_of d ds

  extend_from : List ℕ → Call ℕ
  extend_from [] = fail empty_chain
  extend_from (c ∷ cs) = do
    new_cluster ← allocate_clusters 1
    done ← λ s.
        write_cluster g new_cluster (replicate g.cluster_size 0)
          (write_fat_entry g (last_of c cs) new_cluster s)
    pure new_cluster

  unfoldable pub extend_cluster_chain : ℕ → Call ℕ
  unfolding extend_from
  extend_cluster_chain first = read_cluster_chain g first >>= extend_from
