-- ===== src/Ventoy/Exfat/Cache.antt =====
-- The two caches hold what the disk holds, and reading through them is reading the disk.
use one_kvm_stream_box.Base.{
  ℕ, zero, suc, ◌+◌, ◌-◌, ◌*◌, ◌^◌, ◌≤◌, ◌<◌, min, ◌≡◌, refl, sym, ap, ◌∙◌, inl, inr, true, false,
  Option, none, some, List, arith, ◌==◌, if◌then◌else◌, Bool-cases, length, get_elem?, drop, set,
  length-set, get_elem?-set, u32,
}
use mathlib.Core.Path.{subst}
use one_kvm_stream_box.Ventoy.Image.{Image, read_at}
use one_kvm_stream_box.Ventoy.Exfat.{
  sub_u32, Geometry, FatCache, ExfatFs, FsResult, ok, contains, get, update, parse_entries,
  fat_entry_offset, load_fat_segment, entry_or_load, or_not_cached, read_fat_entry, write_fat_entry,
}
use one_kvm_stream_box.Ventoy.Exfat.Disk.{
  IsGeometry, from_le, disk_fat, disk_cluster, fat_image, disk_fat-fat_image,
  disk_cluster-fat_image,
}

abbrev pub IsCached : Option (List ℕ) → List ℕ → Type 0
IsCached none bitmap = Unit
IsCached (some cached) bitmap = cached ≡ bitmap

pub record IsCoherent (g : Geometry) (s : ExfatFs) : Type 0 where
  pub entry_cached :
      (i : ℕ)
      → i < length s.fat_cache.entries
      → get_elem? s.fat_cache.entries i ≡ some (disk_fat g s.image (s.fat_cache.start_cluster + i))
  pub segment_within : s.fat_cache.start_cluster + length s.fat_cache.entries ≤ g.cluster_count + 2
  pub bitmap_cached : IsCached s.bitmap_cache (disk_cluster g s.image 2)

-- What a chunk of the FAT reads as.
length-parse_entries : (n : ℕ) (bytes : List ℕ) → length (parse_entries n bytes) ≡ n
unfolding parse_entries
length-parse_entries zero bytes = refl
length-parse_entries (suc n) bytes = ap suc (length-parse_entries n (drop 4 bytes))

parse-read_at :
    (n : ℕ) (image : Image) (offset i : ℕ)
    → i < n
    → get_elem? (parse_entries n (read_at image offset (n * 4))) i
      ≡ some (from_le (read_at image (offset + i * 4) 4))
unfolding parse_entries read_at
parse-read_at zero image offset i h = absurd (omega arith)
parse-read_at (suc n) image offset zero h =
    let four : suc n * 4 ≡ suc (suc (suc (suc (n * 4)))) = omega arith in
    let e : offset + 0 * 4 ≡ offset = omega arith in rw (four, e) refl
parse-read_at (suc n) image offset (suc i) h =
    let four : suc n * 4 ≡ suc (suc (suc (suc (n * 4)))) = omega arith in
    let e : offset + 1 + 1 + 1 + 1 + i * 4 ≡ offset + suc i * 4 = omega arith in
    rw four (
      parse-read_at n image (offset + 1 + 1 + 1 + 1) i (omega arith)
      ∙ ap (λ (k : ℕ). some (from_le (read_at image k 4))) e)

contains_range :
    (cache : FatCache) (c : ℕ)
    → cache.start_cluster + length cache.entries < 2 ^ 32
    → contains cache c ≡ true
    → (cache.start_cluster ≤ c) × (c < cache.start_cluster + length cache.entries)
unfolding contains
contains_range cache c small hit = ground arith

contains_of_range :
    (cache : FatCache) (c : ℕ)
    → cache.start_cluster + length cache.entries < 2 ^ 32
    → cache.start_cluster ≤ c
    → c < cache.start_cluster + length cache.entries
    → contains cache c ≡ true
unfolding contains
contains_of_range cache c small lo hi = ground arith

module _ (g : Geometry) (valid : IsGeometry g) where
  within_u32 :
      (s : ExfatFs)
      → IsCoherent g s
      → s.fat_cache.start_cluster + length s.fat_cache.entries < 2 ^ 32
  within_u32 s h = omega (arith, h.segment_within, valid.few_clusters)

  -- A hit is the entry on the disk.
  get-hit :
      (s : ExfatFs) (c : ℕ)
      → IsCoherent g s
      → contains s.fat_cache c ≡ true
      → get s.fat_cache c ≡ some (disk_fat g s.image c)
  unfolding get
  get-hit s c h hit =
      let (lo, hi) = contains_range s.fat_cache c (within_u32 s h) hit in
      let e : s.fat_cache.start_cluster + (c - s.fat_cache.start_cluster) ≡ c = omega arith in
      rw hit (
        h.entry_cached (c - s.fat_cache.start_cluster) (omega (arith, lo, hi))
        ∙ ap (λ (k : ℕ). some (disk_fat g s.image k)) e)

  get-miss : (s : ExfatFs) (c : ℕ) → contains s.fat_cache c ≡ false → get s.fat_cache c ≡ none
  unfolding get
  get-miss s c miss = rw miss refl

  entries_to_read : ℕ → ℕ
  entries_to_read c = min 8192 (g.cluster_count + 2 - c)

  entries_to_read_bounds :
      (c : ℕ)
      → c < g.cluster_count + 2
      → (1 ≤ entries_to_read c) × (c + entries_to_read c ≤ g.cluster_count + 2)
  unfolding entries_to_read
  entries_to_read_bounds c h = (omega arith, omega arith)

  -- The segment that a miss loads.
  segment : ExfatFs → ℕ → ExfatFs
  segment s c = record s {
    fat_cache = record {
      start_cluster = c;
      entries =
          parse_entries (entries_to_read c)
            (read_at s.image (fat_entry_offset g c) (entries_to_read c * 4));
    };
  }

  load_fat_segment-segment :
      (s : ExfatFs) (c : ℕ) → c < g.cluster_count + 2 → load_fat_segment g c s ≡ segment s c
  unfolding load_fat_segment segment entries_to_read
  load_fat_segment-segment s c h =
      let few = valid.few_clusters in
      let count : sub_u32 (u32 (g.cluster_count + 2)) c ≡ g.cluster_count + 2 - c = omega arith in
      let some_read : (min 8192 (g.cluster_count + 2 - c) == 0) ≡ false = ground arith in
      rw (count, some_read) refl

  entry_at :
      (s : ExfatFs) (c i : ℕ)
      → from_le (read_at s.image (fat_entry_offset g c + i * 4) 4) ≡ disk_fat g s.image (c + i)
  unfolding disk_fat fat_entry_offset
  entry_at s c i =
      let base = g.partition_offset + g.fat_offset * g.bytes_per_sector in
      let e : base + c * 4 + i * 4 ≡ base + (c + i) * 4 = omega arith in
      ap (λ (k : ℕ). from_le (read_at s.image k 4)) e

  segment-IsCoherent :
      (s : ExfatFs) (c : ℕ) → c < g.cluster_count + 2 → IsCoherent g s → IsCoherent g (segment s c)
  unfolding segment
  segment-IsCoherent s c hc h = record {
    entry_cached = λ i hi.
        parse-read_at (entries_to_read c) s.image (fat_entry_offset g c) i (
          omega (
            arith,
            hi,
            length-parse_entries (entries_to_read c)
                (read_at s.image (fat_entry_offset g c) (entries_to_read c * 4)),
          ))
        ∙ ap some (entry_at s c i);
    segment_within = omega (
      arith,
      entries_to_read_bounds c hc,
      length-parse_entries (entries_to_read c)
          (read_at s.image (fat_entry_offset g c) (entries_to_read c * 4)),
    );
    bitmap_cached = h.bitmap_cached;
  }

  -- A call that reads: its answer, and that it leaves the disk as it was and the caches coherent.
  abbrev pub Reads : {A : Type 0} → ExfatFs → ExfatFs × FsResult A → A → Type 0
  Reads s r a = (r.1 ≡ ok a) × (r.0.image ≡ s.image) × IsCoherent g r.0

  segment-get :
      (s : ExfatFs) (c : ℕ)
      → c < g.cluster_count + 2
      → IsCoherent g s
      → get (segment s c).fat_cache c ≡ some (disk_fat g s.image c)
  unfolding segment
  segment-get s c hc h =
      let coherent = segment-IsCoherent s c hc h in
      let bytes = read_at s.image (fat_entry_offset g c) (entries_to_read c * 4) in
      get-hit (segment s c) c coherent (
        contains_of_range (segment s c).fat_cache c (within_u32 (segment s c) coherent)
          (omega arith)
          (omega
            (arith, entries_to_read_bounds c hc, length-parse_entries (entries_to_read c) bytes)))

  read_hit : (s : ExfatFs) (c v : ℕ) → get s.fat_cache c ≡ some v → read_fat_entry g c s ≡ (s, ok v)
  unfolding read_fat_entry entry_or_load
  read_hit s c v e = ap (λ (o : Option ℕ). entry_or_load g o c s) e

  read_miss :
      (s : ExfatFs) (c : ℕ)
      → c < g.cluster_count + 2
      → IsCoherent g s
      → get s.fat_cache c ≡ none
      → read_fat_entry g c s ≡ (segment s c, ok (disk_fat g s.image c))
  unfolding read_fat_entry entry_or_load
  read_miss s c hc h e =
      ap (λ (o : Option ℕ). entry_or_load g o c s) e
      ∙ ap (λ (s' : ExfatFs). (s', or_not_cached (get s'.fat_cache c)))
          (load_fat_segment-segment s c hc)
      ∙ ap (λ (o : Option ℕ). (segment s c, or_not_cached o)) (segment-get s c hc h)

  -- The entry that `read_fat_entry` returns is the entry on the disk, cached or not.
  pub read_fat_entry-Reads :
      (s : ExfatFs) (c : ℕ)
      → c < g.cluster_count + 2
      → IsCoherent g s
      → Reads s (read_fat_entry g c s) (disk_fat g s.image c)
  unfolding segment
  read_fat_entry-Reads s c hc h = elim (Bool-cases (contains s.fat_cache c)) [
    | inl hit ↦
        let e = read_hit s c (disk_fat g s.image c) (get-hit s c h hit) in
        subst (λ (r : ExfatFs × FsResult ℕ). Reads s r (disk_fat g s.image c)) (sym e)
          (refl, refl, h)
    | inr miss ↦
        let e = read_miss s c hc h (get-miss s c miss) in
        subst (λ (r : ExfatFs × FsResult ℕ). Reads s r (disk_fat g s.image c)) (sym e)
          (refl, refl, segment-IsCoherent s c hc h)
  ]

  -- Entry `i` of a segment of the disk after a write.
  disk_after :
      (image : Image) (c v k : ℕ) (o : Option ℕ)
      → v < 2 ^ 32
      → o ≡ (if c == k then some v else some (disk_fat g image k))
      → o ≡ some (disk_fat g (fat_image g image c v) k)
  disk_after image c v k o hv e = e ∙ ground (arith, disk_fat-fat_image g image c k v hv)

  hit-IsCoherent :
      (s : ExfatFs) (c v : ℕ)
      → v < 2 ^ 32
      → contains s.fat_cache c ≡ true
      → IsCoherent g s
      → disk_cluster g (fat_image g s.image c v) 2 ≡ disk_cluster g s.image 2
      → IsCoherent g (record s {
        image = fat_image g s.image c v;
        fat_cache = record {
          start_cluster = s.fat_cache.start_cluster;
          entries = set s.fat_cache.entries (c - s.fat_cache.start_cluster) v;
        };
      })
  hit-IsCoherent s c v hv hit h same =
      let start = s.fat_cache.start_cluster in
      let old = s.fat_cache.entries in
      let (lo, hi) = contains_range s.fat_cache c (within_u32 s h) hit in
      record {
        entry_cached = λ i hi'. disk_after s.image c v (start + i) _ hv (
            get_elem?-set old (c - start) i v (omega (arith, lo, hi))
            ∙ ground
                (arith, lo, h.entry_cached i (omega (arith, hi', length-set old (c - start) v))));
        segment_within = omega (arith, h.segment_within, length-set old (c - start) v);
        bitmap_cached = subst (IsCached s.bitmap_cache) (sym same) h.bitmap_cached;
      }

  other_entry :
      (s : ExfatFs) (c i d v : ℕ)
      → s.fat_cache.start_cluster + length s.fat_cache.entries < 2 ^ 32
      → contains s.fat_cache c ≡ false
      → i < length s.fat_cache.entries
      → some d ≡ (if c == s.fat_cache.start_cluster + i then some v else some d)
  other_entry s c i d v small miss hi = ground (arith, contains_of_range s.fat_cache c small)

  miss-IsCoherent :
      (s : ExfatFs) (c v : ℕ)
      → v < 2 ^ 32
      → contains s.fat_cache c ≡ false
      → IsCoherent g s
      → disk_cluster g (fat_image g s.image c v) 2 ≡ disk_cluster g s.image 2
      → IsCoherent g (record s { image = fat_image g s.image c v })
  miss-IsCoherent s c v hv miss h same =
      let start = s.fat_cache.start_cluster in
      let old = s.fat_cache.entries in
      let small = within_u32 s h in
      record {
        entry_cached = λ i hi. disk_after s.image c v (start + i) _ hv (
            h.entry_cached i hi
            ∙ other_entry s c i (disk_fat g s.image (start + i)) v small miss hi);
        segment_within = h.segment_within;
        bitmap_cached = subst (IsCached s.bitmap_cache) (sym same) h.bitmap_cached;
      }

  -- A write of an entry leaves the caches coherent with the new disk.
  pub write_fat_entry-IsCoherent :
      (s : ExfatFs) (c v : ℕ)
      → c < g.cluster_count + 2
      → v < 2 ^ 32
      → IsCoherent g s
      → IsCoherent g (write_fat_entry g c v s)
  unfolding write_fat_entry update
  write_fat_entry-IsCoherent s c v hc hv h =
      let some_cluster = valid.some_cluster in
      let same = disk_cluster-fat_image g valid s.image c 2 v hc (omega arith, omega arith) in
      elim (Bool-cases (contains s.fat_cache c)) [
        | inl hit ↦ rw hit (hit-IsCoherent s c v hv hit h same)
        | inr miss ↦ rw miss (miss-IsCoherent s c v hv miss h same)
      ]
