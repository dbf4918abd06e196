-- ===== src/Ventoy/Exfat/Disk.antt =====
-- What the image holds: an entry of the FAT for each cluster, and the bytes of each cluster. A write of
-- an entry or of a cluster changes that entry or that cluster and nothing else.
use one_kvm_stream_box.Base.{
  ℕ, ◌+◌, ◌-◌, ◌*◌, ◌^◌, ◌≤◌, ◌<◌, ◌≡◌, refl, sym, ap, ◌∙◌, ◌⊎◌, inl, inr, false, List, ◌++◌, arith,
  ltb, ◌==◌, if◌then◌else◌, ==_iff, Bool-cases, length, get_or, replicate, length-append,
  length-replicate, u32_to_le_bytes,
}
use one_kvm_stream_box.Ventoy.Image.{
  Image, read_at, write_at, read_at-write_at, read_at-write_at_outside, write_at-append,
}
use one_kvm_stream_box.Ventoy.Exfat.{Geometry, cluster_to_offset, fat_entry_offset, cluster_image}
use one_kvm_stream_box.Ventoy.Exfat.Bits.{sub_u32_two}

-- The FAT lies before the clusters, and the clusters have numbers that are no end marks.
pub record IsGeometry (g : Geometry) : Type 0 where
  pub fat_before_heap :
      g.fat_offset * g.bytes_per_sector + (g.cluster_count + 2) * 4
      ≤ g.cluster_heap_offset * g.bytes_per_sector
  pub few_clusters : g.cluster_count + 2 ≤ 0xFFFFFFF8
  pub some_cluster : 1 ≤ g.cluster_count
  pub root_after_bitmap : 2 ≤ g.first_cluster_of_root
  pub root_within : g.first_cluster_of_root < g.cluster_count + 2

-- `u32::from_le_bytes`
abbrev pub from_le : List ℕ → ℕ
from_le bytes =
    get_or bytes 0 0
    + 256 * get_or bytes 1 0
    + 65536 * get_or bytes 2 0
    + 16777216 * get_or bytes 3 0

pub from_le-to_le : (v : ℕ) → v < 2 ^ 32 → from_le (u32_to_le_bytes v) ≡ v
from_le-to_le v h = omega arith

order : (a b : ℕ) → (a == b) ≡ false → (a < b) ⊎ (b < a)
order a b h = elim (Bool-cases (ltb a b)) [
  | inl below ↦ inl (ground (arith, below))
  | inr above ↦ inr (ground (arith, above, h))
]

abbrev pub IsCluster : Geometry → ℕ → Type 0
IsCluster g c = (2 ≤ c) × (c < g.cluster_count + 2)

module _ (g : Geometry) where
  unfoldable pub disk_fat : Image → ℕ → ℕ
  disk_fat image c = from_le (read_at image (fat_entry_offset g c) 4)

  unfoldable pub disk_cluster : Image → ℕ → List ℕ
  disk_cluster image c = read_at image (cluster_to_offset g c) g.cluster_size

  abbrev pub fat_image : Image → ℕ → ℕ → Image
  fat_image image c v = write_at image (fat_entry_offset g c) (u32_to_le_bytes v)

  -- A cluster's bytes as `write_cluster` leaves them.
  abbrev pub padded : List ℕ → List ℕ
  padded bytes = bytes ++ replicate (g.cluster_size - length bytes) 0

  cluster_image-padded :
      (image : Image) (c : ℕ) (bytes : List ℕ)
      → cluster_image g image c bytes ≡ write_at image (cluster_to_offset g c) (padded bytes)
  unfolding cluster_image
  cluster_image-padded image c bytes =
      write_at-append bytes (replicate (g.cluster_size - length bytes) 0) image
        (cluster_to_offset g c)

  length-padded :
      (bytes : List ℕ) → length bytes ≤ g.cluster_size → length (padded bytes) ≡ g.cluster_size
  length-padded bytes h = omega (
    arith,
    length-append bytes (replicate (g.cluster_size - length bytes) 0),
    length-replicate {A = ℕ} (g.cluster_size - length bytes) 0,
  )

  -- Where a cluster lies against the FAT, and two clusters against each other.
  cluster_offset :
      (c : ℕ)
      → 2 ≤ c
      → c < 2 ^ 32
      → cluster_to_offset g c
        ≡ g.partition_offset + g.cluster_heap_offset * g.bytes_per_sector + (c - 2) * g.cluster_size
  unfolding cluster_to_offset
  cluster_offset c lo hi = rw (sub_u32_two c lo hi) refl

  apart : (a b size : ℕ) → a < b → a * size + size ≤ b * size
  apart a b size h = grind arith

  clusters_apart :
      IsGeometry g
      → (a b : ℕ) → IsCluster g a
      → IsCluster g b
      → a < b
      → cluster_to_offset g a + g.cluster_size ≤ cluster_to_offset g b
  clusters_apart v a b ha hb h =
      let few = v.few_clusters in
      omega (
        arith,
        cluster_offset a ha.0 (omega arith),
        cluster_offset b hb.0 (omega arith),
        apart (a - 2) (b - 2) g.cluster_size (omega arith),
      )

  fat_apart :
      IsGeometry g
      → (c d : ℕ) → c < g.cluster_count + 2
      → IsCluster g d
      → fat_entry_offset g c + 4 ≤ cluster_to_offset g d
  unfolding fat_entry_offset
  fat_apart v c d hc hd =
      let few = v.few_clusters in
      omega (arith, v.fat_before_heap, cluster_offset d hd.0 (omega arith))

  -- The four laws.
  pub disk_fat-fat_image :
      (image : Image) (c c' v : ℕ)
      → v < 2 ^ 32
      → disk_fat (fat_image image c v) c' ≡ (if c == c' then v else disk_fat image c')
  unfolding disk_fat fat_entry_offset
  disk_fat-fat_image image c c' v hv =
      let base = g.partition_offset + g.fat_offset * g.bytes_per_sector in
      elim (Bool-cases (c == c')) [
        | inl same ↦
            let e : c ≡ c' = (==_iff c c').0 same in
            rw same (
              ap
                (λ (k : ℕ).
                  from_le
                    (read_at (write_at image (base + c * 4) (u32_to_le_bytes v)) (base + k * 4) 4))
                (sym e)
              ∙ ap from_le (read_at-write_at (u32_to_le_bytes v) image (base + c * 4))
              ∙ from_le-to_le v hv)
        | inr other ↦ rw other (
            ap from_le (
              read_at-write_at_outside (u32_to_le_bytes v) image (base + c * 4) (base + c' * 4) 4
                (elim (order c c' other) [
                  | inl l ↦ inr (omega arith)
                  | inr l ↦ inl (omega arith)
                ])))
      ]

  pub disk_fat-cluster_image :
      IsGeometry g
      → (image : Image) (c c' : ℕ) (bytes : List ℕ) → IsCluster g c
      → c' < g.cluster_count + 2
      → length bytes ≤ g.cluster_size
      → disk_fat (cluster_image g image c bytes) c' ≡ disk_fat image c'
  unfolding disk_fat
  disk_fat-cluster_image v image c c' bytes hc hc' fits =
      ap (λ (i : Image). from_le (read_at i (fat_entry_offset g c') 4))
        (cluster_image-padded image c bytes)
      ∙ ap from_le (
          read_at-write_at_outside (padded bytes) image (cluster_to_offset g c)
            (fat_entry_offset g c') 4 (inl (fat_apart v c' c hc' hc)))

  pub disk_cluster-fat_image :
      IsGeometry g
      → (image : Image) (c d v : ℕ) → c < g.cluster_count + 2
      → IsCluster g d
      → disk_cluster (fat_image image c v) d ≡ disk_cluster image d
  unfolding disk_cluster
  disk_cluster-fat_image valid image c d v hc hd =
      read_at-write_at_outside (u32_to_le_bytes v) image (fat_entry_offset g c)
        (cluster_to_offset g d) g.cluster_size (inr (fat_apart valid c d hc hd))

  pub disk_cluster-cluster_image :
      IsGeometry g
      → (image : Image) (c d : ℕ) (bytes : List ℕ) → IsCluster g c
      → IsCluster g d
      → length bytes ≤ g.cluster_size
      → disk_cluster (cluster_image g image c bytes) d
        ≡ (if c == d then padded bytes else disk_cluster image d)
  unfolding disk_cluster
  disk_cluster-cluster_image valid image c d bytes hc hd fits =
      let size = length-padded bytes fits in
      ap (λ (i : Image). read_at i (cluster_to_offset g d) g.cluster_size)
        (cluster_image-padded image c bytes)
      ∙ elim (Bool-cases (c == d)) [
        | inl same ↦
            let e : c ≡ d = (==_iff c d).0 same in
            rw same (
              ap
                (λ (k : ℕ).
                  read_at (write_at image (cluster_to_offset g c) (padded bytes))
                    (cluster_to_offset g k) g.cluster_size)
                (sym e)
              ∙ ap
                  (read_at (write_at image (cluster_to_offset g c) (padded bytes))
                    (cluster_to_offset g c))
                  (sym size)
              ∙ read_at-write_at (padded bytes) image (cluster_to_offset g c))
        | inr other ↦ rw other (
            read_at-write_at_outside (padded bytes) image (cluster_to_offset g c)
              (cluster_to_offset g d) g.cluster_size
              (elim (order c d other) [
                | inl l ↦ inr (omega (arith, clusters_apart valid c d hc hd l, size))
                | inr l ↦ inl (clusters_apart valid d c hd hc l)
              ]))
      ]
