-- ===== src/Ventoy/Format/Volume.antt =====
-- A fresh volume, as ops.rs reads it.
use one_kvm_stream_box.Base.{
  ℕ, zero, suc, ◌+◌, ◌-◌, ◌*◌, ◌^◌, ◌≤◌, ◌<◌, ◌≡◌, refl, sym, ap, ◌∙◌, inl, List, [], ◌∷◌, ◌++◌,
  append-nil, append_assoc, arith, length, get_or, replicate, All, All-append, get_or-All,
  length-append, length-replicate, u32_to_le_bytes,
}
use one_kvm_stream_box.Ventoy.Image.{
  Image, read_at, write_at, read_at-write_at, read_at-write_at_outside, write_at-append,
}
use one_kvm_stream_box.Ventoy.Format.{
  ExfatBootSector, to_bytes, boot_region, entry_bytes, fat_entries, format_bitmap, upcase_clusters,
  write_volume, calculate_boot_checksum, upcase_entries,
}

-- The first of what is written is read again.
read_at-front :
    (xs ys : List ℕ) (image : Image) (o : ℕ)
    → read_at (write_at image o (xs ++ ys)) o (length xs) ≡ xs
read_at-front xs ys image o =
    ap (λ (i : Image). read_at i o (length xs)) (sym (write_at-append xs ys image o))
    ∙ read_at-write_at_outside ys (write_at image o xs) (o + length xs) o (length xs)
        (inl (omega arith))
    ∙ read_at-write_at xs image o

length-entry_bytes : (es : List ℕ) → length (entry_bytes es) ≡ 4 * length es
unfolding entry_bytes
length-entry_bytes [] = refl
length-entry_bytes (e ∷ es) = omega (arith, length-entry_bytes es)

-- An entry of the FAT, where the FAT was written.
read_entry :
    (es : List ℕ) (rest : List ℕ) (c : ℕ) (image : Image) (o : ℕ)
    → c < length es
    → read_at (write_at image o (entry_bytes es ++ rest)) (o + c * 4) 4
      ≡ u32_to_le_bytes (get_or es c 0)
unfolding entry_bytes
read_entry [] rest c image o h = absurd (omega arith)
read_entry (e ∷ es) rest zero image o h =
    let at : o + 0 ≡ o = omega arith in
    ap (λ (k : ℕ). read_at (write_at image o (u32_to_le_bytes e ++ (entry_bytes es ++ rest))) k 4)
      at
    ∙ read_at-front (u32_to_le_bytes e) (entry_bytes es ++ rest) image o
read_entry (e ∷ es) rest (suc c) image o h =
    let at : o + suc c * 4 ≡ o + 4 + c * 4 = omega arith in
    ap (λ (k : ℕ). read_at (write_at image o (u32_to_le_bytes e ++ (entry_bytes es ++ rest))) k 4)
      at
    ∙ ap (λ (i : Image). read_at i (o + 4 + c * 4) 4)
        (sym (write_at-append (u32_to_le_bytes e) (entry_bytes es ++ rest) image o))
    ∙ read_entry es rest c (write_at image o (u32_to_le_bytes e)) (o + 4) (omega arith)

-- No entry: zeros are the bytes of free entries.
free_entries : (n : ℕ) → replicate (4 * n) 0 ≡ entry_bytes (replicate n 0)
unfolding entry_bytes
free_entries zero = refl
free_entries (suc n) =
    let e : 4 * suc n ≡ suc (suc (suc (suc (4 * n)))) = omega arith in
    ap (λ (k : ℕ). replicate {A = ℕ} k 0) e
    ∙ ap (λ (l : List ℕ). 0 ∷ 0 ∷ 0 ∷ 0 ∷ l) (free_entries n)

entry_bytes-append : (xs ys : List ℕ) → entry_bytes (xs ++ ys) ≡ entry_bytes xs ++ entry_bytes ys
unfolding entry_bytes
entry_bytes-append [] ys = refl
entry_bytes-append (x ∷ xs) ys =
    ap (λ (l : List ℕ). u32_to_le_bytes x ++ l) (entry_bytes-append xs ys)

length-to_bytes : (b : ExfatBootSector) → length (to_bytes b) ≡ 512
unfolding to_bytes
length-to_bytes b = refl

length-boot_region : (b : ExfatBootSector) → length (boot_region b) ≡ 12 * 512
unfolding boot_region
length-boot_region b =
    let sectors = to_bytes b ++ replicate (10 * 512) 0 in
    let checksum = calculate_boot_checksum 0 0 sectors in
    omega (
      arith,
      length-append sectors (entry_bytes (replicate 128 checksum)),
      length-append (to_bytes b) (replicate (10 * 512) 0),
      length-to_bytes b,
      length-replicate {A = ℕ} (10 * 512) 0,
      length-entry_bytes (replicate 128 checksum),
      length-replicate {A = ℕ} 128 checksum,
    )

behind_boot_sector : ExfatBootSector → List ℕ
behind_boot_sector b =
    replicate (10 * 512) 0
    ++ entry_bytes
        (replicate 128 (calculate_boot_checksum 0 0 (to_bytes b ++ replicate (10 * 512) 0)))
    ++ boot_region b

boot_region_front :
    (b : ExfatBootSector) → boot_region b ++ boot_region b ≡ to_bytes b ++ behind_boot_sector b
unfolding boot_region behind_boot_sector
boot_region_front b =
    let rest =
      entry_bytes
        (replicate 128 (calculate_boot_checksum 0 0 (to_bytes b ++ replicate (10 * 512) 0))) in
    append_assoc (to_bytes b ++ replicate (10 * 512) 0) rest (boot_region b)
    ∙ append_assoc (to_bytes b) (replicate (10 * 512) 0) (rest ++ boot_region b)

get_or-zeros : (es : List ℕ) (n c : ℕ) → get_or (es ++ replicate n 0) c 0 ≡ get_or es c 0
get_or-zeros [] zero c = refl
get_or-zeros [] (suc n) zero = refl
get_or-zeros [] (suc n) (suc c) = get_or-zeros [] n c
get_or-zeros (e ∷ es) n zero = refl
get_or-zeros (e ∷ es) n (suc c) = get_or-zeros es n c

-- The FAT's bytes: the entries, and free ones behind them.
fat_bytes :
    (es : List ℕ) (sectors : ℕ)
    → length es ≤ sectors * 128
    → entry_bytes es ++ replicate (sectors * 512 - length es * 4) 0
      ≡ entry_bytes (es ++ replicate (sectors * 128 - length es) 0) ++ []
fat_bytes es sectors h =
    let n : sectors * 512 - length es * 4 ≡ 4 * (sectors * 128 - length es) = omega arith in
    ap (λ (k : ℕ). entry_bytes es ++ replicate k 0) n
    ∙ ap (λ (l : List ℕ). entry_bytes es ++ l) (free_entries (sectors * 128 - length es))
    ∙ sym (entry_bytes-append es (replicate (sectors * 128 - length es) 0))
    ∙ sym (append-nil (entry_bytes (es ++ replicate (sectors * 128 - length es) 0)))

pub length-upcase_entries : (n m : ℕ) → length (upcase_entries n m) ≡ n
unfolding upcase_entries
length-upcase_entries zero m = refl
length-upcase_entries (suc zero) m = refl
length-upcase_entries (suc (suc n)) m = ap suc (length-upcase_entries (suc n) (m + 1))

upcase_entries-IsWord : (n m : ℕ) → m + n < 2 ^ 32 → All (λ e. e < 2 ^ 32) (upcase_entries n m)
unfolding upcase_entries
upcase_entries-IsWord zero m h = tt
upcase_entries-IsWord (suc zero) m h = (omega arith, tt)
upcase_entries-IsWord (suc (suc n)) m h =
    (omega arith, upcase_entries-IsWord (suc n) (m + 1) (omega arith))

pub length-fat_entries : (upcase : ℕ) → length (fat_entries upcase) ≡ upcase + 4
unfolding fat_entries
length-fat_entries upcase = omega (
  arith,
  length-append (upcase_entries upcase 3) (0xFFFFFFFF ∷ []),
  length-upcase_entries upcase 3,
)

pub fat_entry-lt : (upcase c : ℕ) → upcase + 4 < 2 ^ 32 → get_or (fat_entries upcase) c 0 < 2 ^ 32
unfolding fat_entries
fat_entry-lt upcase c h =
    let table = upcase_entries-IsWord upcase 3 (omega arith) in
    get_or-All (λ e. e < 2 ^ 32) (fat_entries upcase) c 0 (omega arith)
      (
        omega arith,
        (
          omega arith,
          (
            omega arith,
            All-append (λ e. e < 2 ^ 32) (upcase_entries upcase 3) (0xFFFFFFFF ∷ []) table
                (omega arith, tt),
          ),
        ),
      )

-- What the five writes leave of each other: a read before the later ones.
before :
    (bytes : List ℕ) (image : Image) (at offset n : ℕ)
    → offset + n ≤ at
    → read_at (write_at image at bytes) offset n ≡ read_at image offset n
before bytes image at offset n h = read_at-write_at_outside bytes image at offset n (inl h)

module _ (image : Image) (partition_offset cluster_size : ℕ) (b : ExfatBootSector)
    (label upcase_data : List ℕ) (fat_offset : b.fat_offset ≡ 24)
    (heap_offset : b.cluster_heap_offset ≡ 24 + b.fat_length) where
  abbrev pub volume : Image
  volume = write_volume image partition_offset cluster_size b label upcase_data

  pub read_boot_sector : read_at volume partition_offset 512 ≡ to_bytes b
  unfolding write_volume
  read_boot_sector =
      before _ _ _ partition_offset 512 (omega (arith, heap_offset))
      ∙ before _ _ _ partition_offset 512 (omega (arith, heap_offset))
      ∙ before _ _ _ partition_offset 512 (omega (arith, heap_offset))
      ∙ before _ _ _ partition_offset 512 (omega (arith, fat_offset))
      ∙ ap (λ (l : List ℕ). read_at (write_at image partition_offset l) partition_offset 512)
          (boot_region_front b)
      ∙ ap
          (λ (n : ℕ).
            read_at (write_at image partition_offset (to_bytes b ++ behind_boot_sector b))
              partition_offset n)
          (sym (length-to_bytes b))
      ∙ read_at-front (to_bytes b) (behind_boot_sector b) image partition_offset

  pub read_fat :
      (c : ℕ)
      → length (fat_entries (upcase_clusters cluster_size)) ≤ b.fat_length * 128
      → c < b.fat_length * 128
      → read_at volume (partition_offset + 24 * 512 + c * 4) 4
        ≡ u32_to_le_bytes (get_or (fat_entries (upcase_clusters cluster_size)) c 0)
  unfolding write_volume
  read_fat c room small =
      let entries = fat_entries (upcase_clusters cluster_size) in
      let zeros : List ℕ = replicate (b.fat_length * 128 - length entries) 0 in
      let at = partition_offset + 24 * 512 + c * 4 in
      let fat = partition_offset + b.fat_offset * 512 in
      let here : at ≡ fat + c * 4 = omega (arith, fat_offset) in
      let first = write_at image partition_offset (boot_region b ++ boot_region b) in
      let within : c < length (entries ++ zeros) = omega (
        arith,
        length-append entries zeros,
        length-replicate {A = ℕ} (b.fat_length * 128 - length entries) 0,
      ) in
      before _ _ _ at 4 (omega (arith, heap_offset))
      ∙ before _ _ _ at 4 (omega (arith, heap_offset))
      ∙ before _ _ _ at 4 (omega (arith, heap_offset))
      ∙ ap (λ (l : List ℕ). read_at (write_at first fat l) at 4)
          (fat_bytes entries b.fat_length room)
      ∙ ap (λ (k : ℕ). read_at (write_at first fat (entry_bytes (entries ++ zeros) ++ [])) k 4) here
      ∙ read_entry (entries ++ zeros) [] c first fat within
      ∙ ap (λ (e : ℕ). u32_to_le_bytes e)
          (get_or-zeros entries (b.fat_length * 128 - length entries) c)

  pub read_bitmap_cluster :
      length (format_bitmap cluster_size (upcase_clusters cluster_size)) ≡ cluster_size
      → read_at volume (partition_offset + b.cluster_heap_offset * 512) cluster_size
        ≡ format_bitmap cluster_size (upcase_clusters cluster_size)
  unfolding write_volume
  read_bitmap_cluster size =
      let heap = partition_offset + b.cluster_heap_offset * 512 in
      before _ _ _ heap cluster_size (omega arith)
      ∙ before _ _ _ heap cluster_size (omega arith)
      ∙ ap (read_at _ heap) (sym size)
      ∙ read_at-write_at (format_bitmap cluster_size (upcase_clusters cluster_size)) _ heap
