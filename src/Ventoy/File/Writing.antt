-- ===== src/Ventoy/File/Writing.antt =====
-- What the writer has stored and buffered, after each of its rounds.
use one_kvm_stream_box.Base.{
  ℕ, ◌+◌, ◌*◌, ◌≤◌, ◌<◌, ◌≡◌, refl, sym, ap, ◌∙◌, ◌⊎◌, inl, inr, true, false, List, [], ◌∷◌, ◌++◌,
  append-nil, append_assoc, arith, ltb, leb, ◌==◌, Bool-cases, length, get_or, All, All-zip,
  length-append,
}
use mathlib.Core.Path.{subst}
use one_kvm_stream_box.Ventoy.Image.{length-read_at}
use one_kvm_stream_box.Ventoy.Exfat.{Geometry, ok, write_cluster}
use one_kvm_stream_box.Ventoy.Exfat.Disk.{IsGeometry, IsCluster, disk_cluster}
use one_kvm_stream_box.Ventoy.Exfat.Allocation.Search.{IsAscending}
use one_kvm_stream_box.Ventoy.File.{ExfatFileWriter, next_cluster, write_full, finish_data}
use one_kvm_stream_box.Ventoy.File.Stored.{Holds, Holds-other, Holds-append}
use one_kvm_stream_box.Ventoy.File.Kept.{
  Keeps, stored_to, write_cluster-fits, stored_to-Keeps, stored_to-cluster, stored_to-front,
}

get_or-at : (xs ys : List ℕ) (y : ℕ) → get_or (xs ++ y ∷ ys) (length xs) 0 ≡ y
get_or-at [] ys y = refl
get_or-at (x ∷ xs) ys y = get_or-at xs ys y

All-front : (P : ℕ → Type 0) (xs ys : List ℕ) → All P (xs ++ ys) → All P xs
All-front P [] ys h = tt
All-front P (x ∷ xs) ys h = (h.0, All-front P xs ys h.1)

All-here : (P : ℕ → Type 0) (xs ys : List ℕ) (y : ℕ) → All P (xs ++ y ∷ ys) → P y
All-here P [] ys y h = h.0
All-here P (x ∷ xs) ys y h = All-here P xs ys y h.1

IsAscending-front : (xs ys : List ℕ) (y : ℕ) → IsAscending (xs ++ y ∷ ys) → All (λ x. x < y) xs
IsAscending-front [] ys y h = tt
IsAscending-front (x ∷ xs) ys y h =
    (All-here (λ d. x < d) xs ys y h.0, IsAscending-front xs ys y h.1)

List-cases : (l : List ℕ) → (l ≡ []) ⊎ ((c : ℕ) × (cs : List ℕ) × (l ≡ c ∷ cs))
List-cases [] = inl refl
List-cases (x ∷ xs) = inr (x, xs, refl)

empty_list : (l : List ℕ) → length l ≡ 0 → l ≡ []
empty_list [] h = refl
empty_list (x ∷ xs) h = absurd (omega arith)

-- Clusters that a file of `total` bytes can be written to.
pub record IsWritable (g : Geometry) (clusters : List ℕ) (total : ℕ) : Type 0 where
  pub some_byte : 1 ≤ g.cluster_size
  pub within : All (IsCluster g) clusters
  pub behind : All (λ c. 2 < c) clusters
  pub ascending : IsAscending clusters
  pub room : total ≤ length clusters * g.cluster_size

module _ (g : Geometry) (valid : IsGeometry g) (first total : ℕ) (clusters : List ℕ)
    (writable : IsWritable g clusters total) where
  -- The content that was written so far stands in the first clusters and in the buffer, which has less
  -- than `limit` bytes.
  pub record Writing (limit : ℕ) (content : List ℕ) (w : ExfatFileWriter) : Type 0 where
    pub done : List ℕ
    pub todo : List ℕ
    pub stored : List ℕ
    pub split : clusters ≡ done ++ todo
    pub allocated : w.allocated_clusters ≡ clusters
    pub size : w.total_size ≡ total
    pub index : w.current_cluster_index ≡ length done
    pub parts : content ≡ stored ++ w.cluster_buffer
    pub written : w.bytes_written ≡ length content
    pub in_size : length content ≤ total
    pub full : length stored ≡ length done * g.cluster_size
    pub holds : Holds g.cluster_size (disk_cluster g w.fs.image) done stored
    pub space : length w.cluster_buffer < limit
    pub keeps : Keeps g valid first clusters w.fs

  pub with_space :
      (limit limit' : ℕ) (content : List ℕ) (w : ExfatFileWriter)
      → length w.cluster_buffer < limit'
      → Writing limit content w
      → Writing limit' content w
  with_space limit limit' content w less h = record {
    done = h.done;
    todo = h.todo;
    stored = h.stored;
    split = h.split;
    allocated = h.allocated;
    size = h.size;
    index = h.index;
    parts = h.parts;
    written = h.written;
    in_size = h.in_size;
    full = h.full;
    holds = h.holds;
    space = less;
    keeps = h.keeps;
  }

  -- The buffer goes to the next cluster.
  module _ (content : List ℕ) (w : ExfatFileWriter)
      (h : Writing (g.cluster_size + 1) content w) where
    cluster_at :
        (c : ℕ) (cs : List ℕ)
        → h.todo ≡ c ∷ cs
        → get_or w.allocated_clusters w.current_cluster_index 0 ≡ c
    cluster_at c cs e =
        ap (λ (l : List ℕ). get_or l w.current_cluster_index 0)
          (h.allocated ∙ h.split ∙ ap (λ (l : List ℕ). h.done ++ l) e)
        ∙ ap (λ (k : ℕ). get_or (h.done ++ c ∷ cs) k 0) h.index
        ∙ get_or-at h.done cs c

    split_at : (c : ℕ) (cs : List ℕ) → h.todo ≡ c ∷ cs → clusters ≡ h.done ++ c ∷ cs
    split_at c cs e = h.split ∙ ap (λ (l : List ℕ). h.done ++ l) e

    is_cluster : (c : ℕ) (cs : List ℕ) → h.todo ≡ c ∷ cs → IsCluster g c × (2 < c)
    is_cluster c cs e =
        let at = split_at c cs e in
        (
          All-here (IsCluster g) h.done cs c (subst (All (IsCluster g)) at writable.within),
          All-here (λ d. 2 < d) h.done cs c (subst (All (λ d. 2 < d)) at writable.behind),
        )

    stored_buffer-Holds :
        (c : ℕ) (cs rest : List ℕ)
        → h.todo ≡ c ∷ cs
        → Holds g.cluster_size
            (disk_cluster g (stored_to g valid w.fs c w.cluster_buffer).image)
            (h.done ++ c ∷ rest)
            content
    unfolding disk_cluster
    stored_buffer-Holds c cs rest e =
        let fits : length w.cluster_buffer ≤ g.cluster_size = omega (arith, h.space) in
        let at = split_at c cs e in
        let (hc, behind) = is_cluster c cs e in
        let s' = stored_to g valid w.fs c w.cluster_buffer in
        let earlier = IsAscending-front h.done cs c (subst IsAscending at writable.ascending) in
        let inside =
          All-front (IsCluster g) h.done (c ∷ cs) (subst (All (IsCluster g)) at writable.within) in
        let others : All (λ d. disk_cluster g s'.image d ≡ disk_cluster g w.fs.image d) h.done =
          All-zip (λ d. d < c) {Q = IsCluster g} h.done
            (λ d lt hd.
              let other : (c == d) ≡ false = ground (arith, lt) in
              stored_to-cluster g valid w.fs c d w.cluster_buffer hc hd fits ∙ rw other refl)
            earlier inside in
        rw h.parts (
          Holds-append g.cluster_size (disk_cluster g s'.image) h.done c rest h.stored
            w.cluster_buffer (λ d. length-read_at s'.image _ g.cluster_size) h.full fits
            (Holds-other g.cluster_size (disk_cluster g w.fs.image) (disk_cluster g s'.image) h.done
              h.stored others h.holds)
            (stored_to-front g valid w.fs c w.cluster_buffer hc fits))

    stored_buffer-Keeps :
        (c : ℕ) (cs : List ℕ)
        → h.todo ≡ c ∷ cs
        → Keeps g valid first clusters (stored_to g valid w.fs c w.cluster_buffer)
    stored_buffer-Keeps c cs e =
        let (hc, behind) = is_cluster c cs e in
        stored_to-Keeps g valid w.fs first c clusters w.cluster_buffer h.keeps writable.within hc
          behind (omega (arith, h.space))

    write_at_cluster :
        (c : ℕ) (cs : List ℕ)
        → h.todo ≡ c ∷ cs
        → write_cluster g
            (get_or w.allocated_clusters w.current_cluster_index 0)
            w.cluster_buffer
            w.fs
          ≡ (stored_to g valid w.fs c w.cluster_buffer, ok tt)
    write_at_cluster c cs e =
        ap (λ (k : ℕ). write_cluster g k w.cluster_buffer w.fs) (cluster_at c cs e)
        ∙ write_cluster-fits g valid w.fs c w.cluster_buffer (omega (arith, h.space))

    room_left :
        1 ≤ length w.cluster_buffer
        → length h.stored + length w.cluster_buffer ≤ total
        → (c : ℕ) × (cs : List ℕ) × (h.todo ≡ c ∷ cs)
    room_left filled fits = elim (List-cases h.todo) [
      | inl none_left ↦
          let all : length clusters ≡ length h.done =
            ap length (h.split ∙ ap (λ (l : List ℕ). h.done ++ l) none_left ∙ append-nil h.done) in
          let product = ap (λ (n : ℕ). n * g.cluster_size) all in
          absurd (omega (arith, product, writable.room, h.full, filled, fits))
      | inr left ↦ left
    ]

    index_within :
        (c : ℕ) (cs : List ℕ)
        → h.todo ≡ c ∷ cs
        → ltb w.current_cluster_index (length w.allocated_clusters) ≡ true
    index_within c cs e =
        let all = ap length (h.allocated ∙ split_at c cs e) in
        ground (arith, all, h.index, length-append h.done (c ∷ cs))

    total_parts : length h.stored + length w.cluster_buffer ≤ total
    total_parts =
        let size = ap length h.parts in
        omega (arith, size, length-append h.stored w.cluster_buffer, h.in_size)

    -- A full buffer is written to the next cluster, and is empty then.
    pub write_full-Writing :
        ((write_full g w).1 ≡ ok tt) × Writing g.cluster_size content (write_full g w).0
    unfolding write_full next_cluster
    write_full-Writing = elim (Bool-cases (leb g.cluster_size (length w.cluster_buffer))) [
      | inr space ↦
          rw space (
            refl,
            with_space (g.cluster_size + 1) g.cluster_size content w (ground (arith, space)) h,
          )
      | inl whole ↦
          let exact : length w.cluster_buffer ≡ g.cluster_size = ground (arith, whole, h.space) in
          let (c, cs, e) = room_left (omega (arith, exact, writable.some_byte)) total_parts in
          rw (whole, index_within c cs e, write_at_cluster c cs e)
            (
              refl,
              record {
                done = h.done ++ c ∷ [];
                todo = cs;
                stored = content;
                split = split_at c cs e ∙ sym (append_assoc h.done (c ∷ []) cs);
                allocated = h.allocated;
                size = h.size;
                index = omega (arith, h.index, length-append h.done (c ∷ []));
                parts = sym (append-nil content);
                written = h.written;
                in_size = h.in_size;
                full =
                    let both = ap length h.parts in
                    let more = ap (λ (n : ℕ). n * g.cluster_size) (length-append h.done (c ∷ [])) in
                    omega
                      (arith, both, length-append h.stored w.cluster_buffer, more, h.full, exact);
                holds = stored_buffer-Holds c cs [] e;
                space = omega (arith, writable.some_byte);
                keeps = stored_buffer-Keeps c cs e;
              },
            )
    ]

    nothing_buffered : h.todo ≡ [] → length w.cluster_buffer ≡ 0
    nothing_buffered none_left = elim (Bool-cases (ltb 0 (length w.cluster_buffer))) [
      | inl left ↦
          let (c, cs, e) = room_left (ground (arith, left)) total_parts in
          let lengths = ap length (sym e ∙ none_left) in absurd (omega (arith, lengths))
      | inr empty ↦ ground (arith, empty)
    ]

    -- At the end, the clusters hold the content.
    pub finish_data-Holds :
        ((finish_data g w).1 ≡ ok tt)
        × Holds g.cluster_size (disk_cluster g (finish_data g w).0.image) clusters content
        × Keeps g valid first clusters (finish_data g w).0
    unfolding finish_data disk_cluster
    finish_data-Holds = elim (List-cases h.todo) [
      | inr (c, cs, e) ↦ elim (Bool-cases (ltb 0 (length w.cluster_buffer))) [
        | inl left ↦
            rw (left, index_within c cs e, write_at_cluster c cs e)
              (
                refl,
                rw (split_at c cs e) (stored_buffer-Holds c cs cs e),
                stored_buffer-Keeps c cs e,
              )
        | inr empty ↦
            let fits : length w.cluster_buffer ≤ g.cluster_size = omega (arith, h.space) in
            let nothing : length w.cluster_buffer ≡ 0 = ground (arith, empty) in
            rw empty (
              refl,
              rw (split_at c cs e, h.parts)
                  (Holds-append g.cluster_size (disk_cluster g w.fs.image) h.done c cs h.stored
                    w.cluster_buffer (λ d. length-read_at w.fs.image _ g.cluster_size) h.full fits
                    h.holds (rw nothing (sym (empty_list w.cluster_buffer nothing)))),
              h.keeps,
            )
      ]
      | inl none_left ↦
          let all : clusters ≡ h.done =
            h.split ∙ ap (λ (l : List ℕ). h.done ++ l) none_left ∙ append-nil h.done in
          let nothing : length w.cluster_buffer ≡ 0 = nothing_buffered none_left in
          let empty : ltb 0 (length w.cluster_buffer) ≡ false = ground (arith, nothing) in
          rw empty (
            refl,
            rw (all, h.parts, empty_list w.cluster_buffer nothing, append-nil h.stored) h.holds,
            h.keeps,
          )
    ]
