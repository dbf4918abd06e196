-- ===== src/Ventoy/File/Loop.antt =====
-- The writer's loop takes what there is room for, and ends.
use one_kvm_stream_box.Base.{
  ℕ, zero, suc, ◌+◌, ◌-◌, ◌≤◌, min, ◌≡◌, refl, sym, ap, ◌∙◌, inl, inr, ◌&&◌, List, [], ◌∷◌, ◌++◌,
  append-nil, append_assoc, arith, ltb, &&→both, Bool-cases, length, take, drop, take-all,
  length-append, length-take, length-drop,
}
use mathlib.Core.Path.{subst}
use one_kvm_stream_box.Ventoy.Exfat.{Geometry, ok, err}
use one_kvm_stream_box.Ventoy.Exfat.Disk.{IsGeometry}
use one_kvm_stream_box.Ventoy.File.{ExfatFileWriter, Outcome, go_on, write_full, write_loop}
use one_kvm_stream_box.Ventoy.File.Writing.{IsWritable, Writing, write_full-Writing}

take-add : (m n : ℕ) (xs : List ℕ) → take m xs ++ take n (drop m xs) ≡ take (m + n) xs
take-add zero n xs = let e : n ≡ 0 + n = omega arith in ap (λ (k : ℕ). take k xs) e
take-add (suc m) n [] = take-all n [] (omega arith) ∙ sym (take-all (suc m + n) [] (omega arith))
take-add (suc m) n (x ∷ xs) =
    let e : suc (m + n) ≡ suc m + n = omega arith in
    ap (λ (l : List ℕ). x ∷ l) (take-add m n xs) ∙ ap (λ (k : ℕ). take k (x ∷ xs)) e

pub go_on-ok :
    {A B : Type 0} (r : Outcome A) (a : A) (k : ExfatFileWriter → Outcome B)
    → r.1 ≡ ok a
    → go_on r k ≡ k r.0
go_on-ok (w, ok x) a k is = refl
go_on-ok (w, err e) a k is = cc

module _ (g : Geometry) (valid : IsGeometry g) (first total : ℕ) (clusters : List ℕ)
    (writable : IsWritable g clusters total) where
  -- The buffer with a chunk more.
  filled :
      (content rest : List ℕ) (w : ExfatFileWriter)
      → Writing g valid first total clusters writable g.cluster_size content w
      → let chunk_size =
          min
            (min (g.cluster_size - length w.cluster_buffer) (length rest))
            (w.total_size - w.bytes_written) in
        Writing g valid first total clusters writable
          (g.cluster_size + 1)
          (content ++ take chunk_size rest)
          (record w {
            cluster_buffer = w.cluster_buffer ++ take chunk_size rest;
            bytes_written = w.bytes_written + chunk_size;
          })
  filled content rest w h =
      let chunk_size =
        min (min (g.cluster_size - length w.cluster_buffer) (length rest))
          (w.total_size - w.bytes_written) in
      let taken = length-take chunk_size rest in
      let longer = length-append content (take chunk_size rest) in
      let buffer = length-append w.cluster_buffer (take chunk_size rest) in
      record {
        done = h.done;
        todo = h.todo;
        stored = h.stored;
        split = h.split;
        allocated = h.allocated;
        size = h.size;
        index = h.index;
        parts =
            ap (λ (l : List ℕ). l ++ take chunk_size rest) h.parts
            ∙ append_assoc h.stored w.cluster_buffer (take chunk_size rest);
        written = omega (arith, h.written, longer, taken);
        in_size = omega (arith, h.written, h.size, h.in_size, longer, taken);
        full = h.full;
        holds = h.holds;
        space = omega (arith, buffer, taken, h.space);
        keeps = h.keeps;
      }

  nothing_more :
      (content rest : List ℕ) (k data_offset : ℕ) (w : ExfatFileWriter)
      → k ≡ 0
      → Writing g valid first total clusters writable g.cluster_size content w
      → (ok data_offset ≡ ok (data_offset + k))
        × Writing g valid first total clusters writable g.cluster_size (content ++ take k rest) w
  nothing_more content rest k data_offset w nothing h =
      let same : data_offset ≡ data_offset + 0 = omega arith in
      rw nothing (
        ap (λ (n : ℕ). ok n) same,
        subst (λ (l : List ℕ). Writing g valid first total clusters writable g.cluster_size l w)
            (sym (append-nil content)) h,
      )

  pub write_loop-Writing :
      (n data_offset : ℕ) (rest content : List ℕ) (w : ExfatFileWriter)
      → length rest ≤ n
      → Writing g valid first total clusters writable g.cluster_size content w
      → let k = min (length rest) (total - length content) in
        ((write_loop g n data_offset rest w).1 ≡ ok (data_offset + k))
        × Writing g valid first total clusters writable g.cluster_size
            (content ++ take k rest)
            (write_loop g n data_offset rest w).0
  unfolding write_loop
  write_loop-Writing zero data_offset rest content w fuel h =
      nothing_more content rest (min (length rest) (total - length content)) data_offset w
        (omega arith) h
  write_loop-Writing (suc n) data_offset rest content w fuel h =
      let chunk_size =
        min (min (g.cluster_size - length w.cluster_buffer) (length rest))
          (w.total_size - w.bytes_written) in
      elim (Bool-cases (ltb 0 (length rest) && ltb w.bytes_written w.total_size)) [
        | inr stop ↦ rw stop (
            nothing_more content rest (min (length rest) (total - length content)) data_offset w
              (ground (arith, stop, h.written, h.size)) h)
        | inl more ↦
            let (some_data, room) =
              &&→both (ltb 0 (length rest)) (ltb w.bytes_written w.total_size) more in
            let one : 1 ≤ chunk_size = ground (arith, some_data, room, h.space) in
            let w₁ : ExfatFileWriter = record w {
              cluster_buffer = w.cluster_buffer ++ take chunk_size rest;
              bytes_written = w.bytes_written + chunk_size;
            } in
            let (done, h₂) =
              write_full-Writing g valid first total clusters writable
                (content ++ take chunk_size rest) w₁ (filled content rest w h) in
            let shorter = length-drop chunk_size rest in
            let longer = length-append content (take chunk_size rest) in
            let taken = length-take chunk_size rest in
            let k' =
              min (length (drop chunk_size rest))
                (total - length (content ++ take chunk_size rest)) in
            let (count, h₃) =
              write_loop-Writing n (data_offset + chunk_size) (drop chunk_size rest)
                (content ++ take chunk_size rest) (write_full g w₁).0
                (omega (arith, shorter, one, fuel)) h₂ in
            let sum : chunk_size + k' ≡ min (length rest) (total - length content) =
              omega (arith, shorter, longer, taken, h.written, h.size) in
            let all : (content ++ take chunk_size rest) ++ take k' (drop chunk_size rest)
                ≡ content ++ take (min (length rest) (total - length content)) rest =
              append_assoc content (take chunk_size rest) (take k' (drop chunk_size rest))
              ∙ ap (λ (l : List ℕ). content ++ l) (take-add chunk_size k' rest)
              ∙ ap (λ (j : ℕ). content ++ take j rest) sum in
            let offset : data_offset + chunk_size + k'
                ≡ data_offset + min (length rest) (total - length content) =
              omega (arith, sum) in
            rw
              (
                more,
                go_on-ok (write_full g w₁) tt
                    (write_loop g n (data_offset + chunk_size) (drop chunk_size rest)) done,
              )
              (
                count ∙ ap (λ (j : ℕ). ok j) offset,
                subst
                    (λ (l : List ℕ).
                      Writing g valid first total clusters writable g.cluster_size l
                        (write_loop g n (data_offset + chunk_size) (drop chunk_size rest)
                          (write_full g w₁).0).0)
                    all h₃,
              )
      ]
