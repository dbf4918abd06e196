-- ===== src/Ventoy/File/Stream.antt =====
-- The stream of a reader, buffer by buffer.
use one_kvm_stream_box.Base.{
  ℕ, ◌+◌, ◌-◌, ◌≤◌, min, ◌≡◌, refl, sym, List, [], ◌∷◌, ◌++◌, append-nil, append_assoc, arith,
  length, take, take-all, length-append,
}
use mathlib.Core.Path.{subst}
use one_kvm_stream_box.Ventoy.Exfat.{Geometry, ok}
use one_kvm_stream_box.Ventoy.Exfat.Disk.{IsGeometry}
use one_kvm_stream_box.Ventoy.Exfat.Allocation.Allocate.{}
use one_kvm_stream_box.Ventoy.File.{ExfatFileWriter, write, write_loop, do_stream_write}
use one_kvm_stream_box.Ventoy.File.Writing.{IsWritable, Writing}
use one_kvm_stream_box.Ventoy.File.Loop.{go_on-ok, write_loop-Writing}

-- The bytes that a reader gives until it gives none.
abbrev pub joined : List (List ℕ) → List ℕ
joined [] = []
joined ([] ∷ buffers) = []
joined ((b ∷ bytes) ∷ buffers) = (b ∷ bytes) ++ joined buffers

module _ (g : Geometry) (valid : IsGeometry g) (first total : ℕ) (clusters : List ℕ)
    (writable : IsWritable g clusters total) where
  pub do_stream_write-Writing :
      (buffers : List (List ℕ)) (content : List ℕ) (w : ExfatFileWriter)
      → length content + length (joined buffers) ≤ total
      → Writing g valid first total clusters writable g.cluster_size content w
      → ((do_stream_write g buffers w).1 ≡ ok tt)
        × Writing g valid first total clusters writable g.cluster_size
            (content ++ joined buffers)
            (do_stream_write g buffers w).0
  unfolding do_stream_write write
  do_stream_write-Writing [] content w fits h = (
    refl,
    subst (λ (l : List ℕ). Writing g valid first total clusters writable g.cluster_size l w)
        (sym (append-nil content)) h,
  )
  do_stream_write-Writing ([] ∷ buffers) content w fits h = (
    refl,
    subst (λ (l : List ℕ). Writing g valid first total clusters writable g.cluster_size l w)
        (sym (append-nil content)) h,
  )
  do_stream_write-Writing ((b ∷ bytes) ∷ buffers) content w fits h =
      let chunk : List ℕ = b ∷ bytes in
      let k = min (length chunk) (total - length content) in
      let longer = length-append chunk (joined buffers) in
      let all : k ≡ length chunk = omega (arith, fits, longer) in
      let (done, h₁) =
        write_loop-Writing g valid first total clusters writable (length chunk) 0 chunk content w
          (omega arith) h in
      let whole : take k chunk ≡ chunk = take-all k chunk (omega (arith, all)) in
      let h₂ =
        subst
          (λ (l : List ℕ).
            Writing g valid first total clusters writable g.cluster_size (content ++ l)
              (write_loop g (length chunk) 0 chunk w).0)
          whole h₁ in
      let both = length-append content chunk in
      let (done', h₃) =
        do_stream_write-Writing buffers (content ++ chunk) (write_loop g (length chunk) 0 chunk w).0
          (omega (arith, both, longer, fits)) h₂ in
      rw (go_on-ok (write_loop g (length chunk) 0 chunk w) (0 + k) (do_stream_write g buffers) done)
        (
          done',
          subst
              (λ (l : List ℕ).
                Writing g valid first total clusters writable g.cluster_size l
                  (do_stream_write g buffers (write_loop g (length chunk) 0 chunk w).0).0)
              (append_assoc content chunk (joined buffers)) h₃,
        )
