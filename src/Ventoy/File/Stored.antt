-- ===== src/Ventoy/File/Stored.antt =====
-- Bytes that are stored in a list of clusters, one cluster after the other.
use one_kvm_stream_box.Base.{
  ℕ, zero, suc, ◌-◌, ◌*◌, ◌≤◌, min, ◌≡◌, refl, sym, ap, ◌∙◌, inl, inr, List, [], ◌∷◌, ◌++◌, arith,
  leb, Bool-cases, length, take, drop, All, take-all, length-append, take-append-drop, length-drop,
  take-append_short, drop-append_short,
}
use one_kvm_stream_box.Ventoy.Image.{length-read_at}
use one_kvm_stream_box.Ventoy.Exfat.{Geometry, ExfatFs, read_cluster}
use one_kvm_stream_box.Ventoy.Exfat.Disk.{disk_cluster}
use one_kvm_stream_box.Ventoy.File.{read_data}

take-min : (n m : ℕ) (xs : List ℕ) → length xs ≡ m → take (min n m) xs ≡ take n xs
take-min n m xs h = elim (Bool-cases (leb n m)) [
  | inl small ↦ let e : min n m ≡ n = ground (arith, small) in rw e refl
  | inr large ↦
      let e : min n m ≡ m = ground (arith, large) in
      rw e (take-all m xs (omega (arith, h)) ∙ sym (take-all n xs (ground (arith, h, large))))
]

drop-all : (n : ℕ) (xs : List ℕ) → length xs ≤ n → drop n xs ≡ []
drop-all zero [] h = refl
drop-all (suc n) [] h = refl
drop-all zero (x ∷ xs) h = absurd (omega arith)
drop-all (suc n) (x ∷ xs) h = drop-all n xs (omega arith)

-- The clusters hold the content: each a cluster's size of it, in order, and the last what is left.
abbrev pub Holds : ℕ → (ℕ → List ℕ) → List ℕ → List ℕ → Type 0
Holds size disk [] content = content ≡ []
Holds size disk (c ∷ cs) content =
    (take (length content) (disk c) ≡ take size content) × Holds size disk cs (drop size content)

pub Holds-other :
    (size : ℕ) (disk disk' : ℕ → List ℕ) (cs content : List ℕ)
    → All (λ c. disk' c ≡ disk c) cs
    → Holds size disk cs content
    → Holds size disk' cs content
Holds-other size disk disk' [] content a h = h
Holds-other size disk disk' (c ∷ cs) content a h = (
  ap (take (length content)) a.0 ∙ h.0,
  Holds-other size disk disk' cs (drop size content) a.1 h.1,
)

Holds-nil : (size : ℕ) (disk : ℕ → List ℕ) (cs : List ℕ) → Holds size disk cs []
Holds-nil size disk [] = refl
Holds-nil size disk (c ∷ cs) = (
  sym (take-all size [] (omega arith)),
  rw (drop-all size [] (omega arith)) (Holds-nil size disk cs),
)

-- Behind full clusters, one that begins with the bytes that are left.
pub Holds-append :
    (size : ℕ) (disk : ℕ → List ℕ) (done : List ℕ) (c : ℕ) (cs stored buffer : List ℕ)
    → ((d : ℕ) → length (disk d) ≡ size)
    → length stored ≡ length done * size
    → length buffer ≤ size
    → Holds size disk done stored
    → take (length buffer) (disk c) ≡ buffer
    → Holds size disk (done ++ c ∷ cs) (stored ++ buffer)
Holds-append size disk [] c cs stored buffer width full fits h last = rw h (
  last ∙ sym (take-all size buffer fits),
  rw (drop-all size buffer fits) (Holds-nil size disk cs),
)
Holds-append size disk (d ∷ ds) c cs stored buffer width full fits h last =
    let long : size ≤ length stored = omega arith in
    let w = width d in
    let both = length-append stored buffer in
    let rest : length (drop size stored) ≡ length ds * size =
      omega (arith, length-drop size stored) in
    (
      take-all (length (stored ++ buffer)) (disk d) (omega (arith, w, both))
          ∙ sym (take-all (length stored) (disk d) (omega (arith, w)))
          ∙ h.0
          ∙ sym (take-append_short size stored buffer long),
      rw (drop-append_short size stored buffer long)
          (Holds-append size disk ds c cs (drop size stored) buffer width rest fits h.1 last),
    )

module _ (g : Geometry) (s : ExfatFs) where
  -- What is stored is read.
  pub read_data-Holds :
      (cs content : List ℕ)
      → Holds g.cluster_size (disk_cluster g s.image) cs content
      → read_data g (length content) cs s ≡ content
  unfolding read_data read_cluster disk_cluster
  read_data-Holds [] content h = sym h
  read_data-Holds (c ∷ cs) content h =
      let size = g.cluster_size in
      let left : length content - min (length content) size ≡ length (drop size content) =
        omega (arith, length-drop size content) in
      ap
        (λ (n : ℕ).
          take (min (length content) size) (disk_cluster g s.image c) ++ read_data g n cs s)
        left
      ∙ ap (λ (l : List ℕ). take (min (length content) size) (disk_cluster g s.image c) ++ l)
          (read_data-Holds cs (drop size content) h.1)
      ∙ ap (λ (l : List ℕ). l ++ drop size content)
          (take-min (length content) size (disk_cluster g s.image c) (length-read_at s.image _ size)
            ∙ h.0)
      ∙ take-append-drop size content
