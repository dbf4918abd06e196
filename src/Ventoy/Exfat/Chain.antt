-- ===== src/Ventoy/Exfat/Chain.antt =====
-- `read_cluster_chain` follows the chain that the FAT on the disk holds, and ends on any FAT.
use one_kvm_stream_box.Base.{
  ℕ, zero, suc, ◌+◌, ◌≤◌, ◌<◌, ◌≡◌, refl, sym, ◌∙◌, true, false, List, [], ◌∷◌, arith, length, All,
}
use mathlib.Core.Path.{subst}
use one_kvm_stream_box.Ventoy.Image.{Image}
use one_kvm_stream_box.Ventoy.Exfat.{
  Geometry, ExfatFs, FsResult, ok, err, ExfatError, chain_too_long, Call, and_then, in_chain,
  read_fat_entry, chain_from, read_cluster_chain,
}
use one_kvm_stream_box.Ventoy.Exfat.Disk.{IsGeometry, disk_fat}
use one_kvm_stream_box.Ventoy.Exfat.Cache.{IsCoherent, Reads, read_fat_entry-Reads}

-- The entries lead from the first cluster through just these, and then to no cluster.
abbrev pub Leads : (ℕ → ℕ) → ℕ → List ℕ → Type 0
Leads fat first [] = in_chain first ≡ false
Leads fat first (c ∷ cs) = (first ≡ c) × (in_chain c ≡ true) × Leads fat (fat c) cs

-- The entries lead on for more clusters than the number says.
abbrev pub LeadsOn : (ℕ → ℕ) → ℕ → ℕ → ℕ → Type 0
LeadsOn fat bound zero first = (in_chain first ≡ true) × (first < bound)
LeadsOn fat bound (suc n) first =
    (in_chain first ≡ true) × (first < bound) × LeadsOn fat bound n (fat first)

module _ (g : Geometry) (valid : IsGeometry g) where
  -- What holds of a call that goes on from what another has read.
  pub Reads-elim :
      {A B : Type 0} (P : ExfatFs × FsResult B → Type 0) (s : ExfatFs) (r : ExfatFs × FsResult A)
      (a : A) (k : A → Call B)
      → Reads g valid s r a
      → ((s' : ExfatFs) → s'.image ≡ s.image → IsCoherent g s' → P (k a s'))
      → P (and_then r k)
  Reads-elim P s (s', err e) a k (is, same, coherent) next = cc
  Reads-elim P s (s', ok x) a k (is, same, coherent) next =
      let e : x ≡ a = cc in subst (λ y. P (k y s')) (sym e) (next s' same coherent)

  -- A call that reads, and then a call on what it has read.
  pub Reads-bind :
      {A B : Type 0} (s : ExfatFs) (r : ExfatFs × FsResult A) (a : A) (k : A → Call B) (b : B)
      → Reads g valid s r a
      → ((s' : ExfatFs) → s'.image ≡ s.image → IsCoherent g s' → Reads g valid s' (k a s') b)
      → Reads g valid s (and_then r k) b
  Reads-bind s (s', err e) a k b (is, same, coherent) next = cc
  Reads-bind {A} {B} s (s', ok x) a k b (is, same, coherent) next =
      let e : x ≡ a = cc in
      let (done, kept, coherent') = next s' same coherent in
      subst (λ (y : A). Reads g valid s (k y s') b) (sym e) (done, kept ∙ same, coherent')

  Leads-image :
      (cs : List ℕ) (image image' : Image) (first : ℕ)
      → image' ≡ image
      → Leads (disk_fat g image) first cs
      → Leads (disk_fat g image') first cs
  Leads-image cs image image' first e h =
      subst (λ (i : Image). Leads (disk_fat g i) first cs) (sym e) h

  chain_from-Reads :
      (n : ℕ) (cs : List ℕ) (s : ExfatFs) (first : ℕ)
      → IsCoherent g s
      → Leads (disk_fat g s.image) first cs
      → All (λ c. c < g.cluster_count + 2) cs
      → length cs ≤ n
      → Reads g valid s (chain_from g n first s) cs
  unfolding chain_from
  chain_from-Reads zero [] s first h l a len = rw l (refl, refl, h)
  chain_from-Reads (suc n) [] s first h l a len = rw l (refl, refl, h)
  chain_from-Reads zero (c ∷ cs) s first h l a len = absurd (omega arith)
  chain_from-Reads (suc n) (c ∷ cs) s first h (e, is, l) a len =
      rw (e, is)
        (Reads-bind s (read_fat_entry g c s) (disk_fat g s.image c) _ (c ∷ cs)
          (read_fat_entry-Reads g valid s c a.0 h)
          (λ s' same h'.
            Reads-bind s' (chain_from g n (disk_fat g s.image c) s') cs _ (c ∷ cs)
              (chain_from-Reads n cs s' (disk_fat g s.image c) h'
                (Leads-image cs s.image s'.image (disk_fat g s.image c) same l) a.1 (omega arith))
              (λ s'' same' h''. (refl, refl, h''))))

  -- From coherent caches, a chain of clusters on the disk, no longer than the volume has clusters, is
  -- what `read_cluster_chain` returns, however much of it the cache holds; the disk is not changed, and
  -- the caches are coherent after it.
  pub read_cluster_chain-Reads :
      (cs : List ℕ) (s : ExfatFs) (first : ℕ)
      → IsCoherent g s
      → Leads (disk_fat g s.image) first cs
      → All (λ c. c < g.cluster_count + 2) cs
      → length cs ≤ g.cluster_count
      → Reads g valid s (read_cluster_chain g first s) cs
  unfolding read_cluster_chain
  read_cluster_chain-Reads cs s first h l a len =
      chain_from-Reads g.cluster_count cs s first h l a len

  err-then :
      {A B : Type 0} (r : ExfatFs × FsResult A) (k : A → Call B) (e : ExfatError)
      → r.1 ≡ err e
      → (and_then r k).1 ≡ err e
  err-then (s', err e') k e is = cc
  err-then (s', ok x) k e is = cc

  chain_from_endless :
      (n : ℕ) (s : ExfatFs) (first : ℕ)
      → IsCoherent g s
      → LeadsOn (disk_fat g s.image) (g.cluster_count + 2) n first
      → (chain_from g n first s).1 ≡ err chain_too_long
  unfolding chain_from
  chain_from_endless zero s first h (is, lt) = rw is (
      Reads-elim (λ r. r.1 ≡ err chain_too_long) s (read_fat_entry g first s)
        (disk_fat g s.image first) _ (read_fat_entry-Reads g valid s first lt h)
        (λ s' same h'. refl))
  chain_from_endless (suc n) s first h (is, lt, l) =
      let next = disk_fat g s.image first in
      rw is (
        Reads-elim (λ r. r.1 ≡ err chain_too_long) s (read_fat_entry g first s) next _
          (read_fat_entry-Reads g valid s first lt h)
          (λ s' same h'. err-then (chain_from g n next s') _ chain_too_long (
            chain_from_endless n s' next h' (
              subst (λ (i : Image). LeadsOn (disk_fat g i) (g.cluster_count + 2) n next) (sym same)
                l))))

  -- Where the entries on the disk lead on for more clusters than the volume has, as on a cycle,
  -- `read_cluster_chain` ends, with the error that the chain is too long.
  pub read_cluster_chain_endless :
      (s : ExfatFs) (first : ℕ)
      → IsCoherent g s
      → LeadsOn (disk_fat g s.image) (g.cluster_count + 2) g.cluster_count first
      → (read_cluster_chain g first s).1 ≡ err chain_too_long
  unfolding read_cluster_chain
  read_cluster_chain_endless s first h l = chain_from_endless g.cluster_count s first h l
