-- ===== src/Ventoy/Format/Chains.antt =====
-- The chains that the entries of a fresh FAT make.
use one_kvm_stream_box.Base.{
  ℕ, zero, suc, ◌+◌, ◌≤◌, ◌<◌, ◌≡◌, refl, sym, ap, ◌∙◌, List, [], ◌∷◌, ◌++◌, arith, length, get_or,
}
use one_kvm_stream_box.Ventoy.Exfat.Chain.{Leads}
use one_kvm_stream_box.Ventoy.Format.{upcase_entries, fat_entries}
use one_kvm_stream_box.Ventoy.Format.Volume.{length-upcase_entries}

-- The clusters from one on, and the chain that the entries of the upcase table make of them.
abbrev pub run : ℕ → ℕ → List ℕ
run zero first = []
run (suc n) first = first ∷ run n (first + 1)

upcase_entries-Leads :
    (n m : ℕ) (fat : ℕ → ℕ)
    → 2 ≤ m
    → m + n < 0xFFFFFFF0
    → ((k : ℕ) → k ≤ n → fat (m + k) ≡ get_or (upcase_entries (suc n) m) k 0)
    → Leads fat m (run (suc n) m)
unfolding upcase_entries
upcase_entries-Leads zero m fat lo hi h =
    let e : m ≡ m + 0 = omega arith in
    let last = ap fat e ∙ h 0 (omega arith) in (refl, ground arith, rw last refl)
upcase_entries-Leads (suc n) m fat lo hi h =
    let e : m ≡ m + 0 = omega arith in
    let next = ap fat e ∙ h 0 (omega arith) in
    let rest = upcase_entries-Leads n (m + 1) fat (omega arith) (omega arith) (λ k small.
      let at : m + 1 + k ≡ m + suc k = omega arith in ap fat at ∙ h (suc k) (omega arith)) in
    (refl, ground arith, rw next rest)

get_or-front : (xs ys : List ℕ) (k : ℕ) → k < length xs → get_or (xs ++ ys) k 0 ≡ get_or xs k 0
get_or-front [] ys k h = absurd (omega arith)
get_or-front (x ∷ xs) ys zero h = refl
get_or-front (x ∷ xs) ys (suc k) h = get_or-front xs ys k (omega arith)

get_or-last : (xs : List ℕ) (y : ℕ) → get_or (xs ++ y ∷ []) (length xs) 0 ≡ y
get_or-last [] y = refl
get_or-last (x ∷ xs) y = get_or-last xs y

second : (upcase : ℕ) → get_or (fat_entries upcase) 2 0 ≡ 0xFFFFFFFF
unfolding fat_entries
second upcase = refl

behind_three :
    (upcase k : ℕ)
    → get_or (fat_entries upcase) (3 + k) 0
      ≡ get_or (upcase_entries upcase 3 ++ 0xFFFFFFFF ∷ []) k 0
unfolding fat_entries
behind_three upcase k =
    let e : 3 + k ≡ suc (suc (suc k)) = omega arith in
    ap (λ (n : ℕ). get_or (fat_entries upcase) n 0) e

fat_entries-root : (upcase : ℕ) → get_or (fat_entries upcase) (3 + upcase) 0 ≡ 0xFFFFFFFF
fat_entries-root upcase =
    let size = length-upcase_entries upcase 3 in
    behind_three upcase upcase
    ∙ ap (λ (k : ℕ). get_or (upcase_entries upcase 3 ++ 0xFFFFFFFF ∷ []) k 0) (sym size)
    ∙ get_or-last (upcase_entries upcase 3) 0xFFFFFFFF

fat_entries-upcase :
    (upcase k : ℕ)
    → k < upcase
    → get_or (fat_entries upcase) (3 + k) 0 ≡ get_or (upcase_entries upcase 3) k 0
fat_entries-upcase upcase k h =
    behind_three upcase k
    ∙ get_or-front (upcase_entries upcase 3) (0xFFFFFFFF ∷ []) k
        (omega (arith, length-upcase_entries upcase 3))

-- The three chains of a FAT that begins like that of a fresh volume: the bitmap, the upcase table and
-- the root directory.
abbrev pub HasChains : (ℕ → ℕ) → ℕ → Type 0
HasChains fat upcase =
    Leads fat 2 (2 ∷ []) × Leads fat 3 (run upcase 3) × Leads fat (3 + upcase) ((3 + upcase) ∷ [])

pub fat_entries-HasChains :
    (fat : ℕ → ℕ) (upcase : ℕ)
    → 1 ≤ upcase
    → upcase ≤ 32
    → ((c : ℕ) → c < upcase + 4 → fat c ≡ get_or (fat_entries upcase) c 0)
    → HasChains fat upcase
fat_entries-HasChains fat zero lo hi h = absurd (omega arith)
fat_entries-HasChains fat (suc n) lo hi h =
    let two : fat 2 ≡ 0xFFFFFFFF = h 2 (omega arith) ∙ second (suc n) in
    let root = h (3 + suc n) (omega arith) ∙ fat_entries-root (suc n) in
    (
      (refl, refl, rw two refl),
      upcase_entries-Leads n 3 fat (omega arith) (omega arith)
          (λ k small. h (3 + k) (omega arith) ∙ fat_entries-upcase (suc n) k (omega arith)),
      (refl, ground arith, rw root refl),
    )
