-- ===== src/Hid/Report/Slots.antt =====
-- The key slots as a multiset: how often each code stands in them.
use one_kvm_stream_box.Base.{
  ℕ, suc, ◌+◌, ◌≤◌, ◌<◌, ◌≡◌, refl, ap, ◌≢◌, inl, inr, true, false, List, [], ◌∷◌, arith, leb, ◌==◌,
  if◌then◌else◌, Bool-cases, length, All,
}
use one_kvm_stream_box.Hid.Report.{fill_slot, free_slots, insert_descending, sort_descending}

abbrev pub count : ℕ → List ℕ → ℕ
count k [] = 0
count k (x ∷ xs) = (if x == k then 1 else 0) + count k xs

-- No key stands behind a free slot.
abbrev pub IsPacked : List ℕ → Type 0
IsPacked [] = Unit {0}
IsPacked (x ∷ xs) = (x ≡ 0 → All (λ y. y ≡ 0) xs) × IsPacked xs

abbrev pub IsDescending : List ℕ → Type 0
IsDescending [] = Unit {0}
IsDescending (x ∷ xs) = All (λ y. y ≤ x) xs × IsDescending xs

pub fill_slot-full : (key : ℕ) (ss : List ℕ) → count 0 ss ≡ 0 → fill_slot key ss ≡ (ss, false)
unfolding fill_slot
fill_slot-full key [] h = refl
fill_slot-full key (s ∷ ss) h = ground (arith, fill_slot-full key ss)

pub fill_slot-free : (key : ℕ) (ss : List ℕ) → 0 < count 0 ss → (fill_slot key ss).1 ≡ true
unfolding fill_slot
fill_slot-free key [] h = absurd (omega arith)
fill_slot-free key (s ∷ ss) h = ground (arith, fill_slot-free key ss)

-- One free slot becomes the key's.
pub count-fill_slot :
    (key j : ℕ) (ss : List ℕ)
    → 0 < count 0 ss
    → count j (fill_slot key ss).0 + (if 0 == j then 1 else 0)
      ≡ count j ss + (if key == j then 1 else 0)
unfolding fill_slot
count-fill_slot key j [] h = absurd (omega arith)
count-fill_slot key j (s ∷ ss) h = ground (arith, count-fill_slot key j ss)

pub length-fill_slot : (key : ℕ) (ss : List ℕ) → length (fill_slot key ss).0 ≡ length ss
unfolding fill_slot
length-fill_slot key [] = refl
length-fill_slot key (s ∷ ss) = ground (arith, length-fill_slot key ss)

pub fill_slot-IsPacked :
    (key : ℕ) (ss : List ℕ) → key ≢ 0 → IsPacked ss → IsPacked (fill_slot key ss).0
unfolding fill_slot
fill_slot-IsPacked key [] hk p = tt
fill_slot-IsPacked key (s ∷ ss) hk (z, p) = elim (Bool-cases (s == 0)) [
  | inl e ↦ rw e ((λ h. absurd (hk h)), p)
  | inr e ↦ rw e ((λ h. absurd (ground arith)), fill_slot-IsPacked key ss hk p)
]

pub fill_slot-All :
    (P : ℕ → Type 0) (key : ℕ) (ss : List ℕ) → P key → All P ss → All P (fill_slot key ss).0
unfolding fill_slot
fill_slot-All P key [] hk p = tt
fill_slot-All P key (s ∷ ss) hk (ps, pss) = elim (Bool-cases (s == 0)) [
  | inl e ↦ rw e (hk, pss)
  | inr e ↦ rw e (ps, fill_slot-All P key ss hk pss)
]

pub count-free_slots :
    (key j : ℕ) (ss : List ℕ)
    → key ≢ 0
    → count j (free_slots key ss)
      ≡ (if j == key then 0 else if j == 0 then count 0 ss + count key ss else count j ss)
unfolding free_slots
count-free_slots key j [] hk = ground arith
count-free_slots key j (s ∷ ss) hk = ground (arith, count-free_slots key j ss hk)

pub length-free_slots : (key : ℕ) (ss : List ℕ) → length (free_slots key ss) ≡ length ss
unfolding free_slots
length-free_slots key [] = refl
length-free_slots key (s ∷ ss) = ap suc (length-free_slots key ss)

free_slots-All :
    (P : ℕ → Type 0) (key : ℕ) (ss : List ℕ) → P 0 → All P ss → All P (free_slots key ss)
unfolding free_slots
free_slots-All P key [] z p = tt
free_slots-All P key (s ∷ ss) z (ps, pss) = elim (Bool-cases (s == key)) [
  | inl e ↦ rw e (z, free_slots-All P key ss z pss)
  | inr e ↦ rw e (ps, free_slots-All P key ss z pss)
]

count-insert : (j x : ℕ) (ys : List ℕ) → count j (insert_descending x ys) ≡ count j (x ∷ ys)
unfolding insert_descending
count-insert j x [] = refl
count-insert j x (y ∷ ys) = ground (arith, count-insert j x ys)

pub count-sort : (j : ℕ) (xs : List ℕ) → count j (sort_descending xs) ≡ count j xs
unfolding sort_descending
count-sort j [] = refl
count-sort j (x ∷ xs) = omega (arith, count-insert j x (sort_descending xs), count-sort j xs)

length-insert : (x : ℕ) (ys : List ℕ) → length (insert_descending x ys) ≡ suc (length ys)
unfolding insert_descending
length-insert x [] = refl
length-insert x (y ∷ ys) = ground (arith, length-insert x ys)

pub length-sort : (xs : List ℕ) → length (sort_descending xs) ≡ length xs
unfolding sort_descending
length-sort [] = refl
length-sort (x ∷ xs) = omega (arith, length-insert x (sort_descending xs), length-sort xs)

insert-All :
    (P : ℕ → Type 0) (x : ℕ) (ys : List ℕ) → P x → All P ys → All P (insert_descending x ys)
unfolding insert_descending
insert-All P x [] px p = (px, tt)
insert-All P x (y ∷ ys) px (py, pys) = elim (Bool-cases (leb y x)) [
  | inl e ↦ rw e (px, (py, pys))
  | inr e ↦ rw e (py, insert-All P x ys px pys)
]

All-le : (x y : ℕ) (ys : List ℕ) → y ≤ x → All (λ z. z ≤ y) ys → All (λ z. z ≤ x) ys
All-le x y [] h p = tt
All-le x y (z ∷ ys) h (pz, p) = (omega arith, All-le x y ys h p)

insert-IsDescending :
    (x : ℕ) (ys : List ℕ) → IsDescending ys → IsDescending (insert_descending x ys)
unfolding insert_descending
insert-IsDescending x [] d = (tt, tt)
insert-IsDescending x (y ∷ ys) (a, d) = elim (Bool-cases (leb y x)) [
  | inl e ↦ rw e ((ground arith, All-le x y ys (ground arith) a), (a, d))
  | inr e ↦ rw e (insert-All (λ z. z ≤ y) x ys (ground arith) a, insert-IsDescending x ys d)
]

pub sort-IsDescending : (xs : List ℕ) → IsDescending (sort_descending xs)
unfolding sort_descending
sort-IsDescending [] = tt
sort-IsDescending (x ∷ xs) = insert-IsDescending x (sort_descending xs) (sort-IsDescending xs)

sort-All : (P : ℕ → Type 0) (xs : List ℕ) → All P xs → All P (sort_descending xs)
unfolding sort_descending
sort-All P [] p = tt
sort-All P (x ∷ xs) (px, p) = insert-All P x (sort_descending xs) px (sort-All P xs p)

All-zero : (x : ℕ) (xs : List ℕ) → x ≡ 0 → All (λ y. y ≤ x) xs → All (λ y. y ≡ 0) xs
All-zero x [] e p = tt
All-zero x (y ∷ xs) e (py, p) = (omega arith, All-zero x xs e p)

pub IsDescending-IsPacked : (xs : List ℕ) → IsDescending xs → IsPacked xs
IsDescending-IsPacked [] d = tt
IsDescending-IsPacked (x ∷ xs) (a, d) = ((λ e. All-zero x xs e a), IsDescending-IsPacked xs d)

pub remove-All :
    (P : ℕ → Type 0) (key : ℕ) (ss : List ℕ)
    → P 0
    → All P ss
    → All P (sort_descending (free_slots key ss))
remove-All P key ss z p = sort-All P (free_slots key ss) (free_slots-All P key ss z p)
