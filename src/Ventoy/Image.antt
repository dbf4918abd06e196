-- ===== src/Ventoy/Image.antt =====
-- The image file: a byte at each offset. `File` of the standard library is read and written through
-- `seek`, `read_exact` and `write_all`; the file holds the whole image, so that they do not fail.
use one_kvm_stream_box.Base.{
  ℕ, zero, suc, ◌+◌, ◌≤◌, ◌<◌, ◌≡◌, refl, ap, ◌∙◌, ◌⊎◌, inl, inr, List, [], ◌∷◌, ◌++◌, arith, ◌==◌,
  if◌then◌else◌, length,
}

abbrev pub Image : Type 0
Image = ℕ → ℕ

unfoldable pub read_at : Image → ℕ → ℕ → List ℕ
read_at image offset zero = []
read_at image offset (suc n) = image offset ∷ read_at image (offset + 1) n

abbrev pub put_byte : Image → ℕ → ℕ → Image
put_byte image offset b = λ a. if a == offset then b else image a

unfoldable pub write_at : Image → ℕ → List ℕ → Image
write_at image offset [] = image
write_at image offset (b ∷ bytes) = write_at (put_byte image offset b) (offset + 1) bytes

pub length-read_at : (image : Image) (offset n : ℕ) → length (read_at image offset n) ≡ n
unfolding read_at
length-read_at image offset zero = refl
length-read_at image offset (suc n) = ap suc (length-read_at image (offset + 1) n)

write_at-outside :
    (bytes : List ℕ) (image : Image) (offset a : ℕ)
    → (a < offset) ⊎ (offset + length bytes ≤ a)
    → write_at image offset bytes a ≡ image a
unfolding write_at
write_at-outside [] image offset a h = refl
write_at-outside (b ∷ bytes) image offset a (inl before) =
    write_at-outside bytes (put_byte image offset b) (offset + 1) a (inl (omega arith))
    ∙ ground arith
write_at-outside (b ∷ bytes) image offset a (inr behind) =
    write_at-outside bytes (put_byte image offset b) (offset + 1) a (inr (omega arith))
    ∙ ground arith

read_at-same :
    (n : ℕ) (image image' : Image) (offset : ℕ)
    → ((a : ℕ) → offset ≤ a → a < offset + n → image a ≡ image' a)
    → read_at image offset n ≡ read_at image' offset n
unfolding read_at
read_at-same zero image image' offset h = refl
read_at-same (suc n) image image' offset h =
    let rest =
      read_at-same n image image' (offset + 1) (λ a lo hi. h a (omega arith) (omega arith)) in
    ap (λ (b : ℕ). b ∷ read_at image (offset + 1) n) (h offset (omega arith) (omega arith))
    ∙ ap (λ (l : List ℕ). image' offset ∷ l) rest

-- What is written is read again,
pub read_at-write_at :
    (bytes : List ℕ) (image : Image) (offset : ℕ)
    → read_at (write_at image offset bytes) offset (length bytes) ≡ bytes
unfolding read_at write_at
read_at-write_at [] image offset = refl
read_at-write_at (b ∷ bytes) image offset =
    let first =
      write_at-outside bytes (put_byte image offset b) (offset + 1) offset (inl (omega arith)) in
    let here : put_byte image offset b offset ≡ b = ground arith in
    ap
      (λ (x : ℕ).
        x
        ∷ read_at (write_at (put_byte image offset b) (offset + 1) bytes) (offset + 1)
            (length bytes))
      (first ∙ here)
    ∙ ap (λ (l : List ℕ). b ∷ l) (read_at-write_at bytes (put_byte image offset b) (offset + 1))

-- and bytes outside of what is written are as they were.
pub read_at-write_at_outside :
    (bytes : List ℕ) (image : Image) (at offset n : ℕ)
    → (offset + n ≤ at) ⊎ (at + length bytes ≤ offset)
    → read_at (write_at image at bytes) offset n ≡ read_at image offset n
read_at-write_at_outside bytes image at offset n (inl before) =
    read_at-same n _ image offset (λ a lo hi. write_at-outside bytes image at a (inl (omega arith)))
read_at-write_at_outside bytes image at offset n (inr behind) =
    read_at-same n _ image offset (λ a lo hi. write_at-outside bytes image at a (inr (omega arith)))

pub write_at-append :
    (xs ys : List ℕ) (image : Image) (offset : ℕ)
    → write_at (write_at image offset xs) (offset + length xs) ys ≡ write_at image offset (xs ++ ys)
unfolding write_at
write_at-append [] ys image offset =
    let e : offset + 0 ≡ offset = omega arith in ap (λ (k : ℕ). write_at image k ys) e
write_at-append (x ∷ xs) ys image offset =
    let e : offset + suc (length xs) ≡ (offset + 1) + length xs = omega arith in
    ap (λ (k : ℕ). write_at (write_at (put_byte image offset x) (offset + 1) xs) k ys) e
    ∙ write_at-append xs ys (put_byte image offset x) (offset + 1)
