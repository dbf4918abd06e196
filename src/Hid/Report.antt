-- ===== src/Hid/Report.antt =====
-- src/hid/types.rs: the reports that go to the USB host. The array `[u8; 6]` is a list.
-- The source sorts by `sort_by` of the standard library; here it is an insertion sort, which gives
-- the same list, since equal numbers cannot be told apart.
pub mod Slots
pub mod Keys
mod Examples
use one_kvm_stream_box.Base.{
  ℕ, ◌/◌, Bool, true, false, List, [], ◌∷◌, map, bit_and, leb, ◌==◌, if◌then◌else◌, get_or,
  replicate, u8,
}
use one_kvm_stream_box.Base.Int.{ℤ, pos, wrap}

pub record KeyboardReport : Type 0 where
  pub modifiers : ℕ
  pub reserved : ℕ
  pub keys : List ℕ

abbrev pub empty_report : KeyboardReport
empty_report = record { modifiers = 0; reserved = 0; keys = replicate 6 0 }

unfoldable pub to_bytes : KeyboardReport → List ℕ
to_bytes r =
    r.modifiers
    ∷ r.reserved
    ∷ get_or r.keys 0 0
    ∷ get_or r.keys 1 0
    ∷ get_or r.keys 2 0
    ∷ get_or r.keys 3 0
    ∷ get_or r.keys 4 0
    ∷ get_or r.keys 5 0
    ∷ []

-- The loop of `add_key`: the first slot that is 0 takes the key.
unfoldable pub fill_slot : ℕ → List ℕ → List ℕ × Bool
fill_slot key [] = ([], false)
fill_slot key (slot ∷ slots) =
    let (rest, done) = fill_slot key slots in
    if slot == 0 then (key ∷ slots, true) else (slot ∷ rest, done)

unfoldable pub add_key : KeyboardReport → ℕ → KeyboardReport × Bool
add_key r key = let (keys, done) = fill_slot key r.keys in (record r { keys = keys }, done)

-- The loop of `remove_key`.
unfoldable pub free_slots : ℕ → List ℕ → List ℕ
free_slots key = map (λ slot. if slot == key then 0 else slot)

-- `sort_by(|a, b| b.cmp(a))`
unfoldable pub insert_descending : ℕ → List ℕ → List ℕ
insert_descending x [] = x ∷ []
insert_descending x (y ∷ ys) =
    let rest = insert_descending x ys in if leb y x then x ∷ y ∷ ys else y ∷ rest

unfoldable pub sort_descending : List ℕ → List ℕ
sort_descending [] = []
sort_descending (x ∷ xs) = insert_descending x (sort_descending xs)

unfoldable pub remove_key : KeyboardReport → ℕ → KeyboardReport
remove_key r key = record r { keys = sort_descending (free_slots key r.keys) }

-- `reserved` is kept, as in the source.
unfoldable pub clear : KeyboardReport → KeyboardReport
clear r = record r { modifiers = 0; keys = replicate 6 0 }

pub record MouseReport : Type 0 where
  pub buttons : ℕ
  pub x : ℤ  -- i8
  pub y : ℤ  -- i8
  pub wheel : ℤ  -- i8

unfoldable pub to_bytes_relative : MouseReport → List ℕ
to_bytes_relative r = r.buttons ∷ wrap 256 r.x ∷ wrap 256 r.y ∷ wrap 256 r.wheel ∷ []

unfoldable pub to_bytes_absolute : MouseReport → ℕ → ℕ → List ℕ
to_bytes_absolute r x y =
    r.buttons
    ∷ u8 (bit_and x 0xFF)
    ∷ u8 (x / 256)
    ∷ u8 (bit_and y 0xFF)
    ∷ u8 (y / 256)
    ∷ wrap 256 r.wheel
    ∷ []
