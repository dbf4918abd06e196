-- ===== src/Hid/Event/ModifierByte.antt =====
-- The modifier byte: `to_hid_byte` and `from_hid_byte` of src/hid/types.rs are inverse.
use one_kvm_stream_box.Base.{
  ℕ, ◌<◌, ◌≡◌, refl, Bool, true, false, ◌&&◌, arith, ◌==◌, eqb, ==_iff, all_below, all_below_sound,
  both, both_sound,
}
use one_kvm_stream_box.Base.Bits.{bit_or-lt}
use one_kvm_stream_box.Hid.Event.{KeyboardModifiers, set_bit, to_hid_byte, from_hid_byte}

-- The test that reading the byte of eight flags gives the flags.
survives : Bool → Bool → Bool → Bool → Bool → Bool → Bool → Bool → Bool
survives a b c d e f g h =
    let r = from_hid_byte (
      to_hid_byte (record {
        left_ctrl = a;
        left_shift = b;
        left_alt = c;
        left_meta = d;
        right_ctrl = e;
        right_shift = f;
        right_alt = g;
        right_meta = h;
      })) in
    (eqb r.left_ctrl a && eqb r.left_shift b && eqb r.left_alt c && eqb r.left_meta d)
    && (eqb r.right_ctrl e && eqb r.right_shift f && eqb r.right_alt g && eqb r.right_meta h)

-- All 256 choices of the flags, by evaluation.
survives_table :
    both (λ a. both (λ b.
      both (λ c.
        both (λ d. both (λ e. both (λ f. both (λ g. both (λ h. survives a b c d e f g h))))))))
    ≡ true
unfolding survives to_hid_byte from_hid_byte
survives_table = refl

survives_always : (a b c d e f g h : Bool) → survives a b c d e f g h ≡ true
survives_always a b c d e f g h =
    both_sound (λ h. survives a b c d e f g h) h
      (both_sound (λ g. both (λ h. survives a b c d e f g h)) g
        (both_sound (λ f. both (λ g. both (λ h. survives a b c d e f g h))) f
          (both_sound (λ e. both (λ f. both (λ g. both (λ h. survives a b c d e f g h)))) e
            (both_sound
              (λ d. both (λ e. both (λ f. both (λ g. both (λ h. survives a b c d e f g h))))) d
              (both_sound
                (λ c.
                  both
                    (λ d. both (λ e. both (λ f. both (λ g. both (λ h. survives a b c d e f g h))))))
                c
                (both_sound
                  (λ b. both (λ c. both (λ d.
                    both (λ e. both (λ f. both (λ g. both (λ h. survives a b c d e f g h)))))))
                  b
                  (both_sound
                    (λ a. both (λ b. both (λ c. both (λ d.
                      both (λ e. both (λ f. both (λ g. both (λ h. survives a b c d e f g h))))))))
                    a survives_table)))))))

-- Every set of flags comes back from its byte.
pub from_hid_byte-to_hid_byte : (m : KeyboardModifiers) → from_hid_byte (to_hid_byte m) ≡ m
unfolding survives
from_hid_byte-to_hid_byte m = ground (
  arith,
  survives_always m.left_ctrl m.left_shift m.left_alt m.left_meta m.right_ctrl m.right_shift
      m.right_alt m.right_meta,
)

-- Every byte comes back from its flags.
pub to_hid_byte-from_hid_byte : (b : ℕ) → b < 256 → to_hid_byte (from_hid_byte b) ≡ b
to_hid_byte-from_hid_byte b h = (==_iff _ b).0 (all_below_sound 256 _ b byte_table h)
  where
    byte_table : all_below 256 (λ b. to_hid_byte (from_hid_byte b) == b) ≡ true
    byte_table = unfold all_below to_hid_byte from_hid_byte in refl

-- The two readings of the modifier byte are inverse: every set of flags comes back from its byte, and
-- every byte from its flags.
pub modifier_byte_inverse :
    (m : KeyboardModifiers) (b : ℕ)
    → b < 256
    → (from_hid_byte (to_hid_byte m) ≡ m) × (to_hid_byte (from_hid_byte b) ≡ b)
modifier_byte_inverse m b h = (from_hid_byte-to_hid_byte m, to_hid_byte-from_hid_byte b h)

set_bit-IsByte : (flag : Bool) (bit byte : ℕ) → bit < 256 → byte < 256 → set_bit flag bit byte < 256
set_bit-IsByte true bit byte h hb = bit_or-lt 8 byte bit hb h
set_bit-IsByte false bit byte h hb = hb

pub to_hid_byte-IsByte : (m : KeyboardModifiers) → to_hid_byte m < 256
unfolding to_hid_byte
to_hid_byte-IsByte m = set_bit-IsByte m.right_meta 0x80 _ (omega arith) (
    set_bit-IsByte m.right_alt 0x40 _ (omega arith) (
      set_bit-IsByte m.right_shift 0x20 _ (omega arith) (
        set_bit-IsByte m.right_ctrl 0x10 _ (omega arith) (
          set_bit-IsByte m.left_meta 0x08 _ (omega arith) (
            set_bit-IsByte m.left_alt 0x04 _ (omega arith) (
              set_bit-IsByte m.left_shift 0x02 _ (omega arith)
                (set_bit-IsByte m.left_ctrl 0x01 0 (omega arith) (omega arith))))))))
