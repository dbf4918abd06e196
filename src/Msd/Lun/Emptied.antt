-- ===== src/Msd/Lun/Emptied.antt =====
-- When a LUN has no image: where a set-up fails, where the file of the image is gone, and behind a
-- disconnection.
use one_kvm_stream_box.Base.{
  ℕ, zero, suc, ◌≡◌, refl, ap, ◌∙◌, ◌≢◌, ◌⊎◌, inl, inr, Bool, true, false, ◌&&◌, Option, none, some,
  ltb, Bool-cases, Option-cases,
}
use Prim.Native.String.{String}
use one_kvm_stream_box.Msd.Lun.{
  Attribute, cdrom, ro, removable, nofua, file, forced_eject, Configfs, or_empty, MsdLunConfig,
  and_then, value, ensure_dir, eject, write_changed, is_busy, mount, mount_file, set_up,
  configure_lun, clear_file, eject_or_clear, disconnect_lun,
}
use one_kvm_stream_box.Msd.Lun.Mounted.{IsDocumented, write_changed-other}

module _ (c : Configfs) (k : IsDocumented c) where
  open c use {State, is_dir, create_dir, has_file, read, write, trim}

  -- The LUN has no image.
  abbrev pub IsEmpty : State → Type 0
  IsEmpty s = value c file s ≡ ""

  abbrev KeepsEmpty : (State → State × Option String) → Type 0
  KeepsEmpty m = (s : State) → IsEmpty s → IsEmpty (m s).0

  -- A step that keeps the LUN empty under a condition on its result.
  abbrev KeepsUnder : (Option String → Type 0) → (State → State × Option String) → Type 0
  KeepsUnder R m = (s : State) → IsEmpty s → R (m s).1 → IsEmpty (m s).0

  and_then-KeepsUnder :
      (R : Option String → Type 0) (m n : State → State × Option String)
      → KeepsEmpty m
      → KeepsUnder R n
      → KeepsUnder R (and_then c m n)
  and_then-KeepsUnder R m n hm hn s empty = elim (Option-cases (m s).1) [
    | inl e ↦ rw (and_then, e) (hn (m s).0 (hm s empty))
    | inr (x, e) ↦ rw (and_then, e) (λ r. hm s empty)
  ]

  ensure_dir-KeepsEmpty : KeepsEmpty (ensure_dir c)
  unfolding ensure_dir
  ensure_dir-KeepsEmpty s empty = elim (Bool-cases (is_dir s)) [
    | inl there ↦ rw there empty
    | inr missing ↦ rw missing (k.new_dir s ∙ empty)
  ]

  -- A write of no image, whether it succeeds or not.
  write-IsEmpty : (s : State) → IsEmpty s → IsEmpty (write file "" s).0
  write-IsEmpty s empty = elim (Option-cases (write file "" s).1) [
    | inl ok ↦ k.write_read file "" s (λ e. cc) (λ e. cc) ok ∙ k.trim_empty
    | inr (x, fails) ↦ k.write_fails file file "" x s (λ e. cc) fails ∙ empty
  ]

  write_eject-IsEmpty : (s : State) → IsEmpty s → IsEmpty (write forced_eject "1" s).0
  write_eject-IsEmpty s empty = elim (Option-cases (write forced_eject "1" s).1) [
    | inl ok ↦ k.ejects "1" s ok
    | inr (x, fails) ↦ k.write_fails forced_eject file "1" x s (λ e. cc) fails ∙ empty
  ]

  eject-IsEmpty : (s : State) → IsEmpty s → IsEmpty (eject c s)
  unfolding eject
  eject-IsEmpty s empty = elim (Bool-cases (has_file forced_eject s)) [
    | inl there ↦ rw there (write_eject-IsEmpty s empty)
    | inr missing ↦ rw missing (write-IsEmpty s empty)
  ]

  flag-KeepsEmpty :
      (a : Attribute) (current : String) (v : Bool)
      → a ≢ forced_eject
      → a ≢ file
      → KeepsEmpty (write_changed c a current v)
  flag-KeepsEmpty a current v one two s empty =
      write_changed-other c k a file current v s one two (λ e. cc) ∙ empty

  mount-fails :
      (n : ℕ) (last : Option String) (path : String)
      → KeepsUnder (λ r. r ≢ none) (mount c n last path)
  unfolding mount
  mount-fails zero last path s empty = λ fails. empty
  mount-fails (suc n) last path s empty = elim (Option-cases (write file path s).1) [
    | inl ok ↦ rw (mount, ok) (λ fails. absurd (fails refl))
    | inr (x, e) ↦
        let same = k.write_fails file file path x s (λ e. cc) e ∙ empty in
        elim (Bool-cases (is_busy c x && ltb 0 n)) [
          | inl again ↦
              rw (mount, e, again) (mount-fails n (some x) path (write file path s).0 same)
          | inr stop ↦ rw (mount, e, stop) (λ fails. same)
        ]
  ]

  -- The file of the image is gone, or the set-up fails.
  abbrev pub IsWithout : Bool → Option String → Type 0
  IsWithout exists r = (exists ≡ false) ⊎ (r ≢ none)

  mount_file-KeepsUnder :
      (exists : Bool) (path : String) → KeepsUnder (IsWithout exists) (mount_file c exists path)
  unfolding mount_file
  mount_file-KeepsUnder false path s empty without = empty
  mount_file-KeepsUnder true path s empty (inl gone) = cc
  mount_file-KeepsUnder true path s empty (inr fails) = mount-fails 5 none path s empty fails

  set_up-KeepsUnder :
      (exists : Bool) (config : MsdLunConfig)
      → KeepsUnder (IsWithout exists) (set_up c exists config)
  unfolding set_up
  set_up-KeepsUnder exists config s empty =
      let R = IsWithout exists in
      let one = write_changed c cdrom (value c cdrom s) config.cdrom in
      let two = write_changed c ro (value c ro s) config.ro in
      let three = write_changed c removable (value c removable s) config.removable in
      let four = write_changed c nofua (value c nofua s) config.nofua in
      let five = mount_file c exists config.file in
      let after_three = and_then c four five in
      let after_two = and_then c three after_three in
      and_then-KeepsUnder R one (and_then c two after_two)
        (flag-KeepsEmpty cdrom _ config.cdrom (λ e. cc) (λ e. cc))
        (and_then-KeepsUnder R two after_two (flag-KeepsEmpty ro _ config.ro (λ e. cc) (λ e. cc)) (
          and_then-KeepsUnder R three after_three
            (flag-KeepsEmpty removable _ config.removable (λ e. cc) (λ e. cc))
            (and_then-KeepsUnder R four five
              (flag-KeepsEmpty nofua _ config.nofua (λ e. cc) (λ e. cc))
              (mount_file-KeepsUnder exists config.file))))
        (eject c s) (eject-IsEmpty s empty)

  pub configure_lun-IsEmpty :
      (exists : Bool) (config : MsdLunConfig)
      → KeepsUnder (IsWithout exists) (configure_lun c exists config)
  unfolding configure_lun
  configure_lun-IsEmpty exists config =
      and_then-KeepsUnder (IsWithout exists) (ensure_dir c) (set_up c exists config)
        ensure_dir-KeepsEmpty (set_up-KeepsUnder exists config)

  -- `disconnect_lun`, by its result.
  abbrev pub Disconnected : State → State × Option String → Type 0
  Disconnected s (s', none) = IsEmpty s'
  Disconnected s (s', some e) = value c file s' ≡ value c file s

  clear_file-Disconnected : (s : State) → Disconnected s (clear_file c s)
  unfolding clear_file
  clear_file-Disconnected s = go (write file "" s).1 refl
    where
      go : (r : Option String) → (write file "" s).1 ≡ r → Disconnected s (write file "" s)
      go none ok = rw ok (k.write_read file "" s (λ e. cc) (λ e. cc) ok ∙ k.trim_empty)
      go (some x) fails = rw fails (k.write_fails file file "" x s (λ e. cc) fails)

  eject_or_clear-Disconnected : (s : State) → Disconnected s (eject_or_clear c s)
  unfolding eject_or_clear
  eject_or_clear-Disconnected s = elim (Option-cases (write forced_eject "1" s).1) [
    | inl ok ↦ rw (eject_or_clear, ok) (k.ejects "1" s ok)
    | inr (x, fails) ↦
        let same = k.write_fails forced_eject file "1" x s (λ e. cc) fails in
        rw (eject_or_clear, fails)
          (onto (write forced_eject "1" s).0 same (clear_file c (write forced_eject "1" s).0)
            (clear_file-Disconnected (write forced_eject "1" s).0))
  ]
    where
      onto :
          (s' : State)
          → value c file s' ≡ value c file s
          → (r : State × Option String) → Disconnected s' r
          → Disconnected s r
      onto s' same (t, none) d = d
      onto s' same (t, some e) d = d ∙ same

  pub disconnect_lun-Disconnected : (s : State) → Disconnected s (disconnect_lun c s)
  unfolding disconnect_lun
  disconnect_lun-Disconnected s = elim (Bool-cases (is_dir s)) [
    | inr missing ↦
        rw missing
          (ap (λ (o : Option String). trim (or_empty o)) (k.no_dir s missing) ∙ k.trim_empty)
    | inl there ↦ elim (Bool-cases (has_file forced_eject s)) [
      | inl eject ↦ rw (there, eject) (eject_or_clear-Disconnected s)
      | inr none_there ↦ rw (there, none_there) (clear_file-Disconnected s)
    ]
  ]
