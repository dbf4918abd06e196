-- ===== src/Msd/Lun/ReadOnly.antt =====
-- When a LUN that is set up as read-only is read-only.
use one_kvm_stream_box.Base.{
  ℕ, zero, suc, ◌≡◌, refl, ◌≢◌, ◌⊎◌, inl, inr, Bool, true, false, ◌&&◌, Option, none, some, ltb,
  Bool-cases, Option-cases,
}
use Prim.Native.String.{String}
use mathlib.Core.Path.{subst}
use text.Mathlib.Text.{◌==◌ as str_eq}
use text.Mathlib.TextEquality.{eq_iff}
use one_kvm_stream_box.Msd.Lun.{
  Attribute, cdrom, ro, removable, nofua, file, forced_eject, Configfs, MsdLunConfig, flag,
  and_then, value, ensure_dir, eject, write_changed, is_busy, mount, mount_file, set_up,
  configure_lun,
}
use one_kvm_stream_box.Msd.Lun.Mounted.{IsDocumented, Succeeds, and_then-Succeeds}

module _ (c : Configfs) (k : IsDocumented c) where
  open c use {State, write}

  abbrev IsReadOnly : State → Type 0
  IsReadOnly s = value c ro s ≡ "1"

  -- Steps that leave a read-only LUN so.
  abbrev KeepsReadOnly : (State → State × Option String) → Type 0
  KeepsReadOnly m = (s : State) → IsReadOnly s → IsReadOnly (m s).0

  write_changed-KeepsReadOnly :
      (a : Attribute) (current : String) (v : Bool)
      → a ≢ ro
      → a ≢ cdrom
      → a ≢ forced_eject
      → KeepsReadOnly (write_changed c a current v)
  unfolding write_changed
  write_changed-KeepsReadOnly a current v one two three s h =
      elim (Bool-cases (str_eq current (flag v))) [
        | inl same ↦ rw same h
        | inr new ↦ rw new (k.ro_kept a (flag v) s one two three h)
      ]

  mount-KeepsReadOnly :
      (n : ℕ) (last : Option String) (path : String) → KeepsReadOnly (mount c n last path)
  unfolding mount
  mount-KeepsReadOnly zero last path s h = h
  mount-KeepsReadOnly (suc n) last path s h =
      let first = k.ro_kept file path s (λ e. cc) (λ e. cc) (λ e. cc) h in
      elim (Option-cases (write file path s).1) [
        | inl e ↦ rw (mount, e) first
        | inr (x, e) ↦ elim (Bool-cases (is_busy c x && ltb 0 n)) [
          | inl again ↦
              rw (mount, e, again) (mount-KeepsReadOnly n (some x) path (write file path s).0 first)
          | inr stop ↦ rw (mount, e, stop) first
        ]
      ]

  mount_file-KeepsReadOnly :
      (exists : Bool) (path : String) → KeepsReadOnly (mount_file c exists path)
  unfolding mount_file
  mount_file-KeepsReadOnly true path = mount-KeepsReadOnly 5 none path
  mount_file-KeepsReadOnly false path = λ s h. h

  -- The LUN is read-only, unless `ro` read 1 before the LUN was set up, or it was not asked for.
  abbrev pub IsProtected : (before : String) → Bool → State → Type 0
  IsProtected before asked s = (before ≡ "1") ⊎ (asked ≡ false) ⊎ (value c ro s ≡ "1")

  onward :
      (before : String) (asked : Bool) (m : State → State × Option String) (s : State)
      → KeepsReadOnly m
      → IsProtected before asked s
      → Succeeds c k (IsProtected before asked) (m s)
  onward before asked m s kept (inl was) ok = inl was
  onward before asked m s kept (inr (inl not_asked)) ok = inr (inl not_asked)
  onward before asked m s kept (inr (inr set)) ok = inr (inr (kept s set))

  write_ro-IsProtected :
      (before : String) (asked : Bool) (s : State)
      → Succeeds c k (IsProtected before asked) (write_changed c ro before asked s)
  unfolding write_changed
  write_ro-IsProtected before false s = λ ok. inr (inl refl)
  write_ro-IsProtected before true s = elim (Bool-cases (str_eq before "1")) [
    | inl same ↦ λ ok. inl ((eq_iff before "1").0 same)
    | inr new ↦ rw new (λ ok. inr (inr (k.ro_set s ok)))
  ]

  set_up-IsProtected :
      (exists : Bool) (config : MsdLunConfig) (s : State)
      → Succeeds c k (IsProtected (value c ro s) config.ro) (set_up c exists config s)
  unfolding set_up
  set_up-IsProtected exists config s =
      let before = value c ro s in
      let P = IsProtected before config.ro in
      let one = write_changed c cdrom (value c cdrom s) config.cdrom in
      let two = write_changed c ro before config.ro in
      let three = write_changed c removable (value c removable s) config.removable in
      let four = write_changed c nofua (value c nofua s) config.nofua in
      let five = mount_file c exists config.file in
      let after_three = and_then c four five in
      let after_two = and_then c three after_three in
      and_then-Succeeds c k (λ s'. s' ≡ s') P one (and_then c two after_two) (eject c s)
        (λ ok. refl)
        (λ s₁ h₁.
          and_then-Succeeds c k P P two after_two s₁ (write_ro-IsProtected before config.ro s₁)
            (λ s₂ h₂.
              and_then-Succeeds c k P P three after_three s₂
                (onward before config.ro three s₂
                  (write_changed-KeepsReadOnly removable (value c removable s) config.removable
                    (λ e. cc) (λ e. cc) (λ e. cc))
                  h₂)
                (λ s₃ h₃.
                  and_then-Succeeds c k P P four five s₃
                    (onward before config.ro four s₃
                      (write_changed-KeepsReadOnly nofua (value c nofua s) config.nofua (λ e. cc)
                        (λ e. cc) (λ e. cc))
                      h₃)
                    (λ s₄ h₄.
                      onward before config.ro five s₄ (mount_file-KeepsReadOnly exists config.file)
                        h₄))))

  pub configure_lun-IsProtected :
      (exists : Bool) (config : MsdLunConfig) (s : State)
      → Succeeds c k
          (IsProtected (value c ro (ensure_dir c s).0) config.ro)
          (configure_lun c exists config s)
  unfolding configure_lun
  configure_lun-IsProtected exists config s =
      let s' = (ensure_dir c s).0 in
      let P = IsProtected (value c ro s') config.ro in
      and_then-Succeeds c k (λ t. s' ≡ t) P (ensure_dir c) (set_up c exists config) s (λ ok. refl)
        (λ t same.
          subst (λ (u : State). Succeeds c k P (set_up c exists config u)) same
            (set_up-IsProtected exists config s'))
