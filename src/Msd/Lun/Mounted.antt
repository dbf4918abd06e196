-- ===== src/Msd/Lun/Mounted.antt =====
-- What a LUN has after it was set up or emptied, where the kernel keeps what it documents.
use one_kvm_stream_box.Base.{
  ℕ, zero, suc, ◌≡◌, refl, ◌∙◌, ◌≢◌, inl, inr, Bool, true, false, ◌&&◌, Option, none, some, ltb,
  Bool-cases, Option-cases,
}
use Prim.Native.String.{String}
use text.Mathlib.Text.{◌==◌ as str_eq}
use text.Mathlib.TextEquality.{eq_iff}
use one_kvm_stream_box.Msd.Lun.{
  Attribute, cdrom, ro, removable, nofua, file, forced_eject, Configfs, MsdLunConfig, flag,
  and_then, value, ensure_dir, eject, write_changed, is_busy, mount, mount_file, set_up,
  configure_lun,
}

-- What configfs documents: `forced_eject` detaches the image, every other file but `ro` reads back what was
-- written and has a value of its own, a write that fails changes none of them, and a new directory has no
-- image. Of `ro`, which a CD-ROM implies, and also a file that cannot be opened to write, only this: a write
-- of 1 that succeeds sets it, and then it stays set under writes to `removable`, `nofua` and `file`.
pub record IsDocumented (c : Configfs) : Type 0 where
  pub trim_empty : c.trim "" ≡ ""
  pub trim_flag : (b : Bool) → c.trim (flag b) ≡ flag b
  pub write_read :
      (a : Attribute) (v : String) (s : c.State)
      → a ≢ forced_eject
      → a ≢ ro
      → (c.write a v s).1 ≡ none
      → value c a (c.write a v s).0 ≡ c.trim v
  pub write_other :
      (a b : Attribute) (v : String) (s : c.State)
      → a ≢ forced_eject
      → a ≢ b
      → b ≢ ro
      → value c b (c.write a v s).0 ≡ value c b s
  pub write_fails :
      (a b : Attribute) (v e : String) (s : c.State)
      → b ≢ ro
      → (c.write a v s).1 ≡ some e
      → value c b (c.write a v s).0 ≡ value c b s
  pub ejects :
      (v : String) (s : c.State)
      → (c.write forced_eject v s).1 ≡ none
      → value c file (c.write forced_eject v s).0 ≡ ""
  pub eject_other :
      (b : Attribute) (v : String) (s : c.State)
      → file ≢ b
      → b ≢ ro
      → value c b (c.write forced_eject v s).0 ≡ value c b s
  pub ro_set : (s : c.State) → (c.write ro "1" s).1 ≡ none → value c ro (c.write ro "1" s).0 ≡ "1"
  pub ro_kept :
      (a : Attribute) (v : String) (s : c.State)
      → a ≢ ro
      → a ≢ cdrom
      → a ≢ forced_eject
      → value c ro s ≡ "1"
      → value c ro (c.write a v s).0 ≡ "1"
  pub no_dir : (s : c.State) → c.is_dir s ≡ false → c.read file s ≡ none
  pub new_dir : (s : c.State) → value c file (c.create_dir s).0 ≡ value c file s

module _ (c : Configfs) (k : IsDocumented c) where
  open c use {State, is_dir, create_dir, has_file, read, write, trim}

  -- What a step that succeeds makes true.
  abbrev pub Succeeds : (State → Type 0) → State × Option String → Type 0
  Succeeds P r = r.1 ≡ none → P r.0

  pub and_then-Succeeds :
      (P Q : State → Type 0) (m n : State → State × Option String) (s : State)
      → Succeeds P (m s)
      → ((s' : State) → P s' → Succeeds Q (n s'))
      → Succeeds Q (and_then c m n s)
  and_then-Succeeds P Q m n s hm hn = go (m s).1 refl
    where
      go : (r : Option String) → (m s).1 ≡ r → Succeeds Q (and_then c m n s)
      go none e = rw (and_then, e) (hn (m s).0 (hm e))
      go (some x) e = rw (and_then, e) (λ h. cc)

  write_changed-value :
      (a : Attribute) (current : String) (b : Bool) (s : State)
      → a ≢ forced_eject
      → a ≢ ro
      → value c a s ≡ current
      → Succeeds (λ s'. value c a s' ≡ flag b) (write_changed c a current b s)
  unfolding write_changed
  write_changed-value a current b s other own now = elim (Bool-cases (str_eq current (flag b))) [
    | inl same ↦ rw same (λ ok. now ∙ (eq_iff current (flag b)).0 same)
    | inr new ↦ rw new (λ ok. k.write_read a (flag b) s other own ok ∙ k.trim_flag b)
  ]

  pub write_changed-other :
      (a b : Attribute) (current : String) (v : Bool) (s : State)
      → a ≢ forced_eject
      → a ≢ b
      → b ≢ ro
      → value c b (write_changed c a current v s).0 ≡ value c b s
  unfolding write_changed
  write_changed-other a b current v s one two own = elim (Bool-cases (str_eq current (flag v))) [
    | inl same ↦ rw same refl
    | inr new ↦ rw new (k.write_other a b (flag v) s one two own)
  ]

  -- The values of the flags but `ro`.
  pub record HasFlags (cd rm nf : String) (s : State) : Type 0 where
    pub cdrom_is : value c cdrom s ≡ cd
    pub removable_is : value c removable s ≡ rm
    pub nofua_is : value c nofua s ≡ nf

  eject-flags :
      (cd rm nf : String) (s : State) → HasFlags cd rm nf s → HasFlags cd rm nf (eject c s)
  unfolding eject
  eject-flags cd rm nf s h = elim (Bool-cases (has_file forced_eject s)) [
    | inl there ↦ rw there (record {
      cdrom_is = k.eject_other cdrom "1" s (λ e. cc) (λ e. cc) ∙ h.cdrom_is;
      removable_is = k.eject_other removable "1" s (λ e. cc) (λ e. cc) ∙ h.removable_is;
      nofua_is = k.eject_other nofua "1" s (λ e. cc) (λ e. cc) ∙ h.nofua_is;
    })
    | inr missing ↦ rw missing (record {
      cdrom_is = k.write_other file cdrom "" s (λ e. cc) (λ e. cc) (λ e. cc) ∙ h.cdrom_is;
      removable_is =
          k.write_other file removable "" s (λ e. cc) (λ e. cc) (λ e. cc) ∙ h.removable_is;
      nofua_is = k.write_other file nofua "" s (λ e. cc) (λ e. cc) (λ e. cc) ∙ h.nofua_is;
    })
  ]

  -- Writes to other files leave the flags.
  cdrom-flags :
      (cd rm nf : String) (v : Bool) (s : State)
      → HasFlags cd rm nf s
      → Succeeds (HasFlags (flag v) rm nf) (write_changed c cdrom cd v s)
  cdrom-flags cd rm nf v s h ok = record {
    cdrom_is = write_changed-value cdrom cd v s (λ e. cc) (λ e. cc) h.cdrom_is ok;
    removable_is =
        write_changed-other cdrom removable cd v s (λ e. cc) (λ e. cc) (λ e. cc) ∙ h.removable_is;
    nofua_is = write_changed-other cdrom nofua cd v s (λ e. cc) (λ e. cc) (λ e. cc) ∙ h.nofua_is;
  }

  ro-flags :
      (cd r rm nf : String) (v : Bool) (s : State)
      → HasFlags cd rm nf s
      → Succeeds (HasFlags cd rm nf) (write_changed c ro r v s)
  ro-flags cd r rm nf v s h ok = record {
    cdrom_is = write_changed-other ro cdrom r v s (λ e. cc) (λ e. cc) (λ e. cc) ∙ h.cdrom_is;
    removable_is =
        write_changed-other ro removable r v s (λ e. cc) (λ e. cc) (λ e. cc) ∙ h.removable_is;
    nofua_is = write_changed-other ro nofua r v s (λ e. cc) (λ e. cc) (λ e. cc) ∙ h.nofua_is;
  }

  removable-flags :
      (cd rm nf : String) (v : Bool) (s : State)
      → HasFlags cd rm nf s
      → Succeeds (HasFlags cd (flag v) nf) (write_changed c removable rm v s)
  removable-flags cd rm nf v s h ok = record {
    cdrom_is =
        write_changed-other removable cdrom rm v s (λ e. cc) (λ e. cc) (λ e. cc) ∙ h.cdrom_is;
    removable_is = write_changed-value removable rm v s (λ e. cc) (λ e. cc) h.removable_is ok;
    nofua_is =
        write_changed-other removable nofua rm v s (λ e. cc) (λ e. cc) (λ e. cc) ∙ h.nofua_is;
  }

  nofua-flags :
      (cd rm nf : String) (v : Bool) (s : State)
      → HasFlags cd rm nf s
      → Succeeds (HasFlags cd rm (flag v)) (write_changed c nofua nf v s)
  nofua-flags cd rm nf v s h ok = record {
    cdrom_is = write_changed-other nofua cdrom nf v s (λ e. cc) (λ e. cc) (λ e. cc) ∙ h.cdrom_is;
    removable_is =
        write_changed-other nofua removable nf v s (λ e. cc) (λ e. cc) (λ e. cc) ∙ h.removable_is;
    nofua_is = write_changed-value nofua nf v s (λ e. cc) (λ e. cc) h.nofua_is ok;
  }

  mount-other :
      (n : ℕ) (last : Option String) (path : String) (b : Attribute) (s : State)
      → file ≢ b
      → b ≢ ro
      → value c b (mount c n last path s).0 ≡ value c b s
  unfolding mount
  mount-other zero last path b s other own = refl
  mount-other (suc n) last path b s other own =
      let first = k.write_other file b path s (λ e. cc) other own in
      elim (Option-cases (write file path s).1) [
        | inl e ↦ rw (mount, e) first
        | inr (x, e) ↦ elim (Bool-cases (is_busy c x && ltb 0 n)) [
          | inl again ↦
              rw (mount, e, again)
                (mount-other n (some x) path b (write file path s).0 other own ∙ first)
          | inr stop ↦ rw (mount, e, stop) first
        ]
      ]

  -- An attempt that succeeds leaves the path.
  mount-value :
      (n : ℕ) (x : String) (path : String) (s : State)
      → Succeeds (λ s'. value c file s' ≡ trim path) (mount c n (some x) path s)
  unfolding mount
  mount-value zero x path s = λ ok. cc
  mount-value (suc n) x path s = elim (Option-cases (write file path s).1) [
    | inl e ↦ rw (mount, e) (λ ok. k.write_read file path s (λ e. cc) (λ e. cc) e)
    | inr (y, e) ↦ elim (Bool-cases (is_busy c y && ltb 0 n)) [
      | inl again ↦ rw (mount, e, again) (mount-value n y path (write file path s).0)
      | inr stop ↦ rw (mount, e, stop) (λ ok. cc)
    ]
  ]

  mount_file-value :
      (path : String) (s : State)
      → Succeeds (λ s'. value c file s' ≡ trim path) (mount_file c true path s)
  unfolding mount_file mount
  mount_file-value path s = mount-value 5 "" path s

  mount_file-other :
      (exists : Bool) (path : String) (b : Attribute) (s : State)
      → file ≢ b
      → b ≢ ro
      → value c b (mount_file c exists path s).0 ≡ value c b s
  unfolding mount_file
  mount_file-other true path b s other own = mount-other 5 none path b s other own
  mount_file-other false path b s other own = refl

  -- The flags are set, and the image is mounted where its file exists.
  pub record HasImage (exists : Bool) (config : MsdLunConfig) (s : State) : Type 0 where
    pub flags : HasFlags (flag config.cdrom) (flag config.removable) (flag config.nofua) s
    pub image : exists ≡ true → value c file s ≡ trim config.file

  mount_file-HasImage :
      (exists : Bool) (config : MsdLunConfig) (s : State)
      → HasFlags (flag config.cdrom) (flag config.removable) (flag config.nofua) s
      → Succeeds (HasImage exists config) (mount_file c exists config.file s)
  mount_file-HasImage exists config s h ok = record {
    flags = record {
      cdrom_is = mount_file-other exists config.file cdrom s (λ e. cc) (λ e. cc) ∙ h.cdrom_is;
      removable_is =
          mount_file-other exists config.file removable s (λ e. cc) (λ e. cc) ∙ h.removable_is;
      nofua_is = mount_file-other exists config.file nofua s (λ e. cc) (λ e. cc) ∙ h.nofua_is;
    };
    image = λ there. image_of exists config.file s there ok;
  }
    where
      image_of :
          (exists : Bool) (path : String) (s : State)
          → exists ≡ true
          → Succeeds (λ s'. value c file s' ≡ trim path) (mount_file c exists path s)
      image_of true path s there ok = mount_file-value path s ok
      image_of false path s there ok = cc

  set_up-HasImage :
      (exists : Bool) (config : MsdLunConfig) (s : State)
      → Succeeds (HasImage exists config) (set_up c exists config s)
  unfolding set_up
  set_up-HasImage exists config s =
      let cd = value c cdrom s in
      let r = value c ro s in
      let rm = value c removable s in
      let nf = value c nofua s in
      let now : HasFlags cd rm nf s = record {
        cdrom_is = refl;
        removable_is = refl;
        nofua_is = refl;
      } in
      let v = flag config.cdrom in
      let x = flag config.removable in
      let y = flag config.nofua in
      let one = write_changed c cdrom cd config.cdrom in
      let two = write_changed c ro r config.ro in
      let three = write_changed c removable rm config.removable in
      let four = write_changed c nofua nf config.nofua in
      let five = mount_file c exists config.file in
      let after_three = and_then c four five in
      let after_two = and_then c three after_three in
      let P = HasImage exists config in
      and_then-Succeeds (HasFlags v rm nf) P one (and_then c two after_two) (eject c s)
        (cdrom-flags cd rm nf config.cdrom (eject c s) (eject-flags cd rm nf s now))
        (λ s₁ h₁.
          and_then-Succeeds (HasFlags v rm nf) P two after_two s₁
            (ro-flags v r rm nf config.ro s₁ h₁)
            (λ s₂ h₂.
              and_then-Succeeds (HasFlags v x nf) P three after_three s₂
                (removable-flags v rm nf config.removable s₂ h₂)
                (λ s₃ h₃.
                  and_then-Succeeds (HasFlags v x y) P four five s₃
                    (nofua-flags v x nf config.nofua s₃ h₃) (mount_file-HasImage exists config))))

  pub configure_lun-HasImage :
      (exists : Bool) (config : MsdLunConfig) (s : State)
      → Succeeds (HasImage exists config) (configure_lun c exists config s)
  unfolding configure_lun
  configure_lun-HasImage exists config s =
      and_then-Succeeds (λ s'. s' ≡ s') (HasImage exists config) (ensure_dir c)
        (set_up c exists config) s (λ ok. refl) (λ s' h. set_up-HasImage exists config s')
