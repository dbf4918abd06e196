-- ===== src/Msd/Controller/Connect.antt =====
-- What a connection leaves in the LUN, by its result.
use one_kvm_stream_box.Base.{
  ℕ, ◌≡◌, refl, inl, inr, Bool, true, false, Option, none, some, if◌then◌else◌, Bool-cases,
}
use Prim.Native.String.{String}
use one_kvm_stream_box.Msd.Lun.{
  Configfs, ro, MsdLunConfig, cdrom_config, disk_config, value, ensure_dir, configure_lun,
}
use one_kvm_stream_box.Msd.Lun.Mounted.{IsDocumented, HasImage, configure_lun-HasImage}
use one_kvm_stream_box.Msd.Lun.ReadOnly.{IsProtected, configure_lun-IsProtected}
use one_kvm_stream_box.Msd.Lun.Emptied.{IsEmpty, configure_lun-IsEmpty}
use one_kvm_stream_box.Msd.Health.{
  MsdHealthStatus, healthy, error, MsdHealthMonitor, report_recovered, is_error,
}
use one_kvm_stream_box.Msd.Controller.{
  MsdMode, ImageInfo, Surroundings, MsdOutcome, MsdError, done, failed, MsdController, connected_to,
  after_configure, with_function, with_gadget, connect_image,
}

module _ (fs : Configfs) (k : IsDocumented fs) where
  -- What the LUN has after it was set up, and whether it may still be empty.
  record IsMounted (exists : Bool) (config : MsdLunConfig) (before after : fs.State) : Type 0 where
    has_image : HasImage fs k exists config after
    stays_empty : exists ≡ false → IsEmpty fs k before → IsEmpty fs k after
    protected : IsProtected fs k (value fs ro (ensure_dir fs before).0) config.ro after

  -- A call on a controller, by its outcome.
  abbrev Connects :
      Bool
      → MsdLunConfig
      → MsdMode
      → Option ImageInfo
      → MsdController fs
      → MsdController fs × MsdOutcome
      → Type 0
  Connects exists config mode i c (c', done) =
      (c'.state ≡ record c.state { connected = true; mode = mode; current_image = i })
      × (c'.monitor.status ≡ healthy)
      × IsMounted exists config c.lun c'.lun
  Connects exists config mode i c (c', failed e) = c'.state ≡ c.state

  recovered_healthy :
      (m : MsdHealthMonitor) → (if is_error m then report_recovered m else m).status ≡ healthy
  unfolding is_error report_recovered
  recovered_healthy m = go m.status refl
    where
      go :
          (s : MsdHealthStatus)
          → m.status ≡ s
          → (if is_error m then report_recovered m else m).status ≡ healthy
      go healthy e = rw (is_error, e) refl
      go (error reason code) e = rw (is_error, report_recovered, e) refl

  after_configure-Connects :
      (exists : Bool) (config : MsdLunConfig) (r : fs.State × Option String) (mode : MsdMode)
      (i : Option ImageInfo) (c : MsdController fs)
      → (r.1 ≡ none → IsMounted exists config c.lun r.0)
      → Connects exists config mode i c (after_configure fs r mode i c)
  unfolding after_configure connected_to
  after_configure-Connects exists config (s, none) mode i c m =
      (refl, recovered_healthy c.monitor, m refl)
  after_configure-Connects exists config (s, some e) mode i c m = refl

  with_function-Connects :
      (o : Option ℕ) (w : Surroundings) (config : MsdLunConfig) (mode : MsdMode)
      (i : Option ImageInfo) (c : MsdController fs)
      → Connects w.still_exists config mode i c (with_function fs o w config mode i c)
  unfolding with_function
  with_function-Connects none w config mode i c = refl
  with_function-Connects (some f) w config mode i c =
      after_configure-Connects w.still_exists config (configure_lun fs w.still_exists config c.lun)
        mode i c
        (λ ok. record {
          has_image = configure_lun-HasImage fs k w.still_exists config c.lun ok;
          stays_empty =
              λ gone empty. configure_lun-IsEmpty fs k w.still_exists config c.lun empty (inl gone);
          protected = configure_lun-IsProtected fs k w.still_exists config c.lun ok;
        })

  with_gadget-Connects :
      (o : Option String) (w : Surroundings) (config : MsdLunConfig) (mode : MsdMode)
      (i : Option ImageInfo) (c : MsdController fs)
      → Connects w.still_exists config mode i c (with_gadget fs o w config mode i c)
  unfolding with_gadget
  with_gadget-Connects none w config mode i c = refl
  with_gadget-Connects (some p) w config mode i c =
      with_function-Connects c.msd_function w config mode i c

  abbrev image_config : ImageInfo → (cd read_only : Bool) → MsdLunConfig
  image_config i cd read_only = if cd then cdrom_config i.path else disk_config i.path read_only

  connect_image-Connects :
      (w : Surroundings) (i : ImageInfo) (cd read_only : Bool) (c : MsdController fs)
      → Connects w.still_exists
          (image_config i cd read_only)
          MsdMode.image
          (some i)
          c
          (connect_image fs w i cd read_only c)
  unfolding connect_image
  connect_image-Connects w i cd read_only c =
      let config = image_config i cd read_only in
      elim (Bool-cases c.state.available) [
        | inr off ↦ simp (connect_image, off) refl
        | inl on ↦ elim (Bool-cases c.state.connected) [
          | inl held ↦ simp (connect_image, on, held) refl
          | inr free ↦ elim (Bool-cases w.exists) [
            | inr gone ↦ simp (connect_image, on, free, gone) refl
            | inl there ↦
                simp (connect_image, on, free, there)
                  (with_gadget-Connects w.gadget_path w config MsdMode.image (some i) c)
          ]
        ]
      ]

  failed-Connects :
      (exists : Bool) (config : MsdLunConfig) (mode : MsdMode) (i : Option ImageInfo)
      (c : MsdController fs) (r : MsdController fs × MsdOutcome) (e : MsdError)
      → Connects exists config mode i c r
      → r.1 ≡ failed e
      → r.0.state ≡ c.state
  failed-Connects exists config mode i c (c', done) e h fails = cc
  failed-Connects exists config mode i c (c', failed x) e h fails = h

  pub connect_image-fails :
      (w : Surroundings) (i : ImageInfo) (cd read_only : Bool) (c : MsdController fs) (e : MsdError)
      → (connect_image fs w i cd read_only c).1 ≡ failed e
      → (connect_image fs w i cd read_only c).0.state ≡ c.state
  connect_image-fails w i cd read_only c e fails =
      failed-Connects w.still_exists (image_config i cd read_only) MsdMode.image (some i) c
        (connect_image fs w i cd read_only c) e (connect_image-Connects w i cd read_only c) fails
