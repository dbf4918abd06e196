-- ===== src/Msd/Controller/Consistent.antt =====
-- What holds of the controller after any calls, whatever the system answers.
use one_kvm_stream_box.Base.{
  ℕ, ◌≡◌, refl, inl, inr, Bool, true, false, Option, none, some, List, [], ◌∷◌, arith,
  if◌then◌else◌, Bool-cases,
}
use Prim.Native.String.{String, ◌++◌ as str_append}
use one_kvm_stream_box.Msd.Lun.{
  Configfs, MsdLunConfig, cdrom_config, disk_config, configure_lun, disconnect_lun,
}
use one_kvm_stream_box.Msd.Health.{
  MsdHealthStatus, healthy, error, MsdHealthMonitor, report_error, report_recovered, is_error,
}
use one_kvm_stream_box.Msd.Controller.{
  MsdMode, ImageInfo, Surroundings, MsdOutcome, MsdController, fresh, init, connected_to,
  after_configure, with_function, with_gadget, connect_image, connect_drive, disconnected,
  after_disconnect, release_function, release_gadget, disconnect, update_drive_info, shut_down,
  Operation, init_op, shut_down_op, connect_drive_op, disconnect_op, connect_image_op,
  update_drive_info_op, operate, operate_all,
}

-- The mode and the image that go with being connected or not.
abbrev pub Fits : Bool → MsdMode → Option ImageInfo → Type 0
Fits false MsdMode.no_storage none = true ≡ true
Fits true MsdMode.image (some i) = true ≡ true
Fits true MsdMode.drive none = true ≡ true
Fits connected mode i = true ≡ false

-- A monitor that is healthy has counted no error.
abbrev pub IsSane : MsdHealthStatus → ℕ → Option String → Type 0
IsSane healthy n o = (n ≡ 0) × (o ≡ none)
IsSane (error reason code) n o = o ≡ some code

abbrev pub is_present : Option ℕ → Bool
is_present none = false
is_present (some f) = true

module _ (fs : Configfs) where
  -- Being connected goes with a mode and an image, being available with a function, and the monitor's
  -- fields with its status.
  pub record IsConsistent (c : MsdController fs) : Type 0 where
    pub fits : Fits c.state.connected c.state.mode c.state.current_image
    pub function : c.state.available ≡ is_present c.msd_function
    pub health : IsSane c.monitor.status c.monitor.error_count c.monitor.last_error_code

  abbrev Keeps : (MsdController fs → MsdController fs × MsdOutcome) → Type 0
  Keeps m = (c : MsdController fs) → IsConsistent c → IsConsistent (m c).0

  init-IsConsistent : (w : Surroundings) → Keeps (init fs w)
  unfolding init
  init-IsConsistent w c h = go w.msd_function refl
    where
      go : (o : Option ℕ) → w.msd_function ≡ o → IsConsistent (init fs w c).0
      go none e = rw (init, e) h
      go (some f) e = rw (init, e) (record { fits = h.fits; function = refl; health = h.health })

  report-IsConsistent :
      (reason code : String) (c : MsdController fs)
      → IsConsistent c
      → IsConsistent (record c { monitor = report_error reason code c.monitor })
  unfolding report_error
  report-IsConsistent reason code c h = record {
    fits = h.fits;
    function = h.function;
    health = refl;
  }

  set_lun-IsConsistent :
      (c : MsdController fs) (s : fs.State) → IsConsistent c → IsConsistent (record c { lun = s })
  set_lun-IsConsistent c s h = record { fits = h.fits; function = h.function; health = h.health }

  recovered-IsSane :
      (m : MsdHealthMonitor)
      → IsSane m.status m.error_count m.last_error_code
      → let m' = if is_error m then report_recovered m else m in
        IsSane m'.status m'.error_count m'.last_error_code
  unfolding is_error report_recovered
  recovered-IsSane m h = go m.status refl
    where
      go :
          (s : MsdHealthStatus)
          → m.status ≡ s
          → let m' = if is_error m then report_recovered m else m in
            IsSane m'.status m'.error_count m'.last_error_code
      go healthy e = rw (is_error, e) (rw e at h)
      go (error reason code) e = rw (is_error, report_recovered, e) (refl, refl)

  connected_to-IsConsistent :
      (mode : MsdMode) (i : Option ImageInfo) (c : MsdController fs)
      → Fits true mode i
      → IsConsistent c
      → IsConsistent (connected_to fs mode i c)
  unfolding connected_to
  connected_to-IsConsistent mode i c fit h = record {
    fits = fit;
    function = h.function;
    health = recovered-IsSane c.monitor h.health;
  }

  after_configure-IsConsistent :
      (r : fs.State × Option String) (mode : MsdMode) (i : Option ImageInfo)
      → Fits true mode i
      → Keeps (after_configure fs r mode i)
  unfolding after_configure
  after_configure-IsConsistent (s, none) mode i fit c h =
      connected_to-IsConsistent mode i (record c { lun = s }) fit (set_lun-IsConsistent c s h)
  after_configure-IsConsistent (s, some e) mode i fit c h =
      report-IsConsistent _ "configfs_error" (record c { lun = s }) (set_lun-IsConsistent c s h)

  with_function-IsConsistent :
      (o : Option ℕ) (w : Surroundings) (config : MsdLunConfig) (mode : MsdMode)
      (i : Option ImageInfo)
      → Fits true mode i
      → Keeps (with_function fs o w config mode i)
  unfolding with_function
  with_function-IsConsistent none w config mode i fit c h =
      report-IsConsistent _ "not_initialized" c h
  with_function-IsConsistent (some f) w config mode i fit c h =
      after_configure-IsConsistent (configure_lun fs w.still_exists config c.lun) mode i fit c h

  with_gadget-IsConsistent :
      (o : Option String) (w : Surroundings) (config : MsdLunConfig) (mode : MsdMode)
      (i : Option ImageInfo)
      → Fits true mode i
      → Keeps (with_gadget fs o w config mode i)
  unfolding with_gadget
  with_gadget-IsConsistent none w config mode i fit c h = h
  with_gadget-IsConsistent (some path) w config mode i fit c h =
      with_function-IsConsistent c.msd_function w config mode i fit c h

  connect_image-IsConsistent :
      (w : Surroundings) (i : ImageInfo) (cdrom read_only : Bool)
      → Keeps (connect_image fs w i cdrom read_only)
  unfolding connect_image
  connect_image-IsConsistent w i cdrom read_only c h = ground (
    arith,
    report-IsConsistent "MSD not available" "not_available" c h,
    report-IsConsistent (str_append "Image file not found: " i.path) "image_not_found" c h,
    with_gadget-IsConsistent w.gadget_path w
        (if cdrom then cdrom_config i.path else disk_config i.path read_only) MsdMode.image (some i)
        refl c h,
  )

  connect_drive-IsConsistent : (w : Surroundings) → Keeps (connect_drive fs w)
  unfolding connect_drive
  connect_drive-IsConsistent w c h = ground (
    arith,
    report-IsConsistent "MSD not available" "not_available" c h,
    report-IsConsistent "Virtual drive not initialized" "drive_not_found" c h,
    with_gadget-IsConsistent w.gadget_path w (disk_config c.drive_path false) MsdMode.drive none
        refl c h,
  )

  disconnected-IsConsistent :
      (c : MsdController fs) → IsConsistent c → IsConsistent (disconnected fs c)
  unfolding disconnected
  disconnected-IsConsistent c h = record { fits = refl; function = h.function; health = h.health }

  after_disconnect-IsConsistent : (r : fs.State × Option String) → Keeps (after_disconnect fs r)
  unfolding after_disconnect
  after_disconnect-IsConsistent (s, none) c h =
      disconnected-IsConsistent (record c { lun = s }) (set_lun-IsConsistent c s h)
  after_disconnect-IsConsistent (s, some e) c h = set_lun-IsConsistent c s h

  release_function-IsConsistent : (o : Option ℕ) → Keeps (release_function fs o)
  unfolding release_function
  release_function-IsConsistent none c h = disconnected-IsConsistent c h
  release_function-IsConsistent (some f) c h =
      after_disconnect-IsConsistent (disconnect_lun fs c.lun) c h

  release_gadget-IsConsistent : (o : Option String) → Keeps (release_gadget fs o)
  unfolding release_gadget
  release_gadget-IsConsistent none c h = h
  release_gadget-IsConsistent (some path) c h = release_function-IsConsistent c.msd_function c h

  disconnect-IsConsistent : (w : Surroundings) → Keeps (disconnect fs w)
  unfolding disconnect
  disconnect-IsConsistent w c h = elim (Bool-cases c.state.connected) [
    | inl held ↦ simp (disconnect, held) (release_gadget-IsConsistent w.gadget_path c h)
    | inr free ↦ simp (disconnect, free) h
  ]

  shut_down-IsConsistent : (w : Surroundings) → Keeps (shut_down fs w)
  unfolding shut_down
  shut_down-IsConsistent w c h =
      let h' = disconnect-IsConsistent w c h in
      record { fits = h'.fits; function = refl; health = h'.health }

  operate-IsConsistent :
      (o : Operation) (c : MsdController fs) → IsConsistent c → IsConsistent (operate fs o c)
  unfolding operate update_drive_info
  operate-IsConsistent (init_op w) c h = init-IsConsistent w c h
  operate-IsConsistent (shut_down_op w) c h = shut_down-IsConsistent w c h
  operate-IsConsistent (connect_drive_op w) c h = connect_drive-IsConsistent w c h
  operate-IsConsistent (disconnect_op w) c h = disconnect-IsConsistent w c h
  operate-IsConsistent (connect_image_op w i cdrom read_only) c h =
      connect_image-IsConsistent w i cdrom read_only c h
  operate-IsConsistent (update_drive_info_op info) c h = record {
    fits = h.fits;
    function = h.function;
    health = h.health;
  }

  run-IsConsistent :
      (os : List Operation) (c : MsdController fs)
      → IsConsistent c
      → IsConsistent (operate_all fs os c)
  unfolding operate_all
  run-IsConsistent [] c h = h
  run-IsConsistent (o ∷ os) c h = run-IsConsistent os (operate fs o c) (operate-IsConsistent o c h)

  fresh-IsConsistent : (path : String) (s : fs.State) → IsConsistent (fresh fs path s)
  unfolding fresh
  fresh-IsConsistent path s = record { fits = refl; function = refl; health = (refl, refl) }

  -- From a new controller, whatever is called and whatever the system answers, with any LUN: the controller
  -- is connected exactly where its mode says to what, an image goes with the mode for images alone, it is
  -- available exactly where it has the gadget's function, and a monitor that is healthy has counted no
  -- error.
  pub operate_all-IsConsistent :
      (os : List Operation) (path : String) (s : fs.State)
      → IsConsistent (operate_all fs os (fresh fs path s))
  operate_all-IsConsistent os path s =
      run-IsConsistent os (fresh fs path s) (fresh-IsConsistent path s)
