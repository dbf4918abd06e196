-- ===== src/Msd/Controller.antt =====
-- src/msd/controller.rs, `MsdController`: an image or the virtual drive is connected to the LUN of the
-- gadget and disconnected. The operation lock makes a call one step. What the rest of the system answers
-- during a call is its `Surroundings`, an argument. The downloads, the event
-- bus and the creation dates are left out.
pub mod Consistent
pub mod Mirror
pub mod Connect
use one_kvm_stream_box.Base.{
  ℕ, ◌+◌, Bool, true, false, not, Option, none, some, List, [], ◌∷◌, if◌then◌else◌,
}
use Prim.Native.String.{String, ◌++◌ as str_append}
use one_kvm_stream_box.Msd.Lun.{
  Configfs, MsdLunConfig, cdrom_config, disk_config, configure_lun, disconnect_lun,
}
use one_kvm_stream_box.Msd.Health.{
  MsdHealthMonitor, new_monitor, report_error, report_recovered, is_error,
}

pub data MsdMode : Type 0 where
  no_storage image drive : MsdMode

pub record ImageInfo : Type 0 where
  pub id : String
  pub name : String
  pub path : String
  pub size : ℕ

pub record DriveInfo : Type 0 where
  pub size : ℕ
  pub used : ℕ
  pub free : ℕ
  pub initialized : Bool
  pub path : String

pub record MsdState : Type 0 where
  pub available : Bool
  pub mode : MsdMode
  pub connected : Bool
  pub current_image : Option ImageInfo
  pub drive_info : Option DriveInfo

abbrev pub default_state : MsdState
default_state = record {
  available = false;
  mode = MsdMode.no_storage;
  connected = false;
  current_image = none;
  drive_info = none;
}

-- The path of the active gadget, the function of `OtgService` by its instance, whether the file exists when
-- the controller looks and when `configure_lun` does, and the length of the drive's file.
pub record Surroundings : Type 0 where
  pub gadget_path : Option String
  pub msd_function : Option ℕ
  pub exists : Bool
  pub still_exists : Bool
  pub metadata : Option ℕ

pub data MsdError : Type 0 where
  internal : String → MsdError
  lun_error : String → MsdError

pub data MsdOutcome : Type 0 where
  done : MsdOutcome
  failed : MsdError → MsdOutcome

-- The calls, each in its surroundings.
pub data Operation : Type 0 where
  init_op shut_down_op connect_drive_op disconnect_op : Surroundings → Operation
  connect_image_op : Surroundings → ImageInfo → (cdrom read_only : Bool) → Operation
  update_drive_info_op : DriveInfo → Operation

module _ (fs : Configfs) where
  open fs use {State}

  -- `lun` is the directory of the LUN of the active gadget, and `dirty` counts the calls of
  -- `mark_device_info_dirty`.
  pub record MsdController : Type 0 where
    pub msd_function : Option ℕ
    pub state : MsdState
    pub drive_path : String
    pub monitor : MsdHealthMonitor
    pub dirty : ℕ
    pub lun : State

  abbrev pub MsdCall : Type 0
  MsdCall = MsdController → MsdController × MsdOutcome

  unfoldable pub fresh : String → State → MsdController
  fresh drive_path lun = record {
    msd_function = none;
    state = default_state;
    drive_path = drive_path;
    monitor = new_monitor;
    dirty = 0;
    lun = lun;
  }

  -- `init`

  abbrev drive_found : Option ℕ → String → Option DriveInfo → Option DriveInfo
  drive_found none path old = old
  drive_found (some len) path old =
      some (record { size = len; used = 0; free = len; initialized = true; path = path })

  abbrev init_with : Option ℕ → Surroundings → MsdCall
  init_with none w c = (c, failed (internal "MSD function is not active in OtgService"))
  init_with (some f) w c = (
    record c {
      msd_function = some f;
      state = record c.state {
        available = true;
        drive_info =
            if w.exists
            then drive_found w.metadata c.drive_path c.state.drive_info
            else c.state.drive_info;
      };
    },
    done,
  )

  unfoldable pub init : Surroundings → MsdCall
  init w c = init_with w.msd_function w c

  -- An error that the monitor is told of.
  abbrev reports : String → String → MsdError → MsdCall
  reports reason code e c = (record c { monitor = report_error reason code c.monitor }, failed e)

  -- The end of a connection.
  abbrev recovers : MsdController → MsdController
  recovers c = record c {
    monitor = if is_error c.monitor then report_recovered c.monitor else c.monitor;
    dirty = c.dirty + 1;
  }

  unfoldable pub connected_to : MsdMode → Option ImageInfo → MsdController → MsdController
  connected_to mode i c =
      recovers
        (record c { state = record c.state { connected = true; mode = mode; current_image = i } })

  -- By the result of `configure_lun`.
  unfoldable pub after_configure : State × Option String → MsdMode → Option ImageInfo → MsdCall
  after_configure (lun, none) mode i c = (connected_to mode i (record c { lun = lun }), done)
  after_configure (lun, some e) mode i c =
      reports (str_append "Failed to configure LUN: " e) "configfs_error" (lun_error e)
        (record c { lun = lun })

  unfoldable pub with_function :
      Option ℕ → Surroundings → MsdLunConfig → MsdMode → Option ImageInfo → MsdCall
  with_function none w config mode i c =
      reports "MSD function not initialized" "not_initialized"
        (internal "MSD function not initialized") c
  with_function (some f) w config mode i c =
      after_configure (configure_lun fs w.still_exists config c.lun) mode i c

  unfoldable pub with_gadget :
      Option String → Surroundings → MsdLunConfig → MsdMode → Option ImageInfo → MsdCall
  with_gadget none w config mode i c = (c, failed (internal "OTG gadget path is not available"))
  with_gadget (some path) w config mode i c = with_function c.msd_function w config mode i c

  unfoldable pub connect_image : Surroundings → ImageInfo → (cdrom read_only : Bool) → MsdCall
  connect_image w i cdrom read_only c =
      if not c.state.available
      then reports "MSD not available" "not_available" (internal "MSD not available") c
      else if c.state.connected
      then (c, failed (internal "Already connected. Disconnect first."))
      else if not w.exists
      then (let reason = str_append "Image file not found: " i.path in
          reports reason "image_not_found" (internal reason) c)
      else (let config = if cdrom then cdrom_config i.path else disk_config i.path read_only in
          with_gadget w.gadget_path w config MsdMode.image (some i) c)

  unfoldable pub connect_drive : Surroundings → MsdCall
  connect_drive w c =
      if not c.state.available
      then reports "MSD not available" "not_available" (internal "MSD not available") c
      else if c.state.connected
      then (c, failed (internal "Already connected. Disconnect first."))
      else if not w.exists
      then reports "Virtual drive not initialized" "drive_not_found"
          (internal "Virtual drive not initialized. Call init first.") c
      else with_gadget w.gadget_path w (disk_config c.drive_path false) MsdMode.drive none c

  -- `disconnect`

  unfoldable pub disconnected : MsdController → MsdController
  disconnected c = record c {
    state = record c.state { connected = false; mode = MsdMode.no_storage; current_image = none };
    dirty = c.dirty + 1;
  }

  unfoldable pub after_disconnect : State × Option String → MsdCall
  after_disconnect (lun, none) c = (disconnected (record c { lun = lun }), done)
  after_disconnect (lun, some e) c = (record c { lun = lun }, failed (lun_error e))

  unfoldable pub release_function : Option ℕ → MsdCall
  release_function none c = (disconnected c, done)
  release_function (some f) c = after_disconnect (disconnect_lun fs c.lun) c

  unfoldable pub release_gadget : Option String → MsdCall
  release_gadget none c = (c, failed (internal "OTG gadget path is not available"))
  release_gadget (some path) c = release_function c.msd_function c

  unfoldable pub disconnect : Surroundings → MsdCall
  disconnect w c = if c.state.connected then release_gadget w.gadget_path c else (c, done)

  unfoldable pub update_drive_info : DriveInfo → MsdController → MsdController
  update_drive_info info c = record c { state = record c.state { drive_info = some info } }

  -- An error of the disconnection is logged.
  unfoldable pub shut_down : Surroundings → MsdCall
  shut_down w c =
      let c' = (disconnect w c).0 in
      (record c' { msd_function = none; state = record c'.state { available = false } }, done)

  unfoldable pub operate : Operation → MsdController → MsdController
  operate (init_op w) c = (init w c).0
  operate (shut_down_op w) c = (shut_down w c).0
  operate (connect_drive_op w) c = (connect_drive w c).0
  operate (disconnect_op w) c = (disconnect w c).0
  operate (connect_image_op w i cdrom read_only) c = (connect_image w i cdrom read_only c).0
  operate (update_drive_info_op info) c = update_drive_info info c

  unfoldable pub operate_all : List Operation → MsdController → MsdController
  operate_all [] c = c
  operate_all (o ∷ os) c = operate_all os (operate o c)
