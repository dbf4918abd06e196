-- ===== src/Msd/Controller/Mirror.antt =====
-- What the controller says of the LUN is what the LUN has, where the kernel keeps what it documents.
use one_kvm_stream_box.Base.{◌≡◌, Bool, true, false, Option, none, some}
use Prim.Native.String.{String, ◌++◌ as str_append}
use one_kvm_stream_box.Msd.Lun.{Configfs, file, value}
use one_kvm_stream_box.Msd.Lun.Mounted.{IsDocumented}
use one_kvm_stream_box.Msd.Controller.{
  ImageInfo, MsdOutcome, MsdController, Operation, init_op, shut_down_op, connect_drive_op,
  disconnect_op, connect_image_op, update_drive_info_op,
}
use one_kvm_stream_box.Msd.Controller.Consistent.{is_present}

module _ (fs : Configfs) (k : IsDocumented fs) where
  -- The image that the controller says is in the LUN.
  abbrev pub claimed : Bool → Option ImageInfo → String → String
  claimed false i drive_path = ""
  claimed true none drive_path = fs.trim drive_path
  claimed true (some i) drive_path = fs.trim i.path

  pub record IsMirror (c : MsdController fs) : Type 0 where
    pub image : value fs file c.lun ≡ claimed c.state.connected c.state.current_image c.drive_path
    pub function : is_present c.msd_function ≡ true

  -- The image's file is still there when the LUN is set up; a controller with no function is not asked.
  abbrev pub IsSteady : Operation → Type 0
  IsSteady (init_op w) = true ≡ true
  IsSteady (shut_down_op w) = true ≡ false
  IsSteady (connect_drive_op w) = w.still_exists ≡ true
  IsSteady (disconnect_op w) = true ≡ true
  IsSteady (connect_image_op w i cdrom read_only) = w.still_exists ≡ true
  IsSteady (update_drive_info_op info) = true ≡ true

  abbrev Keeps : (MsdController fs → MsdController fs × MsdOutcome) → Type 0
  Keeps m = (c : MsdController fs) → IsMirror c → IsMirror (m c).0
