-- ===== src/Msd/Examples.antt =====
-- A kernel that keeps what configfs documents, a controller with an image, and the theorems on them.
use one_kvm_stream_box.Base.{Bool, true, false, Option, none, some, List, [], ◌∷◌, if◌then◌else◌}
use Prim.Native.String.{String}
use text.Mathlib.Text.{◌==◌ as str_eq}
use one_kvm_stream_box.Msd.Lun.{Attribute, cdrom, ro, removable, nofua, file, Configfs}
use one_kvm_stream_box.Msd.Controller.{
  ImageInfo, Surroundings, MsdController, fresh, Operation, init_op, shut_down_op, connect_drive_op,
  disconnect_op, connect_image_op, operate_all,
}
use one_kvm_stream_box.Msd.Controller.Consistent.{IsConsistent, operate_all-IsConsistent}

abbrev same_attribute : Attribute → Attribute → Bool
same_attribute Attribute.cdrom Attribute.cdrom = true
same_attribute Attribute.ro Attribute.ro = true
same_attribute Attribute.removable Attribute.removable = true
same_attribute Attribute.nofua Attribute.nofua = true
same_attribute Attribute.file Attribute.file = true
same_attribute Attribute.forced_eject Attribute.forced_eject = true
same_attribute a b = false

abbrev Files : Type 0
Files = Attribute → String

abbrev put : Attribute → String → Files → Files
put a v s = λ b. if same_attribute a b then v else s b

-- Writes succeed; one to `forced_eject` empties the file, and a CD-ROM is read-only.
abbrev write_to : Attribute → String → Files → Files × Option String
write_to Attribute.cdrom v s =
    (put Attribute.cdrom v (if str_eq v "1" then put Attribute.ro "1" s else s), none)
write_to Attribute.ro v s = (put Attribute.ro v s, none)
write_to Attribute.removable v s = (put Attribute.removable v s, none)
write_to Attribute.nofua v s = (put Attribute.nofua v s, none)
write_to Attribute.file v s = (put Attribute.file v s, none)
write_to Attribute.forced_eject v s = (put Attribute.file "" s, none)

abbrev kernel : Configfs
kernel = record {
  State = Files;
  is_dir = λ s. true;
  create_dir = λ s. (s, none);
  has_file = λ a s. true;
  read = λ a s. some (s a);
  write = write_to;
  trim = λ s. s;
  contains = λ s t. false;
}

abbrev ubuntu : ImageInfo
ubuntu = record { id = "a1"; name = "ubuntu.iso"; path = "/data/images/ubuntu.iso"; size = 4096 }

abbrev around : Surroundings
around = record {
  gadget_path = some "/sys/kernel/config/usb_gadget/one-kvm";
  msd_function = some 0;
  exists = true;
  still_exists = true;
  metadata = some 1024;
}

abbrev vanishing : Surroundings
vanishing = record around { still_exists = false }

abbrev no_gadget : Surroundings
no_gadget = record around { gadget_path = none }

abbrev empty_lun : Files
empty_lun = λ a. ""

abbrev drive_path : String
drive_path = "/data/ventoy/ventoy.img"

abbrev new_controller : MsdController kernel
new_controller = fresh kernel drive_path empty_lun

abbrev gadget_ready : MsdController kernel
gadget_ready = record new_controller {
  msd_function = some 0;
  state = record new_controller.state { available = true };
}

abbrev history : List Operation
history =
    init_op around
    ∷ connect_image_op around ubuntu true false
    ∷ connect_drive_op around
    ∷ disconnect_op around
    ∷ connect_drive_op around
    ∷ shut_down_op no_gadget
    ∷ []

abbrev client_history : List Operation
client_history =
    connect_image_op around ubuntu true false
    ∷ disconnect_op no_gadget
    ∷ connect_drive_op around
    ∷ []

operate_all-IsConsistent_example :
    IsConsistent kernel (operate_all kernel history (fresh kernel drive_path empty_lun))
operate_all-IsConsistent_example = operate_all-IsConsistent kernel history drive_path empty_lun
