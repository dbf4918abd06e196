-- ===== src/Msd/Lun.antt =====
-- src/otg/msd.rs, the LUN of the mass storage function: `configure_lun`, `disconnect_lun` and the file that
-- a LUN has. The directory of the LUN in configfs is a parameter: what its files answer, and what the
-- kernel's documentation says of them. The sleeps are left out.
pub mod Mounted
pub mod Emptied
pub mod ReadOnly
use one_kvm_stream_box.Base.{
  ℕ, zero, suc, Bool, true, false, ◌&&◌, ◌||◌, Option, none, some, ltb, if◌then◌else◌,
}
use Prim.Native.String.{String}
use text.Mathlib.Text.{◌==◌ as str_eq}

-- The files of a LUN's directory.
pub data Attribute : Type 0 where
  cdrom ro removable nofua file forced_eject : Attribute

-- `Path::exists` and `create_dir` on the directory, `Path::exists`, `fs::read_to_string` and `write_file` on
-- a file of it, and `trim` and `contains` of the standard library. A write returns the error's text, where
-- it fails.
pub record Configfs : Type 1 where
  pub State : Type 0
  pub is_dir : State → Bool
  pub create_dir : State → State × Option String
  pub has_file : Attribute → State → Bool
  pub read : Attribute → State → Option String
  pub write : Attribute → String → State → State × Option String
  pub trim : String → String
  pub contains : String → String → Bool

-- `fs::read_to_string(..).unwrap_or_default()`
abbrev pub or_empty : Option String → String
or_empty none = ""
or_empty (some s) = s

-- `MsdLunConfig`; the file's path, and the flags.
pub record MsdLunConfig : Type 0 where
  pub file : String
  pub cdrom : Bool
  pub ro : Bool
  pub removable : Bool
  pub nofua : Bool

unfoldable pub cdrom_config : String → MsdLunConfig
cdrom_config path = record { file = path; cdrom = true; ro = true; removable = true; nofua = true }

unfoldable pub disk_config : String → Bool → MsdLunConfig
disk_config path read_only = record {
  file = path;
  cdrom = false;
  ro = read_only;
  removable = true;
  nofua = true;
}

abbrev pub flag : Bool → String
flag b = if b then "1" else "0"

module _ (c : Configfs) where
  open c use {State, is_dir, create_dir, has_file, read, write, trim, contains}

  -- What a step does to the directory, and the text of its error.
  abbrev pub Step : Type 0
  Step = State → State × Option String

  abbrev pub and_then : Step → Step → Step
  and_then m k s = let (s', r) = m s in elim r [ none ↦ k s' | some e ↦ (s', some e) ]

  -- `read_attr`
  abbrev pub value : Attribute → State → String
  value a s = trim (or_empty (read a s))

  unfoldable pub ensure_dir : Step
  ensure_dir s = if is_dir s then (s, none) else create_dir s

  -- The error of the write is ignored.
  unfoldable pub eject : State → State
  eject s = if has_file forced_eject s then (write forced_eject "1" s).0 else (write file "" s).0

  -- Only a changed attribute is written.
  unfoldable pub write_changed : Attribute → (current : String) → Bool → Step
  write_changed a current b s = if str_eq current (flag b) then (s, none) else write a (flag b) s

  abbrev pub is_busy : String → Bool
  is_busy e = contains e "Device or resource busy" || contains e "os error 16"

  -- The attempts that are left, and the last error.
  unfoldable pub mount : ℕ → Option String → String → Step
  mount zero last path s = (s, last)
  mount (suc n) last path s =
      let (s', r) = write file path s in
      let again = λ (e : String). mount n (some e) path s' in
      elim r [ none ↦ (s', none) | some e ↦ if is_busy e && ltb 0 n then again e else (s', some e) ]

  -- `config.file.exists()` is `exists`.
  unfoldable pub mount_file : (exists : Bool) → String → Step
  mount_file exists path s = if exists then mount 5 none path s else (s, none)

  -- Behind the creation of the directory.
  unfoldable pub set_up : (exists : Bool) → MsdLunConfig → Step
  set_up exists config s =
      and_then (write_changed cdrom (value cdrom s) config.cdrom)
        (and_then (write_changed ro (value ro s) config.ro) (
          and_then (write_changed removable (value removable s) config.removable) (
            and_then (write_changed nofua (value nofua s) config.nofua)
              (mount_file exists config.file))))
        (eject s)

  unfoldable pub configure_lun : (exists : Bool) → MsdLunConfig → Step
  configure_lun exists config = and_then ensure_dir (set_up exists config)

  unfoldable pub clear_file : Step
  clear_file = write file ""

  unfoldable pub eject_or_clear : Step
  eject_or_clear s =
      let (s', r) = write forced_eject "1" s in
      elim r [ none ↦ (s', none) | some e ↦ clear_file s' ]

  unfoldable pub disconnect_lun : Step
  disconnect_lun s =
      if is_dir s
      then (if has_file forced_eject s then eject_or_clear s else clear_file s)
      else (s, none)

  unfoldable pub get_lun_file : State → Option String
  get_lun_file s = elim (read file s) [
    | none ↦ none
    | some content ↦ if str_eq (trim content) "" then none else some (trim content)
  ]

  unfoldable pub is_lun_connected : State → Bool
  is_lun_connected s = elim (get_lun_file s) [ none ↦ false | some path ↦ true ]
