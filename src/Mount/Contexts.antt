-- ===== src/Mount/Contexts.antt =====
-- The mounts by storage unit, and the status of a request.
use or_isy_vra.Base.{ℕ, ◌^◌, List, [], ◌∷◌, Option, none, some, Bool, ◌==◌, if◌then◌else◌}
use or_isy_vra.Volume.Device.{Device}
use or_isy_vra.Volume.Blocks.{Volume}

pub record StorageUnitStatus : Type 0 where
  pub scsi_status : ℕ
  pub sense_key : ℕ
  pub asc : ℕ
  pub ascq : ℕ
  pub information : ℕ
  pub reserved_csi : ℕ
  pub reserved_sks : ℕ
  pub flags : ℕ

-- The volume, with the file that it owns, behind its lock.
pub record MountContext : Type 0 where
  pub volume : Volume
  pub device : Device
  pub read_only : Bool
  pub poisoned : Bool

-- `contexts()`: the mounts by storage unit, behind a lock of their own.
pub record Contexts : Type 0 where
  pub mounts : List (ℕ × MountContext)
  pub poisoned : Bool

unfoldable pub find : ℕ → List (ℕ × MountContext) → Option MountContext
find storage_unit [] = none
find storage_unit ((unit, context) ∷ mounts) =
    let rest = find storage_unit mounts in if unit == storage_unit then some context else rest

-- The shared context as a request left it.
unfoldable pub put : ℕ → MountContext → List (ℕ × MountContext) → List (ℕ × MountContext)
put storage_unit context [] = []
put storage_unit context ((unit, old) ∷ mounts) =
    let rest = put storage_unit context mounts in
    if unit == storage_unit then (unit, context) ∷ mounts else (unit, old) ∷ rest

unfoldable pub context_for : Contexts → ℕ → Option MountContext
context_for contexts storage_unit =
    if contexts.poisoned then none else find storage_unit contexts.mounts

abbrev pub keep_context : Contexts → ℕ → MountContext → Contexts
keep_context contexts storage_unit context = record contexts {
  mounts = put storage_unit context contexts.mounts;
}

-- The codes of the source.
abbrev pub scsistat_good : ℕ
scsistat_good = 0

abbrev pub scsistat_check_condition : ℕ
scsistat_check_condition = 2

abbrev pub sense_medium_error : ℕ
sense_medium_error = 3

abbrev pub sense_illegal_request : ℕ
sense_illegal_request = 5

abbrev pub asc_unrecovered_read_error : ℕ
asc_unrecovered_read_error = 17

abbrev pub asc_write_error : ℕ
asc_write_error = 12

abbrev pub asc_lba_out_of_range : ℕ
asc_lba_out_of_range = 33

abbrev pub default_status : StorageUnitStatus
default_status = record {
  scsi_status = 0;
  sense_key = 0;
  asc = 0;
  ascq = 0;
  information = 0;
  reserved_csi = 0;
  reserved_sks = 0;
  flags = 0;
}

-- The status is written unless its pointer is null, which is `none`.
unfoldable pub set_good : Option StorageUnitStatus → Option StorageUnitStatus
set_good none = none
set_good (some old) = some (record default_status { scsi_status = scsistat_good })

abbrev pub with_information : Option ℕ → StorageUnitStatus → StorageUnitStatus
with_information none status = status
with_information (some information) status = record status {
  information = information;
  flags = 2 ^ 8;
}

unfoldable pub set_error : ℕ → ℕ → Option ℕ → Option StorageUnitStatus → Option StorageUnitStatus
set_error sense_key asc information none = none
set_error sense_key asc information (some old) = some (
    with_information information (record default_status {
      scsi_status = scsistat_check_condition;
      sense_key = sense_key;
      asc = asc;
    }))
