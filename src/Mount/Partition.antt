-- ===== src/Mount/Partition.antt =====
-- The partition table and the parameters of the storage unit: `initialize_mbr`, `lba_to_chs`,
-- `guid_from_volume_id` and `StorageUnitParams::new`.
use Prim.Native.Nat.{bit_and, bit_or}
use or_isy_vra.Base.{
  ℕ, ◌+◌, ◌-◌, ◌*◌, ◌/◌, ◌%◌, ◌^◌, List, [], ◌∷◌, ◌++◌, replicate, Bool, false, not, ◌||◌, ltb,
  ◌==◌, min, if◌then◌else◌, codes,
}
use or_isy_vra.Base.Bytes.{slice, copy_at, le_bytes, from_le}
use or_isy_vra.Base.Results.{Result, ok, err, stuck, fail_if, ◌>>◌}
use or_isy_vra.Crypto.{Crypto}
use or_isy_vra.Volume.Layout.{VolumeError, VolumeResult}
use or_isy_vra.Volume.Device.{Device, sync}
use or_isy_vra.Volume.Blocks.{Volume}
use or_isy_vra.Mount.{sector_size, read_bytes, write_bytes}

-- `lba_to_chs`: head, sector with the high bits of the cylinder, and cylinder.
unfoldable pub chs_bytes : ℕ → ℕ → ℕ → List ℕ
chs_bytes cylinder head sector =
    head % 256
    ∷ bit_or (bit_and sector 63) (bit_and (cylinder / 4) 192) % 256
    ∷ bit_and cylinder 255
    ∷ []

unfoldable pub lba_to_chs : ℕ → List ℕ
lba_to_chs lba =
    let cylinder = lba / (255 * 63) in
    if ltb 1023 cylinder
    then chs_bytes 1023 254 63
    else chs_bytes cylinder (lba / 63 % 255) (lba % 63 + 1)

pub record Guid : Type 0 where
  pub data1 : ℕ
  pub data2 : ℕ
  pub data3 : ℕ
  pub data4 : List ℕ

unfoldable pub guid_from_volume_id : List ℕ → Guid
guid_from_volume_id volume_id = record {
  data1 = from_le (slice 0 4 volume_id);
  data2 = from_le (slice 4 6 volume_id);
  data3 = from_le (slice 6 8 volume_id);
  data4 = slice 8 16 volume_id;
}

-- Without the padding and the reserved words, which are zero.
pub record StorageUnitParams : Type 0 where
  pub guid : Guid
  pub block_count : ℕ
  pub block_length : ℕ
  pub product_id : List ℕ
  pub product_revision_level : List ℕ
  pub device_type : ℕ
  pub flags : ℕ
  pub max_transfer_length : ℕ

-- `StorageUnitParams::new`.
unfoldable pub new_params : List ℕ → ℕ → Bool → StorageUnitParams
new_params volume_id block_count read_only = record {
  guid = guid_from_volume_id volume_id;
  block_count = block_count;
  block_length = sector_size;
  product_id = codes "OrIsyVra Volume" ++ (32 ∷ []);
  product_revision_level = codes "0.2 ";
  device_type = 0;
  flags = bit_or (if read_only then 1 else 0) 2;
  max_transfer_length = 64 * 1024;
}

pub data MbrError : Type 0 where
  too_small : MbrError
  not_divisible : MbrError
  not_empty : MbrError
  no_space : MbrError
  too_many_sectors : MbrError
  volume_failed : VolumeError → MbrError

unfoldable pub any_nonzero : List ℕ → Bool
any_nonzero [] = false
any_nonzero (b ∷ bytes) = not (b == 0) || any_nonzero bytes

-- The bytes of the table, for a partition from `start_lba` of so many sectors.
unfoldable pub mbr_bytes : List ℕ → ℕ → ℕ → List ℕ
mbr_bytes volume_id start_lba partition_count =
    let last_lba = min (start_lba + partition_count) (2 ^ 32 - 1) in
    let code = copy_at 0 (205 ∷ 24 ∷ 244 ∷ 235 ∷ 253 ∷ []) (replicate 512 0) in
    let signed = copy_at 440 (slice 0 4 volume_id) code in
    let first = copy_at 447 (lba_to_chs start_lba) signed in
    let kind = copy_at 450 (7 ∷ []) first in
    let last = copy_at 451 (lba_to_chs last_lba) kind in
    let start = copy_at 454 (le_bytes 4 start_lba) last in
    let count = copy_at 458 (le_bytes 4 partition_count) start in copy_at 510 (85 ∷ 170 ∷ []) count

-- The checks before the table is made: the count of sectors of the partition.
unfoldable pub partition_count : ℕ → Result MbrError ℕ
partition_count logical_capacity =
    let sectors = logical_capacity / sector_size in
    let start_lba = 1024 * 1024 / sector_size in
    if ltb sectors start_lba
    then err no_space
    else if ltb (2 ^ 32 - 1) (sectors - start_lba)
    then err too_many_sectors
    else ok (sectors - start_lba)

unfoldable pub check_empty : VolumeResult Unit × List ℕ → Result MbrError Unit
check_empty (ok u, sector) = fail_if (any_nonzero sector) not_empty
check_empty (err e, sector) = err (volume_failed e)
check_empty (stuck, sector) = stuck

unfoldable pub check_volume : Crypto → Volume → List ℕ → Result MbrError ℕ
check_volume c v content = do
  fail_if (ltb v.bootstrap.logical_capacity (16 * 1024 * 1024)) too_small
  fail_if (not (v.bootstrap.logical_capacity % sector_size == 0)) not_divisible
  check_empty (read_bytes c v content 0 (replicate 512 0))
  partition_count v.bootstrap.logical_capacity

abbrev pub map_failed : {A : Type 0} → VolumeResult A → Result MbrError A
map_failed (ok a) = ok a
map_failed (err e) = err (volume_failed e)
map_failed stuck = stuck

-- `write_bytes(...)?` and `volume.sync()?`.
unfoldable pub then_sync :
    VolumeResult Unit × Volume × Device → Result MbrError Unit × Volume × Device
then_sync (ok u, v, d) = let (r, d') = sync d in (map_failed r, v, d')
then_sync (err e, v, d) = (err (volume_failed e), v, d)
then_sync (stuck, v, d) = (stuck, v, d)

unfoldable pub initialize_mbr : Crypto → Volume → Device → Result MbrError Unit × Volume × Device
initialize_mbr c v d = elim (check_volume c v d.content) [
  | ok count ↦
      then_sync
        (write_bytes c v 0 (mbr_bytes v.bootstrap.volume_id (1024 * 1024 / sector_size) count) d)
  | err e ↦ (err e, v, d)
  | stuck ↦ (stuck, v, d)
]
