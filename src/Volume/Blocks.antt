-- ===== src/Volume/Blocks.antt =====
-- An opened volume, and what it answers without changing.
use or_isy_vra.Base.{ℕ, List, length, Option, none, some, Bool, false, leb, ◌==◌, not, ◌||◌}
use or_isy_vra.Base.Results.{ok, ◌>>=◌, ◌>>◌, fail_if}
use or_isy_vra.Crypto.{Crypto}
use or_isy_vra.Volume.Layout.{
  VolumeResult, Bootstrap, bootstrap_size, decode_bootstrap, block_count, SuperState, RecordHeader,
  corrupt, block_out_of_range,
}
use or_isy_vra.Volume.Device.{read_at}
use or_isy_vra.Volume.Seals.{VolumeKeys}
use or_isy_vra.Volume.Log.{Index, RecordIndex, get, read_record_at}

-- The device is passed beside the volume.
pub record Volume : Type 0 where
  pub bootstrap : Bootstrap
  pub keys : VolumeKeys
  pub state : SuperState
  pub active_super : ℕ
  pub index : Index

pub record VolumeInfo : Type 0 where
  pub version : ℕ
  pub logical_capacity : ℕ
  pub block_size : ℕ
  pub volume_id : List ℕ
  pub generation : ℕ
  pub clean : Bool
  pub record_count : ℕ
  pub allocated_blocks : ℕ

-- `Volume::info`.
unfoldable pub info : Volume → VolumeInfo
info v = record {
  version = v.bootstrap.version;
  logical_capacity = v.bootstrap.logical_capacity;
  block_size = v.bootstrap.block_size;
  volume_id = v.bootstrap.volume_id;
  generation = v.state.generation;
  clean = v.state.clean;
  record_count = v.state.record_count;
  allocated_blocks = length v.index;
}

-- `Volume::inspect_public`, on the bytes of the file.
unfoldable pub inspect_public : List ℕ → VolumeResult VolumeInfo
inspect_public content = do
  bytes ← read_at 0 bootstrap_size content
  b ← decode_bootstrap bytes
  ok (record {
    version = b.version;
    logical_capacity = b.logical_capacity;
    block_size = b.block_size;
    volume_id = b.volume_id;
    generation = 0;
    clean = false;
    record_count = 0;
    allocated_blocks = 0;
  })

unfoldable pub validate_block_index : Volume → ℕ → VolumeResult Unit
validate_block_index v block_index =
    fail_if (leb (block_count v.bootstrap) block_index) block_out_of_range

abbrev pub other_metadata : RecordHeader → ℕ → RecordIndex → Bool
other_metadata header block_index entry =
    not (header.block_index == block_index)
    || (not (header.generation == entry.generation)
        || (not (header.plaintext_len == entry.plaintext_len)
            || not (header.ciphertext_len == entry.ciphertext_len)))

unfoldable pub read_indexed :
    Crypto → Volume → ℕ → Option RecordIndex → List ℕ → VolumeResult (Option (List ℕ))
read_indexed c v block_index none content = ok none
read_indexed c v block_index (some entry) content = do
  (header, plaintext) ← read_record_at c v.bootstrap v.keys entry.offset content
  fail_if (other_metadata header block_index entry) (corrupt "block index metadata mismatch")
  ok (some plaintext)

-- `Volume::read_block`.
unfoldable pub read_block : Crypto → Volume → ℕ → List ℕ → VolumeResult (Option (List ℕ))
read_block c v block_index content = do
  validate_block_index v block_index
  read_indexed c v block_index (get block_index v.index) content

abbrev pub generation_of : Option RecordIndex → Option ℕ
generation_of none = none
generation_of (some entry) = some entry.generation

-- `Volume::block_generation`.
unfoldable pub block_generation : Volume → ℕ → VolumeResult (Option ℕ)
block_generation v block_index = do
  validate_block_index v block_index
  ok (generation_of (get block_index v.index))
