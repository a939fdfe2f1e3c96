-- ===== src/Volume/Layout.antt =====
-- The volume's on-disk structures: the bootstrap, the superblock's payload and the record header.
pub mod RecordCodec
pub mod SuperCodec
use Prim.Native.Nat.{bit_and}
use Prim.Native.String.{String}
use or_isy_vra.Base.{
  ℕ, ◌+◌, ◌-◌, ◌*◌, ◌/◌, ◌%◌, List, [], ◌∷◌, ◌++◌, length, replicate, get_or, Bool, true, false,
  ltb, leb, ◌==◌, not, ◌&&◌, ◌||◌, if◌then◌else◌, codes,
}
use or_isy_vra.Base.Bytes.{le_bytes, from_le, slice, copy_at, bytes_eq}
use or_isy_vra.Base.Results.{Result, ok, err, ◌>>=◌, ◌>>◌, fail_if}
use or_isy_vra.Errors.{IoError}

pub data VolumeError : Type 0 where
  io : IoError → VolumeError
  invalid_format : String → VolumeError
  invalid_input : String → VolumeError
  authentication_failed : VolumeError
  corrupt : String → VolumeError
  block_out_of_range : VolumeError

abbrev pub VolumeResult : Type 0 → Type 0
VolumeResult A = Result VolumeError A

abbrev pub volume_magic : List ℕ
volume_magic = codes "OYVVOL1" ++ (0 ∷ [])

abbrev pub super_magic : List ℕ
super_magic = codes "OYVSB1" ++ (0 ∷ 0 ∷ [])

abbrev pub record_magic : List ℕ
record_magic = codes "OYVB"

abbrev pub volume_version : ℕ
volume_version = 1

abbrev pub bootstrap_size : ℕ
bootstrap_size = 256

abbrev pub super_slot_size : ℕ
super_slot_size = 512

abbrev pub super_a_offset : ℕ
super_a_offset = bootstrap_size

abbrev pub super_b_offset : ℕ
super_b_offset = super_a_offset + super_slot_size

abbrev pub log_start : ℕ
log_start = 4096

abbrev pub super_plaintext_size : ℕ
super_plaintext_size = 64

abbrev pub record_header_size : ℕ
record_header_size = 32

abbrev pub tag_size : ℕ
tag_size = 16

abbrev pub min_block_size : ℕ
min_block_size = 4096

abbrev pub max_block_size : ℕ
max_block_size = 16 * 1024 * 1024

pub record VolumeOptions : Type 0 where
  pub logical_capacity : ℕ
  pub block_size : ℕ

-- `u32::is_power_of_two`.
unfoldable pub is_power_of_two : ℕ → Bool
is_power_of_two n = not (n == 0) && bit_and n (n - 1) == 0

unfoldable pub validate_options : VolumeOptions → VolumeResult Unit
validate_options options = do
  fail_if (options.logical_capacity == 0)
      (invalid_input "logical capacity must be greater than zero")
  fail_if
      (not (leb min_block_size options.block_size && leb options.block_size max_block_size)
        || not (is_power_of_two options.block_size))
      (invalid_input "block size must be a power of two between 4096 and 16777216")

pub record Bootstrap : Type 0 where
  pub version : ℕ
  pub logical_capacity : ℕ
  pub block_size : ℕ
  pub volume_id : List ℕ
  pub salt : List ℕ

-- `Bootstrap::new`; the random identifier and salt are arguments.
unfoldable pub new_bootstrap : VolumeOptions → List ℕ → List ℕ → VolumeResult Bootstrap
new_bootstrap options volume_id salt = do
  validate_options options
  ok (record {
    version = volume_version;
    logical_capacity = options.logical_capacity;
    block_size = options.block_size;
    volume_id = volume_id;
    salt = salt;
  })

unfoldable pub encode_bootstrap : Bootstrap → List ℕ
unfolding copy_at
encode_bootstrap b =
    let b1 = copy_at 0 volume_magic (replicate bootstrap_size 0) in
    let b2 = copy_at 8 (le_bytes 2 b.version) b1 in
    let b3 = copy_at 10 (le_bytes 4 b.block_size) b2 in
    let b4 = copy_at 14 (le_bytes 8 b.logical_capacity) b3 in
    let b5 = copy_at 22 b.volume_id b4 in
    let b6 = copy_at 54 b.salt b5 in copy_at 86 (le_bytes 8 log_start) b6

-- The checks of `Bootstrap::decode`, on what it reads from the array.
unfoldable pub checked_bootstrap : List ℕ → ℕ → ℕ → ℕ → List ℕ → List ℕ → ℕ → VolumeResult Bootstrap
unfolding validate_options
checked_bootstrap magic version block_size logical_capacity volume_id salt start = do
  fail_if (not (bytes_eq magic volume_magic)) (invalid_format "not an OrIsyVra volume")
  fail_if (not (version == volume_version)) (invalid_format "unsupported volume version")
  fail_if (not (start == log_start)) (invalid_format "unexpected volume log offset")
  validate_options (record { logical_capacity = logical_capacity; block_size = block_size })
  ok (record {
    version = version;
    logical_capacity = logical_capacity;
    block_size = block_size;
    volume_id = volume_id;
    salt = salt;
  })

unfoldable pub decode_bootstrap : List ℕ → VolumeResult Bootstrap
decode_bootstrap bytes =
    checked_bootstrap (slice 0 8 bytes) (from_le (slice 8 10 bytes)) (from_le (slice 10 14 bytes))
      (from_le (slice 14 22 bytes)) (slice 22 54 bytes) (slice 54 86 bytes)
      (from_le (slice 86 94 bytes))

unfoldable pub block_count : Bootstrap → ℕ
block_count b =
    b.logical_capacity / b.block_size + (if b.logical_capacity % b.block_size == 0 then 0 else 1)

pub record SuperState : Type 0 where
  pub generation : ℕ
  pub committed_end : ℕ
  pub record_count : ℕ
  pub clean : Bool

abbrev pub flag_byte : Bool → ℕ
flag_byte false = 0
flag_byte true = 1

unfoldable pub encode_super : SuperState → List ℕ
unfolding copy_at
encode_super st =
    let b1 = copy_at 0 super_magic (replicate super_plaintext_size 0) in
    let b2 = copy_at 8 (le_bytes 8 st.generation) b1 in
    let b3 = copy_at 16 (le_bytes 8 st.committed_end) b2 in
    let b4 = copy_at 24 (le_bytes 8 st.record_count) b3 in copy_at 32 (flag_byte st.clean ∷ []) b4

unfoldable pub clean_flag : ℕ → VolumeResult Bool
clean_flag byte =
    if byte == 0
    then ok false
    else if byte == 1
    then ok true
    else err (corrupt "invalid superblock clean flag")

unfoldable pub decode_super : List ℕ → VolumeResult SuperState
unfolding clean_flag
decode_super bytes = do
  fail_if
      (not (length bytes == super_plaintext_size) || not (bytes_eq (slice 0 8 bytes) super_magic))
      (corrupt "invalid superblock payload")
  let committed_end = from_le (slice 16 24 bytes)
  clean ← clean_flag (get_or bytes 32 0)
  fail_if (ltb committed_end log_start) (corrupt "superblock points before the data log")
  ok (record {
    generation = from_le (slice 8 16 bytes);
    committed_end = committed_end;
    record_count = from_le (slice 24 32 bytes);
    clean = clean;
  })

pub record RecordHeader : Type 0 where
  pub block_index : ℕ
  pub generation : ℕ
  pub plaintext_len : ℕ
  pub ciphertext_len : ℕ

unfoldable pub encode_record_header : RecordHeader → List ℕ
unfolding copy_at
encode_record_header h =
    let b1 = copy_at 0 record_magic (replicate record_header_size 0) in
    let b2 = copy_at 4 (le_bytes 8 h.block_index) b1 in
    let b3 = copy_at 12 (le_bytes 8 h.generation) b2 in
    let b4 = copy_at 20 (le_bytes 4 h.plaintext_len) b3 in
    copy_at 24 (le_bytes 4 h.ciphertext_len) b4

unfoldable pub checked_record_header : List ℕ → List ℕ → ℕ → ℕ → ℕ → ℕ → VolumeResult RecordHeader
checked_record_header magic flags block_index generation plaintext_len ciphertext_len = do
  fail_if (not (bytes_eq magic record_magic)) (corrupt "invalid block-record magic")
  fail_if (not (bytes_eq flags (0 ∷ 0 ∷ 0 ∷ 0 ∷ []))) (corrupt "unsupported block-record flags")
  fail_if (not (ciphertext_len == plaintext_len + tag_size))
      (corrupt "invalid encrypted block length")
  ok (record {
    block_index = block_index;
    generation = generation;
    plaintext_len = plaintext_len;
    ciphertext_len = ciphertext_len;
  })

unfoldable pub decode_record_header : List ℕ → VolumeResult RecordHeader
decode_record_header bytes =
    checked_record_header (slice 0 4 bytes) (slice 28 32 bytes) (from_le (slice 4 12 bytes))
      (from_le (slice 12 20 bytes)) (from_le (slice 20 24 bytes)) (from_le (slice 24 28 bytes))
