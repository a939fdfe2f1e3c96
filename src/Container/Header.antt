-- ===== src/Container/Header.antt =====
-- The 80-byte file header: `Mode`, `Header::encode`, `Header::decode` and `validate_chunk_size`.
pub mod Codec
use or_isy_vra.Base.{
  ℕ, ◌*◌, List, [], ◌∷◌, replicate, ltb, leb, ◌==◌, not, ◌&&◌, get_or, codes, if◌then◌else◌,
}
use or_isy_vra.Base.Bytes.{le_bytes, from_le, slice, copy_at, bytes_eq}
use or_isy_vra.Base.Results.{Result, ok, err, ◌>>=◌, ◌>>◌, fail_if}
use or_isy_vra.Errors.{Error, Checked, invalid_format, invalid_input}

abbrev pub file_magic : List ℕ
file_magic = codes "OYVFILE1"

abbrev pub file_version : ℕ
file_version = 1

abbrev pub header_size : ℕ
header_size = 80

abbrev pub default_chunk_size : ℕ
default_chunk_size = 1024 * 1024

abbrev pub min_chunk_size : ℕ
min_chunk_size = 4 * 1024

abbrev pub max_chunk_size : ℕ
max_chunk_size = 16 * 1024 * 1024

pub data Mode : Type 0 where
  native_research guarded : Mode

-- `mode as u8`.
abbrev pub mode_byte : Mode → ℕ
mode_byte native_research = 0
mode_byte guarded = 1

unfoldable pub mode_from_byte : ℕ → Checked Mode
mode_from_byte value =
    if value == 0
    then ok native_research
    else if value == 1
    then ok guarded
    else err (invalid_format "unsupported encryption mode")

pub record Header : Type 0 where
  pub version : ℕ
  pub mode : Mode
  pub flags : ℕ
  pub chunk_size : ℕ
  pub salt : List ℕ
  pub file_id : List ℕ

unfoldable pub validate_chunk_size : ℕ → Checked Unit
validate_chunk_size chunk_size =
    fail_if (not (leb min_chunk_size chunk_size && leb chunk_size max_chunk_size))
      (invalid_input "chunk size must be between 4096 and 16777216 bytes")

-- `Header::new`; the random salt and file identifier are arguments.
unfoldable pub new_header : Mode → ℕ → List ℕ → List ℕ → Checked Header
unfolding validate_chunk_size
new_header mode chunk_size salt file_id = do
  validate_chunk_size chunk_size
  ok (record {
    version = file_version;
    mode = mode;
    flags = 0;
    chunk_size = chunk_size;
    salt = salt;
    file_id = file_id;
  })

unfoldable pub encode_header : Header → List ℕ
unfolding copy_at
encode_header h =
    let b1 = copy_at 0 file_magic (replicate header_size 0) in
    let b2 = copy_at 8 (le_bytes 2 h.version) b1 in
    let b3 = copy_at 10 (mode_byte h.mode ∷ []) b2 in
    let b4 = copy_at 11 (h.flags ∷ []) b3 in
    let b5 = copy_at 12 (le_bytes 4 h.chunk_size) b4 in
    let b6 = copy_at 16 h.salt b5 in copy_at 48 h.file_id b6

-- The checks of `Header::decode`, on what it reads from the array.
unfoldable pub checked_header : List ℕ → ℕ → ℕ → ℕ → ℕ → List ℕ → List ℕ → Checked Header
unfolding mode_from_byte validate_chunk_size
checked_header magic version mode_value flags chunk_size salt file_id = do
  fail_if (not (bytes_eq magic file_magic)) (invalid_format "not an OrIsyVra file")
  fail_if (not (version == file_version)) (invalid_format "unsupported file version")
  mode ← mode_from_byte mode_value
  fail_if (not (flags == 0)) (invalid_format "unsupported critical file flags")
  validate_chunk_size chunk_size
  ok (record {
    version = version;
    mode = mode;
    flags = flags;
    chunk_size = chunk_size;
    salt = salt;
    file_id = file_id;
  })

unfoldable pub decode_header : List ℕ → Checked Header
decode_header bytes =
    checked_header (slice 0 8 bytes) (from_le (slice 8 10 bytes)) (get_or bytes 10 0)
      (get_or bytes 11 0) (from_le (slice 12 16 bytes)) (slice 16 48 bytes) (slice 48 80 bytes)
