-- ===== src/Keyfile.antt =====
-- crates/orisyvra/src/keyfile.rs: the key capsule, a master key wrapped under a passphrase.
pub mod Codec
pub mod Unlock
pub mod Files
mod Tests
use or_isy_vra.Base.{
  ℕ, ◌+◌, ◌*◌, List, [], ◌∷◌, ◌++◌, length, take, drop, replicate, ltb, ◌==◌, not, ◌||◌, codes,
}
use or_isy_vra.Base.Bytes.{le_bytes, from_le, slice, copy_at, bytes_eq}
use or_isy_vra.Base.Results.{ok, ◌>>=◌, ◌>>◌, ok_or, fail_if}
use or_isy_vra.Errors.{Checked, invalid_input, invalid_format, crypto, authentication_failed}
use or_isy_vra.Crypto.{Crypto}

abbrev pub key_magic : List ℕ
key_magic = codes "OYVKEY1" ++ (0 ∷ [])

abbrev pub key_version : ℕ
key_version = 1

abbrev pub master_key_size : ℕ
master_key_size = 48

abbrev pub wrapped_key_size : ℕ
wrapped_key_size = master_key_size + 16

abbrev pub key_header_size : ℕ
key_header_size = 64

abbrev pub keyfile_size : ℕ
keyfile_size = key_header_size + wrapped_key_size

pub record KeyfileParams : Type 0 where
  pub memory_kib : ℕ
  pub iterations : ℕ
  pub parallelism : ℕ

-- `KeyfileParams::default`.
abbrev pub default_params : KeyfileParams
default_params = record { memory_kib = 64 * 1024; iterations = 3; parallelism = 1 }

unfoldable pub validate_password : List ℕ → Checked Unit
validate_password password =
    fail_if (ltb (length password) 12) (invalid_input "passphrase must contain at least 12 bytes")

unfoldable pub validate_params : KeyfileParams → Checked Unit
validate_params p = do
  fail_if (ltb p.memory_kib (8 * 1024) || ltb (1024 * 1024) p.memory_kib)
      (invalid_input "Argon2 memory must be between 8192 KiB and 1048576 KiB")
  fail_if (p.iterations == 0 || ltb 32 p.iterations)
      (invalid_input "Argon2 iterations must be between 1 and 32")
  fail_if (p.parallelism == 0 || ltb 16 p.parallelism)
      (invalid_input "Argon2 parallelism must be between 1 and 16")

unfoldable pub derive_wrapping_key : Crypto → List ℕ → List ℕ → KeyfileParams → Checked (List ℕ)
derive_wrapping_key c password salt p = do
  validate_params p
  fail_if (not (c.argon2_params p.memory_kib p.iterations p.parallelism))
      (crypto "invalid Argon2id parameters")
  ok_or (c.argon2id password salt p.memory_kib p.iterations p.parallelism)
      (crypto "Argon2id key derivation failed")

unfoldable pub encode_key_header : KeyfileParams → List ℕ → List ℕ → List ℕ
unfolding copy_at
encode_key_header p salt nonce =
    let b1 = copy_at 0 key_magic (replicate key_header_size 0) in
    let b2 = copy_at 8 (le_bytes 2 key_version) b1 in
    let b3 = copy_at 10 (le_bytes 4 p.memory_kib) b2 in
    let b4 = copy_at 14 (le_bytes 4 p.iterations) b3 in
    let b5 = copy_at 18 (le_bytes 4 p.parallelism) b4 in
    let b6 = copy_at 22 salt b5 in
    let b7 = copy_at 38 nonce b6 in copy_at 62 (le_bytes 2 wrapped_key_size) b7

-- The checks of `decode_header`, on what it reads from the array.
unfoldable pub checked_key_header :
    List ℕ → ℕ → KeyfileParams → List ℕ → List ℕ → ℕ → Checked (KeyfileParams × List ℕ × List ℕ)
checked_key_header magic version p salt nonce wrapped_size = do
  fail_if (not (bytes_eq magic key_magic)) (invalid_format "not an OrIsyVra key capsule")
  fail_if (not (version == key_version)) (invalid_format "unsupported key capsule version")
  validate_params p
  fail_if (not (wrapped_size == wrapped_key_size)) (invalid_format "unexpected wrapped-key length")
  ok (p, salt, nonce)

unfoldable pub decode_key_header : List ℕ → Checked (KeyfileParams × List ℕ × List ℕ)
decode_key_header bytes =
    checked_key_header (slice 0 8 bytes) (from_le (slice 8 10 bytes))
      (record {
        memory_kib = from_le (slice 10 14 bytes);
        iterations = from_le (slice 14 18 bytes);
        parallelism = from_le (slice 18 22 bytes);
      })
      (slice 22 38 bytes) (slice 38 62 bytes) (from_le (slice 62 64 bytes))

unfoldable pub validate_keyfile_bytes : List ℕ → Checked Unit
validate_keyfile_bytes bytes = do
  fail_if (not (length bytes == keyfile_size)) (invalid_format "unexpected key capsule size")
  header ← decode_key_header (take key_header_size bytes)
  ok tt

-- `XChaCha20Poly1305::new_from_slice(wrapping_key)`, then `encrypt` or `decrypt`.
unfoldable pub wrap : Crypto → List ℕ → List ℕ → List ℕ → List ℕ → Checked (List ℕ)
wrap c wrapping_key nonce master header = do
  fail_if (not (length wrapping_key == 32)) (crypto "invalid wrapping key")
  ok_or (c.seal wrapping_key nonce master header) (crypto "key capsule encryption failed")

unfoldable pub unwrap : Crypto → List ℕ → List ℕ → List ℕ → List ℕ → Checked (List ℕ)
unwrap c wrapping_key nonce wrapped header = do
  fail_if (not (length wrapping_key == 32)) (crypto "invalid wrapping key")
  ok_or (c.unseal wrapping_key nonce wrapped header) authentication_failed

-- The random salt and nonce are arguments.
unfoldable pub encode_keyfile_bytes :
    Crypto → List ℕ → List ℕ → KeyfileParams → List ℕ → List ℕ → Checked (List ℕ)
encode_keyfile_bytes c master password p salt nonce = do
  validate_password password
  validate_params p
  let header = encode_key_header p salt nonce
  wrapping_key ← derive_wrapping_key c password salt p
  wrapped ← wrap c wrapping_key nonce master header
  fail_if (not (length wrapped == wrapped_key_size)) (crypto "unexpected key capsule size")
  ok (header ++ wrapped)

unfoldable pub unlock_keyfile_bytes : Crypto → List ℕ → List ℕ → Checked (List ℕ)
unlock_keyfile_bytes c bytes password = do
  validate_keyfile_bytes bytes
  let header = take key_header_size bytes
  (p, salt, nonce) ← decode_key_header header
  wrapping_key ← derive_wrapping_key c password salt p
  plaintext ← unwrap c wrapping_key nonce (drop key_header_size bytes) header
  fail_if (not (length plaintext == master_key_size)) (invalid_format "unexpected master-key size")
  ok plaintext
