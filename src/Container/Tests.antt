-- ===== src/Container/Tests.antt =====
-- The container's theorems at concrete files, with the toy cryptography.
use or_isy_vra.Base.{
  ℕ, ◌≡◌, ◌↔◌, refl, arith, List, [], ◌∷◌, length, replicate, All-replicate, length-replicate, some,
}
use or_isy_vra.Base.Words.{IsByte}
use or_isy_vra.Base.Results.{ok}
use or_isy_vra.Crypto.Toy.{toy, toy-IsAead, toy-HasDigests}
use or_isy_vra.Container.Header.{Header, guarded, encode_header, decode_header}
use or_isy_vra.Container.Header.Codec.{IsHeader, encode_header-IsBytes, decode_header_iff}
use or_isy_vra.Container.Keys.{NativeKeys, derive_native_keys}
use or_isy_vra.Container.Record.{seal_native, open_native}
use or_isy_vra.Container.Record.Sealing.{open_native_iff}
use or_isy_vra.Container.Encrypt.{Session, started, encrypt_loop}
use or_isy_vra.Container.Encrypt.Filling.{encrypt_loop_reads}
use or_isy_vra.Container.Keys.{GuardKeys}
use or_isy_vra.Base.Bytes.{IsBytes}
use or_isy_vra.Container.Encrypt.{Reader}
use or_isy_vra.Base.{◌⊎◌, codes}
use or_isy_vra.Container.Guard.{guard_nonce}
use or_isy_vra.Container.Guard.Nonces.{nonce_message, Collides, guard_nonce-distinct}
use or_isy_vra.Base.{ℕ}
use or_isy_vra.Container.Files.{FilePath, path_eq, input_at}
use or_isy_vra.Container.Files.Paths.{PathsOutcome, Encrypted, encrypt_file_outcome}
use or_isy_vra.Container.Files.Written.{calm, encrypt_file-written}
use or_isy_vra.Base.Bytes.{bytes_eq}
use or_isy_vra.Container.Manifest.{native_manifest_inner, verify_manifest_inner}
use or_isy_vra.Container.Manifest.Verified.{
  native_manifest_inner-IsBytes, verify_manifest_inner_iff,
}
use or_isy_vra.Container.Encrypt.{encrypt_bytes}
use or_isy_vra.Container.Decrypt.{info_of, decrypt_bytes}
use or_isy_vra.Container.RoundTrip.WholeFile.{decrypt-encrypt}
use or_isy_vra.Base.{false, true, none}
use or_isy_vra.Base.Results.{err}
use or_isy_vra.Errors.{io, other}
use or_isy_vra.Container.Encrypt.{EncryptOptions}
use or_isy_vra.Container.Files.{
  Disk, ◌>>=◌, call, remove_output, remove_old, persist, persist_output, encrypt_file,
}

abbrev example_header : Header
example_header = record {
  version = 1;
  mode = guarded;
  flags = 0;
  chunk_size = 4096;
  salt = replicate 32 8;
  file_id = replicate 32 9;
}

example_header-IsHeader : IsHeader example_header
example_header-IsHeader = record {
  current = refl;
  no_flags = refl;
  not_small = omega arith;
  not_large = omega arith;
  salt_bytes = record { size = refl; all = All-replicate IsByte 32 8 (omega arith) };
  file_id_bytes = record { size = refl; all = All-replicate IsByte 32 9 (omega arith) };
}

decode_header_iff_example :
    (decode_header (encode_header example_header) ≡ ok example_header)
    ↔ (IsHeader example_header × (encode_header example_header ≡ encode_header example_header))
decode_header_iff_example =
    decode_header_iff (encode_header example_header) example_header
      (encode_header-IsBytes example_header example_header-IsHeader)

abbrev example_keys : NativeKeys
example_keys = derive_native_keys (replicate 48 1) example_header

abbrev three_bytes : List ℕ
three_bytes = 10 ∷ 20 ∷ 30 ∷ []

open_native_iff_example :
    (open_native example_keys (replicate 32 2) 5 3 (replicate 35 0) ≡ ok three_bytes) ↔ (
      (seal_native example_keys (replicate 32 2) 5 three_bytes ≡ ok (replicate 35 0))
      × (length three_bytes ≡ 3))
open_native_iff_example =
    open_native_iff example_keys (replicate 32 2) 5 3 (replicate 35 0) three_bytes (omega arith)

abbrev example_session : Session
example_session = record {
  header = example_header;
  header_bytes = encode_header example_header;
  native_keys = example_keys;
  guard_keys = some (record { key = replicate 32 3; nonce_key = replicate 32 3 });
  binding = replicate 32 2;
}

encrypt_loop_reads_example :
    encrypt_loop toy example_session 4
      (record { content = 1 ∷ 2 ∷ 3 ∷ []; plan = 1 ∷ 1 ∷ [] })
      (started example_session)
    ≡ encrypt_loop toy example_session 4
        (record { content = 1 ∷ 2 ∷ 3 ∷ []; plan = [] })
        (started example_session)
encrypt_loop_reads_example =
    encrypt_loop_reads toy example_session 4
      (record { content = 1 ∷ 2 ∷ 3 ∷ []; plan = 1 ∷ 1 ∷ [] })
      (record { content = 1 ∷ 2 ∷ 3 ∷ []; plan = [] }) (started example_session) refl

abbrev example_guard_keys : GuardKeys
example_guard_keys = record { key = replicate 32 3; nonce_key = replicate 32 3 }

same_nonce :
    guard_nonce toy example_guard_keys example_header 5 1
    ≡ guard_nonce toy example_guard_keys example_header 6 2
unfolding guard_nonce
same_nonce = refl

-- The toy HMAC gives the same bytes for every message.
guard_nonce-distinct_example :
    ((example_header.file_id ≡ example_header.file_id) × ◌≡◌ {A = ℕ} 5 6 × ◌≡◌ {A = ℕ} 1 2)
    ⊎ Collides toy example_guard_keys
        (nonce_message example_header 5 1)
        (nonce_message example_header 6 2)
guard_nonce-distinct_example =
    guard_nonce-distinct toy example_guard_keys example_header example_header 5 6 1 2
      example_header-IsHeader example_header-IsHeader (omega arith) (omega arith) same_nonce

example_digest-IsBytes : IsBytes 48 (replicate 48 5)
example_digest-IsBytes = record { size = refl; all = All-replicate IsByte 48 5 (omega arith) }

abbrev example_inner : List ℕ
example_inner = native_manifest_inner example_keys (replicate 32 2) 4099 2 (replicate 48 5)

verify_manifest_inner_iff_example :
    (verify_manifest_inner example_keys (replicate 32 2) example_inner 4099 2 (replicate 48 5)
      ≡ ok tt)
    ↔ (native_manifest_inner example_keys (replicate 32 2) 4099 2 (replicate 48 5) ≡ example_inner)
verify_manifest_inner_iff_example =
    verify_manifest_inner_iff example_keys (replicate 32 2) example_inner 4099 2 (replicate 48 5)
      (native_manifest_inner-IsBytes example_keys (replicate 32 2) 4099 2 (replicate 48 5)
        example_digest-IsBytes).all
      (omega arith) (omega arith) example_digest-IsBytes

abbrev example_master : List ℕ
example_master = replicate 48 1

-- An input of 5000 bytes, so of two chunks, that comes in reads of three and of forty bytes first.
abbrev example_reader : Reader
example_reader = record { content = replicate 5000 17; plan = 3 ∷ 40 ∷ [] }

decrypt-encrypt_example :
    (file : List ℕ) × (encrypt_bytes toy example_master example_header example_reader ≡ ok file)
    × (decrypt_bytes toy example_master file ≡ ok (replicate 5000 17, info_of example_header))
decrypt-encrypt_example =
    decrypt-encrypt toy example_master example_header example_reader toy-IsAead toy-HasDigests
      example_header-IsHeader (All-replicate IsByte 5000 17 (omega arith))
      (rw (length-replicate {A = ℕ} 5000 17) (omega arith))

-- An output that is there, and a run whose last call, the one that persists, fails.
abbrev example_disk : Disk
example_disk = record {
  input = some (replicate 5000 17);
  output = some (1 ∷ 2 ∷ 3 ∷ []);
  plan = false ∷ false ∷ true ∷ [];
}

-- `in` and `./in`, which name the same file.
abbrev in_path : FilePath
in_path = codes "in" ∷ []

abbrev dot_in_path : FilePath
dot_in_path = codes "." ∷ codes "in" ∷ []

abbrev one_file : FilePath → ℕ
one_file path = 0

abbrev example_options : EncryptOptions
example_options = record { mode = guarded; chunk_size = 4096; overwrite = true }

encrypt_file_outcome_example :
    PathsOutcome one_file in_path dot_in_path
      (Encrypted one_file in_path dot_in_path toy example_master example_options
        (replicate 32 8)
        (replicate 32 9)
        (3 ∷ [])
        example_disk)
      example_disk
      (encrypt_file toy one_file example_master example_options
        (replicate 32 8)
        (replicate 32 9)
        (3 ∷ [])
        in_path
        dot_in_path
        "./in"
        example_disk).1
encrypt_file_outcome_example =
    encrypt_file_outcome one_file in_path dot_in_path toy example_master example_options
      (replicate 32 8) (replicate 32 9) (3 ∷ []) "./in" example_disk

paths_differ : path_eq in_path dot_in_path ≡ false
unfolding path_eq bytes_eq
paths_differ = refl

abbrev example_content : List ℕ
example_content = replicate 5000 17

-- The input is replaced by its encryption.
encrypt_file-written_example :
    (file : List ℕ) × (encrypt_file toy one_file example_master example_options
        (replicate 32 8)
        (replicate 32 9)
        (3 ∷ [])
        in_path
        dot_in_path
        "./in"
        (calm none (some example_content))
      ≡ (ok tt, calm none (some file)))
    × (decrypt_bytes toy example_master file ≡ ok (example_content, info_of example_header))
    × (input_at true (calm none (some file)) ≡ some file)
encrypt_file-written_example =
    encrypt_file-written toy one_file example_master example_options (replicate 32 8)
      (replicate 32 9) (3 ∷ []) in_path dot_in_path "./in" none (some example_content)
      example_content toy-IsAead toy-HasDigests example_header-IsHeader paths_differ refl
      (All-replicate IsByte 5000 17 (omega arith))
      (rw (length-replicate {A = ℕ} 5000 17) (omega arith)) refl

-- Where the call that persists fails behind the removal, the old output is gone.
persist_output_removed :
    persist_output (4 ∷ []) true example_disk
    ≡ (err (io other), record example_disk { output = none; plan = [] })
unfolding persist_output remove_old remove_output persist call ◌>>=◌
persist_output_removed = refl
