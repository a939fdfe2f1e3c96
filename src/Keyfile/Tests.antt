-- ===== src/Keyfile/Tests.antt =====
-- The key capsule's theorems at a concrete capsule, with the toy cryptography.
use or_isy_vra.Base.{ℕ, ◌≡◌, ◌↔◌, refl, arith, List, length, replicate, All-replicate}
use or_isy_vra.Base.Words.{IsByte}
use or_isy_vra.Base.Bytes.{IsBytes}
use or_isy_vra.Base.Results.{ok}
use or_isy_vra.Crypto.Toy.{toy, toy-IsAead, toy-HasArgon2}
use or_isy_vra.Keyfile.{
  default_params, keyfile_size, encode_key_header, decode_key_header, validate_keyfile_bytes,
  encode_keyfile_bytes, unlock_keyfile_bytes,
}
use or_isy_vra.Keyfile.Codec.{IsParams, encode_key_header-IsBytes, decode_key_header_iff}
use or_isy_vra.Keyfile.Unlock.{unlock-encode}
use or_isy_vra.Base.{none, true, false, [], ◌∷◌}
use or_isy_vra.Container.Files.{Disk}
use or_isy_vra.Container.Files.Outcome.{FileOutcome}
use or_isy_vra.Keyfile.Files.{create_keyfile, Capsule, create_keyfile_outcome}

abbrev salt : List ℕ
salt = replicate 16 1

abbrev nonce : List ℕ
nonce = replicate 24 2

abbrev master : List ℕ
master = replicate 48 3

abbrev password : List ℕ
password = replicate 13 97

salt-IsBytes : IsBytes 16 salt
salt-IsBytes = record { size = refl; all = All-replicate IsByte 16 1 (omega arith) }

nonce-IsBytes : IsBytes 24 nonce
nonce-IsBytes = record { size = refl; all = All-replicate IsByte 24 2 (omega arith) }

master-IsBytes : IsBytes 48 master
master-IsBytes = record { size = refl; all = All-replicate IsByte 48 3 (omega arith) }

default_params-IsParams : IsParams default_params
default_params-IsParams = record {
  memory_min = omega arith;
  memory_max = omega arith;
  iterations_min = omega arith;
  iterations_max = omega arith;
  parallelism_min = omega arith;
  parallelism_max = omega arith;
}

decode_key_header_iff_example :
    (decode_key_header (encode_key_header default_params salt nonce)
      ≡ ok (default_params, salt, nonce))
    ↔ (IsParams default_params
        × IsBytes 16 salt
        × IsBytes 24 nonce
        × (encode_key_header default_params salt nonce
            ≡ encode_key_header default_params salt nonce))
decode_key_header_iff_example =
    decode_key_header_iff (encode_key_header default_params salt nonce) default_params salt nonce
      (encode_key_header-IsBytes default_params salt nonce salt-IsBytes nonce-IsBytes)

unlock-encode_example :
    (file : List ℕ) × (encode_keyfile_bytes toy master password default_params salt nonce ≡ ok file)
    × (length file ≡ keyfile_size)
    × (validate_keyfile_bytes file ≡ ok tt)
    × (unlock_keyfile_bytes toy file password ≡ ok master)
unlock-encode_example =
    unlock-encode toy master password default_params salt nonce toy-IsAead toy-HasArgon2
      master-IsBytes (omega arith) (omega arith) default_params-IsParams salt-IsBytes nonce-IsBytes

abbrev example_disk : Disk
example_disk = record { input = none; output = none; plan = false ∷ true ∷ [] }

create_keyfile_outcome_example :
    FileOutcome
      (Capsule toy password default_params master salt nonce)
      example_disk
      (create_keyfile toy "new.orisyvra-key" password default_params true master salt nonce
        example_disk).1
create_keyfile_outcome_example =
    create_keyfile_outcome toy "new.orisyvra-key" password default_params true master salt nonce
      example_disk
