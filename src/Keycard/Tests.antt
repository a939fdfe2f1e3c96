-- ===== src/Keycard/Tests.antt =====
-- The theorems on visual keys at a capsule and a picture, and the texts of the card.
use or_isy_vra.Base.{
  ℕ, ◌≤◌, ◌<◌, ◌≡◌, ◌⊎◌, refl, arith, List, [], ◌∷◌, ◌++◌, replicate, All, All-replicate, none,
  some, false, codes,
}
use or_isy_vra.Base.Words.{IsByte}
use or_isy_vra.Base.Bytes.{IsBytes, bytes_eq, slice, le_bytes, from_le}
use or_isy_vra.Base.Fields.{concat}
use or_isy_vra.Base.Results.{ok}
use or_isy_vra.Crypto.Toy.{toy, toy-IsAead, toy-HasArgon2, toy-HasDigests}
use or_isy_vra.Keyfile.{
  default_params, encode_key_header, validate_keyfile_bytes, decode_key_header, checked_key_header,
  validate_params,
}
use or_isy_vra.Keyfile.Codec.{IsParams}
use or_isy_vra.Png.{png_signature, chunk, chunk_length, chunk_type, from_be_bytes, insert_loop}
use or_isy_vra.Keycard.{
  key_chunk_type, build_key_chunk, inject_key_chunk, extract_key_chunk, extract_loop,
  key_source_info, unlock_key_source,
}
use or_isy_vra.Keycard.RoundTrip.{extract-inject}
use or_isy_vra.Keycard.Files.{create_keycard}
use or_isy_vra.Keycard.Files.Created.{unlock-create_keycard}
use or_isy_vra.Keycard.Toy.{empty_png, toy_imaging, toy_imaging-EncodesPng}
use or_isy_vra.Keycard.Text.{text_width, wrap_text, fitted_scale, shrink}
use or_isy_vra.Keycard.Text.Wrapping.{strip, IsWord, wrap_text_lem, fitted_scale_lem}

abbrev salt : List ℕ
salt = replicate 16 1

abbrev nonce : List ℕ
nonce = replicate 24 2

abbrev master : List ℕ
master = replicate 48 3

abbrev password : List ℕ
password = replicate 13 97

abbrev capsule : List ℕ
capsule = encode_key_header default_params salt nonce ++ replicate 64 0

abbrev picture : List ℕ
picture =
    png_signature
    ++ (chunk key_chunk_type (codes "OYVPKY1" ++ (0 ∷ 128 ∷ 0 ∷ (capsule ++ replicate 32 6)))
        ++ slice 8 20 empty_png)

nothing_yet : extract_key_chunk toy empty_png ≡ ok none
unfolding extract_key_chunk extract_loop chunk_length chunk_type from_be_bytes bytes_eq
nothing_yet = refl

injected : inject_key_chunk toy empty_png capsule ≡ ok picture
unfolding inject_key_chunk build_key_chunk insert_loop chunk_length chunk_type from_be_bytes
    bytes_eq validate_keyfile_bytes decode_key_header checked_key_header validate_params
    encode_key_header from_le le_bytes
injected = refl

extract-inject_example : extract_key_chunk toy picture ≡ ok (some capsule)
extract-inject_example =
    extract-inject toy empty_png capsule picture toy-HasDigests (omega arith) nothing_yet injected

salt-IsBytes : IsBytes 16 salt
salt-IsBytes = record { size = refl; all = All-replicate IsByte 16 1 (omega arith) }

nonce-IsBytes : IsBytes 24 nonce
nonce-IsBytes = record { size = refl; all = All-replicate IsByte 24 2 (omega arith) }

master-IsBytes : IsBytes 48 master
master-IsBytes = record { size = refl; all = All-replicate IsByte 48 3 (omega arith) }

default_params-IsParams : IsParams default_params
default_params-IsParams = record {
  memory_min = omega arith;
  memory_max = omega arith;
  iterations_min = omega arith;
  iterations_max = omega arith;
  parallelism_min = omega arith;
  parallelism_max = omega arith;
}

unlock-create_keycard_example :
    (info card : List ℕ) × (create_keycard toy toy_imaging master password default_params salt nonce
        false "card.png" false
        (record { input = none; output = none; plan = [] })
      ≡ (ok info, record { input = none; output = some card; plan = [] }))
    × (key_source_info toy toy_imaging card ≡ ok info)
    × (unlock_key_source toy toy_imaging card password ≡ ok master)
unlock-create_keycard_example =
    unlock-create_keycard toy toy_imaging master password default_params salt nonce "card.png" false
      none none toy-IsAead toy-HasArgon2 toy-HasDigests toy_imaging-EncodesPng master-IsBytes
      (omega arith) (omega arith) default_params-IsParams salt-IsBytes nonce-IsBytes refl

abbrev words : List (List ℕ)
words = codes "KEEP" ∷ codes "PRIVATE" ∷ codes "COPIES" ∷ []

words-IsWord : All IsWord words
words-IsWord = omega arith

wrap_text_lem_example :
    All (λ line. text_width line 2 ≤ 90) (wrap_text words 90 2)
    × (strip (concat (wrap_text words 90 2)) ≡ concat words)
unfolding text_width
wrap_text_lem_example = wrap_text_lem words 90 2 words-IsWord (omega arith)

fitted_scale_lem_example :
    let scale = fitted_scale (codes "3B5A-D975-F4D4-10E3") 494 3 in
    (1 ≤ scale)
    × ((scale ≡ 1) ⊎ ((scale ≤ 3) × (text_width (codes "3B5A-D975-F4D4-10E3") scale ≤ 494)))
    × ((s : ℕ) → scale < s → s ≤ 3 → 494 < text_width (codes "3B5A-D975-F4D4-10E3") s)
fitted_scale_lem_example = fitted_scale_lem (codes "3B5A-D975-F4D4-10E3") 494 3

-- The unit test `fingerprint_scale_is_reduced_when_needed`.
fitted_scale_two : fitted_scale (codes "3B5A-D975-F4D4-10E3") 494 3 ≡ 2
unfolding fitted_scale shrink text_width
fitted_scale_two = refl
