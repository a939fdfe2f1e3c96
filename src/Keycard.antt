-- ===== src/Keycard.antt =====
-- crates/orisyvra/src/keycard.rs: visual keys, which carry a key capsule in a private chunk of a
-- PNG file. The drawing of the card is not modelled: what the encoder makes of it is a parameter.
pub mod Chunk
pub mod RoundTrip
pub mod Text
pub mod Files
pub mod Toy
mod Tests
use or_isy_vra.Base.{
  ℕ, zero, suc, ◌+◌, ◌/◌, ◌%◌, ◌^◌, List, [], ◌∷◌, ◌++◌, length, take, drop, Option, none, some,
  Bool, true, false, not, ◌||◌, if◌then◌else◌, ltb, leb, ◌==◌, codes,
}
use or_isy_vra.Base.Bytes.{le_bytes, from_le, slice, bytes_eq}
use or_isy_vra.Base.Results.{ok, err, stuck, ◌>>=◌, ◌>>◌, ok_or, fail_if, checked_add}
use or_isy_vra.Errors.{Checked, invalid_input, image, key_card_decode}
use or_isy_vra.Crypto.{Crypto}
use or_isy_vra.Keyfile.{KeyfileParams, validate_keyfile_bytes, unlock_keyfile_bytes}
use or_isy_vra.Png.{png_signature, iend, starts_with, chunk_length, chunk_type, chunk, insert_loop}

abbrev pub card_prefix : List ℕ
card_prefix = codes "ORISYVRA-CARD1:"

abbrev pub key_chunk_type : List ℕ
key_chunk_type = codes "orKY"

abbrev pub key_chunk_magic : List ℕ
key_chunk_magic = codes "OYVPKY1" ++ (0 ∷ [])

-- The drawn card as the crate image encodes it, and the PDF page with the QR code of a payload;
-- and the crates image, rqrr and base64: the contents of the QR codes in a picture, `none` for a
-- grid that does not decode, and the coder and decoder of a text.
pub record Imaging : Type 0 where
  pub encode_png : List ℕ → Checked (List ℕ)
  pub draw_pdf : List ℕ → Checked (List ℕ)
  pub base64_encode : List ℕ → List ℕ
  pub detect : List ℕ → Checked (List (Option (List ℕ)))
  pub base64_decode : List ℕ → Option (List ℕ)

-- `{byte:02X}`.
abbrev pub hex_digit : ℕ → ℕ
hex_digit n = if ltb n 10 then 48 + n else 55 + n

unfoldable pub hex_bytes : List ℕ → List ℕ
hex_bytes [] = []
hex_bytes (byte ∷ bytes) = hex_digit (byte / 16) ∷ hex_digit (byte % 16) ∷ hex_bytes bytes

-- The text of a fingerprint, as its ASCII bytes.
unfoldable pub card_id : Crypto → List ℕ → List ℕ
card_id c bytes = hex_bytes (take 8 (c.sha256 bytes))

unfoldable pub build_key_chunk : Crypto → List ℕ → Checked (List ℕ)
build_key_chunk c keyfile = do
  validate_keyfile_bytes keyfile
  fail_if (leb (2 ^ 16) (length keyfile)) (invalid_input "protected key capsule is too large")
  let digest = c.sha256 keyfile
  ok (key_chunk_magic ++ (le_bytes 2 (length keyfile) ++ (keyfile ++ digest)))

unfoldable pub inject_key_chunk : Crypto → List ℕ → List ℕ → Checked (List ℕ)
inject_key_chunk c png keyfile = do
  fail_if (not (starts_with png png_signature)) (image "encoder did not produce a PNG image")
  body ← build_key_chunk c keyfile
  (output, inserted) ←
      insert_loop key_card_decode key_card_decode (chunk key_chunk_type body) (length png + 1) png 8
        png_signature false
  fail_if (not inserted) (image "PNG IEND chunk was not found")
  ok output

-- The branch of `extract_key_chunk` for the chunk of the private type.
unfoldable pub read_key_chunk : Crypto → List ℕ → Checked (List ℕ)
read_key_chunk c body = do
  fail_if (ltb (length body) 42 || not (bytes_eq (take 8 body) key_chunk_magic)) key_card_decode
  let key_length = from_le (slice 8 10 body)
  key_end ← ok_or (checked_add 10 key_length) key_card_decode
  fail_if (not (key_end + 32 == length body)) key_card_decode
  let keyfile = slice 10 key_end body
  fail_if (not (bytes_eq (c.sha256 keyfile) (drop key_end body))) key_card_decode
  validate_keyfile_bytes keyfile
  ok keyfile

-- `Ok(Some(keyfile))` of what is returned by `?`.
abbrev pub found : Checked (List ℕ) → Checked (Option (List ℕ))
found r = do keyfile ← r; ok (some keyfile)

unfoldable pub extract_loop : Crypto → ℕ → List ℕ → ℕ → Checked (Option (List ℕ))
extract_loop c zero png cursor = stuck
extract_loop c (suc fuel) png cursor =
    let round = (do
      let data_start = cursor + 8
      data_end ← ok_or (checked_add data_start (chunk_length png cursor)) key_card_decode
      end ← ok_or (checked_add data_end 4) key_card_decode
      fail_if (ltb (length png) end) key_card_decode
      let kind = chunk_type png cursor
      let rest = extract_loop c fuel png end
      let next = if bytes_eq kind iend then ok none else rest
      let key = found (read_key_chunk c (slice data_start data_end png))
      if bytes_eq kind key_chunk_type then key else next) in
    if leb (cursor + 12) (length png) then round else ok none

unfoldable pub extract_key_chunk : Crypto → List ℕ → Checked (Option (List ℕ))
extract_key_chunk c png =
    if starts_with png png_signature then extract_loop c (length png + 1) png 8 else ok none

-- `content.strip_prefix(CARD_PREFIX)`.
unfoldable pub strip_prefix : List ℕ → List ℕ → Option (List ℕ)
strip_prefix start content =
    if starts_with content start then some (drop (length start) content) else none

-- `for grid in prepared.detect_grids()`.
unfoldable pub decode_grids : Imaging → List (Option (List ℕ)) → Checked (List ℕ)
decode_grids im [] = err key_card_decode
decode_grids im (none ∷ grids) = decode_grids im grids
decode_grids im (some content ∷ grids) =
    let rest = decode_grids im grids in
    elim (strip_prefix card_prefix content) [
      | none ↦ rest
      | some encoded ↦ do
        decoded ← ok_or (im.base64_decode encoded) key_card_decode
        validate_keyfile_bytes decoded
        ok decoded
    ]

unfoldable pub decode_qr_keycard : Imaging → List ℕ → Checked (List ℕ)
decode_qr_keycard im image_bytes = do grids ← im.detect image_bytes; decode_grids im grids

abbrev pub or_qr : Imaging → List ℕ → Option (List ℕ) → Checked (List ℕ)
or_qr im image_bytes (some keyfile) = ok keyfile
or_qr im image_bytes none = decode_qr_keycard im image_bytes

unfoldable pub decode_keycard_image : Crypto → Imaging → List ℕ → Checked (List ℕ)
decode_keycard_image c im image_bytes = do
  extracted ← extract_key_chunk c image_bytes
  or_qr im image_bytes extracted

-- `source_bytes`, on the bytes of the file.
unfoldable pub source_bytes : Crypto → Imaging → List ℕ → Checked (List ℕ)
source_bytes c im bytes =
    if starts_with bytes png_signature
    then decode_keycard_image c im bytes
    else do validate_keyfile_bytes bytes; ok bytes

unfoldable pub key_source_info : Crypto → Imaging → List ℕ → Checked (List ℕ)
key_source_info c im bytes = do source ← source_bytes c im bytes; ok (card_id c source)

unfoldable pub unlock_key_source : Crypto → Imaging → List ℕ → List ℕ → Checked (List ℕ)
unlock_key_source c im bytes password = do
  source ← source_bytes c im bytes
  unlock_keyfile_bytes c source password
