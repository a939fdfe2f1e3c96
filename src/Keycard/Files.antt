-- ===== src/Keycard/Files.antt =====
-- keycard.rs with its files: writing a visual key, and making one for a new master key.
pub mod Created
use Prim.Native.String.{String}
use or_isy_vra.Base.{ℕ, List, ◌++◌, Bool, if◌then◌else◌}
use or_isy_vra.Base.Results.{ok}
use or_isy_vra.Errors.{Checked}
use or_isy_vra.Crypto.{Crypto}
use or_isy_vra.Container.Files.{
  Disk, Files, pure, lift, ◌>>=◌, ◌>>◌, call, open_input, create_output_temp, persist_output,
}
use or_isy_vra.Keyfile.{
  KeyfileParams, validate_password, validate_params, validate_keyfile_bytes, encode_keyfile_bytes,
  unlock_keyfile_bytes,
}
use or_isy_vra.Keyfile.Files.{write_keyfile_bytes}
use or_isy_vra.Keycard.{
  Imaging, card_prefix, card_id, inject_key_chunk, source_bytes, decode_keycard_image,
}

-- `validate_output` is the first step of `create_output_temp`.
unfoldable pub write_atomic : String → List ℕ → Bool → Files Unit
write_atomic name bytes overwrite = do
  create_output_temp name overwrite
  call
  persist_output bytes overwrite

-- `render_png_card` and the encoder's call in `save_png_card`: the card's bytes and its identifier.
unfoldable pub render_png_card : Crypto → Imaging → List ℕ → Files (List ℕ × List ℕ)
render_png_card c im keyfile = do
  lift (validate_keyfile_bytes keyfile)
  png ← lift (im.encode_png keyfile)
  pure (png, card_id c keyfile)

unfoldable pub save_png_card : Crypto → List ℕ → List ℕ → String → Bool → Files Unit
save_png_card c encoded keyfile name overwrite = do
  png ← lift (inject_key_chunk c encoded keyfile)
  write_atomic name png overwrite

unfoldable pub render_pdf_card : Crypto → Imaging → List ℕ → Files (List ℕ × List ℕ)
render_pdf_card c im keyfile = do
  lift (validate_keyfile_bytes keyfile)
  pdf ← lift (im.draw_pdf (card_prefix ++ im.base64_encode keyfile))
  pure (pdf, card_id c keyfile)

-- `is_pdf` is the test of the output's extension.
unfoldable pub export_pdf : Crypto → Imaging → List ℕ → String → Bool → Files (List ℕ)
export_pdf c im keyfile name overwrite = do
  (pdf, info) ← render_pdf_card c im keyfile
  write_atomic name pdf overwrite
  pure info

unfoldable pub export_png : Crypto → Imaging → List ℕ → String → Bool → Files (List ℕ)
export_png c im keyfile name overwrite = do
  (card, info) ← render_png_card c im keyfile
  save_png_card c card keyfile name overwrite
  pure info

unfoldable pub export_bytes : Crypto → Imaging → List ℕ → Bool → String → Bool → Files (List ℕ)
export_bytes c im keyfile is_pdf name overwrite =
    if is_pdf
    then export_pdf c im keyfile name overwrite
    else export_png c im keyfile name overwrite

-- `export_keycard`; the source is the disk's input.
unfoldable pub export_keycard : Crypto → Imaging → Bool → String → Bool → Files (List ℕ)
export_keycard c im is_pdf name overwrite = do
  bytes ← open_input
  source ← lift (source_bytes c im bytes)
  export_bytes c im source is_pdf name overwrite

unfoldable pub export_recovery_keycard_from_master :
    Crypto
    → Imaging
    → List ℕ
    → List ℕ
    → KeyfileParams
    → List ℕ
    → List ℕ
    → Bool
    → String
    → Bool
    → Files (List ℕ)
export_recovery_keycard_from_master c im master password p salt nonce is_pdf name overwrite = do
  bytes ← lift (encode_keyfile_bytes c master password p salt nonce)
  export_bytes c im bytes is_pdf name overwrite

unfoldable pub export_recovery_keycard :
    Crypto
    → Imaging
    → List ℕ
    → List ℕ
    → KeyfileParams
    → List ℕ
    → List ℕ
    → Bool
    → String
    → Bool
    → Files (List ℕ)
export_recovery_keycard c im current recovery p salt nonce is_pdf name overwrite = do
  bytes ← open_input
  source ← lift (source_bytes c im bytes)
  master ← lift (unlock_keyfile_bytes c source current)
  export_recovery_keycard_from_master c im master recovery p salt nonce is_pdf name overwrite

-- `create_keyfile` in the temporary directory, where nothing is yet. The calls write the file and
-- persist it.
unfoldable pub new_keyfile :
    Crypto → List ℕ → List ℕ → KeyfileParams → List ℕ → List ℕ → Files (List ℕ)
new_keyfile c master password p salt nonce = do
  lift (validate_password password)
  lift (validate_params p)
  bytes ← lift (encode_keyfile_bytes c master password p salt nonce)
  lift (validate_keyfile_bytes bytes)
  call
  call
  pure bytes

-- `create_keycard`. The two calls make the temporary directory, and read the capsule from it. The
-- master key, the salt and the nonce are random.
unfoldable pub create_keycard :
    Crypto
    → Imaging
    → List ℕ
    → List ℕ
    → KeyfileParams
    → List ℕ
    → List ℕ
    → Bool
    → String
    → Bool
    → Files (List ℕ)
create_keycard c im master password p salt nonce is_pdf name overwrite = do
  call
  bytes ← new_keyfile c master password p salt nonce
  call
  source ← lift (source_bytes c im bytes)
  export_bytes c im source is_pdf name overwrite

-- `import_keycard`: the input is the picture, and the output the capsule's file.
unfoldable pub import_keycard : Crypto → Imaging → String → Bool → Files (List ℕ)
import_keycard c im name overwrite = do
  bytes ← open_input
  keyfile ← lift (decode_keycard_image c im bytes)
  write_keyfile_bytes name keyfile overwrite
  pure (card_id c keyfile)
