-- ===== src/Keyfile/Files.antt =====
-- `write_keyfile_bytes`, `create_keyfile` and `unlock_keyfile` with the capsule's file.
use Prim.Native.String.{String}
use or_isy_vra.Base.{ℕ, ◌≡◌, inl, refl, List, Bool}
use or_isy_vra.Base.Results.{ok}
use or_isy_vra.Crypto.{Crypto}
use or_isy_vra.Container.Files.{
  Disk, Files, lift, ◌>>=◌, ◌>>◌, call, open_input, create_output_temp, persist_output,
}
use or_isy_vra.Container.Files.Outcome.{
  FileOutcome, Leaves-bind, lift-Leaves, call-Leaves, create_output_temp-Leaves,
  persist_output-Leaves,
}
use or_isy_vra.Keyfile.{
  KeyfileParams, validate_password, validate_params, validate_keyfile_bytes, encode_keyfile_bytes,
  unlock_keyfile_bytes,
}

unfoldable pub write_keyfile_bytes : String → List ℕ → Bool → Files Unit
write_keyfile_bytes name bytes overwrite = do
  lift (validate_keyfile_bytes bytes)
  create_output_temp name overwrite
  call
  persist_output bytes overwrite

-- The random master key, salt and nonce are arguments.
unfoldable pub create_keyfile :
    Crypto → String → List ℕ → KeyfileParams → Bool → List ℕ → List ℕ → List ℕ → Files Unit
create_keyfile c name password p overwrite master salt nonce = do
  lift (validate_password password)
  lift (validate_params p)
  bytes ← lift (encode_keyfile_bytes c master password p salt nonce)
  write_keyfile_bytes name bytes overwrite

-- `fs::read(path)`, and the capsule that it gives.
unfoldable pub unlock_keyfile : Crypto → List ℕ → Files (List ℕ)
unlock_keyfile c password = do bytes ← open_input; lift (unlock_keyfile_bytes c bytes password)

-- The bytes are a capsule that passes the check, and wrap the master key under the passphrase.
pub Capsule : Crypto → List ℕ → KeyfileParams → List ℕ → List ℕ → List ℕ → List ℕ → Type 0
Capsule c password p master salt nonce bytes =
    (encode_keyfile_bytes c master password p salt nonce ≡ ok bytes)
    × (validate_keyfile_bytes bytes ≡ ok tt)

-- For every disk and plan of failures: behind `create_keyfile` the input is as it was, and so is
-- what was at the output path, unless a capsule was made that passes the check; then the output is
-- the whole capsule, or missing.
pub create_keyfile_outcome :
    (c : Crypto) (name : String) (password : List ℕ) (p : KeyfileParams) (overwrite : Bool)
    (master salt nonce : List ℕ) (d : Disk)
    → FileOutcome
        (Capsule c password p master salt nonce)
        d
        (create_keyfile c name password p overwrite master salt nonce d).1
unfolding create_keyfile write_keyfile_bytes FileOutcome Capsule
create_keyfile_outcome c name password p overwrite master salt nonce d =
    let A = Capsule c password p master salt nonce in
    (Leaves-bind _ _ (lift-Leaves (validate_password password)) (λ _ _.
        Leaves-bind _ _ (lift-Leaves (validate_params p)) (λ _ _.
          Leaves-bind _ _ (lift-Leaves (encode_keyfile_bytes c master password p salt nonce))
            (λ bytes made.
              Leaves-bind _ _ (lift-Leaves (validate_keyfile_bytes bytes)) (λ checked valid.
                Leaves-bind _ _ (create_output_temp-Leaves A d name overwrite) (λ _ _.
                  Leaves-bind _ _ (call-Leaves A d)
                    (λ _ _. persist_output-Leaves A d bytes (made, valid) overwrite))))))).disk
      d (refl, inl refl)
