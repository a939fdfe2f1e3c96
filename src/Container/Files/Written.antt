-- ===== src/Container/Files/Written.antt =====
-- `encrypt_file` where no call of the operating system fails.
use Prim.Native.String.{String}
use or_isy_vra.Base.{
  ℕ, ◌*◌, ◌≤◌, ◌≡◌, refl, List, [], length, All, Option, none, some, Bool, true, false, not, ◌&&◌,
  ◌==◌, le→leb, if◌then◌else◌,
}
use or_isy_vra.Base.Words.{IsByte}
use or_isy_vra.Base.Results.{ok, bind-eq-ok}
use or_isy_vra.Crypto.{Crypto, IsAead, HasDigests}
use or_isy_vra.Container.Decrypt.{info_of, decrypt_bytes}
use or_isy_vra.Container.Header.{
  Header, file_version, min_chunk_size, max_chunk_size, new_header, validate_chunk_size,
}
use or_isy_vra.Container.Header.Codec.{IsHeader}
use or_isy_vra.Container.Encrypt.{
  EncryptOptions, Session, max_records, session_of, encrypt_stream, encrypt_bytes,
}
use or_isy_vra.Container.RoundTrip.WholeFile.{decrypt-encrypt}
use or_isy_vra.Container.Files.{
  Disk, FilePath, path_eq, input_at, lift, ◌>>=◌, exists, open_input_at, create_output_temp, call,
  remove_old, remove_output, persist, persist_output, encrypt_file,
}

-- The header that the options give.
abbrev pub header_of : EncryptOptions → List ℕ → List ℕ → Header
header_of options salt file_id = record {
  version = file_version;
  mode = options.mode;
  flags = 0;
  chunk_size = options.chunk_size;
  salt = salt;
  file_id = file_id;
}

-- Two files without failing calls.
abbrev pub calm : Option (List ℕ) → Option (List ℕ) → Disk
calm input output = record { input = input; output = output; plan = [] }

persist_output-calm :
    (file : List ℕ) (overwrite : Bool) (input output : Option (List ℕ))
    → persist_output file overwrite (calm input output) ≡ (ok tt, calm input (some file))
unfolding persist_output call remove_old remove_output persist ◌>>=◌
persist_output-calm file true input none = refl
persist_output-calm file false input none = refl
persist_output-calm file true input (some x) = refl
persist_output-calm file false input (some x) = refl

module _ (c : Crypto) (entry_of : FilePath → ℕ) (master : List ℕ) (options : EncryptOptions)
    (salt file_id reads : List ℕ) (input_path output_path : FilePath) (name : String)
    (input output : Option (List ℕ)) (content : List ℕ) where
  abbrev aliased : Bool
  aliased = entry_of input_path == entry_of output_path

  encrypt_file-ok :
      (s : Session) (file : List ℕ)
      → validate_chunk_size options.chunk_size ≡ ok tt
      → path_eq input_path output_path ≡ false
      → session_of c master (header_of options salt file_id) ≡ ok s
      → input_at aliased (calm input output) ≡ some content
      → (exists output && not options.overwrite) ≡ false
      → encrypt_stream c s (record { content = content; plan = reads }) ≡ ok file
      → encrypt_file c entry_of master options salt file_id reads input_path output_path name
          (calm input output)
        ≡ (ok tt, calm input (some file))
  unfolding encrypt_file new_header open_input_at create_output_temp call lift ◌>>=◌
  encrypt_file-ok s file size differ keyed there free made = rw size (
      rw differ (
        rw keyed
          (rw there (rw free (rw made (persist_output-calm file options.overwrite input output))))))

  valid_size : (n : ℕ) → min_chunk_size ≤ n → n ≤ max_chunk_size → validate_chunk_size n ≡ ok tt
  unfolding validate_chunk_size
  valid_size n low high = rw (le→leb min_chunk_size n low) (rw (le→leb n max_chunk_size high) refl)

  -- With documented cryptography, for every master key, mode, permitted chunk size, salt and file
  -- identifier, paths that differ, and an input of bytes that fits into 2 ^ 20 chunks: where no call
  -- fails and the output may be written, `encrypt_file` succeeds with a file at the output that
  -- decrypts to the input under the same master key, however the calls of `read` split it. The paths
  -- may name one file: then that file stands at the input path too.
  pub encrypt_file-written :
      IsAead c
      → HasDigests c
      → IsHeader (header_of options salt file_id)
      → path_eq input_path output_path ≡ false
      → input_at aliased (calm input output) ≡ some content
      → All IsByte content
      → length content ≤ max_records * options.chunk_size
      → (exists output && not options.overwrite) ≡ false
      → (file : List ℕ) × (encrypt_file c entry_of master options salt file_id reads input_path
            output_path name
            (calm input output)
          ≡ (ok tt, calm input (some file)))
        × (decrypt_bytes c master file ≡ ok (content, info_of (header_of options salt file_id)))
        × (input_at aliased (calm input (some file))
            ≡ (if aliased then some file else some content))
  unfolding encrypt_bytes
  encrypt_file-written aead digests valid differ there bytes room free =
      let h = header_of options salt file_id in
      let (file, made, opened) =
        decrypt-encrypt c master h (record { content = content; plan = reads }) aead digests valid
          bytes room in
      let (s, keyed, streamed) = bind-eq-ok (session_of c master h) _ _ made in
      (
        file,
        encrypt_file-ok s file (valid_size options.chunk_size valid.not_small valid.not_large)
            differ keyed there free streamed,
        opened,
        seen file aliased there,
      )
    where
      seen :
          (file : List ℕ) (b : Bool)
          → input_at b (calm input output) ≡ some content
          → input_at b (calm input (some file)) ≡ (if b then some file else some content)
      seen file true e = refl
      seen file false e = e
