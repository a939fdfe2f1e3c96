-- ===== src/Container/Files.antt =====
-- `encrypt_file` and `decrypt_file` with their files: the input, the output path, and the temporary
-- file that takes the output's place at the end.
pub mod Outcome
pub mod Paths
pub mod Written
use Prim.Native.String.{String}
use or_isy_vra.Base.{
  ℕ, List, [], ◌∷◌, Option, none, some, Bool, true, false, not, ◌==◌, ◌&&◌, if◌then◌else◌,
}
use or_isy_vra.Base.Bytes.{bytes_eq}
use or_isy_vra.Base.Results.{Result, ok, err, stuck, fail_if, ok_or}
use or_isy_vra.Errors.{Error, Checked, io, file_io, other, not_found, invalid_input, output_exists}
use or_isy_vra.Crypto.{Crypto}
use or_isy_vra.Container.Header.{Header, new_header, validate_chunk_size}
use or_isy_vra.Container.Encrypt.{EncryptOptions, Reader, Session, session_of, encrypt_stream}
use or_isy_vra.Container.Decrypt.{FileInfo, info_of, open_session, decrypt_stream}

-- A path as the list of its components: so the standard library compares paths, `./in` with a
-- component more than `in`.
abbrev pub FilePath : Type 0
FilePath = List (List ℕ)

unfoldable pub path_eq : FilePath → FilePath → Bool
path_eq [] [] = true
path_eq [] (y ∷ ys) = false
path_eq (x ∷ xs) [] = false
path_eq (x ∷ xs) (y ∷ ys) = bytes_eq x y && path_eq xs ys

-- The output's file, and the input's where that is another one. `plan` says of each coming call of
-- the operating system whether it fails; behind its end all succeed.
pub record Disk : Type 0 where
  pub input : Option (List ℕ)
  pub output : Option (List ℕ)
  pub plan : List Bool

abbrev pub Files : Type 0 → Type 0
Files A = Disk → Checked A × Disk

unfoldable pub pure : {A : Type 0} → A → Files A
pure a d = (ok a, d)

unfoldable pub lift : {A : Type 0} → Checked A → Files A
lift r d = (r, d)

abbrev pub continue : {A B : Type 0} → Checked A → Disk → (A → Files B) → Checked B × Disk
continue (ok a) d f = f a d
continue (err e) d f = (err e, d)
continue stuck d f = (stuck, d)

infixl 5 ◌>>=◌ ◌>>◌
unfoldable pub ◌>>=◌ : {A B : Type 0} → Files A → (A → Files B) → Files B
(m >>= f) d = let (r, d') = m d in continue r d' f

abbrev pub ◌>>◌ : {B : Type 0} → Files Unit → Files B → Files B
m >> k = m >>= λ _. k

abbrev pub attempt : Disk → Disk → List Bool → Checked Unit × Disk
attempt done failed [] = (ok tt, record done { plan = [] })
attempt done failed (false ∷ plan) = (ok tt, record done { plan = plan })
attempt done failed (true ∷ plan) = (err (io other), record failed { plan = plan })

-- A call that does not touch the two paths: making, writing, flushing or syncing the temporary file.
unfoldable pub call : Files Unit
call d = attempt d d d.plan

unfoldable pub remove_output : Files Unit
remove_output d = attempt (record d { output = none }) d d.plan

-- `NamedTempFile::persist`: the temporary file becomes the output.
unfoldable pub persist : List ℕ → Files Unit
persist bytes d = attempt (record d { output = some bytes }) d d.plan

abbrev pub exists : Option (List ℕ) → Bool
exists none = false
exists (some bytes) = true

-- What is at the input path; `aliased` says that both paths name the output's file.
abbrev pub input_at : Bool → Disk → Option (List ℕ)
input_at true d = d.output
input_at false d = d.input

-- `File::open(input_path)`, and what can be read from it.
unfoldable pub open_input_at : Bool → Files (List ℕ)
open_input_at aliased d = (ok_or (input_at aliased d) (io not_found), d)

-- The same for a path that names another file than the output's.
unfoldable pub open_input : Files (List ℕ)
open_input d = (ok_or d.input (io not_found), d)

unfoldable pub create_output_temp : String → Bool → Files Unit
create_output_temp name overwrite d =
    if exists d.output && not overwrite then (err (output_exists name), d) else call d

unfoldable pub remove_old : Bool → Files Unit
remove_old overwrite d = if exists d.output && overwrite then remove_output d else (ok tt, d)

unfoldable pub persist_output : List ℕ → Bool → Files Unit
persist_output bytes overwrite = do call; remove_old overwrite; persist bytes

abbrev pub same_paths : Error
same_paths = invalid_input "input and output paths must be different"

-- `encrypt_file`; the salt and the file identifier are arguments, and `reads` is what the single
-- calls of `read` return. `entry_of` is the operating system's: the file that a path names. The two
-- calls beside the stream stand for the writes to the temporary file, of which one may fail before
-- the stream fails, or after it ended.
unfoldable pub encrypt_file :
    Crypto
    → (FilePath → ℕ)
    → List ℕ
    → EncryptOptions
    → List ℕ
    → List ℕ
    → List ℕ
    → FilePath
    → FilePath
    → String
    → Files Unit
encrypt_file c entry_of master options salt file_id reads input_path output_path name = do
  lift (validate_chunk_size options.chunk_size)
  lift (fail_if (path_eq input_path output_path) same_paths)
  header ← lift (new_header options.mode options.chunk_size salt file_id)
  s ← lift (session_of c master header)
  input ← open_input_at (entry_of input_path == entry_of output_path)
  create_output_temp name options.overwrite
  call
  file ← lift (encrypt_stream c s (record { content = input; plan = reads }))
  call
  persist_output file options.overwrite

-- `decrypt_file`.
unfoldable pub decrypt_file :
    Crypto → (FilePath → ℕ) → List ℕ → FilePath → FilePath → String → Bool → Files FileInfo
decrypt_file c entry_of master input_path output_path name overwrite = do
  lift (fail_if (path_eq input_path output_path) same_paths)
  input ← open_input_at (entry_of input_path == entry_of output_path)
  (s, rest) ← lift (open_session c master input)
  create_output_temp name overwrite
  call
  plaintext ← lift (decrypt_stream c s rest)
  call
  persist_output plaintext overwrite
  pure (info_of s.header)

-- crates/orisyvra/src/fileops.rs: the paths are added to an error of the operating system.
unfoldable pub contextualize_io : String → String → String → Error → Error
contextualize_io operation input_path output_path (io source) =
    file_io operation input_path output_path source
contextualize_io operation input_path output_path error = error
