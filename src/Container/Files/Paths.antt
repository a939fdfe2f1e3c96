-- ===== src/Container/Files/Paths.antt =====
-- What may be at the two paths behind `encrypt_file` and `decrypt_file`.
use Prim.Native.String.{String}
use or_isy_vra.Base.{
  ℕ, ◌≡◌, ◌≢◌, ◌⊎◌, inl, inr, refl, sym, ap, ◌∙◌, List, [], ◌∷◌, Option, none, some, Bool, true,
  false, ◌==◌, ==_iff, Bool-cases, arith,
}
use or_isy_vra.Base.Bytes.{bytes_eq_self}
use or_isy_vra.Base.Results.{ok, err, stuck, ok_or, fail_if}
use or_isy_vra.Errors.{Error, Checked, io, not_found}
use or_isy_vra.Crypto.{Crypto}
use or_isy_vra.Container.Decrypt.{FileInfo, decrypt_bytes}
use or_isy_vra.Container.Header.{Header, new_header, validate_chunk_size}
use or_isy_vra.Container.Encrypt.{EncryptOptions, session_of, encrypt_stream, encrypt_bytes}
use or_isy_vra.Container.Files.{
  Disk, Files, FilePath, path_eq, input_at, lift, ◌>>=◌, open_input_at, encrypt_file, same_paths,
}
use or_isy_vra.Container.Files.Outcome.{
  Leaves-bind, lift-Leaves, FileOutcome, call-Leaves, create_output_temp-Leaves,
  persist_output-Leaves,
}

path_eq_self : (path : FilePath) → path_eq path path ≡ true
unfolding path_eq
path_eq_self [] = refl
path_eq_self (part ∷ path) = rw (bytes_eq_self part) (path_eq_self path)

different : (p q : FilePath) → path_eq p q ≡ false → p ≢ q
different p q h same =
    absurd (contradiction (path_eq p q) (ap (path_eq p) (sym same) ∙ path_eq_self p) h)
  where
    contradiction : (b : Bool) → b ≡ true → b ≡ false → ⊥
    contradiction b t f = ground arith

passed : (wrong : Bool) (e : Error) → fail_if wrong e ≡ ok tt → wrong ≡ false
passed wrong e h = ground arith

-- Code in front of the first call that changes a file.
module _ {A B : Type 0} (P : Disk → Type 0) where
  lift_then :
      (r : Checked A) (f : A → Files B) (d : Disk)
      → P d
      → ((a : A) → r ≡ ok a → P (f a d).1)
      → P ((lift r >>= f) d).1
  unfolding lift ◌>>=◌
  lift_then (ok a) f d p next = next a refl
  lift_then (err e) f d p next = p
  lift_then stuck f d p next = p

open_then :
    {B : Type 0} (P : Disk → Type 0) (aliased : Bool) (f : List ℕ → Files B) (d : Disk)
    → P d
    → ((bytes : List ℕ) → input_at aliased d ≡ some bytes → P (f bytes d).1)
    → P ((open_input_at aliased >>= f) d).1
unfolding open_input_at ◌>>=◌ lift
open_then P aliased f d p next =
    lift_then P (ok_or (input_at aliased d) (io not_found)) f d p
      (λ bytes e. next bytes (opened (input_at aliased d) bytes e))
  where
    opened :
        (o : Option (List ℕ)) (bytes : List ℕ) → ok_or o (io not_found) ≡ ok bytes → o ≡ some bytes
    opened none bytes e = absurd (ground arith)
    opened (some x) bytes e = ground arith

start : (Allowed : List ℕ → Type 0) (d : Disk) → FileOutcome Allowed d d
unfolding FileOutcome
start Allowed d = (refl, inl refl)

module _ (entry_of : FilePath → ℕ) (input_path output_path : FilePath) where
  abbrev aliased : Bool
  aliased = entry_of input_path == entry_of output_path

  -- The input is as it was, unless two different paths name one file; and the output is as it was,
  -- or there are bytes that may be put there, and then the output is those bytes or missing.
  unfoldable pub PathsOutcome : (List ℕ → Type 0) → Disk → Disk → Type 0
  PathsOutcome Allowed before after =
      ((input_at aliased after ≡ input_at aliased before)
        ⊎ ((input_path ≢ output_path) × (entry_of input_path ≡ entry_of output_path)))
      × ((after.output ≡ before.output)
          ⊎ ((bytes : List ℕ) × Allowed bytes
              × ((after.output ≡ some bytes) ⊎ (after.output ≡ none))))

  untouched : (Allowed : List ℕ → Type 0) (d : Disk) → PathsOutcome Allowed d d
  unfolding PathsOutcome
  untouched Allowed d = (inl refl, inl refl)

  after_check :
      (Allowed : List ℕ → Type 0) (before after : Disk)
      → path_eq input_path output_path ≡ false
      → FileOutcome Allowed before after
      → PathsOutcome Allowed before after
  unfolding PathsOutcome FileOutcome
  after_check Allowed before after checked outcome = elim (Bool-cases aliased) [
    | inl same ↦ (inr (different input_path output_path checked, (==_iff _ _).0 same), outcome.1)
    | inr other ↦ (inl (rw other outcome.0), outcome.1)
  ]

  -- The input decrypts to the bytes.
  pub Decrypted : Crypto → List ℕ → Disk → List ℕ → Type 0
  Decrypted c master before plaintext =
      (bytes : List ℕ) × (info : FileInfo) × (input_at aliased before ≡ some bytes)
      × (decrypt_bytes c master bytes ≡ ok (plaintext, info))

  -- The bytes are the whole encryption of the input.
  pub Encrypted :
      Crypto → List ℕ → EncryptOptions → List ℕ → List ℕ → List ℕ → Disk → List ℕ → Type 0
  Encrypted c master options salt file_id reads before file =
      (bytes : List ℕ) × (header : Header) × (input_at aliased before ≡ some bytes)
      × (new_header options.mode options.chunk_size salt file_id ≡ ok header)
      × (encrypt_bytes c master header (record { content = bytes; plan = reads }) ≡ ok file)

  -- For every disk and plan of failures, whichever files the paths name: behind `encrypt_file` what
  -- was at the input path is still there, unless the paths differ and name one file. What was at
  -- the output path is still there, unless encrypting the whole input succeeded; then the output is
  -- the whole encrypted file, or missing.
  pub encrypt_file_outcome :
      (c : Crypto) (master : List ℕ) (options : EncryptOptions) (salt file_id reads : List ℕ)
      (name : String) (d : Disk)
      → PathsOutcome
          (Encrypted c master options salt file_id reads d)
          d
          (encrypt_file c entry_of master options salt file_id reads input_path output_path name
            d).1
  unfolding encrypt_file encrypt_bytes Encrypted
  encrypt_file_outcome c master options salt file_id reads name d =
      let A = Encrypted c master options salt file_id reads d in
      let P = PathsOutcome A d in
      let same = untouched A d in
      lift_then P (validate_chunk_size options.chunk_size) _ d same (λ _ _.
        lift_then P (fail_if (path_eq input_path output_path) same_paths) _ d same (λ _ checked.
          lift_then P (new_header options.mode options.chunk_size salt file_id) _ d same
            (λ header made. lift_then P (session_of c master header) _ d same (λ s keyed.
              open_then P aliased _ d same (λ bytes there. after_check A d _ (passed _ _ checked) (
                (Leaves-bind _ _ (create_output_temp-Leaves A d name options.overwrite) (λ _ _.
                    Leaves-bind _ _ (call-Leaves A d) (λ _ _.
                      Leaves-bind _ _
                        (lift-Leaves
                          (encrypt_stream c s (record { content = bytes; plan = reads })))
                        (λ file encrypted. Leaves-bind _ _ (call-Leaves A d) (λ _ _.
                          persist_output-Leaves A d file
                            (bytes, header, there, made, rw keyed encrypted)
                            options.overwrite))))).disk
                  d (start A d)))))))
