-- ===== src/Keycard/Files/Created.antt =====
-- A new visual key unlocks with its passphrase.
use Prim.Native.String.{String}
use or_isy_vra.Base.{
  ℕ, ◌+◌, ◌^◌, ◌≤◌, ◌<◌, ◌≡◌, refl, sym, ◌∙◌, arith, List, [], length, take, Option, none, some,
  Bool, true, false, not,
}
use or_isy_vra.Base.Bytes.{IsBytes, bytes_eq}
use or_isy_vra.Base.Results.{ok}
use or_isy_vra.Base.{get_or}
use or_isy_vra.Base.Results.{err}
use or_isy_vra.Errors.{key_card_decode, invalid_format, output_exists}
use or_isy_vra.Crypto.{Crypto, IsAead, HasArgon2, HasDigests}
use or_isy_vra.Container.Files.{
  pure, lift, ◌>>=◌, call, create_output_temp, persist_output, remove_old, remove_output, persist,
  exists,
}
use or_isy_vra.Keyfile.{
  KeyfileParams, master_key_size, validate_keyfile_bytes, key_magic, keyfile_size, key_header_size,
  decode_key_header, checked_key_header, validate_password, unlock_keyfile_bytes,
}
use or_isy_vra.Base.{Bool-cases, inl, inr, ◌==◌, ◌&&◌, ltb-false}
use or_isy_vra.Base.Slices.{take-take}
use or_isy_vra.Base.Bytes.{slice, bytes_eq_iff}
use or_isy_vra.Base.Results.{bind-eq-ok, fail_if-eq-ok}
use or_isy_vra.Keyfile.Codec.{IsParams, validate_params-ok}
use or_isy_vra.Keyfile.Unlock.{unlock-encode}
use or_isy_vra.Png.{png_signature, iend, starts_with, chunk}
use or_isy_vra.Png.Insert.{length-out}
use or_isy_vra.Png.Kept.{Inserted-Plain}
use or_isy_vra.Png.Reading.{length-chunk}
use or_isy_vra.Png.Plain.{IsPlainPng, insert_loop-Plain}
use or_isy_vra.Keycard.{
  Imaging, key_chunk_type, card_id, inject_key_chunk, extract_key_chunk, source_bytes,
  key_source_info, unlock_key_source, decode_keycard_image,
}
use or_isy_vra.Keycard.Chunk.{extract_loop-Plain}
use or_isy_vra.Keycard.RoundTrip.{
  extract-inject, inject-Inserted, starts_with_iff, build_key_chunk-valid, key_body,
}
use or_isy_vra.Keycard.Files.{
  create_keycard, new_keyfile, export_bytes, export_png, render_png_card, save_png_card,
  write_atomic,
}

-- A private chunk type of the PNG specification: its second letter is a small one.
abbrev pub IsPrivate : List ℕ → Type 0
IsPrivate kind = 97 ≤ get_or kind 1 0

-- The encoder makes a PNG file of every capsule, without private chunks.
pub record EncodesPng (im : Imaging) : Type 0 where
  pub encodes :
      (keyfile : List ℕ)
      → validate_keyfile_bytes keyfile ≡ ok tt
      → (png : List ℕ) × (im.encode_png keyfile ≡ ok png)
        × (length png < 2 ^ 61)
        × ((kind : List ℕ) → IsPrivate kind → IsPlainPng kind png)

module _ (c : Crypto) (digests : HasDigests c) (png keyfile : List ℕ)
    (plain : IsPlainPng key_chunk_type png) (valid : validate_keyfile_bytes keyfile ≡ ok tt) where
  signed : starts_with png png_signature ≡ true
  signed = (starts_with_iff png png_signature).1 plain.signed

  nothing_yet : extract_key_chunk c png ≡ ok none
  unfolding extract_key_chunk
  nothing_yet =
      rw signed (extract_loop-Plain c png plain.small plain.chunks (length png + 1) (omega arith))

  -- Injecting into a plain file succeeds.
  pub inject_key_chunk-Plain : (out : List ℕ) × (inject_key_chunk c png keyfile ≡ ok out)
  unfolding inject_key_chunk
  inject_key_chunk-Plain =
      let new = chunk key_chunk_type (key_body c keyfile digests valid) in
      let (out, walked) =
        insert_loop-Plain key_card_decode key_card_decode key_chunk_type png new plain.small
          plain.chunks (length png + 1) (omega arith) in
      (
        out,
        rw signed (
            rw (build_key_chunk-valid c keyfile digests valid)
              (rw (rw plain.signed at walked) refl)),
      )

-- A capsule that passes the check begins with its own mark, so it is not taken for a picture.
valid-magic :
    (keyfile : List ℕ) → validate_keyfile_bytes keyfile ≡ ok tt → take 8 keyfile ≡ key_magic
unfolding validate_keyfile_bytes decode_key_header checked_key_header
valid-magic keyfile e =
    let (size, r0) =
      fail_if-eq-ok (not (length keyfile == keyfile_size))
        (invalid_format "unexpected key capsule size") _ e in
    let (header, decoded, r1) =
      bind-eq-ok (decode_key_header (take key_header_size keyfile)) _ _ r0 in
    let (magic, r2) =
      fail_if-eq-ok (not (bytes_eq (slice 0 8 (take key_header_size keyfile)) key_magic))
        (invalid_format "not an OrIsyVra key capsule") _ decoded in
    sym (take-take 8 key_header_size keyfile (omega arith))
    ∙ (bytes_eq_iff _ _).0
        (positive (bytes_eq (take 8 (take key_header_size keyfile)) key_magic) magic)
  where
    positive : (b : Bool) → not b ≡ false → b ≡ true
    positive true h = refl
    positive false h = cc

pub source_bytes-valid :
    (c : Crypto) (im : Imaging) (keyfile : List ℕ)
    → validate_keyfile_bytes keyfile ≡ ok tt
    → source_bytes c im keyfile ≡ ok keyfile
unfolding source_bytes bytes_eq
source_bytes-valid c im keyfile valid = rw (valid-magic keyfile valid) (rw valid refl)

extract-signed :
    (c : Crypto) (out keyfile : List ℕ)
    → extract_key_chunk c out ≡ ok (some keyfile)
    → starts_with out png_signature ≡ true
unfolding extract_key_chunk
extract-signed c out keyfile e = elim (Bool-cases (starts_with out png_signature)) [
  | inl signed_out ↦ signed_out
  | inr unsigned ↦ absurd (ground (arith, rw unsigned at e))
]

-- What is read from a picture that carries a capsule.
pub source_bytes-extracted :
    (c : Crypto) (im : Imaging) (keyfile out : List ℕ)
    → extract_key_chunk c out ≡ ok (some keyfile)
    → source_bytes c im out ≡ ok keyfile
unfolding source_bytes decode_keycard_image
source_bytes-extracted c im keyfile out found =
    rw (extract-signed c out keyfile found) (rw found refl)

key-ne-iend : bytes_eq key_chunk_type iend ≡ false
unfolding bytes_eq
key-ne-iend = refl

password-ok : (password : List ℕ) → 12 ≤ length password → validate_password password ≡ ok tt
unfolding validate_password
password-ok password h = rw (ltb-false (length password) 12 h) refl

-- Where nothing fails, and the output may be written.
pub write_atomic-ok :
    (name : String) (bytes : List ℕ) (overwrite : Bool) (input old : Option (List ℕ))
    → (exists old && not overwrite) ≡ false
    → write_atomic name bytes overwrite (record { input = input; output = old; plan = [] })
      ≡ (ok tt, record { input = input; output = some bytes; plan = [] })
unfolding write_atomic create_output_temp call persist_output remove_old remove_output persist ◌>>=◌
write_atomic-ok name bytes true input none h = refl
write_atomic-ok name bytes false input none h = refl
write_atomic-ok name bytes true input (some x) h = refl
write_atomic-ok name bytes false input (some x) h = cc

write_atomic-refused :
    (name : String) (bytes x : List ℕ) (input : Option (List ℕ))
    → write_atomic name bytes false (record { input = input; output = some x; plan = [] })
      ≡ (err (output_exists name), record { input = input; output = some x; plan = [] })
unfolding write_atomic create_output_temp ◌>>=◌
write_atomic-refused name bytes x input = refl

-- A picture that carries the capsule, and no private chunk of another type.
pub record Carries (c : Crypto) (keyfile picture : List ℕ) : Type 0 where
  pub extracted : extract_key_chunk c picture ≡ ok (some keyfile)
  pub others :
      (kind : List ℕ)
      → IsPrivate kind
      → bytes_eq key_chunk_type kind ≡ false
      → IsPlainPng kind picture

injected-Carries :
    (c : Crypto) (png keyfile picture : List ℕ)
    → HasDigests c
    → length png < 2 ^ 61
    → ((kind : List ℕ) → IsPrivate kind → IsPlainPng kind png)
    → validate_keyfile_bytes keyfile ≡ ok tt
    → inject_key_chunk c png keyfile ≡ ok picture
    → Carries c keyfile picture
injected-Carries c png keyfile picture digests short plain valid e =
    let own = plain key_chunk_type (omega arith) in
    record {
      extracted =
          extract-inject c png keyfile picture digests own.small
            (nothing_yet c digests png keyfile own valid) e;
      others = λ kind private other.
          let p = plain kind private in
          let (body, size, reads, signed_png, signed_picture, walk) =
            inject-Inserted c png keyfile picture digests e in
          record {
            signed = signed_picture;
            chunks =
                Inserted-Plain png picture key_chunk_type body refl (omega (arith, size)) kind other
                  key-ne-iend walk p.chunks;
            small =
                omega (arith, short, length-out walk, length-chunk key_chunk_type body refl, size);
          };
    }

module _ (c : Crypto) (im : Imaging) (master password : List ℕ) (p : KeyfileParams)
    (salt nonce : List ℕ) (aead : IsAead c) (argon : HasArgon2 c) (digests : HasDigests c)
    (encoder : EncodesPng im) (m : IsBytes master_key_size master) (long : 12 ≤ length password)
    (short : length password < 2 ^ 32) (params : IsParams p) (s : IsBytes 16 salt)
    (n : IsBytes 24 nonce) where
  -- The capsule and the picture of a run, and how the run ends.
  pub record Run : Type 0 where
    pub keyfile : List ℕ
    pub picture : List ℕ
    pub carries : Carries c keyfile picture
    pub unlocks : unlock_keyfile_bytes c keyfile password ≡ ok master
    pub written :
        (name : String) (overwrite : Bool) (input old : Option (List ℕ))
        → (exists old && not overwrite) ≡ false
        → create_keycard c im master password p salt nonce false name overwrite
            (record { input = input; output = old; plan = [] })
          ≡ (ok (card_id c keyfile), record { input = input; output = some picture; plan = [] })
    pub refused :
        (name : String) (input : Option (List ℕ)) (x : List ℕ)
        → create_keycard c im master password p salt nonce false name false
            (record { input = input; output = some x; plan = [] })
          ≡ (err (output_exists name), record { input = input; output = some x; plan = [] })

  pub create_keycard-runs : Run
  unfolding create_keycard new_keyfile export_bytes export_png render_png_card save_png_card lift
      pure call ◌>>=◌
  create_keycard-runs =
      let (keyfile, made, size, valid, opened) =
        unlock-encode c master password p salt nonce aead argon m long short params s n in
      let (png, encoded, bound, plain) = encoder.encodes keyfile valid in
      let (picture, injected) =
        inject_key_chunk-Plain c digests png keyfile (plain key_chunk_type (omega arith)) valid in
      record {
        keyfile = keyfile;
        picture = picture;
        carries = injected-Carries c png keyfile picture digests bound plain valid injected;
        unlocks = opened;
        written = λ name overwrite input old free. rw (password-ok password long) (
            rw (validate_params-ok p params) (
              rw made (
                rw valid (
                  rw (source_bytes-valid c im keyfile valid) (
                    rw valid (
                      rw encoded (
                        rw injected
                          (rw (write_atomic-ok name picture overwrite input old free) refl))))))));
        refused = λ name input x. rw (password-ok password long) (
            rw (validate_params-ok p params) (
              rw made (
                rw valid (
                  rw (source_bytes-valid c im keyfile valid) (
                    rw valid (
                      rw encoded
                        (rw injected (rw (write_atomic-refused name picture x input) refl))))))));
      }

-- With documented cryptography and an encoder that makes PNG files without private chunks, for
-- every master key of 48 bytes, passphrase of 12 bytes at least and less than 2 ^ 32, permitted
-- parameters, salt and nonce: where no call fails and the output may be written, `create_keycard`
-- for a picture succeeds; the picture is at the output, its key information is what was returned,
-- and with that passphrase it unlocks to the master key.
pub unlock-create_keycard :
    (c : Crypto) (im : Imaging) (master password : List ℕ) (p : KeyfileParams) (salt nonce : List ℕ)
    (name : String) (overwrite : Bool) (input old : Option (List ℕ))
    → IsAead c
    → HasArgon2 c
    → HasDigests c
    → EncodesPng im
    → IsBytes master_key_size master
    → 12 ≤ length password
    → length password < 2 ^ 32
    → IsParams p
    → IsBytes 16 salt
    → IsBytes 24 nonce
    → (exists old && not overwrite) ≡ false
    → (info picture : List ℕ) × (create_keycard c im master password p salt nonce false name
          overwrite
          (record { input = input; output = old; plan = [] })
        ≡ (ok info, record { input = input; output = some picture; plan = [] }))
      × (key_source_info c im picture ≡ ok info)
      × (unlock_key_source c im picture password ≡ ok master)
unfolding key_source_info unlock_key_source
unlock-create_keycard c im master password p salt nonce name overwrite input old aead argon digests
      encoder m long short params s n free =
    let r =
      create_keycard-runs c im master password p salt nonce aead argon digests encoder m long short
        params s n in
    let read = source_bytes-extracted c im r.keyfile r.picture r.carries.extracted in
    (
      card_id c r.keyfile,
      r.picture,
      r.written name overwrite input old free,
      rw read refl,
      rw read r.unlocks,
    )
