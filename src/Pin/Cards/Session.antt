-- ===== src/Pin/Cards/Session.antt =====
-- A PIN card that was made unlocks with its PIN, and what happens to a card that was there.
use Prim.Native.String.{String}
use or_isy_vra.Base.{
  ℕ, ◌+◌, ◌*◌, ◌/◌, ◌%◌, ◌<◌, ◌≡◌, refl, ◌∙◌, arith, List, [], ◌∷◌, ◌++◌, length, take, Option,
  none, some, Bool, true, false, not, ◌&&◌, if◌then◌else◌, All, All-take, length-take,
  length-append, Option-cases, inl, inr, ltb, ◌==◌, codes,
}
use or_isy_vra.Base.Words.{IsByte}
use or_isy_vra.Base.Bytes.{IsBytes, bytes_eq, bytes_eq_self}
use or_isy_vra.Base.Results.{ok, err}
use or_isy_vra.Base.Acts.{pure, lift, ◌>>=◌}
use or_isy_vra.Errors.{output_exists}
use or_isy_vra.Crypto.{Crypto, IsAead, HasArgon2, HasDigests}
use or_isy_vra.Container.Files.{call, open_input, exists, remove_output}
use or_isy_vra.Keyfile.{KeyfileParams, master_key_size, unlock_keyfile_bytes}
use or_isy_vra.Keyfile.Codec.{IsParams}
use or_isy_vra.Keycard.{
  Imaging, hex_bytes, card_id, key_source_info, unlock_key_source, extract_key_chunk,
  key_chunk_type,
}
use or_isy_vra.Keycard.Files.Created.{
  EncodesPng, create_keycard-runs, write_atomic-ok, source_bytes-extracted,
}
use or_isy_vra.Pin.{
  ready, of_error, pin_is_valid, validate_pin, validate_card_id, is_ascii_hexdigit, all_bytes,
  to_ascii_uppercase, credential, binding_magic, parse_binding, pin_chunk_type, marker_present,
  add_pin_marker, device_secret_size,
}
use or_isy_vra.Pin.Marker.{marker_present-add_pin_marker, extract-add_pin_marker}
use or_isy_vra.Pin.Cards.{
  Dpapi, Machine, lookup, without, files, binding_path, put_binding, drop_binding,
  remove_old_binding, write_binding, store_binding, read_binding, load_binding, open_output,
  mark_pin_card, binding_state, state_of_marked, pin_card_state, bind_card, or_remove,
  create_pin_card, unlock_pin_card,
}

-- What DPAPI protects for a user is given back to that user.
pub record IsDpapi (dp : Dpapi) : Type 0 where
  pub protects :
      (plaintext : List ℕ)
      → (protected : List ℕ) × (dp.protect plaintext ≡ ok protected)
        × (dp.unprotect protected ≡ ok plaintext)

-- Fingerprints are names of bindings.
length-hex_bytes : (bytes : List ℕ) → length (hex_bytes bytes) ≡ 2 * length bytes
unfolding hex_bytes
length-hex_bytes [] = omega arith
length-hex_bytes (b ∷ bytes) = omega (arith, length-hex_bytes bytes)

hex_digit-ok : (n : ℕ) → n < 16 → is_ascii_hexdigit (if ltb n 10 then 48 + n else 55 + n) ≡ true
hex_digit-ok n h = ground arith

hex_bytes-ok :
    (bytes : List ℕ) → All IsByte bytes → all_bytes is_ascii_hexdigit (hex_bytes bytes) ≡ true
unfolding hex_bytes
hex_bytes-ok [] h = refl
hex_bytes-ok (b ∷ bytes) h =
    rw (hex_digit-ok (b / 16) (omega (arith, h.0)))
      (rw (hex_digit-ok (b % 16) (omega arith)) (hex_bytes-ok bytes h.1))

card_id-valid :
    (c : Crypto) (keyfile : List ℕ) → HasDigests c → validate_card_id (card_id c keyfile) ≡ ok tt
unfolding validate_card_id card_id
card_id-valid c keyfile digests =
    let d = digests.sha256_32 keyfile in
    let size : length (hex_bytes (take 8 (c.sha256 keyfile))) ≡ 16 = omega (
      arith,
      length-hex_bytes (take 8 (c.sha256 keyfile)),
      length-take 8 (c.sha256 keyfile),
      d.size,
    ) in
    rw size (rw (hex_bytes-ok _ (All-take IsByte 8 (c.sha256 keyfile) d.all)) refl)

valid_pin : (pin : List ℕ) → pin_is_valid pin ≡ true → validate_pin pin ≡ ok tt
unfolding validate_pin
valid_pin pin h = rw h refl

-- A binding of the magic and a secret is parsed to the secret.
parse_binding-ok :
    (secret : List ℕ)
    → length secret ≡ device_secret_size
    → parse_binding (binding_magic ++ secret) ≡ ok secret
unfolding parse_binding
parse_binding-ok secret size = rw size (rw (bytes_eq_self binding_magic) refl)

abbrev pub machine : Option (List ℕ) → Option (List ℕ) → List (List ℕ × List ℕ) → Machine
machine input output bindings = record {
  disk = record { input = input; output = output; plan = [] };
  bindings = bindings;
  appdata = true;
}

module _ (input output : Option (List ℕ)) (bindings : List (List ℕ × List ℕ)) where
  binding_path-ok :
      (id : List ℕ)
      → validate_card_id id ≡ ok tt
      → binding_path id (machine input output bindings)
        ≡ (ok (to_ascii_uppercase id), machine input output bindings)
  unfolding binding_path lift ◌>>=◌
  binding_path-ok id h = rw h refl

  write_binding-ok :
      (path bytes : List ℕ)
      → (bindings' : List (List ℕ × List ℕ)) × (write_binding path bytes
            (machine input output bindings)
          ≡ (ok tt, machine input output bindings'))
        × (lookup path bindings' ≡ some bytes)
  unfolding write_binding remove_old_binding drop_binding put_binding files call pure ◌>>=◌ lookup
  write_binding-ok path bytes = elim (Option-cases (lookup path bindings)) [
    | inl absent ↦
        ((path, bytes) ∷ without path bindings, rw absent refl, rw (bytes_eq_self path) refl)
    | inr (old, present) ↦ (
      (path, bytes) ∷ without path (without path bindings),
      rw present refl,
      rw (bytes_eq_self path) refl,
    )
  ]

  store_binding-ok :
      (dp : Dpapi) (id secret protected : List ℕ)
      → validate_card_id id ≡ ok tt
      → dp.protect (binding_magic ++ secret) ≡ ok protected
      → (bindings' : List (List ℕ × List ℕ)) × (store_binding dp id secret
            (machine input output bindings)
          ≡ (ok tt, machine input output bindings'))
        × (lookup (to_ascii_uppercase id) bindings' ≡ some protected)
  unfolding store_binding files call lift ◌>>=◌
  store_binding-ok dp id secret protected named made =
      let (bindings', stored, there) = write_binding-ok (to_ascii_uppercase id) protected in
      (bindings', rw (binding_path-ok id named) (rw made (rw stored refl)), there)

  mark_pin_card-ok :
      (name : String) (picture marked : List ℕ)
      → add_pin_marker picture ≡ ok marked
      → output ≡ some picture
      → mark_pin_card name (machine input output bindings)
        ≡ (ok tt, machine input (some marked) bindings)
  unfolding mark_pin_card files open_output lift ◌>>=◌
  mark_pin_card-ok name picture marked e there =
      rw there (rw e (rw (write_atomic-ok name marked true input (some picture) refl) refl))

info-of :
    (c : Crypto) (im : Imaging) (keyfile card : List ℕ)
    → extract_key_chunk c card ≡ ok (some keyfile)
    → key_source_info c im card ≡ ok (card_id c keyfile)
unfolding key_source_info
info-of c im keyfile card found = rw (source_bytes-extracted c im keyfile card found) refl

module _ (c : Crypto) (im : Imaging) (dp : Dpapi)
    (pin secret protected keyfile card master : List ℕ) (pin_ok : pin_is_valid pin ≡ true)
    (size : length secret ≡ device_secret_size)
    (found : extract_key_chunk c card ≡ ok (some keyfile))
    (named : validate_card_id (card_id c keyfile) ≡ ok tt)
    (back : dp.unprotect protected ≡ ok (binding_magic ++ secret))
    (unlocks : unlock_keyfile_bytes c keyfile (credential secret pin) ≡ ok master)
    (other : Option (List ℕ)) (bindings : List (List ℕ × List ℕ))
    (there : lookup (to_ascii_uppercase (card_id c keyfile)) bindings ≡ some protected) where
  pin_card_state-ready :
      marker_present card ≡ true
      → pin_card_state c im (machine (some card) other bindings)
        ≡ (ok ready, machine (some card) other bindings)
  unfolding pin_card_state state_of_marked binding_state files open_input lift ◌>>=◌
  pin_card_state-ready marked = rw marked (
      rw (info-of c im keyfile card found)
        (rw (binding_path-ok (some card) other bindings (card_id c keyfile) named) (rw there refl)))

  load_binding-ok :
      load_binding dp (card_id c keyfile) (machine (some card) other bindings)
      ≡ (ok secret, machine (some card) other bindings)
  unfolding load_binding read_binding lift ◌>>=◌
  load_binding-ok =
      rw (binding_path-ok (some card) other bindings (card_id c keyfile) named)
        (rw there (rw back (rw (parse_binding-ok secret size) refl)))

  unlock_source-ok : unlock_key_source c im card (credential secret pin) ≡ ok master
  unfolding unlock_key_source
  unlock_source-ok = rw (source_bytes-extracted c im keyfile card found) unlocks

  unlock_pin_card-ok :
      marker_present card ≡ true
      → unlock_pin_card c im dp pin (machine (some card) other bindings)
        ≡ (ok master, machine (some card) other bindings)
  unfolding unlock_pin_card files open_input lift ◌>>=◌
  unlock_pin_card-ok marked = rw (valid_pin pin pin_ok) (
      rw (pin_card_state-ready marked) (
        rw (pin_card_state-ready marked)
          (rw (info-of c im keyfile card found) (rw load_binding-ok (rw unlock_source-ok refl)))))

key-ne-pin : bytes_eq key_chunk_type pin_chunk_type ≡ false
unfolding bytes_eq
key-ne-pin = refl

credential-length :
    (secret pin : List ℕ)
    → length secret ≡ device_secret_size
    → pin_is_valid pin ≡ true
    → length (credential secret pin) ≡ 59
unfolding credential pin_is_valid
credential-length secret pin size h = omega (
  arith,
  length-append (codes "OrIsyVra/device-pin/v1") (0 ∷ (secret ++ pin)),
  length-append secret pin,
  size,
  four (length pin) _ h,
)
  where
    four : (n : ℕ) (b : Bool) → (n == 4 && b) ≡ true → n ≡ 4
    four n b e = ground arith

-- With documented cryptography and protection of secrets, and an encoder that makes PNG files
-- without private chunks, for a PIN of four digits, every device secret of 32 bytes, master key of
-- 48 bytes, permitted parameters, salt and nonce: where APPDATA is set, no call fails and the output
-- may be written, `create_pin_card` for a picture succeeds, and on the machine behind it
-- `unlock_pin_card` of that picture with that PIN gives the master key.
pub unlock-create_pin_card :
    (c : Crypto) (im : Imaging) (dp : Dpapi) (secret master pin : List ℕ) (p : KeyfileParams)
    (salt nonce : List ℕ) (name : String) (overwrite : Bool) (input old : Option (List ℕ))
    (bindings : List (List ℕ × List ℕ))
    → IsAead c
    → HasArgon2 c
    → HasDigests c
    → EncodesPng im
    → IsDpapi dp
    → IsBytes device_secret_size secret
    → IsBytes master_key_size master
    → pin_is_valid pin ≡ true
    → IsParams p
    → IsBytes 16 salt
    → IsBytes 24 nonce
    → (exists old && not overwrite) ≡ false
    → (info card : List ℕ) × (bindings' : List (List ℕ × List ℕ)) × (create_pin_card c im dp secret
          master pin p salt nonce false name overwrite
          (machine input old bindings)
        ≡ (ok info, machine input (some card) bindings'))
      × ((other : Option (List ℕ))
          → unlock_pin_card c im dp pin (machine (some card) other bindings')
            ≡ (ok master, machine (some card) other bindings'))
unfolding create_pin_card or_remove bind_card files open_output lift pure ◌>>=◌
unlock-create_pin_card c im dp secret master pin p salt nonce name overwrite input old bindings aead
      argon digests encoder dpapi s m pin_ok params salt_ok nonce_ok free =
    let size = credential-length secret pin s.size pin_ok in
    let r =
      create_keycard-runs c im master (credential secret pin) p salt nonce aead argon digests
        encoder m (omega (arith, size)) (omega (arith, size)) params salt_ok nonce_ok in
    let plain = r.carries.others pin_chunk_type (omega arith) key-ne-pin in
    let (card, marked, present) = marker_present-add_pin_marker r.picture plain in
    let found : extract_key_chunk c card ≡ ok (some r.keyfile) =
      extract-add_pin_marker c r.picture card plain.small marked ∙ r.carries.extracted in
    let named = card_id-valid c r.keyfile digests in
    let (protected, made, back) = dpapi.protects (binding_magic ++ secret) in
    let (bindings', stored, there) =
      store_binding-ok input (some card) bindings dp (card_id c r.keyfile) secret protected named
        made in
    (
      card_id c r.keyfile,
      card,
      bindings',
      rw (valid_pin pin pin_ok) (
          rw (r.written name overwrite input old free) (
            rw (mark_pin_card-ok input (some r.picture) bindings name r.picture card marked refl)
              (rw (info-of c im r.keyfile card found) (rw stored refl)))),
      λ other.
          unlock_pin_card-ok c im dp pin secret protected r.keyfile card master pin_ok s.size found
            named back r.unlocks other bindings' there present,
    )

-- With documented cryptography, and an encoder that makes PNG files without private chunks, for a
-- PIN of four digits, every device secret, master key, permitted parameters, salt and nonce: where a
-- file is at the output and overwriting was not asked for, `create_pin_card` fails with the error
-- that the output exists, and the file that was there is gone.
pub create_pin_card-removes :
    (c : Crypto) (im : Imaging) (dp : Dpapi) (secret master pin : List ℕ) (p : KeyfileParams)
    (salt nonce : List ℕ) (name : String) (input : Option (List ℕ)) (old : List ℕ)
    (bindings : List (List ℕ × List ℕ))
    → IsAead c
    → HasArgon2 c
    → HasDigests c
    → EncodesPng im
    → IsBytes device_secret_size secret
    → IsBytes master_key_size master
    → pin_is_valid pin ≡ true
    → IsParams p
    → IsBytes 16 salt
    → IsBytes 24 nonce
    → create_pin_card c im dp secret master pin p salt nonce false name false
        (machine input (some old) bindings)
      ≡ (err (of_error (output_exists name)), machine input none bindings)
unfolding create_pin_card or_remove bind_card files remove_output lift ◌>>=◌
create_pin_card-removes c im dp secret master pin p salt nonce name input old bindings aead argon
      digests encoder s m pin_ok params salt_ok nonce_ok =
    let size = credential-length secret pin s.size pin_ok in
    let r =
      create_keycard-runs c im master (credential secret pin) p salt nonce aead argon digests
        encoder m (omega (arith, size)) (omega (arith, size)) params salt_ok nonce_ok in
    rw (valid_pin pin pin_ok) (rw (r.refused name input old) refl)
