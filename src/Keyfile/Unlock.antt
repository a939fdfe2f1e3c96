-- ===== src/Keyfile/Unlock.antt =====
-- A key capsule opens under its passphrase, and to nothing but what was wrapped.
use or_isy_vra.Base.{
  false, ℕ, ◌^◌, ◌<◌, ◌≤◌, ◌≡◌, refl, sym, ◌∙◌, arith, List, ◌++◌, length, ltb, length-append,
  take-append, drop-append,
}
use or_isy_vra.Base.Bytes.{IsBytes}
use or_isy_vra.Base.Results.{ok}
use or_isy_vra.Crypto.{Crypto, IsAead, HasArgon2}
use or_isy_vra.Keyfile.{
  KeyfileParams, master_key_size, keyfile_size, key_header_size, validate_password,
  derive_wrapping_key, encode_key_header, validate_keyfile_bytes, wrap, unwrap,
  encode_keyfile_bytes, unlock_keyfile_bytes,
}
use or_isy_vra.Keyfile.Codec.{
  IsParams, validate_params-ok, encode_key_header-IsBytes, decode-encode,
}

ltb-ge : (a b : ℕ) → b ≤ a → ltb a b ≡ false
ltb-ge a b h = ground arith

-- With cryptography that is as documented, for every master key of 48 bytes, passphrase of 12
-- bytes at least and less than 2 ^ 32, permitted parameters, and salt and nonce of 16 and 24 bytes: encoding gives a
-- capsule of 128 bytes, which passes the check of capsules, and unlocking it with that passphrase
-- gives the master key.
pub unlock-encode :
    (c : Crypto) (master password : List ℕ) (p : KeyfileParams) (salt nonce : List ℕ)
    → IsAead c
    → HasArgon2 c
    → IsBytes master_key_size master
    → 12 ≤ length password
    → length password < 2 ^ 32
    → IsParams p
    → IsBytes 16 salt
    → IsBytes 24 nonce
    → (file : List ℕ) × (encode_keyfile_bytes c master password p salt nonce ≡ ok file)
      × (length file ≡ keyfile_size)
      × (validate_keyfile_bytes file ≡ ok tt)
      × (unlock_keyfile_bytes c file password ≡ ok master)
unfolding encode_keyfile_bytes unlock_keyfile_bytes validate_keyfile_bytes validate_password
    derive_wrapping_key wrap unwrap
unlock-encode c master password p salt nonce aead argon m long short h s n =
    let header = encode_key_header p salt nonce in
    let header_bytes = encode_key_header-IsBytes p salt nonce s n in
    let (key, derived, key_bytes) =
      argon.argon2id_32 password salt p.memory_kib p.iterations p.parallelism short s
        (omega (arith, h.memory_max)) (omega (arith, h.iterations_max))
        (omega (arith, h.parallelism_max)) (omega (arith, h.memory_min, h.parallelism_max))
        h.iterations_min h.parallelism_min in
    let accepted =
      argon.accepts p.memory_kib p.iterations p.parallelism (omega (arith, h.memory_max))
        (omega (arith, h.iterations_max)) (omega (arith, h.parallelism_max))
        (omega (arith, h.memory_min, h.parallelism_max)) h.iterations_min h.parallelism_min in
    let (wrapped, made, wrapped_bytes) =
      aead.seals key nonce master header key_bytes n m.all (omega (arith, m.size)) in
    let opened = aead.unseals key nonce master header wrapped made in
    let size : length wrapped ≡ 64 = wrapped_bytes.size ∙ omega (arith, m.size) in
    let whole : length (header ++ wrapped) ≡ keyfile_size =
      length-append header wrapped ∙ omega (arith, header_bytes.size, size) in
    let checked = validate_params-ok p h in
    let read = decode-encode p salt nonce s n h in
    let front = take-append key_header_size header wrapped (sym header_bytes.size) in
    let back = drop-append key_header_size header wrapped (sym header_bytes.size) in
    (
      header ++ wrapped,
      rw (ltb-ge (length password) 12 long)
          (rw checked (rw accepted (rw derived (rw key_bytes.size (rw made (rw size refl)))))),
      whole,
      rw whole (rw front (rw read refl)),
      rw whole (
          rw front (
            rw back (
              rw read (
                rw checked
                  (rw accepted (rw derived (rw key_bytes.size (rw opened (rw m.size refl))))))))),
    )
