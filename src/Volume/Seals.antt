-- ===== src/Volume/Seals.antt =====
-- The volume's keys, nonces and associated data, and the two authenticated superblocks.
use or_isy_vra.Base.{
  ℕ, ◌+◌, List, [], ◌∷◌, ◌++◌, length, take, drop, replicate, Option, none, some, Bool, true, ltb,
  ◌==◌, not, ◌&&◌, ◌||◌, codes, if◌then◌else◌,
}
use or_isy_vra.Base.Bytes.{le_bytes, from_le, slice, copy_at}
use or_isy_vra.Base.Results.{ok, err, ◌>>=◌, ◌>>◌, ok_or, fail_if}
use or_isy_vra.Crypto.{Crypto}
use or_isy_vra.Volume.Layout.{
  VolumeResult, invalid_input, authentication_failed, corrupt, Bootstrap, encode_bootstrap,
  SuperState, decode_super, super_slot_size, super_a_offset, super_b_offset,
}
use or_isy_vra.Volume.Device.{read_at}

pub record VolumeKeys : Type 0 where
  pub key : List ℕ
  pub nonce_key : List ℕ

unfoldable pub derive_keys : Crypto → List ℕ → Bootstrap → VolumeResult VolumeKeys
derive_keys c master b = do
  output ←
      ok_or (c.hkdf b.salt master (codes "OrIsyVra/volume/guarded/v1" ++ b.volume_id))
        authentication_failed
  ok (record { key = take 32 output; nonce_key = drop 32 output })

unfoldable pub derive_nonce : Crypto → VolumeKeys → Bootstrap → List ℕ → ℕ → ℕ → List ℕ
derive_nonce c keys b domain first second = take 24 (
    c.hmac_sha256 keys.nonce_key (
      codes "OrIsyVra/volume/nonce/v1"
      ++ (b.volume_id
          ++ (le_bytes 8 (length domain) ++ (domain ++ (le_bytes 8 first ++ le_bytes 8 second))))))

abbrev pub super_domain : List ℕ
super_domain = codes "super"

unfoldable pub super_offset : ℕ → VolumeResult ℕ
super_offset slot =
    if slot == 0
    then ok super_a_offset
    else if slot == 1
    then ok super_b_offset
    else err (invalid_input "invalid superblock slot")

unfoldable pub super_aad : Bootstrap → ℕ → ℕ → List ℕ
super_aad b slot generation = encode_bootstrap b ++ (super_domain ++ (slot ∷ le_bytes 8 generation))

-- `XChaCha20Poly1305::new_from_slice(&keys.key)` and `encrypt`, `decrypt`.
unfoldable pub encrypt : Crypto → VolumeKeys → List ℕ → List ℕ → List ℕ → VolumeResult (List ℕ)
encrypt c keys nonce message aad = do
  fail_if (not (length keys.key == 32)) authentication_failed
  ok_or (c.seal keys.key nonce message aad) authentication_failed

unfoldable pub decrypt : Crypto → VolumeKeys → List ℕ → List ℕ → List ℕ → VolumeResult (List ℕ)
decrypt c keys nonce message aad = do
  fail_if (not (length keys.key == 32)) authentication_failed
  ok_or (c.unseal keys.key nonce message aad) authentication_failed

-- The 512 bytes of a slot.
unfoldable pub super_slot : ℕ → List ℕ → List ℕ
unfolding copy_at
super_slot generation ciphertext =
    let b1 = copy_at 0 (le_bytes 8 generation) (replicate super_slot_size 0) in
    let b2 = copy_at 8 (le_bytes 4 (length ciphertext)) b1 in copy_at 16 ciphertext b2

abbrev pub all_zero : List ℕ → Bool
all_zero [] = true
all_zero (b ∷ bs) = b == 0 && all_zero bs

-- `read_superblock` behind the test for an empty slot.
unfoldable pub open_superblock :
    Crypto → Bootstrap → VolumeKeys → ℕ → List ℕ → VolumeResult (Option SuperState)
open_superblock c b keys slot bytes = do
  let generation = from_le (slice 0 8 bytes)
  let ciphertext_len = from_le (slice 8 12 bytes)
  fail_if (ciphertext_len == 0 || ltb super_slot_size (ciphertext_len + 16))
      (corrupt "invalid superblock slot length")
  plaintext ←
      decrypt c keys (derive_nonce c keys b super_domain slot generation)
        (slice 16 (16 + ciphertext_len) bytes) (super_aad b slot generation)
  st ← decode_super plaintext
  fail_if (not (st.generation == generation)) (corrupt "superblock generation mismatch")
  ok (some st)

unfoldable pub read_superblock :
    Crypto → Bootstrap → VolumeKeys → ℕ → List ℕ → VolumeResult (Option SuperState)
read_superblock c b keys slot content = do
  offset ← super_offset slot
  bytes ← read_at offset super_slot_size content
  if all_zero bytes then ok none else open_superblock c b keys slot bytes
