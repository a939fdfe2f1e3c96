-- ===== src/Container/Decrypt/Bodies.antt =====
-- What encryption seals into a body or a manifest, decryption opens, in both modes.
use or_isy_vra.Base.{
  ℕ, ◌+◌, ◌^◌, ◌<◌, ◌≤◌, ◌≡◌, refl, ◌∙◌, arith, List, ◌∷◌, ◌++◌, length, All, some, lt→ltb,
  length-take, All-take,
}
use or_isy_vra.Base.Words.{IsByte}
use or_isy_vra.Base.Bytes.{IsBytes}
use or_isy_vra.Base.Results.{ok}
use or_isy_vra.Crypto.{Crypto, IsAead, HasDigests}
use or_isy_vra.Container.Header.{Mode, native_research, guarded, Header, max_chunk_size}
use or_isy_vra.Container.Header.Codec.{IsHeader}
use or_isy_vra.Container.Keys.{GuardKeys}
use or_isy_vra.Container.Guard.{guard_nonce, guard_seal, guard_open}
use or_isy_vra.Container.Record.{data_record, record_frame}
use or_isy_vra.Container.Manifest.{manifest_inner_size, manifest_frame, manifest_record}
use or_isy_vra.Container.Encrypt.{Session, seal_body, seal_manifest, u64_max}
use or_isy_vra.Container.Decrypt.{open_body, open_manifest, body_length_for, manifest_length_for}

-- A session of `session_of`: the header is valid, and guarded mode has a key of 32 bytes.
pub record IsSession (s : Session) : Type 0 where
  pub header : IsHeader s.header
  pub keyed :
      s.header.mode ≡ guarded
      → (keys : GuardKeys) × (s.guard_keys ≡ some keys) × IsBytes 32 keys.key

module _ (c : Crypto) (aead : IsAead c) (digests : HasDigests c) where
  guard_nonce-IsBytes :
      (keys : GuardKeys) (header : Header) (index kind : ℕ)
      → IsBytes 24 (guard_nonce c keys header index kind)
  unfolding guard_nonce
  guard_nonce-IsBytes keys header index kind =
      let d = digests.hmac_32 keys.nonce_key _ in
      record { size = length-take 24 _ ∙ omega (arith, d.size); all = All-take IsByte 24 _ d.all }

  -- What `guard_seal` gives, `guard_open` takes back, and it is sixteen bytes longer.
  pub guard_open-seal :
      (keys : GuardKeys) (header : Header) (index kind : ℕ) (aad message : List ℕ)
      → IsBytes 32 keys.key
      → All IsByte message
      → length message < 2 ^ 32
      → (sealed : List ℕ) × (guard_seal c keys header index kind aad message ≡ ok sealed)
        × (guard_open c keys header index kind aad sealed ≡ ok message)
        × IsBytes (length message + 16) sealed
  unfolding guard_seal guard_open
  guard_open-seal keys header index kind aad message key bytes small =
      let nonce = guard_nonce c keys header index kind in
      let (sealed, made, size) =
        aead.seals keys.key nonce message aad key (guard_nonce-IsBytes keys header index kind) bytes
          small in
      let opened = aead.unseals keys.key nonce message aad sealed made in
      (sealed, rw key.size (rw made refl), rw key.size (rw opened refl), size)

  module _ (s : Session) (valid : IsSession s) where
    pub open_body-seal :
        (mode : Mode) (index n : ℕ) (native_body : List ℕ)
        → s.header.mode ≡ mode
        → n ≤ max_chunk_size
        → IsBytes (32 + n) native_body
        → (body : List ℕ) × (seal_body c s mode index n native_body ≡ ok body)
          × (length body ≡ body_length_for mode n)
          × ((rest : List ℕ)
              → record_frame index n (length body) ≡ data_record ∷ rest
              → open_body c s mode index (data_record ∷ rest) body ≡ ok native_body)
    unfolding seal_body open_body
    open_body-seal native_research index n native_body m h full =
        (native_body, refl, full.size, λ rest e. refl)
    open_body-seal guarded index n native_body m h full =
        let (keys, there, key) = valid.keyed m in
        let (body, made, opened, size) =
          guard_open-seal keys s.header index data_record
            (s.header_bytes ++ record_frame index n (length native_body + 16)) native_body key
            full.all (omega (arith, full.size)) in
        (
          body,
          rw (lt→ltb (length native_body + 16) (2 ^ 64) (omega (arith, full.size))) (
              rw (lt→ltb (length native_body + 16) (2 ^ 32) (omega (arith, full.size)))
                (rw there made)),
          size.size ∙ omega (arith, full.size),
          λ rest e. rw there (rw (← e) (rw size.size opened)),
        )

    pub open_manifest-seal :
        (mode : Mode) (inner : List ℕ)
        → s.header.mode ≡ mode
        → IsBytes manifest_inner_size inner
        → (body : List ℕ) × (seal_manifest c s mode inner ≡ ok body)
          × (length body ≡ manifest_length_for mode)
          × (open_manifest c s mode (length body) body ≡ ok inner)
    unfolding seal_manifest open_manifest
    open_manifest-seal native_research inner m full = (inner, refl, full.size, refl)
    open_manifest-seal guarded inner m full =
        let (keys, there, key) = valid.keyed m in
        let (body, made, opened, size) =
          guard_open-seal keys s.header u64_max manifest_record
            (s.header_bytes ++ manifest_frame (manifest_inner_size + 16)) inner key full.all
            (omega (arith, full.size)) in
        let length_body : length body ≡ manifest_inner_size + 16 =
          size.size ∙ omega (arith, full.size) in
        (body, rw there made, length_body, rw there (rw length_body opened))
