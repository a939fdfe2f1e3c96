-- ===== src/Container/Guard/Nonces.antt =====
-- The nonces of guarded records: what `guard_nonce` gives to HMAC differs from record to record.
use or_isy_vra.Base.{
  ℕ, ◌^◌, ◌<◌, ◌≡◌, ◌≢◌, ◌⊎◌, inl, inr, refl, ap, sym, ◌∙◌, arith, List, ◌∷◌, ◌++◌, length, take,
  drop, Bool, true, false, Bool-cases, get_or, take-append, drop-append, codes,
}
use or_isy_vra.Base.Bytes.{
  le_bytes, from_le, from_le-le_bytes, bytes_eq, bytes_eq_iff, bytes_eq_self,
}
use or_isy_vra.Crypto.{Crypto}
use or_isy_vra.Container.Header.{Header}
use or_isy_vra.Container.Header.Codec.{IsHeader}
use or_isy_vra.Container.Keys.{GuardKeys}
use or_isy_vra.Container.Guard.{guard_nonce}

-- A label, the file's identifier, the kind of record, and its index in eight bytes.
abbrev pub nonce_message : Header → ℕ → ℕ → List ℕ
nonce_message header index kind =
    codes "OrIsyVra/guarded/nonce/v1" ++ (header.file_id ++ (kind ∷ le_bytes 8 index))

-- Two messages that are not the same, of whose HMAC the first 24 bytes are.
abbrev pub Collides : Crypto → GuardKeys → List ℕ → List ℕ → Type 0
Collides c keys message message' =
    (message ≢ message')
    × (take 24 (c.hmac_sha256 keys.nonce_key message)
        ≡ take 24 (c.hmac_sha256 keys.nonce_key message'))

same_parts :
    (pre xs xs' ys ys' : List ℕ)
    → length xs ≡ length xs'
    → pre ++ (xs ++ ys) ≡ pre ++ (xs' ++ ys')
    → (xs ≡ xs') × (ys ≡ ys')
same_parts pre xs xs' ys ys' size e =
    let tails : xs ++ ys ≡ xs' ++ ys' =
      sym (drop-append (length pre) pre (xs ++ ys) refl)
      ∙ ap (drop (length pre)) e
      ∙ drop-append (length pre) pre (xs' ++ ys') refl in
    (
      sym (take-append (length xs) xs ys refl)
          ∙ ap (take (length xs)) tails
          ∙ take-append (length xs) xs' ys' size,
      sym (drop-append (length xs) xs ys refl)
          ∙ ap (drop (length xs)) tails
          ∙ drop-append (length xs) xs' ys' size,
    )

nonce_message_injective :
    (header header' : Header) (index index' kind kind' : ℕ)
    → IsHeader header
    → IsHeader header'
    → index < 2 ^ 64
    → index' < 2 ^ 64
    → nonce_message header index kind ≡ nonce_message header' index' kind'
    → (header.file_id ≡ header'.file_id) × (index ≡ index') × (kind ≡ kind')
nonce_message_injective header header' index index' kind kind' valid valid' h h' e =
    let (ids, tails) =
      same_parts (codes "OrIsyVra/guarded/nonce/v1") header.file_id header'.file_id
        (kind ∷ le_bytes 8 index) (kind' ∷ le_bytes 8 index')
        (valid.file_id_bytes.size ∙ sym valid'.file_id_bytes.size) e in
    (
      ids,
      sym (from_le-le_bytes 8 index h)
          ∙ ap (λ t. from_le (drop 1 t)) tails
          ∙ from_le-le_bytes 8 index' h',
      ap (λ t. get_or t 0 0) tails,
    )

-- For all keys, valid headers and record kinds, and indices below `2 ^ 64`: where two records get the
-- same nonce, they are of the same file identifier, the same index and the same kind, or HMAC gives
-- the same first 24 bytes for their two messages, which differ.
pub guard_nonce-distinct :
    (c : Crypto) (keys : GuardKeys) (header header' : Header) (index index' kind kind' : ℕ)
    → IsHeader header
    → IsHeader header'
    → index < 2 ^ 64
    → index' < 2 ^ 64
    → guard_nonce c keys header index kind ≡ guard_nonce c keys header' index' kind'
    → ((header.file_id ≡ header'.file_id) × (index ≡ index') × (kind ≡ kind'))
      ⊎ Collides c keys (nonce_message header index kind) (nonce_message header' index' kind')
unfolding guard_nonce
guard_nonce-distinct c keys header header' index index' kind kind' valid valid' h h' e =
    let m = nonce_message header index kind in
    let m' = nonce_message header' index' kind' in
    elim (Bool-cases (bytes_eq m m')) [
      | inl same ↦ inl (
          nonce_message_injective header header' index index' kind kind' valid valid' h h'
            ((bytes_eq_iff m m').0 same))
      | inr other ↦ inr (different m m' other, e)
    ]
  where
    different : (xs ys : List ℕ) → bytes_eq xs ys ≡ false → xs ≢ ys
    different xs ys n same =
        absurd (contradiction (bytes_eq xs ys) (ap (bytes_eq xs) (sym same) ∙ bytes_eq_self xs) n)
      where
        contradiction : (b : Bool) → b ≡ true → b ≡ false → ⊥
        contradiction b t f = ground arith
