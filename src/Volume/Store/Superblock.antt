-- ===== src/Volume/Store/Superblock.antt =====
-- A superblock that was written is read back with its state.
use or_isy_vra.Base.{
  ℕ, zero, suc, ◌+◌, ◌≤◌, ◌<◌, ◌≡◌, refl, ap, ap₂, sym, ◌∙◌, arith, inl, inr, List, [], ◌∷◌, ◌++◌,
  length, take, drop, replicate, get_or, true, false, some, ==_self, Bool-cases, length-append,
  append_assoc, append-nil,
}
use or_isy_vra.Base.Bytes.{
  slice, le_bytes, from_le, copy_at, IsBytes, from_le-le_bytes, length-le_bytes,
}
use or_isy_vra.Base.Fields.{
  concat, offset, write_fields_lem, copy_at_middle, replicate-add, read_field,
}
use or_isy_vra.Base.Results.{ok}
use or_isy_vra.Crypto.{Crypto, IsAead, HasDigests}
use or_isy_vra.Volume.Layout.{
  Bootstrap, SuperState, super_slot_size, super_plaintext_size, tag_size, encode_super,
}
use or_isy_vra.Volume.Layout.SuperCodec.{IsSuperState, encode_super-IsBytes, decode_super-encode}
use or_isy_vra.Volume.Device.{lift, ◌>>=◌, write_at, write_all}
use or_isy_vra.Volume.Device.Keeps.{Has}
use or_isy_vra.Volume.Seals.{
  VolumeKeys, derive_nonce, super_domain, super_offset, super_aad, super_slot, encrypt, decrypt,
  all_zero, open_superblock, read_superblock,
}
use or_isy_vra.Volume.Store.{write_superblock}
use or_isy_vra.Volume.Store.Crash.{slot_offset, super_slot-length}
use or_isy_vra.Volume.Store.ReadBack.{sound, read_at-Has, derive_nonce-IsBytes}

-- The sealed payload has 80 bytes.
abbrev sealed_size : ℕ
sealed_size = super_plaintext_size + tag_size

module _ (g : ℕ) (ciphertext : List ℕ) (size : length ciphertext ≡ sealed_size) where
  abbrev slot_parts : List (List ℕ)
  slot_parts = le_bytes 8 g ∷ le_bytes 4 (length ciphertext) ∷ replicate 4 0 ∷ ciphertext ∷ []

  super_slot-parts : super_slot g ciphertext ≡ concat slot_parts ++ replicate 416 0
  unfolding super_slot
  super_slot-parts =
      let front : List ℕ = le_bytes 8 g ++ (le_bytes 4 (length ciphertext) ++ []) in
      let written =
        write_fields_lem (8 ∷ 4 ∷ []) (le_bytes 8 g ∷ le_bytes 4 (length ciphertext) ∷ []) 500
          (omega (arith, length-le_bytes 8 g, length-le_bytes 4 (length ciphertext))) in
      ap (copy_at 16 ciphertext) (
        written
        ∙ ap (λ t. front ++ t)
            (replicate-add 4 496 0 ∙ ap (λ t. replicate 4 0 ++ t) (replicate-add sealed_size 416 0))
        ∙ sym (append_assoc front (replicate 4 0) (replicate sealed_size 0 ++ replicate 416 0)))
      ∙ copy_at_middle ciphertext (front ++ replicate 4 0) (replicate sealed_size 0)
          (replicate 416 0) 16
          (length-append front (replicate 4 0)
            ∙ omega (
              arith,
              length-append (le_bytes 8 g) (le_bytes 4 (length ciphertext) ++ []),
              length-append (le_bytes 4 (length ciphertext)) [],
              length-le_bytes 8 g,
              length-le_bytes 4 (length ciphertext),
            ))
          (sym size)
      ∙ simp (append_assoc, append-nil)

  slot_field :
      (k lo hi : ℕ)
      → k < 4
      → lo ≡ offset (8 ∷ 4 ∷ 4 ∷ sealed_size ∷ []) k
      → hi ≡ offset (8 ∷ 4 ∷ 4 ∷ sealed_size ∷ []) (suc k)
      → slice lo hi (super_slot g ciphertext) ≡ get_or slot_parts k []
  slot_field k lo hi below x y =
      ap₂ (λ (a b : ℕ). slice a b (super_slot g ciphertext)) x y
      ∙ ap
          (slice (offset (8 ∷ 4 ∷ 4 ∷ sealed_size ∷ []) k)
            (offset (8 ∷ 4 ∷ 4 ∷ sealed_size ∷ []) (suc k)))
          super_slot-parts
      ∙ read_field (8 ∷ 4 ∷ 4 ∷ sealed_size ∷ []) slot_parts k (replicate 416 0)
          (length-le_bytes 8 g, (length-le_bytes 4 (length ciphertext), (refl, (size, tt)))) below

-- A slot of zeros has no length.
all_zero-drop : (n : ℕ) (xs : List ℕ) → all_zero xs ≡ true → all_zero (drop n xs) ≡ true
all_zero-drop zero xs h = h
all_zero-drop (suc n) [] h = h
all_zero-drop (suc n) (x ∷ xs) h = all_zero-drop n xs (ground arith)

from_le-zero : (n : ℕ) (xs : List ℕ) → all_zero xs ≡ true → from_le (take n xs) ≡ 0
unfolding from_le
from_le-zero zero xs h = refl
from_le-zero (suc n) [] h = refl
from_le-zero (suc n) (x ∷ xs) h =
    let first : x ≡ 0 = ground arith in omega (arith, first, from_le-zero n xs (ground arith))

super_offset-slot : (slot : ℕ) → slot ≤ 1 → super_offset slot ≡ ok (slot_offset slot)
unfolding super_offset
super_offset-slot zero h = refl
super_offset-slot (suc zero) h = refl
super_offset-slot (suc (suc n)) h = absurd (omega arith)

-- The bytes of a slot, and that writing them and reading them back succeeds.
pub record Sealed (c : Crypto) (b : Bootstrap) (keys : VolumeKeys) (slot : ℕ) (st : SuperState)
    : Type 0 where
  pub bytes : List ℕ
  pub size : length bytes ≡ super_slot_size
  pub writes :
      (content : List ℕ)
      → write_superblock c b keys slot st (sound content)
        ≡ (ok tt, sound (write_at (slot_offset slot) bytes content))
  pub reads :
      (content : List ℕ)
      → Has (slot_offset slot) (slot_offset slot + super_slot_size) bytes content
      → read_superblock c b keys slot content ≡ ok (some st)

module _ (c : Crypto) (b : Bootstrap) (keys : VolumeKeys) (slot : ℕ) (st : SuperState)
    (ciphertext : List ℕ) (size : length ciphertext ≡ sealed_size) (first : slot ≤ 1)
    (valid : IsSuperState st) where
  open_superblock-slot :
      decrypt c keys
          (derive_nonce c keys b super_domain slot st.generation)
          ciphertext
          (super_aad b slot st.generation)
        ≡ ok (encode_super st)
      → open_superblock c b keys slot (super_slot st.generation ciphertext) ≡ ok (some st)
  unfolding open_superblock
  open_superblock-slot opened =
      let g = st.generation in
      let stored_generation : from_le (slice 0 8 (super_slot g ciphertext)) ≡ g =
        ap from_le (slot_field g ciphertext size 0 0 8 (omega arith) refl refl)
        ∙ from_le-le_bytes 8 g valid.generation_u64 in
      let stored_length : from_le (slice 8 12 (super_slot g ciphertext)) ≡ sealed_size =
        ap from_le (slot_field g ciphertext size 1 8 12 (omega arith) refl refl)
        ∙ from_le-le_bytes 4 (length ciphertext) (omega (arith, size))
        ∙ size in
      let stored : slice 16 (16 + sealed_size) (super_slot g ciphertext) ≡ ciphertext =
        slot_field g ciphertext size 3 16 96 (omega arith) refl refl in
      rw stored_length (
        rw stored_generation
          (rw stored (rw opened (rw (decode_super-encode st valid) (rw (==_self g) refl)))))

  slot-nonzero : all_zero (super_slot st.generation ciphertext) ≡ false
  slot-nonzero = elim (Bool-cases (all_zero (super_slot st.generation ciphertext))) [
    | inr nonzero ↦ nonzero
    | inl zeros ↦ absurd (
        omega (
          arith,
          from_le-zero 4 (drop 8 (super_slot st.generation ciphertext))
              (all_zero-drop 8 (super_slot st.generation ciphertext) zeros),
          ap from_le (slot_field st.generation ciphertext size 1 8 12 (omega arith) refl refl)
              ∙ from_le-le_bytes 4 (length ciphertext) (omega (arith, size)),
          size,
        ))
  ]

  read_superblock-slot :
      (content : List ℕ)
      → decrypt c keys
          (derive_nonce c keys b super_domain slot st.generation)
          ciphertext
          (super_aad b slot st.generation)
        ≡ ok (encode_super st)
      → Has
          (slot_offset slot)
          (slot_offset slot + super_slot_size)
          (super_slot st.generation ciphertext)
          content
      → read_superblock c b keys slot content ≡ ok (some st)
  unfolding read_superblock
  read_superblock-slot content opened has = rw (super_offset-slot slot first) (
      rw (read_at-Has (slot_offset slot) super_slot_size _ content has)
        (rw slot-nonzero (open_superblock-slot opened)))

  write_superblock-slot :
      (content : List ℕ)
      → encrypt c keys
          (derive_nonce c keys b super_domain slot st.generation)
          (encode_super st)
          (super_aad b slot st.generation)
        ≡ ok ciphertext
      → write_superblock c b keys slot st (sound content)
        ≡ (ok tt, sound (write_at (slot_offset slot) (super_slot st.generation ciphertext) content))
  unfolding write_superblock lift ◌>>=◌ write_all
  write_superblock-slot content made = rw made (rw size (rw (super_offset-slot slot first) refl))

-- With documented cryptography a superblock can be written and read back.
pub seal_superblock :
    (c : Crypto) (b : Bootstrap) (keys : VolumeKeys) (slot : ℕ) (st : SuperState)
    → IsAead c
    → HasDigests c
    → IsBytes 32 keys.key
    → slot ≤ 1
    → IsSuperState st
    → Sealed c b keys slot st
unfolding encrypt decrypt
seal_superblock c b keys slot st aead digests key first valid =
    let nonce = derive_nonce c keys b super_domain slot st.generation in
    let aad = super_aad b slot st.generation in
    let payload = encode_super-IsBytes st in
    let (ciphertext, made, full) =
      aead.seals keys.key nonce (encode_super st) aad key
        (derive_nonce-IsBytes c keys b super_domain slot st.generation digests) payload.all
        (omega (arith, payload.size)) in
    let opened = aead.unseals keys.key nonce (encode_super st) aad ciphertext made in
    let size : length ciphertext ≡ sealed_size = full.size ∙ omega (arith, payload.size) in
    record {
      bytes = super_slot st.generation ciphertext;
      size = super_slot-length st.generation ciphertext;
      writes = λ content.
          write_superblock-slot c b keys slot st ciphertext size first valid content
            (rw key.size (rw made refl));
      reads = λ content has.
          read_superblock-slot c b keys slot st ciphertext size first valid content
            (rw key.size (rw opened refl)) has;
    }
