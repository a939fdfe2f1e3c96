-- ===== src/Volume/Store/Records.antt =====
-- The records of a transaction behind the committed log: the log goes on with them, and each can
-- be read.
use or_isy_vra.Base.{
  ℕ, ◌+◌, ◌^◌, ◌≤◌, ◌<◌, ◌≡◌, ◌≢◌, refl, ap, ◌∙◌, arith, inl, List, [], ◌∷◌, length, All, Option,
  none, some, ==_self,
}
use or_isy_vra.Base.Words.{IsByte}
use or_isy_vra.Base.Bytes.{IsBytes, slice}
use or_isy_vra.Base.Results.{ok}
use or_isy_vra.Crypto.{Crypto, IsAead, HasDigests}
use or_isy_vra.Volume.Layout.{
  encode_record_header, record_header_size, tag_size, block_count, max_block_size, log_start,
}
use or_isy_vra.Volume.Layout.RecordCodec.{IsRecordHeader, encode_record_header-IsBytes}
use or_isy_vra.Volume.Device.{write_at}
use or_isy_vra.Volume.Device.Keeps.{Has, write_at-Has, write_at-own}
use or_isy_vra.Volume.Seals.{encrypt, decrypt}
use or_isy_vra.Volume.Log.{
  Index, RecordIndex, get, insert, record_nonce, record_aad, read_record_at, check_generation,
}
use or_isy_vra.Volume.Blocks.{Volume}
use or_isy_vra.Volume.Store.Commit.{next_generation, write_record, insert_all}
use or_isy_vra.Volume.Store.Reopen.{SameLog}
use or_isy_vra.Volume.Store.ReadBack.{
  sound, header, header_bytes, entry, written, write_record-ok, read_record_at-Has,
  derive_nonce-IsBytes, next_generation-lt,
}
use or_isy_vra.Volume.Store.Steps.{behind}

-- Looking up what was inserted.
pub get-insert_self : (i : ℕ) (e : RecordIndex) (index : Index) → get i (insert i e index) ≡ some e
unfolding get insert
get-insert_self i e [] = rw (==_self i) refl
get-insert_self i e ((k, r) ∷ index) = ground (arith, get-insert_self i e index)

pub get-insert_ne :
    (i j : ℕ) (e : RecordIndex) (index : Index) → i ≢ j → get j (insert i e index) ≡ get j index
unfolding get insert
get-insert_ne i j e [] ne = ground arith
get-insert_ne i j e ((k, r) ∷ index) ne = ground (arith, get-insert_ne i j e index ne)

abbrev pub keys_of {ℓ} : {A : Type ℓ} → List (ℕ × A) → List ℕ
keys_of [] = []
keys_of ((k, a) ∷ xs) = k ∷ keys_of xs

pub get-insert_all_ne :
    (j : ℕ) (entries index : Index)
    → All (λ k. k ≢ j) (keys_of entries)
    → get j (insert_all entries index) ≡ get j index
unfolding insert_all
get-insert_all_ne j [] index ne = refl
get-insert_all_ne j ((k, e) ∷ entries) index ne =
    get-insert_all_ne j entries (insert k e index) ne.1 ∙ get-insert_ne k j e index ne.0

-- A generation that follows that of the index passes the test of the scan.
pub next-fresh :
    (o : Option RecordIndex) (g : ℕ) → next_generation o ≡ ok g → check_generation o g ≡ ok tt
unfolding next_generation check_generation
next-fresh none g e = ground arith
next-fresh (some previous) g e = ground arith

-- One record was written behind `offset`.
pub record Wrote (c : Crypto) (v : Volume) (offset i g : ℕ) (plaintext content : List ℕ)
    : Type 0 where
  pub content' : List ℕ
  pub run : write_record c v offset i plaintext (sound content) ≡ (
    ok (
      (i, entry c v offset i g plaintext content),
      behind offset (header c v offset i g plaintext content),
    ),
    sound content',
  )
  pub read :
      read_record_at c v.bootstrap v.keys offset content'
      ≡ ok (header c v offset i g plaintext content, plaintext)
  pub kept : SameLog offset content content'
  pub long : behind offset (header c v offset i g plaintext content) ≤ length content'

-- What is asked of a block.
pub record IsBlock (v : Volume) (i : ℕ) (plaintext : List ℕ) : Type 0 where
  pub inside : i < block_count v.bootstrap
  pub index_u64 : i < 2 ^ 64
  pub bytes : All IsByte plaintext
  pub fits : length plaintext ≤ v.bootstrap.block_size
  pub generation : (g : ℕ) × (next_generation (get i v.index) ≡ ok g)

module _ (c : Crypto) (v : Volume) (aead : IsAead c) (digests : HasDigests c)
    (key : IsBytes 32 v.keys.key) (block : v.bootstrap.block_size ≤ max_block_size) where
  module _ (offset i g : ℕ) (plaintext content ciphertext : List ℕ)
      (valid : IsRecordHeader (header c v offset i g plaintext content))
      (inside : i < block_count v.bootstrap) (fits : length plaintext ≤ v.bootstrap.block_size)
      (low : log_start ≤ offset) (long : offset ≤ length content)
      (opened : decrypt c v.keys
          (record_nonce c v.keys v.bootstrap i g)
          ciphertext
          (record_aad v.bootstrap (header_bytes c v offset i g plaintext content))
        ≡ ok plaintext)
      (size : length ciphertext ≡ length plaintext + tag_size) where
    read-written :
        read_record_at c v.bootstrap v.keys offset
          (written c v offset i g plaintext content ciphertext)
        ≡ ok (header c v offset i g plaintext content, plaintext)
    read-written =
        let h = header c v offset i g plaintext content in
        let hb = encode_record_header h in
        let content1 = write_at offset hb content in
        let own = write_at-own offset hb content in
        let head : Has offset (offset + record_header_size) hb
            (written c v offset i g plaintext content ciphertext) =
          write_at-Has offset (offset + record_header_size) (offset + record_header_size) hb
            ciphertext content1 (omega arith) (inl (omega arith))
            (rw (encode_record_header-IsBytes h).size at own) in
        let body : Has (offset + record_header_size)
            (offset + record_header_size + (length plaintext + tag_size)) ciphertext
            (written c v offset i g plaintext content ciphertext) =
          rw size at (write_at-own (offset + record_header_size) ciphertext content1) in
        read_record_at-Has c v.bootstrap v.keys offset h plaintext ciphertext
          (written c v offset i g plaintext content ciphertext) valid inside fits refl opened head
          body

    long-written :
        behind offset (header c v offset i g plaintext content)
        ≤ length (written c v offset i g plaintext content ciphertext)
    long-written = omega (
      arith,
      size,
      (write_at-own (offset + record_header_size) ciphertext
          (write_at offset (header_bytes c v offset i g plaintext content) content)).reaches,
    )

    kept-written : SameLog offset content (written c v offset i g plaintext content ciphertext)
    kept-written =
        let hb = header_bytes c v offset i g plaintext content in
        let first =
          write_at-Has log_start offset offset (slice log_start offset content) hb content low
            (inl (omega arith)) (record { reaches = long; same = refl }) in
        let second =
          write_at-Has log_start offset (offset + record_header_size)
            (slice log_start offset content) ciphertext (write_at offset hb content) low
            (inl (omega arith)) first in
        record { log = second.same; long = long; long' = second.reaches }

  pub writes_record :
      (offset i g : ℕ) (plaintext content : List ℕ)
      → IsBlock v i plaintext
      → next_generation (get i v.index) ≡ ok g
      → log_start ≤ offset
      → offset ≤ length content
      → offset + 2 ^ 25 < 2 ^ 64
      → Wrote c v offset i g plaintext content
  unfolding encrypt decrypt
  writes_record offset i g plaintext content ok_block fresh low long room =
      let h = header c v offset i g plaintext content in
      let hb = encode_record_header h in
      let nonce = record_nonce c v.keys v.bootstrap i g in
      let small : length plaintext ≤ max_block_size = omega (arith, ok_block.fits, block) in
      let (ciphertext, made, full) =
        aead.seals v.keys.key nonce plaintext (record_aad v.bootstrap hb) key
          (unfold record_nonce in derive_nonce-IsBytes c v.keys v.bootstrap _ i g digests)
          ok_block.bytes (omega (arith, small)) in
      let opened =
        aead.unseals v.keys.key nonce plaintext (record_aad v.bootstrap hb) ciphertext made in
      let valid : IsRecordHeader h = record {
        index_u64 = ok_block.index_u64;
        generation_u64 = next_generation-lt (get i v.index) g fresh;
        plaintext_u32 = omega (arith, small);
        ciphertext_u32 = omega (arith, small);
        tagged = refl;
      } in
      record {
        content' = written c v offset i g plaintext content ciphertext;
        run =
            write_record-ok c v offset i g plaintext content ciphertext fresh small room
              (rw key.size (rw made refl)) full.size
            ∙ ap
                (λ (t : ℕ). (
                  ok ((i, entry c v offset i g plaintext content), offset + record_header_size + t),
                  sound (written c v offset i g plaintext content ciphertext),
                ))
                full.size;
        read =
            read-written offset i g plaintext content ciphertext valid ok_block.inside ok_block.fits
              low long (rw key.size (rw opened refl)) full.size;
        long =
            long-written offset i g plaintext content ciphertext valid ok_block.inside ok_block.fits
              low long (rw key.size (rw opened refl)) full.size;
        kept =
            kept-written offset i g plaintext content ciphertext valid ok_block.inside ok_block.fits
              low long (rw key.size (rw opened refl)) full.size;
      }
