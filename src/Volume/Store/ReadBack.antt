-- ===== src/Volume/Store/ReadBack.antt =====
-- What `write_blocks` writes for one block, `read_block` reads.
use or_isy_vra.Base.{
  ℕ, ◌+◌, ◌-◌, ◌^◌, ◌<◌, ◌≤◌, ◌≡◌, refl, ap, ◌∙◌, arith, List, [], length, take, drop, All, Option,
  none, some, false, inl, leb, ltb, le→leb, lt→ltb, ==_self, length-take, All-take,
}
use or_isy_vra.Base.Words.{IsByte}
use or_isy_vra.Base.Bytes.{IsBytes}
use or_isy_vra.Base.Results.{ok}
use or_isy_vra.Crypto.{Crypto, IsAead, HasDigests}
use or_isy_vra.Volume.Layout.{
  Bootstrap, RecordHeader, encode_record_header, record_header_size, tag_size, block_count,
  max_block_size,
}
use or_isy_vra.Volume.Layout.RecordCodec.{
  IsRecordHeader, encode_record_header-IsBytes, decode-encode,
}
use or_isy_vra.Volume.Device.{Device, pure, lift, ◌>>=◌, write_at, write_all, read_at}
use or_isy_vra.Volume.Device.Keeps.{Has, write_at-Has, write_at-own}
use or_isy_vra.Volume.Seals.{VolumeKeys, derive_nonce, encrypt, decrypt}
use or_isy_vra.Volume.Log.{RecordIndex, get, record_nonce, record_aad, read_record_at}
use or_isy_vra.Volume.Blocks.{Volume, read_indexed}
use or_isy_vra.Volume.Store.Commit.{next_generation, write_record}

pub read_at-Has :
    (offset n : ℕ) (old content : List ℕ)
    → Has offset (offset + n) old content
    → read_at offset n content ≡ ok old
unfolding read_at
read_at-Has offset n old content has = rw (le→leb _ _ has.reaches) (
    ap ok (
      ap (λ (t : ℕ). take t (drop offset content)) {x = n} {y = offset + n - offset} (omega arith)
      ∙ has.same))

leb-gt : (a b : ℕ) → b < a → leb a b ≡ false
leb-gt a b h = ground arith

ltb-ge : (a b : ℕ) → b ≤ a → ltb a b ≡ false
ltb-ge a b h = ground arith

pub next_generation-lt : (o : Option RecordIndex) (g : ℕ) → next_generation o ≡ ok g → g < 2 ^ 64
unfolding next_generation
next_generation-lt none g e = ground arith
next_generation-lt (some previous) g e = ground arith

pub derive_nonce-IsBytes :
    (c : Crypto) (keys : VolumeKeys) (b : Bootstrap) (domain : List ℕ) (first second : ℕ)
    → HasDigests c
    → IsBytes 24 (derive_nonce c keys b domain first second)
unfolding derive_nonce
derive_nonce-IsBytes c keys b domain first second digests =
    let d = digests.hmac_32 keys.nonce_key _ in
    record { size = length-take 24 _ ∙ omega (arith, d.size); all = All-take IsByte 24 _ d.all }

-- A record that lies in the file as it is written is read.
pub read_record_at-Has :
    (c : Crypto) (b : Bootstrap) (keys : VolumeKeys) (offset : ℕ) (h : RecordHeader)
    (plaintext ciphertext content : List ℕ)
    → IsRecordHeader h
    → h.block_index < block_count b
    → h.plaintext_len ≤ b.block_size
    → length plaintext ≡ h.plaintext_len
    → decrypt c keys
        (record_nonce c keys b h.block_index h.generation)
        ciphertext
        (record_aad b (encode_record_header h))
      ≡ ok plaintext
    → Has offset (offset + record_header_size) (encode_record_header h) content
    → Has
        (offset + record_header_size)
        (offset + record_header_size + h.ciphertext_len)
        ciphertext
        content
    → read_record_at c b keys offset content ≡ ok (h, plaintext)
unfolding read_record_at
read_record_at-Has c b keys offset h plaintext ciphertext content valid inside fits size opened head
      body =
    rw (read_at-Has offset record_header_size (encode_record_header h) content head) (
      rw (decode-encode h valid) (
        rw (leb-gt (block_count b) h.block_index inside) (
          rw (ltb-ge b.block_size h.plaintext_len fits) (
            rw (read_at-Has (offset + record_header_size) h.ciphertext_len ciphertext content body)
              (rw opened (rw size (rw (==_self h.plaintext_len) refl)))))))

-- A device on which everything succeeds.
abbrev pub sound : List ℕ → Device
sound content = record { content = content; plan = [] }

module _ (c : Crypto) (v : Volume) (offset i g : ℕ) (plaintext content : List ℕ) where
  abbrev pub n : ℕ
  n = length plaintext

  abbrev pub header : RecordHeader
  header = record {
    block_index = i;
    generation = g;
    plaintext_len = n;
    ciphertext_len = n + tag_size;
  }

  abbrev pub header_bytes : List ℕ
  header_bytes = encode_record_header header

  abbrev pub entry : RecordIndex
  entry = record {
    offset = offset;
    generation = g;
    plaintext_len = n;
    ciphertext_len = n + tag_size;
  }

  abbrev pub written : List ℕ → List ℕ
  written ciphertext =
      write_at (offset + record_header_size) ciphertext (write_at offset header_bytes content)

  pub write_record-ok :
      (ciphertext : List ℕ)
      → next_generation (get i v.index) ≡ ok g
      → n ≤ max_block_size
      → offset + 2 ^ 25 < 2 ^ 64
      → encrypt c v.keys
          (record_nonce c v.keys v.bootstrap i g)
          plaintext
          (record_aad v.bootstrap header_bytes)
        ≡ ok ciphertext
      → length ciphertext ≡ n + tag_size
      → write_record c v offset i plaintext (sound content) ≡ (
        ok ((i, entry), offset + record_header_size + length ciphertext),
        sound (written ciphertext),
      )
  unfolding write_record ◌>>=◌ lift pure write_all
  write_record-ok ciphertext fresh small room made size = rw fresh (
      rw (lt→ltb n (2 ^ 32) (omega arith)) (
        rw (lt→ltb (n + tag_size) (2 ^ 32) (omega arith)) (
          rw made (
            rw (lt→ltb (offset + record_header_size) (2 ^ 64) (omega (arith, room))) (
              rw
                (lt→ltb (offset + record_header_size + length ciphertext) (2 ^ 64)
                  (omega (arith, room, size, small)))
                refl)))))

  read_indexed-written :
      (ciphertext : List ℕ)
      → IsRecordHeader header
      → i < block_count v.bootstrap
      → n ≤ v.bootstrap.block_size
      → decrypt c v.keys
          (record_nonce c v.keys v.bootstrap i g)
          ciphertext
          (record_aad v.bootstrap header_bytes)
        ≡ ok plaintext
      → length ciphertext ≡ n + tag_size
      → read_indexed c v i (some entry) (written ciphertext) ≡ ok (some plaintext)
  unfolding read_indexed
  read_indexed-written ciphertext valid inside fits opened size =
      let head : Has offset (offset + record_header_size) header_bytes (written ciphertext) =
        write_at-Has offset (offset + record_header_size) (offset + record_header_size) header_bytes
          ciphertext (write_at offset header_bytes content) (omega arith) (inl (omega arith))
          (rw (encode_record_header-IsBytes header).size at
            (write_at-own offset header_bytes content)) in
      let body : Has (offset + record_header_size) (offset + record_header_size + (n + tag_size))
          ciphertext (written ciphertext) =
        rw size at (
          write_at-own (offset + record_header_size) ciphertext
            (write_at offset header_bytes content)) in
      rw
        (read_record_at-Has c v.bootstrap v.keys offset header plaintext ciphertext
          (written ciphertext) valid inside fits refl opened head body)
        (rw (==_self i) (rw (==_self g) (rw (==_self n) (rw (==_self (n + tag_size)) refl))))

-- With documented cryptography, for a volume with a 32-byte key, a block of the volume whose next
-- generation exists, a plaintext of bytes that fits the block size, and an offset that does not
-- overflow: writing the block's record to a device without failures succeeds, with an entry for
-- the offset, and reading the block by that entry gives the plaintext.
pub read-write_record :
    (c : Crypto) (v : Volume) (offset i g : ℕ) (plaintext content : List ℕ)
    → IsAead c
    → HasDigests c
    → IsBytes 32 v.keys.key
    → i < block_count v.bootstrap
    → i < 2 ^ 64
    → next_generation (get i v.index) ≡ ok g
    → All IsByte plaintext
    → length plaintext ≤ v.bootstrap.block_size
    → v.bootstrap.block_size ≤ max_block_size
    → offset + 2 ^ 25 < 2 ^ 64
    → (new_entry : RecordIndex) × (next : ℕ) × (content' : List ℕ) × (write_record c v offset i
          plaintext
          (sound content)
        ≡ (ok ((i, new_entry), next), sound content'))
      × (new_entry.offset ≡ offset)
      × (next ≡ offset + record_header_size + (length plaintext + tag_size))
      × (read_indexed c v i (some new_entry) content' ≡ ok (some plaintext))
read-write_record c v offset i g plaintext content aead digests key inside index fresh bytes fits
      block room =
    let h = header c v offset i g plaintext content in
    let hb = encode_record_header h in
    let nonce = record_nonce c v.keys v.bootstrap i g in
    let small : length plaintext ≤ max_block_size = omega (arith, fits, block) in
    let (ciphertext, made, full) =
      aead.seals v.keys.key nonce plaintext (record_aad v.bootstrap hb) key
        (unfold record_nonce in derive_nonce-IsBytes c v.keys v.bootstrap _ i g digests) bytes
        (omega (arith, small)) in
    let opened =
      aead.unseals v.keys.key nonce plaintext (record_aad v.bootstrap hb) ciphertext made in
    let valid : IsRecordHeader h = record {
      index_u64 = index;
      generation_u64 = next_generation-lt (get i v.index) g fresh;
      plaintext_u32 = omega (arith, small);
      ciphertext_u32 = omega (arith, small);
      tagged = refl;
    } in
    (
      entry c v offset i g plaintext content,
      offset + record_header_size + length ciphertext,
      written c v offset i g plaintext content ciphertext,
      write_record-ok c v offset i g plaintext content ciphertext fresh small room
          (unfold encrypt in rw key.size (rw made refl)) full.size,
      refl,
      omega (arith, full.size),
      read_indexed-written c v offset i g plaintext content ciphertext valid inside fits
          (unfold decrypt in rw key.size (rw opened refl)) full.size,
    )
