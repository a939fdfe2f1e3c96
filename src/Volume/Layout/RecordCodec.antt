-- ===== src/Volume/Layout/RecordCodec.antt =====
-- The header of a block record: `RecordHeader::decode` accepts exactly what `encode` makes.
use mathlib.Core.List.{append-nil}
use or_isy_vra.Base.{
  ℕ, suc, ◌+◌, ◌-◌, ◌^◌, ◌<◌, ◌≤◌, ◌≡◌, ◌↔◌, refl, ap, ap₂, sym, ◌∙◌, arith, List, [], ◌∷◌, get_or,
  Bool, false, true, not, ◌==◌, ==_iff, ==_self,
}
use or_isy_vra.Base.Words.{IsByte}
use or_isy_vra.Base.Bytes.{
  le_bytes, from_le, slice, bytes_eq_iff, bytes_eq_self, IsBytes, length-le_bytes, le_bytes-IsByte,
  from_le-le_bytes, from_le-lt, le_bytes-from_le, slice-IsBytes,
}
use or_isy_vra.Base.Fields.{
  concat, concat-snoc, HasSizes, offset, write_fields_lem, read_field, slices, slices_lem,
  All-concat, length-concat,
}
use or_isy_vra.Base.Results.{ok, fail_if-eq-ok, ok_injective}
use or_isy_vra.Volume.Layout.{
  RecordHeader, record_magic, record_header_size, tag_size, encode_record_header,
  checked_record_header, decode_record_header,
}

-- The fields fit their widths, and the ciphertext is longer than the plaintext by the tag.
pub record IsRecordHeader (h : RecordHeader) : Type 0 where
  pub index_u64 : h.block_index < 2 ^ 64
  pub generation_u64 : h.generation < 2 ^ 64
  pub plaintext_u32 : h.plaintext_len < 2 ^ 32
  pub ciphertext_u32 : h.ciphertext_len < 2 ^ 32
  pub tagged : h.ciphertext_len ≡ h.plaintext_len + tag_size

abbrev zero_flags : List ℕ
zero_flags = 0 ∷ 0 ∷ 0 ∷ 0 ∷ []

abbrev sizes : List ℕ
sizes = 4 ∷ 8 ∷ 8 ∷ 4 ∷ 4 ∷ 4 ∷ []

abbrev front : RecordHeader → List (List ℕ)
front h =
    record_magic
    ∷ le_bytes 8 h.block_index
    ∷ le_bytes 8 h.generation
    ∷ le_bytes 4 h.plaintext_len
    ∷ le_bytes 4 h.ciphertext_len
    ∷ []

abbrev fields : RecordHeader → List (List ℕ)
fields h =
    record_magic
    ∷ le_bytes 8 h.block_index
    ∷ le_bytes 8 h.generation
    ∷ le_bytes 4 h.plaintext_len
    ∷ le_bytes 4 h.ciphertext_len
    ∷ zero_flags
    ∷ []

module _ (h : RecordHeader) where
  fields-HasSizes : HasSizes sizes (fields h)
  fields-HasSizes = omega (
    arith,
    length-le_bytes 8 h.block_index,
    length-le_bytes 8 h.generation,
    length-le_bytes 4 h.plaintext_len,
    length-le_bytes 4 h.ciphertext_len,
  )

  encode_record_header-fields : encode_record_header h ≡ concat (fields h)
  unfolding encode_record_header
  encode_record_header-fields =
      write_fields_lem (4 ∷ 8 ∷ 8 ∷ 4 ∷ 4 ∷ []) (front h) 4 (
        omega (
          arith,
          length-le_bytes 8 h.block_index,
          length-le_bytes 8 h.generation,
          length-le_bytes 4 h.plaintext_len,
          length-le_bytes 4 h.ciphertext_len,
        ))
      ∙ concat-snoc (front h) zero_flags

  pub encode_record_header-IsBytes : IsBytes record_header_size (encode_record_header h)
  encode_record_header-IsBytes = rw encode_record_header-fields (record {
    size = length-concat sizes (fields h) fields-HasSizes;
    all = All-concat IsByte (fields h) (
      omega arith,
      (
        le_bytes-IsByte 8 h.block_index,
        (
          le_bytes-IsByte 8 h.generation,
          (
            le_bytes-IsByte 4 h.plaintext_len,
            (le_bytes-IsByte 4 h.ciphertext_len, (omega arith, tt)),
          ),
        ),
      ),
    );
  })

  field :
      (k : ℕ)
      → k < 6
      → slice (offset sizes k) (offset sizes (suc k)) (encode_record_header h)
        ≡ get_or (fields h) k []
  field k below =
      ap (slice (offset sizes k) (offset sizes (suc k)))
        (encode_record_header-fields ∙ sym (append-nil _))
      ∙ read_field sizes (fields h) k [] fields-HasSizes below

  pub decode-encode : IsRecordHeader h → decode_record_header (encode_record_header h) ≡ ok h
  unfolding decode_record_header checked_record_header
  decode-encode v = rw (field 0 (omega arith)) (
      rw (field 1 (omega arith)) (
        rw (field 2 (omega arith)) (
          rw (field 3 (omega arith)) (
            rw (field 4 (omega arith)) (
              rw (field 5 (omega arith)) (
                rw (from_le-le_bytes 8 h.block_index v.index_u64) (
                  rw (from_le-le_bytes 8 h.generation v.generation_u64) (
                    rw (from_le-le_bytes 4 h.plaintext_len v.plaintext_u32) (
                      rw (from_le-le_bytes 4 h.ciphertext_len v.ciphertext_u32) (
                        rw (bytes_eq_self record_magic)
                          (rw (bytes_eq_self zero_flags) (rw same_length refl))))))))))))
    where
      same_length : (h.ciphertext_len == h.plaintext_len + tag_size) ≡ true
      same_length = ap (λ t. h.ciphertext_len == t) (sym v.tagged) ∙ ==_self h.ciphertext_len

checked_record_header-ok :
    (magic flags : List ℕ) (i g n m : ℕ) (h : RecordHeader)
    → checked_record_header magic flags i g n m ≡ ok h
    → (magic ≡ record_magic)
      × (flags ≡ zero_flags)
      × (m ≡ n + tag_size)
      × (i ≡ h.block_index)
      × (g ≡ h.generation)
      × (n ≡ h.plaintext_len)
      × (m ≡ h.ciphertext_len)
unfolding checked_record_header
checked_record_header-ok magic flags i g n m h e =
    let (e0, r0) = fail_if-eq-ok _ _ _ e in
    let (e1, r1) = fail_if-eq-ok _ _ _ r0 in
    let (e2, r2) = fail_if-eq-ok _ _ _ r1 in
    let same = ok_injective r2 in
    (
      (bytes_eq_iff magic record_magic).0 (right _ e0),
      (bytes_eq_iff flags zero_flags).0 (right _ e1),
      (==_iff m (n + tag_size)).0 (right _ e2),
      ap (λ t. t.block_index) same,
      ap (λ t. t.generation) same,
      ap (λ t. t.plaintext_len) same,
      ap (λ t. t.ciphertext_len) same,
    )
  where
    right : (b : Bool) → not b ≡ false → b ≡ true
    right b h = ground arith

module _ (bytes : List ℕ) (h : RecordHeader) (full : IsBytes record_header_size bytes)
    (accepted : decode_record_header bytes ≡ ok h) where
  read :
      (slice 0 4 bytes ≡ record_magic)
      × (slice 28 32 bytes ≡ zero_flags)
      × (from_le (slice 24 28 bytes) ≡ from_le (slice 20 24 bytes) + tag_size)
      × (from_le (slice 4 12 bytes) ≡ h.block_index)
      × (from_le (slice 12 20 bytes) ≡ h.generation)
      × (from_le (slice 20 24 bytes) ≡ h.plaintext_len)
      × (from_le (slice 24 28 bytes) ≡ h.ciphertext_len)
  unfolding decode_record_header
  read = checked_record_header-ok _ _ _ _ _ _ h accepted

  part : (lo hi n : ℕ) → hi ≤ record_header_size → hi - lo ≡ n → IsBytes n (slice lo hi bytes)
  part lo hi n le e = slice-IsBytes lo hi n bytes full.all (rw full.size le) e

  number :
      (lo hi n x : ℕ)
      → hi ≤ record_header_size
      → hi - lo ≡ n
      → from_le (slice lo hi bytes) ≡ x
      → (le_bytes n x ≡ slice lo hi bytes) × (x < 256 ^ n)
  number lo hi n x le e r =
      let b = part lo hi n le e in
      (
        rw (← r) (le_bytes-from_le n (slice lo hi bytes) b.all b.size),
        rw (← r) (rw b.size at (from_le-lt (slice lo hi bytes) b.all)),
      )

  decoded-IsRecordHeader : IsRecordHeader h
  decoded-IsRecordHeader = record {
    index_u64 = (number 4 12 8 h.block_index (omega arith) (omega arith) read.3).1;
    generation_u64 = (number 12 20 8 h.generation (omega arith) (omega arith) read.4).1;
    plaintext_u32 = (number 20 24 4 h.plaintext_len (omega arith) (omega arith) read.5).1;
    ciphertext_u32 = (number 24 28 4 h.ciphertext_len (omega arith) (omega arith) read.6).1;
    tagged = sym read.6 ∙ read.2 ∙ ap (λ (t : ℕ). t + tag_size) read.5;
  }

  same_fields : fields h ≡ slices 0 sizes bytes
  same_fields =
      ap₂ (λ t u. t ∷ u) (sym read.0)
        (ap₂ (λ t u. t ∷ u) (number 4 12 8 h.block_index (omega arith) (omega arith) read.3).0
          (ap₂ (λ t u. t ∷ u) (number 12 20 8 h.generation (omega arith) (omega arith) read.4).0
            (ap₂ (λ t u. t ∷ u)
              (number 20 24 4 h.plaintext_len (omega arith) (omega arith) read.5).0
              (ap₂ (λ t u. t ∷ u)
                (number 24 28 4 h.ciphertext_len (omega arith) (omega arith) read.6).0
                (ap₂ (λ t u. t ∷ u) (sym read.1) refl)))))

  encode-decode : encode_record_header h ≡ bytes
  encode-decode =
      encode_record_header-fields h ∙ ap concat same_fields ∙ slices_lem sizes bytes full.size

-- On 32 bytes, `RecordHeader::decode` returns a header exactly when its fields fit their widths,
-- its ciphertext is longer than its plaintext by the tag, and the bytes are its encoding.
pub decode_record_header_iff :
    (bytes : List ℕ) (h : RecordHeader)
    → IsBytes record_header_size bytes
    → (decode_record_header bytes ≡ ok h) ↔ (IsRecordHeader h × (encode_record_header h ≡ bytes))
decode_record_header_iff bytes h full = (
  λ e. (decoded-IsRecordHeader bytes h full e, encode-decode bytes h full e),
  λ (v, e). rw (← e) (decode-encode h v),
)
