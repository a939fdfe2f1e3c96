-- ===== src/Container/Header/Codec.antt =====
-- `Header::decode` accepts exactly the encodings of valid headers.
use or_isy_vra.Base.{
  ℕ, suc, ◌+◌, ◌-◌, ◌<◌, ◌≤◌, ◌≡◌, ◌↔◌, refl, ap, ap₂, sym, ◌∙◌, arith, List, [], ◌∷◌, get_or,
}
use mathlib.Core.List.{append-nil}
use or_isy_vra.Base.Words.{IsByte}
use or_isy_vra.Base.Bytes.{
  le_bytes, from_le, slice, bytes_eq_iff, bytes_eq_self, IsBytes, length-le_bytes, le_bytes-IsByte,
  from_le-le_bytes, le_bytes-from_le, slice-IsBytes,
}
use or_isy_vra.Base.Fields.{
  concat, HasSizes, offset, write_fields_lem, read_field, slices, slices_lem, slice_byte,
  All-concat, length-concat,
}
use or_isy_vra.Base.Results.{ok}
use or_isy_vra.Container.Header.{
  Mode, native_research, guarded, mode_byte, Header, file_magic, file_version, header_size,
  min_chunk_size, max_chunk_size, encode_header, checked_header, decode_header,
}

-- What `Header::new` makes and `Header::decode` checks.
pub record IsHeader (h : Header) : Type 0 where
  pub current : h.version ≡ file_version
  pub no_flags : h.flags ≡ 0
  pub not_small : min_chunk_size ≤ h.chunk_size
  pub not_large : h.chunk_size ≤ max_chunk_size
  pub salt_bytes : IsBytes 32 h.salt
  pub file_id_bytes : IsBytes 32 h.file_id

abbrev sizes : List ℕ
sizes = 8 ∷ 2 ∷ 1 ∷ 1 ∷ 4 ∷ 32 ∷ 32 ∷ []

abbrev fields : Header → List (List ℕ)
fields h =
    file_magic
    ∷ le_bytes 2 h.version
    ∷ (mode_byte h.mode ∷ [])
    ∷ (h.flags ∷ [])
    ∷ le_bytes 4 h.chunk_size
    ∷ h.salt
    ∷ h.file_id
    ∷ []

fields-HasSizes : (h : Header) → IsHeader h → HasSizes sizes (fields h)
fields-HasSizes h v = omega (arith, length-le_bytes 2 h.version, length-le_bytes 4 h.chunk_size)

encode_header-fields : (h : Header) → IsHeader h → encode_header h ≡ concat (fields h)
unfolding encode_header
encode_header-fields h v = write_fields_lem sizes (fields h) 0 (fields-HasSizes h v) ∙ append-nil _

mode_byte-lt : (m : Mode) → mode_byte m < 2
mode_byte-lt native_research = omega arith
mode_byte-lt guarded = omega arith

-- The encoding of a valid header is 80 bytes.
pub encode_header-IsBytes : (h : Header) → IsHeader h → IsBytes header_size (encode_header h)
encode_header-IsBytes h v = rw (encode_header-fields h v) (record {
  size = length-concat sizes (fields h) (fields-HasSizes h v);
  all = All-concat IsByte (fields h) (
    omega arith,
    (
      le_bytes-IsByte 2 h.version,
      (
        omega (arith, mode_byte-lt h.mode),
        (
          omega (arith, v.no_flags),
          (le_bytes-IsByte 4 h.chunk_size, (v.salt_bytes.all, (v.file_id_bytes.all, tt))),
        ),
      ),
    ),
  );
})

checked_header_valid :
    (h : Header)
    → IsHeader h
    → checked_header file_magic h.version (mode_byte h.mode) h.flags h.chunk_size h.salt h.file_id
      ≡ ok h
unfolding checked_header
checked_header_valid h v = ground (arith, bytes_eq_self file_magic)

-- The slice that `Header::decode` reads for each field of an encoding is that field.
module _ (h : Header) (v : IsHeader h) where
  field :
      (k : ℕ)
      → k < 7
      → slice (offset sizes k) (offset sizes (suc k)) (encode_header h) ≡ get_or (fields h) k []
  field k below =
      ap (slice (offset sizes k) (offset sizes (suc k)))
        (encode_header-fields h v ∙ sym (append-nil _))
      ∙ read_field sizes (fields h) k [] (fields-HasSizes h v) below

  byte_field :
      (k x : ℕ)
      → k < 80
      → slice k (k + 1) (encode_header h) ≡ x ∷ []
      → get_or (encode_header h) k 0 ≡ x
  byte_field k x below e =
      ap (λ (t : List ℕ). get_or t 0 0)
        (sym (slice_byte (encode_header h) k (rw (encode_header-IsBytes h v).size below)) ∙ e)

  pub decode-encode : decode_header (encode_header h) ≡ ok h
  unfolding decode_header
  decode-encode = rw (field 0 (omega arith)) (
      rw (field 1 (omega arith)) (
        rw (byte_field 10 (mode_byte h.mode) (omega arith) (field 2 (omega arith))) (
          rw (byte_field 11 h.flags (omega arith) (field 3 (omega arith))) (
            rw (field 4 (omega arith)) (
              rw (field 5 (omega arith)) (
                rw (field 6 (omega arith)) (
                  rw (from_le-le_bytes 2 h.version (omega (arith, v.current))) (
                    rw (from_le-le_bytes 4 h.chunk_size (omega (arith, v.not_large)))
                      (checked_header_valid h v)))))))))

checked_header-ok :
    (magic : List ℕ) (version mode_value flags chunk_size : ℕ) (salt file_id : List ℕ) (h : Header)
    → checked_header magic version mode_value flags chunk_size salt file_id ≡ ok h
    → (magic ≡ file_magic)
      × (version ≡ h.version)
      × (h.version ≡ file_version)
      × (mode_value ≡ mode_byte h.mode)
      × (flags ≡ h.flags)
      × (h.flags ≡ 0)
      × (chunk_size ≡ h.chunk_size)
      × (min_chunk_size ≤ h.chunk_size)
      × (h.chunk_size ≤ max_chunk_size)
      × (salt ≡ h.salt)
      × (file_id ≡ h.file_id)
unfolding checked_header
checked_header-ok magic version mode_value flags chunk_size salt file_id h e =
    ground (arith, bytes_eq_iff magic file_magic)

module _ (bytes : List ℕ) (h : Header) (full : IsBytes header_size bytes)
    (accepted : decode_header bytes ≡ ok h) where
  read :
      (slice 0 8 bytes ≡ file_magic)
      × (from_le (slice 8 10 bytes) ≡ h.version)
      × (h.version ≡ file_version)
      × (get_or bytes 10 0 ≡ mode_byte h.mode)
      × (get_or bytes 11 0 ≡ h.flags)
      × (h.flags ≡ 0)
      × (from_le (slice 12 16 bytes) ≡ h.chunk_size)
      × (min_chunk_size ≤ h.chunk_size)
      × (h.chunk_size ≤ max_chunk_size)
      × (slice 16 48 bytes ≡ h.salt)
      × (slice 48 80 bytes ≡ h.file_id)
  unfolding decode_header
  read = checked_header-ok _ _ _ _ _ _ _ h accepted

  part : (lo hi n : ℕ) → hi ≤ header_size → hi - lo ≡ n → IsBytes n (slice lo hi bytes)
  part lo hi n le e = slice-IsBytes lo hi n bytes full.all (rw full.size le) e

  decoded-IsHeader : IsHeader h
  decoded-IsHeader = record {
    current = read.2;
    no_flags = read.5;
    not_small = read.7;
    not_large = read.8;
    salt_bytes = rw read.9 at (part 16 48 32 (omega arith) (omega arith));
    file_id_bytes = rw read.10 at (part 48 80 32 (omega arith) (omega arith));
  }

  number :
      (lo hi n x : ℕ)
      → hi ≤ header_size
      → hi - lo ≡ n
      → from_le (slice lo hi bytes) ≡ x
      → le_bytes n x ≡ slice lo hi bytes
  number lo hi n x le e r =
      let b = part lo hi n le e in rw (← r) (le_bytes-from_le n (slice lo hi bytes) b.all b.size)

  byte : (k x : ℕ) → k < header_size → get_or bytes k 0 ≡ x → x ∷ [] ≡ slice k (k + 1) bytes
  byte k x below r = rw (← r) (sym (slice_byte bytes k (rw full.size below)))

  same_fields : fields h ≡ slices 0 sizes bytes
  same_fields =
      ap₂ (λ t u. t ∷ u) (sym read.0)
        (ap₂ (λ t u. t ∷ u) (number 8 10 2 h.version (omega arith) (omega arith) read.1)
          (ap₂ (λ t u. t ∷ u) (byte 10 (mode_byte h.mode) (omega arith) read.3)
            (ap₂ (λ t u. t ∷ u) (byte 11 h.flags (omega arith) read.4)
              (ap₂ (λ t u. t ∷ u) (number 12 16 4 h.chunk_size (omega arith) (omega arith) read.6)
                (ap₂ (λ t u. t ∷ u) (sym read.9) (ap₂ (λ t u. t ∷ u) (sym read.10) refl))))))

  encode-decode : encode_header h ≡ bytes
  encode-decode =
      encode_header-fields h decoded-IsHeader
      ∙ ap concat same_fields
      ∙ slices_lem sizes bytes full.size

-- `Header::decode` returns `h` on an array of 80 bytes exactly when `h` is a valid header and the
-- array is its encoding: what was encoded is read back, and no other array is accepted.
pub decode_header_iff :
    (bytes : List ℕ) (h : Header)
    → IsBytes header_size bytes
    → (decode_header bytes ≡ ok h) ↔ (IsHeader h × (encode_header h ≡ bytes))
decode_header_iff bytes h full = (
  λ e. (decoded-IsHeader bytes h full e, encode-decode bytes h full e),
  λ (v, e). rw (← e) (decode-encode h v),
)
