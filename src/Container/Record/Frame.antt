-- ===== src/Container/Record/Frame.antt =====
-- The frame of a data record: what `encrypt_file` writes in front of a body, `decrypt_file` reads.
use mathlib.Core.List.{append-nil}
use or_isy_vra.Base.{ℕ, suc, ◌^◌, ◌<◌, ◌≡◌, ap, sym, ◌∙◌, arith, List, [], ◌∷◌, get_or}
use or_isy_vra.Base.Words.{IsByte}
use or_isy_vra.Base.Bytes.{
  le_bytes, from_le, slice, length-le_bytes, le_bytes-IsByte, from_le-le_bytes, IsBytes,
}
use or_isy_vra.Base.Fields.{
  concat, HasSizes, offset, write_fields_lem, read_field, length-concat, All-concat,
}
use or_isy_vra.Container.Record.{data_record, record_frame}

abbrev sizes : List ℕ
sizes = 8 ∷ 4 ∷ 4 ∷ []

abbrev fields : ℕ → ℕ → ℕ → List (List ℕ)
fields index plaintext_length body_length =
    le_bytes 8 index ∷ le_bytes 4 plaintext_length ∷ le_bytes 4 body_length ∷ []

-- The frame behind its first byte.
pub frame_rest : ℕ → ℕ → ℕ → List ℕ
frame_rest index plaintext_length body_length = concat (fields index plaintext_length body_length)

module _ (index plaintext_length body_length : ℕ) where
  fields-HasSizes : HasSizes sizes (fields index plaintext_length body_length)
  fields-HasSizes = omega (
    arith,
    length-le_bytes 8 index,
    length-le_bytes 4 plaintext_length,
    length-le_bytes 4 body_length,
  )

  pub record_frame-rest :
      record_frame index plaintext_length body_length
      ≡ data_record ∷ frame_rest index plaintext_length body_length
  unfolding record_frame frame_rest
  record_frame-rest =
      write_fields_lem (1 ∷ sizes) ((data_record ∷ []) ∷ fields index plaintext_length body_length)
        0 (omega arith, fields-HasSizes)
      ∙ append-nil _

  pub frame_rest-IsBytes : IsBytes 16 (frame_rest index plaintext_length body_length)
  unfolding frame_rest
  frame_rest-IsBytes = record {
    size = length-concat sizes (fields index plaintext_length body_length) fields-HasSizes;
    all = All-concat IsByte (fields index plaintext_length body_length) (
      le_bytes-IsByte 8 index,
      (le_bytes-IsByte 4 plaintext_length, (le_bytes-IsByte 4 body_length, tt)),
    );
  }

  field :
      (k : ℕ)
      → k < 3
      → slice
          (offset sizes k)
          (offset sizes (suc k))
          (frame_rest index plaintext_length body_length)
        ≡ get_or (fields index plaintext_length body_length) k []
  unfolding frame_rest
  field k below =
      ap (slice (offset sizes k) (offset sizes (suc k))) (sym (append-nil _))
      ∙ read_field sizes (fields index plaintext_length body_length) k [] fields-HasSizes below

  pub read-index :
      index < 2 ^ 64 → from_le (slice 0 8 (frame_rest index plaintext_length body_length)) ≡ index
  read-index h = ap from_le (field 0 (omega arith)) ∙ from_le-le_bytes 8 index h

  pub read-plaintext_length :
      plaintext_length < 2 ^ 32
      → from_le (slice 8 12 (frame_rest index plaintext_length body_length)) ≡ plaintext_length
  read-plaintext_length h =
      ap from_le (field 1 (omega arith)) ∙ from_le-le_bytes 4 plaintext_length h

  pub read-body_length :
      body_length < 2 ^ 32
      → from_le (slice 12 16 (frame_rest index plaintext_length body_length)) ≡ body_length
  read-body_length h = ap from_le (field 2 (omega arith)) ∙ from_le-le_bytes 4 body_length h
