-- ===== src/Volume/Layout/SuperCodec.antt =====
-- The payload of a superblock and its slot: decoding gives back what was encoded.
use or_isy_vra.Base.{
  ℕ, suc, ◌^◌, ◌<◌, ◌≤◌, ◌≡◌, refl, ap, sym, ◌∙◌, arith, List, [], ◌∷◌, ◌++◌, get_or, replicate,
  Bool, false, true, ltb-false, append-nil,
}
use or_isy_vra.Base.Words.{IsByte}
use or_isy_vra.Base.Bytes.{
  le_bytes, slice, bytes_eq_self, IsBytes, length-le_bytes, le_bytes-IsByte, from_le-le_bytes,
}
use or_isy_vra.Base.Fields.{
  concat, HasSizes, offset, write_fields_lem, read_field, concat-snoc, All-concat, length-concat,
  slice_byte,
}
use or_isy_vra.Base.Results.{ok}
use or_isy_vra.Volume.Layout.{
  SuperState, super_magic, super_plaintext_size, log_start, flag_byte, encode_super, decode_super,
  clean_flag,
}

-- The fields fit their widths, and the log begins where logs do.
pub record IsSuperState (st : SuperState) : Type 0 where
  pub generation_u64 : st.generation < 2 ^ 64
  pub end_u64 : st.committed_end < 2 ^ 64
  pub count_u64 : st.record_count < 2 ^ 64
  pub begins : log_start ≤ st.committed_end

abbrev sizes : List ℕ
sizes = 8 ∷ 8 ∷ 8 ∷ 8 ∷ 1 ∷ 31 ∷ []

flag_byte-lt : (b : Bool) → IsByte (flag_byte b)
flag_byte-lt true = omega arith
flag_byte-lt false = omega arith

clean_flag-ok : (b : Bool) → clean_flag (flag_byte b) ≡ ok b
unfolding clean_flag
clean_flag-ok true = refl
clean_flag-ok false = refl

module _ (st : SuperState) where
  abbrev front : List (List ℕ)
  front =
      super_magic
      ∷ le_bytes 8 st.generation
      ∷ le_bytes 8 st.committed_end
      ∷ le_bytes 8 st.record_count
      ∷ (flag_byte st.clean ∷ [])
      ∷ []

  abbrev fields : List (List ℕ)
  fields = front ++ (replicate 31 0 ∷ [])

  front-HasSizes : HasSizes (8 ∷ 8 ∷ 8 ∷ 8 ∷ 1 ∷ []) front
  front-HasSizes = omega (
    arith,
    length-le_bytes 8 st.generation,
    length-le_bytes 8 st.committed_end,
    length-le_bytes 8 st.record_count,
  )

  fields-HasSizes : HasSizes sizes fields
  fields-HasSizes = omega (
    arith,
    length-le_bytes 8 st.generation,
    length-le_bytes 8 st.committed_end,
    length-le_bytes 8 st.record_count,
  )

  encode_super-fields : encode_super st ≡ concat fields
  unfolding encode_super
  encode_super-fields =
      write_fields_lem (8 ∷ 8 ∷ 8 ∷ 8 ∷ 1 ∷ []) front 31 front-HasSizes
      ∙ concat-snoc front (replicate 31 0)

  pub encode_super-IsBytes : IsBytes super_plaintext_size (encode_super st)
  encode_super-IsBytes = rw encode_super-fields (record {
    size = length-concat sizes fields fields-HasSizes;
    all = All-concat IsByte fields (
      omega arith,
      (
        le_bytes-IsByte 8 st.generation,
        (
          le_bytes-IsByte 8 st.committed_end,
          (le_bytes-IsByte 8 st.record_count, ((flag_byte-lt st.clean, tt), (omega arith, tt))),
        ),
      ),
    );
  })

  field :
      (k : ℕ)
      → k < 6
      → slice (offset sizes k) (offset sizes (suc k)) (encode_super st) ≡ get_or fields k []
  field k below =
      ap (slice (offset sizes k) (offset sizes (suc k))) (encode_super-fields ∙ sym (append-nil _))
      ∙ read_field sizes fields k [] fields-HasSizes below

  flag : get_or (encode_super st) 32 0 ≡ flag_byte st.clean
  flag =
      ap (λ (t : List ℕ). get_or t 0 0)
        (sym (slice_byte (encode_super st) 32 (omega (arith, encode_super-IsBytes.size)))
          ∙ field 4 (omega arith))

  pub decode_super-encode : IsSuperState st → decode_super (encode_super st) ≡ ok st
  unfolding decode_super
  decode_super-encode v = rw encode_super-IsBytes.size (
      rw (field 0 (omega arith)) (
        rw (bytes_eq_self super_magic) (
          rw flag (
            rw (clean_flag-ok st.clean) (
              rw (field 1 (omega arith)) (
                rw (field 2 (omega arith)) (
                  rw (field 3 (omega arith)) (
                    rw (from_le-le_bytes 8 st.generation v.generation_u64) (
                      rw (from_le-le_bytes 8 st.committed_end v.end_u64) (
                        rw (from_le-le_bytes 8 st.record_count v.count_u64)
                          (rw (ltb-false st.committed_end log_start v.begins) refl)))))))))))
