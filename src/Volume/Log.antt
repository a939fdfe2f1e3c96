-- ===== src/Volume/Log.antt =====
-- The record log: `read_record_at`, `scan_log`, and the index of the newest records.
use or_isy_vra.Base.{
  ℕ, zero, suc, ◌+◌, ◌-◌, ◌^◌, min, ◌||◌, List, [], ◌∷◌, ◌++◌, length, Option, none, some, ltb, leb,
  ◌==◌, not, codes, if◌then◌else◌,
}
use or_isy_vra.Base.Results.{ok, stuck, ◌>>=◌, ◌>>◌, ok_or, fail_if, checked_add}
use or_isy_vra.Crypto.{Crypto}
use or_isy_vra.Volume.Layout.{
  VolumeResult, corrupt, Bootstrap, encode_bootstrap, block_count, SuperState, RecordHeader,
  decode_record_header, record_header_size, log_start,
}
use or_isy_vra.Volume.Device.{read_at}
use or_isy_vra.Volume.Seals.{VolumeKeys, derive_nonce, decrypt}

pub record RecordIndex : Type 0 where
  pub offset : ℕ
  pub generation : ℕ
  pub plaintext_len : ℕ
  pub ciphertext_len : ℕ

-- `HashMap<u64, RecordIndex>`, as an association list with each key once.
abbrev pub Index : Type 0
Index = List (ℕ × RecordIndex)

unfoldable pub get : ℕ → Index → Option RecordIndex
get key [] = none
get key ((k, record_index) ∷ index) = if k == key then some record_index else get key index

unfoldable pub insert : ℕ → RecordIndex → Index → Index
insert key value [] = (key, value) ∷ []
insert key value ((k, record_index) ∷ index) =
    if k == key then (key, value) ∷ index else (k, record_index) ∷ insert key value index

unfoldable pub record_nonce : Crypto → VolumeKeys → Bootstrap → ℕ → ℕ → List ℕ
record_nonce c keys b block_index generation =
    derive_nonce c keys b (codes "data") block_index generation

unfoldable pub record_aad : Bootstrap → List ℕ → List ℕ
record_aad b header = encode_bootstrap b ++ (codes "data" ++ header)

unfoldable pub read_record_at :
    Crypto → Bootstrap → VolumeKeys → ℕ → List ℕ → VolumeResult (RecordHeader × List ℕ)
read_record_at c b keys offset content = do
  header_bytes ← read_at offset record_header_size content
  header ← decode_record_header header_bytes
  fail_if (leb (block_count b) header.block_index) (corrupt "block index exceeds logical capacity")
  fail_if (ltb b.block_size header.plaintext_len)
      (corrupt "block plaintext exceeds configured block size")
  ciphertext ← read_at (offset + record_header_size) header.ciphertext_len content
  plaintext ←
      decrypt c keys (record_nonce c keys b header.block_index header.generation) ciphertext
        (record_aad b header_bytes)
  fail_if (not (length plaintext == header.plaintext_len))
      (corrupt "decrypted block length mismatch")
  ok (header, plaintext)

-- The test of a record's generation against the one in the index.
unfoldable pub check_generation : Option RecordIndex → ℕ → VolumeResult Unit
check_generation (some previous) generation =
    fail_if (leb generation previous.generation) (corrupt "block generation did not increase")
check_generation none generation =
    fail_if (generation == 0) (corrupt "block generation zero is invalid")

-- `u64::saturating_add`.
abbrev pub saturating_add : ℕ → ℕ → ℕ
saturating_add a b = min (a + b) (2 ^ 64 - 1)

-- `while offset < state.committed_end`, with fuel for the rounds; every record takes bytes.
unfoldable pub scan_loop :
    Crypto → Bootstrap → VolumeKeys → ℕ → List ℕ → ℕ → ℕ → ℕ → Index → VolumeResult (ℕ × ℕ × Index)
scan_loop c b keys zero content end offset count index = stuck
scan_loop c b keys (suc fuel) content end offset count index =
    let more = (do
      (header, plaintext) ← read_record_at c b keys offset content
      check_generation (get header.block_index index) header.generation
      record_len ←
          ok_or (checked_add record_header_size header.ciphertext_len)
            (corrupt "block record length overflow")
      next ← ok_or (checked_add offset record_len) (corrupt "block record offset overflow")
      fail_if (ltb end next) (corrupt "block record extends past committed log")
      scan_loop c b keys fuel content end next (saturating_add count 1) (
          insert header.block_index
            (record {
              offset = offset;
              generation = header.generation;
              plaintext_len = header.plaintext_len;
              ciphertext_len = header.ciphertext_len;
            })
            index)) in
    if ltb offset end then more else ok (offset, count, index)

unfoldable pub scan_log : Crypto → Bootstrap → VolumeKeys → SuperState → List ℕ → VolumeResult Index
scan_log c b keys st content = do
  (offset, count, index) ←
      scan_loop c b keys (st.committed_end + 1) content st.committed_end log_start 0 []
  fail_if (not (offset == st.committed_end) || not (count == st.record_count))
      (corrupt "committed log accounting mismatch")
  ok index
