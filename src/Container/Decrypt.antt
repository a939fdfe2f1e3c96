-- ===== src/Container/Decrypt.antt =====
-- `decrypt_file` between the opened input and the finished temporary file.
pub mod Bodies
pub mod Records
use or_isy_vra.Base.{
  ℕ, zero, suc, ◌+◌, List, [], ◌∷◌, ◌++◌, length, take, drop, leb, ltb, ◌==◌, if◌then◌else◌, Bool,
  true, false, not,
}
use or_isy_vra.Base.Bytes.{from_le, slice}
use or_isy_vra.Base.Results.{ok, err, stuck, ◌>>=◌, ◌>>◌, ok_or, fail_if, expect, checked_add}
use or_isy_vra.Errors.{
  Checked, limit_exceeded, io, unexpected_eof, invalid_format, authentication_failed,
}
use or_isy_vra.Crypto.{Crypto}
use or_isy_vra.Container.Header.{Mode, native_research, guarded, Header, header_size, decode_header}
use or_isy_vra.Container.Record.{data_record, native_tag_size, open_native}
use or_isy_vra.Container.Guard.{guard_tag_size, guard_open}
use or_isy_vra.Container.Manifest.{
  manifest_record, manifest_inner_size, manifest_frame, verify_manifest_inner,
}
use or_isy_vra.Container.Encrypt.{Session, session_of, max_records, u64_max}

pub record FileInfo : Type 0 where
  pub version : ℕ
  pub mode : Mode
  pub chunk_size : ℕ
  pub file_id : List ℕ

abbrev pub info_of : Header → FileInfo
info_of h = record {
  version = h.version;
  mode = h.mode;
  chunk_size = h.chunk_size;
  file_id = h.file_id;
}

-- `read_exact` of `n` bytes from what is left of the input: the bytes, and what is left then.
unfoldable pub read_exact : ℕ → List ℕ → Checked (List ℕ × List ℕ)
read_exact n input =
    if leb n (length input) then ok (take n input, drop n input) else err (io unexpected_eof)

-- `saw_manifest` is set by the manifest's branch alone.
pub record Reading : Type 0 where
  pub expected_index : ℕ
  pub total_length : ℕ
  pub transcript : List ℕ
  pub output : List ℕ
  pub saw_manifest : Bool

abbrev pub body_length_for : Mode → ℕ → ℕ
body_length_for native_research plaintext_length = native_tag_size + plaintext_length
body_length_for guarded plaintext_length = native_tag_size + plaintext_length + guard_tag_size

unfoldable pub open_body : Crypto → Session → Mode → ℕ → List ℕ → List ℕ → Checked (List ℕ)
open_body c s native_research index frame body = ok body
open_body c s guarded index frame body = do
  keys ← expect s.guard_keys
  guard_open c keys s.header index data_record (s.header_bytes ++ frame) body

-- The branch of a data record, behind its first byte.
unfoldable pub decrypt_record : Crypto → Session → Reading → List ℕ → Checked (Reading × List ℕ)
decrypt_record c s st input = do
  fail_if st.saw_manifest (invalid_format "data after manifest")
  (rest, input1) ← read_exact 16 input
  let index = from_le (slice 0 8 rest)
  let plaintext_length = from_le (slice 8 12 rest)
  let body_length = from_le (slice 12 16 rest)
  fail_if (not (index == st.expected_index)) authentication_failed
  fail_if (leb max_records index) (limit_exceeded "too many records")
  fail_if (ltb s.header.chunk_size plaintext_length)
      (invalid_format "record exceeds header chunk size")
  fail_if (not (body_length == body_length_for s.header.mode plaintext_length))
      (invalid_format "record body length mismatch")
  (body, input2) ← read_exact body_length input1
  let frame = data_record ∷ rest
  native_body ← open_body c s s.header.mode index frame body
  plaintext ← open_native s.native_keys s.binding index plaintext_length native_body
  total_length ←
      ok_or (checked_add st.total_length plaintext_length) (limit_exceeded "file length overflow")
  ok (
    record {
      expected_index = st.expected_index + 1;
      total_length = total_length;
      transcript = st.transcript ++ (frame ++ body);
      output = st.output ++ plaintext;
      saw_manifest = st.saw_manifest;
    },
    input2,
  )

abbrev pub manifest_length_for : Mode → ℕ
manifest_length_for native_research = manifest_inner_size
manifest_length_for guarded = manifest_inner_size + guard_tag_size

unfoldable pub open_manifest : Crypto → Session → Mode → ℕ → List ℕ → Checked (List ℕ)
open_manifest c s native_research body_length body = ok body
open_manifest c s guarded body_length body = do
  keys ← expect s.guard_keys
  guard_open c keys s.header u64_max manifest_record (s.header_bytes ++ manifest_frame body_length)
      body

-- The branch of the manifest, behind its first byte.
unfoldable pub decrypt_manifest : Crypto → Session → Reading → List ℕ → Checked Reading
decrypt_manifest c s st input = do
  fail_if st.saw_manifest (invalid_format "duplicate manifest")
  (length_bytes, input1) ← read_exact 4 input
  let body_length = from_le length_bytes
  fail_if (not (body_length == manifest_length_for s.header.mode))
      (invalid_format "manifest body length mismatch")
  (body, input2) ← read_exact body_length input1
  inner ← open_manifest c s s.header.mode body_length body
  verify_manifest_inner s.native_keys s.binding inner st.total_length st.expected_index
      (c.sha384 st.transcript)
  fail_if (not (length input2 == 0)) (invalid_format "trailing bytes after manifest")
  ok (record st { saw_manifest = true })

-- `loop { ... }`, with fuel for the rounds; every data record takes bytes.
unfoldable pub decrypt_loop : Crypto → Session → ℕ → List ℕ → Reading → Checked Reading
decrypt_loop c s zero input st = stuck
decrypt_loop c s (suc fuel) [] st = ok st
decrypt_loop c s (suc fuel) (kind ∷ input) st =
    let more = (do (st', input') ← decrypt_record c s st input; decrypt_loop c s fuel input' st') in
    if kind == data_record
    then more
    else if kind == manifest_record
    then decrypt_manifest c s st input
    else err (invalid_format "unknown record type")

abbrev pub reading : List ℕ → Reading
reading header_bytes = record {
  expected_index = 0;
  total_length = 0;
  transcript = header_bytes;
  output = [];
  saw_manifest = false;
}

-- What `decrypt_file` has in the temporary file when it comes to persist it.
unfoldable pub decrypt_stream : Crypto → Session → List ℕ → Checked (List ℕ)
decrypt_stream c s input = do
  st ← decrypt_loop c s (length input + 1) input (reading s.header_bytes)
  fail_if (not st.saw_manifest) authentication_failed
  ok st.output

-- The first part of `decrypt_file`, up to the header binding, and what is left of the input.
unfoldable pub open_session : Crypto → List ℕ → List ℕ → Checked (Session × List ℕ)
open_session c master input = do
  (header_bytes, rest) ← read_exact header_size input
  header ← decode_header header_bytes
  s ← session_of c master header
  ok (s, rest)

unfoldable pub decrypt_bytes : Crypto → List ℕ → List ℕ → Checked (List ℕ × FileInfo)
decrypt_bytes c master input = do
  (s, rest) ← open_session c master input
  plaintext ← decrypt_stream c s rest
  ok (plaintext, info_of s.header)

-- `inspect_file`, on the bytes of the file.
unfoldable pub inspect_bytes : List ℕ → Checked FileInfo
inspect_bytes input = do
  (header_bytes, rest) ← read_exact header_size input
  header ← decode_header header_bytes
  ok (info_of header)
