-- ===== src/Container/Record.antt =====
-- Data records: the frame, and the synthetic-IV construction of `seal_native` and `open_native`.
pub mod Sealing
pub mod Frame
use or_isy_vra.Base.{ℕ, ◌+◌, List, [], ◌∷◌, ◌++◌, length, take, drop, replicate, ◌==◌, not}
use or_isy_vra.Base.Bytes.{le_bytes, copy_at, bytes_eq, xor_bytes}
use or_isy_vra.Base.Results.{ok, ◌>>=◌, ◌>>◌, ok_or, fail_if, checked_add, u32_try_from}
use or_isy_vra.Errors.{Checked, limit_exceeded, invalid_format, authentication_failed}
use or_isy_vra.Core.Prf.{mac32, prf_parts, record_siv, stream}
use or_isy_vra.Container.Keys.{NativeKeys}

abbrev pub data_record : ℕ
data_record = 1

abbrev pub native_tag_size : ℕ
native_tag_size = 32

unfoldable pub record_frame : ℕ → ℕ → ℕ → List ℕ
unfolding copy_at
record_frame index plaintext_length body_length =
    let b1 = copy_at 0 (data_record ∷ []) (replicate 17 0) in
    let b2 = copy_at 1 (le_bytes 8 index) b1 in
    let b3 = copy_at 9 (le_bytes 4 plaintext_length) b2 in copy_at 13 (le_bytes 4 body_length) b3

unfoldable pub record_context : List ℕ → ℕ → ℕ → List ℕ
unfolding copy_at
record_context binding index plaintext_length =
    let b1 = copy_at 0 binding (replicate 44 0) in
    let b2 = copy_at 32 (le_bytes 8 index) b1 in copy_at 40 (le_bytes 4 plaintext_length) b2

unfoldable pub seal_native : NativeKeys → List ℕ → ℕ → List ℕ → Checked (List ℕ)
seal_native keys binding index plaintext = do
  plaintext_length ←
      ok_or (u32_try_from (length plaintext)) (limit_exceeded "record larger than u32")
  let context = record_context binding index plaintext_length
  let siv = mac32 keys.siv record_siv (context ∷ plaintext ∷ [])
  let key_stream = prf_parts keys.stream stream (context ∷ siv ∷ []) (length plaintext)
  ok (siv ++ xor_bytes plaintext key_stream)

unfoldable pub open_native : NativeKeys → List ℕ → ℕ → ℕ → List ℕ → Checked (List ℕ)
open_native keys binding index plaintext_length body = do
  expected_body_length ←
      ok_or (checked_add native_tag_size plaintext_length) (limit_exceeded "record length overflow")
  fail_if (not (length body == expected_body_length))
      (invalid_format "native record length mismatch")
  let stored_siv = take native_tag_size body
  let ciphertext = drop native_tag_size body
  let context = record_context binding index plaintext_length
  let key_stream = prf_parts keys.stream stream (context ∷ stored_siv ∷ []) (length ciphertext)
  let plaintext = xor_bytes ciphertext key_stream
  let expected_siv = mac32 keys.siv record_siv (context ∷ plaintext ∷ [])
  fail_if (not (bytes_eq expected_siv stored_siv)) authentication_failed
  ok plaintext
