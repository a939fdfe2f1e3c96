-- ===== src/Container/Manifest.antt =====
-- The manifest that closes a file: `native_manifest_inner`, `verify_manifest_inner` and the frame.
pub mod Verified
use or_isy_vra.Base.{ℕ, ◌+◌, List, [], ◌∷◌, length, take, drop, replicate, ◌==◌, not, ◌||◌}
use or_isy_vra.Base.Bytes.{le_bytes, from_le, slice, copy_at, bytes_eq}
use or_isy_vra.Base.Results.{◌>>◌, fail_if}
use or_isy_vra.Errors.{Checked, invalid_format, authentication_failed}
use or_isy_vra.Core.Prf.{mac32, manifest}
use or_isy_vra.Container.Keys.{NativeKeys}
use or_isy_vra.Container.Record.{native_tag_size}

abbrev pub manifest_record : ℕ
manifest_record = 255

abbrev pub manifest_payload_size : ℕ
manifest_payload_size = 64

abbrev pub manifest_inner_size : ℕ
manifest_inner_size = manifest_payload_size + native_tag_size

unfoldable pub manifest_frame : ℕ → List ℕ
unfolding copy_at
manifest_frame body_length =
    copy_at 1 (le_bytes 4 body_length) (copy_at 0 (manifest_record ∷ []) (replicate 5 0))

unfoldable pub manifest_payload : ℕ → ℕ → List ℕ → List ℕ
unfolding copy_at
manifest_payload total_length record_count transcript_digest =
    let b1 = copy_at 0 (le_bytes 8 total_length) (replicate manifest_payload_size 0) in
    let b2 = copy_at 8 (le_bytes 8 record_count) b1 in copy_at 16 transcript_digest b2

unfoldable pub manifest_tag : NativeKeys → List ℕ → List ℕ → List ℕ
manifest_tag keys binding payload = mac32 keys.manifest manifest (binding ∷ payload ∷ [])

unfoldable pub native_manifest_inner : NativeKeys → List ℕ → ℕ → ℕ → List ℕ → List ℕ
unfolding copy_at
native_manifest_inner keys binding total_length record_count transcript_digest =
    let payload = manifest_payload total_length record_count transcript_digest in
    let b1 = copy_at 0 payload (replicate manifest_inner_size 0) in
    copy_at manifest_payload_size (manifest_tag keys binding payload) b1

unfoldable pub verify_manifest_inner : NativeKeys → List ℕ → List ℕ → ℕ → ℕ → List ℕ → Checked Unit
verify_manifest_inner keys binding inner expected_total expected_count expected_digest = do
  fail_if (not (length inner == manifest_inner_size)) (invalid_format "manifest length mismatch")
  let payload = take manifest_payload_size inner
  let stored_tag = drop manifest_payload_size inner
  fail_if (not (bytes_eq (manifest_tag keys binding payload) stored_tag)) authentication_failed
  let total_length = from_le (slice 0 8 payload)
  let record_count = from_le (slice 8 16 payload)
  fail_if
      (not (total_length == expected_total)
        || (not (record_count == expected_count)
            || not (bytes_eq expected_digest (slice 16 64 payload))))
      authentication_failed
