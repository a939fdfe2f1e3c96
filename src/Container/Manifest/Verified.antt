-- ===== src/Container/Manifest/Verified.antt =====
-- `verify_manifest_inner` accepts exactly what `native_manifest_inner` makes.
use mathlib.Core.List.{append-nil}
use or_isy_vra.Base.{
  Bool, ℕ, suc, ◌-◌, ◌^◌, ◌<◌, ◌≤◌, ◌≡◌, ◌↔◌, refl, ap, ap₂, sym, ◌∙◌, arith, List, [], ◌∷◌, ◌++◌,
  length, take, drop, get_or, All, ◌==◌, not, ◌||◌, true, false, ==_iff, ==_self, take-append,
  drop-append, take-append-drop, length-take, length-append, All-append, All-take,
}
use or_isy_vra.Base.Words.{IsByte}
use or_isy_vra.Base.Bytes.{
  le_bytes, from_le, slice, bytes_eq, bytes_eq_iff, bytes_eq_self, length-le_bytes, le_bytes-IsByte,
  le_bytes-from_le, from_le-le_bytes, slice-IsBytes, IsBytes,
}
use or_isy_vra.Base.Fields.{
  concat, HasSizes, offset, write_fields_lem, read_field, slices, slices_lem, length-concat,
  All-concat,
}
use or_isy_vra.Base.Results.{ok, fail_if, fail_if-eq-ok}
use or_isy_vra.Errors.{authentication_failed}
use or_isy_vra.Core.Prf.{manifest}
use or_isy_vra.Core.Prf.Output.{mac32-IsBytes}
use or_isy_vra.Container.Keys.{NativeKeys}
use or_isy_vra.Container.Manifest.{
  manifest_payload_size, manifest_inner_size, manifest_payload, manifest_tag, native_manifest_inner,
  verify_manifest_inner, manifest_frame, manifest_record,
}

abbrev sizes : List ℕ
sizes = 8 ∷ 8 ∷ 48 ∷ []

abbrev fields : ℕ → ℕ → List ℕ → List (List ℕ)
fields total count digest = le_bytes 8 total ∷ le_bytes 8 count ∷ digest ∷ []

pub manifest_frame-bytes : (n : ℕ) → manifest_frame n ≡ manifest_record ∷ le_bytes 4 n
unfolding manifest_frame
manifest_frame-bytes n =
    write_fields_lem (1 ∷ 4 ∷ []) ((manifest_record ∷ []) ∷ le_bytes 4 n ∷ []) 0
      (omega (arith, length-le_bytes 4 n))
    ∙ append-nil _
    ∙ ap (λ t. manifest_record ∷ t) (append-nil (le_bytes 4 n))

module _ (total count : ℕ) (digest : List ℕ) (full : IsBytes 48 digest) where
  fields-HasSizes : HasSizes sizes (fields total count digest)
  fields-HasSizes = omega (arith, length-le_bytes 8 total, length-le_bytes 8 count, full.size)

  payload-fields : manifest_payload total count digest ≡ concat (fields total count digest)
  unfolding manifest_payload
  payload-fields =
      write_fields_lem sizes (fields total count digest) 0 fields-HasSizes ∙ append-nil _

  pub manifest_payload-IsBytes : IsBytes manifest_payload_size (manifest_payload total count digest)
  manifest_payload-IsBytes = rw payload-fields (record {
    size = length-concat sizes (fields total count digest) fields-HasSizes;
    all =
        All-concat IsByte (fields total count digest)
          (le_bytes-IsByte 8 total, (le_bytes-IsByte 8 count, (full.all, tt)));
  })

  field :
      (k : ℕ)
      → k < 3
      → slice (offset sizes k) (offset sizes (suc k)) (manifest_payload total count digest)
        ≡ get_or (fields total count digest) k []
  field k below =
      ap (slice (offset sizes k) (offset sizes (suc k))) (payload-fields ∙ sym (append-nil _))
      ∙ read_field sizes (fields total count digest) k [] fields-HasSizes below

module _ (keys : NativeKeys) (binding : List ℕ) (total count : ℕ) (digest : List ℕ)
    (full : IsBytes 48 digest) where
  abbrev payload : List ℕ
  payload = manifest_payload total count digest

  abbrev tag : List ℕ
  tag = manifest_tag keys binding payload

  tag-IsBytes : IsBytes 32 tag
  unfolding manifest_tag
  tag-IsBytes = mac32-IsBytes keys.manifest manifest (binding ∷ payload ∷ [])

  inner-parts : native_manifest_inner keys binding total count digest ≡ payload ++ tag
  unfolding native_manifest_inner
  inner-parts =
      write_fields_lem (64 ∷ 32 ∷ []) (payload ∷ tag ∷ []) 0
        (omega (arith, (manifest_payload-IsBytes total count digest full).size, tag-IsBytes.size))
      ∙ append-nil _
      ∙ ap (λ t. payload ++ t) (append-nil tag)

  pub native_manifest_inner-IsBytes :
      IsBytes manifest_inner_size (native_manifest_inner keys binding total count digest)
  native_manifest_inner-IsBytes =
      let p = manifest_payload-IsBytes total count digest full in
      rw inner-parts (record {
        size = length-append payload tag ∙ omega (arith, p.size, tag-IsBytes.size);
        all = All-append IsByte payload tag p.all tag-IsBytes.all;
      })

  pub verify-inner :
      total < 2 ^ 64
      → count < 2 ^ 64
      → verify_manifest_inner keys binding
          (native_manifest_inner keys binding total count digest)
          total
          count
          digest
        ≡ ok tt
  unfolding verify_manifest_inner
  verify-inner ht hc =
      let p = manifest_payload-IsBytes total count digest full in
      rw native_manifest_inner-IsBytes.size (
        rw inner-parts (
          rw (take-append 64 payload tag (sym p.size)) (
            rw (drop-append 64 payload tag (sym p.size)) (
              rw (bytes_eq_self tag) (
                rw (field total count digest full 0 (omega arith)) (
                  rw (field total count digest full 1 (omega arith)) (
                    rw (field total count digest full 2 (omega arith)) (
                      rw (from_le-le_bytes 8 total ht) (
                        rw (from_le-le_bytes 8 count hc) (
                          rw (==_self total)
                            (rw (==_self count) (rw (bytes_eq_self digest) refl))))))))))))

module _ (keys : NativeKeys) (binding inner : List ℕ) (total count : ℕ) (digest : List ℕ)
    (bytes : All IsByte inner)
    (accepted : verify_manifest_inner keys binding inner total count digest ≡ ok tt) where
  checked :
      (length inner ≡ manifest_inner_size)
      × (manifest_tag keys binding (take 64 inner) ≡ drop 64 inner)
      × (from_le (slice 0 8 (take 64 inner)) ≡ total)
      × (from_le (slice 8 16 (take 64 inner)) ≡ count)
      × (digest ≡ slice 16 64 (take 64 inner))
  unfolding verify_manifest_inner
  checked =
      let (size, rest) = fail_if-eq-ok _ _ _ accepted in
      let (tagged, last) = fail_if-eq-ok _ _ _ rest in
      let (t, n, d) =
        fields_right (from_le (slice 0 8 (take 64 inner)) == total)
          (from_le (slice 8 16 (take 64 inner)) == count)
          (bytes_eq digest (slice 16 64 (take 64 inner))) last in
      (
        (==_iff _ _).0 (right _ size),
        (bytes_eq_iff _ _).0 (right _ tagged),
        (==_iff _ _).0 t,
        (==_iff _ _).0 n,
        (bytes_eq_iff _ _).0 d,
      )
    where
      right : (b : Bool) → not b ≡ false → b ≡ true
      right b h = ground arith

      fields_right :
          (a b d : Bool)
          → fail_if (not a || (not b || not d)) authentication_failed ≡ ok tt
          → (a ≡ true) × (b ≡ true) × (d ≡ true)
      fields_right a b d h = ground arith

  stored-IsBytes : IsBytes 64 (take 64 inner)
  stored-IsBytes = record {
    size = length-take 64 inner ∙ omega (arith, checked.0);
    all = All-take IsByte 64 inner bytes;
  }

  number :
      (lo hi n x : ℕ)
      → hi ≤ 64
      → hi - lo ≡ n
      → from_le (slice lo hi (take 64 inner)) ≡ x
      → le_bytes n x ≡ slice lo hi (take 64 inner)
  number lo hi n x le e r =
      let b =
        slice-IsBytes lo hi n (take 64 inner) stored-IsBytes.all (rw stored-IsBytes.size le) e in
      rw (← r) (le_bytes-from_le n (slice lo hi (take 64 inner)) b.all b.size)

  digest-IsBytes : IsBytes 48 digest
  digest-IsBytes = rw checked.4 (
      slice-IsBytes 16 64 48 (take 64 inner) stored-IsBytes.all
        (rw stored-IsBytes.size (omega arith)) (omega arith))

  same_fields : fields total count digest ≡ slices 0 sizes (take 64 inner)
  same_fields =
      ap₂ (λ t u. t ∷ u) (number 0 8 8 total (omega arith) (omega arith) checked.2)
        (ap₂ (λ t u. t ∷ u) (number 8 16 8 count (omega arith) (omega arith) checked.3)
          (ap₂ (λ t u. t ∷ u) checked.4 refl))

  same_payload : manifest_payload total count digest ≡ take 64 inner
  same_payload =
      payload-fields total count digest digest-IsBytes
      ∙ ap concat same_fields
      ∙ slices_lem sizes (take 64 inner) stored-IsBytes.size

  verified-inner : native_manifest_inner keys binding total count digest ≡ inner
  verified-inner =
      inner-parts keys binding total count digest digest-IsBytes
      ∙ ap₂ (λ t u. t ++ u) same_payload (ap (manifest_tag keys binding) same_payload ∙ checked.1)
      ∙ take-append-drop 64 inner

-- On a string of bytes, `verify_manifest_inner` succeeds for a total length and a record count
-- below 2 ^ 64 and a digest of 48 bytes exactly when the string is what `native_manifest_inner`
-- makes of them under the same keys and binding: a manifest with another length, count, digest or
-- tag is refused.
pub verify_manifest_inner_iff :
    (keys : NativeKeys) (binding inner : List ℕ) (total count : ℕ) (digest : List ℕ)
    → All IsByte inner
    → total < 2 ^ 64
    → count < 2 ^ 64
    → IsBytes 48 digest
    → (verify_manifest_inner keys binding inner total count digest ≡ ok tt)
      ↔ (native_manifest_inner keys binding total count digest ≡ inner)
verify_manifest_inner_iff keys binding inner total count digest bytes ht hc full = (
  λ e. verified-inner keys binding inner total count digest bytes e,
  λ e. rw (← e) (verify-inner keys binding total count digest full ht hc),
)
