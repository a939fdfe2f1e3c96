-- ===== src/Keycard/RoundTrip.antt =====
-- The key chunk: what `build_key_chunk` makes is read back, and so is what was injected into a
-- PNG file.
use or_isy_vra.Base.{
  ℕ, suc, ◌+◌, ◌^◌, ◌≤◌, ◌<◌, ◌≡◌, refl, ap, ap₂, sym, ◌∙◌, arith, List, [], ◌∷◌, ◌++◌, length,
  take, drop, get_or, none, some, Bool, true, false, not, leb, ◌==◌, length-append, length-take,
  take-append, take_all, length-drop, ◌↔◌, append_assoc, append-nil,
}
use or_isy_vra.Base.Bytes.{
  slice, bytes_eq_iff, bytes_eq_self, le_bytes, from_le, from_le-le_bytes, length-le_bytes,
}
use or_isy_vra.Base.Fields.{read_field, offset}
use or_isy_vra.Base.Results.{ok, bind-eq-ok, then-eq-ok, fail_if-eq-ok, ok_injective}
use or_isy_vra.Errors.{image, key_card_decode, invalid_format}
use or_isy_vra.Crypto.{Crypto, HasDigests}
use or_isy_vra.Keyfile.{validate_keyfile_bytes, keyfile_size}
use or_isy_vra.Png.{png_signature, starts_with, chunk, insert_loop}
use or_isy_vra.Png.Insert.{Inserted, begins, length-out, insert_loop-Inserted}
use or_isy_vra.Png.Reading.{length-chunk}
use or_isy_vra.Keycard.{
  key_chunk_type, key_chunk_magic, build_key_chunk, read_key_chunk, inject_key_chunk,
  extract_key_chunk,
}
use or_isy_vra.Keycard.Chunk.{extract_loop-Inserted}

-- A capsule that passes the check has 128 bytes.
pub valid-size :
    (keyfile : List ℕ) → validate_keyfile_bytes keyfile ≡ ok tt → length keyfile ≡ keyfile_size
unfolding validate_keyfile_bytes
valid-size keyfile e =
    let (same, r) =
      fail_if-eq-ok (not (length keyfile == keyfile_size))
        (invalid_format "unexpected key capsule size") _ e in
    sized (length keyfile) same
  where
    sized : (n : ℕ) → not (n == keyfile_size) ≡ false → n ≡ keyfile_size
    sized n h = ground arith

pub build_key_chunk-checks :
    (c : Crypto) (keyfile body : List ℕ)
    → build_key_chunk c keyfile ≡ ok body
    → validate_keyfile_bytes keyfile ≡ ok tt
unfolding build_key_chunk
build_key_chunk-checks c keyfile body e = (then-eq-ok (validate_keyfile_bytes keyfile) _ e).0

module _ (c : Crypto) (keyfile : List ℕ) (digests : HasDigests c)
    (valid : validate_keyfile_bytes keyfile ≡ ok tt) where
  -- The body of the key chunk.
  abbrev pub key_body : List ℕ
  key_body = key_chunk_magic ++ (le_bytes 2 (length keyfile) ++ (keyfile ++ c.sha256 keyfile))

  pub build_key_chunk-valid : build_key_chunk c keyfile ≡ ok key_body
  unfolding build_key_chunk
  build_key_chunk-valid = rw valid (rw (too_large (length keyfile) (valid-size keyfile valid)) refl)
    where
      too_large : (n : ℕ) → n ≡ keyfile_size → leb (2 ^ 16) n ≡ false
      too_large n h = ground arith

  abbrev sizes : List ℕ
  sizes = 8 ∷ 2 ∷ keyfile_size ∷ 32 ∷ []

  abbrev parts : List (List ℕ)
  parts = key_chunk_magic ∷ le_bytes 2 (length keyfile) ∷ keyfile ∷ c.sha256 keyfile ∷ []

  field :
      (i lo hi : ℕ)
      → i < 4
      → lo ≡ offset sizes i
      → hi ≡ offset sizes (suc i)
      → slice lo hi key_body ≡ get_or parts i []
  field i lo hi small x y =
      ap₂ (λ (a b : ℕ). slice a b key_body) x y
      ∙ ap (slice (offset sizes i) (offset sizes (suc i))) (simp (append_assoc, append-nil))
      ∙ read_field sizes parts i []
          (
            refl,
            (
              length-le_bytes 2 (length keyfile),
              (valid-size keyfile valid, ((digests.sha256_32 keyfile).size, tt)),
            ),
          )
          small

  length-key_body : length key_body ≡ 170
  length-key_body = omega (
    arith,
    length-append key_chunk_magic (le_bytes 2 (length keyfile) ++ (keyfile ++ c.sha256 keyfile)),
    length-append (le_bytes 2 (length keyfile)) (keyfile ++ c.sha256 keyfile),
    length-append keyfile (c.sha256 keyfile),
    length-le_bytes 2 (length keyfile),
    valid-size keyfile valid,
    (digests.sha256_32 keyfile).size,
  )

  pub read-build : read_key_chunk c key_body ≡ ok keyfile
  unfolding read_key_chunk
  read-build =
      let size = length-key_body in
      let magic : take 8 key_body ≡ key_chunk_magic = field 0 0 8 (omega arith) refl refl in
      let stored : from_le (slice 8 10 key_body) ≡ keyfile_size =
        ap from_le (field 1 8 10 (omega arith) refl refl)
        ∙ from_le-le_bytes 2 (length keyfile) (omega (arith, valid-size keyfile valid))
        ∙ valid-size keyfile valid in
      let key : slice 10 138 key_body ≡ keyfile = field 2 10 138 (omega arith) refl refl in
      let digest : drop 138 key_body ≡ c.sha256 keyfile =
        sym (take_all 32 (drop 138 key_body) (omega (arith, length-drop 138 key_body, size)))
        ∙ field 3 138 170 (omega arith) refl refl in
      rw size (
        rw magic (
          rw (bytes_eq_self key_chunk_magic) (
            rw stored
              (rw key (rw digest (rw (bytes_eq_self (c.sha256 keyfile)) (rw valid refl)))))))

-- Every body that is built has its size, and is read back.
pub built_body :
    (c : Crypto) (keyfile body : List ℕ)
    → HasDigests c
    → build_key_chunk c keyfile ≡ ok body
    → (length body ≡ 170) × (read_key_chunk c body ≡ ok keyfile)
built_body c keyfile body digests built =
    let valid = build_key_chunk-checks c keyfile body built in
    let same : key_body c keyfile digests valid ≡ body =
      ok_injective (sym (build_key_chunk-valid c keyfile digests valid) ∙ built) in
    (
      ap (λ (t : List ℕ). length t) (sym same) ∙ length-key_body c keyfile digests valid,
      ap (read_key_chunk c) (sym same) ∙ read-build c keyfile digests valid,
    )

pub starts_with_iff :
    (bytes start : List ℕ) → (starts_with bytes start ≡ true) ↔ (take (length start) bytes ≡ start)
starts_with_iff bytes start = bytes_eq_iff (take (length start) bytes) start

-- What `inject_key_chunk` has done where it succeeds.
pub inject-Inserted :
    (c : Crypto) (png keyfile out : List ℕ)
    → HasDigests c
    → inject_key_chunk c png keyfile ≡ ok out
    → (body : List ℕ) × (length body ≡ 170)
      × (read_key_chunk c body ≡ ok keyfile)
      × (starts_with png png_signature ≡ true)
      × (take 8 out ≡ png_signature)
      × Inserted png (chunk key_chunk_type body) out 8
unfolding inject_key_chunk
inject-Inserted c png keyfile out digests e =
    let (png_like, r0) =
      fail_if-eq-ok (not (starts_with png png_signature))
        (image "encoder did not produce a PNG image") _ e in
    let signed = positive (starts_with png png_signature) png_like in
    let (body, built, r1) = bind-eq-ok (build_key_chunk c keyfile) _ _ r0 in
    let ((output, inserted), walked, r2) =
      bind-eq-ok
        (insert_loop key_card_decode key_card_decode (chunk key_chunk_type body) (length png + 1)
          png 8 png_signature false)
        _ _ r1 in
    let (was_inserted, r3) =
      fail_if-eq-ok (not inserted) (image "PNG IEND chunk was not found") (ok output) r2 in
    let (size, reads) = built_body c keyfile body digests built in
    let begin : take 8 png ≡ png_signature = (starts_with_iff png png_signature).0 signed in
    let start : 8 ≤ length png =
      omega (arith, length-take 8 png, ap (λ (t : List ℕ). length t) begin) in
    let walk : Inserted png (chunk key_chunk_type body) out 8 =
      insert_loop-Inserted key_card_decode key_card_decode png _ out (length png + 1) 8 start (
        rw begin
          (walked ∙ ap₂ (λ a b. ok (a, b)) (ok_injective r3) (positive inserted was_inserted))) in
    let (rest, split) = begins walk in
    (
      body,
      size,
      reads,
      signed,
      rw split (take-append 8 (take 8 png) rest (omega (arith, length-take 8 png, start)) ∙ begin),
      walk,
    )
  where
    positive : (b : Bool) → not b ≡ false → b ≡ true
    positive true h = refl
    positive false h = cc

-- With digests of their documented sizes, for every PNG file of less than 2 ^ 62 bytes from which
-- no key is extracted, and every key capsule: where the capsule is injected, it is extracted from
-- the result.
pub extract-inject :
    (c : Crypto) (png keyfile out : List ℕ)
    → HasDigests c
    → length png < 2 ^ 62
    → extract_key_chunk c png ≡ ok none
    → inject_key_chunk c png keyfile ≡ ok out
    → extract_key_chunk c out ≡ ok (some keyfile)
unfolding extract_key_chunk
extract-inject c png keyfile out digests small none_yet e =
    let (body, size, reads, signed, out_begin, walk) =
      inject-Inserted c png keyfile out digests e in
    let room : length out < 2 ^ 63 =
      omega (arith, length-out walk, length-chunk key_chunk_type body refl, size, small) in
    rw ((starts_with_iff out png_signature).1 out_begin) (
      extract_loop-Inserted c png out body keyfile (omega (arith, size)) (omega (arith, small)) room
        reads walk (length png + 1) (length out + 1) (omega arith) (omega arith)
        (rw signed at none_yet))
