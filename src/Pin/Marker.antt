-- ===== src/Pin/Marker.antt =====
-- The marker of PIN cards: adding it leaves the key that is extracted as it was, and makes the
-- marker present.
use or_isy_vra.Base.{
  ℕ, zero, suc, ◌+◌, ◌^◌, ◌≤◌, ◌<◌, ◌≡◌, refl, ap, ap₂, sym, ◌∙◌, arith, inl, inr, List, ◌++◌,
  length, take, Option, none, Bool, true, false, not, if◌then◌else◌, lt→ltb, le→leb, Bool-cases,
  ==_self, length-take, take-append,
}
use or_isy_vra.Base.Bytes.{slice, bytes_eq, bytes_eq_self}
use or_isy_vra.Base.Slices.{slice-agree}
use or_isy_vra.Base.Results.{ok, bind-eq-ok, fail_if-eq-ok, ok_injective}
use or_isy_vra.Errors.{Checked}
use or_isy_vra.Crypto.{Crypto}
use or_isy_vra.Png.{
  png_signature, iend, starts_with, to_be_bytes, chunk_length, chunk_type, crc32, insert_loop,
}
use or_isy_vra.Png.Insert.{
  chunk_end, Inserted, here, later, begins, length-out, insert_loop-Inserted,
}
use or_isy_vra.Png.Plain.{Plain-next, Plain, IsPlainPng, insert_loop-Plain}
use or_isy_vra.Png.Reading.{
  ReadsAs, chunk_length-agree, chunk_type-agree, length-chunk, from_be-to_be, crc32-lt,
}
use or_isy_vra.Png.Kept.{longer, new_chunk, iend_behind, EndsAt}
use or_isy_vra.Keycard.{key_chunk_type, extract_loop, extract_key_chunk, read_key_chunk, found}
use or_isy_vra.Keycard.Chunk.{extract_loop_round, iend-ne-key}
use or_isy_vra.Keycard.RoundTrip.{starts_with_iff}
use or_isy_vra.Pin.{
  message, pin_marker, pin_chunk_type, pin_chunk_data, check_marker, marker_loop, marker_present,
  add_pin_marker,
}

pin-ne-key : bytes_eq pin_chunk_type key_chunk_type ≡ false
unfolding bytes_eq
pin-ne-key = refl

pin-ne-iend : bytes_eq pin_chunk_type iend ≡ false
unfolding bytes_eq
pin-ne-iend = refl

length-marker : length pin_marker ≡ 24
length-marker = length-chunk pin_chunk_type pin_chunk_data refl

marker_at :
    (png out : List ℕ) (k : ℕ) (post : List ℕ)
    → k ≤ length png
    → out ≡ take k png ++ (pin_marker ++ post)
    → ReadsAs out k pin_chunk_type pin_chunk_data
marker_at png out = new_chunk png out pin_chunk_type pin_chunk_data refl (omega arith)

behind :
    (png out : List ℕ) (k : ℕ)
    → chunk_end png k ≤ length png
    → chunk_type png k ≡ iend
    → out ≡ take k png ++ (pin_marker ++ slice k (chunk_end png k) png)
    → EndsAt out (k + 24)
behind png out k =
    iend_behind png out pin_chunk_type pin_chunk_data refl (omega arith) k (k + 24) (omega arith)

module _ (png out : List ℕ) where
  module _ (c : Crypto) (small : length png < 2 ^ 62) (small' : length out < 2 ^ 63) where
    extract_loop-marked :
        {k : ℕ}
        → Inserted png pin_marker out k
        → (f g : ℕ) → length png < f + k
        → length out < g + k
        → extract_loop c g out k ≡ extract_loop c f png k
    extract_loop-marked (here k le t o) zero g p q = absurd (omega (arith, p, le))
    extract_loop-marked (here k le t o) (suc f) zero p q =
        absurd (omega (arith, q, (behind png out k le t o).inside))
    extract_loop-marked (here k le t o) (suc f) (suc zero) p q =
        absurd (omega (arith, q, (behind png out k le t o).inside))
    extract_loop-marked (here k le t o) (suc f) (suc (suc g)) p q =
        let r = marker_at png out k _ (omega (arith, le)) o in
        let end = behind png out k le t o in
        let there : k + 8 + 12 + 4 ≡ k + 24 = omega arith in
        let last : extract_loop c (suc g) out (k + 24) ≡ ok none =
          extract_loop_round c g out (k + 24) _ iend refl end.type end.inside small'
          ∙ rw iend-ne-key (rw (bytes_eq_self iend) refl) in
        let marked : extract_loop c (suc (suc g)) out k ≡ ok none =
          extract_loop_round c (suc g) out k 12 pin_chunk_type r.size r.type r.inside small'
          ∙ rw pin-ne-key (rw pin-ne-iend (rw there last)) in
        let plain : extract_loop c (suc f) png k ≡ ok none =
          extract_loop_round c f png k _ iend refl t le (omega (arith, small))
          ∙ rw iend-ne-key (rw (bytes_eq_self iend) refl) in
        marked ∙ sym plain
    extract_loop-marked (later k e rest y le ne o w) zero g p q = absurd (omega (arith, p, y, le))
    extract_loop-marked (later k e rest y le ne o w) (suc f) zero p q = absurd (
        omega (
          arith,
          q,
          y,
          longer png out pin_chunk_type pin_chunk_data refl (omega arith) e rest le o,
        ))
    extract_loop-marked (later k e rest y le ne o w) (suc f) (suc g) p q =
        let n = chunk_length png k in
        let kind = chunk_type png k in
        let same_length : chunk_length out k ≡ n =
          rw (← o) at (chunk_length-agree k e png rest le (omega (arith, y))) in
        let same_type : chunk_type out k ≡ kind =
          rw (← o) at (chunk_type-agree k e png rest le (omega (arith, y))) in
        let same_body : slice (k + 8) (k + 8 + n) out ≡ slice (k + 8) (k + 8 + n) png =
          rw (← o) at
            (slice-agree (k + 8) (k + 8 + n) e png rest (omega arith) (omega (arith, y)) le) in
        let at_end : k + 8 + n + 4 ≡ e = omega (arith, y) in
        let goes_on : Checked (Option (List ℕ)) =
          if bytes_eq kind key_chunk_type
          then found (read_key_chunk c (slice (k + 8) (k + 8 + n) png))
          else extract_loop c f png e in
        let marked : extract_loop c (suc g) out k ≡ goes_on =
          extract_loop_round c g out k n kind same_length same_type
            (omega (
              arith,
              y,
              longer png out pin_chunk_type pin_chunk_data refl (omega arith) e rest le o,
            ))
            small'
          ∙ rw same_body (
              rw ne (
                rw at_end (
                  rw (extract_loop-marked w f g (omega (arith, p, y)) (omega (arith, q, y)))
                    refl))) in
        let plain : extract_loop c (suc f) png k ≡ goes_on =
          extract_loop_round c f png k n kind refl refl (omega (arith, y, le))
            (omega (arith, small))
          ∙ rw ne (rw at_end refl) in
        marked ∙ sym plain

-- What `add_pin_marker` has done where it succeeds and the marker was not there.
marked-Inserted :
    (png out : List ℕ)
    → marker_present png ≡ false
    → add_pin_marker png ≡ ok out
    → (starts_with png png_signature ≡ true) × Inserted png pin_marker out 8
unfolding add_pin_marker
marked-Inserted png out absent e =
    let (png_like, r0) =
      fail_if-eq-ok (not (starts_with png png_signature)) (message "PIN visual key is not a PNG") _
        (rw absent at e) in
    let signed = positive (starts_with png png_signature) png_like in
    let begin : take 8 png ≡ png_signature = (starts_with_iff png png_signature).0 signed in
    let ((output, inserted), walked, r1) =
      bind-eq-ok
        (insert_loop (message "invalid PNG chunk length") (message "truncated PNG") pin_marker
          (length png + 1) png 8 png_signature false)
        _ _ r0 in
    let (was_inserted, r2) =
      fail_if-eq-ok (not inserted) (message "PNG IEND chunk was not found") (ok output) r1 in
    let start : 8 ≤ length png =
      omega (arith, length-take 8 png, ap (λ (t : List ℕ). length t) begin) in
    (
      signed,
      insert_loop-Inserted (message "invalid PNG chunk length") (message "truncated PNG") png _ out
          (length png + 1) 8 start
          (rw begin
            (walked ∙ ap₂ (λ a b. ok (a, b)) (ok_injective r2) (positive inserted was_inserted))),
    )
  where
    positive : (b : Bool) → not b ≡ false → b ≡ true
    positive true h = refl
    positive false h = cc

signed-out :
    (png out : List ℕ)
    → starts_with png png_signature ≡ true
    → Inserted png pin_marker out 8
    → starts_with out png_signature ≡ true
signed-out png out signed walk =
    let begin : take 8 png ≡ png_signature = (starts_with_iff png png_signature).0 signed in
    let (rest, split) = begins walk in
    let size : length (take 8 png) ≡ 8 = ap (λ (t : List ℕ). length t) begin in
    (starts_with_iff out png_signature).1
      (rw split (take-append 8 (take 8 png) rest (sym size) ∙ begin))

add_again : (png out : List ℕ) → add_pin_marker png ≡ ok out → marker_present png ≡ true → out ≡ png
unfolding add_pin_marker
add_again png out e present = sym (ok_injective (rw present at e))

-- For every file of less than 2 ^ 62 bytes: where `add_pin_marker` succeeds, the extraction of the
-- key gives the same result on the marked file as before, errors included.
pub extract-add_pin_marker :
    (c : Crypto) (png out : List ℕ)
    → length png < 2 ^ 62
    → add_pin_marker png ≡ ok out
    → extract_key_chunk c out ≡ extract_key_chunk c png
unfolding extract_key_chunk
extract-add_pin_marker c png out small e = elim (Bool-cases (marker_present png)) [
  | inl present ↦ rw (add_again png out e present) refl
  | inr absent ↦
      let (signed, walk) = marked-Inserted png out absent e in
      rw (signed-out png out signed walk) (
        rw signed (
          extract_loop-marked png out c small (omega (arith, small, length-out walk, length-marker))
            walk (length png + 1) (length out + 1) (omega arith) (omega arith)))
]

-- One round of `marker_loop` at a chunk that lies in the file.
marker_loop_round :
    (fuel : ℕ) (xs : List ℕ) (k n : ℕ) (kind : List ℕ)
    → chunk_length xs k ≡ n
    → chunk_type xs k ≡ kind
    → k + 12 + n ≤ length xs
    → length xs < 2 ^ 63
    → marker_loop (suc fuel) xs k ≡ (
        if bytes_eq kind pin_chunk_type
        then check_marker (slice (k + 8) (k + 8 + n) xs) (slice (k + 8 + n) (k + 8 + n + 4) xs)
        else if bytes_eq kind iend
        then false
        else marker_loop fuel xs (k + 8 + n + 4))
unfolding marker_loop
marker_loop_round fuel xs k n kind size type fits small =
    let data_end : k + (8 + n) ≡ k + 8 + n = omega arith in
    rw size (
      rw type (
        rw data_end (
          rw (le→leb (k + 12) (length xs) (omega arith)) (
            rw (lt→ltb (k + 8 + n + 4) (2 ^ 64) (omega arith))
              (rw (le→leb (k + 8 + n + 4) (length xs) (omega arith)) refl)))))

marker_sound :
    check_marker pin_chunk_data (to_be_bytes (crc32 (pin_chunk_type ++ pin_chunk_data))) ≡ true
unfolding check_marker
marker_sound = rw (bytes_eq_self pin_chunk_data) (
    rw (from_be-to_be (crc32 (pin_chunk_type ++ pin_chunk_data)) (crc32-lt _))
      (==_self (crc32 (pin_chunk_type ++ pin_chunk_data))))

module _ (png out : List ℕ) (small' : length out < 2 ^ 63) where
  -- The marker that was put into a file without markers is found.
  marker_loop-marked :
      {k : ℕ}
      → Plain pin_chunk_type png k
      → Inserted png pin_marker out k
      → (g : ℕ) → length out < g + k
      → marker_loop g out k ≡ true
  marker_loop-marked plain (here k le t o) zero q =
      absurd (omega (arith, q, (marker_at png out k _ (omega (arith, le)) o).inside))
  marker_loop-marked plain (here k le t o) (suc g) q =
      let r = marker_at png out k _ (omega (arith, le)) o in
      marker_loop_round g out k 12 pin_chunk_type r.size r.type r.inside small'
      ∙ rw (bytes_eq_self pin_chunk_type) (rw r.body_bytes (rw r.crc (marker_sound)))
  marker_loop-marked plain (later k e rest y le ne o w) zero q = absurd (
      omega
        (arith, q, y, longer png out pin_chunk_type pin_chunk_data refl (omega arith) e rest le o))
  marker_loop-marked plain (later k e rest y le ne o w) (suc g) q =
      let (other, plain_next) = Plain-next plain ne in
      let at_end : k + 8 + chunk_length png k + 4 ≡ e = omega (arith, y) in
      marker_loop_round g out k (chunk_length png k) (chunk_type png k)
        (rw (← o) at (chunk_length-agree k e png rest le (omega (arith, y))))
        (rw (← o) at (chunk_type-agree k e png rest le (omega (arith, y))))
        (omega
          (arith, y, longer png out pin_chunk_type pin_chunk_data refl (omega arith) e rest le o))
        small'
      ∙ rw other (
          rw ne (rw at_end (marker_loop-marked (rw (← y) at plain_next) w g (omega (arith, q, y)))))

added_before : (png : List ℕ) → marker_present png ≡ true → add_pin_marker png ≡ ok png
unfolding add_pin_marker
added_before png present = rw present refl

added_now :
    (png out : List ℕ)
    → marker_present png ≡ false
    → starts_with png png_signature ≡ true
    → insert_loop
        (message "invalid PNG chunk length")
        (message "truncated PNG")
        pin_marker
        (length png + 1)
        png
        8
        png_signature
        false
      ≡ ok (out, true)
    → add_pin_marker png ≡ ok out
unfolding add_pin_marker
added_now png out absent signed walked = rw absent (rw signed (rw walked refl))

present_of :
    (out : List ℕ)
    → starts_with out png_signature ≡ true
    → marker_loop (length out + 1) out 8 ≡ true
    → marker_present out ≡ true
unfolding marker_present
present_of out signed there = rw signed there

-- On a PNG file without PIN markers, of less than 2 ^ 62 bytes, `add_pin_marker` succeeds, and the
-- marker is present in its result.
pub marker_present-add_pin_marker :
    (png : List ℕ)
    → IsPlainPng pin_chunk_type png
    → (out : List ℕ) × (add_pin_marker png ≡ ok out) × (marker_present out ≡ true)
marker_present-add_pin_marker png plain = elim (Bool-cases (marker_present png)) [
  | inl present ↦ (png, added_before png present, present)
  | inr absent ↦
      let signed = (starts_with_iff png png_signature).1 plain.signed in
      let (out, walked) =
        insert_loop-Plain (message "invalid PNG chunk length") (message "truncated PNG")
          pin_chunk_type png pin_marker plain.small plain.chunks (length png + 1) (omega arith) in
      let added = added_now png out absent signed (rw plain.signed at walked) in
      let (same, walk) = marked-Inserted png out absent added in
      let room : length out < 2 ^ 63 = omega (arith, plain.small, length-out walk, length-marker) in
      (
        out,
        added,
        present_of out (signed-out png out signed walk)
            (marker_loop-marked png out room plain.chunks walk (length out + 1) (omega arith)),
      )
]
