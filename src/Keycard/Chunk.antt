-- ===== src/Keycard/Chunk.antt =====
-- The key chunk: reading back what was built, and what was injected into a PNG file.
use or_isy_vra.Base.{
  ℕ, zero, suc, ◌+◌, ◌^◌, ◌≤◌, ◌<◌, ◌≡◌, refl, sym, ◌∙◌, arith, List, ◌++◌, length, take, Option,
  none, some, Bool, true, false, if◌then◌else◌, le→leb, ltb-false,
}
use or_isy_vra.Base.Bytes.{slice, bytes_eq, bytes_eq_self}
use or_isy_vra.Base.Results.{ok, err, stuck, checked_add}
use or_isy_vra.Errors.{Checked}
use or_isy_vra.Crypto.{Crypto}
use or_isy_vra.Png.{iend, chunk_length, chunk_type, chunk}
use or_isy_vra.Png.Plain.{Plain, final, more}
use or_isy_vra.Png.Insert.{Inserted, here, later}
use or_isy_vra.Png.Reading.{chunk_length-agree, chunk_type-agree}
use or_isy_vra.Png.Kept.{longer, new_chunk}
use or_isy_vra.Keycard.{key_chunk_type, read_key_chunk, found, extract_loop}

add-lt : (a b : ℕ) → a + b < 2 ^ 64 → checked_add a b ≡ some (a + b)
add-lt a b h = ground arith

-- One round of `extract_loop` at a chunk that lies in the file.
pub extract_loop_round :
    (c : Crypto) (fuel : ℕ) (xs : List ℕ) (k n : ℕ) (kind : List ℕ)
    → chunk_length xs k ≡ n
    → chunk_type xs k ≡ kind
    → k + 12 + n ≤ length xs
    → length xs < 2 ^ 63
    → extract_loop c (suc fuel) xs k ≡ (
        if bytes_eq kind key_chunk_type
        then found (read_key_chunk c (slice (k + 8) (k + 8 + n) xs))
        else if bytes_eq kind iend
        then ok none
        else extract_loop c fuel xs (k + 8 + n + 4))
unfolding extract_loop
extract_loop_round c fuel xs k n kind size type fits small =
    rw (le→leb (k + 12) (length xs) (omega arith)) (
      rw size (
        rw (add-lt (k + 8) n (omega arith)) (
          rw (add-lt (k + 8 + n) 4 (omega arith))
            (rw (ltb-false (length xs) (k + 8 + n + 4) (omega arith)) (rw type refl)))))

pub extract_loop_end :
    (c : Crypto) (fuel : ℕ) (xs : List ℕ) (k : ℕ)
    → length xs < k + 12
    → extract_loop c (suc fuel) xs k ≡ ok none
unfolding extract_loop
extract_loop_end c fuel xs k h = ground arith

pub iend-ne-key : bytes_eq iend key_chunk_type ≡ false
unfolding bytes_eq
iend-ne-key = refl

not_found : (r : Checked (List ℕ)) → found r ≡ ok none → ⊥
not_found (ok a) e = absurd (ground arith)
not_found (err x) e = absurd (ground arith)
not_found stuck e = absurd (ground arith)

-- A chunk that is passed over by an extraction without a result.
passed :
    (key last : Bool) (r : Checked (List ℕ)) (rest : Checked (Option (List ℕ)))
    → last ≡ false
    → (if key then found r else if last then ok none else rest) ≡ ok none
    → (key ≡ false) × (rest ≡ ok none)
passed true last r rest l e = absurd (not_found r e)
passed false true r rest l e = absurd (cc)
passed false false r rest l e = (refl, e)

module _ (c : Crypto) (png out body keyfile : List ℕ) (short : length body < 2 ^ 32)
    (small : length png < 2 ^ 63) (small' : length out < 2 ^ 63)
    (reads : read_key_chunk c body ≡ ok keyfile) where
  -- The new chunk is the first that the loop stops at.
  at_new :
      (k g : ℕ) (post : List ℕ)
      → k ≤ length png
      → out ≡ take k png ++ (chunk key_chunk_type body ++ post)
      → extract_loop c (suc g) out k ≡ ok (some keyfile)
  at_new k g post h o =
      let r = new_chunk png out key_chunk_type body refl short k post h o in
      extract_loop_round c g out k (length body) key_chunk_type r.size r.type r.inside small'
      ∙ rw (bytes_eq_self key_chunk_type) (rw r.body_bytes (rw reads refl))

  pub extract_loop-Inserted :
      {k : ℕ}
      → Inserted png (chunk key_chunk_type body) out k
      → (f g : ℕ) → length png < f + k
      → length out < g + k
      → extract_loop c f png k ≡ ok none
      → extract_loop c g out k ≡ ok (some keyfile)
  extract_loop-Inserted (here k le e o) f zero p q x = absurd (
      omega (
        arith,
        q,
        (new_chunk png out key_chunk_type body refl short k _ (omega (arith, le)) o).inside,
      ))
  extract_loop-Inserted (here k le e o) f (suc g) p q x = at_new k g _ (omega (arith, le)) o
  extract_loop-Inserted (later k e rest y le ne o w) zero g p q x = absurd (omega (arith, p, y, le))
  extract_loop-Inserted (later k e rest y le ne o w) (suc f) zero p q x =
      absurd (omega (arith, q, y, longer png out key_chunk_type body refl short e rest le o))
  extract_loop-Inserted (later k e rest y le ne o w) (suc f) (suc g) p q x =
      let n = chunk_length png k in
      let kind = chunk_type png k in
      let png_round = extract_loop_round c f png k n kind refl refl (omega (arith, y, le)) small in
      let (other, goes_on) = passed _ _ _ _ ne (sym png_round ∙ x) in
      let same_length : chunk_length out k ≡ n =
        rw (← o) at (chunk_length-agree k e png rest le (omega (arith, y))) in
      let same_type : chunk_type out k ≡ kind =
        rw (← o) at (chunk_type-agree k e png rest le (omega (arith, y))) in
      let at_end : k + 8 + n + 4 ≡ e = omega (arith, y) in
      extract_loop_round c g out k n kind same_length same_type
        (omega (arith, y, longer png out key_chunk_type body refl short e rest le o)) small'
      ∙ rw other (
          rw ne (
            rw at_end (
              extract_loop-Inserted w f g (omega (arith, p, y)) (omega (arith, q, y))
                (rw at_end at goes_on))))

-- On a file without key chunks nothing is found.
pub extract_loop-Plain :
    (c : Crypto) (png : List ℕ)
    → length png < 2 ^ 62
    → {k : ℕ} → Plain key_chunk_type png k
    → (fuel : ℕ) → length png < fuel + k
    → extract_loop c fuel png k ≡ ok none
extract_loop-Plain c png small (final k le t) zero h = absurd (omega (arith, h, le))
extract_loop-Plain c png small (final k le t) (suc fuel) h =
    extract_loop_round c fuel png k (chunk_length png k) iend refl t le (omega (arith, small))
    ∙ rw iend-ne-key (rw (bytes_eq_self iend) refl)
extract_loop-Plain c png small (more k e x le ne nk w) zero h = absurd (omega (arith, h, le, x))
extract_loop-Plain c png small (more k e x le ne nk w) (suc fuel) h =
    let at_end : k + 8 + chunk_length png k + 4 ≡ e = omega (arith, x) in
    extract_loop_round c fuel png k (chunk_length png k) (chunk_type png k) refl refl
      (omega (arith, x, le)) (omega (arith, small))
    ∙ rw nk (rw ne (rw at_end (extract_loop-Plain c png small w fuel (omega (arith, h, x)))))
