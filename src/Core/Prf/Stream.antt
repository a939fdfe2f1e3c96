-- ===== src/Core/Prf/Stream.antt =====
-- The output of `prf_parts` as the beginning of a stream of blocks.
use Prim.Native.Nat.{bit_xor}
use or_isy_vra.Base.{
  ℕ, zero, suc, ◌+◌, ◌-◌, ◌*◌, ◌%◌, ◌^◌, ◌≤◌, ◌<◌, ◌≡◌, refl, ap, ap₂, ◌∙◌, sym, arith, inl, inr,
  List, [], ◌∷◌, ◌++◌, length, take, set, ltb, min, Bool-cases, take-append, append-nil,
  get_or-set_ne,
}
use or_isy_vra.Base.Words.{wrapping_add}
use or_isy_vra.Base.Loops.{for_range}
use or_isy_vra.Base.Bytes.{le_bytes, length-le_bytes}
use or_isy_vra.Base.Fields.{concat, HasSizes, write_fields_lem, length-concat}
use or_isy_vra.Base.Slices.{take-append_ge}
use or_isy_vra.Core.Permutation.{rate_bytes, at, permute}
use or_isy_vra.Core.Prf.{
  Domain, block_of, next_state, squeeze_loop, squeeze, absorb_parts, finalize, new, prf_parts,
}

-- The six rate lanes of a state in little endian.
abbrev lanes : List ℕ → List (List ℕ)
lanes state =
    le_bytes 8 (at state 0)
    ∷ le_bytes 8 (at state 1)
    ∷ le_bytes 8 (at state 2)
    ∷ le_bytes 8 (at state 3)
    ∷ le_bytes 8 (at state 4)
    ∷ le_bytes 8 (at state 5)
    ∷ []

-- The state behind a block: the number of the coming block goes into lane 10, a constant is added to
-- lane 11, and all is permuted.
abbrev advanced : List ℕ → ℕ → List ℕ
advanced state j = permute (
    set (set state 10 (bit_xor (at state 10) (j % 2 ^ 64))) 11
      ((at state 11 + 0x9e37_79b9_7f4a_7c15) % 2 ^ 64))

-- So many blocks, from the one with the number `j` on.
unfoldable pub key_stream : List ℕ → ℕ → ℕ → List ℕ
key_stream state j zero = []
key_stream state j (suc m) = concat (lanes state) ++ key_stream (advanced state (j + 1)) (j + 1) m

abbrev sizes : List ℕ
sizes = 8 ∷ 8 ∷ 8 ∷ 8 ∷ 8 ∷ 8 ∷ []

lanes-HasSizes : (state : List ℕ) → HasSizes sizes (lanes state)
lanes-HasSizes state = (
  length-le_bytes 8 (at state 0),
  (
    length-le_bytes 8 (at state 1),
    (
      length-le_bytes 8 (at state 2),
      (
        length-le_bytes 8 (at state 3),
        (length-le_bytes 8 (at state 4), (length-le_bytes 8 (at state 5), tt)),
      ),
    ),
  ),
)

block_of-lanes : (state : List ℕ) → block_of state ≡ concat (lanes state)
unfolding block_of for_range
block_of-lanes state = write_fields_lem sizes (lanes state) 0 (lanes-HasSizes state) ∙ append-nil _

block-length : (state : List ℕ) → length (concat (lanes state)) ≡ rate_bytes
block-length state = length-concat sizes (lanes state) (lanes-HasSizes state)

next_state-advanced : (state : List ℕ) (j : ℕ) → next_state state (j % 2 ^ 64) ≡ advanced state j
unfolding next_state wrapping_add
next_state-advanced state j =
    rw (get_or-set_ne state 10 11 (bit_xor (at state 10) (j % 2 ^ 64)) 0 (λ e. omega (arith, e)))
      refl

next_number : (j : ℕ) → wrapping_add (j % 2 ^ 64) 1 ≡ (j + 1) % 2 ^ 64
unfolding wrapping_add
next_number j = omega arith

take-across :
    (n : ℕ) (xs ys : List ℕ) → length xs ≤ n → take n (xs ++ ys) ≡ xs ++ take (n - length xs) ys
take-across n [] ys h = ap (λ (t : ℕ). take t ys) {x = n} {y = n - 0} (omega arith)
take-across zero (x ∷ xs) ys h = absurd (omega (arith, h))
take-across (suc n) (x ∷ xs) ys h =
    ap (λ t. x ∷ t)
      (take-across n xs ys (omega (arith, h))
        ∙ ap (λ (t : ℕ). xs ++ take t ys) {x = n - length xs} {y = suc n - suc (length xs)}
            (omega arith))

squeeze_loop-stream :
    (fuel : ℕ) (state : List ℕ) (j left m : ℕ)
    → left ≤ fuel
    → left ≤ rate_bytes * m
    → squeeze_loop fuel state (j % 2 ^ 64) left ≡ take left (key_stream state j m)
unfolding squeeze_loop key_stream
squeeze_loop-stream zero state j left m h room =
    ap (λ (t : ℕ). take t (key_stream state j m)) {x = 0} {y = left} (omega (arith, h))
squeeze_loop-stream (suc fuel) state j left zero h room =
    let none : left ≡ 0 = omega (arith, room) in rw none refl
squeeze_loop-stream (suc fuel) state j left (suc m) h room =
    let n = min left rate_bytes in
    let block = concat (lanes state) in
    let rest = key_stream (advanced state (j + 1)) (j + 1) m in
    elim (Bool-cases (ltb 0 left)) [
      | inr none_left ↦ let none : left ≡ 0 = ground arith in rw none refl
      | inl some_left ↦ rw some_left (elim (Bool-cases (ltb n left)) [
        | inr last ↦
            let within : left ≤ rate_bytes = ground arith in
            let all : n ≡ left = omega (arith, within) in
            rw last (
              ap₂ (λ (t : ℕ) (b : List ℕ). take t b) all (block_of-lanes state)
              ∙ sym (take-append_ge left block rest (omega (arith, within, block-length state))))
        | inl more ↦
            let beyond : rate_bytes < left = ground arith in
            let whole : n ≡ rate_bytes = omega (arith, beyond) in
            let left_over : left - n ≡ left - rate_bytes = omega (arith, whole) in
            rw more (
              ap₂ (λ (b t : List ℕ). b ++ t)
                (ap₂ (λ (t : ℕ) (b : List ℕ). take t b) whole (block_of-lanes state)
                  ∙ sym (ap (take rate_bytes) (append-nil block))
                  ∙ take-append rate_bytes block [] (sym (block-length state)))
                (ap₂ (λ (i : ℕ) (t : ℕ). squeeze_loop fuel (next_state state i) i t) (next_number j)
                    left_over
                  ∙ ap (λ t. squeeze_loop fuel t ((j + 1) % 2 ^ 64) (left - rate_bytes))
                      (next_state-advanced state (j + 1))
                  ∙ squeeze_loop-stream fuel (advanced state (j + 1)) (j + 1) (left - rate_bytes) m
                      (omega (arith, h, beyond)) (omega (arith, room)))
              ∙ ap (λ (t : ℕ). block ++ take (left - t) rest) (sym (block-length state))
              ∙ sym (take-across left block rest (omega (arith, beyond, block-length state))))
      ])
    ]

-- For every key, domain, list of parts and length: the output of `prf_parts` is the beginning of the
-- stream of blocks of the finalized sponge, each block the rate lanes of its state in little endian.
-- Between two blocks the number of the next one goes into lane 10, a constant is added to lane 11,
-- and the state is permuted. Blocks enough for a block a byte are named; fewer would do.
pub prf_parts-key_stream :
    (key : List ℕ) (domain : Domain) (parts : List (List ℕ)) (n : ℕ)
    → prf_parts key domain parts n
      ≡ take n (key_stream (finalize (absorb_parts (new key domain) parts) key n).state 0 n)
unfolding prf_parts squeeze
prf_parts-key_stream key domain parts n =
    squeeze_loop-stream n (finalize (absorb_parts (new key domain) parts) key n).state 0 n n
      (omega arith) (omega arith)
