-- ===== src/Core/Prf/Output.antt =====
-- What `prf_parts` returns, and that its length prefixes keep the parts apart.
use or_isy_vra.Base.{
  ℕ, zero, suc, ◌+◌, ◌-◌, ◌*◌, ◌^◌, ◌≤◌, ◌<◌, ◌≡◌, refl, ap, ◌∙◌, sym, arith, List, [], ◌∷◌, ◌++◌,
  length, take, drop, replicate, ltb, min, inl, inr, Bool-cases, ltb→lt, All, All-append, All-take,
  All-replicate, length-append, length-take, length-replicate, take-append, drop-append, ap₂,
}
use or_isy_vra.Base.Words.{IsByte, wrapping_add}
use or_isy_vra.Base.Loops.{for_range_keep}
use or_isy_vra.Base.Bytes.{
  IsBytes, le_bytes, copy_at, length-copy_at, copy_at-IsByte, le_bytes-IsByte, length-le_bytes,
  from_le, from_le-le_bytes,
}
use or_isy_vra.Core.Permutation.{rate_bytes, at}
use or_isy_vra.Core.Prf.{
  Domain, block_of, next_state, squeeze_loop, squeeze, prf_parts, mac32, derive_key, tag_size,
  key_size,
}
use or_isy_vra.Core.Prf.Absorb.{encode_parts}

block_of-IsBytes : (state : List ℕ) → IsBytes rate_bytes (block_of state)
unfolding block_of
block_of-IsBytes state =
    for_range_keep {P = IsBytes rate_bytes}
      (λ lane block. copy_at (lane * 8) (le_bytes 8 (at state lane)) block) 6 0 6
      (replicate rate_bytes 0)
      (λ lane block _ h. record {
        size = length-copy_at (lane * 8) (le_bytes 8 (at state lane)) block ∙ h.size;
        all =
            copy_at-IsByte (lane * 8) (le_bytes 8 (at state lane)) block
              (le_bytes-IsByte 8 (at state lane)) h.all;
      })
      (omega arith)
      (record {
        size = length-replicate {A = ℕ} rate_bytes 0;
        all = All-replicate IsByte rate_bytes 0 (omega arith);
      })

taken-IsBytes : (state : List ℕ) (n : ℕ) → n ≤ rate_bytes → IsBytes n (take n (block_of state))
taken-IsBytes state n h = record {
  size = length-take n (block_of state) ∙ omega (arith, (block_of-IsBytes state).size);
  all = All-take IsByte n (block_of state) (block_of-IsBytes state).all;
}

IsBytes-append :
    (n m k : ℕ) (xs ys : List ℕ) → IsBytes n xs → IsBytes m ys → n + m ≡ k → IsBytes k (xs ++ ys)
IsBytes-append n m k xs ys h g e = record {
  size = length-append xs ys ∙ omega (arith, h.size, g.size);
  all = All-append IsByte xs ys h.all g.all;
}

squeeze_loop-IsBytes :
    (fuel : ℕ) (state : List ℕ) (block_index left : ℕ)
    → left ≤ fuel
    → IsBytes left (squeeze_loop fuel state block_index left)
unfolding squeeze_loop
squeeze_loop-IsBytes zero state block_index left h = record { size = omega arith; all = tt }
squeeze_loop-IsBytes (suc fuel) state block_index left h =
    let n = min left rate_bytes in
    let i = wrapping_add block_index 1 in
    elim (Bool-cases (ltb 0 left)) [
      | inl some_left ↦ rw some_left (elim (Bool-cases (ltb n left)) [
        | inl more ↦ rw more (
            IsBytes-append n (left - n) left (take n (block_of state)) _
              (taken-IsBytes state n (omega arith))
              (squeeze_loop-IsBytes fuel (next_state state i) i (left - n)
                (omega (arith, ltb→lt 0 left some_left)))
              (omega arith))
        | inr last ↦
            let e : left ≡ n = ground arith in
            let t = taken-IsBytes state n (omega arith) in
            rw last (record { size = t.size ∙ sym e; all = t.all })
      ])
      | inr none_left ↦ rw none_left (record { size = ground arith; all = tt })
    ]

-- `prf_parts` fills the whole output, of whatever length, with bytes: the loop of `squeeze` never
-- stops early.
pub prf_parts-IsBytes :
    (key : List ℕ) (domain : Domain) (parts : List (List ℕ)) (n : ℕ)
    → IsBytes n (prf_parts key domain parts n)
unfolding prf_parts squeeze
prf_parts-IsBytes key domain parts n = squeeze_loop-IsBytes n _ 0 n (omega arith)

pub mac32-IsBytes :
    (key : List ℕ) (domain : Domain) (parts : List (List ℕ))
    → IsBytes tag_size (mac32 key domain parts)
unfolding mac32
mac32-IsBytes key domain parts = prf_parts-IsBytes key domain parts tag_size

pub derive_key-IsBytes :
    (master_key label context : List ℕ) → IsBytes key_size (derive_key master_key label context)
unfolding derive_key
derive_key-IsBytes master_key label context = prf_parts-IsBytes master_key _ _ key_size

-- Where two encodings agree, so do their first parts and the encodings of the others.
parts_head :
    (p q : List ℕ) (ps qs : List (List ℕ))
    → length p < 2 ^ 64
    → length q < 2 ^ 64
    → encode_parts (p ∷ ps) ≡ encode_parts (q ∷ qs)
    → (p ≡ q) × (encode_parts ps ≡ encode_parts qs)
unfolding encode_parts
parts_head p q ps qs hp hq e = (
  sym (take-append (length p) p _ refl)
      ∙ ap (take (length p)) tails
      ∙ take-append (length p) q _ lengths,
  sym (drop-append (length p) p _ refl)
      ∙ ap (drop (length p)) tails
      ∙ drop-append (length p) q _ lengths,
)
  where
    tails : p ++ encode_parts ps ≡ q ++ encode_parts qs
    tails =
        sym (drop-append 8 (le_bytes 8 (length p)) _ (sym (length-le_bytes 8 (length p))))
        ∙ ap (drop 8) e
        ∙ drop-append 8 (le_bytes 8 (length q)) _ (sym (length-le_bytes 8 (length q)))

    prefixes : le_bytes 8 (length p) ≡ le_bytes 8 (length q)
    prefixes =
        sym (take-append 8 (le_bytes 8 (length p)) _ (sym (length-le_bytes 8 (length p))))
        ∙ ap (take 8) e
        ∙ take-append 8 (le_bytes 8 (length q)) _ (sym (length-le_bytes 8 (length q)))

    lengths : length p ≡ length q
    lengths =
        sym (from_le-le_bytes 8 (length p) hp)
        ∙ ap from_le prefixes
        ∙ from_le-le_bytes 8 (length q) hq

encoding_not_empty : (p : List ℕ) (ps : List (List ℕ)) → length (encode_parts (p ∷ ps)) ≡ 0 → ⊥
unfolding encode_parts
encoding_not_empty p ps e = omega (
  arith,
  e,
  length-append (le_bytes 8 (length p)) (p ++ encode_parts ps),
  length-le_bytes 8 (length p),
)

-- The boundaries of the parts are unambiguous: two lists of parts, each part shorter than 2 ^ 64
-- bytes, with the same encoding, and so the same input to the sponge, are the same list.
pub encode_parts_injective :
    (ps qs : List (List ℕ))
    → All (λ p. length p < 2 ^ 64) ps
    → All (λ q. length q < 2 ^ 64) qs
    → encode_parts ps ≡ encode_parts qs
    → ps ≡ qs
encode_parts_injective [] [] hp hq e = refl
encode_parts_injective [] (q ∷ qs) hp hq e =
    absurd (encoding_not_empty q qs (ap length (sym e) ∙ unfold encode_parts in refl))
encode_parts_injective (p ∷ ps) [] hp hq e =
    absurd (encoding_not_empty p ps (ap length e ∙ unfold encode_parts in refl))
encode_parts_injective (p ∷ ps) (q ∷ qs) hp hq e =
    let (same, rest) = parts_head p q ps qs hp.0 hq.0 e in
    ap₂ (λ t u. t ∷ u) same (encode_parts_injective ps qs hp.1 hq.1 rest)
