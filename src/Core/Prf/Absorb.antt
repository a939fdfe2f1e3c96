-- ===== src/Core/Prf/Absorb.antt =====
-- `absorb` takes its input in blocks of the rate; the result is that of absorbing byte by byte, so
-- the way in which the input is cut does not matter.
use mathlib.Core.List.{foldl, foldl-append}
use or_isy_vra.Base.{
  ℕ, zero, suc, ◌+◌, ◌-◌, ◌%◌, ◌^◌, ◌≤◌, ◌<◌, ◌≡◌, refl, ap, ◌∙◌, sym, arith, List, [], ◌∷◌, ◌++◌,
  length, set, take, drop, ◌==◌, min, inl, inr, Bool-cases, ==_iff, take-append-drop, length-take,
  length-drop, length-replicate,
}
use or_isy_vra.Base.Words.{wrapping_add}
use or_isy_vra.Base.Bytes.{le_bytes, copy_at, length-copy_at}
use or_isy_vra.Core.Permutation.{rate_bytes}
use or_isy_vra.Core.Prf.{
  KeyedSponge, Domain, commit_block, filled, settle, absorb_chunk, absorb_loop, absorb,
  absorb_parts, new, finalize, squeeze, prf_parts,
}

-- Between two calls there is room in the buffer, so no index into it is out of range.
pub record HasRoom (s : KeyedSponge) : Type 0 where
  pub room : s.position < rate_bytes
  pub block : length s.buffer ≡ rate_bytes

commit_block-HasRoom : (s : KeyedSponge) → HasRoom (commit_block s)
unfolding commit_block
commit_block-HasRoom s = record {
  room = omega arith;
  block = length-replicate {A = ℕ} rate_bytes 0;
}

unfoldable pub absorb_byte : KeyedSponge → ℕ → KeyedSponge
absorb_byte s b = absorb_chunk s (b ∷ [])

absorb_chunk_full :
    (s : KeyedSponge) (chunk : List ℕ)
    → s.position + length chunk ≡ rate_bytes
    → absorb_chunk s chunk ≡ commit_block (filled s chunk)
unfolding settle
absorb_chunk_full s chunk e = rw e

absorb_chunk_room :
    (s : KeyedSponge) (chunk : List ℕ)
    → s.position + length chunk < rate_bytes
    → absorb_chunk s chunk ≡ filled s chunk
unfolding settle
absorb_chunk_room s chunk h = elim (Bool-cases (s.position + length chunk == rate_bytes)) [
  | inl e ↦ absurd (omega (arith, (==_iff _ _).0 e))
  | inr e ↦ rw e
]

absorb_chunk-HasRoom :
    (s : KeyedSponge) (chunk : List ℕ)
    → HasRoom s
    → s.position + length chunk ≤ rate_bytes
    → HasRoom (absorb_chunk s chunk)
absorb_chunk-HasRoom s chunk h le = elim (Bool-cases (s.position + length chunk == rate_bytes)) [
  | inl e ↦ rw (absorb_chunk_full s chunk ((==_iff _ _).0 e)) (commit_block-HasRoom _)
  | inr e ↦
      let lt : s.position + length chunk < rate_bytes = ground arith in
      rw (absorb_chunk_room s chunk lt)
        (record { room = lt; block = length-copy_at s.position chunk s.buffer ∙ h.block })
]

-- A chunk goes in like its first byte and then the others.
filled-cons :
    (s : KeyedSponge) (b : ℕ) (bs : List ℕ) → filled (filled s (b ∷ [])) bs ≡ filled s (b ∷ bs)
unfolding copy_at wrapping_add
filled-cons s b bs = λ i. record {
  state = s.state;
  buffer = copy_at (s.position + 1) bs (set s.buffer s.position b);
  position = positions i;
  absorbed = counts i;
}
  where
    positions : s.position + 1 + length bs ≡ s.position + suc (length bs)
    positions = omega arith

    counts :
        ((s.absorbed + 1) % 2 ^ 64 + length bs) % 2 ^ 64 ≡ (s.absorbed + suc (length bs)) % 2 ^ 64
    counts = omega arith

unfoldable pub absorb_bytes : KeyedSponge → List ℕ → KeyedSponge
absorb_bytes = foldl absorb_byte

pub absorb_chunk-eq-bytes :
    (bs : List ℕ) (s : KeyedSponge) (b : ℕ)
    → s.position + length (b ∷ bs) ≤ rate_bytes
    → absorb_chunk s (b ∷ bs) ≡ absorb_bytes s (b ∷ bs)
unfolding absorb_bytes absorb_byte
absorb_chunk-eq-bytes [] s b h = refl
absorb_chunk-eq-bytes (c ∷ cs) s b h =
    let first : absorb_chunk s (b ∷ []) ≡ filled s (b ∷ []) =
      absorb_chunk_room s (b ∷ []) (omega arith) in
    let rest = absorb_chunk-eq-bytes cs (filled s (b ∷ [])) c (omega arith) in
    joined ∙ rest ∙ ap (λ (t : KeyedSponge). absorb_bytes t (c ∷ cs)) (sym first)
  where
    joined : absorb_chunk s (b ∷ c ∷ cs) ≡ absorb_chunk (filled s (b ∷ [])) (c ∷ cs)
    joined = ap settle (sym (filled-cons s b (c ∷ cs)))

chunk-eq-bytes :
    (chunk : List ℕ) (s : KeyedSponge)
    → 0 < length chunk
    → s.position + length chunk ≤ rate_bytes
    → absorb_chunk s chunk ≡ absorb_bytes s chunk
chunk-eq-bytes [] s pos h = absurd (omega arith)
chunk-eq-bytes (b ∷ bs) s pos h = absorb_chunk-eq-bytes bs s b h

-- One round takes as much as there is room for, and goes on with the rest.
round-eq-bytes :
    (fuel n : ℕ) (s : KeyedSponge) (input : List ℕ)
    → 0 < n
    → n ≤ length input
    → s.position + n ≤ rate_bytes
    → absorb_loop fuel (absorb_chunk s (take n input)) (drop n input)
      ≡ absorb_bytes (absorb_chunk s (take n input)) (drop n input)
    → absorb_loop fuel (absorb_chunk s (take n input)) (drop n input) ≡ absorb_bytes s input
unfolding absorb_bytes
round-eq-bytes fuel n s input pos le fits rest =
    let size : length (take n input) ≡ n = length-take n input ∙ omega arith in
    rest
    ∙ ap (λ (t : KeyedSponge). foldl absorb_byte t (drop n input))
        (chunk-eq-bytes (take n input) s (omega (arith, size)) (omega (arith, size)))
    ∙ sym (foldl-append absorb_byte s (take n input) (drop n input))
    ∙ ap (foldl absorb_byte s) (take-append-drop n input)

absorb_loop-eq-bytes :
    (fuel : ℕ) (s : KeyedSponge) (input : List ℕ)
    → HasRoom s
    → length input ≤ fuel
    → (absorb_loop fuel s input ≡ absorb_bytes s input) × HasRoom (absorb_loop fuel s input)
unfolding absorb_loop
absorb_loop-eq-bytes zero s [] h le = (unfold absorb_bytes in refl, h)
absorb_loop-eq-bytes zero s (b ∷ bs) h le = absurd (omega arith)
absorb_loop-eq-bytes (suc fuel) s [] h le = (unfold absorb_bytes in refl, h)
absorb_loop-eq-bytes (suc fuel) s (b ∷ bs) h le =
    let n = min (rate_bytes - s.position) (length (b ∷ bs)) in
    let size : length (take n (b ∷ bs)) ≡ n = length-take n (b ∷ bs) ∙ omega arith in
    let left : length (drop n (b ∷ bs)) ≤ fuel = omega (arith, length-drop n (b ∷ bs), h.room) in
    let kept = absorb_chunk-HasRoom s (take n (b ∷ bs)) h (omega (arith, size, h.room)) in
    let (same, room) =
      absorb_loop-eq-bytes fuel (absorb_chunk s (take n (b ∷ bs))) (drop n (b ∷ bs)) kept left in
    (
      round-eq-bytes fuel n s (b ∷ bs) (omega (arith, h.room)) (omega arith) (omega (arith, h.room))
          same,
      room,
    )

pub absorb-eq-bytes :
    (s : KeyedSponge) (input : List ℕ) → HasRoom s → absorb s input ≡ absorb_bytes s input
unfolding absorb
absorb-eq-bytes s input h = (absorb_loop-eq-bytes (length input) s input h (omega arith)).0

pub absorb-HasRoom : (s : KeyedSponge) (input : List ℕ) → HasRoom s → HasRoom (absorb s input)
unfolding absorb
absorb-HasRoom s input h = (absorb_loop-eq-bytes (length input) s input h (omega arith)).1

-- Absorbing a string in two pieces is absorbing it whole, wherever it is cut.
pub absorb-append :
    (s : KeyedSponge) (xs ys : List ℕ) → HasRoom s → absorb (absorb s xs) ys ≡ absorb s (xs ++ ys)
unfolding absorb_bytes
absorb-append s xs ys h =
    absorb-eq-bytes (absorb s xs) ys (absorb-HasRoom s xs h)
    ∙ ap (λ (t : KeyedSponge). absorb_bytes t ys) (absorb-eq-bytes s xs h)
    ∙ sym (foldl-append absorb_byte s xs ys)
    ∙ sym (absorb-eq-bytes s (xs ++ ys) h)

pub new-HasRoom : (key : List ℕ) (domain : Domain) → HasRoom (new key domain)
unfolding new
new-HasRoom key domain = record {
  room = omega arith;
  block = length-replicate {A = ℕ} rate_bytes 0;
}

-- The byte string that a list of parts stands for: each part behind its length in eight bytes.
unfoldable pub encode_parts : List (List ℕ) → List ℕ
encode_parts [] = []
encode_parts (part ∷ parts) = le_bytes 8 (length part) ++ (part ++ encode_parts parts)

absorb_parts-eq-absorb :
    (parts : List (List ℕ)) (s : KeyedSponge)
    → HasRoom s
    → absorb_parts s parts ≡ absorb s (encode_parts parts)
unfolding absorb_parts encode_parts
absorb_parts-eq-absorb [] s h = unfold absorb absorb_loop in refl
absorb_parts-eq-absorb (part ∷ parts) s h =
    let prefix = le_bytes 8 (length part) in
    let h1 = absorb-HasRoom s prefix h in
    absorb_parts-eq-absorb parts (absorb (absorb s prefix) part) (absorb-HasRoom _ part h1)
    ∙ absorb-append (absorb s prefix) part (encode_parts parts) h1
    ∙ absorb-append s prefix (part ++ encode_parts parts) h

-- For every key, domain, list of parts and output length, the output of `prf_parts` is that of the
-- sponge which takes in the encoded parts byte by byte: neither the blocks in which `absorb`
-- fills its buffer nor the calls for the single parts show in the result.
pub prf_parts_stream :
    (key : List ℕ) (domain : Domain) (parts : List (List ℕ)) (n : ℕ)
    → prf_parts key domain parts n
      ≡ squeeze (finalize (absorb_bytes (new key domain) (encode_parts parts)) key n) n
unfolding prf_parts
prf_parts_stream key domain parts n =
    ap (λ (t : KeyedSponge). squeeze (finalize t key n) n)
      (absorb_parts-eq-absorb parts (new key domain) (new-HasRoom key domain)
        ∙ absorb-eq-bytes (new key domain) (encode_parts parts) (new-HasRoom key domain))
