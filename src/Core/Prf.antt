-- ===== src/Core/Prf.antt =====
-- crates/orisyvra-core/src/prf.rs: the keyed sponge, and the pseudorandom function of
-- length-prefixed parts.
pub mod Absorb
pub mod Output
pub mod Stream
use Prim.Native.Nat.{bit_xor, min}
use or_isy_vra.Base.{
  ℕ, zero, suc, ◌+◌, ◌-◌, ◌*◌, ◌%◌, ◌^◌, List, [], ◌∷◌, ◌++◌, length, set, take, drop, replicate,
  ltb, ◌==◌, if◌then◌else◌,
}
use or_isy_vra.Base.Words.{wrapping_add, rotate_left}
use or_isy_vra.Base.Bytes.{le_bytes, from_le, slice, copy_at}
use or_isy_vra.Base.Loops.{for_range}
use or_isy_vra.Core.Constants.{iv}
use or_isy_vra.Core.Permutation.{at, update, permute, rate_bytes, rate_words, state_words}

abbrev pub key_size : ℕ
key_size = 48

abbrev pub tag_size : ℕ
tag_size = 32

pub data Domain : Type 0 where
  key_derivation header_binding record_siv stream manifest random_generator : Domain

-- `domain as u64`.
unfoldable pub domain_word : Domain → ℕ
domain_word key_derivation = 0x4f59_562d_4b44_4631
domain_word header_binding = 0x4f59_562d_4844_5231
domain_word record_siv = 0x4f59_562d_5349_5631
domain_word stream = 0x4f59_562d_5354_5231
domain_word manifest = 0x4f59_562d_4d41_4e31
domain_word random_generator = 0x4f59_562d_524e_4731

pub record KeyedSponge : Type 0 where
  pub state : List ℕ
  pub buffer : List ℕ
  pub position : ℕ
  pub absorbed : ℕ

-- `u64::from_le_bytes(bytes[lane * 8..lane * 8 + 8])`.
unfoldable pub word_at : List ℕ → ℕ → ℕ
word_at bytes lane = from_le (slice (lane * 8) (lane * 8 + 8) bytes)

unfoldable pub load_key_lane : List ℕ → ℕ → List ℕ → List ℕ
load_key_lane key lane state =
    let key_word = word_at key lane in
    update bit_xor (update wrapping_add state lane (rotate_left key_word ((lane * 9 + 7) % 64)))
      (rate_words + lane) key_word

unfoldable pub new : List ℕ → Domain → KeyedSponge
unfolding for_range
new key domain =
    let loaded = for_range rate_words 0 (load_key_lane key) iv in
    let tagged = update bit_xor loaded 0 (domain_word domain) in
    let sized = update bit_xor tagged (state_words - 1) (key_size * 2 ^ 32) in
    record { state = permute sized; buffer = replicate rate_bytes 0; position = 0; absorbed = 0 }

unfoldable pub commit_block : KeyedSponge → KeyedSponge
unfolding for_range
commit_block s =
    let mixed =
      for_range rate_words 0 (λ lane t. update bit_xor t lane (word_at s.buffer lane)) s.state in
    record s { state = permute mixed; buffer = replicate rate_bytes 0; position = 0 }

-- One round of the loop of `absorb`: the chunk is copied into the buffer, and a full buffer is
-- committed.
abbrev pub filled : KeyedSponge → List ℕ → KeyedSponge
filled s chunk = record s {
  buffer = copy_at s.position chunk s.buffer;
  position = s.position + length chunk;
  absorbed = wrapping_add s.absorbed (length chunk);
}

unfoldable pub settle : KeyedSponge → KeyedSponge
settle s = if s.position == rate_bytes then commit_block s else s

abbrev pub absorb_chunk : KeyedSponge → List ℕ → KeyedSponge
absorb_chunk s chunk = settle (filled s chunk)

-- `while !input.is_empty()`; each round takes a byte at least while the position is below the rate.
unfoldable pub absorb_loop : ℕ → KeyedSponge → List ℕ → KeyedSponge
absorb_loop zero s input = s
absorb_loop (suc fuel) s [] = s
absorb_loop (suc fuel) s (b ∷ bs) =
    let n = min (rate_bytes - s.position) (length (b ∷ bs)) in
    absorb_loop fuel (absorb_chunk s (take n (b ∷ bs))) (drop n (b ∷ bs))

unfoldable pub absorb : KeyedSponge → List ℕ → KeyedSponge
absorb s input = absorb_loop (length input) s input

unfoldable pub finalize : KeyedSponge → List ℕ → ℕ → KeyedSponge
unfolding for_range
finalize s key output_length =
    let padded = update bit_xor (update bit_xor s.buffer s.position 0x01) (rate_bytes - 1) 0x80 in
    let s' = commit_block (record s { buffer = padded }) in
    let keyed =
      for_range rate_words 0 (λ lane t. update bit_xor t (rate_words + lane) (word_at key lane))
        s'.state in
    let counted = update bit_xor (update bit_xor keyed 0 s'.absorbed) 1 output_length in
    record s' { state = permute (update bit_xor counted (state_words - 1) 0x8000_0000_0000_0001) }

-- The rate lanes as bytes: the block of one round of `squeeze`.
unfoldable pub block_of : List ℕ → List ℕ
unfolding for_range
block_of state =
    for_range rate_words 0 (λ lane block. copy_at (lane * 8) (le_bytes 8 (at state lane)) block)
      (replicate rate_bytes 0)

unfoldable pub next_state : List ℕ → ℕ → List ℕ
next_state state block_index = permute (
    update wrapping_add (update bit_xor state (state_words - 2) block_index) (state_words - 1)
      0x9e37_79b9_7f4a_7c15)

-- `while written < output.len()`, with `left` bytes still to be written.
unfoldable pub squeeze_loop : ℕ → List ℕ → ℕ → ℕ → List ℕ
squeeze_loop zero state block_index left = []
squeeze_loop (suc fuel) state block_index left =
    let n = min left rate_bytes in
    let block_index' = wrapping_add block_index 1 in
    let more = squeeze_loop fuel (next_state state block_index') block_index' (left - n) in
    if ltb 0 left
    then (if ltb n left then take n (block_of state) ++ more else take n (block_of state))
    else []

unfoldable pub squeeze : KeyedSponge → ℕ → List ℕ
squeeze s output_length = squeeze_loop output_length s.state 0 output_length

unfoldable pub absorb_parts : KeyedSponge → List (List ℕ) → KeyedSponge
absorb_parts s [] = s
absorb_parts s (part ∷ parts) =
    absorb_parts (absorb (absorb s (le_bytes 8 (length part))) part) parts

unfoldable pub prf_parts : List ℕ → Domain → List (List ℕ) → ℕ → List ℕ
prf_parts key domain parts output_length =
    squeeze (finalize (absorb_parts (new key domain) parts) key output_length) output_length

unfoldable pub derive_key : List ℕ → List ℕ → List ℕ → List ℕ
derive_key master_key label context =
    prf_parts master_key key_derivation (label ∷ context ∷ []) key_size

unfoldable pub mac32 : List ℕ → Domain → List (List ℕ) → List ℕ
mac32 key domain parts = prf_parts key domain parts tag_size
