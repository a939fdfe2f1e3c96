-- ===== src/Core/Tests.antt =====
-- The known-answer vectors of crates/orisyvra-core/tests/known_answer.rs, and the theorems at inputs.
use or_isy_vra.Base.{ℕ, zero, suc, ◌+◌, List, [], ◌∷◌, ◌≡◌, refl, replicate, codes}
use or_isy_vra.Base.{◌++◌, All-replicate, arith, some}
use or_isy_vra.Base.Words.{IsU64}
use or_isy_vra.Core.Permutation.{invert, permute_rounds, invert_rounds}
use or_isy_vra.Core.Permutation.Inverse.{IsState, permute_bijective, permute_rounds_invertible}
use or_isy_vra.Core.Prf.Absorb.{
  absorb_bytes, encode_parts, prf_parts_stream, absorb-append, new-HasRoom,
}
use or_isy_vra.Base.{take}
use or_isy_vra.Core.Prf.Stream.{key_stream, prf_parts-key_stream}
use or_isy_vra.Base.Bytes.{le_bytes, from_le, copy_at}
use or_isy_vra.Core.Prf.{
  derive_key, stream, mac32, prf_parts, absorb_parts, absorb, absorb_loop, settle, commit_block,
  new, finalize, squeeze, squeeze_loop, block_of, next_state, load_key_lane, word_at, domain_word,
  record_siv,
}
use or_isy_vra.Base.Words.{wrapping_add, wrapping_sub, rotate_left, rotate_right}
use or_isy_vra.Core.Permutation.{
  permute, run_rounds, round_forward, rails_forward, split_state, join_state, add_constants,
  collide_pairs, collide_forward, round_rot, mix_wave, neighbours, kick_collision, kick, kick_wave,
  impulse, rotate_rails, rotate_lane, permute_rails, permute_words,
}

permute_zero :
    permute (replicate 12 0)
    ≡ 0x3846_133e_797d_6d51 ∷ 0xb28c_147f_6832_4d17 ∷ 0xc19c_d0a7_81d4_7cca ∷ 0x0b68_fa2c_dc2a_14a7
      ∷ 0x6dde_95f5_9601_0e75 ∷ 0x840a_d692_6f4d_c10c ∷ 0x4722_6a02_f515_115d
      ∷ 0x767a_2650_8f48_8149 ∷ 0x3f3d_6543_d1b9_6ecb ∷ 0x8f27_e3c8_b47e_68cc
      ∷ 0x4a73_140a_d4e9_8f65 ∷ 0xabe4_c52d_3c8e_3f67 ∷ []
unfolding permute run_rounds round_forward rails_forward split_state join_state add_constants
    collide_pairs collide_forward round_rot mix_wave neighbours kick_collision kick kick_wave
    impulse rotate_rails rotate_lane permute_rails permute_words wrapping_add wrapping_sub
    rotate_left rotate_right
permute_zero = refl

abbrev count_up : ℕ → ℕ → List ℕ
count_up zero i = []
count_up (suc n) i = i ∷ count_up n (i + 1)

-- Each output is compared as one little-endian number.
mac32_vector :
    from_le (mac32 (count_up 48 0) record_siv (codes "context" ∷ codes "plaintext" ∷ []))
    ≡ 0x6c0eacd64675b37c40e99ea422b7fe928d93e5f0d7be48441eb7cc0e4e172070
unfolding mac32 derive_key prf_parts absorb_parts absorb absorb_loop settle commit_block new
    finalize squeeze squeeze_loop block_of next_state load_key_lane word_at domain_word le_bytes
    from_le copy_at permute run_rounds round_forward rails_forward split_state join_state
    add_constants collide_pairs collide_forward round_rot mix_wave neighbours kick_collision kick
    kick_wave impulse rotate_rails rotate_lane permute_rails permute_words wrapping_add wrapping_sub
    rotate_left rotate_right
mac32_vector = refl

derive_key_vector :
    from_le (derive_key (count_up 48 0) (codes "label") (codes "context"))
    ≡ 0x7b2a2a8fbb24b42a05e4a9e598851b953b7ee34f8c361a6bf58c5641da8dcd80356fc08463128cca5bec6bf99ee5491f
unfolding mac32 derive_key prf_parts absorb_parts absorb absorb_loop settle commit_block new
    finalize squeeze squeeze_loop block_of next_state load_key_lane word_at domain_word le_bytes
    from_le copy_at permute run_rounds round_forward rails_forward split_state join_state
    add_constants collide_pairs collide_forward round_rot mix_wave neighbours kick_collision kick
    kick_wave impulse rotate_rails rotate_lane permute_rails permute_words wrapping_add wrapping_sub
    rotate_left rotate_right
derive_key_vector = refl

stream_vector :
    from_le (prf_parts (count_up 48 0) stream (codes "OrIsyVra vector" ∷ count_up 17 0 ∷ []) 96)
    ≡ 0x714f9095dc2757ca4f0fcf56f0a824558e11da270f8b4786d438431e36a7f6ae8f90f631f93346b98227e91cd9f07fab93de5fe34a9af93621d31574fcf9fc85745241083f1c7cd90f7548394a2b7807c6ebdc9cee4ba7e94fbd9e44ca916eb2
unfolding mac32 derive_key prf_parts absorb_parts absorb absorb_loop settle commit_block new
    finalize squeeze squeeze_loop block_of next_state load_key_lane word_at domain_word le_bytes
    from_le copy_at permute run_rounds round_forward rails_forward split_state join_state
    add_constants collide_pairs collide_forward round_rot mix_wave neighbours kick_collision kick
    kick_wave impulse rotate_rails rotate_lane permute_rails permute_words wrapping_add wrapping_sub
    rotate_left rotate_right
stream_vector = refl

abbrev zeros : List ℕ
zeros = replicate 12 0

zeros-IsState : IsState zeros
zeros-IsState = record { twelve = refl; words = All-replicate IsU64 12 0 (omega arith) }

permute_bijective_example :
    (invert (permute zeros) ≡ zeros)
    × (permute (invert zeros) ≡ zeros)
    × IsState (permute zeros)
    × IsState (invert zeros)
permute_bijective_example = permute_bijective zeros zeros-IsState

permute_rounds_invertible_example :
    (t : List ℕ) × (permute_rounds zeros 7 ≡ some t) × (invert_rounds t 7 ≡ some zeros)
permute_rounds_invertible_example = permute_rounds_invertible zeros 7 zeros-IsState (omega arith)

abbrev some_key : List ℕ
some_key = count_up 48 0

prf_parts_stream_example :
    prf_parts some_key stream (codes "OrIsyVra vector" ∷ count_up 17 0 ∷ []) 96
    ≡ squeeze
        (finalize
          (absorb_bytes
            (new some_key stream)
            (encode_parts (codes "OrIsyVra vector" ∷ count_up 17 0 ∷ [])))
          some_key
          96)
        96
prf_parts_stream_example =
    prf_parts_stream some_key stream (codes "OrIsyVra vector" ∷ count_up 17 0 ∷ []) 96

absorb-append_example :
    absorb (absorb (new some_key stream) (count_up 60 0)) (count_up 61 0)
    ≡ absorb (new some_key stream) (count_up 60 0 ++ count_up 61 0)
absorb-append_example =
    absorb-append (new some_key stream) (count_up 60 0) (count_up 61 0)
      (new-HasRoom some_key stream)

prf_parts-key_stream_example :
    prf_parts some_key stream (count_up 17 0 ∷ []) 100
    ≡ take 100 (
        key_stream
          (finalize (absorb_parts (new some_key stream) (count_up 17 0 ∷ [])) some_key 100).state
          0
          100)
prf_parts-key_stream_example = prf_parts-key_stream some_key stream (count_up 17 0 ∷ []) 100
