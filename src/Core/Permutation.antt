-- ===== src/Core/Permutation.antt =====
-- crates/orisyvra-core/src/permutation.rs: the P768 permutation on twelve 64-bit words and its
-- inverse. An array is a list; the six collision lanes and the six wave lanes are the two rails.
pub mod Lanes
pub mod Steps
pub mod Inverse
use or_isy_vra.Base.{
  ℕ, zero, suc, ◌+◌, ◌*◌, ◌%◌, List, [], ◌∷◌, ◌++◌, get_or, set, take, drop, bit_xor, leb,
  if◌then◌else◌, Option, none, some,
}
use or_isy_vra.Base.Words.{wrapping_add, wrapping_sub, rotate_left, rotate_right}
use or_isy_vra.Base.Loops.{for_range, for_range_rev}
use or_isy_vra.Core.Constants.{rc_a, rc_b, rc_c}

abbrev pub state_words : ℕ
state_words = 12

abbrev pub state_bytes : ℕ
state_bytes = state_words * 8

abbrev pub rate_words : ℕ
rate_words = 6

abbrev pub rate_bytes : ℕ
rate_bytes = rate_words * 8

abbrev pub rounds : ℕ
rounds = 18

abbrev pub Lanes : Type 0
Lanes = List ℕ

pub record Rails : Type 0 where
  pub collision : Lanes
  pub wave : Lanes

abbrev pub pairings : List (List (ℕ × ℕ))
pairings =
    ((0, 1) ∷ (2, 3) ∷ (4, 5) ∷ [])
    ∷ ((0, 2) ∷ (1, 4) ∷ (3, 5) ∷ [])
    ∷ ((0, 3) ∷ (1, 5) ∷ (2, 4) ∷ [])
    ∷ []

abbrev pub c_perm : List (List ℕ)
c_perm =
    (1 ∷ 4 ∷ 2 ∷ 5 ∷ 0 ∷ 3 ∷ []) ∷ (2 ∷ 0 ∷ 5 ∷ 3 ∷ 1 ∷ 4 ∷ []) ∷ (3 ∷ 5 ∷ 1 ∷ 0 ∷ 4 ∷ 2 ∷ []) ∷ []

abbrev pub w_perm : List (List ℕ)
w_perm =
    (5 ∷ 2 ∷ 0 ∷ 4 ∷ 1 ∷ 3 ∷ []) ∷ (4 ∷ 1 ∷ 3 ∷ 0 ∷ 5 ∷ 2 ∷ []) ∷ (2 ∷ 5 ∷ 1 ∷ 4 ∷ 0 ∷ 3 ∷ []) ∷ []

abbrev pub c_rot : List ℕ
c_rot = 7 ∷ 17 ∷ 29 ∷ 37 ∷ 47 ∷ 59 ∷ []

abbrev pub w_rot : List ℕ
w_rot = 11 ∷ 23 ∷ 31 ∷ 41 ∷ 53 ∷ 61 ∷ []

abbrev pub wave_left_rot : List ℕ
wave_left_rot = 5 ∷ 13 ∷ 19 ∷ 31 ∷ 43 ∷ 57 ∷ []

abbrev pub wave_right_rot : List ℕ
wave_right_rot = 3 ∷ 11 ∷ 27 ∷ 35 ∷ 49 ∷ 63 ∷ []

abbrev pub kick_c_rot : List ℕ
kick_c_rot = 9 ∷ 21 ∷ 33 ∷ 45 ∷ 55 ∷ 15 ∷ []

abbrev pub kick_w_rot : List ℕ
kick_w_rot = 7 ∷ 25 ∷ 39 ∷ 51 ∷ 17 ∷ 29 ∷ []

-- An entry of a constant table, and an element of an array.
abbrev pub at : List ℕ → ℕ → ℕ
at xs i = get_or xs i 0

-- `lanes[i] = op(lanes[i], k)`, the form of each assignment to a lane.
abbrev pub update : (ℕ → ℕ → ℕ) → Lanes → ℕ → ℕ → Lanes
update op lanes i k = set lanes i (op (at lanes i) k)

unfoldable pub round_rot : ℕ → ℕ → ℕ → ℕ → ℕ
round_rot base round lane stride = (base + round * stride + lane * 5) % 63 + 1

unfoldable pub collide_forward : Lanes → ℕ → ℕ → ℕ → ℕ → Lanes
collide_forward lanes a_index b_index round pair =
    let a = at lanes a_index in
    let b = at lanes b_index in
    let a' = wrapping_add a (rotate_left b (round_rot 7 round pair 7)) in
    let b' = bit_xor b (rotate_left a' (round_rot 19 round pair 11)) in
    let a'' = rotate_left a' (round_rot 31 round pair 13) in set (set lanes a_index a'') b_index b'

unfoldable pub collide_inverse : Lanes → ℕ → ℕ → ℕ → ℕ → Lanes
collide_inverse lanes a_index b_index round pair =
    let a = at lanes a_index in
    let b = at lanes b_index in
    let a' = rotate_right a (round_rot 31 round pair 13) in
    let b' = bit_xor b (rotate_left a' (round_rot 19 round pair 11)) in
    let a'' = wrapping_sub a' (rotate_left b' (round_rot 7 round pair 7)) in
    set (set lanes a_index a'') b_index b'

unfoldable pub permute_words : Lanes → List ℕ → Lanes
unfolding for_range
permute_words previous permutation =
    for_range 6 0 (λ output lanes. set lanes output (at previous (at permutation output))) previous

unfoldable pub inverse_permute_words : Lanes → List ℕ → Lanes
unfolding for_range
inverse_permute_words previous permutation =
    for_range 6 0 (λ output lanes. set lanes (at permutation output) (at previous output)) previous

unfoldable pub split_state : List ℕ → Rails
split_state state = record { collision = take 6 state; wave = drop 6 state }

unfoldable pub join_state : Rails → List ℕ
join_state r = r.collision ++ r.wave

-- The parts of a round, in the order of `round_forward`, each beside the part of `round_inverse`
-- that undoes it.
unfoldable pub add_constants : ℕ → Rails → Rails
add_constants round r = record {
  collision = update wrapping_add (update bit_xor r.collision 0 (at rc_a round)) 3 (at rc_c round);
  wave = update bit_xor r.wave 5 (at rc_b round);
}

unfoldable pub remove_constants : ℕ → Rails → Rails
remove_constants round r = record {
  collision = update bit_xor (update wrapping_sub r.collision 3 (at rc_c round)) 0 (at rc_a round);
  wave = update bit_xor r.wave 5 (at rc_b round);
}

abbrev pub pair_of : ℕ → ℕ → ℕ × ℕ
pair_of schedule pair_index = get_or (get_or pairings schedule []) pair_index (0, 0)

unfoldable pub collide_pairs : ℕ → ℕ → Lanes → Lanes
unfolding for_range
collide_pairs schedule round =
    for_range 3 0
      (λ i lanes. collide_forward lanes (pair_of schedule i).0 (pair_of schedule i).1 round i)

unfoldable pub separate_pairs : ℕ → ℕ → Lanes → Lanes
unfolding for_range_rev
separate_pairs schedule round =
    for_range_rev 3 0
      (λ i lanes. collide_inverse lanes (pair_of schedule i).0 (pair_of schedule i).1 round i)

-- `left ^ right` of the wave loop, from the lanes on both sides.
unfoldable pub neighbours : ℕ → Lanes → ℕ
neighbours lane wave =
    bit_xor (rotate_left (at wave ((lane + 5) % 6)) (at wave_left_rot lane))
      (rotate_left (at wave ((lane + 1) % 6)) (at wave_right_rot lane))

unfoldable pub mix_wave : Lanes → Lanes
unfolding for_range
mix_wave = for_range 6 0 (λ lane wave. update wrapping_add wave lane (neighbours lane wave))

unfoldable pub unmix_wave : Lanes → Lanes
unfolding for_range_rev
unmix_wave = for_range_rev 6 0 (λ lane wave. update wrapping_sub wave lane (neighbours lane wave))

unfoldable pub kick : ℕ → ℕ → Lanes → ℕ
kick round lane wave = rotate_left (at wave ((lane + round + 1) % 6)) (at kick_c_rot lane)

unfoldable pub kick_collision : ℕ → Lanes → Lanes → Lanes
unfolding for_range
kick_collision round wave =
    for_range 6 0 (λ lane collision. update bit_xor collision lane (kick round lane wave))

unfoldable pub unkick_collision : ℕ → Lanes → Lanes → Lanes
unfolding for_range_rev
unkick_collision round wave =
    for_range_rev 6 0 (λ lane collision. update bit_xor collision lane (kick round lane wave))

unfoldable pub impulse : ℕ → Lanes → ℕ
impulse lane collision =
    rotate_left (bit_xor (at collision ((lane + 2) % 6)) (at collision ((lane + 5) % 6)))
      (at kick_w_rot lane)

unfoldable pub kick_wave : Lanes → Lanes → Lanes
unfolding for_range
kick_wave collision =
    for_range 6 0 (λ lane wave. update wrapping_add wave lane (impulse lane collision))

unfoldable pub unkick_wave : Lanes → Lanes → Lanes
unfolding for_range_rev
unkick_wave collision =
    for_range_rev 6 0 (λ lane wave. update wrapping_sub wave lane (impulse lane collision))

-- One loop rotates both rails; the inverse loop runs upwards too.
unfoldable pub rotate_lane : ℕ → ℕ → Rails → Rails
rotate_lane round lane r = record {
  collision = update rotate_left r.collision lane (round_rot (at c_rot lane) round lane 3);
  wave = update rotate_left r.wave lane (round_rot (at w_rot lane) round lane 5);
}

unfoldable pub unrotate_lane : ℕ → ℕ → Rails → Rails
unrotate_lane round lane r = record {
  collision = update rotate_right r.collision lane (round_rot (at c_rot lane) round lane 3);
  wave = update rotate_right r.wave lane (round_rot (at w_rot lane) round lane 5);
}

unfoldable pub rotate_rails : ℕ → Rails → Rails
unfolding for_range
rotate_rails round = for_range 6 0 (rotate_lane round)

unfoldable pub unrotate_rails : ℕ → Rails → Rails
unfolding for_range
unrotate_rails round = for_range 6 0 (unrotate_lane round)

unfoldable pub permute_rails : ℕ → Rails → Rails
permute_rails schedule r = record {
  collision = permute_words r.collision (get_or c_perm schedule []);
  wave = permute_words r.wave (get_or w_perm schedule []);
}

unfoldable pub inverse_permute_rails : ℕ → Rails → Rails
inverse_permute_rails schedule r = record {
  collision = inverse_permute_words r.collision (get_or c_perm schedule []);
  wave = inverse_permute_words r.wave (get_or w_perm schedule []);
}

abbrev pub on_collision : (Lanes → Lanes → Lanes) → Rails → Rails
on_collision f r = record { collision = f r.wave r.collision; wave = r.wave }

abbrev pub on_wave : (Lanes → Lanes → Lanes) → Rails → Rails
on_wave f r = record { collision = r.collision; wave = f r.collision r.wave }

-- `round_forward` and `round_inverse` between `split_state` and `join_state`.
unfoldable pub rails_forward : ℕ → Rails → Rails
rails_forward round r0 =
    let schedule = round % 3 in
    let r1 = add_constants round r0 in
    let r2 = on_collision (λ _. collide_pairs schedule round) r1 in
    let r3 = on_wave (λ _. mix_wave) r2 in
    let r4 = on_collision (kick_collision round) r3 in
    let r5 = on_wave kick_wave r4 in let r6 = rotate_rails round r5 in permute_rails schedule r6

unfoldable pub rails_inverse : ℕ → Rails → Rails
rails_inverse round r0 =
    let schedule = round % 3 in
    let r1 = inverse_permute_rails schedule r0 in
    let r2 = unrotate_rails round r1 in
    let r3 = on_wave unkick_wave r2 in
    let r4 = on_collision (unkick_collision round) r3 in
    let r5 = on_wave (λ _. unmix_wave) r4 in
    let r6 = on_collision (λ _. separate_pairs schedule round) r5 in remove_constants round r6

unfoldable pub round_forward : ℕ → List ℕ → List ℕ
round_forward round state = join_state (rails_forward round (split_state state))

unfoldable pub round_inverse : ℕ → List ℕ → List ℕ
round_inverse round state = join_state (rails_inverse round (split_state state))

unfoldable pub run_rounds : ℕ → List ℕ → List ℕ
unfolding for_range
run_rounds n = for_range n 0 round_forward

unfoldable pub undo_rounds : ℕ → List ℕ → List ℕ
unfolding for_range_rev
undo_rounds n = for_range_rev n 0 round_inverse

unfoldable pub permute : List ℕ → List ℕ
permute = run_rounds rounds

unfoldable pub invert : List ℕ → List ℕ
invert = undo_rounds rounds

-- The analysis entry points: `none` is the panic of the assertion `rounds <= ROUNDS`.
unfoldable pub permute_rounds : List ℕ → ℕ → Option (List ℕ)
permute_rounds state n = if leb n rounds then some (run_rounds n state) else none

unfoldable pub invert_rounds : List ℕ → ℕ → Option (List ℕ)
invert_rounds state n = if leb n rounds then some (undo_rounds n state) else none
