-- ===== src/Core/Permutation/Inverse.antt =====
-- `invert` and `permute` are inverse bijections of the states of twelve words.
use or_isy_vra.Base.{
  ℕ, ◌%◌, ◌<◌, ◌≤◌, ◌≡◌, ap, ◌∙◌, sym, arith, List, length, All, All-append, All-take, All-drop,
  length-append, length-take, length-drop, take-append-drop, take-append, drop-append, some, le→leb,
}
use or_isy_vra.Base.Words.{IsU64}
use or_isy_vra.Base.Loops.{Undoes, Undoes-compose, Undoes-for_range}
use or_isy_vra.Core.Permutation.{
  Rails, split_state, join_state, rails_forward, rails_inverse, round_forward, round_inverse,
  run_rounds, undo_rounds, permute, invert, permute_rounds, invert_rounds, state_words, rounds,
}
use or_isy_vra.Core.Permutation.Lanes.{IsRails, on_collision-Undoes, on_wave-Undoes}
use or_isy_vra.Core.Permutation.Steps.{
  constants-Undoes, pairs-Undoes, mix-Undoes, kick_collision-Undoes, kick_wave-Undoes,
  rotate_rails-Undoes, permute_rails-Undoes,
}

-- A `[u64; 12]`.
pub record IsState (state : List ℕ) : Type 0 where
  pub twelve : length state ≡ state_words
  pub words : All IsU64 state

rails_forward-Undoes : (round : ℕ) → Undoes IsRails (rails_forward round) (rails_inverse round)
unfolding rails_forward rails_inverse
rails_forward-Undoes round =
    let schedule_lt : round % 3 < 3 = omega arith in
    Undoes-compose (constants-Undoes round) (
      Undoes-compose (on_collision-Undoes _ _ (λ _ _. pairs-Undoes (round % 3) round schedule_lt)) (
        Undoes-compose (on_wave-Undoes _ _ (λ _ _. mix-Undoes)) (
          Undoes-compose (on_collision-Undoes _ _ (kick_collision-Undoes round)) (
            Undoes-compose (on_wave-Undoes _ _ kick_wave-Undoes) (
              Undoes-compose (rotate_rails-Undoes round)
                (permute_rails-Undoes (round % 3) schedule_lt))))))

split_state-IsRails : {state : List ℕ} → IsState state → IsRails (split_state state)
unfolding split_state
split_state-IsRails {state} h = record {
  collision_lanes = record {
    six = length-take 6 state ∙ omega (arith, h.twelve);
    words = All-take IsU64 6 state h.words;
  };
  wave_lanes = record {
    six = length-drop 6 state ∙ omega (arith, h.twelve);
    words = All-drop IsU64 6 state h.words;
  };
}

join_state-IsState : {r : Rails} → IsRails r → IsState (join_state r)
unfolding join_state
join_state-IsState {r} h = record {
  twelve =
      length-append r.collision r.wave ∙ omega (arith, h.collision_lanes.six, h.wave_lanes.six);
  words = All-append IsU64 r.collision r.wave h.collision_lanes.words h.wave_lanes.words;
}

split-join : (r : Rails) → IsRails r → split_state (join_state r) ≡ r
unfolding split_state join_state
split-join r h = λ i. record {
  collision = take-append 6 r.collision r.wave (sym h.collision_lanes.six) i;
  wave = drop-append 6 r.collision r.wave (sym h.collision_lanes.six) i;
}

join-split : (state : List ℕ) → join_state (split_state state) ≡ state
unfolding split_state join_state
join-split state = take-append-drop 6 state

-- What undoes steps on the rails undoes them on the state that the rails are split from.
joined-Undoes :
    (f g : Rails → Rails)
    → Undoes IsRails f g
    → Undoes IsState (λ s. join_state (f (split_state s))) (λ s. join_state (g (split_state s)))
joined-Undoes f g u = record {
  keep = λ s h. join_state-IsState (u.keep _ (split_state-IsRails h));
  keep_back = λ s h. join_state-IsState (u.keep_back _ (split_state-IsRails h));
  back = λ s h.
      let k = split_state-IsRails h in
      rw (split-join (f (split_state s)) (u.keep _ k)) (rw (u.back _ k) (join-split s));
  forth = λ s h.
      let k = split_state-IsRails h in
      rw (split-join (g (split_state s)) (u.keep_back _ k)) (rw (u.forth _ k) (join-split s));
}

round-Undoes : (round : ℕ) → Undoes IsState (round_forward round) (round_inverse round)
unfolding round_forward round_inverse
round-Undoes round = joined-Undoes _ _ (rails_forward-Undoes round)

pub rounds-Undoes : (n : ℕ) → Undoes IsState (run_rounds n) (undo_rounds n)
unfolding run_rounds undo_rounds
rounds-Undoes n =
    Undoes-for_range round_forward round_inverse n 0 n (λ j _. round-Undoes j) (omega arith)

-- `permute` maps states of twelve 64-bit words to such states.
pub permute-IsState : (state : List ℕ) → IsState state → IsState (permute state)
unfolding permute
permute-IsState = (rounds-Undoes rounds).keep

-- On every state of twelve 64-bit words `invert` undoes `permute` and `permute` undoes `invert`,
-- and both give such a state: the full permutation is a bijection with the inverse that the code
-- computes.
pub permute_bijective :
    (state : List ℕ)
    → IsState state
    → (invert (permute state) ≡ state)
      × (permute (invert state) ≡ state)
      × IsState (permute state)
      × IsState (invert state)
unfolding permute invert
permute_bijective state h =
    let u = rounds-Undoes rounds in
    (u.back state h, u.forth state h, u.keep state h, u.keep_back state h)

-- For every count of rounds up to the full permutation, neither analysis entry point panics, and
-- `invert_rounds` with the same count takes the result of `permute_rounds` back to the state.
pub permute_rounds_invertible :
    (state : List ℕ) (n : ℕ)
    → IsState state
    → n ≤ rounds
    → (t : List ℕ) × (permute_rounds state n ≡ some t) × (invert_rounds t n ≡ some state)
unfolding permute_rounds invert_rounds
permute_rounds_invertible state n h le =
    let u = rounds-Undoes n in
    (
      run_rounds n state,
      rw (le→leb n rounds le),
      rw (le→leb n rounds le) (ap some (u.back state h)),
    )
