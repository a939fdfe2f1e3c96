-- ===== src/Core/Permutation/Steps.antt =====
-- Each part of a round and the part of the inverse round beside it undo one another.
use or_isy_vra.Base.{
  ℕ, zero, suc, ◌+◌, ◌%◌, ◌<◌, ◌≡◌, ◌≢◌, refl, ap, ◌∙◌, sym, arith, List, [], ◌∷◌, length, get_or,
  set, All, length-set, get_or-set_self, get_or-set_ne, set-set, set_comm, bit_xor, All-get_or,
}
use or_isy_vra.Base.Words.{
  IsU64, wrapping_add, wrapping_sub, rotate_left, rotate_right, bit_xor-lt, rotate_left-lt,
}
use or_isy_vra.Base.Loops.{Undoes, Undoes-compose, for_range_rev, Undoes-for_range, for_range_keep}
use or_isy_vra.Core.Constants.{rc_a, rc_b, rc_c}
use or_isy_vra.Core.Permutation.{
  Lanes, Rails, at, update, round_rot, collide_forward, collide_inverse, permute_words,
  inverse_permute_words, add_constants, remove_constants, pair_of, collide_pairs, separate_pairs,
  neighbours, mix_wave, unmix_wave, kick, kick_collision, unkick_collision, impulse, kick_wave,
  unkick_wave, rotate_lane, unrotate_lane, rotate_rails, unrotate_rails, permute_rails,
  inverse_permute_rails, c_rot, w_rot, c_perm, w_perm,
}
use or_isy_vra.Core.Permutation.Lanes.{
  IsLanes, IsRails, IsLanes-at, IsLanes-set, IsOperand, IsOperand-constant, add_sub, xor_xor,
  rotations, update-Undoes, both-Undoes, Undoes-agree,
}

round_rot-lt : (base round lane stride : ℕ) → IsU64 (round_rot base round lane stride)
unfolding round_rot
round_rot-lt base round lane stride = omega arith

-- Reading one lane does not depend on another.
at-set_ne : (c : Lanes) (i j v : ℕ) → i ≢ j → at (set c i v) j ≡ at c j
at-set_ne c i j v h = get_or-set_ne c i j v 0 h

rotated_lane-IsOperand : (i j n : ℕ) → i ≢ j → IsOperand i (λ c. rotate_left (at c j) n)
rotated_lane-IsOperand i j n h = record {
  word = λ c l. rotate_left-lt _ n (IsLanes-at l j);
  independent = λ c v. ap (λ (t : ℕ). rotate_left t n) (at-set_ne c i j v h);
}

-- A collision is three assignments to the lanes of the pair.
module _ (a b round pair : ℕ) (a_below : a < 6) (b_below : b < 6) (differ : a ≢ b) where
  abbrev r1 : ℕ
  r1 = round_rot 7 round pair 7

  abbrev r2 : ℕ
  r2 = round_rot 19 round pair 11

  abbrev r3 : ℕ
  r3 = round_rot 31 round pair 13

  abbrev assign_forward : Lanes → Lanes
  assign_forward c =
      let c1 = update wrapping_add c a (rotate_left (at c b) r1) in
      let c2 = update bit_xor c1 b (rotate_left (at c1 a) r2) in update rotate_left c2 a r3

  abbrev assign_inverse : Lanes → Lanes
  assign_inverse c =
      let c1 = update rotate_right c a r3 in
      let c2 = update bit_xor c1 b (rotate_left (at c1 a) r2) in
      update wrapping_sub c2 a (rotate_left (at c2 b) r1)

  b-ne-a : b ≢ a
  b-ne-a e = differ (sym e)

  assigned-Undoes : Undoes IsLanes assign_forward assign_inverse
  assigned-Undoes =
      Undoes-compose (update-Undoes add_sub a _ a_below (rotated_lane-IsOperand a b r1 differ)) (
        Undoes-compose (update-Undoes xor_xor b _ b_below (rotated_lane-IsOperand b a r2 b-ne-a)) (
          update-Undoes rotations a _ a_below
            (IsOperand-constant a r3 (round_rot-lt 31 round pair 13))))

  -- The second write to lane `a` replaces the first one.
  three_writes :
      (c : Lanes) (v : ℕ) (w u : ℕ → ℕ → ℕ)
      → IsLanes c
      → let c1 = set c a v in
        let c2 = set c1 b (w (at c1 b) (at c1 a)) in
        set c2 a (u (at c2 a) (at c2 b)) ≡ set (set c a (u v (w (at c b) v))) b (w (at c b) v)
  three_writes c v w u h =
      let y = w (at c b) v in
      let in_a : a < length c = rw h.six a_below in
      let in_b : b < length (set c a v) = rw length-set (rw h.six b_below) in
      rw (at-set_ne c a b v differ) (
        rw (get_or-set_self c a v 0 in_a) (
          rw (at-set_ne (set c a v) b a y b-ne-a) (
            rw (get_or-set_self c a v 0 in_a) (
              rw (get_or-set_self (set c a v) b y 0 in_b) (
                set_comm (set c a v) b a y (u v y) b-ne-a
                ∙ ap (λ (t : Lanes). set t b y) (set-set c a v (u v y)))))))

  collide_forward-eq : (c : Lanes) → IsLanes c → collide_forward c a b round pair ≡ assign_forward c
  unfolding collide_forward
  collide_forward-eq c h = sym (
      three_writes c (wrapping_add (at c a) (rotate_left (at c b) r1))
        (λ y z. bit_xor y (rotate_left z r2)) (λ y _. rotate_left y r3) h)

  collide_inverse-eq : (c : Lanes) → IsLanes c → collide_inverse c a b round pair ≡ assign_inverse c
  unfolding collide_inverse
  collide_inverse-eq c h = sym (
      three_writes c (rotate_right (at c a) r3) (λ y z. bit_xor y (rotate_left z r2))
        (λ y z. wrapping_sub y (rotate_left z r1)) h)

  collide-Undoes :
      Undoes IsLanes (λ c. collide_forward c a b round pair) (λ c. collide_inverse c a b round pair)
  collide-Undoes = Undoes-agree assigned-Undoes collide_forward-eq collide_inverse-eq

pair_of-fits :
    (schedule i : ℕ)
    → schedule < 3
    → i < 3
    → ((pair_of schedule i).0 < 6)
      × ((pair_of schedule i).1 < 6)
      × ((pair_of schedule i).0 ≢ (pair_of schedule i).1)
pair_of-fits zero zero h k = omega arith
pair_of-fits zero (suc zero) h k = omega arith
pair_of-fits zero (suc (suc zero)) h k = omega arith
pair_of-fits (suc zero) zero h k = omega arith
pair_of-fits (suc zero) (suc zero) h k = omega arith
pair_of-fits (suc zero) (suc (suc zero)) h k = omega arith
pair_of-fits (suc (suc zero)) zero h k = omega arith
pair_of-fits (suc (suc zero)) (suc zero) h k = omega arith
pair_of-fits (suc (suc zero)) (suc (suc zero)) h k = omega arith
pair_of-fits (suc (suc (suc s))) i h k = absurd (omega arith)
pair_of-fits s (suc (suc (suc i))) h k = absurd (omega arith)

pub pairs-Undoes :
    (schedule round : ℕ)
    → schedule < 3
    → Undoes IsLanes (collide_pairs schedule round) (separate_pairs schedule round)
unfolding collide_pairs separate_pairs
pairs-Undoes schedule round h =
    Undoes-for_range
      (λ i lanes. collide_forward lanes (pair_of schedule i).0 (pair_of schedule i).1 round i)
      (λ i lanes. collide_inverse lanes (pair_of schedule i).0 (pair_of schedule i).1 round i) 3 0 3
      (λ i k.
        let (a_below, b_below, differ) = pair_of-fits schedule i h k in
        collide-Undoes _ _ round i a_below b_below differ)
      (omega arith)

neighbours-IsOperand : (lane : ℕ) → lane < 6 → IsOperand lane (neighbours lane)
unfolding neighbours
neighbours-IsOperand lane h = record {
  word = λ c l.
      bit_xor-lt _ _ (rotate_left-lt _ _ (IsLanes-at l _)) (rotate_left-lt _ _ (IsLanes-at l _));
  independent = λ c v.
      rw (at-set_ne c lane ((lane + 5) % 6) v (omega arith))
        (rw (at-set_ne c lane ((lane + 1) % 6) v (omega arith)));
}

pub mix-Undoes : Undoes IsLanes mix_wave unmix_wave
unfolding mix_wave unmix_wave
mix-Undoes =
    Undoes-for_range (λ lane c. update wrapping_add c lane (neighbours lane c))
      (λ lane c. update wrapping_sub c lane (neighbours lane c)) 6 0 6
      (λ lane h. update-Undoes add_sub lane (neighbours lane) h (neighbours-IsOperand lane h))
      (omega arith)

pub kick_collision-Undoes :
    (round : ℕ) (wave : Lanes)
    → IsLanes wave
    → Undoes IsLanes (kick_collision round wave) (unkick_collision round wave)
unfolding kick_collision unkick_collision kick
kick_collision-Undoes round wave h =
    Undoes-for_range (λ lane c. update bit_xor c lane (kick round lane wave))
      (λ lane c. update bit_xor c lane (kick round lane wave)) 6 0 6
      (λ lane k.
        update-Undoes xor_xor lane _ k
          (IsOperand-constant lane _ (rotate_left-lt _ _ (IsLanes-at h _))))
      (omega arith)

pub kick_wave-Undoes :
    (collision : Lanes)
    → IsLanes collision
    → Undoes IsLanes (kick_wave collision) (unkick_wave collision)
unfolding kick_wave unkick_wave impulse
kick_wave-Undoes collision h =
    Undoes-for_range (λ lane c. update wrapping_add c lane (impulse lane collision))
      (λ lane c. update wrapping_sub c lane (impulse lane collision)) 6 0 6
      (λ lane k. update-Undoes add_sub lane _ k (
        IsOperand-constant lane _
          (rotate_left-lt _ _ (bit_xor-lt _ _ (IsLanes-at h _) (IsLanes-at h _)))))
      (omega arith)

rotate_lane-Undoes :
    (round lane : ℕ) → lane < 6 → Undoes IsRails (rotate_lane round lane) (unrotate_lane round lane)
unfolding rotate_lane unrotate_lane
rotate_lane-Undoes round lane h =
    both-Undoes
      (update-Undoes rotations lane _ h
        (IsOperand-constant lane _ (round_rot-lt (at c_rot lane) round lane 3)))
      (update-Undoes rotations lane _ h
        (IsOperand-constant lane _ (round_rot-lt (at w_rot lane) round lane 5)))

-- A statement about six lanes may be proved for six variables.
six_lanes {κ} :
    (P : Lanes → Type κ)
    → ((a b c d e f : ℕ) → P (a ∷ b ∷ c ∷ d ∷ e ∷ f ∷ []))
    → (c : Lanes) → length c ≡ 6
    → P c
six_lanes P h [] e = absurd (omega arith)
six_lanes P h (_ ∷ []) e = absurd (omega arith)
six_lanes P h (_ ∷ _ ∷ []) e = absurd (omega arith)
six_lanes P h (_ ∷ _ ∷ _ ∷ []) e = absurd (omega arith)
six_lanes P h (_ ∷ _ ∷ _ ∷ _ ∷ []) e = absurd (omega arith)
six_lanes P h (_ ∷ _ ∷ _ ∷ _ ∷ _ ∷ []) e = absurd (omega arith)
six_lanes P h (x1 ∷ x2 ∷ x3 ∷ x4 ∷ x5 ∷ x6 ∷ []) e = h x1 x2 x3 x4 x5 x6
six_lanes P h (_ ∷ _ ∷ _ ∷ _ ∷ _ ∷ _ ∷ _ ∷ _) e = absurd (omega arith)

-- The inverse rotations run upwards in the source; the lanes are separate, so the order is free.
upwards :
    (round : ℕ) (r : Rails)
    → IsRails r
    → unrotate_rails round r ≡ for_range_rev 6 0 (unrotate_lane round) r
unfolding unrotate_rails unrotate_lane for_range_rev
upwards round r h =
    six_lanes
      (λ c.
        unrotate_rails round (record { collision = c; wave = r.wave })
        ≡ for_range_rev 6 0 (unrotate_lane round) (record { collision = c; wave = r.wave }))
      (λ a b c d e f.
        six_lanes
          (λ w.
            unrotate_rails round (record { collision = a ∷ b ∷ c ∷ d ∷ e ∷ f ∷ []; wave = w })
            ≡ for_range_rev 6 0 (unrotate_lane round)
                (record { collision = a ∷ b ∷ c ∷ d ∷ e ∷ f ∷ []; wave = w }))
          (λ _ _ _ _ _ _. refl) r.wave h.wave_lanes.six)
      r.collision h.collision_lanes.six

pub rotate_rails-Undoes : (round : ℕ) → Undoes IsRails (rotate_rails round) (unrotate_rails round)
unfolding rotate_rails
rotate_rails-Undoes round =
    Undoes-agree
      (Undoes-for_range (rotate_lane round) (unrotate_lane round) 6 0 6 (rotate_lane-Undoes round)
        (omega arith))
      (λ _ _. refl) (upwards round)

permute_words-IsLanes : (c : Lanes) (p : List ℕ) → IsLanes c → IsLanes (permute_words c p)
unfolding permute_words
permute_words-IsLanes c p h =
    for_range_keep {P = IsLanes} (λ output lanes. set lanes output (at c (at p output))) 6 0 6 c
      (λ j t _ k. IsLanes-set k j _ (IsLanes-at h (at p j))) (omega arith) h

inverse_permute_words-IsLanes :
    (c : Lanes) (p : List ℕ) → IsLanes c → IsLanes (inverse_permute_words c p)
unfolding inverse_permute_words
inverse_permute_words-IsLanes c p h =
    for_range_keep {P = IsLanes} (λ output lanes. set lanes (at p output) (at c output)) 6 0 6 c
      (λ j t _ k. IsLanes-set k (at p j) _ (IsLanes-at h j)) (omega arith) h

-- The index table `p` is a permutation of six that `inverse_permute_words` inverts.
abbrev IsInverted : List ℕ → Type 0
IsInverted p =
    (c : Lanes)
    → length c ≡ 6
    → (inverse_permute_words (permute_words c p) p ≡ c)
      × (permute_words (inverse_permute_words c p) p ≡ c)

c_perm-IsInverted : (schedule : ℕ) → schedule < 3 → IsInverted (get_or c_perm schedule [])
unfolding permute_words inverse_permute_words
c_perm-IsInverted zero h = six_lanes _ (λ _ _ _ _ _ _. (refl, refl))
c_perm-IsInverted (suc zero) h = six_lanes _ (λ _ _ _ _ _ _. (refl, refl))
c_perm-IsInverted (suc (suc zero)) h = six_lanes _ (λ _ _ _ _ _ _. (refl, refl))
c_perm-IsInverted (suc (suc (suc s))) h = absurd (omega arith)

w_perm-IsInverted : (schedule : ℕ) → schedule < 3 → IsInverted (get_or w_perm schedule [])
unfolding permute_words inverse_permute_words
w_perm-IsInverted zero h = six_lanes _ (λ _ _ _ _ _ _. (refl, refl))
w_perm-IsInverted (suc zero) h = six_lanes _ (λ _ _ _ _ _ _. (refl, refl))
w_perm-IsInverted (suc (suc zero)) h = six_lanes _ (λ _ _ _ _ _ _. (refl, refl))
w_perm-IsInverted (suc (suc (suc s))) h = absurd (omega arith)

words-Undoes :
    (p : List ℕ)
    → IsInverted p
    → Undoes IsLanes (λ c. permute_words c p) (λ c. inverse_permute_words c p)
words-Undoes p inverted = record {
  keep = λ c h. permute_words-IsLanes c p h;
  keep_back = λ c h. inverse_permute_words-IsLanes c p h;
  back = λ c h. (inverted c h.six).0;
  forth = λ c h. (inverted c h.six).1;
}

pub permute_rails-Undoes :
    (schedule : ℕ)
    → schedule < 3
    → Undoes IsRails (permute_rails schedule) (inverse_permute_rails schedule)
unfolding permute_rails inverse_permute_rails
permute_rails-Undoes schedule h =
    both-Undoes (words-Undoes _ (c_perm-IsInverted schedule h))
      (words-Undoes _ (w_perm-IsInverted schedule h))

-- Every round constant is a word.
rc-words : All IsU64 rc_a × All IsU64 rc_b × All IsU64 rc_c
rc-words = omega arith

constant-IsOperand : (i round : ℕ) (rc : List ℕ) → All IsU64 rc → IsOperand i (λ _. at rc round)
constant-IsOperand i round rc h =
    IsOperand-constant i (at rc round) (All-get_or IsU64 rc round 0 h (omega arith))

pub constants-Undoes : (round : ℕ) → Undoes IsRails (add_constants round) (remove_constants round)
unfolding add_constants remove_constants
constants-Undoes round =
    both-Undoes
      (Undoes-compose
        (update-Undoes xor_xor 0 _ (omega arith) (constant-IsOperand 0 round rc_a rc-words.0))
        (update-Undoes add_sub 3 _ (omega arith) (constant-IsOperand 3 round rc_c rc-words.2)))
      (update-Undoes xor_xor 5 _ (omega arith) (constant-IsOperand 5 round rc_b rc-words.1))
