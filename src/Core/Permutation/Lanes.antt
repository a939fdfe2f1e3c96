-- ===== src/Core/Permutation/Lanes.antt =====
-- Assignments to one lane that undo one another, and how they lift to both rails.
use or_isy_vra.Base.{
  ℕ, ◌<◌, ◌≡◌, refl, ap, ◌∙◌, arith, length, set, All, length-set, get_or-set_self, set-set,
  set-get_or, All-set, All-get_or, bit_xor,
}
use or_isy_vra.Base.Words.{
  IsU64, wrapping_add, wrapping_sub, rotate_left, rotate_right, wrapping_add-lt, wrapping_sub-lt,
  wrapping_sub-add, wrapping_add-sub, bit_xor_cancel, bit_xor-lt, rotate_right-left,
  rotate_left-right, rotate_left-lt, rotate_right-lt,
}
use or_isy_vra.Base.Loops.{Undoes, Undoes-compose}
use or_isy_vra.Core.Permutation.{Lanes, Rails, at, update, on_collision, on_wave}

-- Six words.
pub record IsLanes (c : Lanes) : Type 0 where
  pub six : length c ≡ 6
  pub words : All IsU64 c

pub record IsRails (r : Rails) : Type 0 where
  pub collision_lanes : IsLanes r.collision
  pub wave_lanes : IsLanes r.wave

pub IsLanes-at : {c : Lanes} → IsLanes c → (i : ℕ) → IsU64 (at c i)
IsLanes-at {c} h i = All-get_or IsU64 c i 0 h.words (omega arith)

pub IsLanes-set : {c : Lanes} → IsLanes c → (i v : ℕ) → IsU64 v → IsLanes (set c i v)
IsLanes-set {c} h i v k = record {
  six = length-set c i v ∙ h.six;
  words = All-set IsU64 c i v h.words k;
}

-- On words, `un` undoes `op` and `op` undoes `un`.
pub record WordUndo (op un : ℕ → ℕ → ℕ) : Type 0 where
  pub op_word : (x k : ℕ) → IsU64 x → IsU64 k → IsU64 (op x k)
  pub un_word : (x k : ℕ) → IsU64 x → IsU64 k → IsU64 (un x k)
  pub un_op : (x k : ℕ) → IsU64 x → IsU64 k → un (op x k) k ≡ x
  pub op_un : (x k : ℕ) → IsU64 x → IsU64 k → op (un x k) k ≡ x

pub add_sub : WordUndo wrapping_add wrapping_sub
add_sub = record {
  op_word = λ x k _ _. wrapping_add-lt x k;
  un_word = λ x k _ _. wrapping_sub-lt x k;
  un_op = wrapping_sub-add;
  op_un = wrapping_add-sub;
}

pub xor_xor : WordUndo bit_xor bit_xor
xor_xor = record {
  op_word = bit_xor-lt;
  un_word = bit_xor-lt;
  un_op = λ x k _ _. bit_xor_cancel x k;
  op_un = λ x k _ _. bit_xor_cancel x k;
}

pub rotations : WordUndo rotate_left rotate_right
rotations = record {
  op_word = λ x k h _. rotate_left-lt x k h;
  un_word = λ x k h _. rotate_right-lt x k h;
  un_op = λ x k h _. rotate_right-left x k h;
  op_un = λ x k h _. rotate_left-right x k h;
}

pub WordUndo-symm : {op un : ℕ → ℕ → ℕ} → WordUndo op un → WordUndo un op
WordUndo-symm w = record {
  op_word = w.un_word;
  un_word = w.op_word;
  un_op = w.op_un;
  op_un = w.un_op;
}

-- What is combined into lane `i` is a word that does not depend on lane `i`.
pub record IsOperand (i : ℕ) (operand : Lanes → ℕ) : Type 0 where
  pub word : (c : Lanes) → IsLanes c → IsU64 (operand c)
  pub independent : (c : Lanes) (v : ℕ) → operand (set c i v) ≡ operand c

pub IsOperand-constant : (i k : ℕ) → IsU64 k → IsOperand i (λ _. k)
IsOperand-constant i k h = record { word = λ _ _. h; independent = λ _ _. refl }

module _ {op un : ℕ → ℕ → ℕ} (w : WordUndo op un) (i : ℕ) (operand : Lanes → ℕ) (in_range : i < 6)
    (o : IsOperand i operand) where
  update_back :
      (c : Lanes)
      → IsLanes c
      → update un (update op c i (operand c)) i (operand (update op c i (operand c))) ≡ c
  update_back c h =
      let x = at c i in
      let k = operand c in
      let y = op x k in
      let below : i < length c = rw h.six in_range in
      rw (o.independent c y) (
        rw (get_or-set_self c i y 0 below)
          (rw (w.un_op x k (IsLanes-at h i) (o.word c h)) (set-set c i y x ∙ set-get_or c i 0)))

  update_keep : (c : Lanes) → IsLanes c → IsLanes (update op c i (operand c))
  update_keep c h = IsLanes-set h i _ (w.op_word (at c i) (operand c) (IsLanes-at h i) (o.word c h))

pub update-Undoes :
    {op un : ℕ → ℕ → ℕ} (w : WordUndo op un) (i : ℕ) (operand : Lanes → ℕ)
    → i < 6
    → IsOperand i operand
    → Undoes IsLanes (λ c. update op c i (operand c)) (λ c. update un c i (operand c))
update-Undoes w i operand h o = record {
  keep = update_keep w i operand h o;
  keep_back = update_keep (WordUndo-symm w) i operand h o;
  back = update_back w i operand h o;
  forth = update_back (WordUndo-symm w) i operand h o;
}

-- A step on one rail that reads the other one.
pub on_collision-Undoes :
    (f g : Lanes → Lanes → Lanes)
    → ((wave : Lanes) → IsLanes wave → Undoes IsLanes (f wave) (g wave))
    → Undoes IsRails (on_collision f) (on_collision g)
on_collision-Undoes f g u = record {
  keep = λ r h. record {
    collision_lanes = (u r.wave h.wave_lanes).keep _ h.collision_lanes;
    wave_lanes = h.wave_lanes;
  };
  keep_back = λ r h. record {
    collision_lanes = (u r.wave h.wave_lanes).keep_back _ h.collision_lanes;
    wave_lanes = h.wave_lanes;
  };
  back = λ r h.
      ap (λ c. record { collision = c; wave = r.wave })
        ((u r.wave h.wave_lanes).back _ h.collision_lanes);
  forth = λ r h.
      ap (λ c. record { collision = c; wave = r.wave })
        ((u r.wave h.wave_lanes).forth _ h.collision_lanes);
}

pub on_wave-Undoes :
    (f g : Lanes → Lanes → Lanes)
    → ((collision : Lanes) → IsLanes collision → Undoes IsLanes (f collision) (g collision))
    → Undoes IsRails (on_wave f) (on_wave g)
on_wave-Undoes f g u = record {
  keep = λ r h. record {
    collision_lanes = h.collision_lanes;
    wave_lanes = (u r.collision h.collision_lanes).keep _ h.wave_lanes;
  };
  keep_back = λ r h. record {
    collision_lanes = h.collision_lanes;
    wave_lanes = (u r.collision h.collision_lanes).keep_back _ h.wave_lanes;
  };
  back = λ r h.
      ap (λ w. record { collision = r.collision; wave = w })
        ((u r.collision h.collision_lanes).back _ h.wave_lanes);
  forth = λ r h.
      ap (λ w. record { collision = r.collision; wave = w })
        ((u r.collision h.collision_lanes).forth _ h.wave_lanes);
}

-- Steps on both rails at once that do not read one another.
pub both-Undoes :
    {f g f' g' : Lanes → Lanes}
    → Undoes IsLanes f g
    → Undoes IsLanes f' g'
    → Undoes IsRails
        (λ r. record { collision = f r.collision; wave = f' r.wave })
        (λ r. record { collision = g r.collision; wave = g' r.wave })
both-Undoes {f} {g} {f'} {g'} u v =
    Undoes-compose (on_collision-Undoes (λ _. f) (λ _. g) (λ _ _. u))
      (on_wave-Undoes (λ _. f') (λ _. g') (λ _ _. v))

-- A step may be replaced by one that agrees with it on good states.
pub Undoes-agree {ℓ κ} :
    {S : Type ℓ} {P : S → Type κ} {f g f' g' : S → S}
    → Undoes P f g
    → ((s : S) → P s → f' s ≡ f s)
    → ((s : S) → P s → g' s ≡ g s)
    → Undoes P f' g'
Undoes-agree {P} {f} {g} {f'} {g'} u ef eg = record {
  keep = λ s h. rw (ef s h) (u.keep s h);
  keep_back = λ s h. rw (eg s h) (u.keep_back s h);
  back = λ s h. ap g' (ef s h) ∙ eg (f s) (u.keep s h) ∙ u.back s h;
  forth = λ s h. ap f' (eg s h) ∙ ef (g s) (u.keep_back s h) ∙ u.forth s h;
}
