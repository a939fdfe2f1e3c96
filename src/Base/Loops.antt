-- ===== src/Base/Loops.antt =====
-- Counted loops over a state, upwards and downwards, and pairs of functions that undo one another.
use Prim.Native.Nat.{ℕ, zero, suc, ◌+◌, ◌≤◌, ◌<◌}
use mathlib.Core.Path.{◌≡◌, refl, ap, ◌∙◌}
use native.Mathlib.Omega.{arith}

-- `for i in i..i + n { body }`.
unfoldable pub for_range {ℓ} : {S : Type ℓ} → ℕ → ℕ → (ℕ → S → S) → S → S
for_range zero first step s = s
for_range (suc left) first step s = for_range left (first + 1) step (step first s)

-- `for i in (i..i + n).rev() { body }`: the highest index first.
unfoldable pub for_range_rev {ℓ} : {S : Type ℓ} → ℕ → ℕ → (ℕ → S → S) → S → S
for_range_rev zero i body s = s
for_range_rev (suc n) i body s = body i (for_range_rev n (i + 1) body s)

-- On the states that satisfy `P`, which both keep, `f` and `g` undo one another.
pub record Undoes {ℓ κ} {S : Type ℓ} (P : S → Type κ) (f g : S → S) : Type (ℓ ⊔ κ) where
  pub keep : (s : S) → P s → P (f s)
  pub keep_back : (s : S) → P s → P (g s)
  pub back : (s : S) → P s → g (f s) ≡ s
  pub forth : (s : S) → P s → f (g s) ≡ s

module _ {ℓ κ} {S : Type ℓ} {P : S → Type κ} where
  pub Undoes-symm : {f g : S → S} → Undoes P f g → Undoes P g f
  Undoes-symm u = record { keep = u.keep_back; keep_back = u.keep; back = u.forth; forth = u.back }

  pub Undoes-compose :
      {f g f' g' : S → S} → Undoes P f g → Undoes P f' g' → Undoes P (λ s. f' (f s)) (λ s. g (g' s))
  Undoes-compose {f} {g} {f'} {g'} u v = record {
    keep = λ s h. v.keep _ (u.keep s h);
    keep_back = λ s h. u.keep_back _ (v.keep_back s h);
    back = λ s h. ap g (v.back _ (u.keep s h)) ∙ u.back s h;
    forth = λ s h. ap f' (u.forth _ (v.keep_back s h)) ∙ v.forth s h;
  }

  -- A loop is undone by the loop over the same indices downwards whose body undoes its body.
  pub Undoes-for_range :
      (f g : ℕ → S → S) (n i k : ℕ)
      → ((j : ℕ) → j < k → Undoes P (f j) (g j))
      → i + n ≤ k
      → Undoes P (for_range n i f) (for_range_rev n i g)
  unfolding for_range for_range_rev
  Undoes-for_range f g zero i k h le = record {
    keep = λ s p. p;
    keep_back = λ s p. p;
    back = λ s p. refl;
    forth = λ s p. refl;
  }
  Undoes-for_range f g (suc n) i k h le =
      Undoes-compose (h i (omega arith)) (Undoes-for_range f g n (i + 1) k h (omega arith))

  -- Where the bodies at different indices are independent the downward order may be dropped.
  pub for_range_keep :
      (f : ℕ → S → S) (n i k : ℕ) (s : S)
      → ((j : ℕ) (t : S) → j < k → P t → P (f j t))
      → i + n ≤ k
      → P s
      → P (for_range n i f s)
  unfolding for_range
  for_range_keep f zero i k s h le p = p
  for_range_keep f (suc n) i k s h le p =
      for_range_keep f n (i + 1) k (f i s) h (omega arith) (h i s (omega arith) p)
