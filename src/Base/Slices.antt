-- ===== src/Base/Slices.antt =====
-- Slices of strings that begin alike.
use Prim.Native.Nat.{ℕ, zero, suc, ◌+◌, ◌-◌, ◌≤◌}
use mathlib.Core.Path.{◌≡◌, refl, ap, sym, ◌∙◌}
use mathlib.Core.List.{List, [], ◌∷◌, ◌++◌}
use native.Mathlib.Omega.{arith}
use or_isy_vra.Base.Lists.{
  length, take, drop, length-take, take-append-drop, drop-append_add, drop-drop,
}
use or_isy_vra.Base.Bytes.{slice}

-- A prefix of a longer string, and a slice as a prefix without its head.
pub take-append_ge : (n : ℕ) (xs ys : List ℕ) → n ≤ length xs → take n (xs ++ ys) ≡ take n xs
take-append_ge zero xs ys h = refl
take-append_ge (suc n) [] ys h = absurd (omega arith)
take-append_ge (suc n) (x ∷ xs) ys h = ap (λ t. x ∷ t) (take-append_ge n xs ys (omega arith))

pub take-take : (n m : ℕ) (xs : List ℕ) → n ≤ m → take n (take m xs) ≡ take n xs
take-take zero m xs h = refl
take-take (suc n) zero xs h = absurd (omega arith)
take-take (suc n) (suc m) [] h = refl
take-take (suc n) (suc m) (x ∷ xs) h = ap (λ t. x ∷ t) (take-take n m xs (omega arith))

pub slice-take : (lo hi : ℕ) (xs : List ℕ) → lo ≤ hi → slice lo hi xs ≡ drop lo (take hi xs)
slice-take zero hi xs h = ap (λ (t : ℕ). take t xs) {x = hi - 0} {y = hi} (omega arith)
slice-take (suc lo) zero xs h = absurd (omega arith)
slice-take (suc lo) (suc hi) [] h = nothing (suc hi - suc lo)
  where
    nothing : (n : ℕ) → take {A = ℕ} n [] ≡ []
    nothing zero = refl
    nothing (suc n) = refl
slice-take (suc lo) (suc hi) (x ∷ xs) h =
    ap (λ (t : ℕ). take t (drop lo xs)) {x = suc hi - suc lo} {y = hi - lo} (omega arith)
    ∙ slice-take lo hi xs (omega arith)

-- Strings that agree up to `e` have the same slices there.
pub slice-agree :
    (lo hi e : ℕ) (xs rest : List ℕ)
    → lo ≤ hi
    → hi ≤ e
    → e ≤ length xs
    → slice lo hi (take e xs ++ rest) ≡ slice lo hi xs
slice-agree lo hi e xs rest h h' l =
    slice-take lo hi (take e xs ++ rest) h
    ∙ ap (drop lo) (
        take-append_ge hi (take e xs) rest (omega (arith, length-take e xs)) ∙ take-take hi e xs h')
    ∙ sym (slice-take lo hi xs h)

-- The slice behind a prefix extends it.
pub take-append-slice :
    (lo hi : ℕ) (xs : List ℕ) → lo ≤ hi → take lo xs ++ slice lo hi xs ≡ take hi xs
take-append-slice lo hi xs h =
    ap (λ t. take lo xs ++ t) (slice-take lo hi xs h)
    ∙ ap (λ t. t ++ drop lo (take hi xs)) (sym (take-take lo hi xs h))
    ∙ take-append-drop lo (take hi xs)

-- A slice behind a prefix, and a slice of a slice.
pub slice-append_right :
    (k lo hi : ℕ) (pre xs : List ℕ)
    → length pre ≡ k
    → slice (k + lo) (k + hi) (pre ++ xs) ≡ slice lo hi xs
slice-append_right k lo hi pre xs e =
    ap (take (k + hi - (k + lo))) (drop-append_add (k + lo) lo pre xs (omega arith))
    ∙ ap (λ (t : ℕ). take t (drop lo xs)) {x = k + hi - (k + lo)} {y = hi - lo} (omega arith)

pub slice-slice :
    (lo hi a b : ℕ) (xs : List ℕ)
    → a ≤ b
    → lo + b ≤ hi
    → slice a b (slice lo hi xs) ≡ slice (lo + a) (lo + b) xs
slice-slice lo hi a b xs h l =
    slice-take a b (slice lo hi xs) h
    ∙ ap (drop a) (take-take b (hi - lo) (drop lo xs) (omega arith))
    ∙ sym (slice-take a b (drop lo xs) h)
    ∙ ap (take (b - a)) (drop-drop a lo xs)
    ∙ ap (λ (t : ℕ). take t (drop (lo + a) xs)) {x = b - a} {y = lo + b - (lo + a)} (omega arith)
