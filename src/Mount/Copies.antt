-- ===== src/Mount/Copies.antt =====
-- Single bytes of what the loops of the mount program copy.
use or_isy_vra.Base.{
  ℕ, zero, suc, ◌+◌, ◌-◌, ◌*◌, ◌/◌, ◌%◌, ◌≤◌, ◌<◌, ◌≡◌, ◌⊎◌, inl, refl, ap, ◌∙◌, arith, List, [],
  ◌∷◌, ◌++◌, length, take, drop, replicate, get_or, set, get_or-set_self, get_or-set_ne, length-set,
}
use native.Mathlib.Nat.{div-add-mod', mod-lt, le-div_iff_mul-le, div-lt_iff_lt-mul}
use or_isy_vra.Base.Bytes.{slice, copy_at}

module _ {A : Type 0} where
  get_or-take : (xs : List A) (n k : ℕ) (d : A) → k < n → get_or (take n xs) k d ≡ get_or xs k d
  get_or-take xs zero k d h = absurd (omega arith)
  get_or-take [] (suc n) k d h = refl
  get_or-take (x ∷ xs) (suc n) zero d h = refl
  get_or-take (x ∷ xs) (suc n) (suc k) d h = get_or-take xs n k d (omega arith)

  get_or-drop : (xs : List A) (n k : ℕ) (d : A) → get_or (drop n xs) k d ≡ get_or xs (n + k) d
  get_or-drop xs zero k d = ap (λ (t : ℕ). get_or xs t d) {x = k} {y = 0 + k} (omega arith)
  get_or-drop [] (suc n) k d = refl
  get_or-drop (x ∷ xs) (suc n) k d =
      get_or-drop xs n k d
      ∙ ap (λ (t : ℕ). get_or (x ∷ xs) t d) {x = suc (n + k)} {y = suc n + k} (omega arith)

  pub get_or-beyond : (xs : List A) (k : ℕ) (d : A) → length xs ≤ k → get_or xs k d ≡ d
  get_or-beyond [] k d h = refl
  get_or-beyond (x ∷ xs) zero d h = absurd (omega arith)
  get_or-beyond (x ∷ xs) (suc k) d h = get_or-beyond xs k d (omega arith)

  pub get_or-replicate : (n k : ℕ) (d : A) → get_or (replicate n d) k d ≡ d
  get_or-replicate zero k d = refl
  get_or-replicate (suc n) zero d = refl
  get_or-replicate (suc n) (suc k) d = get_or-replicate n k d

  get_or-pad : (xs : List A) (n k : ℕ) (d : A) → get_or (xs ++ replicate n d) k d ≡ get_or xs k d
  get_or-pad [] n k d = get_or-replicate n k d
  get_or-pad (x ∷ xs) n zero d = refl
  get_or-pad (x ∷ xs) n (suc k) d = get_or-pad xs n k d

pub get_or-slice :
    (xs : List ℕ) (lo hi k : ℕ) → lo + k < hi → get_or (slice lo hi xs) k 0 ≡ get_or xs (lo + k) 0
get_or-slice xs lo hi k h =
    get_or-take (drop lo xs) (hi - lo) k 0 (omega arith) ∙ get_or-drop xs lo k 0

pub get_or-resize :
    (xs : List ℕ) (n k : ℕ)
    → k < n
    → get_or (take n (xs ++ replicate (n - length xs) 0)) k 0 ≡ get_or xs k 0
get_or-resize xs n k h =
    get_or-take (xs ++ replicate (n - length xs) 0) n k 0 h ∙ get_or-pad xs (n - length xs) k 0

-- Outside the copied bytes the buffer is as before, inside it has them.
pub copy_at-outside :
    (i k : ℕ) (source buffer : List ℕ)
    → (k < i) ⊎ (i + length source ≤ k)
    → get_or (copy_at i source buffer) k 0 ≡ get_or buffer k 0
unfolding copy_at
copy_at-outside i k [] buffer h = refl
copy_at-outside i k (b ∷ source) buffer h =
    copy_at-outside (i + 1) k source (set buffer i b) (omega (arith, h))
    ∙ get_or-set_ne buffer i k b 0 (omega (arith, h))

pub copy_at-inside :
    (i k : ℕ) (source buffer : List ℕ)
    → k < length source
    → i + length source ≤ length buffer
    → get_or (copy_at i source buffer) (i + k) 0 ≡ get_or source k 0
unfolding copy_at
copy_at-inside i k [] buffer h l = absurd (omega arith)
copy_at-inside i zero (b ∷ source) buffer h l =
    copy_at-outside (i + 1) (i + 0) source (set buffer i b) (inl (omega arith))
    ∙ ap (λ (t : ℕ). get_or (set buffer i b) t 0) {x = i + 0} {y = i} (omega arith)
    ∙ get_or-set_self buffer i b 0 (omega (arith, l))
copy_at-inside i (suc k) (b ∷ source) buffer h l =
    ap (λ (t : ℕ). get_or (copy_at (i + 1) source (set buffer i b)) t 0) {x = i + suc k}
      {y = i + 1 + k} (omega arith)
    ∙ copy_at-inside (i + 1) k source (set buffer i b) (omega arith)
        (omega (arith, l, length-set buffer i b))

-- A number in a block: its index and its place there.
module _ (b : ℕ) (positive : 0 < b) where
  pub div_place : (a : ℕ) → (a / b * b + a % b ≡ a) × (a % b < b)
  div_place a = (div-add-mod' a b, mod-lt a positive)

  pub div_unique : (a q r : ℕ) → q * b + r ≡ a → r < b → a / b ≡ q
  div_unique a q r e h =
      let low : q ≤ a / b = (le-div_iff_mul-le positive).1 (omega (arith, e)) in
      let high : a / b < suc q = (div-lt_iff_lt-mul positive).1 (next q r e h) in
      omega (arith, low, high)
    where
      next : (q r : ℕ) → q * b + r ≡ a → r < b → a < suc q * b
      next q r e h = omega (arith, e, h)

  -- A few bytes on, in the same block.
  pub same_block : (a k : ℕ) → a % b + k < b → ((a + k) / b ≡ a / b) × ((a + k) % b ≡ a % b + k)
  same_block a k h =
      let place = div_place a in
      let q = div_unique (a + k) (a / b) (a % b + k) (omega (arith, place.0)) h in
      (q, place_of ((a + k) / b) (a / b) q (omega (arith, place.0, (div_place (a + k)).0)))
    where
      place_of :
          (q q' : ℕ) → q ≡ q' → q * b + (a + k) % b ≡ q' * b + (a % b + k) → (a + k) % b ≡ a % b + k
      place_of q q' e h =
          let same : q' * b + (a + k) % b ≡ q' * b + (a % b + k) = rw e at h in omega (arith, same)
