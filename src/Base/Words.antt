-- ===== src/Base/Words.antt =====
-- The operations of `u64` that the sources use, on native numbers below 2 ^ 64: wrapping sums,
-- rotations and exclusive or, with the laws that undo them.
use Prim.Native.Nat.{
  ℕ, zero, suc, ◌+◌, ◌-◌, ◌*◌, ◌/◌, ◌%◌, ◌^◌, ◌≤◌, ◌<◌, bit_xor, digits, differ, bit_xor-bitwise,
}
use mathlib.Core.Path.{◌≡◌, refl, ap, sym, ◌∙◌}
use native.Mathlib.Omega.{arith}
use native.Mathlib.Nat.{
  pow-suc, one-le-pow, div-lt_iff_lt-mul, mod-lt, mod-eq_of_lt, div-eq_of_lt,
  mul-add-mod_self_right, mul-add-div_right, div-add-mod',
}

abbrev pub u64_mod : ℕ
u64_mod = 2 ^ 64

abbrev pub IsU64 : ℕ → Type 0
IsU64 x = x < u64_mod

abbrev pub IsByte : ℕ → Type 0
IsByte x = x < 256

-- `u64::wrapping_add` and `u64::wrapping_sub`.
unfoldable pub wrapping_add : ℕ → ℕ → ℕ
wrapping_add a b = (a + b) % u64_mod

unfoldable pub wrapping_sub : ℕ → ℕ → ℕ
wrapping_sub a b = (a + u64_mod - b) % u64_mod

-- The low `64 - r` bits move up by `r`, and the others come in below them.
unfoldable pub rotate_left : ℕ → ℕ → ℕ
rotate_left x n = let r = n % 64 in x % 2 ^ (64 - r) * 2 ^ r + x / 2 ^ (64 - r)

unfoldable pub rotate_right : ℕ → ℕ → ℕ
rotate_right x n = let r = n % 64 in x % 2 ^ r * 2 ^ (64 - r) + x / 2 ^ r

pub wrapping_add-lt : (a b : ℕ) → IsU64 (wrapping_add a b)
unfolding wrapping_add
wrapping_add-lt a b = omega arith

pub wrapping_sub-lt : (a b : ℕ) → IsU64 (wrapping_sub a b)
unfolding wrapping_sub
wrapping_sub-lt a b = omega arith

pub wrapping_sub-add : (a b : ℕ) → IsU64 a → IsU64 b → wrapping_sub (wrapping_add a b) b ≡ a
unfolding wrapping_add wrapping_sub
wrapping_sub-add a b ha hb = omega arith

pub wrapping_add-sub : (a b : ℕ) → IsU64 a → IsU64 b → wrapping_add (wrapping_sub a b) b ≡ a
unfolding wrapping_add wrapping_sub
wrapping_add-sub a b ha hb = omega arith

-- Exclusive or, by its lowest digit.
module _ (z : ℕ → ℕ) (f : ℕ → ℕ → ℕ) where
  -- One more round does nothing once the first number has run out.
  one_more : (n a b : ℕ) → a ≤ n → digits z f (suc n) a b ≡ digits z f n a b
  one_more zero (suc a) b h = absurd (omega arith)
  one_more zero zero b h = refl
  one_more (suc n) zero b h = refl
  one_more (suc n) (suc a) b h =
      ap (λ (t : ℕ). t * 2 + f (suc a % 2) (b % 2)) (one_more n (suc a / 2) (b / 2) (omega arith))

  more : (k a b : ℕ) → digits z f (k + a) a b ≡ digits z f a a b
  more zero a b = ap (λ (t : ℕ). digits z f t a b) (omega arith)
  more (suc k) a b =
      ap (λ (t : ℕ). digits z f t a b) {x = suc k + a} {y = suc (k + a)} (omega arith)
      ∙ one_more (k + a) a b (omega arith)
      ∙ more k a b

  digits_enough : (n a b : ℕ) → a ≤ n → digits z f n a b ≡ digits z f a a b
  digits_enough n a b h =
      ap (λ (t : ℕ). digits z f t a b) {x = n} {y = n - a + a} (omega arith) ∙ more (n - a) a b

differ_bits : (x y : ℕ) → x < 2 → y < 2 → differ x y ≡ (x + y) % 2
differ_bits zero zero h k = refl
differ_bits zero (suc zero) h k = refl
differ_bits zero (suc (suc y)) h k = absurd (omega arith)
differ_bits (suc zero) zero h k = refl
differ_bits (suc zero) (suc zero) h k = refl
differ_bits (suc zero) (suc (suc y)) h k = absurd (omega arith)
differ_bits (suc (suc x)) y h k = absurd (omega arith)

bit_xor_step : (a b : ℕ) → bit_xor a b ≡ bit_xor (a / 2) (b / 2) * 2 + (a % 2 + b % 2) % 2
bit_xor_step zero b = simp bit_xor-bitwise (omega arith)
bit_xor_step (suc a) b = simp bit_xor-bitwise (
    omega (
      arith,
      digits_enough (λ y. y) differ a (suc a / 2) (b / 2) (omega arith),
      differ_bits (suc a % 2) (b % 2) (omega arith) (omega arith),
    ))

bit_xor_cancel_fuel : (n a b : ℕ) → a ≤ n → b ≤ n → bit_xor (bit_xor a b) b ≡ a
bit_xor_cancel_fuel zero zero zero h k = refl
bit_xor_cancel_fuel zero zero (suc b) h k = absurd (omega arith)
bit_xor_cancel_fuel zero (suc a) b h k = absurd (omega arith)
bit_xor_cancel_fuel (suc n) a b h k =
    let half : bit_xor a b / 2 ≡ bit_xor (a / 2) (b / 2) = omega (arith, bit_xor_step a b) in
    let ih = bit_xor_cancel_fuel n (a / 2) (b / 2) (omega arith) (omega arith) in
    bit_xor_step (bit_xor a b) b ∙ rw half (omega (arith, bit_xor_step a b, ih))

-- Exclusive or with the same word undoes itself.
pub bit_xor_cancel : (a b : ℕ) → bit_xor (bit_xor a b) b ≡ a
bit_xor_cancel a b = bit_xor_cancel_fuel (a + b) a b (omega arith) (omega arith)

bit_xor-lt_pow : (k a b : ℕ) → a < 2 ^ k → b < 2 ^ k → bit_xor a b < 2 ^ k
bit_xor-lt_pow zero zero zero h e = omega arith
bit_xor-lt_pow zero zero (suc b) h e = absurd (omega arith)
bit_xor-lt_pow zero (suc a) b h e = absurd (omega arith)
bit_xor-lt_pow (suc k) a b h e = omega (
  arith,
  bit_xor_step a b,
  pow-suc 2 k,
  bit_xor-lt_pow k (a / 2) (b / 2) (omega (arith, pow-suc 2 k)) (omega (arith, pow-suc 2 k)),
)

pub bit_xor-lt : (a b : ℕ) → IsU64 a → IsU64 b → IsU64 (bit_xor a b)
bit_xor-lt a b h k = bit_xor-lt_pow 64 a b h k

pub bit_xor-IsByte : (a b : ℕ) → IsByte a → IsByte b → IsByte (bit_xor a b)
bit_xor-IsByte a b h k = bit_xor-lt_pow 8 a b h k

-- Rotations move the two parts of `x` past one another.
pow-add : (r s : ℕ) → 2 ^ (r + s) ≡ 2 ^ r * 2 ^ s
pow-add zero s = let e : 0 + s ≡ s = omega arith in rw e (omega arith)
pow-add (suc r) s =
    let e : suc r + s ≡ suc (r + s) = omega arith in
    rw e (
      omega (
        arith,
        pow-suc 2 (r + s),
        pow-suc 2 r,
        ap (λ (t : ℕ). t * 2 ^ s) (pow-suc 2 r),
        pow-add r s,
      ))

module _ (a b : ℕ) (pos_a : 0 < a) (pos_b : 0 < b) where
  quotient-lt : (x : ℕ) → x < a * b → x / b < a
  quotient-lt x h = (div-lt_iff_lt-mul pos_b).1 h

  swap_low : (x : ℕ) → x < a * b → (x % b * a + x / b) % a ≡ x / b
  swap_low x h = mul-add-mod_self_right (x % b) a (x / b) ∙ mod-eq_of_lt (quotient-lt x h)

  swap_high : (x : ℕ) → x < a * b → (x % b * a + x / b) / a ≡ x % b
  swap_high x h =
      mul-add-div_right pos_a (x % b) (x / b) ∙ omega (arith, div-eq_of_lt (quotient-lt x h))

  swap-swap : (x : ℕ) → x < a * b → (x % b * a + x / b) % a * b + (x % b * a + x / b) / a ≡ x
  swap-swap x h = rw (swap_low x h) (rw (swap_high x h) (div-add-mod' x b))

  swap-lt : (x : ℕ) → x < a * b → x % b * a + x / b < a * b
  swap-lt x h = grind (arith, quotient-lt x h, mod-lt x pos_b)

two-pow-pos : (r : ℕ) → 0 < 2 ^ r
two-pow-pos r = one-le-pow r 2 (omega arith)

full_width : (n : ℕ) → 2 ^ (n % 64) * 2 ^ (64 - n % 64) ≡ u64_mod
full_width n =
    let e : n % 64 + (64 - n % 64) ≡ 64 = omega arith in
    sym (pow-add (n % 64) (64 - n % 64)) ∙ ap (λ (t : ℕ). 2 ^ t) e

full_width' : (n : ℕ) → 2 ^ (64 - n % 64) * 2 ^ (n % 64) ≡ u64_mod
full_width' n = omega (arith, full_width n)

-- A rotation is undone by the opposite rotation.
pub rotate_right-left : (x n : ℕ) → IsU64 x → rotate_right (rotate_left x n) n ≡ x
unfolding rotate_left rotate_right
rotate_right-left x n h =
    swap-swap (2 ^ (n % 64)) (2 ^ (64 - n % 64)) (two-pow-pos _) (two-pow-pos _) x
      (rw (full_width n) h)

pub rotate_left-right : (x n : ℕ) → IsU64 x → rotate_left (rotate_right x n) n ≡ x
unfolding rotate_left rotate_right
rotate_left-right x n h =
    swap-swap (2 ^ (64 - n % 64)) (2 ^ (n % 64)) (two-pow-pos _) (two-pow-pos _) x
      (rw (full_width' n) h)

pub rotate_left-lt : (x n : ℕ) → IsU64 x → IsU64 (rotate_left x n)
unfolding rotate_left
rotate_left-lt x n h = rw (full_width n) at (
    swap-lt (2 ^ (n % 64)) (2 ^ (64 - n % 64)) (two-pow-pos _) (two-pow-pos _) x
      (rw (full_width n) h))

pub rotate_right-lt : (x n : ℕ) → IsU64 x → IsU64 (rotate_right x n)
unfolding rotate_right
rotate_right-lt x n h = rw (full_width' n) at (
    swap-lt (2 ^ (64 - n % 64)) (2 ^ (n % 64)) (two-pow-pos _) (two-pow-pos _) x
      (rw (full_width' n) h))
