-- ===== src/Base/Bytes.antt =====
-- Byte strings: little-endian numbers, slices, copies into an array, comparison and the exclusive
-- or of two strings, with the laws that the codecs share.
use Prim.Native.Nat.{ℕ, zero, suc, ◌+◌, ◌-◌, ◌*◌, ◌/◌, ◌%◌, ◌^◌, ◌≤◌, ◌<◌, bit_xor, min}
use mathlib.Core.Path.{◌≡◌, refl, ap, ap₂, ◌∙◌}
use mathlib.Core.Logic.{◌↔◌}
use mathlib.Core.Bool.{Bool, true, false, ◌&&◌}
use mathlib.Core.List.{List, [], ◌∷◌}
use native.Mathlib.Omega.{arith}
use native.Mathlib.Nat.{pow-suc}
use or_isy_vra.Base.Tests.{◌==◌}
use or_isy_vra.Base.Lists.{
  length, set, take, drop, All, length-take, length-drop, length-set, All-set, All-take, All-drop,
}
use or_isy_vra.Base.Words.{IsByte, bit_xor_cancel, bit_xor-IsByte}

-- `n.to_le_bytes()` for an integer of `k` bytes.
unfoldable pub le_bytes : ℕ → ℕ → List ℕ
le_bytes zero n = []
le_bytes (suc k) n = (n % 256) ∷ le_bytes k (n / 256)

-- `from_le_bytes`.
unfoldable pub from_le : List ℕ → ℕ
from_le [] = 0
from_le (b ∷ bs) = b + 256 * from_le bs

-- `bytes[lo..hi]`.
abbrev pub slice : ℕ → ℕ → List ℕ → List ℕ
slice lo hi bytes = take (hi - lo) (drop lo bytes)

-- `buffer[at..at + source.len()].copy_from_slice(source)`.
unfoldable pub copy_at : ℕ → List ℕ → List ℕ → List ℕ
copy_at i [] buffer = buffer
copy_at i (b ∷ bs) buffer = copy_at (i + 1) bs (set buffer i b)

-- `a == b` on byte strings.
unfoldable pub bytes_eq : List ℕ → List ℕ → Bool
bytes_eq [] [] = true
bytes_eq [] (y ∷ ys) = false
bytes_eq (x ∷ xs) [] = false
bytes_eq (x ∷ xs) (y ∷ ys) = x == y && bytes_eq xs ys

-- `a.iter().zip(b).map(|(x, y)| x ^ y)`.
unfoldable pub xor_bytes : List ℕ → List ℕ → List ℕ
xor_bytes [] ys = []
xor_bytes (x ∷ xs) [] = []
xor_bytes (x ∷ xs) (y ∷ ys) = bit_xor x y ∷ xor_bytes xs ys

pub length-le_bytes : (k n : ℕ) → length (le_bytes k n) ≡ k
unfolding le_bytes
length-le_bytes zero n = refl
length-le_bytes (suc k) n = ap suc (length-le_bytes k (n / 256))

pub le_bytes-IsByte : (k n : ℕ) → All IsByte (le_bytes k n)
unfolding le_bytes
le_bytes-IsByte zero n = tt
le_bytes-IsByte (suc k) n = (omega arith, le_bytes-IsByte k (n / 256))

pub from_le-le_bytes : (k n : ℕ) → n < 256 ^ k → from_le (le_bytes k n) ≡ n
unfolding le_bytes from_le
from_le-le_bytes zero n h = omega arith
from_le-le_bytes (suc k) n h =
    omega (arith, from_le-le_bytes k (n / 256) (omega (arith, pow-suc 256 k)))

pub from_le-lt : (bs : List ℕ) → All IsByte bs → from_le bs < 256 ^ length bs
unfolding from_le
from_le-lt [] h = omega arith
from_le-lt (b ∷ bs) h = omega (arith, h.0, pow-suc 256 (length bs), from_le-lt bs h.1)

pub le_bytes-from_le :
    (k : ℕ) (bs : List ℕ) → All IsByte bs → length bs ≡ k → le_bytes k (from_le bs) ≡ bs
unfolding le_bytes from_le
le_bytes-from_le zero [] h e = refl
le_bytes-from_le zero (b ∷ bs) h e = absurd (omega arith)
le_bytes-from_le (suc k) [] h e = absurd (omega arith)
le_bytes-from_le (suc k) (b ∷ bs) h e =
    let low : (b + 256 * from_le bs) % 256 ≡ b = omega (arith, h.0) in
    let high : (b + 256 * from_le bs) / 256 ≡ from_le bs = omega (arith, h.0) in
    rw low (rw high (ap (λ t. b ∷ t) (le_bytes-from_le k bs h.1 (omega arith))))

pub bytes_eq_iff : (xs ys : List ℕ) → (bytes_eq xs ys ≡ true) ↔ (xs ≡ ys)
unfolding bytes_eq
bytes_eq_iff [] [] = (λ _. refl, λ _. refl)
bytes_eq_iff [] (y ∷ ys) = (λ e. cc, λ e. cc)
bytes_eq_iff (x ∷ xs) [] = (λ e. cc, λ e. cc)
bytes_eq_iff (x ∷ xs) (y ∷ ys) =
    let (sound, complete) = bytes_eq_iff xs ys in
    (λ e. ground (arith, sound), λ e. ground (arith, complete))

pub bytes_eq_self : (xs : List ℕ) → bytes_eq xs xs ≡ true
bytes_eq_self xs = (bytes_eq_iff xs xs).1 refl

pub length-xor_bytes : (xs ys : List ℕ) → length (xor_bytes xs ys) ≡ min (length xs) (length ys)
unfolding xor_bytes
length-xor_bytes [] ys = omega arith
length-xor_bytes (x ∷ xs) [] = omega arith
length-xor_bytes (x ∷ xs) (y ∷ ys) = omega (arith, length-xor_bytes xs ys)

-- Exclusive or with a key stream that is long enough undoes itself.
pub xor_bytes_cancel :
    (xs ys : List ℕ) → length xs ≤ length ys → xor_bytes (xor_bytes xs ys) ys ≡ xs
unfolding xor_bytes
xor_bytes_cancel [] ys h = refl
xor_bytes_cancel (x ∷ xs) [] h = absurd (omega arith)
xor_bytes_cancel (x ∷ xs) (y ∷ ys) h =
    ap₂ (λ t u. t ∷ u) (bit_xor_cancel x y) (xor_bytes_cancel xs ys (omega arith))

pub xor_bytes-IsByte :
    (xs ys : List ℕ) → All IsByte xs → All IsByte ys → All IsByte (xor_bytes xs ys)
unfolding xor_bytes
xor_bytes-IsByte [] ys h k = tt
xor_bytes-IsByte (x ∷ xs) [] h k = tt
xor_bytes-IsByte (x ∷ xs) (y ∷ ys) h k =
    (bit_xor-IsByte x y h.0 k.0, xor_bytes-IsByte xs ys h.1 k.1)

pub length-copy_at :
    (i : ℕ) (source buffer : List ℕ) → length (copy_at i source buffer) ≡ length buffer
unfolding copy_at
length-copy_at i [] buffer = refl
length-copy_at i (b ∷ bs) buffer =
    length-copy_at (i + 1) bs (set buffer i b) ∙ length-set buffer i b

pub copy_at-IsByte :
    (i : ℕ) (source buffer : List ℕ)
    → All IsByte source
    → All IsByte buffer
    → All IsByte (copy_at i source buffer)
unfolding copy_at
copy_at-IsByte i [] buffer h k = k
copy_at-IsByte i (b ∷ bs) buffer h k =
    copy_at-IsByte (i + 1) bs (set buffer i b) h.1 (All-set IsByte buffer i b k h.0)

pub slice-IsByte : (lo hi : ℕ) (bs : List ℕ) → All IsByte bs → All IsByte (slice lo hi bs)
slice-IsByte lo hi bs h = All-take IsByte (hi - lo) (drop lo bs) (All-drop IsByte lo bs h)

pub length-slice : (lo hi : ℕ) (bs : List ℕ) → hi ≤ length bs → length (slice lo hi bs) ≡ hi - lo
length-slice lo hi bs h = length-take (hi - lo) (drop lo bs) ∙ omega (arith, length-drop lo bs)

-- A buffer of `n` bytes: Rust's `[u8; n]`.
pub record IsBytes (n : ℕ) (bytes : List ℕ) : Type 0 where
  pub size : length bytes ≡ n
  pub all : All IsByte bytes

pub le_bytes-IsBytes : (k n : ℕ) → IsBytes k (le_bytes k n)
le_bytes-IsBytes k n = record { size = length-le_bytes k n; all = le_bytes-IsByte k n }

pub slice-IsBytes :
    (lo hi n : ℕ) (bs : List ℕ)
    → All IsByte bs
    → hi ≤ length bs
    → hi - lo ≡ n
    → IsBytes n (slice lo hi bs)
slice-IsBytes lo hi n bs h le e = record {
  size = length-slice lo hi bs le ∙ e;
  all = slice-IsByte lo hi bs h;
}
