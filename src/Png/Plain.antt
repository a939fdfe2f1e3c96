-- ===== src/Png/Plain.antt =====
-- Files that the PNG specification allows: whole chunks up to IEND. On such a file the loop that
-- puts a chunk before IEND succeeds.
use or_isy_vra.Base.{
  ℕ, zero, suc, ◌+◌, ◌^◌, ◌≤◌, ◌<◌, ◌≡◌, refl, arith, List, ◌++◌, length, take, true, false, some,
  le→leb, ltb-false,
}
use or_isy_vra.Base.Bytes.{slice, bytes_eq, bytes_eq_self}
use or_isy_vra.Base.Slices.{take-append-slice}
use or_isy_vra.Base.Results.{ok, checked_add}
use or_isy_vra.Png.{png_signature, chunk_length, chunk_type, iend, insert_loop}
use or_isy_vra.Png.Insert.{chunk_end}

-- From the cursor `k` on there are whole chunks up to IEND, and none of the given type.
pub data Plain (kind png : List ℕ) : ℕ → Type 0 where
  final : (k : ℕ) → chunk_end png k ≤ length png → chunk_type png k ≡ iend → Plain kind png k
  more :
      (k e : ℕ)
      → e ≡ chunk_end png k
      → e ≤ length png
      → bytes_eq (chunk_type png k) iend ≡ false
      → bytes_eq (chunk_type png k) kind ≡ false
      → Plain kind png e
      → Plain kind png k

-- What stands behind a chunk that is not the last.
pub Plain-next :
    {kind png : List ℕ} {k : ℕ}
    → Plain kind png k
    → bytes_eq (chunk_type png k) iend ≡ false
    → (bytes_eq (chunk_type png k) kind ≡ false) × Plain kind png (chunk_end png k)
Plain-next {kind} {png} (final k le t) ne = absurd (cc (rw (t, bytes_eq_self iend) at ne))
Plain-next {kind} {png} (more k e x le ne nk w) other = (nk, rw x at w)

-- A PNG file without chunks of the given type.
pub record IsPlainPng (kind png : List ℕ) : Type 0 where
  pub signed : take 8 png ≡ png_signature
  pub chunks : Plain kind png 8
  pub small : length png < 2 ^ 62

pub sum-lt : (a b : ℕ) → a + b < 2 ^ 64 → checked_add a b ≡ some (a + b)
sum-lt a b h = ground arith

module _ {E : Type 0} (overflow truncated : E) (kind png new : List ℕ)
    (small : length png < 2 ^ 62) where
  pub insert_loop-Plain :
      {k : ℕ}
      → Plain kind png k
      → (fuel : ℕ) → length png < fuel + k
      → (out : List ℕ) × (insert_loop overflow truncated new fuel png k (take k png) false
          ≡ ok (out, true))
  unfolding insert_loop
  insert_loop-Plain (final k le t) zero h = absurd (omega (arith, h, le))
  insert_loop-Plain (final k le t) (suc fuel) h = (
    (take k png ++ new) ++ slice k (chunk_end png k) png,
    rw (le→leb (k + 12) (length png) (omega (arith, le))) (
        rw (sum-lt k 12 (omega (arith, le, small))) (
          rw (sum-lt (k + 12) (chunk_length png k) (omega (arith, le, small))) (
            rw (ltb-false (length png) (k + 12 + chunk_length png k) le)
              (rw t (rw (bytes_eq_self iend) refl))))),
  )
  insert_loop-Plain (more k e x le ne nk w) zero h = absurd (omega (arith, h, le, x))
  insert_loop-Plain (more k e x le ne nk w) (suc fuel) h =
      let (out, rest) = insert_loop-Plain w fuel (omega (arith, h, x)) in
      (
        out,
        rw (le→leb (k + 12) (length png) (omega (arith, le, x))) (
            rw (sum-lt k 12 (omega (arith, le, small, x))) (
              rw (sum-lt (k + 12) (chunk_length png k) (omega (arith, le, small, x))) (
                rw (← x) (
                  rw (ltb-false (length png) e le)
                    (rw ne (rw (take-append-slice k e png (omega (arith, x))) rest)))))),
      )
