-- ===== src/Png/Insert.antt =====
-- What `insert_loop` has done when it succeeds: it walked over whole chunks up to the first IEND
-- and put the new chunk before it.
use or_isy_vra.Base.{
  ℕ, zero, suc, ◌+◌, ◌≤◌, ◌≡◌, refl, ap, sym, ◌∙◌, arith, ◌⊎◌, inl, inr, List, ◌++◌, length, take,
  Bool, true, false, not, ◌&&◌, ◌||◌, if◌then◌else◌, ltb, leb, Bool-cases, length-append,
  length-take,
}
use mathlib.Core.List.{append_assoc}
use or_isy_vra.Base.Bytes.{slice, bytes_eq, bytes_eq_iff, length-slice}
use or_isy_vra.Base.Slices.{take-append-slice}
use or_isy_vra.Base.Results.{
  Result, ok, ok_or, checked_add, bind-eq-ok, fail_if-eq-ok, ok_injective,
}
use or_isy_vra.Png.{chunk_length, chunk_type, iend, insert_loop}

-- Where the chunk at `k` ends.
abbrev pub chunk_end : List ℕ → ℕ → ℕ
chunk_end png k = k + 12 + chunk_length png k

-- From the cursor `k` on, `out` is `png` with the chunk `new` before its first IEND.
pub data Inserted (png new out : List ℕ) : ℕ → Type 0 where
  here :
      (k : ℕ)
      → chunk_end png k ≤ length png
      → chunk_type png k ≡ iend
      → out ≡ take k png ++ (new ++ slice k (chunk_end png k) png)
      → Inserted png new out k
  later :
      (k e : ℕ) (rest : List ℕ)
      → e ≡ chunk_end png k
      → e ≤ length png
      → bytes_eq (chunk_type png k) iend ≡ false
      → out ≡ take e png ++ rest
      → Inserted png new out e
      → Inserted png new out k

-- The first chunk of the walk lies in the file, and the output is longer by the new chunk.
pub first_chunk :
    {png new out : List ℕ} {k : ℕ} → Inserted png new out k → chunk_end png k ≤ length png
first_chunk (here k le e o) = le
first_chunk (later k e rest x le ne o w) = omega (arith, x, le)

pub begins :
    {png new out : List ℕ} {k : ℕ}
    → Inserted png new out k
    → (rest : List ℕ) × (out ≡ take k png ++ rest)
begins {png} {new} {out} (here k le e o) = (new ++ slice k (chunk_end png k) png, o)
begins {png} (later k e rest x le ne o w) = (
  slice k e png ++ rest,
  o
      ∙ ap (λ t. t ++ rest) (sym (take-append-slice k e png (omega (arith, x))))
      ∙ append_assoc (take k png) (slice k e png) rest,
)

module _ {E : Type 0} (overflow truncated : E) (png new out : List ℕ) where
  abbrev Finished : Result E (List ℕ × Bool) → Type 0
  Finished r = r ≡ ok (out, true)

  split :
      (fuel k end : ℕ) (last : Bool)
      → Finished (
          let output' =
            (if last && not false then take k png ++ new else take k png) ++ slice k end png in
          let inserted' = last && not false || false in
          if last
          then ok (output', inserted')
          else insert_loop overflow truncated new fuel png end output' inserted')
      → ((last ≡ true) × Finished (ok ((take k png ++ new) ++ slice k end png, true)))
        ⊎ ((last ≡ false)
            × Finished (
                insert_loop overflow truncated new fuel png end
                  (take k png ++ slice k end png)
                  false))
  split fuel k end true r = inl (refl, r)
  split fuel k end false r = inr (refl, r)

  pub insert_loop-Inserted :
      (fuel k : ℕ)
      → k ≤ length png
      → insert_loop overflow truncated new fuel png k (take k png) false ≡ ok (out, true)
      → Inserted png new out k
  unfolding insert_loop
  insert_loop-Inserted zero k h e = cc
  insert_loop-Inserted (suc fuel) k h e = elim (Bool-cases (leb (k + 12) (length png))) [
    | inr done ↦ cc (rw done at e)
    | inl more ↦
        let (end12, e0, r0) = bind-eq-ok (ok_or (checked_add k 12) overflow) _ _ (rw more at e) in
        let (end, e1, r1) =
          bind-eq-ok (ok_or (checked_add end12 (chunk_length png k)) overflow) _ _ r0 in
        let (e2, r2) = fail_if-eq-ok (ltb (length png) end) truncated _ r1 in
        let sum : end ≡ chunk_end png k = ends k end12 (chunk_length png k) end e0 e1 in
        let fits = not_past (length png) end e2 in
        let all = take-append-slice k end png (omega (arith, sum)) in
        elim (split fuel k end (bytes_eq (chunk_type png k) iend) r2) [
          | inl (last, r) ↦
              here k (omega (arith, sum, fits)) ((bytes_eq_iff _ _).0 last) (found end sum r)
          | inr (other, r) ↦
              let walked = insert_loop-Inserted fuel end fits (rw all at r) in
              let (rest, o) = begins walked in later k end rest sum fits other o walked
        ]
  ]
    where
      ends :
          (a b n m : ℕ)
          → ok_or (checked_add a 12) overflow ≡ ok b
          → ok_or (checked_add b n) overflow ≡ ok m
          → m ≡ a + 12 + n
      ends a b n m e e' = ground arith

      not_past : (a b : ℕ) → ltb a b ≡ false → b ≤ a
      not_past a b h = ground arith

      found :
          (end : ℕ)
          → end ≡ chunk_end png k
          → ◌≡◌ {A = Result E (List ℕ × Bool)}
              (ok ((take k png ++ new) ++ slice k end png, true))
              (ok (out, true))
          → out ≡ take k png ++ (new ++ slice k (chunk_end png k) png)
      found end sum r =
          sym (ap (λ t. t.0) (ok_injective r))
          ∙ append_assoc (take k png) new (slice k end png)
          ∙ ap (λ (t : ℕ). take k png ++ (new ++ slice k t png)) sum

pub length-out :
    {png new out : List ℕ} {k : ℕ} → Inserted png new out k → length out ≤ length png + length new
length-out {png} {new} {out} (here k le e o) = rw o (
    omega (
      arith,
      le,
      length-append (take k png) (new ++ slice k (chunk_end png k) png),
      length-append new (slice k (chunk_end png k) png),
      length-take k png,
      length-slice k (chunk_end png k) png le,
    ))
length-out (later k e rest x le ne o w) = length-out w
