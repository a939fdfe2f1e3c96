-- ===== src/Container/Encrypt/Filling.antt =====
-- However `read` splits the input, a record holds the next chunk of it.
use Prim.Native.Nat.{max}
use or_isy_vra.Base.{
  ℕ, zero, suc, ◌-◌, ◌<◌, ◌≤◌, ◌≡◌, refl, ap, sym, ◌∙◌, arith, List, [], ◌∷◌, ◌++◌, length, take,
  drop, min, ◌==◌, false, Bool-cases, inl, inr, ==_iff, take-append-drop, length-take,
  length-append, take-append_le, drop-append_add,
}
use or_isy_vra.Base.{if◌then◌else◌}
use or_isy_vra.Base.Results.{ok, err, stuck, ◌>>=◌}
use or_isy_vra.Errors.{Checked}
use or_isy_vra.Crypto.{Crypto}
use or_isy_vra.Container.Encrypt.{
  Reader, read_limited, read, fill, Session, Progress, encrypt_record, encrypt_loop,
}

-- A call of `read` gives the next bytes: no more than asked for, and one at least while there are any.
record IsRead (content : List ℕ) (room : ℕ) (bytes rest : List ℕ) : Type 0 where
  next : bytes ++ rest ≡ content
  fits : length bytes ≤ room
  some_bytes : 0 < room → 0 < length content → 0 < length bytes

taken-IsRead :
    (content : List ℕ) (room k : ℕ)
    → k ≤ room
    → (0 < room → 0 < k)
    → IsRead content room (take k content) (drop k content)
taken-IsRead content room k h pos = record {
  next = take-append-drop k content;
  fits = omega (arith, length-take k content);
  some_bytes = λ p q. omega (arith, length-take k content, pos p);
}

read_limited-IsRead :
    (content plan : List ℕ) (room : ℕ)
    → IsRead content room
        (read_limited content plan room).0
        (read_limited content plan room).1.content
unfolding read_limited
read_limited-IsRead content [] room = taken-IsRead content room room (omega arith) (λ p. p)
read_limited-IsRead content (n ∷ plan) room =
    taken-IsRead content room (min room (max n 1)) (omega arith) (λ p. omega arith)

pub take-nil : (n : ℕ) → take {A = ℕ} n [] ≡ []
take-nil zero = refl
take-nil (suc n) = refl

drop-nil : (n : ℕ) → drop {A = ℕ} n [] ≡ []
drop-nil zero = refl
drop-nil (suc n) = refl

empty : (xs : List ℕ) → length xs ≡ 0 → xs ≡ []
empty [] h = refl
empty (x ∷ xs) h = absurd (omega (arith, h))

-- The bytes and the rest that `fill` returns after a read of `bytes`.
taken_more :
    (content bytes rest : List ℕ) (room : ℕ)
    → IsRead content room bytes rest
    → (bytes ++ take (room - length bytes) rest ≡ take room content)
      × (drop (room - length bytes) rest ≡ drop room content)
taken_more content bytes rest room got = rw (← got.next) (
  sym (take-append_le room bytes rest got.fits),
  sym (drop-append_add room (room - length bytes) bytes rest (omega (arith, got.fits))),
)

positive : (n : ℕ) → (n == 0) ≡ false → 0 < n
positive n e = ground arith

-- A read that gives nothing leaves nothing.
nothing_left :
    (content bytes rest : List ℕ) (room : ℕ)
    → IsRead content room bytes rest
    → 0 < room
    → length bytes ≡ 0
    → (content ≡ []) × (rest ≡ [])
nothing_left content bytes rest room got more none_read =
    let none_there : content ≡ [] = empty content (elim (Bool-cases (length content == 0)) [
      | inl e ↦ (==_iff _ _).0 e
      | inr e ↦ absurd (omega (arith, none_read, got.some_bytes more (positive (length content) e)))
    ]) in
    (
      none_there,
      empty rest (omega (arith, length-append bytes rest, ap length (got.next ∙ none_there))),
    )

-- Filling a buffer takes the next chunk of the input, whatever the single reads give.
pub fill-eq-take :
    (fuel : ℕ) (r : Reader) (room : ℕ)
    → room ≤ fuel
    → ((fill fuel r room).0 ≡ take room r.content)
      × ((fill fuel r room).1.content ≡ drop room r.content)
unfolding fill read
fill-eq-take zero r room h = let e : room ≡ 0 = omega arith in rw e (refl, refl)
fill-eq-take (suc fuel) r room h = elim (Bool-cases (room == 0)) [
  | inl e ↦ let z : room ≡ 0 = (==_iff _ _).0 e in rw z (refl, refl)
  | inr more ↦
      let bytes = (read_limited r.content r.plan room).0 in
      let r' = (read_limited r.content r.plan room).1 in
      let got = read_limited-IsRead r.content r.plan room in
      let ih = fill-eq-take fuel r' (room - length bytes) in
      elim (Bool-cases (length bytes == 0)) [
        | inl ended ↦
            let (none_there, none_after) =
              nothing_left r.content bytes r'.content room got (positive room more)
                ((==_iff _ _).0 ended) in
            rw more (
              rw ended (
                sym (ap (take room) none_there ∙ take-nil room),
                none_after ∙ sym (ap (drop room) none_there ∙ drop-nil room),
              ))
        | inr going ↦
            let (next, left) = taken_more r.content bytes r'.content room got in
            let (ih0, ih1) = ih (omega (arith, got.some_bytes, positive _ going)) in
            rw more (rw going (ap (λ t. bytes ++ t) ih0 ∙ next, ih1 ∙ left))
      ]
]

-- What `encrypt_file` writes depends on the bytes of the input alone, not on how many of them the
-- single calls of `read` return.
pub encrypt_loop_reads :
    (c : Crypto) (s : Session) (fuel : ℕ) (r r' : Reader) (p : Progress)
    → r.content ≡ r'.content
    → encrypt_loop c s fuel r p ≡ encrypt_loop c s fuel r' p
unfolding encrypt_loop
encrypt_loop_reads c s zero r r' p same = refl
encrypt_loop_reads c s (suc fuel) r r' p same =
    let room = s.header.chunk_size in
    let (taken, left) = fill-eq-take room r room (omega arith) in
    let (taken', left') = fill-eq-take room r' room (omega arith) in
    let bytes : (fill room r room).0 ≡ (fill room r' room).0 =
      taken ∙ ap (take room) same ∙ sym taken' in
    let after : (fill room r room).1.content ≡ (fill room r' room).1.content =
      left ∙ ap (drop room) same ∙ sym left' in
    rw bytes (
      ap (λ more. if length (fill room r' room).0 == 0 then ok p else more)
        (bind_ap (encrypt_record c s p (fill room r' room).0)
          (λ p'. encrypt_loop_reads c s fuel (fill room r room).1 (fill room r' room).1 p' after)))
  where
    bind_ap :
        (m : Checked Progress) {f g : Progress → Checked Progress}
        → ((p' : Progress) → f p' ≡ g p')
        → (m >>= f) ≡ (m >>= g)
    bind_ap (ok p') h = h p'
    bind_ap (err e) h = refl
    bind_ap stuck h = refl
