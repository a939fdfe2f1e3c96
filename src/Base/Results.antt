-- ===== src/Base/Results.antt =====
-- Rust's `Result` and the `?` operator, and checked sums.
use Prim.Native.Nat.{ℕ, ◌+◌, ◌^◌}
use mathlib.Core.Path.{◌≡◌, refl, ap}
use mathlib.Core.Bool.{Bool, true, false}
use mathlib.Core.Option.{Option, none, some}
use or_isy_vra.Base.Tests.{if◌then◌else◌, ltb}

-- `stuck` is no Rust value: a loop ran out of the fuel that its model gives it, or an `expect`
-- panicked.
pub data Result {ℓ} (E A : Type ℓ) : Type ℓ where
  ok : A → Result E A
  err : E → Result E A
  stuck : Result E A

infixl 5 ◌>>=◌ ◌>>◌
abbrev pub ◌>>=◌ {ℓ} : {E A B : Type ℓ} → Result E A → (A → Result E B) → Result E B
ok a >>= f = f a
err e >>= f = err e
stuck >>= f = stuck

abbrev pub ◌>>◌ {ℓ} : {E B : Type ℓ} → Result E (Unit {ℓ}) → Result E B → Result E B
m >> k = m >>= λ _. k

-- `if wrong { return Err(e); }`.
abbrev pub fail_if {ℓ} : {E : Type ℓ} → Bool → E → Result E (Unit {ℓ})
fail_if true e = err e
fail_if false e = ok tt

-- `a.checked_add(b)` on `u64` or `usize`, and `u32::try_from(n)`.
abbrev pub checked_add : ℕ → ℕ → Option ℕ
checked_add a b = if ltb (a + b) (2 ^ 64) then some (a + b) else none

abbrev pub u32_try_from : ℕ → Option ℕ
u32_try_from n = if ltb n (2 ^ 32) then some n else none

-- `option.ok_or(e)?`.
abbrev pub ok_or {ℓ} : {E A : Type ℓ} → Option A → E → Result E A
ok_or none e = err e
ok_or (some a) e = ok a

-- `option.expect(...)`.
abbrev pub expect {ℓ} : {E A : Type ℓ} → Option A → Result E A
expect none = stuck
expect (some a) = ok a

-- A check that a success has passed.
pub fail_if-eq-ok {ℓ} :
    {E B : Type ℓ} (wrong : Bool) (e : E) (rest : Result E B) {b : B}
    → (fail_if wrong e >> rest) ≡ ok b
    → (wrong ≡ false) × (rest ≡ ok b)
fail_if-eq-ok true e rest h = cc
fail_if-eq-ok false e rest h = (refl, h)

-- The steps of a successful chain.
pub then-eq-ok {ℓ} :
    {E B : Type ℓ} (m : Result E (Unit {ℓ})) (rest : Result E B) {b : B}
    → (m >>= λ _. rest) ≡ ok b
    → (m ≡ ok tt) × (rest ≡ ok b)
then-eq-ok (ok tt) rest h = (refl, h)
then-eq-ok (err e) rest h = cc
then-eq-ok stuck rest h = cc

value_or {ℓ} : {E A : Type ℓ} → A → Result E A → A
value_or d (ok a) = a
value_or d (err e) = d
value_or d stuck = d

pub ok_injective {ℓ} : {E A : Type ℓ} {a b : A} → ◌≡◌ {A = Result E A} (ok a) (ok b) → a ≡ b
unfolding value_or
ok_injective {E} {A} {a} e = ap (value_or {E = E} a) e

pub bind-eq-ok {ℓ} :
    {E A B : Type ℓ} (m : Result E A) (f : A → Result E B) (b : B)
    → ◌≡◌ {A = Result E B} (m >>= f) (ok b)
    → (a : A) × ◌≡◌ {A = Result E A} m (ok a) × ◌≡◌ {A = Result E B} (f a) (ok b)
bind-eq-ok stuck f b e = cc
bind-eq-ok (err x) f b e = cc
bind-eq-ok (ok a) f b e = (a, refl, e)
