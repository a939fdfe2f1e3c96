-- ===== src/Base/Acts.antt =====
-- Code that changes a state and may fail, and leaves the state changed where it fails.
use or_isy_vra.Base.Results.{Result, ok, err, stuck}

abbrev pub Act : Type 0 → Type 0 → Type 0 → Type 0
Act E S A = S → Result E A × S

module _ {E S : Type 0} where
  unfoldable pub pure : {A : Type 0} → A → Act E S A
  pure a s = (ok a, s)

  unfoldable pub lift : {A : Type 0} → Result E A → Act E S A
  lift r s = (r, s)

  abbrev pub continue : {A B : Type 0} → Result E A → S → (A → Act E S B) → Result E B × S
  continue (ok a) s f = f a s
  continue (err e) s f = (err e, s)
  continue stuck s f = (stuck, s)

  infixl 5 ◌>>=◌ ◌>>◌
  unfoldable pub ◌>>=◌ : {A B : Type 0} → Act E S A → (A → Act E S B) → Act E S B
  (m >>= f) s = let (r, s') = m s in continue r s' f

  abbrev pub ◌>>◌ : {B : Type 0} → Act E S Unit → Act E S B → Act E S B
  m >> k = m >>= λ _. k
