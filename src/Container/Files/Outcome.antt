-- ===== src/Container/Files/Outcome.antt =====
-- What may be at the output path behind code that puts a temporary file there.
use Prim.Native.String.{String}
use or_isy_vra.Base.{
  ℕ, ◌≡◌, ◌⊎◌, inl, inr, refl, List, [], ◌∷◌, none, some, Bool, true, false, not, ◌&&◌, Bool-cases,
  arith,
}
use or_isy_vra.Base.Results.{ok, err, stuck}
use or_isy_vra.Errors.{Checked}
use or_isy_vra.Container.Files.{
  Disk, Files, pure, lift, continue, ◌>>=◌, attempt, call, remove_output, persist, exists,
  create_output_temp, remove_old, persist_output,
}

-- Whatever fails, the code keeps `P`, and its results satisfy `Q`.
pub record Leaves {A : Type 0} (P : Disk → Type 0) (Q : A → Type 0) (m : Files A) : Type 0 where
  pub disk : (d : Disk) → P d → P (m d).1
  pub value : (d : Disk) (a : A) → P d → (m d).0 ≡ ok a → Q a

module _ {P : Disk → Type 0} where
  pub Leaves-bind :
      {A B : Type 0} {Q : A → Type 0} {R : B → Type 0} (m : Files A) (f : A → Files B)
      → Leaves P Q m
      → ((a : A) → Q a → Leaves P R (f a))
      → Leaves P R (m >>= f)
  unfolding ◌>>=◌
  Leaves-bind {A} {B} {Q} {R} m f first next = record {
    disk = λ d p. kept (m d).0 (m d).1 (first.disk d p) (λ a e. first.value d a p e);
    value = λ d b p e. valued (m d).0 (m d).1 (first.disk d p) (λ a e'. first.value d a p e') b e;
  }
    where
      kept : (r : Checked A) (d : Disk) → P d → ((a : A) → r ≡ ok a → Q a) → P (continue r d f).1
      kept (ok a) d p q = (next a (q a refl)).disk d p
      kept (err e) d p q = p
      kept stuck d p q = p

      valued :
          (r : Checked A) (d : Disk)
          → P d
          → ((a : A) → r ≡ ok a → Q a)
          → (b : B) → (continue r d f).0 ≡ ok b
          → R b
      valued (ok a) d p q b e = (next a (q a refl)).value d b p e
      valued (err x) d p q b e = absurd (ground arith)
      valued stuck d p q b e = absurd (ground arith)

  pub lift-Leaves : {A : Type 0} (r : Checked A) → Leaves P (λ a. r ≡ ok a) (lift r)
  unfolding lift
  lift-Leaves r = record { disk = λ d p. p; value = λ d a p e. e }

  pub pure-Leaves : {A : Type 0} (a : A) → Leaves P (λ _. Unit) (pure a)
  unfolding pure
  pure-Leaves a = record { disk = λ d p. p; value = λ d b p e. tt }

-- The input is as it was, and the output too, or there are bytes that may be put there, and then the
-- output is those bytes or missing.
unfoldable pub FileOutcome : (List ℕ → Type 0) → Disk → Disk → Type 0
FileOutcome Allowed before after =
    (after.input ≡ before.input)
    × ((after.output ≡ before.output)
        ⊎ ((bytes : List ℕ) × Allowed bytes
            × ((after.output ≡ some bytes) ⊎ (after.output ≡ none))))

module _ (Allowed : List ℕ → Type 0) (before : Disk) where
  abbrev Outcome : Disk → Type 0
  Outcome = FileOutcome Allowed before

  attempt-keeps :
      (done failed : Disk) (plan : List Bool)
      → Outcome done
      → Outcome failed
      → Outcome (attempt done failed plan).1
  unfolding FileOutcome
  attempt-keeps done failed [] p q = p
  attempt-keeps done failed (false ∷ plan) p q = p
  attempt-keeps done failed (true ∷ plan) p q = q

  pub call-Leaves : Leaves Outcome (λ _. Unit) call
  unfolding call
  call-Leaves = record { disk = λ d p. attempt-keeps d d d.plan p p; value = λ d a p e. tt }

  pub create_output_temp-Leaves :
      (name : String) (overwrite : Bool)
      → Leaves Outcome (λ _. Unit) (create_output_temp name overwrite)
  unfolding create_output_temp
  create_output_temp-Leaves name overwrite = record {
    disk = λ d p. elim (Bool-cases (exists d.output && not overwrite)) [
      | inl e ↦ rw e p
      | inr e ↦ rw e (call-Leaves.disk d p)
    ];
    value = λ d a p e. tt;
  }

  module _ (bytes : List ℕ) (allowed : Allowed bytes) where
    remove_old-Leaves : (overwrite : Bool) → Leaves Outcome (λ _. Unit) (remove_old overwrite)
    unfolding remove_old remove_output FileOutcome
    remove_old-Leaves overwrite = record {
      disk = λ d p. elim (Bool-cases (exists d.output && overwrite)) [
        | inl e ↦ rw e (
            attempt-keeps (record d { output = none }) d d.plan
              (p.0, inr (bytes, allowed, inr refl)) p)
        | inr e ↦ rw e p
      ];
      value = λ d a p e. tt;
    }

    persist-Leaves : Leaves Outcome (λ _. Unit) (persist bytes)
    unfolding persist FileOutcome
    persist-Leaves = record {
      disk = λ d p.
          attempt-keeps (record d { output = some bytes }) d d.plan
            (p.0, inr (bytes, allowed, inl refl)) p;
      value = λ d a p e. tt;
    }

    pub persist_output-Leaves :
        (overwrite : Bool) → Leaves Outcome (λ _. Unit) (persist_output bytes overwrite)
    unfolding persist_output
    persist_output-Leaves overwrite =
        Leaves-bind _ _ call-Leaves
          (λ _ _. Leaves-bind _ _ (remove_old-Leaves overwrite) (λ _ _. persist-Leaves))
