-- ===== src/Volume/Device/Keeps.antt =====
-- What a sequence of writes leaves alone, whichever of them fail.
use or_isy_vra.Base.{
  ℕ, ◌+◌, ◌-◌, ◌≤◌, ◌≡◌, ◌⊎◌, inl, inr, refl, ap, sym, ◌∙◌, arith, List, [], ◌∷◌, ◌++◌, length,
  take, drop, replicate, Option, none, some, length-append, length-take, length-drop,
  length-replicate, drop-append_add, take-append, drop-drop,
}
use or_isy_vra.Base.Bytes.{slice}
use or_isy_vra.Base.Slices.{take-append_ge, take-take, slice-take}
use or_isy_vra.Base.Results.{ok, err, stuck}
use or_isy_vra.Volume.Layout.{VolumeResult}
use or_isy_vra.Volume.Device.{
  Device, Io, pure, lift, continue, attempt, ◌>>=◌, write_at, write_all, sync,
}

module _ (offset : ℕ) (bytes content : List ℕ) where
  abbrev before : List ℕ
  before = take offset (content ++ replicate (offset - length content) 0)

  length-before : length before ≡ offset
  length-before =
      length-take offset _
      ∙ omega (
        arith,
        length-append content (replicate (offset - length content) 0),
        length-replicate {A = ℕ} (offset - length content) 0,
      )

  write_at-before :
      (hi : ℕ)
      → hi ≤ offset
      → hi ≤ length content
      → take hi (write_at offset bytes content) ≡ take hi content
  unfolding write_at
  write_at-before hi h l =
      take-append_ge hi before (bytes ++ drop (offset + length bytes) content)
        (omega (arith, length-before))
      ∙ take-take hi offset _ h
      ∙ take-append_ge hi content _ l

  write_at-behind :
      (lo : ℕ)
      → offset + length bytes ≤ lo
      → drop lo (write_at offset bytes content) ≡ drop lo content
  unfolding write_at
  write_at-behind lo h =
      drop-append_add lo (lo - offset) before _ (omega (arith, length-before))
      ∙ drop-append_add (lo - offset) (lo - (offset + length bytes)) bytes _ (omega arith)
      ∙ drop-drop (lo - (offset + length bytes)) (offset + length bytes) content
      ∙ ap (λ (t : ℕ). drop t content) {x = offset + length bytes + (lo - (offset + length bytes))}
          {y = lo} (omega arith)

  pub length-write_at : length content ≤ length (write_at offset bytes content)
  unfolding write_at
  length-write_at = omega (
    arith,
    length-append before (bytes ++ drop (offset + length bytes) content),
    length-before,
    length-append bytes (drop (offset + length bytes) content),
    length-drop (offset + length bytes) content,
  )

-- The content still has the bytes `old` from `lo` to `hi`.
pub record Has (lo hi : ℕ) (old content : List ℕ) : Type 0 where
  pub reaches : hi ≤ length content
  pub same : slice lo hi content ≡ old

-- A range that a write of `n` bytes at `offset` does not touch.
abbrev pub Apart : ℕ → ℕ → ℕ → ℕ → Type 0
Apart lo hi offset n = (hi ≤ offset) ⊎ (offset + n ≤ lo)

pub write_at-Has :
    (lo hi offset : ℕ) (old bytes content : List ℕ)
    → lo ≤ hi
    → Apart lo hi offset (length bytes)
    → Has lo hi old content
    → Has lo hi old (write_at offset bytes content)
write_at-Has lo hi offset old bytes content ordered (inl h) has = record {
  reaches = omega (arith, has.reaches, length-write_at offset bytes content);
  same =
      slice-take lo hi _ ordered
      ∙ ap (drop lo) (write_at-before offset bytes content hi h has.reaches)
      ∙ sym (slice-take lo hi content ordered)
      ∙ has.same;
}
write_at-Has lo hi offset old bytes content ordered (inr h) has = record {
  reaches = omega (arith, has.reaches, length-write_at offset bytes content);
  same = ap (take (hi - lo)) (write_at-behind offset bytes content lo h) ∙ has.same;
}

-- Whatever the device does, the code keeps `P` of its content, and its results satisfy `Q`.
pub record Leaves {A : Type 0} (P : List ℕ → Type 0) (Q : A → Type 0) (m : Io A) : Type 0 where
  pub device : (d : Device) → P d.content → P (m d).1.content
  pub value : (d : Device) (a : A) → (m d).0 ≡ ok a → Q a

attempt-keeps :
    (P : List ℕ → Type 0) (done : List ℕ) (torn : ℕ → List ℕ) (plan : List (Option ℕ))
    → P done
    → ((n : ℕ) → P (torn n))
    → P (attempt done torn plan).1.content
attempt-keeps P done torn [] p q = p
attempt-keeps P done torn (none ∷ plan) p q = p
attempt-keeps P done torn (some n ∷ plan) p q = q n

module _ {P : List ℕ → Type 0} where
  pub Leaves-bind :
      {A B : Type 0} {Q : A → Type 0} {R : B → Type 0} (m : Io A) (f : A → Io B)
      → Leaves P Q m
      → ((a : A) → Q a → Leaves P R (f a))
      → Leaves P R (m >>= f)
  unfolding ◌>>=◌
  Leaves-bind {A} {B} {Q} {R} m f first next = record {
    device = λ d p. kept (m d).0 (m d).1 (first.device d p) (first.value d);
    value = λ d b e. valued (m d).0 (m d).1 (first.value d) b e;
  }
    where
      kept :
          (r : VolumeResult A) (d : Device)
          → P d.content
          → ((a : A) → r ≡ ok a → Q a)
          → P (continue r d f).1.content
      kept (ok a) d p q = (next a (q a refl)).device d p
      kept (err e) d p q = p
      kept stuck d p q = p

      valued :
          (r : VolumeResult A) (d : Device)
          → ((a : A) → r ≡ ok a → Q a)
          → (b : B) → (continue r d f).0 ≡ ok b
          → R b
      valued (ok a) d q b e = (next a (q a refl)).value d b e
      valued (err e') d q b e = absurd (ground arith)
      valued stuck d q b e = absurd (ground arith)

  pub lift-Leaves :
      {A : Type 0} {Q : A → Type 0} (r : VolumeResult A)
      → ((a : A) → r ≡ ok a → Q a)
      → Leaves P Q (lift r)
  unfolding lift
  lift-Leaves r q = record { device = λ d p. p; value = λ d a e. q a e }

  pub pure-Leaves : {A : Type 0} {Q : A → Type 0} (a : A) → Q a → Leaves P Q (pure a)
  unfolding pure
  pure-Leaves {Q} a q = record { device = λ d p. p; value = λ d b e. ok-value Q a b e q }
    where
      ok-value :
          {A : Type 0} (Q : A → Type 0) (a b : A)
          → ◌≡◌ {A = VolumeResult A} (ok a) (ok b)
          → Q a
          → Q b
      ok-value Q a b e q = let same : a ≡ b = ground arith in rw (← same) q

  pub sync-Leaves : Leaves P (λ _. Unit) sync
  unfolding sync
  sync-Leaves = record {
    device = λ d p. attempt-keeps P d.content (λ _. d.content) d.plan p (λ _. p);
    value = λ d a e. tt;
  }

-- A write keeps a range that it does not touch, also where it fails half way.
pub write_all-Leaves :
    (lo hi offset : ℕ) (old bytes : List ℕ)
    → lo ≤ hi
    → Apart lo hi offset (length bytes)
    → Leaves (Has lo hi old) (λ _. Unit) (write_all offset bytes)
unfolding write_all
write_all-Leaves lo hi offset old bytes ordered apart = record {
  device = λ d p.
      attempt-keeps (Has lo hi old) (write_at offset bytes d.content)
        (λ n. write_at offset (take n bytes) d.content) d.plan
        (write_at-Has lo hi offset old bytes d.content ordered apart p)
        (λ n. write_at-Has lo hi offset old (take n bytes) d.content ordered (shorter n apart) p);
  value = λ d a e. tt;
}
  where
    shorter :
        (n : ℕ) → Apart lo hi offset (length bytes) → Apart lo hi offset (length (take n bytes))
    shorter n (inl h) = inl h
    shorter n (inr h) = inr (omega (arith, h, length-take n bytes))

-- A write puts its bytes where it says.
pub write_at-own :
    (offset : ℕ) (bytes content : List ℕ)
    → Has offset (offset + length bytes) bytes (write_at offset bytes content)
unfolding write_at
write_at-own offset bytes content = record {
  reaches = omega (
    arith,
    length-before offset bytes content,
    length-append (before offset bytes content) (bytes ++ drop (offset + length bytes) content),
    length-append bytes (drop (offset + length bytes) content),
  );
  same =
      ap (take (offset + length bytes - offset)) (
        drop-append_add offset 0 (before offset bytes content)
          (bytes ++ drop (offset + length bytes) content)
          (omega (arith, length-before offset bytes content)))
      ∙ take-append (offset + length bytes - offset) bytes (drop (offset + length bytes) content)
          (omega arith);
}
