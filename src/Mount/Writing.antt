-- ===== src/Mount/Writing.antt =====
-- `write_bytes` changes the bytes of its range.
use or_isy_vra.Base.{
  ℕ, zero, suc, ◌+◌, ◌-◌, ◌*◌, ◌/◌, ◌%◌, ◌^◌, ◌≤◌, ◌<◌, ◌≡◌, ◌≢◌, ◌⊎◌, inl, inr, refl, ap, sym, ◌∙◌,
  arith, List, [], ◌∷◌, length, get_or, All, Option, none, some, true, false, ◌==◌, ltb-false,
  lt→ltb, min, Bool-cases, le-cases, All-replicate, ==_self,
}
use native.Mathlib.Nat.{le-div_iff_mul-le, div-le_self}
use or_isy_vra.Base.Words.{IsByte}
use or_isy_vra.Base.Results.{ok}
use or_isy_vra.Crypto.{Crypto}
use or_isy_vra.Volume.Log.{get}
use or_isy_vra.Volume.Blocks.{Volume, read_block}
use or_isy_vra.Volume.Store.Commit.{Blocks, next_generation}
use or_isy_vra.Volume.Store.Records.{keys_of, IsBlock}
use or_isy_vra.Volume.Store.Transaction.{Distinct}
use or_isy_vra.Volume.Store.View.{updated}
use or_isy_vra.Mount.{or_zeros, update_loop}
use or_isy_vra.Mount.Copies.{div_place, same_block}
use or_isy_vra.Mount.Reading.{block_byte, byte_view, in_capacity, Readable}
use or_isy_vra.Mount.Updates.{
  new_block, length-new_block, new_block-inside, new_block-outside, new_block-IsByte,
}

-- What `write_bytes` relies on: every block can be read, as bytes, and has a next generation.
pub record IsWritable (c : Crypto) (v : Volume) (content : List ℕ) : Type 0 where
  pub readable : Readable c v content
  pub bytes :
      (i : ℕ) (block : List ℕ) → read_block c v i content ≡ ok (some block) → All IsByte block
  pub fresh : (i : ℕ) → (g : ℕ) × (next_generation (get i v.index) ≡ ok g)

module _ (c : Crypto) (v : Volume) (content : List ℕ) (offset : ℕ) (input : List ℕ) where
  abbrev view_at : Blocks → ℕ → ℕ
  view_at updates a =
      block_byte
        (updated updates (read_block c v (a / v.bootstrap.block_size) content)
          (a / v.bootstrap.block_size))
        (a % v.bootstrap.block_size)

  -- The blocks that change, from `done` bytes of the input on.
  pub record Overlay (done : ℕ) (updates : Blocks) : Type 0 where
    pub above :
        (m : ℕ) → m * v.bootstrap.block_size ≤ offset + done → All (λ j. m ≤ j) (keys_of updates)
    pub distinct : Distinct (keys_of updates)
    pub good : All (λ p. IsBlock v p.0 p.1) updates
    pub few : length updates ≤ length input - done
    pub new :
        (k : ℕ) → done ≤ k → k < length input → view_at updates (offset + k) ≡ get_or input k 0
    pub old :
        (a : ℕ)
        → a < v.bootstrap.logical_capacity
        → (a < offset + done) ⊎ (offset + length input ≤ a)
        → view_at updates a ≡ byte_view c v content a

  Overlay-nil : (done : ℕ) → length input ≤ done → Overlay done []
  Overlay-nil done h = record {
    above = λ m low. tt;
    distinct = tt;
    good = tt;
    few = omega arith;
    new = λ k low high. absurd (omega (arith, h, low, high));
    old = λ a inside h. refl;
  }

  view_at-here :
      (i : ℕ) (p : List ℕ) (rest : Blocks) (a : ℕ)
      → a / v.bootstrap.block_size ≡ i
      → view_at ((i, p) ∷ rest) a ≡ get_or p (a % v.bootstrap.block_size) 0
  view_at-here i p rest a e = rw e (rw (==_self i) refl)

  view_at-there :
      (i : ℕ) (p : List ℕ) (rest : Blocks) (a : ℕ)
      → i == (a / v.bootstrap.block_size) ≡ false
      → view_at ((i, p) ∷ rest) a ≡ view_at rest a
  view_at-there i p rest a e = rw e refl

  -- One more block in front.
  module _ (writable : IsWritable c v content) (positive : 0 < v.bootstrap.block_size)
      (input-bytes : All IsByte input)
      (inside : offset + length input ≤ v.bootstrap.logical_capacity)
      (small : v.bootstrap.logical_capacity < 2 ^ 64) (done : ℕ) (more : done < length input) where
    abbrev bs : ℕ
    bs = v.bootstrap.block_size

    abbrev at : ℕ
    at = offset + done

    abbrev i : ℕ
    i = at / bs

    abbrev start : ℕ
    start = i * bs

    abbrev bo : ℕ
    bo = at - start

    abbrev len : ℕ
    len = min (v.bootstrap.logical_capacity - start) bs

    abbrev taken : ℕ
    taken = min (length input - done) (len - bo)

    place : (start + at % bs ≡ at) × (at % bs < bs)
    place = div_place bs positive at

    room : bo + taken ≤ len
    room = omega (arith, place.0, place.1, inside, more)

    enough : done + taken ≤ length input
    enough = omega (arith, more)

    progress : 0 < taken
    progress = omega (arith, place.0, place.1, inside, more)

    -- Behind the block, or at the end of the input.
    leaves : (offset + (done + taken) ≡ start + bs) ⊎ (done + taken ≡ length input)
    leaves = elim (le-cases (length input) (done + taken)) [
      | inl over ↦ inr (omega (arith, over, enough))
      | inr left ↦ inl (omega (arith, left, place.0, place.1, inside))
    ]

    other_block : (a : ℕ) → start + bs ≤ a → i == (a / bs) ≡ false
    other_block a h =
        let above : suc i ≤ a / bs = (le-div_iff_mul-le positive).1 (next i h) in differs above
      where
        next : (i : ℕ) → i * bs + bs ≤ a → suc i * bs ≤ a
        next i h = omega (arith, h)

        differs : suc i ≤ a / bs → i == (a / bs) ≡ false
        differs h = ground arith

    module _ (o : Option (List ℕ)) (read : read_block c v i content ≡ ok o) (rest : Blocks)
        (r : Overlay (done + taken) rest) where
      abbrev block : List ℕ
      block = new_block input bo done taken len o room enough

      abbrev all : Blocks
      all = (i, block) ∷ rest

      cons-new : (k : ℕ) → done ≤ k → k < length input → view_at all (offset + k) ≡ get_or input k 0
      cons-new k low high = elim (le-cases (done + taken) k) [
        | inl later ↦ elim leaves [
          | inl behind ↦
              view_at-there i block rest (offset + k)
                (other_block (offset + k) (omega (arith, behind, later)))
              ∙ r.new k later high
          | inr ended ↦ absurd (omega (arith, ended, later, high))
        ]
        | inr now ↦
            let same =
              same_block bs positive at (k - done) (omega (arith, place.0, place.1, now, low)) in
            let there : offset + k ≡ at + (k - done) = omega (arith, low) in
            rw there (
              view_at-here i block rest (at + (k - done)) same.0
              ∙ ap (λ (t : ℕ). get_or block t 0) {x = (at + (k - done)) % bs} {y = bo + (k - done)}
                  (omega (arith, same.1, place.0))
              ∙ new_block-inside input bo done taken len o room enough (k - done)
                  (omega (arith, now, low))
              ∙ ap (λ (t : ℕ). get_or input t 0) {x = done + (k - done)} {y = k}
                  (omega (arith, low)))
      ]

      cons-old :
          (a : ℕ)
          → a < v.bootstrap.logical_capacity
          → (a < offset + done) ⊎ (offset + length input ≤ a)
          → view_at all a ≡ byte_view c v content a
      cons-old a within apart = elim (Bool-cases (i == (a / bs))) [
        | inl same ↦
            let e : a / bs ≡ i = same_index same in
            let p = div_place bs positive a in
            let there : start + a % bs ≡ a = rw e at p.0 in
            view_at-here i block rest a e
            ∙ new_block-outside input bo done taken len o room enough (a % bs)
                (omega (arith, there, p.1, within))
                (omega (arith, there, p.1, apart, place.0, enough))
            ∙ ap (λ t. block_byte t (a % bs))
                (sym read ∙ ap (λ (t : ℕ). read_block c v t content) (sym e))
        | inr other ↦ view_at-there i block rest a other ∙ r.old a within (omega (arith, apart))
      ]
        where
          same_index : i == (a / bs) ≡ true → a / bs ≡ i
          same_index h = ground arith

      cons-above : (m : ℕ) → m * bs ≤ at → All (λ j. m ≤ j) (keys_of all)
      cons-above m low =
          ((le-div_iff_mul-le positive).1 low, r.above m (omega (arith, low, progress)))

      cons-Distinct : Distinct (keys_of all)
      cons-Distinct = elim leaves [
        | inl behind ↦
            (differs (keys_of rest) (r.above (suc i) (next i (omega (arith, behind)))), r.distinct)
        | inr ended ↦ (no_more rest (omega (arith, ended, r.few)), r.distinct)
      ]
        where
          next :
              (i : ℕ) → i * bs + bs ≤ offset + (done + taken) → suc i * bs ≤ offset + (done + taken)
          next i h = omega (arith, h)

          differs : (keys : List ℕ) → All (λ j. suc i ≤ j) keys → All (λ j. j ≢ i) keys
          differs [] h = tt
          differs (j ∷ keys) h = (greater j h.0, differs keys h.1)
            where
              greater : (j : ℕ) → suc i ≤ j → j ≢ i
              greater j h e = omega (arith, h, e)

          no_more : (rest : Blocks) → length rest ≤ 0 → All (λ j. j ≢ i) (keys_of rest)
          no_more [] h = tt
          no_more (p ∷ rest) h = absurd (omega (arith, h))

      cons-IsBlock : IsBlock v i block
      cons-IsBlock = record {
        inside = in_capacity v.bootstrap positive at (omega (arith, inside, more));
        index_u64 = omega (arith, div-le_self at bs, inside, more, small);
        bytes =
            new_block-IsByte input bo done taken len o room enough input-bytes (old_bytes o read);
        fits = omega (arith, length-new_block input bo done taken len o room enough);
        generation = writable.fresh i;
      }
        where
          old_bytes :
              (o : Option (List ℕ)) → read_block c v i content ≡ ok o → All IsByte (or_zeros len o)
          old_bytes none e = All-replicate IsByte len 0 (omega arith)
          old_bytes (some old) e = writable.bytes i old e

      Overlay-cons : Overlay done all
      Overlay-cons = record {
        above = cons-above;
        distinct = cons-Distinct;
        good = (cons-IsBlock, r.good);
        few = omega (arith, r.few, progress, enough);
        new = cons-new;
        old = cons-old;
      }

  module _ (writable : IsWritable c v content) (positive : 0 < v.bootstrap.block_size)
      (input-bytes : All IsByte input)
      (inside : offset + length input ≤ v.bootstrap.logical_capacity)
      (small : v.bootstrap.logical_capacity < 2 ^ 64) where
    pub update_loop_lem :
        (fuel done : ℕ)
        → done ≤ length input
        → length input < fuel + done
        → (updates : Blocks) × (update_loop c v content offset input fuel done ≡ ok updates)
          × Overlay done updates
    unfolding update_loop
    update_loop_lem zero done le enough = absurd (omega (arith, le, enough))
    update_loop_lem (suc fuel) done le enough' = elim (le-cases (length input) done) [
      | inl over ↦ ([], rw (ltb-false done (length input) over) refl, Overlay-nil done over)
      | inr more ↦
          let (o, read) =
            writable.readable (i writable positive input-bytes inside small done more)
              (in_capacity v.bootstrap positive (offset + done) (omega (arith, inside, more))) in
          let (rest, run, r) =
            update_loop_lem fuel (done + taken writable positive input-bytes inside small done more)
              (enough writable positive input-bytes inside small done more)
              (omega
                (arith, enough', progress writable positive input-bytes inside small done more)) in
          (
            all writable positive input-bytes inside small done more o read rest r,
            rw (lt→ltb done (length input) more) (rw read (rw run refl)),
            Overlay-cons writable positive input-bytes inside small done more o read rest r,
          )
    ]
