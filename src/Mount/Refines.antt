-- ===== src/Mount/Refines.antt =====
-- The mounted volume as a string of bytes: `write_bytes` changes those of its range, and `read_bytes`
-- reads them back.
use or_isy_vra.Base.{
  ℕ, suc, ◌+◌, ◌*◌, ◌/◌, ◌%◌, ◌^◌, ◌≤◌, ◌<◌, ◌≡◌, ◌⊎◌, inl, inr, refl, ap, ap₂, ◌∙◌, arith, List,
  [], ◌∷◌, length, get_or, All, false, ◌==◌, ltb-false, lt→ltb, le-cases,
}
use or_isy_vra.Base.Words.{IsByte}
use or_isy_vra.Base.Bytes.{IsBytes}
use or_isy_vra.Base.Results.{ok}
use or_isy_vra.Crypto.{Crypto, IsAead, HasDigests}
use or_isy_vra.Volume.Layout.{Bootstrap, max_block_size}
use or_isy_vra.Volume.Blocks.{Volume, read_block}
use or_isy_vra.Volume.Store.Commit.{Blocks, write_blocks}
use or_isy_vra.Volume.Store.Reopen.{Backs}
use or_isy_vra.Volume.Store.ReadBack.{sound}
use or_isy_vra.Volume.Store.View.{updated}
use or_isy_vra.Volume.Store.Refines.{Refined, write_blocks-refines}
use or_isy_vra.Mount.{update_loop, read_bytes, write_bytes}
use or_isy_vra.Mount.Reading.{byte_view, block_byte, read_bytes_lem}
use or_isy_vra.Mount.Writing.{IsWritable, update_loop_lem}

-- What is behind a write: the run, the file under the changed volume, and its bytes.
pub record BytesWritten (c : Crypto) (v : Volume) (content : List ℕ) (offset : ℕ) (input : List ℕ)
    : Type 0 where
  pub v' : Volume
  pub content' : List ℕ
  pub run : write_bytes c v offset input (sound content) ≡ (ok tt, v', sound content')
  pub layout : v'.bootstrap ≡ v.bootstrap
  pub backs : Backs c v' content'
  pub new : (k : ℕ) → k < length input → byte_view c v' content' (offset + k) ≡ get_or input k 0
  pub old :
      (a : ℕ)
      → a < v.bootstrap.logical_capacity
      → (a < offset) ⊎ (offset + length input ≤ a)
      → byte_view c v' content' a ≡ byte_view c v content a

module _ (c : Crypto) (v : Volume) (content : List ℕ) (offset : ℕ) (input : List ℕ) where
  write_bytes-empty :
      offset + length input ≤ v.bootstrap.logical_capacity
      → v.bootstrap.logical_capacity < 2 ^ 64
      → length input ≡ 0
      → write_bytes c v offset input (sound content) ≡ (ok tt, v, sound content)
  unfolding write_bytes
  write_bytes-empty inside small none_left =
      rw (lt→ltb (offset + length input) (2 ^ 64) (omega (arith, inside, small)), write_bytes)
        (rw (ltb-false v.bootstrap.logical_capacity (offset + length input) inside, write_bytes)
          (rw (none_left, write_bytes) refl))

  nonempty : 0 < length input → length input == 0 ≡ false
  nonempty h = ground arith

  write_bytes-updates :
      (updates : Blocks) (generations : List ℕ) (v' : Volume) (content' : List ℕ)
      → offset + length input ≤ v.bootstrap.logical_capacity
      → v.bootstrap.logical_capacity < 2 ^ 64
      → 0 < length input
      → update_loop c v content offset input (length input + 1) 0 ≡ ok updates
      → write_blocks c v updates (sound content) ≡ (ok generations, v', sound content')
      → write_bytes c v offset input (sound content) ≡ (ok tt, v', sound content')
  unfolding write_bytes
  write_bytes-updates updates generations v' content' inside small some_bytes collected written =
      rw (lt→ltb (offset + length input) (2 ^ 64) (omega (arith, inside, small)), write_bytes)
        (rw (ltb-false v.bootstrap.logical_capacity (offset + length input) inside, write_bytes)
          (rw (nonempty some_bytes, write_bytes)
            (rw (collected, write_bytes) (rw (written, write_bytes) refl))))

  view-updated :
      (updates : Blocks) (r : Refined c v updates content) (a : ℕ)
      → byte_view c r.v' r.content' a
        ≡ block_byte
            (updated updates
              (read_block c v (a / v.bootstrap.block_size) content)
              (a / v.bootstrap.block_size))
            (a % v.bootstrap.block_size)
  view-updated updates r a =
      ap
        (λ (b : Bootstrap).
          block_byte (read_block c r.v' (a / b.block_size) r.content') (a % b.block_size))
        r.layout
      ∙ ap (λ t. block_byte t (a % v.bootstrap.block_size)) (r.reads (a / v.bootstrap.block_size))

  -- With documented cryptography, for a volume over a file that backs it, whose blocks are bytes and
  -- have next generations, and bytes for a range inside the capacity: `write_bytes` on a device
  -- that does not fail succeeds, when the end of the log, the count of records and the generation
  -- stay below `2 ^ 64`. The file backs the changed volume, which has the new bytes in the range and
  -- the old ones everywhere else.
  pub write_bytes-refines :
      IsAead c
      → HasDigests c
      → IsBytes 32 v.keys.key
      → 0 < v.bootstrap.block_size
      → v.bootstrap.block_size ≤ max_block_size
      → Backs c v content
      → IsWritable c v content
      → All IsByte input
      → offset + length input ≤ v.bootstrap.logical_capacity
      → v.bootstrap.logical_capacity < 2 ^ 64
      → v.state.committed_end + length input * 2 ^ 25 < 2 ^ 64
      → v.state.record_count + length input < 2 ^ 64
      → v.state.generation + 1 < 2 ^ 64
      → BytesWritten c v content offset input
  write_bytes-refines aead digests key positive block backs writable bytes inside small room few
        next =
      elim (le-cases (length input) 0) [
        | inl empty ↦ record {
          v' = v;
          content' = content;
          run = write_bytes-empty inside small (omega (arith, empty));
          layout = refl;
          backs = backs;
          new = λ k h. absurd (omega (arith, empty, h));
          old = λ a within apart. refl;
        }
        | inr some_bytes ↦
            let (updates, collected, o) =
              update_loop_lem c v content offset input writable positive bytes inside small
                (length input + 1) 0 (omega arith) (omega arith) in
            let r =
              write_blocks-refines c v updates content aead digests key block backs o.distinct
                o.good (omega (arith, room, o.few)) (omega (arith, few, o.few)) next in
            record {
              v' = r.v';
              content' = r.content';
              run =
                  write_bytes-updates updates r.generations r.v' r.content' inside small some_bytes
                    collected r.run;
              layout = r.layout;
              backs = r.backs;
              new = λ k h. view-updated updates r (offset + k) ∙ o.new k (omega arith) h;
              old = λ a within apart.
                  view-updated updates r a ∙ o.old a within (omega (arith, apart));
            }
      ]

pub same_bytes :
    (xs ys : List ℕ)
    → length xs ≡ length ys
    → ((k : ℕ) → k < length ys → get_or xs k 0 ≡ get_or ys k 0)
    → xs ≡ ys
same_bytes [] [] l h = refl
same_bytes [] (y ∷ ys) l h = absurd (omega (arith, l))
same_bytes (x ∷ xs) [] l h = absurd (omega (arith, l))
same_bytes (x ∷ xs) (y ∷ ys) l h =
    ap₂ (λ a b. a ∷ b) (h 0 (omega arith))
      (same_bytes xs ys (omega (arith, l)) (λ k below. h (suc k) (omega (arith, below))))

-- Behind a write the bytes of the range are read back, whatever the output held.
pub read-written :
    (c : Crypto) (v : Volume) (content : List ℕ) (offset : ℕ) (input output : List ℕ)
    (w : BytesWritten c v content offset input)
    → length output ≡ length input
    → 0 < v.bootstrap.block_size
    → offset + length input ≤ v.bootstrap.logical_capacity
    → v.bootstrap.logical_capacity < 2 ^ 64
    → read_bytes c w.v' w.content' offset output ≡ (ok tt, input)
read-written c v content offset input output w size positive inside small =
    let r =
      read_bytes_lem c w.v' w.content' offset output w.backs (rw w.layout positive)
        (rw w.layout (omega (arith, size, inside))) (rw w.layout small) in
    ap₂ (λ a b. (a, b)) r.fine
      (same_bytes _ input (r.size ∙ size) (λ k h. r.bytes k (omega (arith, size, h)) ∙ w.new k h))
