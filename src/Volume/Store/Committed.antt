-- ===== src/Volume/Store/Committed.antt =====
-- `write_blocks` on a device without failures.
use or_isy_vra.Base.{
  ℕ, ◌+◌, ◌-◌, ◌^◌, ◌<◌, ◌≡◌, ◌≢◌, refl, arith, List, [], ◌∷◌, length, map, All, false, ◌||◌, ◌==◌,
  leb, ltb-false,
}
use or_isy_vra.Base.Results.{ok, ok_or, checked_add}
use or_isy_vra.Crypto.{Crypto}
use or_isy_vra.Volume.Layout.{VolumeError, block_count, invalid_input}
use or_isy_vra.Volume.Device.{pure, lift, ◌>>=◌, sync}
use or_isy_vra.Volume.Log.{Index}
use or_isy_vra.Volume.Blocks.{Volume, validate_block_index}
use or_isy_vra.Volume.Store.{write_superblock}
use or_isy_vra.Volume.Store.Commit.{
  Blocks, member, validate_blocks, write_records, insert_all, transact, after_transact,
  write_blocks,
}
use or_isy_vra.Volume.Store.ReadBack.{sound}
use or_isy_vra.Volume.Store.Records.{keys_of, IsBlock}
use or_isy_vra.Volume.Store.Transaction.{Distinct}

-- No index of the transaction has been seen.
abbrev Unseen : List ℕ → List ℕ → Type 0
Unseen seen = All (λ j. member j seen ≡ false)

Unseen-cons :
    (i : ℕ) (seen keys : List ℕ) → All (λ j. j ≢ i) keys → Unseen seen keys → Unseen (i ∷ seen) keys
unfolding member
Unseen-cons i seen [] ne fresh = tt
Unseen-cons i seen (j ∷ keys) ne fresh = (unseen ne.0 fresh.0, Unseen-cons i seen keys ne.1 fresh.1)
  where
    unseen : j ≢ i → member j seen ≡ false → i == j || member j seen ≡ false
    unseen ne fresh = ground arith

module _ (c : Crypto) (v : Volume) where
  pub validate_blocks-ok :
      (seen : List ℕ) (blocks : Blocks) (content : List ℕ)
      → Distinct (keys_of blocks)
      → Unseen seen (keys_of blocks)
      → All (λ p. IsBlock v p.0 p.1) blocks
      → validate_blocks v seen blocks (sound content) ≡ (ok tt, sound content)
  unfolding validate_blocks validate_block_index lift pure ◌>>=◌
  validate_blocks-ok seen [] content distinct fresh good = refl
  validate_blocks-ok seen ((i, plaintext) ∷ blocks) content distinct fresh good =
      rw (in_range i (block_count v.bootstrap) good.0.inside) (
        rw fresh.0 (
          rw (ltb-false v.bootstrap.block_size (length plaintext) good.0.fits) (
            validate_blocks-ok (i ∷ seen) blocks content distinct.1
              (Unseen-cons i seen (keys_of blocks) distinct.0 fresh.1) good.1)))
    where
      in_range : (i n : ℕ) → i < n → leb n i ≡ false
      in_range i n h = ground arith

  -- The volume behind a transaction.
  abbrev pub behind_transaction : ℕ → Index → Volume
  behind_transaction end entries = record {
    bootstrap = v.bootstrap;
    keys = v.keys;
    state = record {
      generation = v.state.generation + 1;
      committed_end = end;
      record_count = v.state.record_count + length entries;
      clean = false;
    };
    active_super = 1 - v.active_super;
    index = insert_all entries v.index;
  }

  abbrev pub generations_of : Index → List ℕ
  generations_of = map (λ entry. entry.1.generation)

  sum-ok : (a b : ℕ) (x : VolumeError) → a + b < 2 ^ 64 → ok_or (checked_add a b) x ≡ ok (a + b)
  sum-ok a b x h = ground arith

  pub transact-ok :
      (blocks : Blocks) (content content1 content2 : List ℕ) (entries : Index) (end : ℕ)
      → validate_blocks v [] blocks (sound content) ≡ (ok tt, sound content)
      → write_records c v v.state.committed_end blocks (sound content)
        ≡ (ok (entries, end), sound content1)
      → v.state.generation + 1 < 2 ^ 64
      → v.state.record_count + length entries < 2 ^ 64
      → write_superblock c v.bootstrap v.keys
          (1 - v.active_super)
          (behind_transaction end entries).state
          (sound content1)
        ≡ (ok tt, sound content2)
      → transact c v blocks (sound content)
        ≡ (ok (generations_of entries, behind_transaction end entries), sound content2)
  unfolding transact lift pure ◌>>=◌ sync
  transact-ok blocks content content1 content2 entries end checked appended next few written =
      rw checked (
        rw appended (
          rw (sum-ok v.state.generation 1 (invalid_input "superblock generation exhausted") next) (
            rw
              (sum-ok v.state.record_count (length entries) (invalid_input "record count exhausted")
                few)
              (rw written refl))))

  pub write_blocks-transact :
      (i : ℕ) (plaintext : List ℕ) (blocks : Blocks) (content content' generations : List ℕ)
      (v' : Volume)
      → transact c v ((i, plaintext) ∷ blocks) (sound content)
        ≡ (ok (generations, v'), sound content')
      → write_blocks c v ((i, plaintext) ∷ blocks) (sound content)
        ≡ (ok generations, v', sound content')
  unfolding write_blocks after_transact pure ◌>>=◌ sync
  write_blocks-transact i plaintext blocks content content' generations v' e = rw e refl
