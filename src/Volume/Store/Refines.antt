-- ===== src/Volume/Store/Refines.antt =====
-- The volume as a map from indexes to blocks: `write_blocks` on a device without failures is the
-- update of that map, and the file behind it backs the changed volume.
use or_isy_vra.Base.{
  ℕ, ◌+◌, ◌-◌, ◌*◌, ◌^◌, ◌≤◌, ◌<◌, ◌≡◌, refl, arith, inr, List, [], ◌∷◌, length, All, false,
}
use or_isy_vra.Base.Bytes.{IsBytes, slice}
use or_isy_vra.Base.Results.{ok}
use or_isy_vra.Crypto.{Crypto, IsAead, HasDigests}
use or_isy_vra.Volume.Layout.{max_block_size, log_start}
use or_isy_vra.Volume.Layout.SuperCodec.{IsSuperState}
use or_isy_vra.Volume.Device.{write_at}
use or_isy_vra.Volume.Device.Keeps.{write_at-Has, write_at-own}
use or_isy_vra.Volume.Blocks.{Volume, read_block}
use or_isy_vra.Volume.Store.Commit.{Blocks, member, write_blocks}
use or_isy_vra.Volume.Store.Crash.{slot_offset}
use or_isy_vra.Volume.Store.Reopen.{SameLog, Backs}
use or_isy_vra.Volume.Store.ReadBack.{sound}
use or_isy_vra.Volume.Store.Steps.{Steps-same}
use or_isy_vra.Volume.Store.Records.{keys_of, IsBlock}
use or_isy_vra.Volume.Store.Transaction.{
  Distinct, Agree, Stored, Stored-same, SameLog-shorter, Appended, append_records, SameLog-trans,
}
use or_isy_vra.Volume.Store.Superblock.{Sealed, seal_superblock}
use or_isy_vra.Volume.Store.Located.{Steps-Stored, scan_log-Steps, Steps-scan_log}
use or_isy_vra.Volume.Store.View.{updated, updated_lem, map-All₂, read_new, read_old}
use or_isy_vra.Volume.Store.Committed.{
  validate_blocks-ok, behind_transaction, generations_of, transact-ok, write_blocks-transact,
}

-- What is behind a transaction: the run, the file under the changed volume, and its map.
pub record Refined (c : Crypto) (v : Volume) (blocks : Blocks) (content : List ℕ) : Type 0 where
  pub generations : List ℕ
  pub v' : Volume
  pub content' : List ℕ
  pub run : write_blocks c v blocks (sound content) ≡ (ok generations, v', sound content')
  pub layout : v'.bootstrap ≡ v.bootstrap
  pub same_keys : v'.keys ≡ v.keys
  pub backs : Backs c v' content'
  pub reads : (j : ℕ) → read_block c v' j content' ≡ updated blocks (read_block c v j content) j

module _ (c : Crypto) (v : Volume) (content : List ℕ) (aead : IsAead c) (digests : HasDigests c)
    (key : IsBytes 32 v.keys.key) (backs : Backs c v content) where
  -- The superblock of the transaction, behind its records.
  module _ (blocks : Blocks)
      (a : Appended c v v.state.committed_end v.state.record_count v.index blocks content)
      (next : v.state.generation + 1 < 2 ^ 64) (few : v.state.record_count + length blocks < 2 ^ 64)
      (room : v.state.committed_end + length blocks * 2 ^ 25 < 2 ^ 64) where
    abbrev new : Volume
    new = behind_transaction c v a.end a.entries

    new-IsSuperState : IsSuperState new.state
    new-IsSuperState = record {
      generation_u64 = next;
      end_u64 = omega (arith, a.bounded, room);
      count_u64 = omega (arith, few, a.counted);
      begins = omega (arith, a.forward, backs.opened.begins);
    }

    sealed : Sealed c v.bootstrap v.keys (1 - v.active_super) new.state
    sealed =
        seal_superblock c v.bootstrap v.keys (1 - v.active_super) new.state aead digests key
          (omega arith) new-IsSuperState

    abbrev final : List ℕ
    final = write_at (slot_offset (1 - v.active_super)) sealed.bytes a.content'

    final-SameLog : SameLog a.end a.content' final
    final-SameLog =
        let has =
          write_at-Has log_start a.end (slot_offset (1 - v.active_super))
            (slice log_start a.end a.content') sealed.bytes a.content'
            (omega (arith, a.forward, backs.opened.begins)) (inr (omega (arith, sealed.size)))
            (record { reaches = a.long; same = refl }) in
        record { log = has.same; long = a.long; long' = has.reaches }

    new-Backs : Backs c new final
    new-Backs = record {
      opened = record {
        slot = omega arith;
        begins = omega (arith, a.forward, backs.opened.begins);
        there = final-SameLog.long';
      };
      superblock = sealed.reads final (
          rw sealed.size at
            (write_at-own (slot_offset (1 - v.active_super)) sealed.bytes a.content'));
      log = Steps-scan_log c v.bootstrap v.keys new.state final new.index new-IsSuperState.end_u64 (
          rw (← a.counted) at
            (Steps-same c v.bootstrap v.keys a.content' final final-SameLog (omega arith) a.steps));
    }

    refined :
        Distinct (keys_of blocks)
        → All (λ p. IsBlock v p.0 p.1) blocks
        → write_blocks c v blocks (sound content)
          ≡ (ok (generations_of c v a.entries), new, sound final)
        → Refined c v blocks content
    refined distinct good run =
        let same : SameLog v.state.committed_end content final = SameLog-trans a.kept (
          SameLog-shorter v.state.committed_end a.end a.forward backs.opened.begins
            final-SameLog) in
        record {
          generations = generations_of c v a.entries;
          v' = new;
          content' = final;
          run = run;
          layout = refl;
          same_keys = refl;
          backs = new-Backs;
          reads = λ j.
              updated_lem blocks j _ (read_block c v j content)
                (map-All₂ {P = λ p. IsBlock v p.0 p.1}
                  {P' = λ p. Stored c v a.content' a.end new.index p.0 p.1} blocks
                  (λ p block stored at. rw (← at) (
                    read_new c v content final a.end a.entries p.0 p.1 block.inside (
                      Stored-same c v a.content' final a.end new.index p.0 p.1 final-SameLog
                        stored)))
                  good a.stored)
                (λ ne.
                  read_old c v content final a.end a.entries j same
                    (Steps-Stored c v content v.state.committed_end
                      (scan_log-Steps c v.bootstrap v.keys v.state content v.index backs.log))
                    (rw a.keys ne));
        }

write_blocks-nil :
    (c : Crypto) (v : Volume) (content : List ℕ)
    → write_blocks c v [] (sound content) ≡ (ok [], v, sound content)
unfolding write_blocks
write_blocks-nil c v content = refl

Agree-self : (c : Crypto) (v : Volume) (blocks : Blocks) → Agree c v v.index blocks
Agree-self c v [] = tt
Agree-self c v (p ∷ blocks) = (refl, Agree-self c v blocks)

nothing_seen : (keys : List ℕ) → All (λ j. member j [] ≡ false) keys
unfolding member
nothing_seen [] = tt
nothing_seen (k ∷ keys) = (refl, nothing_seen keys)

-- With documented cryptography, a volume over a file that backs it, and blocks that are inside the
-- volume, no larger than its block size, each index once and with a next generation, `write_blocks`
-- on a device that does not fail succeeds, when the end of the log, its count of records and its
-- generation stay below `2 ^ 64`. The file then backs the volume that it returns, and `read_block`
-- answers for every index what the map of blocks before, updated with the blocks written, has.
pub write_blocks-refines :
    (c : Crypto) (v : Volume) (blocks : Blocks) (content : List ℕ)
    → IsAead c
    → HasDigests c
    → IsBytes 32 v.keys.key
    → v.bootstrap.block_size ≤ max_block_size
    → Backs c v content
    → Distinct (keys_of blocks)
    → All (λ p. IsBlock v p.0 p.1) blocks
    → v.state.committed_end + length blocks * 2 ^ 25 < 2 ^ 64
    → v.state.record_count + length blocks < 2 ^ 64
    → v.state.generation + 1 < 2 ^ 64
    → Refined c v blocks content
write_blocks-refines c v [] content aead digests key block backs distinct good room few next =
    record {
      generations = [];
      v' = v;
      content' = content;
      run = write_blocks-nil c v content;
      layout = refl;
      same_keys = refl;
      backs = backs;
      reads = λ j. refl;
    }
write_blocks-refines c v ((i, plaintext) ∷ blocks) content aead digests key block backs distinct
      good room few next =
    let all = (i, plaintext) ∷ blocks in
    let a =
      append_records c v aead digests key block v.state.committed_end v.state.record_count v.index
        all content distinct good (Agree-self c v all) backs.opened.begins backs.opened.there room
        few (scan_log-Steps c v.bootstrap v.keys v.state content v.index backs.log) in
    refined c v content aead digests key backs all a next few room distinct good (
      write_blocks-transact c v i plaintext blocks content
        (final c v content aead digests key backs all a next few room)
        (generations_of c v a.entries) (new c v content aead digests key backs all a next few room)
        (transact-ok c v all content a.content' _ a.entries a.end
          (validate_blocks-ok c v [] all content distinct (nothing_seen (keys_of all)) good) a.run
          next (omega (arith, a.counted, few))
          ((sealed c v content aead digests key backs all a next few room).writes a.content')))
