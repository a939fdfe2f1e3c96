-- ===== src/Volume/Store/Commit.antt =====
-- `Volume::write_blocks` and `set_clean_state`: the steps of a transaction in the code's order.
use or_isy_vra.Base.{
  ℕ, ◌+◌, ◌-◌, List, [], ◌∷◌, length, map, Option, none, some, Bool, true, false, ltb, ◌==◌, not,
  ◌||◌, if◌then◌else◌,
}
use or_isy_vra.Base.Results.{ok, err, stuck, fail_if, ok_or, checked_add, u32_try_from}
use or_isy_vra.Crypto.{Crypto}
use or_isy_vra.Volume.Layout.{
  VolumeResult, SuperState, encode_record_header, record_header_size, tag_size, invalid_input,
}
use or_isy_vra.Volume.Device.{Device, Io, pure, lift, ◌>>=◌, ◌>>◌, write_all, sync}
use or_isy_vra.Volume.Seals.{encrypt}
use or_isy_vra.Volume.Log.{
  Index, RecordIndex, get, insert, record_nonce, record_aad, saturating_add,
}
use or_isy_vra.Volume.Blocks.{Volume, validate_block_index}
use or_isy_vra.Volume.Store.{write_superblock}

abbrev pub Blocks : Type 0
Blocks = List (ℕ × List ℕ)

unfoldable pub member : ℕ → List ℕ → Bool
member key [] = false
member key (k ∷ keys) = k == key || member key keys

-- The first loop of `write_blocks`: every block is checked before anything is written.
unfoldable pub validate_blocks : Volume → List ℕ → Blocks → Io Unit
validate_blocks v seen [] = pure tt
validate_blocks v seen ((block_index, plaintext) ∷ blocks) = do
  lift (validate_block_index v block_index)
  lift (fail_if (member block_index seen) (invalid_input "duplicate block in one transaction"))
  lift (
      fail_if (ltb v.bootstrap.block_size (length plaintext))
        (invalid_input "block payload exceeds the block size"))
  validate_blocks v (block_index ∷ seen) blocks

unfoldable pub next_generation : Option RecordIndex → VolumeResult ℕ
next_generation (some previous) =
    ok_or (checked_add previous.generation 1) (invalid_input "block generation exhausted")
next_generation none = ok 1

-- `plaintext_len.checked_add(AEAD_TAG_SIZE as u32)`.
abbrev pub checked_add_u32 : ℕ → ℕ → Option ℕ
checked_add_u32 a b = u32_try_from (a + b)

-- One round of the second loop: the record that is written at `offset`, its entry, and the offset behind it.
unfoldable pub write_record : Crypto → Volume → ℕ → ℕ → List ℕ → Io ((ℕ × RecordIndex) × ℕ)
write_record c v offset block_index plaintext = do
  generation ← lift (next_generation (get block_index v.index))
  plaintext_len ←
      lift (ok_or (u32_try_from (length plaintext)) (invalid_input "block payload is too large"))
  ciphertext_len ←
      lift (ok_or (checked_add_u32 plaintext_len tag_size) (invalid_input "block length overflow"))
  let header_bytes = encode_record_header (record {
    block_index = block_index;
    generation = generation;
    plaintext_len = plaintext_len;
    ciphertext_len = ciphertext_len;
  })
  ciphertext ← lift (
      encrypt c v.keys (record_nonce c v.keys v.bootstrap block_index generation) plaintext
        (record_aad v.bootstrap header_bytes))
  write_all offset header_bytes
  write_all (offset + record_header_size) ciphertext
  behind_header ←
      lift (ok_or (checked_add offset record_header_size) (invalid_input "volume offset overflow"))
  next_offset ← lift (
      ok_or (checked_add behind_header (length ciphertext))
        (invalid_input "volume offset overflow"))
  let entry : RecordIndex = record {
    offset = offset;
    generation = generation;
    plaintext_len = plaintext_len;
    ciphertext_len = ciphertext_len;
  }
  pure ((block_index, entry), next_offset)

unfoldable pub write_records : Crypto → Volume → ℕ → Blocks → Io (Index × ℕ)
write_records c v offset [] = pure ([], offset)
write_records c v offset ((block_index, plaintext) ∷ blocks) = do
  (entry, next_offset) ← write_record c v offset block_index plaintext
  (entries, end) ← write_records c v next_offset blocks
  pure (entry ∷ entries, end)

-- `for (block_index, record) in records { self.index.insert(...) }`.
unfoldable pub insert_all : Index → Index → Index
insert_all [] index = index
insert_all ((block_index, entry) ∷ entries) index =
    insert_all entries (insert block_index entry index)

-- Up to the written superblock: the generations, and the volume as it is then.
unfoldable pub transact : Crypto → Volume → Blocks → Io (List ℕ × Volume)
transact c v blocks = do
  validate_blocks v [] blocks
  (entries, end) ← write_records c v v.state.committed_end blocks
  sync
  generation ←
      lift
        (ok_or (checked_add v.state.generation 1) (invalid_input "superblock generation exhausted"))
  record_count ← lift (
      ok_or (checked_add v.state.record_count (length entries))
        (invalid_input "record count exhausted"))
  let next_state : SuperState = record {
    generation = generation;
    committed_end = end;
    record_count = record_count;
    clean = false;
  }
  let next_slot = 1 - v.active_super
  write_superblock c v.bootstrap v.keys next_slot next_state
  pure (
    map (λ entry. entry.1.generation) entries,
    record {
      bootstrap = v.bootstrap;
      keys = v.keys;
      state = next_state;
      active_super = next_slot;
      index = insert_all entries v.index;
    },
  )

-- The end of `write_blocks`. The volume is changed before the last sync, so it stays changed where
-- that fails.
unfoldable pub after_transact :
    Volume → VolumeResult (List ℕ × Volume) → Device → VolumeResult (List ℕ) × Volume × Device
after_transact v (ok (generations, v')) d =
    let (synced, d') = (do sync; pure generations) d in (synced, v', d')
after_transact v (err e) d = (err e, v, d)
after_transact v stuck d = (stuck, v, d)

-- `Volume::write_blocks`: the result, the volume and the device.
unfoldable pub write_blocks :
    Crypto → Volume → Blocks → Device → VolumeResult (List ℕ) × Volume × Device
unfolding after_transact
write_blocks c v [] d = (ok [], v, d)
write_blocks c v (block ∷ blocks) d =
    let (r, d') = transact c v (block ∷ blocks) d in after_transact v r d'

-- `Volume::set_clean_state`, behind its test whether there is anything to do.
unfoldable pub change_clean_state : Crypto → Volume → Bool → Io Volume
change_clean_state c v clean = do
  let next_state : SuperState = record {
    generation = saturating_add v.state.generation 1;
    committed_end = v.state.committed_end;
    record_count = v.state.record_count;
    clean = clean;
  }
  lift (fail_if (next_state.generation == 0) (invalid_input "superblock generation exhausted"))
  let next_slot = 1 - v.active_super
  write_superblock c v.bootstrap v.keys next_slot next_state
  sync
  pure (record v { state = next_state; active_super = next_slot })

abbrev pub same_flag : Bool → Bool → Bool
same_flag true b = b
same_flag false b = not b

unfoldable pub set_clean_state : Crypto → Volume → Bool → Io Volume
set_clean_state c v clean =
    if same_flag v.state.clean clean then pure v else change_clean_state c v clean
