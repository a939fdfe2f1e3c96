-- ===== src/Volume/Store.antt =====
-- `Volume`: creation, opening, and reading of blocks.
pub mod Commit
pub mod Crash
pub mod Reopen
pub mod ReadBack
pub mod Steps
pub mod Records
pub mod Transaction
pub mod Superblock
pub mod Located
pub mod Committed
pub mod View
pub mod Refines
pub mod Settles
use or_isy_vra.Base.{
  ℕ, ◌+◌, List, [], ◌∷◌, ◌++◌, length, Option, none, some, Bool, true, false, ltb, leb, ◌==◌, not,
  ◌||◌, if◌then◌else◌,
}
use or_isy_vra.Base.Results.{ok, err, stuck, fail_if}
use or_isy_vra.Crypto.{Crypto}
use or_isy_vra.Volume.Layout.{
  VolumeError, VolumeResult, VolumeOptions, Bootstrap, new_bootstrap, encode_bootstrap,
  decode_bootstrap, block_count, SuperState, RecordHeader, bootstrap_size, log_start,
  authentication_failed, corrupt, invalid_input, block_out_of_range,
}
use or_isy_vra.Volume.Device.{
  Device, Io, pure, lift, ◌>>=◌, ◌>>◌, write_all, set_len, sync, read_at,
}
use or_isy_vra.Volume.Seals.{
  VolumeKeys, derive_keys, derive_nonce, super_domain, super_offset, super_aad, super_slot, encrypt,
  read_superblock,
}
use or_isy_vra.Volume.Layout.{encode_super, super_slot_size}
use or_isy_vra.Volume.Log.{Index, scan_log}
use or_isy_vra.Volume.Blocks.{Volume}

unfoldable pub write_superblock : Crypto → Bootstrap → VolumeKeys → ℕ → SuperState → Io Unit
write_superblock c b keys slot st = do
  ciphertext ← lift (
      encrypt c keys (derive_nonce c keys b super_domain slot st.generation) (encode_super st)
        (super_aad b slot st.generation))
  lift (
      fail_if (ltb super_slot_size (length ciphertext + 16))
        (invalid_input "superblock payload exceeds its slot"))
  offset ← lift (super_offset slot)
  write_all offset (super_slot st.generation ciphertext)

-- `Volume::create`; the random identifier and salt are arguments, and the device is a new file.
unfoldable pub create : Crypto → List ℕ → VolumeOptions → List ℕ → List ℕ → Io Volume
create c master options volume_id salt = do
  b ← lift (new_bootstrap options volume_id salt)
  keys ← lift (derive_keys c master b)
  write_all 0 (encode_bootstrap b)
  set_len log_start
  let primary : SuperState = record {
    generation = 1;
    committed_end = log_start;
    record_count = 0;
    clean = true;
  }
  let backup : SuperState = record {
    generation = 0;
    committed_end = log_start;
    record_count = 0;
    clean = true;
  }
  write_superblock c b keys 0 primary
  write_superblock c b keys 1 backup
  sync
  pure (record { bootstrap = b; keys = keys; state = primary; active_super = 0; index = [] })

-- The candidates of `open`: the slots whose superblock is authentic.
abbrev pub candidate : ℕ → VolumeResult (Option SuperState) → List (ℕ × SuperState)
candidate slot (ok (some st)) = (slot, st) ∷ []
candidate slot (ok none) = []
candidate slot (err e) = []
candidate slot stuck = []

unfoldable pub candidates : Crypto → Bootstrap → VolumeKeys → List ℕ → List (ℕ × SuperState)
candidates c b keys content =
    candidate 0 (read_superblock c b keys 0 content)
    ++ candidate 1 (read_superblock c b keys 1 content)

-- `sort_by_key` on the reversed generation, which is stable.
unfoldable pub newest_first : List (ℕ × SuperState) → List (ℕ × SuperState)
newest_first [] = []
newest_first (x ∷ []) = x ∷ []
newest_first (x ∷ y ∷ rest) =
    if ltb x.1.generation y.1.generation then y ∷ x ∷ rest else x ∷ y ∷ rest

-- `for (slot, state) in candidates`: the first one whose log is in order.
unfoldable pub first_valid :
    Crypto
    → Bootstrap
    → VolumeKeys
    → List ℕ
    → List (ℕ × SuperState)
    → Option (ℕ × SuperState × Index)
first_valid c b keys content [] = none
first_valid c b keys content ((slot, st) ∷ rest) =
    let others = first_valid c b keys content rest in
    if ltb (length content) st.committed_end then others else elim (scan_log c b keys st content) [
      | ok index ↦ some (slot, st, index)
      | err e ↦ others
      | stuck ↦ others
    ]

-- A tail behind the committed log is cut off.
unfoldable pub discard_tail : ℕ → Io Unit
discard_tail committed_end d =
    if ltb committed_end (length d.content) then (do set_len committed_end; sync) d else (ok tt, d)

unfoldable pub open_found : Bootstrap → VolumeKeys → Option (ℕ × SuperState × Index) → Io Volume
open_found b keys none =
    lift (err (corrupt "no authenticated superblock has a valid committed log"))
open_found b keys (some (slot, st, index)) = do
  discard_tail st.committed_end
  pure (record { bootstrap = b; keys = keys; state = st; active_super = slot; index = index })

-- `Volume::open`.
unfoldable pub open_volume : Crypto → List ℕ → Io Volume
open_volume c master d =
    let opening = (do
      bytes ← lift (read_at 0 bootstrap_size d.content)
      b ← lift (decode_bootstrap bytes)
      keys ← lift (derive_keys c master b)
      let found = candidates c b keys d.content
      lift (fail_if (length found == 0) authentication_failed)
      open_found b keys (first_valid c b keys d.content (newest_first found))) in
    opening d
