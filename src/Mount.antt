-- ===== src/Mount.antt =====
-- The logic of the mount program, crates/orisyvra-volume/src/bin/orisyvra-volume-mount.rs: the bytes
-- of a volume, read and written through its blocks.
pub mod Contexts
pub mod Callbacks
pub mod Partition
pub mod Chs
pub mod Table
pub mod Initialized
pub mod Copies
pub mod Reading
pub mod Updates
pub mod Writing
pub mod Refines
pub mod Requests
pub mod Served
mod Tests
use or_isy_vra.Base.{
  ℕ, zero, suc, ◌+◌, ◌-◌, ◌*◌, ◌/◌, ◌%◌, List, [], ◌∷◌, ◌++◌, length, take, replicate, Option, none,
  some, Bool, ltb, ◌==◌, min, if◌then◌else◌,
}
use or_isy_vra.Base.Bytes.{slice, copy_at}
use or_isy_vra.Base.Results.{ok, err, stuck, checked_add, ◌>>=◌}
use or_isy_vra.Crypto.{Crypto}
use or_isy_vra.Volume.Layout.{VolumeResult, block_out_of_range}
use or_isy_vra.Volume.Device.{Device}
use or_isy_vra.Volume.Blocks.{Volume, read_block}
use or_isy_vra.Volume.Store.Commit.{Blocks, write_blocks}

abbrev pub sector_size : ℕ
sector_size = 4096

-- What a block adds to the output: the bytes from `block_offset` on that it has.
unfoldable pub add_block : Option (List ℕ) → ℕ → ℕ → ℕ → List ℕ → List ℕ
add_block none block_offset taken done output = output
add_block (some block) block_offset taken done output =
    let available = min (length block - block_offset) taken in
    if ltb 0 available
    then copy_at done (slice block_offset (block_offset + available) block) output
    else output

-- `while done < output.len()`, with fuel for the rounds; every block has bytes. The output is
-- changed even where a block cannot be read.
unfoldable pub read_loop :
    Crypto → Volume → List ℕ → ℕ → ℕ → ℕ → List ℕ → VolumeResult Unit × List ℕ
read_loop c v content offset zero done output = (stuck, output)
read_loop c v content offset (suc fuel) done output =
    let block_size = v.bootstrap.block_size in
    let absolute = offset + done in
    let block_offset = absolute % block_size in
    let taken = min (length output - done) (block_size - block_offset) in
    let next = λ (o : Option (List ℕ)).
      read_loop c v content offset fuel (done + taken)
        (add_block o block_offset taken done output) in
    if ltb done (length output)
    then elim (read_block c v (absolute / block_size) content) [
      | ok block ↦ next block
      | err e ↦ (err e, output)
      | stuck ↦ (stuck, output)
    ]
    else (ok tt, output)

-- `read_bytes`: the result, and the output as it is then.
unfoldable pub read_bytes : Crypto → Volume → List ℕ → ℕ → List ℕ → VolumeResult Unit × List ℕ
read_bytes c v content offset output = elim (checked_add offset (length output)) [
  | none ↦ (err block_out_of_range, output)
  | some end ↦
      if ltb v.bootstrap.logical_capacity end
      then (err block_out_of_range, output)
      else read_loop c v content offset (length output + 1) 0 (replicate (length output) 0)
]

-- `Vec::resize(n, 0)`.
abbrev pub resize : ℕ → List ℕ → List ℕ
resize n bytes = take n (bytes ++ replicate (n - length bytes) 0)

-- `unwrap_or_else(|| vec![0; n])`.
abbrev pub or_zeros : ℕ → Option (List ℕ) → List ℕ
or_zeros n none = replicate n 0
or_zeros n (some block) = block

-- The loop of `write_bytes`: the blocks that change, with their new bytes.
unfoldable pub update_loop : Crypto → Volume → List ℕ → ℕ → List ℕ → ℕ → ℕ → VolumeResult Blocks
update_loop c v content offset input zero done = stuck
update_loop c v content offset input (suc fuel) done =
    let block_size = v.bootstrap.block_size in
    let absolute = offset + done in
    let block_index = absolute / block_size in
    let block_start = block_index * block_size in
    let block_offset = absolute - block_start in
    let logical_block_len = min (v.bootstrap.logical_capacity - block_start) block_size in
    let taken = min (length input - done) (logical_block_len - block_offset) in
    let more = (do
      old ← read_block c v block_index content
      updates ← update_loop c v content offset input fuel (done + taken)
      ok (
          (
            block_index,
            copy_at block_offset (slice done (done + taken) input)
                (resize logical_block_len (or_zeros logical_block_len old)),
          )
          ∷ updates)) in
    if ltb done (length input) then more else ok []

-- `volume.write_blocks(&updates)`, whose generations are dropped.
abbrev pub without_generations :
    VolumeResult (List ℕ) × Volume × Device → VolumeResult Unit × Volume × Device
without_generations (ok generations, v, d) = (ok tt, v, d)
without_generations (err e, v, d) = (err e, v, d)
without_generations (stuck, v, d) = (stuck, v, d)

abbrev pub write_updates :
    Crypto → Volume → VolumeResult Blocks → Device → VolumeResult Unit × Volume × Device
write_updates c v (ok updates) d = without_generations (write_blocks c v updates d)
write_updates c v (err e) d = (err e, v, d)
write_updates c v stuck d = (stuck, v, d)

-- `write_bytes`: the result, the volume and the device.
unfoldable pub write_bytes :
    Crypto → Volume → ℕ → List ℕ → Device → VolumeResult Unit × Volume × Device
write_bytes c v offset input d = elim (checked_add offset (length input)) [
  | none ↦ (err block_out_of_range, v, d)
  | some end ↦
      if ltb v.bootstrap.logical_capacity end
      then (err block_out_of_range, v, d)
      else if length input == 0
      then (ok tt, v, d)
      else write_updates c v (update_loop c v d.content offset input (length input + 1) 0) d
]
