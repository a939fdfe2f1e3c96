-- ===== src/Mount/Initialized.antt =====
-- `initialize_mbr` on a volume whose first sector is empty.
use or_isy_vra.Base.{
  ℕ, ◌+◌, ◌-◌, ◌*◌, ◌/◌, ◌%◌, ◌^◌, ◌≤◌, ◌<◌, ◌≡◌, refl, ap, sym, ◌∙◌, ap₂, arith, List, length,
  replicate, All, true, false, ltb-false, length-replicate,
}
use or_isy_vra.Base.Words.{IsByte}
use or_isy_vra.Base.Bytes.{IsBytes}
use or_isy_vra.Base.Results.{ok, err}
use or_isy_vra.Crypto.{Crypto, IsAead, HasDigests}
use or_isy_vra.Volume.Layout.{max_block_size}
use or_isy_vra.Volume.Device.{sync}
use or_isy_vra.Volume.Blocks.{Volume}
use or_isy_vra.Volume.Store.Reopen.{Backs}
use or_isy_vra.Volume.Store.ReadBack.{sound}
use or_isy_vra.Mount.{sector_size, read_bytes, write_bytes}
use or_isy_vra.Mount.Copies.{get_or-replicate}
use or_isy_vra.Mount.Partition.{
  MbrError, not_empty, mbr_bytes, any_nonzero, partition_count, check_empty, check_volume,
  then_sync, initialize_mbr,
}
use or_isy_vra.Mount.Reading.{byte_view, read_bytes_lem}
use or_isy_vra.Mount.Writing.{IsWritable}
use or_isy_vra.Mount.Refines.{BytesWritten, write_bytes-refines, read-written, same_bytes}
use or_isy_vra.Mount.Table.{length-table, table-IsByte, table-signature, nonzero_byte, zero_bytes}

-- The capacity is one that the table can have.
pub record IsPartitionable (v : Volume) : Type 0 where
  pub large : 16 * 1024 * 1024 ≤ v.bootstrap.logical_capacity
  pub whole : v.bootstrap.logical_capacity % sector_size ≡ 0
  pub few : v.bootstrap.logical_capacity / sector_size < 2 ^ 32

-- The table of the whole volume behind its first megabyte.
abbrev pub table_of : Volume → List ℕ
table_of v = mbr_bytes v.bootstrap.volume_id 256 (v.bootstrap.logical_capacity / sector_size - 256)

module _ (c : Crypto) (v : Volume) (content : List ℕ) where
  check_volume-read :
      (sector : List ℕ)
      → IsPartitionable v
      → read_bytes c v content 0 (replicate 512 0) ≡ (ok tt, sector)
      → any_nonzero sector ≡ false
      → check_volume c v content ≡ ok (v.bootstrap.logical_capacity / sector_size - 256)
  unfolding check_volume check_empty partition_count
  check_volume-read sector p read zeros =
      rw (ltb-false v.bootstrap.logical_capacity (16 * 1024 * 1024) p.large) (
        rw p.whole (
          rw read (
            rw zeros (
              rw
                (ltb-false (v.bootstrap.logical_capacity / sector_size) 256
                  (omega (arith, p.large)))
                (rw
                  (ltb-false (2 ^ 32 - 1) (v.bootstrap.logical_capacity / sector_size - 256)
                    (omega (arith, p.few)))
                  refl)))))

  check_volume-occupied :
      (sector : List ℕ)
      → IsPartitionable v
      → read_bytes c v content 0 (replicate 512 0) ≡ (ok tt, sector)
      → any_nonzero sector ≡ true
      → check_volume c v content ≡ err not_empty
  unfolding check_volume check_empty
  check_volume-occupied sector p read occupied =
      rw (ltb-false v.bootstrap.logical_capacity (16 * 1024 * 1024) p.large)
        (rw p.whole (rw read (rw occupied refl)))

  initialize_mbr-ok :
      (count : ℕ) (v' : Volume) (content' : List ℕ)
      → check_volume c v content ≡ ok count
      → write_bytes c v 0 (mbr_bytes v.bootstrap.volume_id 256 count) (sound content)
        ≡ (ok tt, v', sound content')
      → initialize_mbr c v (sound content) ≡ (ok tt, v', sound content')
  unfolding initialize_mbr then_sync sync
  initialize_mbr-ok count v' content' checked written =
      rw (checked, initialize_mbr) (rw (written, initialize_mbr) refl)

  initialize_mbr-refused :
      (e : MbrError)
      → check_volume c v content ≡ err e
      → initialize_mbr c v (sound content) ≡ (err e, v, sound content)
  unfolding initialize_mbr
  initialize_mbr-refused e checked = rw (checked, initialize_mbr) refl

  -- What is behind an initialization.
  pub record Initialized : Type 0 where
    pub v' : Volume
    pub content' : List ℕ
    pub run : initialize_mbr c v (sound content) ≡ (ok tt, v', sound content')
    pub read :
        (output : List ℕ)
        → length output ≡ 512
        → read_bytes c v' content' 0 output ≡ (ok tt, (table_of v))
    pub again : initialize_mbr c v' (sound content') ≡ (err not_empty, v', sound content')

  empty_sector :
      Backs c v content
      → 0 < v.bootstrap.block_size
      → v.bootstrap.logical_capacity < 2 ^ 64
      → IsPartitionable v
      → ((k : ℕ) → k < 512 → byte_view c v content k ≡ 0)
      → read_bytes c v content 0 (replicate 512 0) ≡ (ok tt, replicate 512 0)
  empty_sector backs positive small p zeros =
      let width : length (replicate {A = ℕ} 512 0) ≡ 512 = length-replicate {A = ℕ} 512 0 in
      let r =
        read_bytes_lem c v content 0 (replicate 512 0) backs positive
          (omega (arith, width, p.large)) small in
      ap₂ (λ a b. (a, b)) r.fine
        (same_bytes _ (replicate 512 0) r.size (λ k h.
          r.bytes k h
          ∙ ap (byte_view c v content) {x = 0 + k} {y = k} (omega arith)
          ∙ zeros k (omega (arith, width, h))
          ∙ sym (get_or-replicate 512 k 0)))

module _ (c : Crypto) (v : Volume) (content : List ℕ) where
  initialized :
      BytesWritten c v content 0 (table_of v)
      → check_volume c v content ≡ ok (v.bootstrap.logical_capacity / sector_size - 256)
      → 0 < v.bootstrap.block_size
      → v.bootstrap.logical_capacity < 2 ^ 64
      → IsPartitionable v
      → Initialized c v content
  initialized w checked positive small p =
      let width : length (table_of v) ≡ 512 = length-table v.bootstrap.volume_id 256 _ in
      let reads = λ (output : List ℕ) (size : length output ≡ 512).
        read-written c v content 0 (table_of v) output w (size ∙ sym width) positive
          (omega (arith, width, p.large)) small in
      record {
        v' = w.v';
        content' = w.content';
        run =
            initialize_mbr-ok c v content (v.bootstrap.logical_capacity / sector_size - 256) w.v'
              w.content' checked w.run;
        read = reads;
        again = initialize_mbr-refused c w.v' w.content' not_empty (
            check_volume-occupied c w.v' w.content' (table_of v)
              (rw w.layout (record { large = p.large; whole = p.whole; few = p.few }))
              (reads (replicate 512 0) (length-replicate {A = ℕ} 512 0))
              (nonzero_byte (table_of v) 510 (
                omega (
                  arith,
                  table-signature v.bootstrap.volume_id 256
                      (v.bootstrap.logical_capacity / sector_size - 256),
                ))));
      }

  -- With documented cryptography, for a volume over a file that backs it, whose blocks are bytes and
  -- have next generations, whose capacity is at least 16 MiB, of whole sectors and fewer than
  -- `2 ^ 32` of them, and whose first 512 bytes are zero: `initialize_mbr` on a device that does not
  -- fail succeeds, when the end of the log, the count of records and the generation stay below
  -- `2 ^ 64`. The table is then read from the first sector, and a second `initialize_mbr` refuses to
  -- overwrite it.
  pub initialize_mbr_lem :
      IsAead c
      → HasDigests c
      → IsBytes 32 v.keys.key
      → 0 < v.bootstrap.block_size
      → v.bootstrap.block_size ≤ max_block_size
      → Backs c v content
      → IsWritable c v content
      → All IsByte v.bootstrap.volume_id
      → IsPartitionable v
      → ((k : ℕ) → k < 512 → byte_view c v content k ≡ 0)
      → v.bootstrap.logical_capacity < 2 ^ 64
      → v.state.committed_end + 512 * 2 ^ 25 < 2 ^ 64
      → v.state.record_count + 512 < 2 ^ 64
      → v.state.generation + 1 < 2 ^ 64
      → Initialized c v content
  initialize_mbr_lem aead digests key positive block backs writable id p zeros small room few next =
      let count = v.bootstrap.logical_capacity / sector_size - 256 in
      let width : length (table_of v) ≡ 512 = length-table v.bootstrap.volume_id 256 count in
      initialized
        (write_bytes-refines c v content 0 (table_of v) aead digests key positive block backs
          writable (table-IsByte v.bootstrap.volume_id 256 count id) (omega (arith, width, p.large))
          small (omega (arith, width, room)) (omega (arith, width, few)) next)
        (check_volume-read c v content (replicate 512 0) p
          (empty_sector c v content backs positive small p zeros) (zero_bytes 512))
        positive small p
