-- ===== src/Mount/Callbacks.antt =====
-- The callbacks of the storage unit: `read_callback`, `write_callback` and `flush_callback`.
use or_isy_vra.Base.{ℕ, ◌*◌, ◌^◌, List, Option, none, some, Bool, ltb, ◌==◌, if◌then◌else◌}
use or_isy_vra.Base.Results.{Result, ok, err, stuck, fail_if}
use or_isy_vra.Base.Acts.{Act, pure, lift, ◌>>◌}
use or_isy_vra.Crypto.{Crypto}
use or_isy_vra.Volume.Layout.{VolumeError, VolumeResult}
use or_isy_vra.Volume.Device.{sync}
use or_isy_vra.Mount.{sector_size, read_bytes, write_bytes}
use or_isy_vra.Mount.Contexts.{
  StorageUnitStatus, MountContext, Contexts, context_for, keep_context, sense_medium_error,
  sense_illegal_request, asc_unrecovered_read_error, asc_write_error, asc_lba_out_of_range,
  set_good, set_error,
}

pub data MountError : Type 0 where
  lock_poisoned : MountError
  mounted_read_only : MountError
  volume_error : VolumeError → MountError

abbrev pub map_volume_error : {A : Type 0} → VolumeResult A → Result MountError A
map_volume_error (ok a) = ok a
map_volume_error (err e) = err (volume_error e)
map_volume_error stuck = stuck

-- `context.volume.sync()`.
unfoldable pub sync_context : Act MountError MountContext Unit
sync_context context =
    let (r, d) = sync context.device in (map_volume_error r, record context { device = d })

unfoldable pub flush_request : Act MountError MountContext Unit
flush_request context = (do lift (fail_if context.poisoned lock_poisoned); sync_context) context

-- What `read_callback` does under the lock, but for the output.
unfoldable pub before_read : Bool → Act MountError MountContext Unit
before_read flush context =
    (do lift (fail_if context.poisoned lock_poisoned); if flush then sync_context else pure tt)
      context

unfoldable pub read_request :
    Crypto → ℕ → Bool → List ℕ → MountContext → (Result MountError Unit × List ℕ) × MountContext
read_request c offset flush output context =
    let (ready, context') = before_read flush context in
    elim ready [
      | ok u ↦
          let (r, output') = read_bytes c context'.volume context'.device.content offset output in
          ((map_volume_error r, output'), context')
      | err e ↦ ((err e, output), context')
      | stuck ↦ ((stuck, output), context')
    ]

unfoldable pub write_context : Crypto → ℕ → List ℕ → Act MountError MountContext Unit
write_context c offset input context =
    let (r, v, d) = write_bytes c context.volume offset input context.device in
    (map_volume_error r, record context { volume = v; device = d })

unfoldable pub write_request : Crypto → ℕ → Bool → List ℕ → Act MountError MountContext Unit
write_request c offset flush input context =
    (do
      lift (fail_if context.poisoned lock_poisoned)
      lift (fail_if context.read_only mounted_read_only)
      write_context c offset input
      if flush then sync_context else pure tt)
      context

-- `a.checked_mul(b)` on 64 bits.
abbrev pub checked_mul : ℕ → ℕ → Option ℕ
checked_mul a b = if ltb (a * b) (2 ^ 64) then some (a * b) else none

abbrev pub answer :
    ℕ → ℕ → Option ℕ → Result MountError Unit → Option StorageUnitStatus → Option StorageUnitStatus
answer sense_key asc information (ok u) status = set_good status
answer sense_key asc information (err e) status = set_error sense_key asc information status
answer sense_key asc information stuck status = set_error sense_key asc information status

-- What a callback leaves: the mounts, the buffer and the status. Each returns 1.
abbrev pub Outcome : Type 0
Outcome = Contexts × Option (List ℕ) × Option StorageUnitStatus

unfoldable pub serve_read :
    Crypto
    → Contexts
    → ℕ
    → MountContext
    → ℕ
    → Bool
    → ℕ
    → Option StorageUnitStatus
    → Option (List ℕ)
    → Outcome
serve_read c contexts storage_unit context block_address flush offset status none = (
  contexts,
  none,
  set_error sense_medium_error asc_unrecovered_read_error (some block_address) status,
)
serve_read c contexts storage_unit context block_address flush offset status (some buffer) =
    let ((r, buffer'), context') = read_request c offset flush buffer context in
    (
      keep_context contexts storage_unit context',
      some buffer',
      answer sense_medium_error asc_unrecovered_read_error (some block_address) r status,
    )

-- A buffer is of `block_count` sectors, or null.
unfoldable pub read_callback :
    Crypto → Contexts → ℕ → Option (List ℕ) → ℕ → ℕ → Bool → Option StorageUnitStatus → Outcome
read_callback c contexts storage_unit buffer block_address block_count flush status =
    elim (context_for contexts storage_unit) [
      | none ↦
          (contexts, buffer, set_error sense_medium_error asc_unrecovered_read_error none status)
      | some context ↦ elim (checked_mul block_count sector_size) [
        | none ↦ (
          contexts,
          buffer,
          set_error sense_illegal_request asc_lba_out_of_range (some block_address) status,
        )
        | some size ↦ elim (checked_mul block_address sector_size) [
          | none ↦ (
            contexts,
            buffer,
            set_error sense_illegal_request asc_lba_out_of_range (some block_address) status,
          )
          | some offset ↦
              if size == 0
              then (contexts, buffer, set_good status)
              else serve_read c contexts storage_unit context block_address flush offset status
                  buffer
        ]
      ]
    ]

unfoldable pub serve_write :
    Crypto
    → Contexts
    → ℕ
    → MountContext
    → ℕ
    → Bool
    → ℕ
    → Option StorageUnitStatus
    → Option (List ℕ)
    → Outcome
serve_write c contexts storage_unit context block_address flush offset status none =
    (contexts, none, set_error sense_medium_error asc_write_error (some block_address) status)
serve_write c contexts storage_unit context block_address flush offset status (some buffer) =
    let (r, context') = write_request c offset flush buffer context in
    (
      keep_context contexts storage_unit context',
      some buffer,
      answer sense_medium_error asc_write_error (some block_address) r status,
    )

unfoldable pub write_callback :
    Crypto → Contexts → ℕ → Option (List ℕ) → ℕ → ℕ → Bool → Option StorageUnitStatus → Outcome
write_callback c contexts storage_unit buffer block_address block_count flush status =
    elim (context_for contexts storage_unit) [
      | none ↦ (contexts, buffer, set_error sense_medium_error asc_write_error none status)
      | some context ↦ elim (checked_mul block_count sector_size) [
        | none ↦ (
          contexts,
          buffer,
          set_error sense_illegal_request asc_lba_out_of_range (some block_address) status,
        )
        | some size ↦ elim (checked_mul block_address sector_size) [
          | none ↦ (
            contexts,
            buffer,
            set_error sense_illegal_request asc_lba_out_of_range (some block_address) status,
          )
          | some offset ↦
              if size == 0
              then (contexts, buffer, set_good status)
              else serve_write c contexts storage_unit context block_address flush offset status
                  buffer
        ]
      ]
    ]

unfoldable pub flush_callback :
    Contexts → ℕ → Option StorageUnitStatus → Contexts × Option StorageUnitStatus
flush_callback contexts storage_unit status = elim (context_for contexts storage_unit) [
  | none ↦ (contexts, set_error sense_medium_error asc_write_error none status)
  | some context ↦
      let (r, context') = flush_request context in
      (
        keep_context contexts storage_unit context',
        answer sense_medium_error asc_write_error none r status,
      )
]
