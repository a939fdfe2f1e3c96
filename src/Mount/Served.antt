-- ===== src/Mount/Served.antt =====
-- `read_callback` behind `write_callback`.
use or_isy_vra.Base.{
  ℕ, ◌+◌, ◌*◌, ◌^◌, ◌≤◌, ◌<◌, ◌≡◌, inl, inr, refl, ap, ◌∙◌, arith, List, length, All, some, Bool,
  true, false, ◌==◌, lt→ltb, Bool-cases,
}
use or_isy_vra.Base.Words.{IsByte}
use or_isy_vra.Base.Bytes.{IsBytes}
use or_isy_vra.Base.Results.{ok}
use or_isy_vra.Base.Acts.{pure, lift, ◌>>=◌}
use or_isy_vra.Crypto.{Crypto, IsAead, HasDigests}
use or_isy_vra.Volume.Layout.{max_block_size}
use or_isy_vra.Volume.Device.{sync}
use or_isy_vra.Volume.Blocks.{Volume}
use or_isy_vra.Volume.Store.Reopen.{Backs}
use or_isy_vra.Volume.Store.ReadBack.{sound}
use or_isy_vra.Mount.{sector_size, read_bytes, write_bytes}
use or_isy_vra.Mount.Writing.{IsWritable}
use or_isy_vra.Mount.Refines.{BytesWritten, write_bytes-refines, read-written}
use or_isy_vra.Mount.Contexts.{
  StorageUnitStatus, default_status, MountContext, Contexts, context_for, keep_context, set_good,
}
use or_isy_vra.Mount.Callbacks.{
  sync_context, before_read, read_request, write_context, write_request, serve_read, serve_write,
  read_callback, write_callback,
}
use or_isy_vra.Mount.Requests.{put-found, context_for-find, context_for-keep}

-- A context that takes reads and writes, over a device that does not fail.
abbrev pub usable : Volume → List ℕ → MountContext
usable v content = record {
  volume = v;
  device = sound content;
  read_only = false;
  poisoned = false;
}

sync_context_sound :
    (v : Volume) (content : List ℕ) → sync_context (usable v content) ≡ (ok tt, usable v content)
unfolding sync_context sync
sync_context_sound v content = refl

before_read_sound :
    (flush : Bool) (v : Volume) (content : List ℕ)
    → before_read flush (usable v content) ≡ (ok tt, usable v content)
unfolding before_read pure lift ◌>>=◌ sync_context sync
before_read_sound true v content = refl
before_read_sound false v content = refl

module _ (c : Crypto) (offset : ℕ) (flush : Bool) where
  read_request-ok :
      (v : Volume) (content output bytes : List ℕ)
      → read_bytes c v content offset output ≡ (ok tt, bytes)
      → read_request c offset flush output (usable v content) ≡ ((ok tt, bytes), usable v content)
  unfolding read_request
  read_request-ok v content output bytes e =
      rw (before_read_sound flush v content, read_request)
        (rw (before_read_sound flush v content) (rw e refl))

  write_request-ok :
      (v v' : Volume) (content content' input : List ℕ)
      → write_bytes c v offset input (sound content) ≡ (ok tt, v', sound content')
      → write_request c offset flush input (usable v content) ≡ (ok tt, usable v' content')
  unfolding write_request write_context pure lift ◌>>=◌ sync_context sync
  write_request-ok v v' content content' input e = elim (Bool-cases flush) [
    | inl flushed ↦ rw e (rw flushed refl)
    | inr kept ↦ rw e (rw kept refl)
  ]

abbrev pub good_status : StorageUnitStatus
good_status = default_status

module _ (c : Crypto) (contexts : Contexts) (unit : ℕ) (context : MountContext)
    (mounted : context_for contexts unit ≡ some context) (address count : ℕ) (flush : Bool)
    (old : StorageUnitStatus) (some_sectors : 0 < count) (sectors : count * sector_size < 2 ^ 64)
    (range : address * sector_size < 2 ^ 64) where
  nonempty : count * sector_size == 0 ≡ false
  nonempty = not_zero (count * sector_size) (omega (arith, some_sectors))
    where
      not_zero : (n : ℕ) → 0 < n → n == 0 ≡ false
      not_zero n h = ground arith

  -- A request whose work succeeds is answered as good.
  read_callback-ok :
      (output bytes : List ℕ) (context' : MountContext)
      → read_request c (address * sector_size) flush output context ≡ ((ok tt, bytes), context')
      → read_callback c contexts unit (some output) address count flush (some old)
        ≡ (keep_context contexts unit context', some bytes, some good_status)
  unfolding read_callback serve_read set_good
  read_callback-ok output bytes context' e =
      rw (mounted, read_callback)
        (rw (lt→ltb (count * sector_size) (2 ^ 64) sectors, read_callback)
          (rw (lt→ltb (address * sector_size) (2 ^ 64) range, read_callback)
            (rw (nonempty, read_callback) (rw e refl))))

  write_callback-ok :
      (input : List ℕ) (context' : MountContext)
      → write_request c (address * sector_size) flush input context ≡ (ok tt, context')
      → write_callback c contexts unit (some input) address count flush (some old)
        ≡ (keep_context contexts unit context', some input, some good_status)
  unfolding write_callback serve_write set_good
  write_callback-ok input context' e =
      rw (mounted, write_callback)
        (rw (lt→ltb (count * sector_size) (2 ^ 64) sectors, write_callback)
          (rw (lt→ltb (address * sector_size) (2 ^ 64) range, write_callback)
            (rw (nonempty, write_callback) (rw e refl))))

-- The answers to a write and to a read of the same sectors, with the mounts between them.
pub record Served (c : Crypto) (contexts : Contexts) (unit address count : ℕ) (flush flush' : Bool)
    (old old' : StorageUnitStatus) (input output : List ℕ) : Type 0 where
  pub contexts' : Contexts
  pub written :
      write_callback c contexts unit (some input) address count flush (some old)
      ≡ (contexts', some input, some good_status)
  pub read :
      read_callback c contexts' unit (some output) address count flush' (some old')
      ≡ (contexts', some input, some good_status)

module _ (c : Crypto) (contexts : Contexts) (unit : ℕ) (v : Volume) (content : List ℕ)
    (mounted : context_for contexts unit ≡ some (usable v content)) (address count : ℕ)
    (input : List ℕ) (size : length input ≡ count * sector_size)
    (inside : address * sector_size + length input ≤ v.bootstrap.logical_capacity)
    (small : v.bootstrap.logical_capacity < 2 ^ 64) (some_sectors : 0 < count)
    (positive : 0 < v.bootstrap.block_size) where
  served :
      (flush flush' : Bool) (old old' : StorageUnitStatus) (output : List ℕ)
      → length output ≡ length input
      → BytesWritten c v content (address * sector_size) input
      → Served c contexts unit address count flush flush' old old' input output
  served flush flush' old old' output same w =
      let between = keep_context contexts unit (usable w.v' w.content') in
      let kept : context_for between unit ≡ some (usable w.v' w.content') =
        context_for-keep contexts unit (usable v content) (usable w.v' w.content') mounted in
      let sectors : count * sector_size < 2 ^ 64 = omega (arith, size, inside, small) in
      let range : address * sector_size < 2 ^ 64 = omega (arith, inside, small) in
      record {
        contexts' = between;
        written =
            write_callback-ok c contexts unit (usable v content) mounted address count flush old
              some_sectors sectors range input (usable w.v' w.content')
              (write_request-ok c (address * sector_size) flush v w.v' content w.content' input
                w.run);
        read =
            read_callback-ok c between unit (usable w.v' w.content') kept address count flush' old'
              some_sectors sectors range output input (usable w.v' w.content')
              (read_request-ok c (address * sector_size) flush' w.v' w.content' output input (
                read-written c v content (address * sector_size) input output w same positive inside
                  small))
            ∙ ap
                (λ (t : List (ℕ × MountContext)).
                  (record between { mounts = t }, some input, some good_status))
                (put-found unit (usable w.v' w.content') between.mounts
                  (context_for-find between unit (usable w.v' w.content') kept));
      }

  -- On a storage unit that is mounted for writing, over a device that does not fail, with the
  -- conditions of `write_bytes` on the volume, and for a buffer of whole sectors, at least one,
  -- inside the capacity: `write_callback` answers good, and `read_callback` of the same sectors, on
  -- the mounts behind it, answers good and leaves the written bytes in its buffer. The flush
  -- flags, the old statuses and the old contents of the buffer are arbitrary.
  pub read_callback-write_callback :
      IsAead c
      → HasDigests c
      → IsBytes 32 v.keys.key
      → v.bootstrap.block_size ≤ max_block_size
      → Backs c v content
      → IsWritable c v content
      → All IsByte input
      → v.state.committed_end + length input * 2 ^ 25 < 2 ^ 64
      → v.state.record_count + length input < 2 ^ 64
      → v.state.generation + 1 < 2 ^ 64
      → (flush flush' : Bool) (old old' : StorageUnitStatus) (output : List ℕ)
      → length output ≡ length input
      → Served c contexts unit address count flush flush' old old' input output
  read_callback-write_callback aead digests key block backs writable bytes room few next flush
        flush' old old' output same =
      served flush flush' old old' output same (
        write_bytes-refines c v content (address * sector_size) input aead digests key positive
          block backs writable bytes inside small room few next)
