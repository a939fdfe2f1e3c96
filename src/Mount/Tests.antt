-- ===== src/Mount/Tests.antt =====
-- The mount program's theorems at a concrete volume, with the toy cryptography.
use or_isy_vra.Base.{
  ℕ, ◌≡◌, refl, arith, List, [], ◌∷◌, length, replicate, All, All-replicate, some, true, false,
  length-replicate, ◌*◌, ◌∙◌, sym,
}
use or_isy_vra.Base.Words.{IsByte}
use or_isy_vra.Base.Bytes.{IsBytes}
use or_isy_vra.Base.Results.{ok}
use or_isy_vra.Crypto.Toy.{toy, toy-IsAead, toy-HasDigests}
use or_isy_vra.Volume.Log.{get}
use or_isy_vra.Volume.Blocks.{read_block, read_indexed, validate_block_index}
use or_isy_vra.Volume.Store.Commit.{next_generation}
use or_isy_vra.Volume.Store.ReadBack.{sound}
use or_isy_vra.Volume.Tests.{example_volume, backed_content, example_volume-Backs}
use or_isy_vra.Mount.{read_bytes}
use or_isy_vra.Mount.Contexts.{MountContext, Contexts, find, context_for, default_status}
use or_isy_vra.Mount.Callbacks.{write_callback}
use or_isy_vra.Mount.Reading.{HasRead, read_bytes_lem, Backs-Readable}
use or_isy_vra.Mount.Writing.{IsWritable}
use or_isy_vra.Mount.Refines.{BytesWritten, write_bytes-refines}
use or_isy_vra.Mount.Requests.{write_callback-read_only}
use or_isy_vra.Base.{min, ◌-◌}
use or_isy_vra.Mount.Partition.{lba_to_chs}
use or_isy_vra.Base.{◌<◌, Bool-cases, inl, inr, leb, ◌/◌}
use or_isy_vra.Base.Bytes.{copy_at, le_bytes, from_le, bytes_eq}
use or_isy_vra.Volume.Layout.{encode_super, decode_super, clean_flag, encode_bootstrap, block_count}
use or_isy_vra.Volume.Device.{write_at, read_at}
use or_isy_vra.Volume.Seals.{
  super_slot, super_offset, super_aad, derive_nonce, decrypt, open_superblock, read_superblock,
}
use or_isy_vra.Volume.Log.{scan_log, scan_loop}
use or_isy_vra.Volume.Blocks.{Volume}
use or_isy_vra.Volume.Store.Reopen.{Backs}
use or_isy_vra.Mount.Reading.{byte_view}
use or_isy_vra.Mount.Initialized.{Initialized, initialize_mbr_lem}
use or_isy_vra.Mount.Chs.{chs_lba, lba_to_chs_lem}
use or_isy_vra.Mount.Served.{usable, Served, read_callback-write_callback}

read_bytes_lem_example :
    HasRead toy example_volume backed_content 4000 200
      (read_bytes toy example_volume backed_content 4000 (replicate 200 9))
read_bytes_lem_example =
    read_bytes_lem toy example_volume backed_content 4000 (replicate 200 9) example_volume-Backs
      (omega arith) (omega arith) (omega arith)

no_block :
    (i : ℕ) (block : List ℕ)
    → read_block toy example_volume i backed_content ≡ ok (some block)
    → All IsByte block
unfolding read_block read_indexed get validate_block_index
no_block i block e = absurd (ground arith)

no_generation : (i : ℕ) → (g : ℕ) × (next_generation (get i example_volume.index) ≡ ok g)
unfolding next_generation get
no_generation i = (1, refl)

example_volume-IsWritable : IsWritable toy example_volume backed_content
example_volume-IsWritable = record {
  readable = Backs-Readable toy example_volume backed_content example_volume-Backs;
  bytes = no_block;
  fresh = no_generation;
}

example_key-IsBytes : IsBytes 32 example_volume.keys.key
example_key-IsBytes = record { size = refl; all = All-replicate IsByte 32 3 (omega arith) }

-- Two blocks are changed.
write_bytes-refines_example : BytesWritten toy example_volume backed_content 4000 (replicate 200 5)
write_bytes-refines_example =
    write_bytes-refines toy example_volume backed_content 4000 (replicate 200 5) toy-IsAead
      toy-HasDigests example_key-IsBytes (omega arith) (omega arith) example_volume-Backs
      example_volume-IsWritable (All-replicate IsByte 200 5 (omega arith)) (omega arith)
      (omega arith) (omega arith) (omega arith) (omega arith)

abbrev read_only_context : MountContext
read_only_context = record {
  volume = example_volume;
  device = sound backed_content;
  read_only = true;
  poisoned = false;
}

abbrev example_contexts : Contexts
example_contexts = record {
  mounts = (5, read_only_context) ∷ (6, usable example_volume backed_content) ∷ [];
  poisoned = false;
}

five_mounted : context_for example_contexts 5 ≡ some read_only_context
unfolding context_for find
five_mounted = refl

six_mounted : context_for example_contexts 6 ≡ some (usable example_volume backed_content)
unfolding context_for find
six_mounted = refl

write_callback-read_only_example :
    (write_callback toy example_contexts 5
      (some (replicate 4096 1))
      2
      1
      true
      (some default_status)).0
    ≡ example_contexts
write_callback-read_only_example =
    write_callback-read_only toy example_contexts 5 read_only_context five_mounted
      (some (replicate 4096 1)) 2 1 true (some default_status) refl

abbrev two_sectors : List ℕ
two_sectors = replicate 8192 5

two_sectors-length : length two_sectors ≡ 2 * 4096
two_sectors-length = length-replicate {A = ℕ} 8192 5

read_callback-write_callback_example :
    Served toy example_contexts 6 3 2 true false default_status default_status two_sectors
      (replicate 8192 9)
read_callback-write_callback_example =
    read_callback-write_callback toy example_contexts 6 example_volume backed_content six_mounted 3
      2 two_sectors two_sectors-length (omega (arith, two_sectors-length)) (omega arith)
      (omega arith) (omega arith) toy-IsAead toy-HasDigests example_key-IsBytes (omega arith)
      example_volume-Backs example_volume-IsWritable (All-replicate IsByte 8192 5 (omega arith))
      (omega (arith, two_sectors-length)) (omega (arith, two_sectors-length)) (omega arith) true
      false default_status default_status (replicate 8192 9)
      (length-replicate {A = ℕ} 8192 9 ∙ sym two_sectors-length)

lba_to_chs_lem_example : chs_lba (lba_to_chs 20000000) ≡ min 20000000 (1024 * 255 * 63 - 1)
lba_to_chs_lem_example = lba_to_chs_lem 20000000

-- A volume of 16 MiB over the same file.
abbrev large_volume : Volume
large_volume = record {
  bootstrap = record {
    version = 1;
    logical_capacity = 16777216;
    block_size = 4096;
    volume_id = replicate 32 1;
    salt = replicate 32 2;
  };
  keys = example_volume.keys;
  state = example_volume.state;
  active_super = 0;
  index = [];
}

large_volume-superblock :
    read_superblock toy large_volume.bootstrap large_volume.keys 0 backed_content
    ≡ ok (some large_volume.state)
unfolding read_superblock super_offset read_at open_superblock decrypt decode_super clean_flag
    derive_nonce super_aad write_at super_slot encode_super copy_at le_bytes from_le bytes_eq
    encode_bootstrap
large_volume-superblock = refl

large_volume-log :
    scan_log toy large_volume.bootstrap large_volume.keys large_volume.state backed_content ≡ ok []
unfolding scan_log scan_loop
large_volume-log = refl

large_volume-Backs : Backs toy large_volume backed_content
large_volume-Backs = record {
  opened = record {
    slot = omega arith;
    begins = omega arith;
    there = example_volume-Backs.opened.there;
  };
  superblock = large_volume-superblock;
  log = large_volume-log;
}

large_volume-blocks :
    (i : ℕ) (block : List ℕ)
    → read_block toy large_volume i backed_content ≡ ok (some block)
    → All IsByte block
unfolding read_block read_indexed get validate_block_index
large_volume-blocks i block e = absurd (ground arith)

large_volume-IsWritable : IsWritable toy large_volume backed_content
large_volume-IsWritable = record {
  readable = Backs-Readable toy large_volume backed_content large_volume-Backs;
  bytes = large_volume-blocks;
  fresh = no_generation;
}

large_volume-empty : (k : ℕ) → k < 512 → byte_view toy large_volume backed_content k ≡ 0
unfolding read_block read_indexed get validate_block_index
large_volume-empty k h = elim (Bool-cases (leb (block_count large_volume.bootstrap) (k / 4096))) [
  | inl outside ↦ rw outside refl
  | inr inside ↦ rw inside refl
]

initialize_mbr_lem_example : Initialized toy large_volume backed_content
initialize_mbr_lem_example =
    initialize_mbr_lem toy large_volume backed_content toy-IsAead toy-HasDigests example_key-IsBytes
      (omega arith) (omega arith) large_volume-Backs large_volume-IsWritable
      (All-replicate IsByte 32 1 (omega arith))
      (record { large = omega arith; whole = refl; few = omega arith }) large_volume-empty
      (omega arith) (omega arith) (omega arith) (omega arith)
