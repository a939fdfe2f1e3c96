-- ===== src/Volume/Tests.antt =====
-- The volume's theorems at a concrete volume, with the toy cryptography.
use or_isy_vra.Base.{refl, ℕ, arith, [], ◌∷◌, length-replicate, replicate, none, some, true, false}
use or_isy_vra.Crypto.Toy.{toy}
use or_isy_vra.Volume.Layout.{Bootstrap}
use or_isy_vra.Volume.Device.{Device}
use or_isy_vra.Volume.Blocks.{Volume}
use or_isy_vra.Volume.Store.Commit.{write_blocks, set_clean_state}
use or_isy_vra.Volume.Store.Crash.{IsOpen, SameState, write_blocks_crash}
use or_isy_vra.Base.{◌+◌, ◌↔◌, refl, ◌≡◌, ◌<◌, List, length, All-replicate}
use or_isy_vra.Base.Words.{IsByte}
use or_isy_vra.Base.Results.{ok}
use or_isy_vra.Crypto.Toy.{toy-IsAead, toy-HasDigests}
use or_isy_vra.Volume.Layout.{
  RecordHeader, record_header_size, tag_size, block_count, encode_record_header,
  decode_record_header,
}
use or_isy_vra.Volume.Layout.RecordCodec.{
  IsRecordHeader, encode_record_header-IsBytes, decode_record_header_iff,
}
use or_isy_vra.Volume.Log.{RecordIndex, get}
use or_isy_vra.Volume.Blocks.{read_indexed}
use or_isy_vra.Volume.Store.Commit.{write_record, next_generation}
use or_isy_vra.Volume.Store.ReadBack.{sound, read-write_record}
use or_isy_vra.Base.{◌≤◌}
use or_isy_vra.Base.Bytes.{copy_at, le_bytes, from_le, bytes_eq}
use or_isy_vra.Crypto.Toy.{toy_seal}
use or_isy_vra.Volume.Layout.{encode_super, decode_super, clean_flag, encode_bootstrap}
use or_isy_vra.Volume.Device.{write_at, read_at}
use or_isy_vra.Volume.Seals.{
  super_slot, super_offset, super_aad, derive_nonce, decrypt, open_superblock, read_superblock,
}
use or_isy_vra.Volume.Log.{scan_log, scan_loop}
use or_isy_vra.Volume.Device.Keeps.{length-write_at}
use or_isy_vra.Volume.Store.Reopen.{Backs, write_blocks-Backs, set_clean_state-Backs}
use or_isy_vra.Base.{All}
use or_isy_vra.Volume.Store.Commit.{Blocks}
use or_isy_vra.Volume.Store.Records.{IsBlock}
use or_isy_vra.Volume.Store.Refines.{Refined, write_blocks-refines}
use or_isy_vra.Volume.Store.Settles.{Settles, scan_log-Settles}

abbrev example_bootstrap : Bootstrap
example_bootstrap = record {
  version = 1;
  logical_capacity = 1000000;
  block_size = 4096;
  volume_id = replicate 32 1;
  salt = replicate 32 2;
}

abbrev pub example_volume : Volume
example_volume = record {
  bootstrap = example_bootstrap;
  keys = record { key = replicate 32 3; nonce_key = replicate 32 4 };
  state = record { generation = 1; committed_end = 4096; record_count = 0; clean = true };
  active_super = 0;
  index = [];
}

-- A file whose third write stops after five bytes.
abbrev example_device : Device
example_device = record { content = replicate 4096 0; plan = none ∷ none ∷ some 5 ∷ [] }

example_volume-IsOpen : IsOpen example_volume example_device.content
example_volume-IsOpen = record {
  slot = omega arith;
  begins = omega arith;
  there = rw (length-replicate {A = ℕ} 4096 0) (omega arith);
}

write_blocks_crash_example :
    SameState example_volume example_device.content
      (write_blocks toy example_volume
        ((7, 1 ∷ 2 ∷ []) ∷ (9, 3 ∷ []) ∷ [])
        example_device).2.content
write_blocks_crash_example =
    write_blocks_crash toy example_volume ((7, 1 ∷ 2 ∷ []) ∷ (9, 3 ∷ []) ∷ []) example_device
      example_volume-IsOpen

abbrev example_record_header : RecordHeader
example_record_header = record {
  block_index = 7;
  generation = 3;
  plaintext_len = 100;
  ciphertext_len = 116;
}

decode_record_header_iff_example :
    (decode_record_header (encode_record_header example_record_header) ≡ ok example_record_header)
    ↔ (IsRecordHeader example_record_header
        × (encode_record_header example_record_header ≡ encode_record_header example_record_header))
decode_record_header_iff_example =
    decode_record_header_iff (encode_record_header example_record_header) example_record_header
      (encode_record_header-IsBytes example_record_header)

abbrev example_content : List ℕ
example_content = replicate 4096 0

seven_inside : 7 < block_count example_volume.bootstrap
unfolding block_count
seven_inside = omega arith

seven_fresh : next_generation (get 7 example_volume.index) ≡ ok 1
unfolding next_generation get
seven_fresh = refl

read-write_record_example :
    (new_entry : RecordIndex) × (next : ℕ) × (content' : List ℕ) × (write_record toy example_volume
        4096 7
        (replicate 3 5)
        (sound example_content)
      ≡ (ok ((7, new_entry), next), sound content'))
    × (new_entry.offset ≡ 4096)
    × (next ≡ 4096 + record_header_size + (length (replicate {A = ℕ} 3 5) + tag_size))
    × (read_indexed toy example_volume 7 (some new_entry) content' ≡ ok (some (replicate 3 5)))
read-write_record_example =
    read-write_record toy example_volume 4096 7 1 (replicate 3 5) example_content toy-IsAead
      toy-HasDigests (record { size = refl; all = All-replicate IsByte 32 3 (omega arith) })
      seven_inside (omega arith) seven_fresh (All-replicate IsByte 3 5 (omega arith)) (omega arith)
      (omega arith) (omega arith)

-- A file with the superblock of `example_volume` in its first slot.
abbrev pub backed_content : List ℕ
backed_content =
    write_at 256 (super_slot 1 (toy_seal (encode_super example_volume.state))) (replicate 4096 0)

backed_content-superblock :
    read_superblock toy example_volume.bootstrap example_volume.keys 0 backed_content
    ≡ ok (some example_volume.state)
unfolding read_superblock super_offset read_at open_superblock decrypt decode_super clean_flag
    derive_nonce super_aad write_at super_slot encode_super copy_at le_bytes from_le bytes_eq
    encode_bootstrap
backed_content-superblock = refl

backed_content-log :
    scan_log toy example_volume.bootstrap example_volume.keys example_volume.state backed_content
    ≡ ok []
unfolding scan_log scan_loop
backed_content-log = refl

backed_content-long : 4096 ≤ length backed_content
backed_content-long = omega (
  arith,
  length-write_at 256 (super_slot 1 (toy_seal (encode_super example_volume.state)))
      (replicate 4096 0),
  length-replicate {A = ℕ} 4096 0,
)

pub example_volume-Backs : Backs toy example_volume backed_content
example_volume-Backs = record {
  opened = record { slot = omega arith; begins = omega arith; there = backed_content-long };
  superblock = backed_content-superblock;
  log = backed_content-log;
}

abbrev backed_device : Device
backed_device = record { content = backed_content; plan = none ∷ none ∷ none ∷ some 100 ∷ [] }

write_blocks-Backs_example :
    Backs toy example_volume
      (write_blocks toy example_volume ((7, 1 ∷ 2 ∷ []) ∷ []) backed_device).2.content
write_blocks-Backs_example =
    write_blocks-Backs toy example_volume ((7, 1 ∷ 2 ∷ []) ∷ []) backed_device example_volume-Backs

set_clean_state-Backs_example :
    Backs toy example_volume (set_clean_state toy example_volume false backed_device).1.content
set_clean_state-Backs_example =
    set_clean_state-Backs toy example_volume false backed_device example_volume-Backs

abbrev example_blocks : Blocks
example_blocks = (7, 1 ∷ 2 ∷ []) ∷ (9, 3 ∷ []) ∷ []

fresh-IsBlock :
    (i : ℕ) (plaintext : List ℕ)
    → i < 245
    → All IsByte plaintext
    → length plaintext ≤ 4096
    → IsBlock example_volume i plaintext
unfolding block_count next_generation get
fresh-IsBlock i plaintext inside bytes fits = record {
  inside = omega (arith, inside);
  index_u64 = omega (arith, inside);
  bytes = bytes;
  fits = fits;
  generation = (1, refl);
}

write_blocks-refines_example : Refined toy example_volume example_blocks backed_content
write_blocks-refines_example =
    write_blocks-refines toy example_volume example_blocks backed_content toy-IsAead toy-HasDigests
      (record { size = refl; all = All-replicate IsByte 32 3 (omega arith) }) (omega arith)
      example_volume-Backs ((omega arith, tt), (tt, tt))
      (
        fresh-IsBlock 7 (1 ∷ 2 ∷ []) (omega arith) (omega arith, (omega arith, tt)) (omega arith),
        (fresh-IsBlock 9 (3 ∷ []) (omega arith) (omega arith, tt) (omega arith), tt),
      )
      (omega arith) (omega arith) (omega arith)

scan_log-Settles_example :
    Settles (
      scan_log toy example_volume.bootstrap example_volume.keys example_volume.state backed_content)
scan_log-Settles_example =
    scan_log-Settles toy example_volume.bootstrap example_volume.keys example_volume.state
      backed_content
