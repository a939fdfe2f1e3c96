-- ===== src/Lib.antt =====
-- OrIsyVra: authenticated file encryption on the project's own permutation, key capsules, and an
-- encrypted block volume.
--
-- The parts, and how they interact. crates/orisyvra-core holds a permutation of twelve 64-bit words
-- (permutation.rs, constants.rs) and a keyed sponge on it (prf.rs), from which derive_key and mac32
-- are made. crates/orisyvra/src/container.rs encrypts files: a header of 80 bytes, data records and a
-- manifest, each sealed with the sponge (native mode) and once more with XChaCha20-Poly1305 (guarded
-- mode). crates/orisyvra/src/keyfile.rs wraps the master key of 48 bytes under a passphrase.
-- crates/orisyvra-volume/src/lib.rs keeps blocks in an append-only log behind two alternating
-- superblocks, sealed with XChaCha20-Poly1305 alone. crates/orisyvra/src/keycard.rs puts a key capsule
-- into a private chunk of a picture, and crates/orisyvra-pin/src/lib.rs binds such a picture to a device:
-- the passphrase is a device secret, kept by DPAPI, and a PIN.
--
-- Where each part is modelled:
-- - Base: names of the libraries passed on, and lemmas on lists, words, byte strings, fixed layouts,
--   loops and Rust's Result.
-- - Core.Constants, Core.Permutation: IV, RC_A, RC_B, RC_C and every function of permutation.rs, each
--   step of a round as a function with its inverse; the state array is a list of twelve numbers.
--   Core.Prf: KeyedSponge with its buffer, position and counter, and the functions of prf.rs. The
--   vectors of tests/known_answer.rs are computed in Core.Tests.
-- - Errors: error.rs. Crypto: the crates chacha20poly1305, hkdf, hmac, sha2 and argon2 as a parameter,
--   with what they document as named hypotheses; Crypto.Toy is an instance for the examples.
-- - Container.Header, .Keys, .Record, .Guard, .Manifest: Header::encode and decode, the derived keys,
--   seal_native and open_native, guard_seal and guard_open, native_manifest_inner and
--   verify_manifest_inner. Container.Encrypt and Container.Decrypt: the loops of encrypt_file and
--   decrypt_file between the opened input and the finished temporary file. Container.Files: the two
--   functions with their files, where every call of the operating system may fail, and
--   contextualize_io of crates/orisyvra/src/fileops.rs. A path is the list of its components, and which
--   file a path names is a parameter: two different paths may name one file.
-- - Keyfile: keyfile.rs on byte strings. Keyfile.Files: write_keyfile_bytes, create_keyfile and
--   unlock_keyfile over the files of Container.Files.
-- - Png: what keycard.rs and orisyvra-pin share: crc32, chunks at a cursor, and the loop that puts a chunk
--   before IEND. Png.Insert says what that loop has done, Png.Plain when it succeeds, Png.Reading and
--   Png.Kept what is read from the result.
-- - Keycard: keycard.rs on byte strings. Keycard.Files: its functions with their files. Keycard.Text:
--   text_width, fitted_scale and wrap_text. Keycard.Toy is a picture for the examples.
-- - Pin: the checks and the marker of orisyvra-pin. Pin.Cards: its public functions over the files of a
--   machine and the bindings of its user, as they are compiled for Windows.
-- - Volume.Layout, .Seals, .Log, .Blocks, .Store, .Store.Commit: Bootstrap, SuperState and RecordHeader,
--   superblocks, read_record_at and scan_log, reading, create and open, write_blocks and
--   set_clean_state. Volume.Device is the file below: its bytes, and writes, truncations and syncs that
--   may fail after any number of bytes. Volume.Store.View is the abstract view, a map from indexes to
--   blocks, and Volume.Store.Steps the scan of the log as a relation.
-- - Mount: read_bytes and write_bytes of crates/orisyvra-volume/src/bin/orisyvra-volume-mount.rs, which
--   read and change the bytes of a volume through its blocks. Mount.Contexts and Mount.Callbacks: the
--   mounts by storage unit and the callbacks of WinSpd, a null pointer being none, and a poisoned lock
--   a flag. Mount.Partition: initialize_mbr, lba_to_chs, guid_from_volume_id and StorageUnitParams::new.
--   Mount.Reading has the abstract view, a string of bytes.
--
-- Numbers are natural numbers below the width that the code gives them; wrapping operations keep the
-- modulus written out, and checked ones return none. A Rust array is a list of its length.
--
-- Fuel. absorb has the length of its input, squeeze that of its output, fill the room in the buffer:
-- each round takes a byte at least. encrypt_loop has the length of the input and one, since every round
-- but the last takes a byte; decrypt_loop has the length of the file and one, since every record takes
-- its first byte; scan_loop has the end of the log and one, since every record takes its header. Where
-- fuel runs out the result is stuck, which no Rust value is.
--
-- The loops over PNG chunks have the length of the file and one, since every round takes twelve bytes.
-- Those of read_bytes and write_bytes have the length of the range and one, since every block has a byte
-- of it.
--
-- Not modelled: random numbers, which are arguments; zeroizing, which no result shows; the drawing of a
-- card and its PDF page; of the mount program, the calls of Windows and WinSpd; the command
-- line, the graphical front ends, the Windows calls and the analysis tool, which hold no logic of
-- their own.
pub mod Base
pub mod Core
pub mod Errors
pub mod Crypto
pub mod Container
pub mod Keyfile
pub mod Png
pub mod Keycard
pub mod Pin
pub mod Volume
pub mod Mount
