-- ===== src/Png.antt =====
-- PNG files as crates/orisyvra/src/keycard.rs and crates/orisyvra-pin/src/lib.rs walk them: the
-- signature, chunks at a cursor, the checksum, and the loop that puts a chunk before IEND.
pub mod Insert
pub mod Reading
pub mod Plain
pub mod Kept
mod Tests
use Prim.Native.Nat.{bit_and}
use or_isy_vra.Base.{
  ℕ, zero, suc, ◌+◌, ◌-◌, ◌*◌, ◌/◌, ◌%◌, ◌^◌, List, [], ◌∷◌, ◌++◌, length, get_or, take, Bool, true,
  false, not, ◌&&◌, ◌||◌, if◌then◌else◌, ltb, leb, bit_xor, codes,
}
use or_isy_vra.Base.Bytes.{slice, bytes_eq}
use or_isy_vra.Base.Results.{Result, ok, err, stuck, ◌>>=◌, ◌>>◌, ok_or, fail_if, checked_add}

abbrev pub png_signature : List ℕ
png_signature = 0x89 ∷ codes "PNG" ++ (13 ∷ 10 ∷ 26 ∷ 10 ∷ [])

abbrev pub iend : List ℕ
iend = codes "IEND"

-- `u32::to_be_bytes` and `u32::from_be_bytes`.
unfoldable pub to_be_bytes : ℕ → List ℕ
to_be_bytes n = (n / 16777216 % 256) ∷ (n / 65536 % 256) ∷ (n / 256 % 256) ∷ (n % 256) ∷ []

unfoldable pub from_be_bytes : List ℕ → ℕ
from_be_bytes bytes =
    get_or bytes 0 0 * 16777216
    + get_or bytes 1 0 * 65536
    + get_or bytes 2 0 * 256
    + get_or bytes 3 0

-- One of the eight rounds for a byte: `mask` is all ones where the lowest bit is set.
unfoldable pub crc_round : ℕ → ℕ
crc_round crc =
    let mask = (2 ^ 32 - bit_and crc 1) % 2 ^ 32 in bit_xor (crc / 2) (bit_and 0xedb88320 mask)

unfoldable pub crc_rounds : ℕ → ℕ → ℕ
crc_rounds zero crc = crc
crc_rounds (suc n) crc = crc_rounds n (crc_round crc)

unfoldable pub crc_bytes : ℕ → List ℕ → ℕ
unfolding crc_round crc_rounds
crc_bytes crc [] = crc
crc_bytes crc (byte ∷ bytes) = crc_bytes (crc_rounds 8 (bit_xor crc byte)) bytes

-- `crc32`; `!crc` is the complement in 32 bits.
unfoldable pub crc32 : List ℕ → ℕ
crc32 bytes = 2 ^ 32 - 1 - crc_bytes 0xffffffff bytes

abbrev pub starts_with : List ℕ → List ℕ → Bool
starts_with bytes start = bytes_eq (take (length start) bytes) start

-- What the loops read of the chunk at a cursor.
unfoldable pub chunk_length : List ℕ → ℕ → ℕ
chunk_length png cursor = from_be_bytes (slice cursor (cursor + 4) png)

unfoldable pub chunk_type : List ℕ → ℕ → List ℕ
chunk_type png cursor = slice (cursor + 4) (cursor + 8) png

-- A chunk as it stands in the file.
unfoldable pub chunk : List ℕ → List ℕ → List ℕ
chunk kind body =
    to_be_bytes (length body) ++ (kind ++ (body ++ to_be_bytes (crc32 (kind ++ body))))

-- `while cursor + 12 <= png.len()` of `inject_key_chunk` and of `add_pin_marker`, with the errors
-- that each has for a length that overflows and a chunk that is cut off. The results are the
-- output and whether the chunk was inserted. Every round but the last takes twelve bytes of fuel.
unfoldable pub insert_loop :
    {E : Type 0} → E → E → List ℕ → ℕ → List ℕ → ℕ → List ℕ → Bool → Result E (List ℕ × Bool)
insert_loop overflow truncated new zero png cursor output inserted = stuck
insert_loop overflow truncated new (suc fuel) png cursor output inserted =
    let round = (do
      end12 ← ok_or (checked_add cursor 12) overflow
      end ← ok_or (checked_add end12 (chunk_length png cursor)) overflow
      fail_if (ltb (length png) end) truncated
      let last = bytes_eq (chunk_type png cursor) iend
      let here = last && not inserted
      let output' = (if here then output ++ new else output) ++ slice cursor end png
      let inserted' = here || inserted
      let rest = insert_loop overflow truncated new fuel png end output' inserted'
      if last then ok (output', inserted') else rest) in
    if leb (cursor + 12) (length png) then round else ok (output, inserted)
