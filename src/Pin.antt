-- ===== src/Pin.antt =====
-- crates/orisyvra-pin/src/lib.rs, as it is compiled for Windows: visual keys that are bound to a
-- device and a PIN of four digits. DPAPI is a parameter.
pub mod Marker
pub mod Cards
mod Tests
use Prim.Native.String.{String}
use or_isy_vra.Base.{
  ℕ, zero, suc, ◌+◌, ◌-◌, ◌^◌, List, [], ◌∷◌, ◌++◌, length, take, drop, Bool, true, false, not,
  ◌&&◌, ◌||◌, if◌then◌else◌, ltb, leb, ◌==◌, codes,
}
use or_isy_vra.Base.Bytes.{slice, bytes_eq}
use or_isy_vra.Base.Results.{Result, ok, err, stuck, ◌>>=◌, ◌>>◌, fail_if, ok_or, checked_add}
use or_isy_vra.Errors.{Error}
use or_isy_vra.Png.{
  png_signature, iend, starts_with, from_be_bytes, chunk_length, chunk_type, chunk, crc32,
  insert_loop,
}

-- The errors are texts; `of_error` is the text of an error of another crate.
pub data PinError : Type 0 where
  message : String → PinError
  of_error : Error → PinError

abbrev pub PinResult : Type 0 → Type 0
PinResult A = Result PinError A

abbrev pub device_secret_size : ℕ
device_secret_size = 32

abbrev pub binding_magic : List ℕ
binding_magic = codes "OYVPIN1" ++ (0 ∷ [])

abbrev pub pin_chunk_type : List ℕ
pin_chunk_type = codes "orPn"

abbrev pub pin_chunk_data : List ℕ
pin_chunk_data = codes "OYVPIN1" ++ (0 ∷ 1 ∷ 0 ∷ 0 ∷ 0 ∷ [])

pub data PinCardState : Type 0 where
  not_pin_card ready binding_missing : PinCardState

abbrev pub all_bytes : (ℕ → Bool) → List ℕ → Bool
all_bytes p [] = true
all_bytes p (x ∷ xs) = p x && all_bytes p xs

abbrev pub is_ascii_digit : ℕ → Bool
is_ascii_digit x = leb b'0' x && leb x b'9'

abbrev pub is_ascii_hexdigit : ℕ → Bool
is_ascii_hexdigit x = is_ascii_digit x || (leb b'A' x && leb x b'F' || leb b'a' x && leb x b'f')

abbrev pub to_ascii_uppercase : List ℕ → List ℕ
to_ascii_uppercase [] = []
to_ascii_uppercase (x ∷ xs) =
    (if leb b'a' x && leb x b'z' then x - 32 else x) ∷ to_ascii_uppercase xs

-- Texts are their UTF-8 bytes.
unfoldable pub pin_is_valid : List ℕ → Bool
pin_is_valid pin = length pin == 4 && all_bytes is_ascii_digit pin

unfoldable pub validate_pin : List ℕ → PinResult Unit
validate_pin pin =
    if pin_is_valid pin then ok tt else err (message "PIN must contain exactly four digits")

unfoldable pub validate_card_id : List ℕ → PinResult Unit
validate_card_id card_id =
    if length card_id == 16 && all_bytes is_ascii_hexdigit card_id
    then ok tt
    else err (message "invalid visual-key fingerprint")

unfoldable pub credential : List ℕ → List ℕ → List ℕ
credential device_secret pin = codes "OrIsyVra/device-pin/v1" ++ (0 ∷ (device_secret ++ pin))

-- The checks of `load_binding` on what DPAPI gives back.
unfoldable pub parse_binding : List ℕ → PinResult (List ℕ)
parse_binding plaintext = do
  fail_if (not (length plaintext == 40) || not (bytes_eq (take 8 plaintext) binding_magic))
      (message "invalid PIN-card device binding")
  ok (drop 8 plaintext)

-- The branch of `marker_present` for the marker's type.
unfoldable pub check_marker : List ℕ → List ℕ → Bool
check_marker body stored =
    bytes_eq body pin_chunk_data && from_be_bytes stored == crc32 (pin_chunk_type ++ body)

-- `while cursor + 12 <= png.len()` of `marker_present`. Fuel for the rounds; out of fuel the loop
-- answers false, which `marker_present` never reaches.
unfoldable pub marker_loop : ℕ → List ℕ → ℕ → Bool
marker_loop zero png cursor = false
marker_loop (suc fuel) png cursor =
    let data_end = cursor + (8 + chunk_length png cursor) in
    let end = data_end + 4 in
    let rest = marker_loop fuel png end in
    let kind = chunk_type png cursor in
    let next = if bytes_eq kind iend then false else rest in
    let here = check_marker (slice (cursor + 8) data_end png) (slice data_end end png) in
    let fits = leb (cursor + 12) (length png) && (ltb end (2 ^ 64) && leb end (length png)) in
    if fits then (if bytes_eq kind pin_chunk_type then here else next) else false

unfoldable pub marker_present : List ℕ → Bool
marker_present png =
    if starts_with png png_signature then marker_loop (length png + 1) png 8 else false

abbrev pub pin_marker : List ℕ
pin_marker = chunk pin_chunk_type pin_chunk_data

unfoldable pub add_pin_marker : List ℕ → PinResult (List ℕ)
add_pin_marker png =
    let added = (do
      fail_if (not (starts_with png png_signature)) (message "PIN visual key is not a PNG")
      (output, inserted) ←
          insert_loop (message "invalid PNG chunk length") (message "truncated PNG") pin_marker
            (length png + 1) png 8 png_signature false
      fail_if (not inserted) (message "PNG IEND chunk was not found")
      ok output) in
    if marker_present png then ok png else added
