-- ===== src/Pin/Cards.antt =====
-- PIN cards with their files: the card at the input or the output path, and the bindings of the
-- current Windows user.
pub mod Session
use Prim.Native.String.{String}
use or_isy_vra.Base.{ℕ, List, [], ◌∷◌, ◌++◌, Option, none, some, Bool, true, false, if◌then◌else◌}
use or_isy_vra.Base.Bytes.{bytes_eq}
use or_isy_vra.Base.Results.{Result, ok, err, stuck, ok_or}
use or_isy_vra.Base.Acts.{Act, pure, lift, continue, ◌>>=◌, ◌>>◌}
use or_isy_vra.Errors.{Error, Checked, io, not_found}
use or_isy_vra.Crypto.{Crypto}
use or_isy_vra.Container.Files.{Disk, Files, call, open_input, remove_output}
use or_isy_vra.Keyfile.{KeyfileParams}
use or_isy_vra.Keycard.{Imaging, key_source_info, unlock_key_source}
use or_isy_vra.Keycard.Files.{write_atomic, create_keycard, export_recovery_keycard_from_master}
use or_isy_vra.Pin.{
  PinError, PinResult, of_error, message, PinCardState, not_pin_card, ready, binding_missing,
  validate_pin, validate_card_id, to_ascii_uppercase, credential, binding_magic, parse_binding,
  marker_present, add_pin_marker,
}

-- `protect_current_user` and `unprotect_current_user` of crates/orisyvra-windows.
pub record Dpapi : Type 0 where
  pub protect : List ℕ → PinResult (List ℕ)
  pub unprotect : List ℕ → PinResult (List ℕ)

-- The files %APPDATA%/OrIsyVra/pin-cards/<card id>.dpapi, by their names.
abbrev pub Bindings : Type 0
Bindings = List (List ℕ × List ℕ)

unfoldable pub lookup : List ℕ → Bindings → Option (List ℕ)
lookup key [] = none
lookup key ((k, value) ∷ bindings) = if bytes_eq k key then some value else lookup key bindings

unfoldable pub without : List ℕ → Bindings → Bindings
without key [] = []
without key ((k, value) ∷ bindings) =
    if bytes_eq k key then without key bindings else (k, value) ∷ without key bindings

-- `appdata` says whether the variable APPDATA is set.
pub record Machine : Type 0 where
  pub disk : Disk
  pub bindings : Bindings
  pub appdata : Bool

abbrev pub Pins : Type 0 → Type 0
Pins A = Act PinError Machine A

-- `.map_err(|error| error.to_string())`.
abbrev pub with_text : {A : Type 0} → Checked A → PinResult A
with_text (ok a) = ok a
with_text (err e) = err (of_error e)
with_text stuck = stuck

unfoldable pub files : {A : Type 0} → Files A → Pins A
files act m = let (r, d) = act m.disk in (with_text r, record m { disk = d })

unfoldable pub binding_path : List ℕ → Pins (List ℕ)
binding_path card_id = do
  lift (validate_card_id card_id)
  λ m.
      if m.appdata
      then (ok (to_ascii_uppercase card_id), m)
      else (err (message "APPDATA is unavailable for PIN-card storage"), m)

-- `write_atomic` of a binding: the calls before the old file is removed, its removal, the rename.
unfoldable pub put_binding : List ℕ → List ℕ → Pins Unit
put_binding path bytes m = (ok tt, record m { bindings = (path, bytes) ∷ without path m.bindings })

unfoldable pub drop_binding : List ℕ → Pins Unit
drop_binding path m = (ok tt, record m { bindings = without path m.bindings })

abbrev pub when : Option (List ℕ) → Pins Unit → Pins Unit
when none act = pure tt
when (some bytes) act = act

unfoldable pub remove_old_binding : List ℕ → Pins Unit
remove_old_binding path m = when (lookup path m.bindings) (do files call; drop_binding path) m

unfoldable pub write_binding : List ℕ → List ℕ → Pins Unit
write_binding path bytes = do
  files call
  remove_old_binding path
  files call
  put_binding path bytes

unfoldable pub store_binding : Dpapi → List ℕ → List ℕ → Pins Unit
store_binding dp card_id device_secret = do
  path ← binding_path card_id
  files call
  protected ← lift (dp.protect (binding_magic ++ device_secret))
  write_binding path protected

unfoldable pub read_binding : List ℕ → Pins (List ℕ)
read_binding path m = (
  ok_or (lookup path m.bindings)
      (message "this PIN card is not registered to the current Windows account"),
  m,
)

unfoldable pub load_binding : Dpapi → List ℕ → Pins (List ℕ)
load_binding dp card_id = do
  path ← binding_path card_id
  protected ← read_binding path
  plaintext ← lift (dp.unprotect protected)
  lift (parse_binding plaintext)

-- `fs::read` of the output path.
unfoldable pub open_output : Files (List ℕ)
open_output d = (ok_or d.output (io not_found), d)

unfoldable pub mark_pin_card : String → Pins Unit
mark_pin_card name = do
  original ← files open_output
  marked ← lift (add_pin_marker original)
  files (write_atomic name marked true)

-- `matches path if path.is_file()`.
unfoldable pub binding_state : List ℕ → Pins PinCardState
binding_state card_id m = (
  ok (elim ((binding_path card_id m).0) [
    | ok path ↦ elim (lookup path m.bindings) [ some bytes ↦ ready | none ↦ binding_missing ]
    | err e ↦ binding_missing
    | stuck ↦ binding_missing
  ]),
  m,
)

unfoldable pub state_of_marked : Crypto → Imaging → List ℕ → Bool → Pins PinCardState
state_of_marked c im bytes false = pure not_pin_card
state_of_marked c im bytes true = do
  info ← lift (with_text (key_source_info c im bytes))
  binding_state info

unfoldable pub pin_card_state : Crypto → Imaging → Pins PinCardState
pin_card_state c im = do bytes ← files open_input; state_of_marked c im bytes (marker_present bytes)

-- The closure of `create_pin_card`, behind the call that makes the card at the output.
unfoldable pub bind_card :
    Crypto → Imaging → Dpapi → String → List ℕ → Pins (List ℕ) → Pins (List ℕ)
bind_card c im dp name device_secret make = do
  made ← make
  mark_pin_card name
  card ← files open_output
  info ← lift (with_text (key_source_info c im card))
  store_binding dp info device_secret
  pure info

-- `if result.is_err() { let _ = fs::remove_file(output); }`.
abbrev pub discard : Result PinError (List ℕ) → Machine → Result PinError (List ℕ) × Machine
discard (ok info) m = (ok info, m)
discard (err e) m = (err e, (files remove_output m).1)
discard stuck m = (stuck, m)

unfoldable pub or_remove : Pins (List ℕ) → Pins (List ℕ)
or_remove act m = let (r, m') = act m in discard r m'

-- `create_pin_card`; the device secret, the master key, the salt and the nonce are random.
unfoldable pub create_pin_card :
    Crypto
    → Imaging
    → Dpapi
    → List ℕ
    → List ℕ
    → List ℕ
    → KeyfileParams
    → List ℕ
    → List ℕ
    → Bool
    → String
    → Bool
    → Pins (List ℕ)
create_pin_card c im dp device_secret master pin p salt nonce is_pdf name overwrite = do
  lift (validate_pin pin)
  or_remove (
      bind_card c im dp name device_secret (
        files (
          create_keycard c im master (credential device_secret pin) p salt nonce is_pdf name
            overwrite)))

unfoldable pub create_pin_card_from_master :
    Crypto
    → Imaging
    → Dpapi
    → List ℕ
    → List ℕ
    → List ℕ
    → KeyfileParams
    → List ℕ
    → List ℕ
    → Bool
    → String
    → Bool
    → Pins (List ℕ)
create_pin_card_from_master c im dp device_secret master pin p salt nonce is_pdf name overwrite = do
  lift (validate_pin pin)
  or_remove (
      bind_card c im dp name device_secret (
        files (
          export_recovery_keycard_from_master c im master (credential device_secret pin) p salt
            nonce is_pdf name overwrite)))

-- The two tests of `unlock_pin_card`; each reads the state anew.
abbrev pub refuse_missing : PinCardState → PinResult Unit
refuse_missing binding_missing =
    err
      (message "this PIN card belongs to another Windows account or its device binding is missing")
refuse_missing not_pin_card = ok tt
refuse_missing ready = ok tt

abbrev pub require_ready : PinCardState → PinResult Unit
require_ready ready = ok tt
require_ready not_pin_card = err (message "the selected visual key is not a device-bound PIN card")
require_ready binding_missing =
    err (message "the selected visual key is not a device-bound PIN card")

unfoldable pub unlock_pin_card : Crypto → Imaging → Dpapi → List ℕ → Pins (List ℕ)
unlock_pin_card c im dp pin = do
  lift (validate_pin pin)
  state ← pin_card_state c im
  lift (refuse_missing state)
  state' ← pin_card_state c im
  lift (require_ready state')
  bytes ← files open_input
  info ← lift (with_text (key_source_info c im bytes))
  device_secret ← load_binding dp info
  lift (with_text (unlock_key_source c im bytes (credential device_secret pin)))

abbrev pub refuse_plain : PinCardState → PinResult Unit
refuse_plain not_pin_card = err (message "the selected key is not a PIN card")
refuse_plain ready = ok tt
refuse_plain binding_missing = ok tt

unfoldable pub copy_pin_card : Crypto → Imaging → String → Bool → Pins (List ℕ)
copy_pin_card c im name overwrite = do
  state ← pin_card_state c im
  lift (refuse_plain state)
  bytes ← files open_input
  files (write_atomic name bytes overwrite)
  copied ← files open_output
  lift (with_text (key_source_info c im copied))

-- `remove_pin_binding`; a binding that is not there is no error.
unfoldable pub remove_pin_binding : Crypto → Imaging → Pins Unit
remove_pin_binding c im = do
  bytes ← files open_input
  info ← lift (with_text (key_source_info c im bytes))
  path ← binding_path info
  remove_old_binding path
