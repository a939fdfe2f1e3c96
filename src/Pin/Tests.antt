-- ===== src/Pin/Tests.antt =====
-- PIN cards at a picture, and the unit test `pin_validation_is_strictly_four_ascii_digits`.
use or_isy_vra.Base.{
  ℕ, ◌≡◌, refl, arith, List, [], ◌∷◌, ◌++◌, replicate, length-replicate, All-replicate, Option,
  none, some, true, false, codes,
}
use or_isy_vra.Base.Words.{IsByte}
use or_isy_vra.Base.Bytes.{IsBytes, bytes_eq, slice}
use or_isy_vra.Base.Results.{ok, err}
use or_isy_vra.Errors.{output_exists}
use or_isy_vra.Crypto.Toy.{toy, toy-IsAead, toy-HasArgon2, toy-HasDigests}
use or_isy_vra.Keyfile.{default_params}
use or_isy_vra.Keyfile.Codec.{IsParams}
use or_isy_vra.Png.{png_signature, chunk_length, chunk_type, from_be_bytes, insert_loop}
use or_isy_vra.Keycard.{extract_key_chunk}
use or_isy_vra.Keycard.Toy.{empty_png, toy_imaging, empty_png-IsPlainPng, toy_imaging-EncodesPng}
use or_isy_vra.Pin.{
  PinResult, of_error, pin_is_valid, pin_marker, pin_chunk_type, add_pin_marker, marker_present,
  marker_loop,
}
use or_isy_vra.Pin.Marker.{extract-add_pin_marker, marker_present-add_pin_marker}
use or_isy_vra.Pin.Cards.{Dpapi, create_pin_card, unlock_pin_card}
use or_isy_vra.Pin.Cards.Session.{IsDpapi, machine, unlock-create_pin_card, create_pin_card-removes}

pin_digits : pin_is_valid (codes "9182") ≡ true
unfolding pin_is_valid
pin_digits = refl

pin_short : pin_is_valid (codes "123") ≡ false
unfolding pin_is_valid
pin_short = refl

pin_letter : pin_is_valid (codes "12a4") ≡ false
unfolding pin_is_valid
pin_letter = refl

abbrev marked_png : List ℕ
marked_png = png_signature ++ (pin_marker ++ slice 8 20 empty_png)

marked : add_pin_marker empty_png ≡ ok marked_png
unfolding add_pin_marker marker_present marker_loop insert_loop chunk_length chunk_type
    from_be_bytes bytes_eq
marked = refl

extract-add_pin_marker_example : extract_key_chunk toy marked_png ≡ extract_key_chunk toy empty_png
extract-add_pin_marker_example =
    extract-add_pin_marker toy empty_png marked_png (omega arith) marked

marker_present-add_pin_marker_example :
    (out : List ℕ) × (add_pin_marker empty_png ≡ ok out) × (marker_present out ≡ true)
marker_present-add_pin_marker_example =
    marker_present-add_pin_marker empty_png (empty_png-IsPlainPng pin_chunk_type)

abbrev toy_dpapi : Dpapi
toy_dpapi = record { protect = λ bytes. ok (1 ∷ bytes); unprotect = λ bytes. drop_one bytes }
  where
    drop_one : List ℕ → PinResult (List ℕ)
    drop_one [] = err (of_error (output_exists "no secret"))
    drop_one (b ∷ bytes) = ok bytes

toy_dpapi-IsDpapi : IsDpapi toy_dpapi
toy_dpapi-IsDpapi = record { protects = λ plaintext. (1 ∷ plaintext, refl, refl) }

abbrev salt : List ℕ
salt = replicate 16 1

abbrev nonce : List ℕ
nonce = replicate 24 2

abbrev master : List ℕ
master = replicate 48 3

abbrev secret : List ℕ
secret = replicate 32 4

same-IsBytes : (n b : ℕ) → IsByte b → IsBytes n (replicate n b)
same-IsBytes n b h = record { size = length-replicate n b; all = All-replicate IsByte n b h }

default_params-IsParams : IsParams default_params
default_params-IsParams = record {
  memory_min = omega arith;
  memory_max = omega arith;
  iterations_min = omega arith;
  iterations_max = omega arith;
  parallelism_min = omega arith;
  parallelism_max = omega arith;
}

unlock-create_pin_card_example :
    (info card : List ℕ) × (bindings : List (List ℕ × List ℕ)) × (create_pin_card toy toy_imaging
        toy_dpapi secret master
        (codes "9182")
        default_params
        salt
        nonce
        false
        "card.png"
        false
        (machine none none [])
      ≡ (ok info, machine none (some card) bindings))
    × ((other : Option (List ℕ))
        → unlock_pin_card toy toy_imaging toy_dpapi
            (codes "9182")
            (machine (some card) other bindings)
          ≡ (ok master, machine (some card) other bindings))
unlock-create_pin_card_example =
    unlock-create_pin_card toy toy_imaging toy_dpapi secret master (codes "9182") default_params
      salt nonce "card.png" false none none [] toy-IsAead toy-HasArgon2 toy-HasDigests
      toy_imaging-EncodesPng toy_dpapi-IsDpapi (same-IsBytes 32 4 (omega arith))
      (same-IsBytes 48 3 (omega arith)) pin_digits default_params-IsParams
      (same-IsBytes 16 1 (omega arith)) (same-IsBytes 24 2 (omega arith)) refl

create_pin_card-removes_example :
    create_pin_card toy toy_imaging toy_dpapi secret master
      (codes "9182")
      default_params
      salt
      nonce
      false
      "card.png"
      false
      (machine none (some empty_png) [])
    ≡ (err (of_error (output_exists "card.png")), machine none none [])
create_pin_card-removes_example =
    create_pin_card-removes toy toy_imaging toy_dpapi secret master (codes "9182") default_params
      salt nonce "card.png" none empty_png [] toy-IsAead toy-HasArgon2 toy-HasDigests
      toy_imaging-EncodesPng (same-IsBytes 32 4 (omega arith)) (same-IsBytes 48 3 (omega arith))
      pin_digits default_params-IsParams (same-IsBytes 16 1 (omega arith))
      (same-IsBytes 24 2 (omega arith))
