-- ===== src/Keycard/Toy.antt =====
-- A picture without content, as the encoder of the examples.
use or_isy_vra.Base.{ℕ, refl, arith, List, [], ◌∷◌, ◌++◌, none, some, codes}
use or_isy_vra.Base.Results.{ok}
use or_isy_vra.Png.{png_signature, chunk_length, chunk_type, from_be_bytes}
use or_isy_vra.Png.Plain.{IsPlainPng, final}
use or_isy_vra.Keycard.{Imaging}
use or_isy_vra.Keycard.Files.Created.{EncodesPng}

abbrev pub empty_png : List ℕ
empty_png = png_signature ++ (0 ∷ 0 ∷ 0 ∷ 0 ∷ codes "IEND" ++ (174 ∷ 66 ∷ 96 ∷ 130 ∷ []))

abbrev pub toy_imaging : Imaging
toy_imaging = record {
  encode_png = λ keyfile. ok empty_png;
  draw_pdf = λ payload. ok payload;
  base64_encode = λ text. text;
  detect = λ bytes. ok (none ∷ some bytes ∷ []);
  base64_decode = λ text. some text;
}

pub empty_png-IsPlainPng : (kind : List ℕ) → IsPlainPng kind empty_png
unfolding chunk_length chunk_type from_be_bytes
empty_png-IsPlainPng kind = record {
  signed = refl;
  chunks = final 8 (omega arith) refl;
  small = omega arith;
}

pub toy_imaging-EncodesPng : EncodesPng toy_imaging
toy_imaging-EncodesPng = record {
  encodes =
      λ keyfile valid. (empty_png, refl, omega arith, λ kind private. empty_png-IsPlainPng kind);
}
