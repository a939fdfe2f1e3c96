-- ===== src/Errors.antt =====
-- crates/orisyvra/src/error.rs: the errors of the file layer.
use Prim.Native.String.{String}
use or_isy_vra.Base.Results.{Result}

-- What the operating system reports; the sources distinguish none of these.
pub data IoError : Type 0 where
  not_found unexpected_eof other : IoError

pub data Error : Type 0 where
  io : IoError → Error
  file_io : String → String → String → IoError → Error
  invalid_format : String → Error
  invalid_input : String → Error
  authentication_failed : Error
  crypto : String → Error
  image : String → Error
  key_card_decode : Error
  output_exists : String → Error
  limit_exceeded : String → Error

abbrev pub Checked : Type 0 → Type 0
Checked A = Result Error A
