-- ===== src/Container/Keys.antt =====
-- The keys of one file, derived from the master key and the header, and the header binding.
use or_isy_vra.Base.{ℕ, List, [], ◌∷◌, ◌++◌, take, drop, codes}
use or_isy_vra.Base.Results.{ok, ◌>>=◌, ok_or}
use or_isy_vra.Errors.{Checked, crypto}
use or_isy_vra.Crypto.{Crypto}
use or_isy_vra.Core.Prf.{derive_key, mac32, header_binding as header_binding_domain}
use or_isy_vra.Container.Header.{Header, encode_header}

pub record NativeKeys : Type 0 where
  pub siv : List ℕ
  pub stream : List ℕ
  pub manifest : List ℕ
  pub header : List ℕ

pub record GuardKeys : Type 0 where
  pub key : List ℕ
  pub nonce_key : List ℕ

unfoldable pub derive_native_keys : List ℕ → Header → NativeKeys
derive_native_keys master header =
    let header_bytes = encode_header header in
    record {
      siv = derive_key master (codes "OrIsyVra/native/siv/v1") header_bytes;
      stream = derive_key master (codes "OrIsyVra/native/stream/v1") header_bytes;
      manifest = derive_key master (codes "OrIsyVra/native/manifest/v1") header_bytes;
      header = derive_key master (codes "OrIsyVra/native/header/v1") header_bytes;
    }

unfoldable pub derive_guard_keys : Crypto → List ℕ → Header → Checked GuardKeys
derive_guard_keys c master header = do
  let info = codes "OrIsyVra/guarded/XChaCha20Poly1305/v1" ++ header.file_id
  output ← ok_or (c.hkdf header.salt master info) (crypto "guard-key derivation failed")
  ok (record { key = take 32 output; nonce_key = drop 32 output })

unfoldable pub header_binding : NativeKeys → Header → List ℕ
header_binding keys header = mac32 keys.header header_binding_domain (encode_header header ∷ [])
