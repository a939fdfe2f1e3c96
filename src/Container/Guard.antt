-- ===== src/Container/Guard.antt =====
-- The XChaCha20-Poly1305 layer of guarded mode.
pub mod Nonces
use or_isy_vra.Base.{ℕ, List, ◌∷◌, ◌++◌, length, take, ◌==◌, not, codes}
use or_isy_vra.Base.Bytes.{le_bytes}
use or_isy_vra.Base.Results.{◌>>◌, ok_or, fail_if}
use or_isy_vra.Errors.{Checked, crypto, authentication_failed}
use or_isy_vra.Crypto.{Crypto}
use or_isy_vra.Container.Header.{Header}
use or_isy_vra.Container.Keys.{GuardKeys}

abbrev pub guard_tag_size : ℕ
guard_tag_size = 16

unfoldable pub guard_nonce : Crypto → GuardKeys → Header → ℕ → ℕ → List ℕ
guard_nonce c keys header index kind = take 24 (
    c.hmac_sha256 keys.nonce_key
      (codes "OrIsyVra/guarded/nonce/v1" ++ (header.file_id ++ (kind ∷ le_bytes 8 index))))

unfoldable pub guard_seal : Crypto → GuardKeys → Header → ℕ → ℕ → List ℕ → List ℕ → Checked (List ℕ)
guard_seal c keys header index kind aad plaintext = do
  fail_if (not (length keys.key == 32)) (crypto "invalid guard key")
  ok_or (c.seal keys.key (guard_nonce c keys header index kind) plaintext aad)
      (crypto "guarded encryption failed")

unfoldable pub guard_open : Crypto → GuardKeys → Header → ℕ → ℕ → List ℕ → List ℕ → Checked (List ℕ)
guard_open c keys header index kind aad ciphertext = do
  fail_if (not (length keys.key == 32)) (crypto "invalid guard key")
  ok_or (c.unseal keys.key (guard_nonce c keys header index kind) ciphertext aad)
      authentication_failed
