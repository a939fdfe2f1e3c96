-- ===== src/Crypto.antt =====
-- The cryptographic crates that the sources call (chacha20poly1305, hkdf, hmac, sha2, argon2), as
-- a parameter: their functions, and the documented facts that theorems assume of them.
pub mod Toy
use or_isy_vra.Base.{Bool, true, ℕ, ◌+◌, ◌*◌, ◌≤◌, ◌^◌, ◌<◌, ◌≡◌, List, length, All, Option, some}
use or_isy_vra.Base.Words.{IsByte}
use or_isy_vra.Base.Bytes.{IsBytes}

-- Each function takes byte strings; `none` is the error that the crate's call returns.
pub record Crypto : Type 0 where
  -- `XChaCha20Poly1305::new_from_slice(key)`, then `encrypt` or `decrypt`: key, nonce, message,
  -- associated data.
  pub seal : List ℕ → List ℕ → List ℕ → List ℕ → Option (List ℕ)
  pub unseal : List ℕ → List ℕ → List ℕ → List ℕ → Option (List ℕ)
  -- `Hkdf::<Sha384>::new(Some(salt), key).expand(info, output)` with 64 bytes of output.
  pub hkdf : List ℕ → List ℕ → List ℕ → Option (List ℕ)
  -- HMAC-SHA-256 of a message under a key, and the two digests.
  pub hmac_sha256 : List ℕ → List ℕ → List ℕ
  pub sha384 : List ℕ → List ℕ
  pub sha256 : List ℕ → List ℕ
  -- Whether `Params::new` accepts memory, iterations and parallelism for 32 bytes, and Argon2id of a
  -- password, a salt, and those three, to 32 bytes.
  pub argon2_params : ℕ → ℕ → ℕ → Bool
  pub argon2id : List ℕ → List ℕ → ℕ → ℕ → ℕ → Option (List ℕ)

-- The tag of XChaCha20-Poly1305 is 16 bytes.
abbrev pub aead_tag_size : ℕ
aead_tag_size = 16

-- Every call with a 32-byte key and a 24-byte nonce seals a message shorter than 2 ^ 32 bytes into
-- the message's length and a tag, and what was sealed is unsealed under the same key, nonce and
-- associated data.
pub record IsAead (c : Crypto) : Type 0 where
  pub seals :
      (key nonce message aad : List ℕ)
      → IsBytes 32 key
      → IsBytes 24 nonce
      → All IsByte message
      → length message < 2 ^ 32
      → (sealed : List ℕ) × (c.seal key nonce message aad ≡ some sealed)
        × IsBytes (length message + aead_tag_size) sealed
  pub unseals :
      (key nonce message aad sealed : List ℕ)
      → c.seal key nonce message aad ≡ some sealed
      → c.unseal key nonce sealed aad ≡ some message

-- The digests have their fixed sizes, and HKDF gives 64 bytes, which is below its limit.
pub record HasDigests (c : Crypto) : Type 0 where
  pub hkdf_64 :
      (salt key info : List ℕ)
      → (output : List ℕ) × (c.hkdf salt key info ≡ some output) × IsBytes 64 output
  pub hmac_32 : (key message : List ℕ) → IsBytes 32 (c.hmac_sha256 key message)
  pub sha384_48 : (message : List ℕ) → IsBytes 48 (c.sha384 message)
  pub sha256_32 : (message : List ℕ) → IsBytes 32 (c.sha256 message)

-- Parameters in the range that the crate documents are accepted, and Argon2id gives a key of the asked
-- 32 bytes under them for every password shorter than 2 ^ 32 bytes and a salt of 16 bytes.
pub record HasArgon2 (c : Crypto) : Type 0 where
  pub accepts :
      (memory iterations parallelism : ℕ)
      → memory < 2 ^ 32
      → iterations < 2 ^ 32
      → parallelism < 2 ^ 24
      → 8 * parallelism ≤ memory
      → 1 ≤ iterations
      → 1 ≤ parallelism
      → c.argon2_params memory iterations parallelism ≡ true
  pub argon2id_32 :
      (password salt : List ℕ) (memory iterations parallelism : ℕ)
      → length password < 2 ^ 32
      → IsBytes 16 salt
      → memory < 2 ^ 32
      → iterations < 2 ^ 32
      → parallelism < 2 ^ 24
      → 8 * parallelism ≤ memory
      → 1 ≤ iterations
      → 1 ≤ parallelism
      → (key : List ℕ) × (c.argon2id password salt memory iterations parallelism ≡ some key)
        × IsBytes 32 key
