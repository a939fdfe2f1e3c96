-- ===== src/Crypto/Toy.antt =====
-- A toy instance of the cryptographic parameter, for the theorems at concrete inputs: a seal that
-- appends sixteen zeros, and constant digests.
use or_isy_vra.Base.{
  ℕ, ◌-◌, ◌≡◌, refl, arith, List, ◌++◌, length, take, replicate, Option, none, some, true,
  if◌then◌else◌, length-append, take-append, All-append, All-replicate, length-replicate,
}
use or_isy_vra.Base.Words.{IsByte}
use or_isy_vra.Base.Bytes.{IsBytes, bytes_eq, bytes_eq_self}
use or_isy_vra.Crypto.{Crypto, IsAead, HasDigests, HasArgon2}

abbrev pub toy_seal : List ℕ → List ℕ
toy_seal message = message ++ replicate 16 0

abbrev pub toy_unseal : List ℕ → Option (List ℕ)
toy_unseal sealed =
    let message = take (length sealed - 16) sealed in
    if bytes_eq (toy_seal message) sealed then some message else none

abbrev pub toy : Crypto
toy = record {
  seal = λ key nonce message aad. some (toy_seal message);
  unseal = λ key nonce sealed aad. toy_unseal sealed;
  hkdf = λ salt key info. some (replicate 64 3);
  hmac_sha256 = λ key message. replicate 32 4;
  sha384 = λ message. replicate 48 5;
  sha256 = λ message. replicate 32 6;
  argon2_params = λ memory iterations parallelism. true;
  argon2id = λ password salt memory iterations parallelism. some (replicate 32 7);
}

all_same : (n b : ℕ) → IsByte b → IsBytes n (replicate n b)
all_same n b h = record { size = length-replicate n b; all = All-replicate IsByte n b h }

some_seal : (a b : List ℕ) → some (toy_seal a) ≡ some b → toy_seal a ≡ b
some_seal a b e = ground arith

pub toy-IsAead : IsAead toy
toy-IsAead = record {
  seals = λ key nonce message aad k n bytes small. (
    toy_seal message,
    refl,
    record {
      size = length-append message (replicate 16 0);
      all = All-append IsByte message (replicate 16 0) bytes (all_same 16 0 (omega arith)).all;
    },
  );
  unseals = λ key nonce message aad sealed e.
      let same = some_seal message sealed e in
      let t : take (length (toy_seal message) - 16) (toy_seal message) ≡ message =
        take-append _ message (replicate 16 0)
          (omega (arith, length-append message (replicate 16 0))) in
      rw (← same) (rw t (rw (bytes_eq_self (toy_seal message)) refl));
}

pub toy-HasDigests : HasDigests toy
toy-HasDigests = record {
  hkdf_64 = λ salt key info. (replicate 64 3, refl, all_same 64 3 (omega arith));
  hmac_32 = λ key message. all_same 32 4 (omega arith);
  sha384_48 = λ message. all_same 48 5 (omega arith);
  sha256_32 = λ message. all_same 32 6 (omega arith);
}

pub toy-HasArgon2 : HasArgon2 toy
toy-HasArgon2 = record {
  accepts = λ memory iterations parallelism m_max i_max p_max m i p. refl;
  argon2id_32 = λ password salt memory iterations parallelism short s m_max i_max p_max m i p.
      (replicate 32 7, refl, all_same 32 7 (omega arith));
}
