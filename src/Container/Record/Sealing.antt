-- ===== src/Container/Record/Sealing.antt =====
-- `open_native` opens exactly what `seal_native` seals.
use or_isy_vra.Base.{
  ℕ, ◌+◌, ◌^◌, ◌<◌, ◌≤◌, ◌≡◌, ◌↔◌, ap, sym, ◌∙◌, arith, List, [], ◌∷◌, ◌++◌, length, take, drop,
  All, ltb, ◌==◌, not, Bool-cases, inl, inr, ltb→lt, lt→ltb, ==_iff, ==_self, length-append,
  All-append, length-take, length-drop, take-append, drop-append, take-append-drop,
}
use or_isy_vra.Base.Words.{IsByte}
use or_isy_vra.Base.Bytes.{
  bytes_eq, bytes_eq_iff, bytes_eq_self, xor_bytes, length-xor_bytes, xor_bytes_cancel,
  xor_bytes-IsByte, IsBytes,
}
use or_isy_vra.Base.Results.{ok, err, ◌>>◌, fail_if, fail_if-eq-ok}
use or_isy_vra.Errors.{Checked, authentication_failed, invalid_format}
use or_isy_vra.Core.Prf.{mac32, prf_parts, record_siv, stream}
use or_isy_vra.Core.Prf.Output.{prf_parts-IsBytes, mac32-IsBytes}
use or_isy_vra.Container.Keys.{NativeKeys}
use or_isy_vra.Container.Record.{native_tag_size, record_context, seal_native, open_native}

module _ (keys : NativeKeys) (binding : List ℕ) (index : ℕ) where
  abbrev pub siv_of : ℕ → List ℕ → List ℕ
  siv_of n plaintext = mac32 keys.siv record_siv (record_context binding index n ∷ plaintext ∷ [])

  abbrev pub stream_of : ℕ → List ℕ → ℕ → List ℕ
  stream_of n siv len = prf_parts keys.stream stream (record_context binding index n ∷ siv ∷ []) len

  -- What sealing returns on a plaintext that is short enough.
  pub sealed : List ℕ → List ℕ
  sealed plaintext =
      let n = length plaintext in
      let siv = siv_of n plaintext in siv ++ xor_bytes plaintext (stream_of n siv n)

  pub seal_native-sealed :
      (plaintext : List ℕ)
      → length plaintext < 2 ^ 32
      → seal_native keys binding index plaintext ≡ ok (sealed plaintext)
  unfolding seal_native sealed
  seal_native-sealed plaintext h = rw (lt→ltb _ _ h)

  seal_native-ok :
      (plaintext body : List ℕ)
      → seal_native keys binding index plaintext ≡ ok body
      → (length plaintext < 2 ^ 32) × (sealed plaintext ≡ body)
  unfolding seal_native sealed
  seal_native-ok plaintext body e = elim (Bool-cases (ltb (length plaintext) (2 ^ 32))) [
    | inl small ↦ (ltb→lt _ _ small, ground arith)
    | inr large ↦ absurd (ground arith)
  ]

  length-stream : (n : ℕ) (siv : List ℕ) (len : ℕ) → length (stream_of n siv len) ≡ len
  length-stream n siv len = (prf_parts-IsBytes keys.stream stream _ len).size

  length-siv : (n : ℕ) (plaintext : List ℕ) → length (siv_of n plaintext) ≡ native_tag_size
  length-siv n plaintext = (mac32-IsBytes keys.siv record_siv _).size

  pub sealed-IsBytes :
      (plaintext : List ℕ)
      → All IsByte plaintext
      → IsBytes (native_tag_size + length plaintext) (sealed plaintext)
  unfolding sealed
  sealed-IsBytes plaintext h =
      let n = length plaintext in
      let siv = siv_of n plaintext in
      let tag =
        mac32-IsBytes keys.siv record_siv (record_context binding index n ∷ plaintext ∷ []) in
      let key_stream =
        prf_parts-IsBytes keys.stream stream (record_context binding index n ∷ siv ∷ []) n in
      record {
        size =
            length-append siv (xor_bytes plaintext (stream_of n siv n))
            ∙ omega
                (arith, tag.size, key_stream.size, length-xor_bytes plaintext (stream_of n siv n));
        all =
            All-append IsByte siv _ tag.all
              (xor_bytes-IsByte plaintext (stream_of n siv n) h key_stream.all);
      }

  -- `open_native` on a body of the right length, in terms of its two parts.
  open_parts : ℕ → List ℕ → List ℕ → Checked (List ℕ)
  open_parts n siv ciphertext =
      let plaintext = xor_bytes ciphertext (stream_of n siv n) in
      fail_if (not (bytes_eq (siv_of n plaintext) siv)) authentication_failed >> ok plaintext

  open_native-parts :
      (n : ℕ) (siv ciphertext : List ℕ)
      → n < 2 ^ 32
      → length siv ≡ native_tag_size
      → length ciphertext ≡ n
      → open_native keys binding index n (siv ++ ciphertext) ≡ open_parts n siv ciphertext
  unfolding open_native open_parts
  open_native-parts n siv ciphertext h hs hc =
      let total : length (siv ++ ciphertext) ≡ native_tag_size + n =
        length-append siv ciphertext ∙ omega (arith, hs, hc) in
      rw (lt→ltb (native_tag_size + n) (2 ^ 64) (omega arith)) (
        rw total (
          rw (==_self (native_tag_size + n)) (
            rw (take-append 32 siv ciphertext (sym hs))
              (rw (drop-append 32 siv ciphertext (sym hs)) (rw hc)))))

  -- The two parts of a body that `open_native` accepts.
  open_native-length :
      (n : ℕ) (body : List ℕ) {plaintext : List ℕ}
      → n < 2 ^ 32
      → open_native keys binding index n body ≡ ok plaintext
      → length body ≡ native_tag_size + n
  unfolding open_native
  open_native-length n body h e = elim (Bool-cases (length body == native_tag_size + n)) [
    | inl right ↦ (==_iff _ _).0 right
    | inr wrong ↦
        absurd (
          wrong_length
            (rw wrong at (rw (lt→ltb (native_tag_size + n) (2 ^ 64) (omega arith)) at e)))
  ]
    where
      wrong_length :
          {A : Type 0} {a : A} → err (invalid_format "native record length mismatch") ≡ ok a → ⊥
      wrong_length e = cc

  deciphered : List ℕ → List ℕ → List ℕ
  deciphered siv ciphertext =
      xor_bytes ciphertext (stream_of (length ciphertext) siv (length ciphertext))

  length-deciphered :
      (siv ciphertext : List ℕ) → length (deciphered siv ciphertext) ≡ length ciphertext
  unfolding deciphered
  length-deciphered siv ciphertext =
      let n = length ciphertext in
      length-xor_bytes ciphertext (stream_of n siv n) ∙ omega (arith, length-stream n siv n)

  -- Sealing what was deciphered under a matching tag gives the body back.
  sealed-deciphered :
      (siv ciphertext : List ℕ)
      → siv_of (length ciphertext) (deciphered siv ciphertext) ≡ siv
      → sealed (deciphered siv ciphertext) ≡ siv ++ ciphertext
  unfolding sealed
  sealed-deciphered siv ciphertext tag =
      let n = length ciphertext in
      let p = deciphered siv ciphertext in
      let key_stream = stream_of n siv n in
      let fits : length ciphertext ≤ length key_stream = omega (arith, length-stream n siv n) in
      ap (λ (m : ℕ). siv_of m p ++ xor_bytes p (stream_of m (siv_of m p) m))
        (length-deciphered siv ciphertext)
      ∙ ap (λ (s : List ℕ). s ++ xor_bytes p (stream_of n s n)) tag
      ∙ ap (λ t. siv ++ t) (unfold deciphered in xor_bytes_cancel ciphertext key_stream fits)

  open_parts-ok :
      (siv ciphertext plaintext : List ℕ)
      → open_parts (length ciphertext) siv ciphertext ≡ ok plaintext
      → (deciphered siv ciphertext ≡ plaintext)
        × (siv_of (length ciphertext) (deciphered siv ciphertext) ≡ siv)
  unfolding open_parts deciphered
  open_parts-ok siv ciphertext plaintext e =
      let n = length ciphertext in
      let p = xor_bytes ciphertext (stream_of n siv n) in
      let (right, same) =
        fail_if-eq-ok (not (bytes_eq (siv_of n p) siv)) authentication_failed (ok p) e in
      (cc, (bytes_eq_iff (siv_of n p) siv).0 (ground arith))

  opened-sealed :
      (siv ciphertext plaintext : List ℕ)
      → open_parts (length ciphertext) siv ciphertext ≡ ok plaintext
      → (sealed plaintext ≡ siv ++ ciphertext) × (length plaintext ≡ length ciphertext)
  opened-sealed siv ciphertext plaintext e =
      let (same, tag) = open_parts-ok siv ciphertext plaintext e in
      (
        rw (← same) (sealed-deciphered siv ciphertext tag),
        rw (← same) (length-deciphered siv ciphertext),
      )

  -- A sealed record opens to its plaintext.
  pub open-sealed :
      (plaintext : List ℕ)
      → length plaintext < 2 ^ 32
      → open_native keys binding index (length plaintext) (sealed plaintext) ≡ ok plaintext
  unfolding sealed
  open-sealed plaintext h =
      let n = length plaintext in
      let siv = siv_of n plaintext in
      let key_stream = stream_of n siv n in
      let fits : length plaintext ≤ length key_stream = omega (arith, length-stream n siv n) in
      let size : length (xor_bytes plaintext key_stream) ≡ n =
        length-xor_bytes plaintext key_stream ∙ omega (arith, length-stream n siv n) in
      open_native-parts n siv (xor_bytes plaintext key_stream) h (length-siv n plaintext) size
      ∙ unfold open_parts in
        rw (xor_bytes_cancel plaintext key_stream fits) (rw (bytes_eq_self siv))

  open-ok :
      (n : ℕ) (body plaintext : List ℕ)
      → n < 2 ^ 32
      → open_native keys binding index n body ≡ ok plaintext
      → (sealed plaintext ≡ body) × (length plaintext ≡ n)
  open-ok n body plaintext h e =
      let size = open_native-length n body h e in
      let siv = take 32 body in
      let ciphertext = drop 32 body in
      let siv_size : length siv ≡ native_tag_size = length-take 32 body ∙ omega (arith, size) in
      let rest_size : length ciphertext ≡ n = length-drop 32 body ∙ omega (arith, size) in
      let whole = take-append-drop 32 body in
      let parts = open_native-parts n siv ciphertext h siv_size rest_size in
      let opened : open_parts n siv ciphertext ≡ ok plaintext =
        sym parts ∙ ap (open_native keys binding index n) whole ∙ e in
      let (same, len) = opened-sealed siv ciphertext plaintext (rw (← rest_size) at opened) in
      (same ∙ whole, len ∙ rest_size)

-- `open_native` returns a plaintext exactly when the body is what `seal_native` makes of that
-- plaintext under the same keys, binding and index, and the plaintext has the length that the
-- frame gives: sealed records open again, and a body that was altered in any byte, or moved to
-- another index, opens only where sealing gives that very body.
pub open_native_iff :
    (keys : NativeKeys) (binding : List ℕ) (index n : ℕ) (body plaintext : List ℕ)
    → n < 2 ^ 32
    → (open_native keys binding index n body ≡ ok plaintext)
      ↔ ((seal_native keys binding index plaintext ≡ ok body) × (length plaintext ≡ n))
open_native_iff keys binding index n body plaintext h = (
  λ e.
      let (same, len) = open-ok keys binding index n body plaintext h e in
      (seal_native-sealed keys binding index plaintext (rw len h) ∙ ap ok same, len),
  λ (e, len).
      let (small, same) = seal_native-ok keys binding index plaintext body e in
      rw (← same) (rw (← len) (open-sealed keys binding index plaintext small)),
)
