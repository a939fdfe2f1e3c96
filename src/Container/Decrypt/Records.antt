-- ===== src/Container/Decrypt/Records.antt =====
-- One data record: what a round of the encryption loop writes, a round of the decryption loop reads.
use mathlib.Core.List.{append_assoc}
use or_isy_vra.Base.{
  ℕ, ◌+◌, ◌^◌, ◌<◌, ◌≤◌, ◌≡◌, refl, ap, sym, ◌∙◌, arith, List, ◌∷◌, ◌++◌, length, All, ltb, leb,
  ◌==◌, lt→ltb, le→leb, ==_self, true, false, length-append, take-append, drop-append,
}
use or_isy_vra.Base.Words.{IsByte}
use or_isy_vra.Base.Results.{ok}
use or_isy_vra.Crypto.{Crypto, IsAead, HasDigests}
use or_isy_vra.Container.Header.{Mode, max_chunk_size}
use or_isy_vra.Container.Record.{data_record}
use or_isy_vra.Container.Record.Frame.{
  frame_rest, frame_rest-IsBytes, record_frame-rest, read-index, read-plaintext_length,
  read-body_length,
}
use or_isy_vra.Container.Record.Sealing.{sealed, sealed-IsBytes, seal_native-sealed, open-sealed}
use or_isy_vra.Container.Encrypt.{
  Session, Progress, seal_body, seal_record, encrypt_record, max_records,
}
use or_isy_vra.Container.Decrypt.{Reading, read_exact, open_body, body_length_for, decrypt_record}
use or_isy_vra.Container.Decrypt.Bodies.{IsSession, open_body-seal}

pub read_exact-append :
    (n : ℕ) (xs ys : List ℕ) → length xs ≡ n → read_exact n (xs ++ ys) ≡ ok (xs, ys)
unfolding read_exact
read_exact-append n xs ys e =
    rw (le→leb n (length (xs ++ ys)) (omega (arith, length-append xs ys)))
      (rw (take-append n xs ys (sym e)) (rw (drop-append n xs ys (sym e)) refl))

leb-gt : (a b : ℕ) → b < a → leb a b ≡ false
leb-gt a b h = ground arith

ltb-ge : (a b : ℕ) → b ≤ a → ltb a b ≡ false
ltb-ge a b h = ground arith

-- The progress behind a round that wrote `written` for `n` bytes of input.
abbrev pub after : Progress → ℕ → List ℕ → Progress
after p n written = record {
  record_index = p.record_index + 1;
  total_length = p.total_length + n;
  transcript = p.transcript ++ written;
  output = p.output ++ written;
}

-- The variables of the decryption loop that has read what `p` has written, with the plaintext `out`.
abbrev pub reading_of : Progress → List ℕ → Reading
reading_of p out = record {
  expected_index = p.record_index;
  total_length = p.total_length;
  transcript = p.transcript;
  output = out;
  saw_manifest = false;
}

module _ (c : Crypto) (aead : IsAead c) (digests : HasDigests c) (s : Session) (valid : IsSession s)
    (p : Progress) (plaintext : List ℕ) (more : p.record_index < max_records)
    (short : length plaintext ≤ s.header.chunk_size) (bytes : All IsByte plaintext)
    (fits : p.total_length + length plaintext < 2 ^ 64) where
  abbrev n : ℕ
  n = length plaintext

  abbrev native_body : List ℕ
  native_body = sealed s.native_keys s.binding p.record_index plaintext

  -- The frame and the body behind the record's first byte.
  abbrev tail : List ℕ → List ℕ
  tail body = frame_rest p.record_index n (length body) ++ body

  small : length plaintext ≤ max_chunk_size
  small = omega (arith, short, valid.header.not_large)

  body_length_small : (m : Mode) → body_length_for m n < 2 ^ 32
  body_length_small Mode.native_research = omega (arith, small)
  body_length_small Mode.guarded = omega (arith, small)

  encrypt_record-tail :
      (body : List ℕ)
      → seal_body c s s.header.mode p.record_index n native_body ≡ ok body
      → length body ≡ body_length_for s.header.mode n
      → encrypt_record c s p plaintext ≡ ok (after p n (data_record ∷ tail body))
  unfolding encrypt_record seal_record
  encrypt_record-tail body made size =
      let body_small = body_length_small s.header.mode in
      rw (leb-gt max_records p.record_index more) (
        rw
          (seal_native-sealed s.native_keys s.binding p.record_index plaintext
            (omega (arith, small)))
          (rw (lt→ltb n (2 ^ 32) (omega (arith, small))) (
            rw made (
              rw (lt→ltb (length body) (2 ^ 32) (omega (arith, size, body_small))) (
                rw (lt→ltb (p.total_length + n) (2 ^ 64) fits)
                  (rw (record_frame-rest p.record_index n (length body)) refl))))))

  decrypt_record-tail :
      (body out input : List ℕ)
      → open_body c s s.header.mode p.record_index
          (data_record ∷ frame_rest p.record_index n (length body))
          body
        ≡ ok native_body
      → length body ≡ body_length_for s.header.mode n
      → decrypt_record c s (reading_of p out) (tail body ++ input)
        ≡ ok (reading_of (after p n (data_record ∷ tail body)) (out ++ plaintext), input)
  unfolding decrypt_record
  decrypt_record-tail body out input opened size =
      let rest = frame_rest p.record_index n (length body) in
      let body_small = body_length_small s.header.mode in
      let same_length : (length body == body_length_for s.header.mode n) ≡ true =
        ap (λ t. length body == t) (sym size) ∙ ==_self (length body) in
      rw (append_assoc rest body input) (
        rw
          (read_exact-append 16 rest (body ++ input)
            (frame_rest-IsBytes p.record_index n (length body)).size)
          (rw (read-index p.record_index n (length body) (omega (arith, more))) (
            rw (read-plaintext_length p.record_index n (length body) (omega (arith, small))) (
              rw (read-body_length p.record_index n (length body) (omega (arith, size, body_small)))
                (rw (==_self p.record_index) (
                  rw (leb-gt max_records p.record_index more) (
                    rw (ltb-ge s.header.chunk_size n short) (
                      rw same_length (
                        rw (read_exact-append (length body) body input refl) (
                          rw opened (
                            rw
                              (open-sealed s.native_keys s.binding p.record_index plaintext
                                (omega (arith, small)))
                              (rw (lt→ltb (p.total_length + n) (2 ^ 64) fits) refl))))))))))))

  -- A round of the encryption loop succeeds, and a round of the decryption loop takes back what it
  -- wrote and no more.
  pub decrypt_record-encrypt :
      (tail : List ℕ) × (encrypt_record c s p plaintext ≡ ok (after p n (data_record ∷ tail)))
      × ((out input : List ℕ)
          → decrypt_record c s (reading_of p out) (tail ++ input)
            ≡ ok (reading_of (after p n (data_record ∷ tail)) (out ++ plaintext), input))
  decrypt_record-encrypt =
      let (body, made, size, opened) =
        open_body-seal c aead digests s valid s.header.mode p.record_index n native_body refl small
          (sealed-IsBytes s.native_keys s.binding p.record_index plaintext bytes) in
      (
        tail body,
        encrypt_record-tail body made size,
        λ out input.
            decrypt_record-tail body out input
              (opened _ (record_frame-rest p.record_index n (length body))) size,
      )
