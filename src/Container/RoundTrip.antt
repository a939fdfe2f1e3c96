-- ===== src/Container/RoundTrip.antt =====
-- Decryption takes back what encryption writes: the loops, the manifest and the whole file.
pub mod WholeFile
use mathlib.Core.List.{append_assoc, append-nil}
use native.Mathlib.Nat.{suc-mul}
use or_isy_vra.Base.{
  ℕ, zero, suc, ◌+◌, ◌-◌, ◌*◌, ◌^◌, ◌<◌, ◌≤◌, ◌≡◌, refl, ap, sym, ◌∙◌, arith, List, [], ◌∷◌, ◌++◌,
  length, take, drop, All, ◌==◌, true, false, Bool-cases, inl, inr, ==_iff, length-append,
  length-take, length-drop, take-append-drop, All-take, All-drop,
}
use or_isy_vra.Base.Words.{IsByte}
use or_isy_vra.Base.Results.{ok, ◌>>=◌}
use or_isy_vra.Crypto.{Crypto, IsAead, HasDigests}
use or_isy_vra.Container.Record.{data_record}
use or_isy_vra.Container.Encrypt.{
  Session, Reader, Progress, fill, encrypt_loop, encrypt_record, max_records,
}
use or_isy_vra.Container.Encrypt.Filling.{fill-eq-take, take-nil}
use or_isy_vra.Container.Decrypt.{Reading, decrypt_record, decrypt_loop}
use or_isy_vra.Container.Decrypt.Bodies.{IsSession}
use or_isy_vra.Container.Decrypt.Records.{after, reading_of, decrypt_record-encrypt}

-- A run of the encryption loop over `content` from `p`, which the decryption loop follows.
pub record Followed (c : Crypto) (s : Session) (fuel : ℕ) (r : Reader) (p : Progress)
    (content : List ℕ) : Type 0 where
  pub final : Progress
  pub written : List ℕ
  pub rounds : ℕ
  pub encrypted : encrypt_loop c s fuel r p ≡ ok final
  pub appended : final.output ≡ p.output ++ written
  pub few : final.record_index ≤ max_records
  pub total : final.total_length ≡ p.total_length + length content
  pub rounds_le : rounds ≤ length written
  pub decrypted :
      (out input : List ℕ) (f : ℕ)
      → decrypt_loop c s (rounds + f) (written ++ input) (reading_of p out)
        ≡ decrypt_loop c s f input (reading_of final (out ++ content))

empty : (xs : List ℕ) → (length xs == 0) ≡ true → xs ≡ []
empty [] h = refl
empty (x ∷ xs) h = absurd (ground arith)

module _ (c : Crypto) (aead : IsAead c) (digests : HasDigests c) (s : Session)
    (valid : IsSession s) where
  nothing :
      (fuel : ℕ) (r : Reader) (p : Progress)
      → r.content ≡ []
      → p.record_index ≤ max_records
      → Followed c s (suc fuel) r p []
  unfolding encrypt_loop
  nothing fuel r p none_left few = record {
    final = p;
    written = [];
    rounds = 0;
    encrypted =
        let (taken, left) = fill-eq-take s.header.chunk_size r s.header.chunk_size (omega arith) in
        rw taken (rw none_left (rw (take-nil s.header.chunk_size) refl));
    appended = sym (append-nil p.output);
    few = few;
    total = omega arith;
    rounds_le = omega arith;
    decrypted = λ out input f.
        ap (λ (t : ℕ). decrypt_loop c s t input (reading_of p out)) {x = 0 + f} {y = f}
          (omega arith)
        ∙ ap (λ t. decrypt_loop c s f input (reading_of p t)) (sym (append-nil out));
  }

  -- One round before the rest of the run.
  one_more :
      (fuel : ℕ) (r : Reader) (p : Progress) (content tail : List ℕ)
      → (length (take s.header.chunk_size content) == 0) ≡ false
      → r.content ≡ content
      → encrypt_record c s p (take s.header.chunk_size content)
        ≡ ok (after p (length (take s.header.chunk_size content)) (data_record ∷ tail))
      → ((out input : List ℕ)
          → decrypt_record c s (reading_of p out) (tail ++ input)
            ≡ ok (
              reading_of
                  (after p (length (take s.header.chunk_size content)) (data_record ∷ tail))
                  (out ++ take s.header.chunk_size content),
              input,
            ))
      → Followed c s fuel
          (fill s.header.chunk_size r s.header.chunk_size).1
          (after p (length (take s.header.chunk_size content)) (data_record ∷ tail))
          (drop s.header.chunk_size content)
      → Followed c s (suc fuel) r p content
  unfolding encrypt_loop decrypt_loop
  one_more fuel r p content tail some_there same made opened rest = record {
    final = rest.final;
    written = (data_record ∷ tail) ++ rest.written;
    rounds = suc rest.rounds;
    encrypted =
        let (taken, left) = fill-eq-take s.header.chunk_size r s.header.chunk_size (omega arith) in
        let filled : (fill s.header.chunk_size r s.header.chunk_size).0
            ≡ take s.header.chunk_size content =
          taken ∙ ap (take s.header.chunk_size) same in
        rw filled (rw some_there (rw made rest.encrypted));
    appended = rest.appended ∙ append_assoc p.output (data_record ∷ tail) rest.written;
    few = rest.few;
    total =
        rest.total
        ∙ omega (
          arith,
          ap length (take-append-drop s.header.chunk_size content),
          length-append (take s.header.chunk_size content) (drop s.header.chunk_size content),
        );
    rounds_le = omega (arith, rest.rounds_le, length-append (data_record ∷ tail) rest.written);
    decrypted = λ out input f.
        let e : suc rest.rounds + f ≡ suc (rest.rounds + f) = omega arith in
        rw e (
          rw (append_assoc tail rest.written input) (
            rw (opened out (rest.written ++ input)) (
              rest.decrypted (out ++ take s.header.chunk_size content) input f
              ∙ ap (λ t. decrypt_loop c s f input (reading_of rest.final t))
                  (append_assoc out (take s.header.chunk_size content)
                      (drop s.header.chunk_size content)
                    ∙ ap (λ t. out ++ t) (take-append-drop s.header.chunk_size content)))));
  }

  pub decrypt_loop-encrypt :
      (fuel : ℕ) (r : Reader) (p : Progress) (content : List ℕ) (left : ℕ)
      → r.content ≡ content
      → length content < fuel
      → p.record_index + left ≡ max_records
      → length content ≤ left * s.header.chunk_size
      → p.total_length + length content < 2 ^ 64
      → All IsByte content
      → Followed c s fuel r p content
  decrypt_loop-encrypt zero r p content left same enough few room fits bytes = absurd (omega arith)
  decrypt_loop-encrypt (suc fuel) r p [] left same enough few room fits bytes =
      nothing fuel r p same (omega (arith, few))
  decrypt_loop-encrypt (suc fuel) r p (b ∷ bs) zero same enough few room fits bytes =
      absurd (omega (arith, room))
  decrypt_loop-encrypt (suc fuel) r p (b ∷ bs) (suc left) same enough few room fits bytes =
      let content = b ∷ bs in
      let k = s.header.chunk_size in
      let sizes = length-take k content in
      let rest_size = length-drop k content in
      let (tail, made, opened) =
        decrypt_record-encrypt c aead digests s valid p (take k content) (omega (arith, few))
          (omega (arith, sizes)) (All-take IsByte k content bytes) (omega (arith, sizes, fits)) in
      one_more fuel r p content tail
        (not_empty (length (take k content)) (omega (arith, sizes, valid.header.not_small))) same
        made opened
        (decrypt_loop-encrypt fuel (fill k r k).1 _ (drop k content) left
          ((fill-eq-take k r k (omega arith)).1 ∙ ap (drop k) same)
          (omega (arith, rest_size, enough, valid.header.not_small)) (omega (arith, few))
          (omega (arith, rest_size, room, suc-mul left k)) (omega (arith, sizes, rest_size, fits))
          (All-drop IsByte k content bytes))
    where
      not_empty : (n : ℕ) → 0 < n → (n == 0) ≡ false
      not_empty n h = ground arith
