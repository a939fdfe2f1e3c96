-- ===== src/Volume/Store/Settles.antt =====
-- The scan of the log comes to an end.
use or_isy_vra.Base.{
  ℕ, zero, suc, ◌+◌, ◌≤◌, ◌<◌, ◌≡◌, ◌≢◌, refl, arith, inl, inr, List, [], ◌∷◌, length, Option, none,
  some, Bool, true, false, not, ◌||◌, ◌==◌, ltb, leb, Bool-cases,
}
use or_isy_vra.Base.Results.{ok, err, stuck, ◌>>=◌, ◌>>◌, fail_if, ok_or, checked_add}
use or_isy_vra.Base.Bytes.{slice, from_le, bytes_eq}
use or_isy_vra.Crypto.{Crypto}
use or_isy_vra.Volume.Layout.{
  VolumeError, VolumeResult, Bootstrap, RecordHeader, SuperState, decode_record_header,
  checked_record_header, block_count, record_header_size, record_magic, tag_size, log_start,
  corrupt, authentication_failed,
}
use or_isy_vra.Volume.Device.{read_at}
use or_isy_vra.Volume.Seals.{VolumeKeys, decrypt}
use or_isy_vra.Volume.Log.{
  Index, RecordIndex, get, read_record_at, check_generation, record_nonce, record_aad, scan_loop,
  scan_log,
}

-- A result that the code can have: no loop ran out of fuel, and nothing panicked.
abbrev pub Settles : {A : Type 0} → VolumeResult A → Type 0
Settles {A} r = ◌≢◌ {A = VolumeResult A} r stuck

module _ {A : Type 0} where
  ok-Settles : (a : A) → Settles (ok a)
  ok-Settles a e = absurd (ground arith)

  err-Settles : (x : VolumeError) → Settles {A = A} (err x)
  err-Settles x e = absurd (ground arith)

  ok_or-Settles : (o : Option A) (x : VolumeError) → Settles (ok_or o x)
  ok_or-Settles none x = err-Settles x
  ok_or-Settles (some a) x = ok-Settles a

fail_if-Settles : (wrong : Bool) (x : VolumeError) → Settles (fail_if {E = VolumeError} wrong x)
fail_if-Settles true x = err-Settles x
fail_if-Settles false x = ok-Settles tt

bind-Settles :
    {A B : Type 0} (m : VolumeResult A) (f : A → VolumeResult B)
    → Settles m
    → ((a : A) → m ≡ ok a → Settles (f a))
    → Settles (m >>= f)
bind-Settles (ok a) f s next = next a refl
bind-Settles (err x) f s next = err-Settles x
bind-Settles stuck f s next = absurd (s refl)

read_at-Settles : (offset n : ℕ) (content : List ℕ) → Settles (read_at offset n content)
unfolding read_at
read_at-Settles offset n content = elim (Bool-cases (leb (offset + n) (length content))) [
  | inl there ↦ rw there (ok-Settles _)
  | inr short ↦ rw short (err-Settles _)
]

decrypt-Settles :
    (c : Crypto) (keys : VolumeKeys) (nonce message aad : List ℕ)
    → Settles (decrypt c keys nonce message aad)
unfolding decrypt
decrypt-Settles c keys nonce message aad =
    bind-Settles (fail_if (not (length keys.key == 32)) authentication_failed) _
      (fail_if-Settles _ _)
      (λ u _. ok_or-Settles (c.unseal keys.key nonce message aad) authentication_failed)

check_generation-Settles :
    (o : Option RecordIndex) (generation : ℕ) → Settles (check_generation o generation)
unfolding check_generation
check_generation-Settles none generation = fail_if-Settles _ _
check_generation-Settles (some previous) generation = fail_if-Settles _ _

checked-Settles :
    (magic flags : List ℕ) (block_index generation plaintext_len ciphertext_len : ℕ)
    → Settles
        (checked_record_header magic flags block_index generation plaintext_len ciphertext_len)
unfolding checked_record_header
checked-Settles magic flags block_index generation plaintext_len ciphertext_len =
    bind-Settles
      (fail_if (not (bytes_eq magic record_magic)) (corrupt "invalid block-record magic")) _
      (fail_if-Settles _ _)
      (λ u _.
        bind-Settles
          (fail_if (not (bytes_eq flags (0 ∷ 0 ∷ 0 ∷ 0 ∷ [])))
            (corrupt "unsupported block-record flags"))
          _ (fail_if-Settles _ _)
          (λ u _.
            bind-Settles
              (fail_if (not (ciphertext_len == plaintext_len + tag_size))
                (corrupt "invalid encrypted block length"))
              _ (fail_if-Settles _ _) (λ u _. ok-Settles _)))

decode_record_header-Settles : (bytes : List ℕ) → Settles (decode_record_header bytes)
unfolding decode_record_header
decode_record_header-Settles bytes =
    checked-Settles (slice 0 4 bytes) (slice 28 32 bytes) (from_le (slice 4 12 bytes))
      (from_le (slice 12 20 bytes)) (from_le (slice 20 24 bytes)) (from_le (slice 24 28 bytes))

module _ (c : Crypto) (b : Bootstrap) (keys : VolumeKeys) where
  -- The record's ciphertext, opened.
  opened-Settles :
      (offset : ℕ) (content header_bytes : List ℕ) (h : RecordHeader)
      → Settles {A = RecordHeader × List ℕ} (do
        ciphertext ← read_at (offset + record_header_size) h.ciphertext_len content
        plaintext ←
            decrypt c keys
              (record_nonce c keys b h.block_index h.generation)
              ciphertext
              (record_aad b header_bytes)
        fail_if
            (not (length plaintext == h.plaintext_len))
            (corrupt "decrypted block length mismatch")
        ok (h, plaintext))
  opened-Settles offset content header_bytes h =
      bind-Settles (read_at (offset + record_header_size) h.ciphertext_len content) _
        (read_at-Settles _ _ _)
        (λ ciphertext _.
          bind-Settles
            (decrypt c keys (record_nonce c keys b h.block_index h.generation) ciphertext
              (record_aad b header_bytes))
            _ (decrypt-Settles _ _ _ _ _)
            (λ plaintext _.
              bind-Settles
                (fail_if (not (length plaintext == h.plaintext_len))
                  (corrupt "decrypted block length mismatch"))
                _ (fail_if-Settles _ _) (λ u _. ok-Settles _)))

  read_record_at-Settles :
      (offset : ℕ) (content : List ℕ) → Settles (read_record_at c b keys offset content)
  unfolding read_record_at
  read_record_at-Settles offset content =
      bind-Settles (read_at offset record_header_size content) _ (read_at-Settles _ _ _)
        (λ header_bytes _.
          bind-Settles (decode_record_header header_bytes) _ (decode_record_header-Settles _)
            (λ h _.
              bind-Settles
                (fail_if (leb (block_count b) h.block_index)
                  (corrupt "block index exceeds logical capacity"))
                _ (fail_if-Settles _ _)
                (λ u _.
                  bind-Settles
                    (fail_if (ltb b.block_size h.plaintext_len)
                      (corrupt "block plaintext exceeds configured block size"))
                    _ (fail_if-Settles _ _) (λ u _. opened-Settles offset content header_bytes h))))

  scan_loop-Settles :
      (fuel : ℕ) (content : List ℕ) (end offset count : ℕ) (index : Index)
      → 0 < fuel
      → end < fuel + offset
      → Settles (scan_loop c b keys fuel content end offset count index)
  unfolding scan_loop
  scan_loop-Settles zero content end offset count index some_fuel enough =
      absurd (omega (arith, some_fuel))
  scan_loop-Settles (suc fuel) content end offset count index some_fuel enough =
      elim (Bool-cases (ltb offset end)) [
        | inr done ↦ rw done (ok-Settles _)
        | inl more ↦ rw more (
            bind-Settles (read_record_at c b keys offset content) _
              (read_record_at-Settles offset content)
              (λ r _.
                bind-Settles (check_generation (get r.0.block_index index) r.0.generation) _
                  (check_generation-Settles _ _)
                  (λ u _.
                    bind-Settles
                      (ok_or (checked_add record_header_size r.0.ciphertext_len)
                        (corrupt "block record length overflow"))
                      _ (ok_or-Settles _ _)
                      (λ record_len e.
                        bind-Settles
                          (ok_or (checked_add offset record_len)
                            (corrupt "block record offset overflow"))
                          _ (ok_or-Settles _ _)
                          (λ next e'.
                            bind-Settles
                              (fail_if (ltb end next)
                                (corrupt "block record extends past committed log"))
                              _ (fail_if-Settles _ _)
                              (λ u e''.
                                let less = further r.0.ciphertext_len record_len next e e' in
                                let inside = passed next u e'' in
                                scan_loop-Settles fuel content end next _ _
                                  (omega (arith, enough, less, inside))
                                  (omega (arith, enough, less))))))))
      ]
    where
      further :
          (n record_len next : ℕ)
          → ok_or (checked_add record_header_size n) (corrupt "block record length overflow")
            ≡ ok record_len
          → ok_or (checked_add offset record_len) (corrupt "block record offset overflow") ≡ ok next
          → offset < next
      further n record_len next e e' = ground arith

      passed :
          (next : ℕ) (u : Unit)
          → fail_if (ltb end next) (corrupt "block record extends past committed log") ≡ ok u
          → next ≤ end
      passed next u e = ground arith

  -- For every file and state the scan of the log comes to an end: its fuel, one more than the end of
  -- the log, is enough, since every record takes bytes.
  pub scan_log-Settles :
      (st : SuperState) (content : List ℕ) → Settles (scan_log c b keys st content)
  unfolding scan_log
  scan_log-Settles st content =
      bind-Settles
        (scan_loop c b keys (st.committed_end + 1) content st.committed_end log_start 0 []) _
        (scan_loop-Settles (st.committed_end + 1) content st.committed_end log_start 0 []
          (omega arith) (omega arith))
        (λ r _.
          bind-Settles
            (fail_if (not (r.0 == st.committed_end) || not (r.1 == st.record_count))
              (corrupt "committed log accounting mismatch"))
            _ (fail_if-Settles _ _) (λ u _. ok-Settles _))
