-- ===== src/Volume/Store/Steps.antt =====
-- The scan of the log as a sequence of steps from record to record, without fuel.
use or_isy_vra.Base.{
  ℕ, zero, suc, ◌+◌, ◌^◌, ◌≤◌, ◌<◌, ◌≡◌, refl, ap, arith, inl, inr, List, false, ltb, lt→ltb,
  ltb-false, Bool-cases,
}
use or_isy_vra.Base.Results.{
  ok, ok_or, checked_add, then-eq-ok, bind-eq-ok, fail_if-eq-ok, ok_injective,
}
use or_isy_vra.Crypto.{Crypto}
use or_isy_vra.Volume.Layout.{
  VolumeError, corrupt, Bootstrap, RecordHeader, record_header_size, log_start,
}
use or_isy_vra.Volume.Seals.{VolumeKeys}
use or_isy_vra.Volume.Log.{
  Index, RecordIndex, get, insert, check_generation, saturating_add, scan_loop, read_record_at,
}
use or_isy_vra.Volume.Store.Reopen.{SameLog, read_record_at-same}

-- The entry of a record.
abbrev pub entry_of : ℕ → RecordHeader → RecordIndex
entry_of offset h = record {
  offset = offset;
  generation = h.generation;
  plaintext_len = h.plaintext_len;
  ciphertext_len = h.ciphertext_len;
}

abbrev pub behind : ℕ → RecordHeader → ℕ
behind offset h = offset + record_header_size + h.ciphertext_len

-- Records that follow one another from an offset, with a count and an index, up to those of the
-- target.
pub data Steps (c : Crypto) (b : Bootstrap) (keys : VolumeKeys) (content : List ℕ) (end total : ℕ)
    (final : Index) : ℕ → ℕ → Index → Type 0 where
  arrived :
      (offset count : ℕ) (index : Index)
      → offset ≡ end
      → count ≡ total
      → index ≡ final
      → Steps c b keys content end total final offset count index
  step :
      (offset count : ℕ) (index : Index) (h : RecordHeader) (plaintext : List ℕ)
      → read_record_at c b keys offset content ≡ ok (h, plaintext)
      → check_generation (get h.block_index index) h.generation ≡ ok tt
      → behind offset h ≤ end
      → Steps c b keys content end total final
          (behind offset h)
          (saturating_add count 1)
          (insert h.block_index (entry_of offset h) index)
      → Steps c b keys content end total final offset count index

sum-ok : (a b : ℕ) (x : VolumeError) → a + b < 2 ^ 64 → ok_or (checked_add a b) x ≡ ok (a + b)
sum-ok a b x h = ground arith

module _ (c : Crypto) (b : Bootstrap) (keys : VolumeKeys) (content : List ℕ) where
  -- A scan that succeeded made such steps.
  pub scan_loop-Steps :
      (fuel offset count : ℕ) (index : Index) (end total : ℕ) (final : Index)
      → scan_loop c b keys fuel content end offset count index ≡ ok (end, total, final)
      → Steps c b keys content end total final offset count index
  unfolding scan_loop
  scan_loop-Steps zero offset count index end total final e = cc
  scan_loop-Steps (suc fuel) offset count index end total final e =
      elim (Bool-cases (ltb offset end)) [
        | inr done ↦
            let same = ok_injective (rw done at e) in
            arrived offset count index (ap (λ t. t.0) same) (ap (λ t. t.1) same)
              (ap (λ t. t.2) same)
        | inl more ↦
            let ((h, plaintext), e0, r0) =
              bind-eq-ok (read_record_at c b keys offset content) _ _ (rw more at e) in
            let (e1, r1) =
              then-eq-ok (check_generation (get h.block_index index) h.generation) _ r0 in
            let (record_len, e2, r2) =
              bind-eq-ok
                (ok_or (checked_add record_header_size h.ciphertext_len)
                  (corrupt "block record length overflow"))
                _ _ r1 in
            let (next, e3, r3) =
              bind-eq-ok
                (ok_or (checked_add offset record_len) (corrupt "block record offset overflow")) _ _
                r2 in
            let (e4, r4) =
              fail_if-eq-ok (ltb end next) (corrupt "block record extends past committed log") _
                r3 in
            let at : next ≡ behind offset h =
              sum_of record_header_size h.ciphertext_len record_len offset next e2 e3 in
            step offset count index h plaintext e0 e1 (not_past end (behind offset h) (rw at at e4))
              (scan_loop-Steps fuel (behind offset h) (saturating_add count 1)
                (insert h.block_index (entry_of offset h) index) end total final (rw at at r4))
      ]
    where
      sum_of :
          (a b n o m : ℕ)
          → ok_or (checked_add a b) (corrupt "block record length overflow") ≡ ok n
          → ok_or (checked_add o n) (corrupt "block record offset overflow") ≡ ok m
          → m ≡ o + a + b
      sum_of a b n o m e e' = ground arith

      not_past : (a b : ℕ) → ltb a b ≡ false → b ≤ a
      not_past a b h = ground arith

  module _ {end total : ℕ} {final : Index} where
    -- The steps go forward.
    pub Steps-le :
        {offset count : ℕ} {index : Index}
        → Steps c b keys content end total final offset count index
        → offset ≤ end
    Steps-le (arrived offset count index o n i) = omega (arith, o)
    Steps-le (step offset count index h p e g le s) = omega (arith, le)

    -- Where the steps lead to the end of the log the scan succeeds, given fuel for its bytes.
    pub Steps-scan_loop :
        {offset count : ℕ} {index : Index}
        → Steps c b keys content end total final offset count index
        → (fuel : ℕ) → end < 2 ^ 64
        → end < fuel + offset
        → scan_loop c b keys fuel content end offset count index ≡ ok (end, total, final)
    unfolding scan_loop
    Steps-scan_loop (arrived offset count index o n i) zero small enough =
        absurd (omega (arith, enough, o))
    Steps-scan_loop (arrived offset count index o n i) (suc fuel) small enough =
        rw (ltb-false offset end (omega (arith, o))) (rw o (rw n (rw i refl)))
    Steps-scan_loop (step offset count index h p e g le s) zero small enough =
        absurd (omega (arith, enough, le))
    Steps-scan_loop (step offset count index h p e g le s) (suc fuel) small enough =
        let at : offset + (record_header_size + h.ciphertext_len) ≡ behind offset h = omega arith in
        let rest = Steps-scan_loop s fuel small (omega (arith, enough)) in
        rw (lt→ltb offset end (omega (arith, le))) (
          rw e (
            rw g (
              rw
                (sum-ok record_header_size h.ciphertext_len (corrupt "block record length overflow")
                  (omega (arith, le, small)))
                (rw
                  (sum-ok offset (record_header_size + h.ciphertext_len)
                    (corrupt "block record offset overflow") (omega (arith, le, small)))
                  (rw at (rw (ltb-false end (behind offset h) le) rest))))))

    -- One more record behind the last.
    pub Steps-snoc :
        {offset count : ℕ} {index : Index} (h : RecordHeader) (plaintext : List ℕ)
        → Steps c b keys content end total final offset count index
        → read_record_at c b keys end content ≡ ok (h, plaintext)
        → check_generation (get h.block_index final) h.generation ≡ ok tt
        → Steps c b keys content
            (behind end h)
            (saturating_add total 1)
            (insert h.block_index (entry_of end h) final)
            offset
            count
            index
    Steps-snoc h p (arrived offset count index o n i) read fresh = rw o (
        rw n
          (rw i (step end total final h p read fresh (omega arith) (arrived _ _ _ refl refl refl))))
    Steps-snoc h p (step offset count index h' p' e g le s) read fresh =
        step offset count index h' p' e g (omega (arith, le)) (Steps-snoc h p s read fresh)

    -- The same steps in a file with the same log.
    pub Steps-same :
        (content' : List ℕ) {offset count : ℕ} {index : Index}
        → SameLog end content content'
        → log_start ≤ offset
        → Steps c b keys content end total final offset count index
        → Steps c b keys content' end total final offset count index
    Steps-same content' same low (arrived offset count index o n i) =
        arrived offset count index o n i
    Steps-same content' same low (step offset count index h p e g le s) =
        step offset count index h p
          (read_record_at-same end content content' same c b keys offset h p low le e) g le
          (Steps-same content' same (omega (arith, low)) s)
