-- ===== src/Volume/Store/Reopen.antt =====
-- What was committed can still be read behind a transaction that was cut off anywhere.
use or_isy_vra.Base.{
  ℕ, zero, suc, ◌+◌, ◌-◌, ◌≤◌, ◌≡◌, refl, ap, sym, ◌∙◌, arith, List, [], length, take, drop, Bool,
  false, some, leb, ltb, ◌==◌, not, le→leb, drop-drop, Bool-cases, inl, inr,
}
use or_isy_vra.Base.Bytes.{slice}
use or_isy_vra.Base.Results.{
  ok, ok_or, checked_add, then-eq-ok, bind-eq-ok, fail_if-eq-ok, ok_injective,
}
use or_isy_vra.Crypto.{Crypto}
use or_isy_vra.Volume.Layout.{
  VolumeError, corrupt, Bootstrap, RecordHeader, SuperState, decode_record_header, block_count,
  record_header_size, log_start, super_slot_size,
}
use or_isy_vra.Volume.Device.{Device, read_at}
use or_isy_vra.Base.Slices.{slice-take, take-take}
use or_isy_vra.Volume.Seals.{VolumeKeys, decrypt, read_superblock, super_offset}
use or_isy_vra.Volume.Log.{
  Index, get, check_generation, saturating_add, scan_loop, scan_log, read_record_at, record_nonce,
  record_aad,
}
use or_isy_vra.Volume.Blocks.{Volume}
use or_isy_vra.Volume.Store.Commit.{Blocks, write_blocks, set_clean_state}
use or_isy_vra.Volume.Store.Crash.{
  IsOpen, SameState, slot_offset, write_blocks_crash, set_clean_state_crash,
}

-- Bytes of a range, by way of the range.
within :
    (lo hi offset n : ℕ) (xs : List ℕ)
    → lo ≤ offset
    → offset + n ≤ hi
    → take n (drop offset xs) ≡ take n (drop (offset - lo) (slice lo hi xs))
within lo hi offset n xs low high =
    ap (λ (t : ℕ). take n (drop t xs)) {x = offset} {y = lo + (offset - lo)} (omega arith)
    ∙ ap (take n) (sym (drop-drop (offset - lo) lo xs))
    ∙ sym (take-take n (hi - lo - (offset - lo)) (drop (offset - lo) (drop lo xs)) (omega arith))
    ∙ ap (take n) (slice-take (offset - lo) (hi - lo) (drop lo xs) (omega arith))

-- Two files with the same committed log.
pub record SameLog (end : ℕ) (content content' : List ℕ) : Type 0 where
  pub log : slice log_start end content' ≡ slice log_start end content
  pub long : end ≤ length content
  pub long' : end ≤ length content'

module _ (end : ℕ) (content content' : List ℕ) (same : SameLog end content content') where
  read_at-same :
      (offset n : ℕ)
      → log_start ≤ offset
      → offset + n ≤ end
      → read_at offset n content' ≡ read_at offset n content
  unfolding read_at
  read_at-same offset n low high =
      rw (le→leb (offset + n) (length content) (omega (arith, same.long))) (
        rw (le→leb (offset + n) (length content') (omega (arith, same.long'))) (
          ap ok (
            within log_start end offset n content' low high
            ∙ ap (λ t. take n (drop (offset - log_start) t)) same.log
            ∙ sym (within log_start end offset n content low high))))

  -- A record that was read from the committed log is read again.
  pub read_record_at-same :
      (c : Crypto) (b : Bootstrap) (keys : VolumeKeys) (offset : ℕ) (h : RecordHeader)
      (plaintext : List ℕ)
      → log_start ≤ offset
      → offset + record_header_size + h.ciphertext_len ≤ end
      → read_record_at c b keys offset content ≡ ok (h, plaintext)
      → read_record_at c b keys offset content' ≡ ok (h, plaintext)
  unfolding read_record_at
  read_record_at-same c b keys offset h plaintext low high e =
      let (header_bytes, e0, r0) = bind-eq-ok (read_at offset record_header_size content) _ _ e in
      let (h', e1, r1) = bind-eq-ok (decode_record_header header_bytes) _ _ r0 in
      let (e2, r2) =
        fail_if-eq-ok (leb (block_count b) h'.block_index)
          (corrupt "block index exceeds logical capacity") _ r1 in
      let (e3, r3) =
        fail_if-eq-ok (ltb b.block_size h'.plaintext_len)
          (corrupt "block plaintext exceeds configured block size") _ r2 in
      let (ciphertext, e4, r4) =
        bind-eq-ok (read_at (offset + record_header_size) h'.ciphertext_len content) _ _ r3 in
      let (p, e5, r5) =
        bind-eq-ok
          (decrypt c keys (record_nonce c keys b h'.block_index h'.generation) ciphertext
            (record_aad b header_bytes))
          _ _ r4 in
      let (e6, r6) =
        fail_if-eq-ok (not (length p == h'.plaintext_len))
          (corrupt "decrypted block length mismatch") (ok (h', p)) r5 in
      let length_same : h'.ciphertext_len ≡ h.ciphertext_len =
        ap (λ t. t.0.ciphertext_len) (ok_injective r6) in
      let head = read_at-same offset record_header_size low (omega (arith, high)) ∙ e0 in
      let body =
        read_at-same (offset + record_header_size) h'.ciphertext_len (omega (arith, low))
          (omega (arith, high, length_same))
        ∙ e4 in
      rw head (rw e1 (rw e2 (rw e3 (rw body (rw e5 (rw e6 r6))))))

  -- A scan of the committed log that succeeded succeeds again, with the same index.
  scan_loop-same :
      (c : Crypto) (b : Bootstrap) (keys : VolumeKeys) (fuel offset count : ℕ) (index : Index)
      (result : ℕ × ℕ × Index)
      → log_start ≤ offset
      → scan_loop c b keys fuel content end offset count index ≡ ok result
      → scan_loop c b keys fuel content' end offset count index ≡ ok result
  unfolding scan_loop
  scan_loop-same c b keys zero offset count index result low e = cc
  scan_loop-same c b keys (suc fuel) offset count index result low e =
      elim (Bool-cases (ltb offset end)) [
        | inr done ↦ rw done (rw done at e)
        | inl more ↦
            let ((h, plaintext), e0, r0) =
              bind-eq-ok (read_record_at c b keys offset content) _ _ (rw more at e) in
            let (e1, r1) =
              then-eq-ok (check_generation (get h.block_index index) h.generation) _ r0 in
            let (record_len, e2, r2) =
              bind-eq-ok
                (ok_or (checked_add record_header_size h.ciphertext_len)
                  (corrupt "block record length overflow"))
                _ _ r1 in
            let (next, e3, r3) =
              bind-eq-ok
                (ok_or (checked_add offset record_len) (corrupt "block record offset overflow")) _ _
                r2 in
            let (e4, r4) =
              fail_if-eq-ok (ltb end next) (corrupt "block record extends past committed log") _
                r3 in
            let len =
              sum_of record_header_size h.ciphertext_len record_len
                (corrupt "block record length overflow") e2 in
            let behind =
              sum_of offset record_len next (corrupt "block record offset overflow") e3 in
            let inside = not_past end next e4 in
            let again =
              read_record_at-same c b keys offset h plaintext low
                (omega (arith, len, behind, inside)) e0 in
            let rest =
              scan_loop-same c b keys fuel next (saturating_add count 1) _ result
                (omega (arith, behind, low)) r4 in
            rw more (rw again (rw e1 (rw e2 (rw e3 (rw e4 rest)))))
      ]
    where
      sum_of : (a b n : ℕ) (x : VolumeError) → ok_or (checked_add a b) x ≡ ok n → n ≡ a + b
      sum_of a b n x e = ground arith

      not_past : (a b : ℕ) → ltb a b ≡ false → b ≤ a
      not_past a b h = ground arith

scan_log-same :
    (c : Crypto) (b : Bootstrap) (keys : VolumeKeys) (st : SuperState) (index : Index)
    (content content' : List ℕ)
    → SameLog st.committed_end content content'
    → scan_log c b keys st content ≡ ok index
    → scan_log c b keys st content' ≡ ok index
unfolding scan_log
scan_log-same c b keys st index content content' same e =
    let end = st.committed_end in
    let (result, e0, r0) =
      bind-eq-ok (scan_loop c b keys (end + 1) content end log_start 0 []) _ _ e in
    let again =
      scan_loop-same end content content' same c b keys (end + 1) log_start 0 [] result
        (omega arith) e0 in
    rw again r0

read_at-slice :
    (offset n : ℕ) (content : List ℕ)
    → offset + n ≤ length content
    → read_at offset n content ≡ ok (slice offset (offset + n) content)
unfolding read_at
read_at-slice offset n content h = rw (le→leb (offset + n) (length content) h) (
    ap ok (
      ap (λ (t : ℕ). take t (drop offset content)) {x = n} {y = offset + n - offset} (omega arith)))

read_superblock-same :
    (c : Crypto) (b : Bootstrap) (keys : VolumeKeys) (slot : ℕ) (content content' : List ℕ)
    → slot ≤ 1
    → log_start ≤ length content
    → log_start ≤ length content'
    → slice (slot_offset slot) (slot_offset slot + super_slot_size) content'
      ≡ slice (slot_offset slot) (slot_offset slot + super_slot_size) content
    → read_superblock c b keys slot content' ≡ read_superblock c b keys slot content
unfolding read_superblock super_offset
read_superblock-same c b keys zero content content' h l l' same =
    rw (read_at-slice 256 super_slot_size content (omega (arith, l)))
      (rw (read_at-slice 256 super_slot_size content' (omega (arith, l'))) (rw same refl))
read_superblock-same c b keys (suc zero) content content' h l l' same =
    rw (read_at-slice 768 super_slot_size content (omega (arith, l)))
      (rw (read_at-slice 768 super_slot_size content' (omega (arith, l'))) (rw same refl))
read_superblock-same c b keys (suc (suc n)) content content' h l l' same = absurd (omega (arith, h))

-- The file under an open volume: the active superblock holds the state, and the committed log gives
-- the index.
pub record Backs (c : Crypto) (v : Volume) (content : List ℕ) : Type 0 where
  pub opened : IsOpen v content
  pub superblock : read_superblock c v.bootstrap v.keys v.active_super content ≡ ok (some v.state)
  pub log : scan_log c v.bootstrap v.keys v.state content ≡ ok v.index

SameState-Backs :
    (c : Crypto) (v : Volume) (content content' : List ℕ)
    → Backs c v content
    → SameState v content content'
    → Backs c v content'
SameState-Backs c v content content' backs same = record {
  opened = record { slot = backs.opened.slot; begins = backs.opened.begins; there = same.long };
  superblock =
      read_superblock-same c v.bootstrap v.keys v.active_super content content' backs.opened.slot
        (omega (arith, backs.opened.begins, backs.opened.there))
        (omega (arith, backs.opened.begins, same.long)) same.active_slot
      ∙ backs.superblock;
  log =
      scan_log-same c v.bootstrap v.keys v.state v.index content content'
        (record { log = same.log; long = backs.opened.there; long' = same.long }) backs.log;
}

-- For every file that backs an open volume, every list of blocks and every plan of failures,
-- half-written buffers included, the file still backs the volume as it was before `write_blocks`:
-- a reopening finds the active superblock authentic with the same state, and the scan of its log
-- gives the same index.
pub write_blocks-Backs :
    (c : Crypto) (v : Volume) (blocks : Blocks) (d : Device)
    → Backs c v d.content
    → Backs c v (write_blocks c v blocks d).2.content
write_blocks-Backs c v blocks d backs =
    SameState-Backs c v d.content _ backs (write_blocks_crash c v blocks d backs.opened)

-- For every file that backs an open volume, every flag and every plan of failures, the file still
-- backs the volume as it was before `set_clean_state`.
pub set_clean_state-Backs :
    (c : Crypto) (v : Volume) (clean : Bool) (d : Device)
    → Backs c v d.content
    → Backs c v (set_clean_state c v clean d).1.content
set_clean_state-Backs c v clean d backs =
    SameState-Backs c v d.content _ backs (set_clean_state_crash c v clean d backs.opened)
