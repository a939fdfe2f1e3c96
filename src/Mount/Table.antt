-- ===== src/Mount/Table.antt =====
-- The bytes of the partition table of `initialize_mbr`.
use or_isy_vra.Base.{
  ℕ, zero, suc, ◌+◌, ◌*◌, ◌/◌, ◌%◌, ◌<◌, ◌≡◌, refl, arith, inl, inr, List, [], ◌∷◌, length,
  replicate, get_or, All, true, false, lt→ltb, ltb-false, All-replicate, length-replicate, le-cases,
}
use or_isy_vra.Base.Words.{IsByte}
use or_isy_vra.Base.Bytes.{length-copy_at, copy_at-IsByte, slice-IsByte, le_bytes-IsByte}
use or_isy_vra.Mount.Copies.{copy_at-inside}
use or_isy_vra.Mount.Partition.{chs_bytes, lba_to_chs, mbr_bytes, any_nonzero}
use or_isy_vra.Mount.Chs.{chs_bytes_lem}

chs-IsByte :
    (cylinder head sector : ℕ)
    → cylinder < 1024
    → head < 256
    → sector < 64
    → All IsByte (chs_bytes cylinder head sector)
chs-IsByte cylinder head sector c h s =
    rw (chs_bytes_lem cylinder head sector c h s)
      (omega (arith, h), (omega (arith, c, s), (omega arith, tt)))

lba_to_chs-IsByte : (lba : ℕ) → All IsByte (lba_to_chs lba)
unfolding lba_to_chs
lba_to_chs-IsByte lba = elim (le-cases (1024 * 255 * 63) lba) [
  | inl far ↦
      rw (lt→ltb 1023 (lba / (255 * 63)) (omega (arith, far)))
        (chs-IsByte 1023 254 63 (omega arith) (omega arith) (omega arith))
  | inr near ↦ rw (ltb-false 1023 (lba / (255 * 63)) (omega (arith, near))) (
      chs-IsByte (lba / (255 * 63)) (lba / 63 % 255) (lba % 63 + 1) (omega (arith, near))
        (omega arith) (omega arith))
]

module _ (volume_id : List ℕ) (start_lba count : ℕ) where
  abbrev table : List ℕ
  table = mbr_bytes volume_id start_lba count

  pub length-table : length table ≡ 512
  unfolding mbr_bytes
  length-table = simp (length-copy_at, length-replicate)

  pub table-IsByte : All IsByte volume_id → All IsByte table
  unfolding mbr_bytes
  table-IsByte h = copy_at-IsByte 510 _ _ (omega arith) (
      copy_at-IsByte 458 _ _ (le_bytes-IsByte 4 count) (
        copy_at-IsByte 454 _ _ (le_bytes-IsByte 4 start_lba) (
          copy_at-IsByte 451 _ _ (lba_to_chs-IsByte _) (
            copy_at-IsByte 450 _ _ (omega arith) (
              copy_at-IsByte 447 _ _ (lba_to_chs-IsByte _) (
                copy_at-IsByte 440 _ _ (slice-IsByte 0 4 volume_id h) (
                  copy_at-IsByte 0 _ _ (omega arith)
                    (All-replicate IsByte 512 0 (omega arith)))))))))

  -- The signature at the end.
  pub table-signature : get_or table 510 0 ≡ 85
  unfolding mbr_bytes
  table-signature =
      copy_at-inside 510 0 (85 ∷ 170 ∷ []) _ (omega arith)
        (simp (length-copy_at, length-replicate) (omega arith))

pub nonzero_byte : (bytes : List ℕ) (k : ℕ) → 0 < get_or bytes k 0 → any_nonzero bytes ≡ true
unfolding any_nonzero
nonzero_byte [] k h = absurd (omega (arith, h))
nonzero_byte (b ∷ bytes) zero h = ground arith
nonzero_byte (b ∷ bytes) (suc k) h = ground (arith, nonzero_byte bytes k h)

pub zero_bytes : (n : ℕ) → any_nonzero (replicate n 0) ≡ false
unfolding any_nonzero
zero_bytes zero = refl
zero_bytes (suc n) = zero_bytes n
