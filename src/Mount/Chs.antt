-- ===== src/Mount/Chs.antt =====
-- The cylinder, head and sector of `lba_to_chs`.
use Prim.Native.Nat.{bit_and, bit_or}
use or_isy_vra.Base.{
  ℕ, zero, suc, ◌+◌, ◌-◌, ◌*◌, ◌/◌, ◌%◌, ◌<◌, ◌≡◌, refl, ap, ap₂, sym, ◌∙◌, arith, inl, inr, List,
  [], ◌∷◌, Bool, true, ◌&&◌, ◌==◌, lt→ltb, ltb-false, min, le-cases,
}
use or_isy_vra.Mount.Partition.{chs_bytes, lba_to_chs}

-- A test of all numbers below a bound.
abbrev all_below : ℕ → (ℕ → Bool) → Bool
all_below zero p = true
all_below (suc n) p = p n && all_below n p

below : (n k : ℕ) (p : ℕ → Bool) → all_below n p ≡ true → k < n → p k ≡ true
below zero k p h l = absurd (omega (arith, l))
below (suc n) k p h l = elim (le-cases n k) [
  | inl last ↦
      let same : n ≡ k = omega (arith, last, l) in ap p (sym same) ∙ first (p n) (all_below n p) h
  | inr earlier ↦ below n k p (rest (p n) (all_below n p) h) earlier
]
  where
    first : (a b : Bool) → (a && b) ≡ true → a ≡ true
    first a b h = ground arith

    rest : (a b : Bool) → (a && b) ≡ true → b ≡ true
    rest a b h = ground arith

equal : (a b : ℕ) → a == b ≡ true → a ≡ b
equal a b h = ground arith

sector_bits : (s : ℕ) → s < 64 → bit_and s 63 ≡ s
sector_bits s h = equal _ _ (below 64 s (λ s. bit_and s 63 == s) refl h)

high_bits : (q : ℕ) → q < 256 → bit_and q 192 ≡ q / 64 * 64
high_bits q h = equal _ _ (below 256 q (λ q. bit_and q 192 == (q / 64 * 64)) refl h)

low_bits : (x : ℕ) → x < 1024 → bit_and x 255 ≡ x % 256
low_bits x h = equal _ _ (below 1024 x (λ x. bit_and x 255 == (x % 256)) refl h)

joined : (s q : ℕ) → s < 64 → q < 4 → bit_or s (q * 64) ≡ q * 64 + s
joined s q h l = equal _ _ (
    below 4 q (λ q. bit_or s (q * 64) == (q * 64 + s))
      (below 64 s (λ s. all_below 4 (λ q. bit_or s (q * 64) == (q * 64 + s))) refl h) l)

pub chs_bytes_lem :
    (cylinder head sector : ℕ)
    → cylinder < 1024
    → head < 256
    → sector < 64
    → chs_bytes cylinder head sector ≡ head ∷ (cylinder / 256 * 64 + sector) ∷ (cylinder % 256) ∷ []
unfolding chs_bytes
chs_bytes_lem cylinder head sector c h s =
    let middle : bit_or (bit_and sector 63) (bit_and (cylinder / 4) 192)
        ≡ cylinder / 256 * 64 + sector =
      ap₂ bit_or (sector_bits sector s) (high_bits (cylinder / 4) (omega (arith, c)))
      ∙ joined sector (cylinder / 4 / 64) s (omega (arith, c))
      ∙ omega arith in
    let fits : (cylinder / 256 * 64 + sector) % 256 ≡ cylinder / 256 * 64 + sector =
      omega (arith, c, s) in
    let small : head % 256 ≡ head = omega (arith, h) in
    rw middle (rw fits (rw small (rw (low_bits cylinder c) refl)))

-- The sector that the three bytes of a partition entry name, for 255 heads of 63 sectors.
abbrev pub chs_lba : List ℕ → ℕ
chs_lba [] = 0
chs_lba (head ∷ []) = 0
chs_lba (head ∷ middle ∷ []) = 0
chs_lba (head ∷ middle ∷ low ∷ rest) =
    ((middle / 64 * 256 + low) * 255 + head) * 63 + middle % 64 - 1

named :
    (cylinder head sector : ℕ)
    → cylinder < 1024
    → head < 256
    → sector < 64
    → chs_lba (chs_bytes cylinder head sector) ≡ (cylinder * 255 + head) * 63 + sector - 1
named cylinder head sector c h s =
    let cylinder' : (cylinder / 256 * 64 + sector) / 64 * 256 + cylinder % 256 ≡ cylinder =
      omega (arith, c, s) in
    let sector' : (cylinder / 256 * 64 + sector) % 64 ≡ sector = omega (arith, c, s) in
    ap chs_lba (chs_bytes_lem cylinder head sector c h s)
    ∙ ap₂ (λ (a b : ℕ). (a * 255 + head) * 63 + b - 1) cylinder' sector'

-- The three bytes name the sector itself, or the last sector that they can name, where it lies
-- behind that one.
pub lba_to_chs_lem : (lba : ℕ) → chs_lba (lba_to_chs lba) ≡ min lba (1024 * 255 * 63 - 1)
unfolding lba_to_chs
lba_to_chs_lem lba = elim (le-cases (1024 * 255 * 63) lba) [
  | inl far ↦
      rw (lt→ltb 1023 (lba / (255 * 63)) (omega (arith, far)))
        (named 1023 254 63 (omega arith) (omega arith) (omega arith) ∙ omega (arith, far))
  | inr near ↦ rw (ltb-false 1023 (lba / (255 * 63)) (omega (arith, near))) (
      named (lba / (255 * 63)) (lba / 63 % 255) (lba % 63 + 1) (omega (arith, near)) (omega arith)
        (omega arith)
      ∙ omega (arith, near))
]
