-- ===== src/Mount/Updates.antt =====
-- One block of `write_bytes`: its bytes, and those of the input that it takes.
use or_isy_vra.Base.{
  ℕ, ◌+◌, ◌-◌, ◌≤◌, ◌<◌, ◌≡◌, ◌⊎◌, refl, ◌∙◌, arith, List, ◌++◌, length, replicate, get_or, All,
  Option, none, some, length-replicate, length-append, length-take, All-take, All-append,
  All-replicate,
}
use or_isy_vra.Base.Words.{IsByte}
use or_isy_vra.Base.Bytes.{
  slice, copy_at, length-copy_at, copy_at-IsByte, slice-IsByte, length-slice,
}
use or_isy_vra.Base.Results.{ok}
use or_isy_vra.Mount.{resize, or_zeros}
use or_isy_vra.Mount.Copies.{
  get_or-replicate, get_or-slice, get_or-resize, copy_at-outside, copy_at-inside,
}
use or_isy_vra.Mount.Reading.{block_byte}

pub length-resize : (n : ℕ) (bytes : List ℕ) → length (resize n bytes) ≡ n
length-resize n bytes =
    length-take n (bytes ++ replicate (n - length bytes) 0)
    ∙ omega (
      arith,
      length-append bytes (replicate (n - length bytes) 0),
      length-replicate {A = ℕ} (n - length bytes) 0,
    )

module _ (input : List ℕ) (block_offset done taken block_len : ℕ) (o : Option (List ℕ))
    (room : block_offset + taken ≤ block_len) (enough : done + taken ≤ length input) where
  abbrev old_block : List ℕ
  old_block = resize block_len (or_zeros block_len o)

  abbrev pub new_block : List ℕ
  new_block = copy_at block_offset (slice done (done + taken) input) old_block

  taken-size : length (slice done (done + taken) input) ≡ taken
  taken-size = length-slice done (done + taken) input enough ∙ omega arith

  pub length-new_block : length new_block ≡ block_len
  length-new_block =
      length-copy_at block_offset (slice done (done + taken) input) old_block
      ∙ length-resize block_len (or_zeros block_len o)

  pub new_block-inside :
      (k : ℕ) → k < taken → get_or new_block (block_offset + k) 0 ≡ get_or input (done + k) 0
  new_block-inside k h =
      copy_at-inside block_offset k (slice done (done + taken) input) old_block
        (omega (arith, h, taken-size))
        (omega (arith, room, taken-size, length-resize block_len (or_zeros block_len o)))
      ∙ get_or-slice input done (done + taken) k (omega (arith, h))

  pub new_block-outside :
      (k : ℕ)
      → k < block_len
      → (k < block_offset) ⊎ (block_offset + taken ≤ k)
      → get_or new_block k 0 ≡ block_byte (ok o) k
  new_block-outside k l h =
      copy_at-outside block_offset k (slice done (done + taken) input) old_block
        (omega (arith, h, taken-size))
      ∙ get_or-resize (or_zeros block_len o) block_len k l
      ∙ old_byte o
    where
      old_byte : (o : Option (List ℕ)) → get_or (or_zeros block_len o) k 0 ≡ block_byte (ok o) k
      old_byte none = get_or-replicate block_len k 0
      old_byte (some block) = refl

  pub new_block-IsByte : All IsByte input → All IsByte (or_zeros block_len o) → All IsByte new_block
  new_block-IsByte h h' =
      copy_at-IsByte block_offset (slice done (done + taken) input) old_block
        (slice-IsByte done (done + taken) input h)
        (All-take IsByte block_len _ (
          All-append IsByte (or_zeros block_len o)
            (replicate (block_len - length (or_zeros block_len o)) 0) h'
            (All-replicate IsByte (block_len - length (or_zeros block_len o)) 0 (omega arith))))
