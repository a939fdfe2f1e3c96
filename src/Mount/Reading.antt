-- ===== src/Mount/Reading.antt =====
-- `read_bytes` gives the bytes of the volume.
use or_isy_vra.Base.{
  ℕ, zero, suc, ◌+◌, ◌-◌, ◌*◌, ◌/◌, ◌%◌, ◌^◌, ◌≤◌, ◌<◌, ◌≡◌, ◌⊎◌, inl, inr, refl, ap, ap₂, sym, ◌∙◌,
  arith, List, length, replicate, get_or, Option, none, some, true, false, ltb, leb, ◌==◌,
  ltb-false, lt→ltb, ltb→lt, min, length-replicate, Bool-cases, le-cases, if◌then◌else◌,
  Option-cases,
}
use native.Mathlib.Nat.{div-lt_iff_lt-mul}
use or_isy_vra.Base.Bytes.{slice, copy_at, length-copy_at, length-slice}
use or_isy_vra.Base.Results.{ok, err, stuck}
use or_isy_vra.Crypto.{Crypto}
use or_isy_vra.Volume.Layout.{VolumeResult, Bootstrap, block_count}
use or_isy_vra.Volume.Log.{get}
use or_isy_vra.Volume.Blocks.{Volume, read_block, read_indexed, validate_block_index}
use or_isy_vra.Volume.Store.Reopen.{Backs}
use or_isy_vra.Volume.Store.Transaction.{read_indexed-Stored}
use or_isy_vra.Volume.Store.Located.{Steps-Stored, scan_log-Steps}
use or_isy_vra.Volume.Store.View.{Answer}
use or_isy_vra.Mount.{add_block, read_loop, read_bytes}
use or_isy_vra.Mount.Copies.{
  get_or-beyond, get_or-replicate, get_or-slice, copy_at-outside, copy_at-inside, div_place,
  same_block,
}

-- A byte of a block; a block that is not there, or is shorter, has zeros.
abbrev pub block_byte : Answer → ℕ → ℕ
block_byte (ok none) k = 0
block_byte (ok (some block)) k = get_or block k 0
block_byte (err e) k = 0
block_byte stuck k = 0

-- The volume as a string of bytes.
abbrev pub byte_view : Crypto → Volume → List ℕ → ℕ → ℕ
byte_view c v content a =
    block_byte (read_block c v (a / v.bootstrap.block_size) content) (a % v.bootstrap.block_size)

module _ (output : List ℕ) (block_offset taken done : ℕ) (room : done + taken ≤ length output) where
  length-add_block :
      (o : Option (List ℕ)) → length (add_block o block_offset taken done output) ≡ length output
  unfolding add_block
  length-add_block none = refl
  length-add_block (some block) =
      elim (Bool-cases (ltb 0 (min (length block - block_offset) taken))) [
        | inl some_bytes ↦ rw some_bytes (length-copy_at done _ output)
        | inr no_bytes ↦ rw no_bytes refl
      ]

  module _ (block : List ℕ) where
    abbrev available : ℕ
    available = min (length block - block_offset) taken

    abbrev copied : List ℕ
    copied = slice block_offset (block_offset + available) block

    length-copied : ltb 0 available ≡ true → length copied ≡ available
    length-copied h =
        let positive : 0 < available = ltb→lt 0 available h in
        length-slice block_offset (block_offset + available) block (omega (arith, positive))
        ∙ omega arith

    copied-byte :
        (k : ℕ)
        → k < taken
        → ltb 0 available ≡ true
        → get_or output (done + k) 0 ≡ 0
        → get_or (copy_at done copied output) (done + k) 0 ≡ get_or block (block_offset + k) 0
    copied-byte k inside h zeros = elim (le-cases available k) [
      | inl behind ↦
          copy_at-outside done (done + k) copied output
            (inr (omega (arith, length-copied h, behind)))
          ∙ zeros
          ∙ sym (get_or-beyond block (block_offset + k) 0 (omega (arith, behind, inside)))
      | inr there ↦
          copy_at-inside done k copied output (omega (arith, length-copied h, there))
            (omega (arith, length-copied h, room))
          ∙ get_or-slice block block_offset (block_offset + available) k (omega (arith, there))
    ]

  add_block-inside :
      (o : Option (List ℕ)) (k : ℕ)
      → k < taken
      → get_or output (done + k) 0 ≡ 0
      → get_or (add_block o block_offset taken done output) (done + k) 0
        ≡ block_byte (ok o) (block_offset + k)
  unfolding add_block
  add_block-inside none k inside zeros = zeros
  add_block-inside (some block) k inside zeros = elim (Bool-cases (ltb 0 (available block))) [
    | inl some_bytes ↦ rw some_bytes (copied-byte block k inside some_bytes zeros)
    | inr no_bytes ↦ rw no_bytes (
        zeros
        ∙ sym (
            get_or-beyond block (block_offset + k) 0
              (omega (arith, nothing_there (length block - block_offset) taken no_bytes inside))))
  ]
    where
      nothing_there : (a b : ℕ) → ltb 0 (min a b) ≡ false → k < b → a ≡ 0
      nothing_there a b h l = ground arith

  add_block-outside :
      (o : Option (List ℕ)) (k : ℕ)
      → (k < done) ⊎ (done + taken ≤ k)
      → get_or (add_block o block_offset taken done output) k 0 ≡ get_or output k 0
  unfolding add_block
  add_block-outside none k h = refl
  add_block-outside (some block) k h = elim (Bool-cases (ltb 0 (available block))) [
    | inl some_bytes ↦ rw some_bytes (
        copy_at-outside done k (copied block) output
          (omega (arith, h, length-copied block some_bytes)))
    | inr no_bytes ↦ rw no_bytes refl
  ]

module _ (b : Bootstrap) (positive : 0 < b.block_size) where
  pub in_capacity : (a : ℕ) → a < b.logical_capacity → a / b.block_size < block_count b
  unfolding block_count
  in_capacity a h =
      let whole = div_place b.block_size positive b.logical_capacity in
      (div-lt_iff_lt-mul positive).1 (
        below b.block_size (b.logical_capacity / b.block_size) (b.logical_capacity % b.block_size)
          whole.0 whole.1)
    where
      below :
          (n q r : ℕ)
          → q * n + r ≡ b.logical_capacity
          → r < n
          → a < (q + (if r == 0 then 0 else 1)) * n
      below n q zero e l = omega (arith, e, h)
      below n q (suc r) e l =
          let one_more : ◌≡◌ {A = ℕ} (if suc r == 0 then 0 else 1) 1 = ground arith in
          rw one_more (omega (arith, e, h, l))

module _ (c : Crypto) (v : Volume) (content : List ℕ) where
  -- Every block inside the volume can be read.
  abbrev pub Readable : Type 0
  Readable =
      (i : ℕ)
      → i < block_count v.bootstrap
      → (o : Option (List ℕ)) × (read_block c v i content ≡ ok o)

  pub Backs-Readable : Backs c v content → Readable
  unfolding read_block validate_block_index read_indexed
  Backs-Readable backs i inside =
      let all =
        Steps-Stored c v content v.state.committed_end
          (scan_log-Steps c v.bootstrap v.keys v.state content v.index backs.log) in
      rw (in_range i (block_count v.bootstrap) inside) (elim (Option-cases (get i v.index)) [
        | inl absent ↦ (none, rw absent refl)
        | inr (e, found) ↦
            let (p, s) = all i e found in
            (some p, read_indexed-Stored c v content v.state.committed_end v.index i p s)
      ])
    where
      in_range : (i n : ℕ) → i < n → leb n i ≡ false
      in_range i n h = ground arith

  -- What was read: all bytes of the range.
  pub record HasRead (offset n : ℕ) (r : VolumeResult Unit × List ℕ) : Type 0 where
    pub fine : r.0 ≡ ok tt
    pub size : length r.1 ≡ n
    pub bytes : (k : ℕ) → k < n → get_or r.1 k 0 ≡ byte_view c v content (offset + k)

  module _ (readable : Readable) (positive : 0 < v.bootstrap.block_size) (offset n : ℕ)
      (inside : offset + n ≤ v.bootstrap.logical_capacity) where
    read_loop_lem :
        (fuel done : ℕ) (output : List ℕ)
        → length output ≡ n
        → done ≤ n
        → n < fuel + done
        → ((k : ℕ) → k < done → get_or output k 0 ≡ byte_view c v content (offset + k))
        → ((k : ℕ) → done ≤ k → get_or output k 0 ≡ 0)
        → HasRead offset n (read_loop c v content offset fuel done output)
    unfolding read_loop
    read_loop_lem zero done output size le enough before behind = absurd (omega (arith, le, enough))
    read_loop_lem (suc fuel) done output size le enough before behind = elim (le-cases n done) [
      | inl over ↦
          rw (ltb-false done (length output) (omega (arith, size, over)))
            (record { fine = refl; size = size; bytes = λ k h. before k (omega (arith, h, over)) })
      | inr more ↦
          let bs = v.bootstrap.block_size in
          let at = offset + done in
          let bo = at % bs in
          let taken = min (length output - done) (bs - bo) in
          let place = div_place bs positive at in
          let room : done + taken ≤ length output = omega (arith, size, le) in
          let (o, read) =
            readable (at / bs)
              (in_capacity v.bootstrap positive at (omega (arith, more, inside))) in
          let next = add_block o bo taken done output in
          let rest =
            read_loop_lem fuel (done + taken) next
              (length-add_block output bo taken done room o ∙ size) (omega (arith, room, size))
              (omega (arith, enough, more, size, place.1))
              (λ k h. elim (le-cases done k) [
                | inr earlier ↦
                    add_block-outside output bo taken done room o k (inl earlier) ∙ before k earlier
                | inl now ↦
                    let j = k - done in
                    let same = same_block bs positive at j (omega (arith, h, now)) in
                    ap (λ (t : ℕ). get_or next t 0) {x = k} {y = done + j} (omega (arith, now))
                    ∙ add_block-inside output bo taken done room o j (omega (arith, h, now))
                        (behind (done + j) (omega arith))
                    ∙ ap₂ block_byte (sym read) (sym same.1)
                    ∙ ap (λ (t : ℕ). block_byte (read_block c v t content) ((at + j) % bs))
                        (sym same.0)
                    ∙ ap (byte_view c v content) {x = at + j} {y = offset + k} (omega (arith, now))
              ])
              (λ k h.
                add_block-outside output bo taken done room o k (inr h)
                ∙ behind k (omega (arith, h))) in
          rw (lt→ltb done (length output) (omega (arith, size, more))) (rw read rest)
    ]

  read_bytes-inside :
      (offset : ℕ) (output : List ℕ)
      → offset + length output ≤ v.bootstrap.logical_capacity
      → v.bootstrap.logical_capacity < 2 ^ 64
      → read_bytes c v content offset output
        ≡ read_loop c v content offset (length output + 1) 0 (replicate (length output) 0)
  unfolding read_bytes
  read_bytes-inside offset output inside small =
      rw (lt→ltb (offset + length output) (2 ^ 64) (omega (arith, inside, small)), read_bytes)
        (rw (ltb-false v.bootstrap.logical_capacity (offset + length output) inside, read_bytes)
          refl)

  -- For a volume over a file that backs it, `read_bytes` of a range inside its capacity succeeds; the
  -- output keeps its length, and each byte of it is that of the volume: of the block that has it, or
  -- zero where the block was never written or is shorter.
  pub read_bytes_lem :
      (offset : ℕ) (output : List ℕ)
      → Backs c v content
      → 0 < v.bootstrap.block_size
      → offset + length output ≤ v.bootstrap.logical_capacity
      → v.bootstrap.logical_capacity < 2 ^ 64
      → HasRead offset (length output) (read_bytes c v content offset output)
  read_bytes_lem offset output backs positive inside small =
      rw (read_bytes-inside offset output inside small) (
        read_loop_lem (Backs-Readable backs) positive offset (length output) inside
          (length output + 1) 0 (replicate (length output) 0)
          (length-replicate {A = ℕ} (length output) 0) (omega arith) (omega arith)
          (λ k h. absurd (omega (arith, h))) (λ k h. get_or-replicate (length output) k 0))
