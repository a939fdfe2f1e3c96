-- ===== src/Volume/Store/Transaction.antt =====
-- All records of a transaction: the log behind them, and what each block reads as.
use or_isy_vra.Base.{
  ℕ, suc, ◌+◌, ◌-◌, ◌*◌, ◌^◌, ◌≤◌, ◌<◌, ◌≡◌, ◌≢◌, refl, ap, sym, ◌∙◌, arith, List, [], ◌∷◌, length,
  All, some, ==_self,
}
use native.Mathlib.Nat.{add-zero}
use or_isy_vra.Base.Bytes.{IsBytes, slice}
use or_isy_vra.Base.Slices.{slice-slice}
use or_isy_vra.Base.Results.{ok}
use or_isy_vra.Crypto.{Crypto, IsAead, HasDigests}
use or_isy_vra.Volume.Layout.{RecordHeader, max_block_size, log_start}
use or_isy_vra.Volume.Device.{pure, ◌>>=◌}
use or_isy_vra.Volume.Log.{
  Index, RecordIndex, get, insert, read_record_at, check_generation, saturating_add,
}
use or_isy_vra.Volume.Blocks.{Volume, read_indexed}
use or_isy_vra.Volume.Store.Commit.{Blocks, write_record, write_records, insert_all}
use or_isy_vra.Volume.Store.Reopen.{SameLog, read_record_at-same}
use or_isy_vra.Volume.Store.ReadBack.{sound, header}
use or_isy_vra.Volume.Store.Steps.{Steps, entry_of, behind, Steps-snoc, Steps-same}
use or_isy_vra.Volume.Store.Records.{
  get-insert_self, get-insert_ne, get-insert_all_ne, keys_of, next-fresh, IsBlock, writes_record,
}

-- Every index stands once in a transaction.
abbrev pub Distinct : List ℕ → Type 0
Distinct [] = Unit
Distinct (k ∷ ks) = All (λ j. j ≢ k) ks × Distinct ks

module _ (end end' : ℕ) (shorter : end ≤ end') (low : log_start ≤ end) where
  head_of :
      (xs : List ℕ) → slice log_start end xs ≡ slice 0 (end - log_start) (slice log_start end' xs)
  head_of xs =
      ap (λ (t : ℕ). slice log_start t xs) {x = end} {y = log_start + (end - log_start)}
        (omega arith)
      ∙ sym (slice-slice log_start end' 0 (end - log_start) xs (omega arith) (omega arith))

  pub SameLog-shorter : {xs ys : List ℕ} → SameLog end' xs ys → SameLog end xs ys
  SameLog-shorter {xs} {ys} s = record {
    log = head_of ys ∙ ap (slice 0 (end - log_start)) s.log ∙ sym (head_of xs);
    long = omega (arith, s.long);
    long' = omega (arith, s.long');
  }

pub SameLog-trans :
    {end : ℕ} {xs ys zs : List ℕ} → SameLog end xs ys → SameLog end ys zs → SameLog end xs zs
SameLog-trans s t = record { log = t.log ∙ s.log; long = s.long; long' = t.long' }

module _ (c : Crypto) (v : Volume) where
  -- The index has an entry for the block, and its record reads as the plaintext.
  pub record Stored (content : List ℕ) (end : ℕ) (index : Index) (i : ℕ) (plaintext : List ℕ)
      : Type 0 where
    pub offset : ℕ
    pub head : RecordHeader
    pub found : get i index ≡ some (entry_of offset head)
    pub own : head.block_index ≡ i
    pub low : log_start ≤ offset
    pub high : behind offset head ≤ end
    pub read : read_record_at c v.bootstrap v.keys offset content ≡ ok (head, plaintext)

  pub Stored-same :
      (content content' : List ℕ) (end : ℕ) (index : Index) (i : ℕ) (plaintext : List ℕ)
      → SameLog end content content'
      → Stored content end index i plaintext
      → Stored content' end index i plaintext
  Stored-same content content' end index i plaintext same s = record {
    offset = s.offset;
    head = s.head;
    found = s.found;
    own = s.own;
    low = s.low;
    high = s.high;
    read =
        read_record_at-same end content content' same c v.bootstrap v.keys s.offset s.head plaintext
          s.low s.high s.read;
  }

  pub read_indexed-Stored :
      (content : List ℕ) (end : ℕ) (index : Index) (i : ℕ) (plaintext : List ℕ)
      → Stored content end index i plaintext
      → read_indexed c v i (get i index) content ≡ ok (some plaintext)
  unfolding read_indexed
  read_indexed-Stored content end index i plaintext s = rw s.found (
      rw s.read (
        rw s.own (
          rw (==_self i) (
            rw (==_self s.head.generation)
              (rw (==_self s.head.plaintext_len) (rw (==_self s.head.ciphertext_len) refl))))))

  -- The index says of the blocks what the volume's index says.
  abbrev pub Agree : Index → Blocks → Type 0
  Agree index = All (λ p. get p.0 index ≡ get p.0 v.index)

  Agree-insert :
      (i : ℕ) (e : RecordIndex) (index : Index) (blocks : Blocks)
      → All (λ j. j ≢ i) (keys_of blocks)
      → Agree index blocks
      → Agree (insert i e index) blocks
  Agree-insert i e index [] ne agree = tt
  Agree-insert i e index ((j, p) ∷ blocks) ne agree = (
    get-insert_ne i j e index (λ same. ne.0 (sym same)) ∙ agree.0,
    Agree-insert i e index blocks ne.1 agree.1,
  )

  write_records-nil :
      (offset : ℕ) (content : List ℕ)
      → write_records c v offset [] (sound content) ≡ (ok ([], offset), sound content)
  unfolding write_records pure
  write_records-nil offset content = refl

  write_records-cons :
      (offset i : ℕ) (plaintext : List ℕ) (blocks : Blocks) (content content1 content' : List ℕ)
      (e : ℕ × RecordIndex) (next : ℕ) (entries : Index) (end : ℕ)
      → write_record c v offset i plaintext (sound content) ≡ (ok (e, next), sound content1)
      → write_records c v next blocks (sound content1) ≡ (ok (entries, end), sound content')
      → write_records c v offset ((i, plaintext) ∷ blocks) (sound content)
        ≡ (ok (e ∷ entries, end), sound content')
  unfolding write_records pure ◌>>=◌
  write_records-cons offset i plaintext blocks content content1 content' e next entries end first
        rest =
      rw first (rw rest refl)

  module _ (offset total : ℕ) (index : Index) (blocks : Blocks) (content : List ℕ) where
    pub record Appended : Type 0 where
      pub entries : Index
      pub end : ℕ
      pub content' : List ℕ
      pub run :
          write_records c v offset blocks (sound content) ≡ (ok (entries, end), sound content')
      pub steps :
          Steps c v.bootstrap v.keys content' end
            (total + length blocks)
            (insert_all entries index)
            log_start
            0
            []
      pub keys : keys_of entries ≡ keys_of blocks
      pub counted : length entries ≡ length blocks
      pub kept : SameLog offset content content'
      pub forward : offset ≤ end
      pub long : end ≤ length content'
      pub bounded : end ≤ offset + length blocks * 2 ^ 25
      pub stored : All (λ p. Stored content' end (insert_all entries index) p.0 p.1) blocks

  module _ (aead : IsAead c) (digests : HasDigests c) (key : IsBytes 32 v.keys.key)
      (block : v.bootstrap.block_size ≤ max_block_size) where
    pub append_records :
        (offset total : ℕ) (index : Index) (blocks : Blocks) (content : List ℕ)
        → Distinct (keys_of blocks)
        → All (λ p. IsBlock v p.0 p.1) blocks
        → Agree index blocks
        → log_start ≤ offset
        → offset ≤ length content
        → offset + length blocks * 2 ^ 25 < 2 ^ 64
        → total + length blocks < 2 ^ 64
        → Steps c v.bootstrap v.keys content offset total index log_start 0 []
        → Appended offset total index blocks content
    unfolding insert_all
    append_records offset total index [] content distinct good agree low long room few steps =
        record {
          entries = [];
          end = offset;
          content' = content;
          run = write_records-nil offset content;
          steps = rw (add-zero total) steps;
          keys = refl;
          counted = refl;
          kept = record { log = refl; long = long; long' = long };
          forward = omega arith;
          long = long;
          bounded = omega arith;
          stored = tt;
        }
    append_records offset total index ((i, plaintext) ∷ blocks) content distinct good agree low long
          room few steps =
        let (g, fresh) = good.0.generation in
        let small : length plaintext ≤ max_block_size = omega (arith, good.0.fits, block) in
        let w =
          writes_record c v aead digests key block offset i g plaintext content good.0 fresh low
            long (omega (arith, room)) in
        let h = header c v offset i g plaintext content in
        let next = behind offset h in
        let index1 = insert i (entry_of offset h) index in
        let again : check_generation (get i index) g ≡ ok tt =
          rw agree.0 (next-fresh (get i v.index) g fresh) in
        let steps1 =
          Steps-snoc c v.bootstrap v.keys w.content' h plaintext
            (Steps-same c v.bootstrap v.keys content w.content' w.kept (omega arith) steps) w.read
            again in
        let one_more : saturating_add total 1 ≡ total + 1 = omega (arith, few) in
        let rest =
          append_records next (total + 1) index1 blocks w.content' distinct.1 good.1
            (Agree-insert i (entry_of offset h) index blocks distinct.0 agree.1)
            (omega (arith, low)) w.long (omega (arith, room, small)) (omega (arith, few))
            (rw one_more at steps1) in
        let total' : total + 1 + length blocks ≡ total + suc (length blocks) = omega arith in
        record {
          entries = (i, entry_of offset h) ∷ rest.entries;
          end = rest.end;
          content' = rest.content';
          run =
              write_records-cons offset i plaintext blocks content w.content' rest.content' _ next
                rest.entries rest.end w.run rest.run;
          steps = rw total' at rest.steps;
          keys = ap (λ t. i ∷ t) rest.keys;
          counted = ap suc rest.counted;
          kept = SameLog-trans w.kept (SameLog-shorter offset next (omega arith) low rest.kept);
          forward = omega (arith, rest.forward);
          long = rest.long;
          bounded = omega (arith, rest.bounded, small);
          stored = (
            record {
              offset = offset;
              head = h;
              found =
                  get-insert_all_ne i rest.entries index1 (rw rest.keys distinct.0)
                  ∙ get-insert_self i (entry_of offset h) index;
              own = refl;
              low = low;
              high = rest.forward;
              read =
                  read_record_at-same next w.content' rest.content' rest.kept c v.bootstrap v.keys
                    offset h plaintext low (omega arith) w.read;
            },
            rest.stored,
          );
        }
