-- ===== src/Volume/Store/View.antt =====
-- The volume as a map from indexes to blocks.
use or_isy_vra.Base.{
  ℕ, ◌<◌, ◌≡◌, ◌≢◌, refl, ap, sym, ◌∙◌, arith, inl, inr, List, [], ◌∷◌, All, Option, none, some,
  true, false, ◌==◌, leb, Bool-cases, if◌then◌else◌,
}
use or_isy_vra.Base.Results.{ok, ◌>>=◌}
use or_isy_vra.Crypto.{Crypto}
use or_isy_vra.Volume.Layout.{VolumeResult, block_count}
use or_isy_vra.Volume.Log.{Index, RecordIndex, get}
use or_isy_vra.Volume.Blocks.{Volume, read_indexed, read_block, validate_block_index}
use or_isy_vra.Volume.Store.Commit.{Blocks, insert_all}
use or_isy_vra.Volume.Store.Reopen.{SameLog}
use or_isy_vra.Volume.Store.Records.{keys_of, get-insert_all_ne}
use or_isy_vra.Volume.Store.Transaction.{Stored, Stored-same, read_indexed-Stored}
use or_isy_vra.Volume.Store.Located.{AllStored}
use or_isy_vra.Volume.Store.Committed.{behind_transaction}

abbrev pub Answer : Type 0
Answer = VolumeResult (Option (List ℕ))

-- The map of blocks with those of a transaction, at one index.
abbrev pub updated : Blocks → Answer → ℕ → Answer
updated [] before j = before
updated ((i, plaintext) ∷ blocks) before j =
    let rest = updated blocks before j in if i == j then ok (some plaintext) else rest

pub updated_lem :
    (blocks : Blocks) (j : ℕ) (now before : Answer)
    → All (λ p. p.0 ≡ j → now ≡ ok (some p.1)) blocks
    → (All (λ k. k ≢ j) (keys_of blocks) → now ≡ before)
    → now ≡ updated blocks before j
updated_lem [] j now before written other = other tt
updated_lem ((i, plaintext) ∷ blocks) j now before written other = elim (Bool-cases (i == j)) [
  | inl same ↦ rw same (written.0 (same_key same))
  | inr differs ↦
      rw differs
        (updated_lem blocks j now before written.1 (λ rest. other (other_key differs, rest)))
]
  where
    same_key : i == j ≡ true → i ≡ j
    same_key h = ground arith

    other_key : i == j ≡ false → i ≢ j
    other_key h = ground arith

pub map-All₂ :
    {P P' Q : ℕ × List ℕ → Type 0} (blocks : Blocks)
    → ((p : ℕ × List ℕ) → P p → P' p → Q p)
    → All P blocks
    → All P' blocks
    → All Q blocks
map-All₂ [] f all all' = tt
map-All₂ (p ∷ blocks) f all all' = (f p all.0 all'.0, map-All₂ blocks f all.1 all'.1)

module _ (c : Crypto) (v : Volume) (content content' : List ℕ) where
  -- The end of the log and the entries of a transaction behind which the blocks are stored.
  module _ (end : ℕ) (entries : Index) where
    abbrev v' : Volume
    v' = behind_transaction c v end entries

    read_indexed-same :
        (j : ℕ) (o : Option RecordIndex)
        → read_indexed c v' j o content' ≡ read_indexed c v j o content'
    unfolding read_indexed
    read_indexed-same j none = refl
    read_indexed-same j (some e) = refl

    pub read_new :
        (i : ℕ) (plaintext : List ℕ)
        → i < block_count v.bootstrap
        → Stored c v content' end (insert_all entries v.index) i plaintext
        → read_block c v' i content' ≡ ok (some plaintext)
    unfolding read_block validate_block_index
    read_new i plaintext inside s = rw (in_range i (block_count v.bootstrap) inside) (
        read_indexed-same i (get i (insert_all entries v.index))
        ∙ read_indexed-Stored c v content' end (insert_all entries v.index) i plaintext s)
      where
        in_range : (i n : ℕ) → i < n → leb n i ≡ false
        in_range i n h = ground arith

    absent : (j : ℕ) → read_indexed c v j none content' ≡ read_indexed c v j none content
    unfolding read_indexed
    absent j = refl

    pub read_old :
        (j : ℕ)
        → SameLog v.state.committed_end content content'
        → AllStored c v content v.state.committed_end v.index
        → All (λ k. k ≢ j) (keys_of entries)
        → read_block c v' j content' ≡ read_block c v j content
    unfolding read_block validate_block_index
    read_old j same all ne =
        ap (λ t. validate_block_index v j >>= λ _. t)
          (read_indexed-same j (get j (insert_all entries v.index))
            ∙ ap (λ o. read_indexed c v j o content') (get-insert_all_ne j entries v.index ne)
            ∙ kept (get j v.index) refl)
      where
        kept :
            (o : Option RecordIndex)
            → get j v.index ≡ o
            → read_indexed c v j (get j v.index) content'
              ≡ read_indexed c v j (get j v.index) content
        kept none e = rw e (absent j)
        kept (some r) e =
            let (p, s) = all j r e in
            read_indexed-Stored c v content' v.state.committed_end v.index j p
              (Stored-same c v content content' v.state.committed_end v.index j p same s)
            ∙ sym (read_indexed-Stored c v content v.state.committed_end v.index j p s)
