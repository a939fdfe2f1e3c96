-- ===== src/Volume/Store/Located.antt =====
-- The index of a log: every entry is that of a record that can be read.
use or_isy_vra.Base.{
  ℕ, ◌+◌, ◌^◌, ◌≤◌, ◌<◌, ◌≡◌, ◌≢◌, refl, ap, sym, ◌∙◌, arith, inl, inr, List, [], Option, none,
  some, true, false, not, ◌||◌, ==_self, ◌==◌, Bool-cases,
}
use or_isy_vra.Base.Results.{Result, ok, bind-eq-ok, fail_if-eq-ok, ok_injective}
use or_isy_vra.Crypto.{Crypto}
use or_isy_vra.Volume.Layout.{VolumeError, Bootstrap, RecordHeader, SuperState, corrupt, log_start}
use or_isy_vra.Volume.Seals.{VolumeKeys}
use or_isy_vra.Volume.Log.{Index, RecordIndex, get, insert, read_record_at, scan_loop, scan_log}
use or_isy_vra.Volume.Blocks.{Volume}
use or_isy_vra.Volume.Store.Steps.{
  Steps, arrived, step, entry_of, behind, scan_loop-Steps, Steps-scan_loop,
}
use or_isy_vra.Volume.Store.Records.{get-insert_self, get-insert_ne}
use or_isy_vra.Volume.Store.Transaction.{Stored}

same_key : (i j : ℕ) → i == j ≡ true → i ≡ j
same_key i j h = ground arith

other_key : (i j : ℕ) → i == j ≡ false → i ≢ j
other_key i j h = ground arith

none≢some : (e : RecordIndex) → ◌≢◌ {A = Option RecordIndex} none (some e)
none≢some e h = ground arith

some_injective : (e e' : RecordIndex) → ◌≡◌ {A = Option RecordIndex} (some e) (some e') → e ≡ e'
some_injective e e' h = ground arith

module _ (c : Crypto) (v : Volume) (content : List ℕ) (end : ℕ) where
  -- Every entry of the index is stored.
  abbrev pub AllStored : Index → Type 0
  AllStored index =
      (i : ℕ) (e : RecordIndex)
      → get i index ≡ some e
      → (plaintext : List ℕ) × Stored c v content end index i plaintext

  AllStored-nil : AllStored []
  unfolding get
  AllStored-nil i e h = absurd (none≢some e h)

  stored_other :
      (i j : ℕ) (e : RecordIndex) (index : Index) (plaintext : List ℕ)
      → i ≢ j
      → Stored c v content end index j plaintext
      → Stored c v content end (insert i e index) j plaintext
  stored_other i j e index plaintext ne s = record {
    offset = s.offset;
    head = s.head;
    found = get-insert_ne i j e index ne ∙ s.found;
    own = s.own;
    low = s.low;
    high = s.high;
    read = s.read;
  }

  AllStored-insert :
      (offset : ℕ) (h : RecordHeader) (plaintext : List ℕ) (index : Index)
      → read_record_at c v.bootstrap v.keys offset content ≡ ok (h, plaintext)
      → log_start ≤ offset
      → behind offset h ≤ end
      → AllStored index
      → AllStored (insert h.block_index (entry_of offset h) index)
  AllStored-insert offset h plaintext index read low high all j e found =
      elim (Bool-cases (h.block_index == j)) [
        | inl same ↦ (
          plaintext,
          record {
            offset = offset;
            head = h;
            found =
                ap (λ t. get t (insert h.block_index (entry_of offset h) index))
                  (sym (same_key h.block_index j same))
                ∙ get-insert_self h.block_index (entry_of offset h) index;
            own = same_key h.block_index j same;
            low = low;
            high = high;
            read = read;
          },
        )
        | inr other ↦
            let ne = other_key h.block_index j other in
            let (p, s) =
              all j e (sym (get-insert_ne h.block_index j (entry_of offset h) index ne) ∙ found) in
            (p, stored_other h.block_index j (entry_of offset h) index p ne s)
      ]

  -- Steps from record to record lead to an index with that property.
  Steps-AllStored :
      {total : ℕ} {final : Index} {offset count : ℕ} {index : Index}
      → Steps c v.bootstrap v.keys content end total final offset count index
      → log_start ≤ offset
      → AllStored index
      → AllStored final
  Steps-AllStored (arrived offset count index o n i) low all = rw (← i) all
  Steps-AllStored (step offset count index h p read g le s) low all =
      Steps-AllStored s (omega (arith, low)) (AllStored-insert offset h p index read low le all)

  pub Steps-Stored :
      {total : ℕ} {final : Index}
      → Steps c v.bootstrap v.keys content end total final log_start 0 []
      → AllStored final
  Steps-Stored s = Steps-AllStored s (omega arith) AllStored-nil

module _ (c : Crypto) (b : Bootstrap) (keys : VolumeKeys) (st : SuperState) (content : List ℕ) where
  same_ends :
      (offset end count total : ℕ)
      → not (offset == end) || not (count == total) ≡ false
      → (offset ≡ end) × (count ≡ total)
  same_ends offset end count total h = (ground arith, ground arith)

  -- A scan that succeeded, as steps to the state's end and count.
  pub scan_log-Steps :
      (index : Index)
      → scan_log c b keys st content ≡ ok index
      → Steps c b keys content st.committed_end st.record_count index log_start 0 []
  unfolding scan_log
  scan_log-Steps index e =
      let ((offset, count, found), e0, r0) =
        bind-eq-ok
          (scan_loop c b keys (st.committed_end + 1) content st.committed_end log_start 0 []) _ _
          e in
      let (e1, r1) =
        fail_if-eq-ok (not (offset == st.committed_end) || not (count == st.record_count))
          (corrupt "committed log accounting mismatch") _ r0 in
      let (o, n) = same_ends offset st.committed_end count st.record_count e1 in
      scan_loop-Steps c b keys content (st.committed_end + 1) log_start 0 [] st.committed_end
        st.record_count index (e0 ∙ finish offset count found o n (ok_injective r1))
    where
      finish :
          (offset count : ℕ) (found : Index)
          → offset ≡ st.committed_end
          → count ≡ st.record_count
          → found ≡ index
          → ◌≡◌ {A = Result VolumeError (ℕ × ℕ × Index)}
              (ok (offset, count, found))
              (ok (st.committed_end, st.record_count, index))
      finish offset count found o n i = rw o (rw n (rw i refl))

  pub Steps-scan_log :
      (index : Index)
      → st.committed_end < 2 ^ 64
      → Steps c b keys content st.committed_end st.record_count index log_start 0 []
      → scan_log c b keys st content ≡ ok index
  unfolding scan_log
  Steps-scan_log index small s =
      rw (Steps-scan_loop c b keys content s (st.committed_end + 1) small (omega arith))
        (rw (==_self st.committed_end) (rw (==_self st.record_count) refl))
