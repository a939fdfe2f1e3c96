-- ===== src/Volume/Store/Crash.antt =====
-- What a transaction leaves alone, wherever it fails: the bootstrap, the active superblock and the
-- committed log.
use or_isy_vra.Base.{
  ℕ, Bool-cases, ◌*◌, replicate, length-replicate, zero, suc, ◌+◌, ◌-◌, ◌≤◌, ◌≡◌, inl, inr, refl,
  ◌∙◌, arith, List, [], ◌∷◌, length, Bool,
}
use or_isy_vra.Base.Bytes.{slice, le_bytes, length-copy_at}
use or_isy_vra.Base.Results.{ok, err, stuck, ok_or, checked_add}
use or_isy_vra.Crypto.{Crypto}
use or_isy_vra.Volume.Layout.{
  VolumeResult, Bootstrap, SuperState, super_slot_size, bootstrap_size, log_start,
  record_header_size, invalid_input,
}
use or_isy_vra.Volume.Device.{Device, write_all, lift}
use or_isy_vra.Volume.Device.Keeps.{
  Has, Apart, Leaves, Leaves-bind, lift-Leaves, pure-Leaves, sync-Leaves, write_all-Leaves,
}
use or_isy_vra.Volume.Seals.{VolumeKeys, super_slot, super_offset}
use or_isy_vra.Volume.Blocks.{Volume}
use or_isy_vra.Volume.Store.{write_superblock}
use or_isy_vra.Volume.Store.Commit.{
  Blocks, validate_blocks, write_record, write_records, transact, write_blocks, change_clean_state,
  after_transact, same_flag, set_clean_state,
}

-- Where `super_offset` puts a slot.
abbrev pub slot_offset : ℕ → ℕ
slot_offset slot = bootstrap_size + slot * super_slot_size

lift_any : {P : List ℕ → Type 0} {A : Type 0} (r : VolumeResult A) → Leaves P (λ _. Unit) (lift r)
lift_any r = lift-Leaves r (λ a e. tt)

pub super_offset-ok : (slot offset : ℕ) → super_offset slot ≡ ok offset → offset ≡ slot_offset slot
unfolding super_offset
super_offset-ok zero offset e = ground arith
super_offset-ok (suc zero) offset e = ground arith
super_offset-ok (suc (suc n)) offset e = absurd (ground arith)

pub super_slot-length :
    (g : ℕ) (ciphertext : List ℕ) → length (super_slot g ciphertext) ≡ super_slot_size
unfolding super_slot
super_slot-length g ciphertext =
    length-copy_at 16 ciphertext _
    ∙ length-copy_at 8 (le_bytes 4 (length ciphertext)) _
    ∙ length-copy_at 0 (le_bytes 8 g) (replicate super_slot_size 0)
    ∙ length-replicate {A = ℕ} super_slot_size 0

module _ (c : Crypto) (lo hi : ℕ) (old : List ℕ) (ordered : lo ≤ hi) where
  write_slot-Leaves :
      (slot offset g : ℕ) (ciphertext : List ℕ)
      → Apart lo hi (slot_offset slot) super_slot_size
      → offset ≡ slot_offset slot
      → Leaves (Has lo hi old) (λ _. Unit) (write_all offset (super_slot g ciphertext))
  write_slot-Leaves slot offset g ciphertext apart e =
      write_all-Leaves lo hi offset old (super_slot g ciphertext) ordered
        (rw e (rw (super_slot-length g ciphertext) apart))

  write_superblock-Leaves :
      (b : Bootstrap) (keys : VolumeKeys) (slot : ℕ) (st : SuperState)
      → Apart lo hi (slot_offset slot) super_slot_size
      → Leaves (Has lo hi old) (λ _. Unit) (write_superblock c b keys slot st)
  unfolding write_superblock
  write_superblock-Leaves b keys slot st apart = Leaves-bind _ _ (lift_any _) (λ ciphertext _.
      Leaves-bind _ _ (lift_any _) (λ _ _.
        Leaves-bind _ _ (lift-Leaves _ (super_offset-ok slot))
          (λ offset e. write_slot-Leaves slot offset st.generation ciphertext apart e)))

  validate_blocks-Leaves :
      (v : Volume) (seen : List ℕ) (blocks : Blocks)
      → Leaves (Has lo hi old) (λ _. Unit) (validate_blocks v seen blocks)
  unfolding validate_blocks
  validate_blocks-Leaves v seen [] = pure-Leaves tt tt
  validate_blocks-Leaves v seen ((block_index, plaintext) ∷ blocks) =
      Leaves-bind _ _ (lift_any _) (λ _ _. Leaves-bind _ _ (lift_any _) (λ _ _.
        Leaves-bind _ _ (lift_any _) (λ _ _. validate_blocks-Leaves v (block_index ∷ seen) blocks)))

  module _ (v : Volume) where
    pub write_record-Leaves :
        (offset block_index : ℕ) (plaintext : List ℕ)
        → hi ≤ offset
        → Leaves
            (Has lo hi old)
            (λ result. offset ≤ result.1)
            (write_record c v offset block_index plaintext)
    unfolding write_record
    write_record-Leaves offset block_index plaintext h =
        Leaves-bind _ _ (lift_any _) (λ generation _.
          Leaves-bind _ _ (lift_any _) (λ plaintext_len _.
            Leaves-bind _ _ (lift_any _) (λ ciphertext_len _.
              Leaves-bind _ _ (lift_any _) (λ ciphertext _.
                Leaves-bind _ _ (write_all-Leaves lo hi offset old _ ordered (inl h)) (λ _ _.
                  Leaves-bind _ _
                    (write_all-Leaves lo hi (offset + record_header_size) old _ ordered
                      (inl (omega arith)))
                    (λ _ _.
                      Leaves-bind _ _ (lift-Leaves _ (sum-le offset record_header_size))
                        (λ behind le.
                          Leaves-bind _ _ (lift-Leaves _ (sum-le behind (length ciphertext)))
                            (λ next le'. pure-Leaves _ (omega (arith, le, le'))))))))))
      where
        sum-le :
            (a b n : ℕ)
            → ok_or (checked_add a b) (invalid_input "volume offset overflow") ≡ ok n
            → a ≤ n
        sum-le a b n e = ground arith

    pub write_records-Leaves :
        (offset : ℕ) (blocks : Blocks)
        → hi ≤ offset
        → Leaves (Has lo hi old) (λ _. Unit) (write_records c v offset blocks)
    unfolding write_records
    write_records-Leaves offset [] h = pure-Leaves _ tt
    write_records-Leaves offset ((block_index, plaintext) ∷ blocks) h =
        Leaves-bind _ _ (write_record-Leaves offset block_index plaintext h) (λ result le.
          Leaves-bind _ _ (write_records-Leaves result.1 blocks (omega (arith, h, le)))
            (λ rest _. pure-Leaves _ tt))

    transact-Leaves :
        (blocks : Blocks)
        → hi ≤ v.state.committed_end
        → Apart lo hi (slot_offset (1 - v.active_super)) super_slot_size
        → Leaves (Has lo hi old) (λ _. Unit) (transact c v blocks)
    unfolding transact
    transact-Leaves blocks h apart = Leaves-bind _ _ (validate_blocks-Leaves v [] blocks) (λ _ _.
        Leaves-bind _ _ (write_records-Leaves v.state.committed_end blocks h) (λ written _.
          Leaves-bind _ _ sync-Leaves (λ _ _. Leaves-bind _ _ (lift_any _) (λ generation _.
            Leaves-bind _ _ (lift_any _) (λ record_count _.
              Leaves-bind _ _ (write_superblock-Leaves v.bootstrap v.keys _ _ apart)
                (λ _ _. pure-Leaves _ tt))))))

    change_clean_state-Leaves :
        (clean : Bool)
        → Apart lo hi (slot_offset (1 - v.active_super)) super_slot_size
        → Leaves (Has lo hi old) (λ _. Unit) (change_clean_state c v clean)
    unfolding change_clean_state
    change_clean_state-Leaves clean apart = Leaves-bind _ _ (lift_any _) (λ _ _.
        Leaves-bind _ _ (write_superblock-Leaves v.bootstrap v.keys _ _ apart)
          (λ _ _. Leaves-bind _ _ sync-Leaves (λ _ _. pure-Leaves _ tt)))

    write_blocks-Has :
        (blocks : Blocks) (d : Device)
        → hi ≤ v.state.committed_end
        → Apart lo hi (slot_offset (1 - v.active_super)) super_slot_size
        → Has lo hi old d.content
        → Has lo hi old (write_blocks c v blocks d).2.content
    unfolding write_blocks
    write_blocks-Has [] d h apart has = has
    write_blocks-Has (block ∷ blocks) d h apart has =
        committed (transact c v (block ∷ blocks) d).0 (transact c v (block ∷ blocks) d).1
          ((transact-Leaves (block ∷ blocks) h apart).device d has)
      where
        committed :
            (r : VolumeResult (List ℕ × Volume)) (d' : Device)
            → Has lo hi old d'.content
            → Has lo hi old (after_transact v r d').2.content
        committed (ok (generations, v')) d' p =
            (Leaves-bind {P = Has lo hi old} _ _ sync-Leaves
                (λ _ _. pure-Leaves {Q = λ _. Unit} generations tt)).device
              d' p
        committed (err e) d' p = p
        committed stuck d' p = p

    set_clean_state-Has :
        (clean : Bool) (d : Device)
        → Apart lo hi (slot_offset (1 - v.active_super)) super_slot_size
        → Has lo hi old d.content
        → Has lo hi old (set_clean_state c v clean d).1.content
    unfolding set_clean_state
    set_clean_state-Has clean d apart has = elim (Bool-cases (same_flag v.state.clean clean)) [
      | inl e ↦ rw e ((pure-Leaves {P = Has lo hi old} {Q = λ _. Unit} v tt).device d has)
      | inr e ↦ rw e ((change_clean_state-Leaves clean apart).device d has)
    ]

-- An opened volume and the file under it: one of the two slots is active, and the committed log
-- lies between the slots and the end of the file.
pub record IsOpen (v : Volume) (content : List ℕ) : Type 0 where
  pub slot : v.active_super ≤ 1
  pub begins : log_start ≤ v.state.committed_end
  pub there : v.state.committed_end ≤ length content

-- The bytes that a reopening needs to find the volume in its state are the same.
pub record SameState (v : Volume) (content content' : List ℕ) : Type 0 where
  pub bootstrap : slice 0 bootstrap_size content' ≡ slice 0 bootstrap_size content
  pub active_slot :
      slice (slot_offset v.active_super) (slot_offset v.active_super + super_slot_size) content'
      ≡ slice (slot_offset v.active_super) (slot_offset v.active_super + super_slot_size) content
  pub log :
      slice log_start v.state.committed_end content' ≡ slice log_start v.state.committed_end content
  pub long : v.state.committed_end ≤ length content'

-- The three ranges lie apart from the slot that is not active.
same_state :
    (v : Volume) (content content' : List ℕ)
    → IsOpen v content
    → ((lo hi : ℕ) (old : List ℕ)
        → lo ≤ hi
        → hi ≤ v.state.committed_end
        → Apart lo hi (slot_offset (1 - v.active_super)) super_slot_size
        → Has lo hi old content
        → Has lo hi old content')
    → SameState v content content'
same_state v content content' opened kept = record {
  bootstrap =
      (kept 0 bootstrap_size _ (omega arith) (omega (arith, opened.begins)) (inl (omega arith))
        (record { reaches = omega (arith, opened.begins, opened.there); same = refl })).same;
  active_slot =
      (kept (slot_offset v.active_super) (slot_offset v.active_super + super_slot_size) _
        (omega arith) (omega (arith, opened.begins, opened.slot))
        (other_slot v.active_super opened.slot)
        (record {
          reaches = omega (arith, opened.begins, opened.there, opened.slot);
          same = refl;
        })).same;
  log = log_kept.same;
  long = log_kept.reaches;
}
  where
    log_kept :
        Has log_start v.state.committed_end (slice log_start v.state.committed_end content) content'
    log_kept =
        kept log_start v.state.committed_end _ opened.begins (omega arith)
          (inr (omega (arith, opened.slot))) (record { reaches = opened.there; same = refl })

    other_slot :
        (a : ℕ)
        → a ≤ 1
        → Apart
            (slot_offset a)
            (slot_offset a + super_slot_size)
            (slot_offset (1 - a))
            super_slot_size
    other_slot zero h = inl (omega arith)
    other_slot (suc zero) h = inr (omega arith)
    other_slot (suc (suc n)) h = absurd (omega arith)

-- For every volume that is open on a file, every list of blocks and every plan of failures,
-- half-written buffers included: `write_blocks` leaves the bootstrap, the active superblock and the
-- committed log in the file as they were, so an interrupted transaction does not damage the state
-- before it.
pub write_blocks_crash :
    (c : Crypto) (v : Volume) (blocks : Blocks) (d : Device)
    → IsOpen v d.content
    → SameState v d.content (write_blocks c v blocks d).2.content
write_blocks_crash c v blocks d opened =
    same_state v d.content _ opened
      (λ lo hi old ordered h apart has. write_blocks-Has c lo hi old ordered v blocks d h apart has)

-- The same holds of marking a volume clean or dirty.
pub set_clean_state_crash :
    (c : Crypto) (v : Volume) (clean : Bool) (d : Device)
    → IsOpen v d.content
    → SameState v d.content (set_clean_state c v clean d).1.content
set_clean_state_crash c v clean d opened =
    same_state v d.content _ opened
      (λ lo hi old ordered h apart has. set_clean_state-Has c lo hi old ordered v clean d apart has)
