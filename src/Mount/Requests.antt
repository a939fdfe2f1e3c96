-- ===== src/Mount/Requests.antt =====
-- The callbacks on a mounted volume: what was written is read, and a read-only mount stays as it is.
use or_isy_vra.Base.{
  ℕ, ◌≡◌, inl, inr, refl, ap, sym, ◌∙◌, arith, List, [], ◌∷◌, Option, none, some, Bool, true, ◌==◌,
  Bool-cases, Option-cases,
}
use or_isy_vra.Base.Acts.{lift, ◌>>=◌}
use or_isy_vra.Crypto.{Crypto}
use or_isy_vra.Mount.{sector_size}
use or_isy_vra.Mount.Contexts.{
  StorageUnitStatus, MountContext, Contexts, find, put, context_for, keep_context,
}
use or_isy_vra.Mount.Callbacks.{write_request, checked_mul, serve_write, write_callback}

find-put :
    (unit : ℕ) (old context : MountContext) (mounts : List (ℕ × MountContext))
    → find unit mounts ≡ some old
    → find unit (put unit context mounts) ≡ some context
unfolding find put
find-put unit old context [] e = absurd (ground arith)
find-put unit old context ((u, x) ∷ mounts) e = elim (Bool-cases (u == unit)) [
  | inl same ↦ rw same (rw same refl)
  | inr other ↦ rw other (rw other (find-put unit old context mounts (rw other at e)))
]

pub put-found :
    (unit : ℕ) (context : MountContext) (mounts : List (ℕ × MountContext))
    → find unit mounts ≡ some context
    → put unit context mounts ≡ mounts
unfolding find put
put-found unit context [] e = refl
put-found unit context ((u, x) ∷ mounts) e = elim (Bool-cases (u == unit)) [
  | inl same ↦ rw same (ap (λ t. (u, t) ∷ mounts) (sym (found (rw same at e))))
  | inr other ↦ rw other (ap (λ t. (u, x) ∷ t) (put-found unit context mounts (rw other at e)))
]
  where
    found : {a b : MountContext} → ◌≡◌ {A = Option MountContext} (some a) (some b) → a ≡ b
    found h = ground arith

pub context_for-find :
    (contexts : Contexts) (unit : ℕ) (context : MountContext)
    → context_for contexts unit ≡ some context
    → find unit contexts.mounts ≡ some context
unfolding context_for
context_for-find contexts unit context e = elim (Bool-cases contexts.poisoned) [
  | inl broken ↦ absurd (absent (rw broken at e))
  | inr fine ↦ rw fine at e
]
  where
    absent : ◌≡◌ {A = Option MountContext} none (some context) → ⊥
    absent h = ground arith

pub context_for-keep :
    (contexts : Contexts) (unit : ℕ) (old context : MountContext)
    → context_for contexts unit ≡ some old
    → context_for (keep_context contexts unit context) unit ≡ some context
unfolding context_for
context_for-keep contexts unit old context e = elim (Bool-cases contexts.poisoned) [
  | inl broken ↦ absurd (absent (rw broken at e))
  | inr fine ↦ rw fine (find-put unit old context contexts.mounts (rw fine at e))
]
  where
    absent : ◌≡◌ {A = Option MountContext} none (some old) → ⊥
    absent h = ground arith

-- A request to write to a read-only mount fails, and leaves the context.
write_request-read_only :
    (c : Crypto) (offset : ℕ) (flush : Bool) (input : List ℕ) (context : MountContext)
    → context.read_only ≡ true
    → (write_request c offset flush input context).1 ≡ context
unfolding write_request lift ◌>>=◌
write_request-read_only c offset flush input context e = elim (Bool-cases context.poisoned) [
  | inl broken ↦ rw broken refl
  | inr fine ↦ rw fine (rw e refl)
]

module _ (c : Crypto) (contexts : Contexts) (unit : ℕ) (context : MountContext)
    (mounted : context_for contexts unit ≡ some context) where
  serve_write-read_only :
      (address : ℕ) (flush : Bool) (offset : ℕ) (status : Option StorageUnitStatus)
      (buffer : Option (List ℕ))
      → context.read_only ≡ true
      → (serve_write c contexts unit context address flush offset status buffer).0 ≡ contexts
  unfolding serve_write
  serve_write-read_only address flush offset status none e = refl
  serve_write-read_only address flush offset status (some buffer) e =
      ap (keep_context contexts unit) (write_request-read_only c offset flush buffer context e)
      ∙ ap (λ t. record contexts { mounts = t })
          (put-found unit context contexts.mounts (context_for-find contexts unit context mounted))

  -- A storage unit that is mounted read-only is left as it is, with all mounts, by every call of
  -- `write_callback`: whatever the buffer, the range, the flag and the status.
  pub write_callback-read_only :
      (buffer : Option (List ℕ)) (address count : ℕ) (flush : Bool)
      (status : Option StorageUnitStatus)
      → context.read_only ≡ true
      → (write_callback c contexts unit buffer address count flush status).0 ≡ contexts
  unfolding write_callback
  write_callback-read_only buffer address count flush status e =
      rw (mounted, write_callback)
        (elim (Option-cases (checked_mul count sector_size)) [
          | inl over ↦ rw (over, write_callback) refl
          | inr (size, fits) ↦
              rw (fits, write_callback)
                (elim (Option-cases (checked_mul address sector_size)) [
                  | inl over ↦ rw (over, write_callback) refl
                  | inr (offset, fits') ↦
                      rw (fits', write_callback)
                        (elim (Bool-cases (size == 0)) [
                          | inl nothing ↦ rw (nothing, write_callback) refl
                          | inr some_sectors ↦
                              rw (some_sectors, write_callback)
                                (serve_write-read_only address flush offset status buffer e)
                        ])
                ])
        ])
