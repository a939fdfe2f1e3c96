-- ===== src/Keyfile/Codec.antt =====
-- `decode_header` accepts exactly the encodings of permitted parameters, a salt and a nonce.
use mathlib.Core.List.{append-nil}
use or_isy_vra.Base.{
  ℕ, suc, ◌-◌, ◌*◌, ◌<◌, ◌≤◌, ◌≡◌, ◌↔◌, refl, ap, ap₂, sym, ◌∙◌, arith, List, [], ◌∷◌, get_or, Bool,
  true, false, not, ==_iff,
}
use or_isy_vra.Base.Words.{IsByte}
use or_isy_vra.Base.Bytes.{
  le_bytes, from_le, slice, bytes_eq_iff, bytes_eq_self, IsBytes, length-le_bytes, le_bytes-IsByte,
  from_le-le_bytes, le_bytes-from_le, slice-IsBytes,
}
use or_isy_vra.Base.Fields.{
  concat, HasSizes, offset, write_fields_lem, read_field, slices, slices_lem, All-concat,
  length-concat,
}
use or_isy_vra.Base.Results.{ok, fail_if-eq-ok, then-eq-ok, ok_injective}
use or_isy_vra.Keyfile.{
  KeyfileParams, key_magic, key_version, key_header_size, wrapped_key_size, validate_params,
  encode_key_header, checked_key_header, decode_key_header,
}

-- What `validate_params` lets through.
pub record IsParams (p : KeyfileParams) : Type 0 where
  pub memory_min : 8 * 1024 ≤ p.memory_kib
  pub memory_max : p.memory_kib ≤ 1024 * 1024
  pub iterations_min : 1 ≤ p.iterations
  pub iterations_max : p.iterations ≤ 32
  pub parallelism_min : 1 ≤ p.parallelism
  pub parallelism_max : p.parallelism ≤ 16

pub validate_params-ok : (p : KeyfileParams) → IsParams p → validate_params p ≡ ok tt
unfolding validate_params
validate_params-ok p h = ground (
  arith, h.memory_min, h.memory_max, h.iterations_min, h.iterations_max, h.parallelism_min,
  h.parallelism_max,
)

validated-IsParams : (p : KeyfileParams) → validate_params p ≡ ok tt → IsParams p
unfolding validate_params
validated-IsParams p e = record {
  memory_min = bounds.0;
  memory_max = bounds.1;
  iterations_min = bounds.2;
  iterations_max = bounds.3;
  parallelism_min = bounds.4;
  parallelism_max = bounds.5;
}
  where
    bounds :
        (8 * 1024 ≤ p.memory_kib)
        × (p.memory_kib ≤ 1024 * 1024)
        × (1 ≤ p.iterations)
        × (p.iterations ≤ 32)
        × (1 ≤ p.parallelism)
        × (p.parallelism ≤ 16)
    bounds = ground arith

abbrev sizes : List ℕ
sizes = 8 ∷ 2 ∷ 4 ∷ 4 ∷ 4 ∷ 16 ∷ 24 ∷ 2 ∷ []

abbrev fields : KeyfileParams → List ℕ → List ℕ → List (List ℕ)
fields p salt nonce =
    key_magic
    ∷ le_bytes 2 key_version
    ∷ le_bytes 4 p.memory_kib
    ∷ le_bytes 4 p.iterations
    ∷ le_bytes 4 p.parallelism
    ∷ salt
    ∷ nonce
    ∷ le_bytes 2 wrapped_key_size
    ∷ []

module _ (p : KeyfileParams) (salt nonce : List ℕ) (salt_bytes : IsBytes 16 salt)
    (nonce_bytes : IsBytes 24 nonce) where
  fields-HasSizes : HasSizes sizes (fields p salt nonce)
  fields-HasSizes = omega (
    arith,
    length-le_bytes 2 key_version,
    length-le_bytes 4 p.memory_kib,
    length-le_bytes 4 p.iterations,
    length-le_bytes 4 p.parallelism,
    length-le_bytes 2 wrapped_key_size,
    salt_bytes.size,
    nonce_bytes.size,
  )

  encode_key_header-fields : encode_key_header p salt nonce ≡ concat (fields p salt nonce)
  unfolding encode_key_header
  encode_key_header-fields =
      write_fields_lem sizes (fields p salt nonce) 0 fields-HasSizes ∙ append-nil _

  pub encode_key_header-IsBytes : IsBytes key_header_size (encode_key_header p salt nonce)
  encode_key_header-IsBytes = rw encode_key_header-fields (record {
    size = length-concat sizes (fields p salt nonce) fields-HasSizes;
    all = All-concat IsByte (fields p salt nonce) (
      omega arith,
      (
        le_bytes-IsByte 2 key_version,
        (
          le_bytes-IsByte 4 p.memory_kib,
          (
            le_bytes-IsByte 4 p.iterations,
            (
              le_bytes-IsByte 4 p.parallelism,
              (salt_bytes.all, (nonce_bytes.all, (le_bytes-IsByte 2 wrapped_key_size, tt))),
            ),
          ),
        ),
      ),
    );
  })

  field :
      (k : ℕ)
      → k < 8
      → slice (offset sizes k) (offset sizes (suc k)) (encode_key_header p salt nonce)
        ≡ get_or (fields p salt nonce) k []
  field k below =
      ap (slice (offset sizes k) (offset sizes (suc k)))
        (encode_key_header-fields ∙ sym (append-nil _))
      ∙ read_field sizes (fields p salt nonce) k [] fields-HasSizes below

  pub decode-encode :
      IsParams p → decode_key_header (encode_key_header p salt nonce) ≡ ok (p, salt, nonce)
  unfolding decode_key_header checked_key_header
  decode-encode h = rw (field 0 (omega arith)) (
      rw (field 1 (omega arith)) (
        rw (field 2 (omega arith)) (
          rw (field 3 (omega arith)) (
            rw (field 4 (omega arith)) (
              rw (field 5 (omega arith)) (
                rw (field 6 (omega arith)) (
                  rw (field 7 (omega arith)) (
                    rw (from_le-le_bytes 2 key_version (omega arith)) (
                      rw (from_le-le_bytes 4 p.memory_kib (omega (arith, h.memory_max))) (
                        rw (from_le-le_bytes 4 p.iterations (omega (arith, h.iterations_max))) (
                          rw (from_le-le_bytes 4 p.parallelism (omega (arith, h.parallelism_max))) (
                            rw (from_le-le_bytes 2 wrapped_key_size (omega arith)) (
                              rw (bytes_eq_self key_magic)
                                (rw (validate_params-ok p h) refl))))))))))))))

checked_key_header-ok :
    (magic : List ℕ) (version : ℕ) (q : KeyfileParams) (s n : List ℕ) (wrapped_size : ℕ)
    (p : KeyfileParams) (salt nonce : List ℕ)
    → checked_key_header magic version q s n wrapped_size ≡ ok (p, salt, nonce)
    → (magic ≡ key_magic)
      × (version ≡ key_version)
      × (validate_params q ≡ ok tt)
      × (wrapped_size ≡ wrapped_key_size)
      × (q ≡ p)
      × (s ≡ salt)
      × (n ≡ nonce)
unfolding checked_key_header
checked_key_header-ok magic version q s n wrapped_size p salt nonce e =
    let (e0, r0) = fail_if-eq-ok _ _ _ e in
    let (e1, r1) = fail_if-eq-ok _ _ _ r0 in
    let (e2, r2) = then-eq-ok (validate_params q) _ r1 in
    let (e3, r3) = fail_if-eq-ok _ _ _ r2 in
    let same = ok_injective r3 in
    (
      (bytes_eq_iff magic key_magic).0 (right _ e0),
      (==_iff version key_version).0 (right _ e1),
      e2,
      (==_iff wrapped_size wrapped_key_size).0 (right _ e3),
      ap (λ t. t.0) same,
      ap (λ t. t.1) same,
      ap (λ t. t.2) same,
    )
  where
    right : (b : Bool) → not b ≡ false → b ≡ true
    right b h = ground arith

module _ (bytes : List ℕ) (p : KeyfileParams) (salt nonce : List ℕ)
    (full : IsBytes key_header_size bytes)
    (accepted : decode_key_header bytes ≡ ok (p, salt, nonce)) where
  abbrev stored : KeyfileParams
  stored = record {
    memory_kib = from_le (slice 10 14 bytes);
    iterations = from_le (slice 14 18 bytes);
    parallelism = from_le (slice 18 22 bytes);
  }

  read :
      (slice 0 8 bytes ≡ key_magic)
      × (from_le (slice 8 10 bytes) ≡ key_version)
      × (validate_params stored ≡ ok tt)
      × (from_le (slice 62 64 bytes) ≡ wrapped_key_size)
      × (stored ≡ p)
      × (slice 22 38 bytes ≡ salt)
      × (slice 38 62 bytes ≡ nonce)
  unfolding decode_key_header
  read = checked_key_header-ok _ _ stored _ _ _ p salt nonce accepted

  part : (lo hi n : ℕ) → hi ≤ key_header_size → hi - lo ≡ n → IsBytes n (slice lo hi bytes)
  part lo hi n le e = slice-IsBytes lo hi n bytes full.all (rw full.size le) e

  salt_part : IsBytes 16 salt
  salt_part = rw read.5 at (part 22 38 16 (omega arith) (omega arith))

  nonce_part : IsBytes 24 nonce
  nonce_part = rw read.6 at (part 38 62 24 (omega arith) (omega arith))

  number :
      (lo hi n x : ℕ)
      → hi ≤ key_header_size
      → hi - lo ≡ n
      → from_le (slice lo hi bytes) ≡ x
      → le_bytes n x ≡ slice lo hi bytes
  number lo hi n x le e r =
      let b = part lo hi n le e in rw (← r) (le_bytes-from_le n (slice lo hi bytes) b.all b.size)

  abbrev cons :
      {xs ys : List ℕ} {xss yss : List (List ℕ)} → xs ≡ ys → xss ≡ yss → (xs ∷ xss) ≡ (ys ∷ yss)
  cons e f = ap₂ (λ t u. t ∷ u) e f

  same_fields : fields p salt nonce ≡ slices 0 sizes bytes
  same_fields = cons (sym read.0) (
      cons (number 8 10 2 key_version (omega arith) (omega arith) read.1) (
        cons
          (number 10 14 4 p.memory_kib (omega arith) (omega arith) (ap (λ t. t.memory_kib) read.4))
          (cons
            (number 14 18 4 p.iterations (omega arith) (omega arith)
              (ap (λ t. t.iterations) read.4))
            (cons
              (number 18 22 4 p.parallelism (omega arith) (omega arith)
                (ap (λ t. t.parallelism) read.4))
              (cons (sym read.5) (
                cons (sym read.6) (
                  cons (number 62 64 2 wrapped_key_size (omega arith) (omega arith) read.3)
                    refl)))))))

  encode-decode : encode_key_header p salt nonce ≡ bytes
  encode-decode =
      encode_key_header-fields p salt nonce salt_part nonce_part
      ∙ ap concat same_fields
      ∙ slices_lem sizes bytes full.size

-- On an array of 64 bytes, `decode_header` returns parameters, a salt and a nonce exactly when the
-- parameters are permitted, salt and nonce have 16 and 24 bytes, and the array is their encoding:
-- every capsule header has one reading, and what was encoded is read back.
pub decode_key_header_iff :
    (bytes : List ℕ) (p : KeyfileParams) (salt nonce : List ℕ)
    → IsBytes key_header_size bytes
    → (decode_key_header bytes ≡ ok (p, salt, nonce))
      ↔ (IsParams p × IsBytes 16 salt × IsBytes 24 nonce × (encode_key_header p salt nonce ≡ bytes))
decode_key_header_iff bytes p salt nonce full = (
  λ e. (
    rw (read bytes p salt nonce full e).4 at
        (validated-IsParams _ (read bytes p salt nonce full e).2),
    salt_part bytes p salt nonce full e,
    nonce_part bytes p salt nonce full e,
    encode-decode bytes p salt nonce full e,
  ),
  λ (v, s, n, e). rw (← e) (decode-encode p salt nonce s n v),
)
