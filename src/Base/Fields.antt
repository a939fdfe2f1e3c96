-- ===== src/Base/Fields.antt =====
-- Fixed layouts: an array written field by field at consecutive offsets is the concatenation of
-- its fields, and the slices at the same offsets are the fields again.
use Prim.Native.Nat.{ℕ, zero, suc, ◌+◌, ◌-◌, ◌≤◌, ◌<◌}
use mathlib.Core.Path.{◌≡◌, refl, ap, ap₂, sym, ◌∙◌}
use mathlib.Core.List.{append-nil, List, [], ◌∷◌, ◌++◌, append_assoc}
use native.Mathlib.Omega.{arith}
use or_isy_vra.Base.Lists.{
  length, set, take, drop, replicate, get_or, All, length-append, take-append, drop-append_add,
  take-append-drop, drop-drop, All-append,
}
use or_isy_vra.Base.Bytes.{copy_at, slice}

abbrev pub concat : List (List ℕ) → List ℕ
concat [] = []
concat (f ∷ fs) = f ++ concat fs

abbrev pub sum : List ℕ → ℕ
sum [] = 0
sum (n ∷ ns) = n + sum ns

-- The fields have the sizes, one by one.
abbrev pub HasSizes : List ℕ → List (List ℕ) → Type 0
HasSizes [] [] = Unit
HasSizes [] (f ∷ fs) = ⊥
HasSizes (n ∷ ns) [] = ⊥
HasSizes (n ∷ ns) (f ∷ fs) = (length f ≡ n) × HasSizes ns fs

abbrev pub offset : List ℕ → ℕ → ℕ
offset [] k = 0
offset (n ∷ ns) zero = 0
offset (n ∷ ns) (suc k) = n + offset ns k

abbrev pub write_fields : ℕ → List ℕ → List (List ℕ) → List ℕ → List ℕ
write_fields i [] fs buffer = buffer
write_fields i (n ∷ ns) [] buffer = buffer
write_fields i (n ∷ ns) (f ∷ fs) buffer = write_fields (i + n) ns fs (copy_at i f buffer)

-- The slices of `bytes` from `i` on, of the given sizes.
abbrev pub slices : ℕ → List ℕ → List ℕ → List (List ℕ)
slices i [] bytes = []
slices i (n ∷ ns) bytes = slice i (i + n) bytes ∷ slices (i + n) ns bytes

pub replicate-add : (n m : ℕ) (a : ℕ) → replicate (n + m) a ≡ replicate n a ++ replicate m a
replicate-add zero m a = ap (λ (t : ℕ). replicate t a) (omega arith)
replicate-add (suc n) m a =
    ap (λ (t : ℕ). replicate t a) {x = suc n + m} {y = suc (n + m)} (omega arith)
    ∙ ap (λ t. a ∷ t) (replicate-add n m a)

set_middle :
    (pre : List ℕ) (x v : ℕ) (post : List ℕ) (i : ℕ)
    → length pre ≡ i
    → set (pre ++ (x ∷ post)) i v ≡ pre ++ (v ∷ post)
set_middle [] x v post zero e = refl
set_middle [] x v post (suc i) e = absurd (omega arith)
set_middle (p ∷ pre) x v post zero e = absurd (omega arith)
set_middle (p ∷ pre) x v post (suc i) e = ap (λ t. p ∷ t) (set_middle pre x v post i (omega arith))

-- A copy over a range that is there replaces just that range.
pub copy_at_middle :
    (source pre old post : List ℕ) (i : ℕ)
    → length pre ≡ i
    → length old ≡ length source
    → copy_at i source (pre ++ (old ++ post)) ≡ pre ++ (source ++ post)
unfolding copy_at
copy_at_middle [] pre [] post i e l = refl
copy_at_middle [] pre (o ∷ old) post i e l = absurd (omega arith)
copy_at_middle (b ∷ bs) pre [] post i e l = absurd (omega arith)
copy_at_middle (b ∷ bs) pre (o ∷ old) post i e l = rw (set_middle pre o b (old ++ post) i e) (
    ap (copy_at (i + 1) bs) (sym (append_assoc pre (b ∷ []) (old ++ post)))
    ∙ copy_at_middle bs (pre ++ (b ∷ [])) old post (i + 1)
        (length-append pre (b ∷ []) ∙ omega arith) (omega arith)
    ∙ append_assoc pre (b ∷ []) (bs ++ post))

length-replicate_zero : (n : ℕ) → length (replicate {A = ℕ} n 0) ≡ n
length-replicate_zero zero = refl
length-replicate_zero (suc n) = ap suc (length-replicate_zero n)

write_fields_from :
    (ns : List ℕ) (fs : List (List ℕ)) (pre : List ℕ) (i m : ℕ)
    → length pre ≡ i
    → HasSizes ns fs
    → write_fields i ns fs (pre ++ replicate (sum ns + m) 0) ≡ pre ++ (concat fs ++ replicate m 0)
write_fields_from [] [] pre i m e h =
    ap (λ (t : ℕ). pre ++ replicate t 0) {x = 0 + m} {y = m} (omega arith)
write_fields_from [] (f ∷ fs) pre i m e h = absurd h
write_fields_from (n ∷ ns) [] pre i m e h = absurd h
write_fields_from (n ∷ ns) (f ∷ fs) pre i m e h =
    ap (λ t. write_fields (i + n) ns fs (copy_at i f (pre ++ t))) split
    ∙ ap (write_fields (i + n) ns fs) (
        copy_at_middle f pre (replicate n 0) (replicate (sum ns + m) 0) i e
          (length-replicate_zero n ∙ sym h.0)
        ∙ sym (append_assoc pre f (replicate (sum ns + m) 0)))
    ∙ write_fields_from ns fs (pre ++ f) (i + n) m (length-append pre f ∙ omega (arith, h.0)) h.1
    ∙ append_assoc pre f (concat fs ++ replicate m 0)
    ∙ ap (λ t. pre ++ t) (sym (append_assoc f (concat fs) (replicate m 0)))
  where
    split : replicate {A = ℕ} (n + sum ns + m) 0 ≡ replicate n 0 ++ replicate (sum ns + m) 0
    split =
        ap (λ (t : ℕ). replicate t 0) {x = n + sum ns + m} {y = n + (sum ns + m)} (omega arith)
        ∙ replicate-add n (sum ns + m) 0

-- Writing the fields into zeros gives the fields, and zeros behind them.
pub write_fields_lem :
    (ns : List ℕ) (fs : List (List ℕ)) (m : ℕ)
    → HasSizes ns fs
    → write_fields 0 ns fs (replicate (sum ns + m) 0) ≡ concat fs ++ replicate m 0
write_fields_lem ns fs m h = write_fields_from ns fs [] 0 m refl h

slice_head : (n k : ℕ) (f rest : List ℕ) → length f ≡ n → k ≡ n → slice 0 k (f ++ rest) ≡ f
slice_head n k f rest e l = take-append (k - 0) f rest (omega arith)

slice_skip :
    (n lo hi lo' hi' : ℕ) (f rest : List ℕ)
    → length f ≡ n
    → lo ≡ n + lo'
    → hi ≡ n + hi'
    → slice lo hi (f ++ rest) ≡ slice lo' hi' rest
slice_skip n lo hi lo' hi' f rest e l h =
    ap (take (hi - lo)) (drop-append_add lo lo' f rest (omega arith))
    ∙ ap (λ (t : ℕ). take t (drop lo' rest)) {x = hi - lo} {y = hi' - lo'} (omega arith)

offset-zero : (ns : List ℕ) → offset ns 0 ≡ 0
offset-zero [] = refl
offset-zero (n ∷ ns) = refl

-- The slice at the place of a field is the field, whatever follows the fields.
pub read_field :
    (ns : List ℕ) (fs : List (List ℕ)) (k : ℕ) (rest : List ℕ)
    → HasSizes ns fs
    → k < length ns
    → slice (offset ns k) (offset ns (suc k)) (concat fs ++ rest) ≡ get_or fs k []
read_field [] fs k rest h l = absurd (omega arith)
read_field (n ∷ ns) [] k rest h l = absurd h
read_field (n ∷ ns) (f ∷ fs) zero rest h l =
    ap (slice 0 (n + offset ns 0)) (append_assoc f (concat fs) rest)
    ∙ slice_head n (n + offset ns 0) f (concat fs ++ rest) h.0 (omega (arith, offset-zero ns))
read_field (n ∷ ns) (f ∷ fs) (suc k) rest h l =
    ap (slice (n + offset ns k) (n + offset ns (suc k))) (append_assoc f (concat fs) rest)
    ∙ slice_skip n _ _ (offset ns k) (offset ns (suc k)) f (concat fs ++ rest) h.0 refl refl
    ∙ read_field ns fs k rest h.1 (omega arith)

slices_from :
    (ns bytes : List ℕ) (i : ℕ)
    → length bytes ≡ i + sum ns
    → concat (slices i ns bytes) ≡ drop i bytes
slices_from [] bytes i e = sym (drop_all i bytes (omega arith))
  where
    drop_all : (n : ℕ) (xs : List ℕ) → length xs ≤ n → drop n xs ≡ []
    drop_all zero [] h = refl
    drop_all zero (x ∷ xs) h = absurd (omega arith)
    drop_all (suc n) [] h = refl
    drop_all (suc n) (x ∷ xs) h = drop_all n xs (omega arith)
slices_from (n ∷ ns) bytes i e =
    ap₂ (λ t u. t ++ u) {x = slice i (i + n) bytes} {y = take n (drop i bytes)}
      (ap (λ (t : ℕ). take t (drop i bytes)) {x = i + n - i} {y = n} (omega arith))
      (slices_from ns bytes (i + n) (omega arith) ∙ sym (drop-drop n i bytes))
    ∙ take-append-drop n (drop i bytes)

-- An array that the fields cover is the concatenation of its slices.
pub slices_lem : (ns bytes : List ℕ) → length bytes ≡ sum ns → concat (slices 0 ns bytes) ≡ bytes
slices_lem ns bytes e = slices_from ns bytes 0 (omega arith)

pub length-concat :
    (ns : List ℕ) (fs : List (List ℕ)) → HasSizes ns fs → length (concat fs) ≡ sum ns
length-concat [] [] h = refl
length-concat [] (f ∷ fs) h = absurd h
length-concat (n ∷ ns) [] h = absurd h
length-concat (n ∷ ns) (f ∷ fs) h =
    length-append f (concat fs) ∙ omega (arith, h.0, length-concat ns fs h.1)

pub All-concat {κ} : (P : ℕ → Type κ) (fs : List (List ℕ)) → All (All P) fs → All P (concat fs)
All-concat P [] h = tt
All-concat P (f ∷ fs) h = All-append P f (concat fs) h.0 (All-concat P fs h.1)

-- One byte as a slice.
pub slice_byte : (bs : List ℕ) (k : ℕ) → k < length bs → slice k (k + 1) bs ≡ get_or bs k 0 ∷ []
slice_byte bs k h =
    ap (λ (t : ℕ). take t (drop k bs)) {x = k + 1 - k} {y = 1} (omega arith) ∙ head bs k h
  where
    head : (xs : List ℕ) (i : ℕ) → i < length xs → take 1 (drop i xs) ≡ get_or xs i 0 ∷ []
    head [] i h = absurd (omega arith)
    head (x ∷ xs) zero h = refl
    head (x ∷ xs) (suc i) h = head xs i (omega arith)

-- What follows the fields is one more field.
pub concat-snoc : (fs : List (List ℕ)) (g : List ℕ) → concat fs ++ g ≡ concat (fs ++ (g ∷ []))
concat-snoc [] g = sym (append-nil g)
concat-snoc (f ∷ fs) g = append_assoc f (concat fs) g ∙ ap (λ t. f ++ t) (concat-snoc fs g)
