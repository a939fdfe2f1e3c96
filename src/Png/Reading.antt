-- ===== src/Png/Reading.antt =====
-- Reading back a chunk that was put into a file, and what stands around it.
use or_isy_vra.Base.{
  ℕ, suc, ◌+◌, ◌^◌, ◌≤◌, ◌<◌, ◌≡◌, refl, ap, ap₂, ◌∙◌, arith, List, [], ◌∷◌, ◌++◌, length, take,
  length-append, append_assoc,
}
use or_isy_vra.Base.{get_or, append-nil}
use or_isy_vra.Base.Fields.{offset, read_field}
use or_isy_vra.Base.Bytes.{slice}
use or_isy_vra.Base.Slices.{slice-agree, slice-append_right, slice-slice}
use or_isy_vra.Png.{to_be_bytes, from_be_bytes, chunk_length, chunk_type, chunk, crc32}

pub from_be-to_be : (n : ℕ) → n < 2 ^ 32 → from_be_bytes (to_be_bytes n) ≡ n
unfolding from_be_bytes to_be_bytes
from_be-to_be n h = omega arith

pub crc32-lt : (bytes : List ℕ) → crc32 bytes < 2 ^ 32
unfolding crc32
crc32-lt bytes = omega arith

length-to_be : (n : ℕ) → length (to_be_bytes n) ≡ 4
unfolding to_be_bytes
length-to_be n = refl

-- At `k` stands a chunk of the kind, with the body.
pub record ReadsAs (out : List ℕ) (k : ℕ) (kind body : List ℕ) : Type 0 where
  pub size : chunk_length out k ≡ length body
  pub type : chunk_type out k ≡ kind
  pub body_bytes : slice (k + 8) (k + 8 + length body) out ≡ body
  pub inside : k + 12 + length body ≤ length out
  pub crc :
      slice (k + 8 + length body) (k + 8 + length body + 4) out ≡ to_be_bytes (crc32 (kind ++ body))

pub length-chunk :
    (kind body : List ℕ) → length kind ≡ 4 → length (chunk kind body) ≡ 12 + length body
unfolding chunk
length-chunk kind body l = omega (
  arith,
  length-append (to_be_bytes (length body)) (kind ++ (body ++ to_be_bytes (crc32 (kind ++ body)))),
  length-append kind (body ++ to_be_bytes (crc32 (kind ++ body))),
  length-append body (to_be_bytes (crc32 (kind ++ body))),
  length-to_be (length body),
  length-to_be (crc32 (kind ++ body)),
)

pub chunk-ReadsAs :
    (k : ℕ) (pre kind body post : List ℕ)
    → length pre ≡ k
    → length kind ≡ 4
    → length body < 2 ^ 32
    → ReadsAs (pre ++ (chunk kind body ++ post)) k kind body
unfolding chunk_length chunk_type chunk
chunk-ReadsAs k pre kind body post e l h = record {
  size =
      ap from_be_bytes (field 1 k (k + 4) (omega arith) (omega arith) (omega arith))
      ∙ from_be-to_be (length body) h;
  type = field 2 (k + 4) (k + 8) (omega arith) (omega arith) (omega arith);
  body_bytes = field 3 (k + 8) (k + 8 + length body) (omega arith) (omega arith) (omega arith);
  inside =
      rw (length-append pre (chunk kind body ++ post))
        (rw (length-append (chunk kind body) post) (omega (arith, e, length-chunk kind body l)));
  crc =
      field 4 (k + 8 + length body) (k + 8 + length body + 4) (omega arith) (omega arith)
        (omega arith);
}
  where
    sizes : List ℕ
    sizes = k ∷ 4 ∷ 4 ∷ length body ∷ 4 ∷ []

    parts : List (List ℕ)
    parts = pre ∷ to_be_bytes (length body) ∷ kind ∷ body ∷ to_be_bytes (crc32 (kind ++ body)) ∷ []

    field :
        (i lo hi : ℕ)
        → i < 5
        → lo ≡ offset sizes i
        → hi ≡ offset sizes (suc i)
        → slice lo hi (pre ++ (chunk kind body ++ post)) ≡ get_or parts i []
    field i lo hi small x y =
        ap₂ (λ (a b : ℕ). slice a b (pre ++ (chunk kind body ++ post))) x y
        ∙ ap (slice (offset sizes i) (offset sizes (suc i))) (simp (append_assoc, append-nil))
        ∙ read_field sizes parts i post (e, (length-to_be _, (l, (refl, (length-to_be _, tt)))))
            small

-- Strings that agree up to a chunk's end have the same chunk there.
module _ (k e : ℕ) (png rest : List ℕ) (le : e ≤ length png) where
  pub chunk_length-agree : k + 4 ≤ e → chunk_length (take e png ++ rest) k ≡ chunk_length png k
  unfolding chunk_length
  chunk_length-agree h = ap from_be_bytes (slice-agree k (k + 4) e png rest (omega arith) h le)

  pub chunk_type-agree : k + 8 ≤ e → chunk_type (take e png ++ rest) k ≡ chunk_type png k
  unfolding chunk_type
  chunk_type-agree h = slice-agree (k + 4) (k + 8) e png rest (omega arith) h le

-- A chunk that was moved behind another string.
module _ (k k' e : ℕ) (pre png : List ℕ) (at : length pre ≡ k') where
  moved :
      (a b : ℕ)
      → a ≤ b
      → k + b ≤ e
      → slice (k' + a) (k' + b) (pre ++ slice k e png) ≡ slice (k + a) (k + b) png
  moved a b h l = slice-append_right k' a b pre (slice k e png) at ∙ slice-slice k e a b png h l

  pub chunk_length-moved : k + 4 ≤ e → chunk_length (pre ++ slice k e png) k' ≡ chunk_length png k
  unfolding chunk_length
  chunk_length-moved h =
      ap₂ (λ (a b : ℕ). from_be_bytes (slice a b (pre ++ slice k e png))) {x = k'} {y = k' + 0}
        (omega arith) refl
      ∙ ap from_be_bytes (moved 0 4 (omega arith) h)
      ∙ ap (λ (a : ℕ). from_be_bytes (slice a (k + 4) png)) {x = k + 0} {y = k} (omega arith)

  pub chunk_type-moved : k + 8 ≤ e → chunk_type (pre ++ slice k e png) k' ≡ chunk_type png k
  unfolding chunk_type
  chunk_type-moved h = moved 4 8 (omega arith) h
