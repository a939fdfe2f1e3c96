-- ===== src/Png/Kept.antt =====
-- What stands in a file behind an inserted chunk, and that the insertion brings no chunk of
-- another type.
use or_isy_vra.Base.{
  ℕ, ◌+◌, ◌^◌, ◌≤◌, ◌<◌, ◌≡◌, refl, sym, ◌∙◌, arith, List, ◌++◌, length, take, false, length-append,
  length-take, append_assoc,
}
use or_isy_vra.Base.Bytes.{slice, bytes_eq, length-slice}
use or_isy_vra.Png.{iend, chunk_length, chunk_type, chunk}
use or_isy_vra.Png.Insert.{chunk_end, Inserted, here, later}
use or_isy_vra.Png.Plain.{Plain, final, more, Plain-next}
use or_isy_vra.Png.Reading.{
  ReadsAs, chunk-ReadsAs, length-chunk, chunk_length-agree, chunk_type-agree, chunk_length-moved,
  chunk_type-moved,
}

-- At `j` stands the last chunk.
pub record EndsAt (out : List ℕ) (j : ℕ) : Type 0 where
  pub type : chunk_type out j ≡ iend
  pub inside : chunk_end out j ≤ length out

module _ (png out kind body : List ℕ) (four : length kind ≡ 4) (short : length body < 2 ^ 32) where
  pub longer : (e : ℕ) (rest : List ℕ) → e ≤ length png → out ≡ take e png ++ rest → e ≤ length out
  longer e rest le o =
      rw o (rw (length-append (take e png) rest) (omega (arith, le, length-take e png)))

  pub new_chunk :
      (k : ℕ) (post : List ℕ)
      → k ≤ length png
      → out ≡ take k png ++ (chunk kind body ++ post)
      → ReadsAs out k kind body
  new_chunk k post h o =
      rw (← o) at
        (chunk-ReadsAs k (take k png) kind body post (omega (arith, length-take k png)) four short)

  pub iend_behind :
      (k j : ℕ)
      → j ≡ k + 12 + length body
      → chunk_end png k ≤ length png
      → chunk_type png k ≡ iend
      → out ≡ take k png ++ (chunk kind body ++ slice k (chunk_end png k) png)
      → EndsAt out j
  iend_behind k j x le t o =
      let e = chunk_end png k in
      let pre = take k png ++ chunk kind body in
      let o' : out ≡ pre ++ slice k e png =
        o ∙ sym (append_assoc (take k png) (chunk kind body) (slice k e png)) in
      let at : length pre ≡ j = omega (
        arith,
        length-append (take k png) (chunk kind body),
        length-take k png,
        le,
        length-chunk kind body four,
        x,
      ) in
      let size : chunk_length out j ≡ chunk_length png k =
        rw (← o') at (chunk_length-moved k j e pre png at (omega arith)) in
      record {
        type = rw (← o') at (chunk_type-moved k j e pre png at (omega arith)) ∙ t;
        inside =
            rw size (
              rw o'
                (omega (arith, length-append pre (slice k e png), at, length-slice k e png le)));
      }

  module _ (other : List ℕ) (ne : bytes_eq kind other ≡ false)
      (ne' : bytes_eq kind iend ≡ false) where
    pub Inserted-Plain :
        {k : ℕ} → Inserted png (chunk kind body) out k → Plain other png k → Plain other out k
    Inserted-Plain (here k le t o) plain =
        let r = new_chunk k _ (omega (arith, le)) o in
        let j = k + 12 + length body in
        let end = iend_behind k j refl le t o in
        more k j (omega (arith, r.size)) r.inside (rw r.type ne') (rw r.type ne)
          (final j end.inside end.type)
    Inserted-Plain (later k e rest x le nl o w) plain =
        let (nk, plain_next) = Plain-next plain nl in
        let same_length : chunk_length out k ≡ chunk_length png k =
          rw (← o) at (chunk_length-agree k e png rest le (omega (arith, x))) in
        let same_type : chunk_type out k ≡ chunk_type png k =
          rw (← o) at (chunk_type-agree k e png rest le (omega (arith, x))) in
        more k e (omega (arith, x, same_length)) (longer e rest le o) (rw same_type nl)
          (rw same_type nk) (Inserted-Plain w (rw (← x) at plain_next))
