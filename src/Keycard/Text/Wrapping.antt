-- ===== src/Keycard/Text/Wrapping.antt =====
-- Wrapped lines stay inside their column, and hold the words' characters in their order.
use or_isy_vra.Base.{
  ℕ, zero, suc, ◌≤◌, ◌<◌, ◌≡◌, ◌≢◌, refl, ap, sym, ◌∙◌, arith, ◌⊎◌, inl, inr, List, [], ◌∷◌, ◌++◌,
  All, All-append, Bool, true, false, not, ◌&&◌, if◌then◌else◌, ltb, leb, leb→le, ltb→lt, le-cases,
  ◌==◌, Bool-cases, append_assoc, append-nil,
}
use or_isy_vra.Base.Fields.{concat, concat-snoc}
use or_isy_vra.Keycard.Text.{
  text_width, is_empty, Lines, push_line, split_word, place_word, wrap_words, wrap_text, shrink,
  fitted_scale,
}

-- A text without its spaces.
abbrev pub strip : List ℕ → List ℕ
strip [] = []
strip (x ∷ xs) = if x == 32 then strip xs else x ∷ strip xs

-- A word: no space in it.
abbrev pub IsWord : List ℕ → Type 0
IsWord = All (λ x. x ≢ 32)

strip-append : (xs ys : List ℕ) → strip (xs ++ ys) ≡ strip xs ++ strip ys
strip-append [] ys = refl
strip-append (x ∷ xs) ys = go (x == 32) (strip-append xs ys)
  where
    go :
        (b : Bool)
        → strip (xs ++ ys) ≡ strip xs ++ strip ys
        → (if b then strip (xs ++ ys) else x ∷ strip (xs ++ ys))
          ≡ (if b then strip xs else x ∷ strip xs) ++ strip ys
    go true e = e
    go false e = ap (λ t. x ∷ t) e

strip-word : (word : List ℕ) → IsWord word → strip word ≡ word
strip-word [] h = refl
strip-word (x ∷ word) h =
    let e : (x == 32) ≡ false = not_space x h.0 in rw e (ap (λ t. x ∷ t) (strip-word word h.1))
  where
    not_space : (n : ℕ) → n ≢ 32 → (n == 32) ≡ false
    not_space n h = ground arith

module _ (max_width scale : ℕ) (one : text_width (0 ∷ []) scale ≤ max_width) where
  abbrev Fits : List ℕ → Type 0
  Fits text = text_width text scale ≤ max_width

  -- The lines and the current line fit, and hold these characters.
  record Holds (seen : List ℕ) (lines : Lines) (current : List ℕ) : Type 0 where
    all_fit : All Fits lines
    fits : Fits current
    holds : strip (concat lines ++ current) ≡ seen

  empty-Fits : Fits []
  unfolding text_width
  empty-Fits = omega arith

  one-Fits : (x : ℕ) → Fits (x ∷ [])
  unfolding text_width
  one-Fits x = one

  push-Holds :
      (seen : List ℕ) (lines : Lines) (current : List ℕ)
      → Holds seen lines current
      → Holds seen (lines ++ (current ∷ [])) []
  push-Holds seen lines current h = record {
    all_fit = All-append Fits lines _ h.all_fit (h.fits, tt);
    fits = empty-Fits;
    holds = ap strip (append-nil _ ∙ sym (concat-snoc lines current)) ∙ h.holds;
  }

  push_line-Holds :
      (seen : List ℕ) (lines : Lines) (current : List ℕ)
      → Holds seen lines current
      → Holds seen (push_line lines current) []
  push_line-Holds seen lines [] h = h
  push_line-Holds seen lines (x ∷ current) h = push-Holds seen lines (x ∷ current) h

  -- More characters on the current line.
  extend :
      (seen : List ℕ) (lines : Lines) (current more : List ℕ)
      → Holds seen lines current
      → Fits (current ++ more)
      → Holds (seen ++ strip more) lines (current ++ more)
  extend seen lines current more h f = record {
    all_fit = h.all_fit;
    fits = f;
    holds =
        ap strip (sym (append_assoc (concat lines) current more))
        ∙ strip-append (concat lines ++ current) more
        ∙ ap (λ t. t ++ strip more) h.holds;
  }

  not_full-Fits :
      (fragment : List ℕ) (x : ℕ)
      → (not (is_empty fragment) && ltb max_width (text_width (fragment ++ (x ∷ [])) scale)) ≡ false
      → Fits (fragment ++ (x ∷ []))
  not_full-Fits [] x h = one-Fits x
  not_full-Fits (y ∷ fragment) x h = ground arith

  place_character :
      (seen : List ℕ) (lines : Lines) (fragment : List ℕ) (x : ℕ) (full : Bool)
      → (full ≡ false → Fits (fragment ++ (x ∷ [])))
      → Holds seen lines fragment
      → Holds
          (seen ++ strip (x ∷ []))
          (if full then lines ++ (fragment ∷ []) else lines)
          ((if full then [] else fragment) ++ (x ∷ []))
  place_character seen lines fragment x true f h =
      extend seen (lines ++ (fragment ∷ [])) [] (x ∷ []) (push-Holds seen lines fragment h)
        (one-Fits x)
  place_character seen lines fragment x false f h = extend seen lines fragment (x ∷ []) h (f refl)

  split_word-Holds :
      (seen : List ℕ) (lines : Lines) (fragment word : List ℕ)
      → Holds seen lines fragment
      → Holds
          (seen ++ strip word)
          (split_word max_width scale lines fragment word).0
          (split_word max_width scale lines fragment word).1
  unfolding split_word
  split_word-Holds seen lines fragment [] h = rw (append-nil seen) h
  split_word-Holds seen lines fragment (x ∷ word) h = rw (strip-append (x ∷ []) word) (
      rw (← (append_assoc seen (strip (x ∷ [])) (strip word))) (
        split_word-Holds (seen ++ strip (x ∷ [])) _ _ word
          (place_character seen lines fragment x _ (not_full-Fits fragment x) h)))

  extend_empty :
      (seen : List ℕ) (lines : Lines) (word : List ℕ)
      → Holds seen lines []
      → Fits word
      → Holds (seen ++ strip word) lines word
  extend_empty seen lines word h f = extend seen lines [] word h f

  place_word-Holds :
      (seen : List ℕ) (lines : Lines) (current word : List ℕ)
      → Holds seen lines current
      → Holds
          (seen ++ strip word)
          (place_word max_width scale lines current word).0
          (place_word max_width scale lines current word).1
  unfolding place_word
  place_word-Holds seen lines current word h =
      elim (Bool-cases (leb (text_width (candidate current) scale) max_width)) [
        | inl fits ↦ rw fits (joined current h (leb→le _ _ fits))
        | inr wide ↦ elim (Bool-cases (leb (text_width word scale) max_width)) [
          | inl alone ↦ rw wide (
              rw alone (
                extend_empty seen _ word (push_line-Holds seen lines current h) (leb→le _ _ alone)))
          | inr long ↦
              rw wide
                (rw long (split_word-Holds seen _ [] word (push_line-Holds seen lines current h)))
        ]
      ]
    where
      candidate : List ℕ → List ℕ
      candidate current = if is_empty current then word else current ++ (32 ∷ word)

      joined :
          (current : List ℕ)
          → Holds seen lines current
          → Fits (candidate current)
          → Holds (seen ++ strip word) lines (candidate current)
      joined [] h f = extend_empty seen lines word h f
      joined (y ∷ current) h f = extend seen lines (y ∷ current) (32 ∷ word) h f

  wrap_words-Holds :
      (seen : List ℕ) (lines : Lines) (current : List ℕ) (words : Lines)
      → All IsWord words
      → Holds seen lines current
      → Holds (seen ++ concat words) (wrap_words max_width scale lines current words) []
  unfolding wrap_words
  wrap_words-Holds seen lines current [] w h =
      rw (append-nil seen) (push_line-Holds seen lines current h)
  wrap_words-Holds seen lines current (word ∷ words) w h =
      rw (← (append_assoc seen word (concat words))) (
        wrap_words-Holds (seen ++ word) _ _ words w.1
          (rw (strip-word word w.0) at (place_word-Holds seen lines current word h)))

-- For every list of words, and a column that is as wide as one character at the scale: every line
-- of `wrap_text` fits into the column, and without spaces the lines read as the words do.
pub wrap_text_lem :
    (words : Lines) (max_width scale : ℕ)
    → All IsWord words
    → text_width (0 ∷ []) scale ≤ max_width
    → All (λ line. text_width line scale ≤ max_width) (wrap_text words max_width scale)
      × (strip (concat (wrap_text words max_width scale)) ≡ concat words)
unfolding wrap_text
wrap_text_lem words max_width scale w one =
    let h =
      wrap_words-Holds max_width scale one [] [] [] words w
        (record { all_fit = tt; fits = empty-Fits max_width scale one; holds = refl }) in
    (
      h.all_fit,
      ap strip (sym (append-nil (concat (wrap_words max_width scale [] [] words)))) ∙ h.holds,
    )

shrink_lem :
    (text : List ℕ) (max_width n : ℕ)
    → 1 ≤ n
    → (1 ≤ shrink text max_width n)
      × (shrink text max_width n ≤ n)
      × ((shrink text max_width n ≡ 1) ⊎ (text_width text (shrink text max_width n) ≤ max_width))
      × ((s : ℕ) → shrink text max_width n < s → s ≤ n → max_width < text_width text s)
unfolding shrink
shrink_lem text max_width zero h = absurd (omega arith)
shrink_lem text max_width (suc zero) h =
    (omega arith, omega arith, inl refl, λ s low high. absurd (omega arith))
shrink_lem text max_width (suc (suc n)) h =
    let (low, high, stop, none_between) = shrink_lem text max_width (suc n) (omega arith) in
    elim (Bool-cases (ltb max_width (text_width text (suc (suc n))))) [
      | inl wide ↦ rw wide (
        low,
        omega (arith, high),
        stop,
        λ s above below. last s (ltb→lt _ _ wide) (none_between s above) below,
      )
      | inr fits ↦
          rw fits
            (omega arith, omega arith, inr (narrow _ _ fits), λ s low' high'. absurd (omega arith))
    ]
  where
    narrow : (a b : ℕ) → ltb a b ≡ false → b ≤ a
    narrow a b h = ground arith

    last :
        (s : ℕ)
        → max_width < text_width text (suc (suc n))
        → (s ≤ suc n → max_width < text_width text s)
        → s ≤ suc (suc n)
        → max_width < text_width text s
    last s top under below = elim (le-cases s (suc n)) [
      | inl le ↦ under le
      | inr gt ↦ let e : s ≡ suc (suc n) = omega (arith, gt, below) in rw e top
    ]

-- `fitted_scale` gives the greatest scale up to the preferred one, and at least 1, at which the
-- text fits; 1 where it fits at none.
pub fitted_scale_lem :
    (text : List ℕ) (max_width preferred : ℕ)
    → let scale = fitted_scale text max_width preferred in
      (1 ≤ scale)
      × ((scale ≡ 1) ⊎ ((scale ≤ preferred) × (text_width text scale ≤ max_width)))
      × ((s : ℕ) → scale < s → s ≤ preferred → max_width < text_width text s)
unfolding fitted_scale
fitted_scale_lem text max_width preferred = elim (Bool-cases (ltb preferred 1)) [
  | inl none_wanted ↦
      let (low, high, stop, above) = shrink_lem text max_width 1 (omega arith) in
      rw none_wanted (
        low,
        inl (omega (arith, low, high)),
        λ s up down. absurd (omega (arith, ltb→lt _ _ none_wanted, up, down, low)),
      )
  | inr wanted ↦
      let (low, high, stop, above) =
        shrink_lem text max_width preferred (at_least preferred wanted) in
      rw wanted (low, fitting _ high stop, above)
]
  where
    at_least : (n : ℕ) → ltb n 1 ≡ false → 1 ≤ n
    at_least n h = ground arith

    fitting :
        (scale : ℕ)
        → scale ≤ preferred
        → (scale ≡ 1) ⊎ (text_width text scale ≤ max_width)
        → (scale ≡ 1) ⊎ ((scale ≤ preferred) × (text_width text scale ≤ max_width))
    fitting scale le (inl e) = inl e
    fitting scale le (inr w) = inr (le, w)
