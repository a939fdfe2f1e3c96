-- ===== src/Keycard/Text.antt =====
-- keycard.rs: fitting the card's texts into their columns. A text is the list of its characters,
-- and `split_whitespace`, of the standard library, gives its words.
pub mod Wrapping
use or_isy_vra.Base.{
  ℕ, zero, suc, ◌+◌, ◌-◌, ◌*◌, ◌%◌, ◌^◌, min, List, [], ◌∷◌, ◌++◌, length, Bool, true, false, not,
  ◌&&◌, if◌then◌else◌, ltb, leb,
}

abbrev pub u32_max : ℕ
u32_max = 2 ^ 32 - 1

-- `count.saturating_mul(9_u32.saturating_mul(scale)).saturating_sub(scale)`.
unfoldable pub text_width : List ℕ → ℕ → ℕ
text_width text scale =
    let count = length text % 2 ^ 32 in min (count * min (9 * scale) u32_max) u32_max - scale

-- `while scale > 1 && text_width(text, scale) > max_width { scale -= 1; }`.
unfoldable pub shrink : List ℕ → ℕ → ℕ → ℕ
shrink text max_width zero = zero
shrink text max_width (suc zero) = suc zero
shrink text max_width (suc (suc n)) =
    let smaller = shrink text max_width (suc n) in
    if ltb max_width (text_width text (suc (suc n))) then smaller else suc (suc n)

unfoldable pub fitted_scale : List ℕ → ℕ → ℕ → ℕ
fitted_scale text max_width preferred_scale =
    shrink text max_width (if ltb preferred_scale 1 then 1 else preferred_scale)

abbrev pub is_empty : List ℕ → Bool
is_empty [] = true
is_empty (x ∷ xs) = false

abbrev pub Lines : Type 0
Lines = List (List ℕ)

-- `if !current.is_empty() { lines.push(take(&mut current)); }`.
abbrev pub push_line : Lines → List ℕ → Lines
push_line lines current = if is_empty current then lines else lines ++ (current ∷ [])

-- The loop over the characters of a word that is too long: the lines, and what is left.
unfoldable pub split_word : ℕ → ℕ → Lines → List ℕ → List ℕ → Lines × List ℕ
split_word max_width scale lines fragment [] = (lines, fragment)
split_word max_width scale lines fragment (character ∷ word) =
    let full =
      not (is_empty fragment) && ltb max_width (text_width (fragment ++ (character ∷ [])) scale) in
    split_word max_width scale (if full then lines ++ (fragment ∷ []) else lines)
      ((if full then [] else fragment) ++ (character ∷ [])) word

-- One word of the outer loop: the lines and the current line behind it.
unfoldable pub place_word : ℕ → ℕ → Lines → List ℕ → List ℕ → Lines × List ℕ
place_word max_width scale lines current word =
    let candidate = if is_empty current then word else current ++ (32 ∷ word) in
    if leb (text_width candidate scale) max_width
    then (lines, candidate)
    else if leb (text_width word scale) max_width
    then (push_line lines current, word)
    else split_word max_width scale (push_line lines current) [] word

unfoldable pub wrap_words : ℕ → ℕ → Lines → List ℕ → Lines → Lines
wrap_words max_width scale lines current [] = push_line lines current
wrap_words max_width scale lines current (word ∷ words) =
    let (lines', current') = place_word max_width scale lines current word in
    wrap_words max_width scale lines' current' words

-- `wrap_text`, on the words of the text.
unfoldable pub wrap_text : Lines → ℕ → ℕ → Lines
wrap_text words max_width scale = wrap_words max_width scale [] [] words
