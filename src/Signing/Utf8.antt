-- ===== src/Signing/Utf8.antt =====
-- `std::str::from_utf8`: which byte sequences are the UTF-8 of a text. The source's `String`s are
-- modelled by their bytes.
use key_quorom.Prelude.{
  ℕ, Bool, true, false, ◌&&◌, ◌||◌, List, [], ◌∷◌, leb, ltb, ◌==◌, if◌then◌else◌,
}

abbrev pub between : ℕ → ℕ → ℕ → Bool
between lo hi b = leb lo b && leb b hi

-- A continuation byte.
abbrev pub is_tail : ℕ → Bool
is_tail b = between 0x80 0xbf b

-- The second byte after the first byte of a sequence of three; the range rules out surrogates and
-- overlong forms. Likewise for four.
abbrev pub second_of_three : ℕ → ℕ → Bool
second_of_three a b =
    (a == 0xe0 && between 0xa0 0xbf b)
    || (between 0xe1 0xec a && is_tail b)
    || (a == 0xed && between 0x80 0x9f b)
    || (between 0xee 0xef a && is_tail b)

abbrev pub second_of_four : ℕ → ℕ → Bool
second_of_four a b =
    (a == 0xf0 && between 0x90 0xbf b)
    || (between 0xf1 0xf3 a && is_tail b)
    || (a == 0xf4 && between 0x80 0x8f b)

unfoldable pub is_utf8 : List ℕ → Bool
is_utf8 [] = true
is_utf8 (a ∷ []) = ltb a 0x80
is_utf8 (a ∷ b ∷ []) =
    let ascii = is_utf8 (b ∷ []) in if ltb a 0x80 then ascii else between 0xc2 0xdf a && is_tail b
is_utf8 (a ∷ b ∷ c ∷ []) =
    let ascii = is_utf8 (b ∷ c ∷ []) in
    let two = is_utf8 (c ∷ []) in
    if ltb a 0x80
    then ascii
    else if between 0xc2 0xdf a && is_tail b
    then two
    else second_of_three a b && is_tail c
is_utf8 (a ∷ b ∷ c ∷ d ∷ rest) =
    let ascii = is_utf8 (b ∷ c ∷ d ∷ rest) in
    let two = is_utf8 (c ∷ d ∷ rest) in
    let three = is_utf8 (d ∷ rest) in
    let four = is_utf8 rest in
    if ltb a 0x80
    then ascii
    else if between 0xc2 0xdf a && is_tail b
    then two
    else if second_of_three a b && is_tail c
    then three
    else if second_of_four a b && (is_tail c && is_tail d)
    then four
    else false
