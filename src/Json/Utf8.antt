-- ===== src/Json/Utf8.antt =====
-- UTF-8 as package `unicode/utf8` reads and writes it.
use ingress_bfe.Base.{
  ℕ, zero, suc, ◌+◌, ◌/◌, ◌%◌, ltb, leb, ◌==◌, Text, Bool, false, ◌&&◌, ◌||◌, if◌then◌else◌, [],
  ◌∷◌,
}

-- A byte in a range.
abbrev pub within : ℕ → ℕ → ℕ → Bool
within low high b = leb low b && leb b high

abbrev pub continues : ℕ → Bool
continues b = within 0x80 0xbf b

-- The second byte after the first byte `a` of a sequence of two, three or four bytes.
unfoldable pub starts_2 : ℕ → ℕ → Bool
starts_2 a b = within 0xc2 0xdf a && continues b

unfoldable pub starts_3 : ℕ → ℕ → Bool
starts_3 a b =
    (a == 0xe0 && within 0xa0 0xbf b)
    || (a == 0xed && within 0x80 0x9f b)
    || ((within 0xe1 0xec a || within 0xee 0xef a) && continues b)

unfoldable pub starts_4 : ℕ → ℕ → Bool
starts_4 a b =
    (a == 0xf0 && within 0x90 0xbf b)
    || (a == 0xf4 && within 0x80 0x8f b)
    || (within 0xf1 0xf3 a && continues b)

-- The number of bytes of the character that a text starts with, 0 if it starts with none: the
-- second result of `utf8.DecodeRune`, where that is 1 only for a byte below 0x80.
unfoldable pub rune_width : Text → ℕ
unfolding starts_2 starts_3 starts_4
rune_width [] = 0
rune_width (a ∷ []) = if ltb a 0x80 then 1 else 0
rune_width (a ∷ b ∷ []) = if ltb a 0x80 then 1 else if starts_2 a b then 2 else 0
rune_width (a ∷ b ∷ c ∷ []) =
    if ltb a 0x80
    then 1
    else if starts_2 a b
    then 2
    else if starts_3 a b && continues c
    then 3
    else 0
rune_width (a ∷ b ∷ c ∷ d ∷ _) =
    if ltb a 0x80
    then 1
    else if starts_2 a b
    then 2
    else if starts_3 a b && continues c
    then 3
    else if starts_4 a b && continues c && continues d
    then 4
    else 0

-- U+FFFD, the replacement character.
abbrev pub replacement : ℕ
replacement = 0xfffd

-- `utf8.EncodeRune`
unfoldable pub encode_rune : ℕ → Text
encode_rune r =
    if ltb r 0x80
    then r ∷ []
    else if ltb r 0x800
    then (0xc0 + r / 64) ∷ (0x80 + r % 64) ∷ []
    else if ltb r 0x10000
    then (0xe0 + r / 4096) ∷ (0x80 + r / 64 % 64) ∷ (0x80 + r % 64) ∷ []
    else (0xf0 + r / 262144) ∷ (0x80 + r / 4096 % 64) ∷ (0x80 + r / 64 % 64) ∷ (0x80 + r % 64) ∷ []

-- A text is valid UTF-8; `skip` bytes of it belong to the character before.
unfoldable pub is_utf8_from : ℕ → Text → Bool
unfolding rune_width
is_utf8_from skip [] = skip == 0
is_utf8_from (suc skip) (c ∷ s) = is_utf8_from skip s
is_utf8_from zero (c ∷ s) = elim (rune_width (c ∷ s)) [ zero ↦ false | suc k ↦ is_utf8_from k s ]

-- `utf8.Valid`
abbrev pub is_utf8 : Text → Bool
is_utf8 s = is_utf8_from 0 s
