-- ===== src/Json/Strings.antt =====
-- The strings of JSON: how `Marshal` writes one, and how `Unmarshal` reads one.
use ingress_bfe.Base.{
  ℕ, zero, suc, ◌+◌, ◌-◌, ◌*◌, ◌/◌, ◌%◌, ltb, ◌==◌, Text, text, Bool, false, ◌&&◌, ◌||◌,
  if◌then◌else◌, [], ◌∷◌, ◌++◌, take, drop, text_eq, Option, none, some,
}
use ingress_bfe.Json.Utf8.{rune_width, encode_rune, replacement, within}

abbrev pub quote : ℕ
quote = 34

abbrev pub backslash : ℕ
backslash = 92

-- A digit of a hexadecimal number in lower case.
abbrev pub hex_digit : ℕ → ℕ
hex_digit n = if ltb n 10 then 48 + n else 87 + n

-- `\u00XY` for a byte below 0x80
abbrev pub escape_byte : ℕ → Text
escape_byte c = text "\\u00" ++ hex_digit (c / 16) ∷ hex_digit (c % 16) ∷ []

-- The characters `<`, `>` and `&`, which `Marshal` escapes for HTML.
abbrev pub is_html : ℕ → Bool
is_html c = c == 60 || c == 62 || c == 38

-- What `Marshal` writes for a byte below 0x80.
unfoldable pub write_ascii : ℕ → Text
write_ascii c =
    if c == quote || c == backslash
    then backslash ∷ c ∷ []
    else if c == 10
    then text "\\n"
    else if c == 13
    then text "\\r"
    else if c == 9
    then text "\\t"
    else if ltb c 32 || is_html c
    then escape_byte c
    else c ∷ []

-- U+2028 and U+2029, which `Marshal` escapes as well.
abbrev pub is_separator : Text → Bool
is_separator (a ∷ b ∷ c ∷ []) = a == 0xe2 && b == 0x80 && (c == 0xa8 || c == 0xa9)
is_separator _ = false

-- What `Marshal` writes for a character of more bytes.
unfoldable pub write_rune : Text → Text
write_rune rune =
    if is_separator rune
    then (if text_eq rune (encode_rune 0x2028) then text "\\u2028" else text "\\u2029")
    else rune

-- The text of the character that a text starts with, and the bytes of it behind the first.
unfoldable pub write_unit : Text → Text × ℕ
unfolding write_ascii write_rune rune_width
write_unit [] = ([], 0)
write_unit (c ∷ s) = if ltb c 0x80 then (write_ascii c, 0) else elim (rune_width (c ∷ s)) [
  | zero ↦ (text "\\ufffd", 0)
  | suc k ↦ (write_rune (take (suc k) (c ∷ s)), k)
]

-- The loop of `Marshal`, past `skip` bytes.
unfoldable pub write_from : ℕ → Text → Text
unfolding write_unit
write_from skip [] = []
write_from (suc skip) (c ∷ s) = write_from skip s
write_from zero (c ∷ s) = let (unit, k) = write_unit (c ∷ s) in unit ++ write_from k s

-- A string as `Marshal` writes it.
unfoldable pub write_string : Text → Text
unfolding write_from
write_string s = quote ∷ write_from 0 s ++ quote ∷ []

-- The value of a hexadecimal digit of either case.
unfoldable pub hex_value : ℕ → Option ℕ
hex_value c =
    if within 48 57 c
    then some (c - 48)
    else if within 97 102 c
    then some (c - 87)
    else if within 65 70 c
    then some (c - 55)
    else none

abbrev hex_step : Option ℕ → Option ℕ → Option ℕ
hex_step none d = none
hex_step (some n) none = none
hex_step (some n) (some d) = some (n * 16 + d)

-- The number of four such digits at the start of a text.
unfoldable pub hex4 : Text → Option ℕ
unfolding hex_value
hex4 (a ∷ b ∷ c ∷ d ∷ _) =
    hex_step (hex_step (hex_step (hex_value a) (hex_value b)) (hex_value c)) (hex_value d)
hex4 _ = none

-- `getu4`: the same behind `\u`
unfoldable pub get_u4 : Text → Option ℕ
unfolding hex4
get_u4 (a ∷ b ∷ s) = if a == backslash && b == b'u' then hex4 s else none
get_u4 _ = none

-- The pair of surrogates `r` and `r2`, or `r` alone, which stands for no character.
abbrev pub surrogate : ℕ → Option ℕ → Text × ℕ
surrogate r none = (encode_rune replacement, 5)
surrogate r (some r2) =
    if ltb r 0xdc00 && within 0xdc00 0xdfff r2
    then (encode_rune ((r - 0xd800) * 1024 + (r2 - 0xdc00) + 0x10000), 11)
    else (encode_rune replacement, 5)

-- What follows `\u`, for the number of its digits.
abbrev pub unicode : Text → Option ℕ → Option (Text × ℕ)
unicode s none = none
unicode s (some r) =
    some (if within 0xd800 0xdfff r then surrogate r (get_u4 (drop 4 s)) else (encode_rune r, 5))

-- The character of an escape, behind the backslash, and the bytes of the escape there.
unfoldable pub read_escape : Text → Option (Text × ℕ)
unfolding hex4 get_u4 encode_rune
read_escape [] = none
read_escape (e ∷ s) =
    if e == quote || e == backslash || e == b'/'
    then some (e ∷ [], 1)
    else if e == b'b'
    then some (8 ∷ [], 1)
    else if e == b'f'
    then some (12 ∷ [], 1)
    else if e == b'n'
    then some (10 ∷ [], 1)
    else if e == b'r'
    then some (13 ∷ [], 1)
    else if e == b't'
    then some (9 ∷ [], 1)
    else if e == b'u'
    then unicode s (hex4 s)
    else none

-- The character that a text inside a string starts with, and its bytes behind the first.
unfoldable pub read_unit : Text → Option (Text × ℕ)
unfolding read_escape rune_width
read_unit [] = none
read_unit (c ∷ s) =
    if c == backslash
    then read_escape s
    else if ltb c 32
    then none
    else if ltb c 0x80
    then some (c ∷ [], 0)
    else elim (rune_width (c ∷ s)) [
      | zero ↦ some (encode_rune replacement, 0)
      | suc k ↦ some (take (suc k) (c ∷ s), k)
    ]

abbrev pub prepend : Text → Option (Text × ℕ) → Option (Text × ℕ)
prepend unit none = none
prepend unit (some (s, n)) = some (unit ++ s, suc n)

-- The content of a string behind its first quote, past `skip` bytes, and the number of bytes up to
-- and with its last quote.
unfoldable pub read_from : ℕ → Text → Option (Text × ℕ)
unfolding read_unit
read_from skip [] = none
read_from (suc skip) (c ∷ s) = prepend [] (read_from skip s)
read_from zero (c ∷ s) =
    if c == quote
    then some ([], 1)
    else elim (read_unit (c ∷ s)) [ none ↦ none | some (unit, k) ↦ prepend unit (read_from k s) ]
