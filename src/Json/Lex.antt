-- ===== src/Json/Lex.antt =====
-- The tokens of a JSON text.
use ingress_bfe.Base.{
  ℕ, zero, suc, ◌==◌, Text, text, has_prefix, Bool, true, false, ◌||◌, if◌then◌else◌, List, [], ◌∷◌,
  length, Option, none, some,
}
use ingress_bfe.Json.Utf8.{within}
use ingress_bfe.Json.Strings.{quote, read_from}

pub data Token : Type 0 where
  open_object close_object open_array close_array comma colon null : Token
  boolean : Bool → Token
  -- the digits as they stand
  number : Text → Token
  str : Text → Token

abbrev is_digit : ℕ → Bool
is_digit c = within 48 57 c

-- A character that can stand in a number: a digit or one of `+-.eE`.
abbrev in_number : ℕ → Bool
in_number c = is_digit c || c == 43 || c == 45 || c == 46 || c == 101 || c == 69

-- The characters of a number at the start of a text.
unfoldable pub number_run : Text → Text
number_run [] = []
number_run (c ∷ s) = let rest = number_run s in if in_number c then c ∷ rest else []

-- The places in a number: behind nothing, a sign, a leading zero, the integer part, the point, the
-- fraction, the exponent's letter, its sign, and its digits.
pub data Place : Type 0 where
  begin signed zeroed whole point fraction letter letter_sign exponent : Place

-- The next place, if the character can stand there.
abbrev next_place : Place → ℕ → Option Place
next_place begin c =
    if c == 45
    then some signed
    else if c == 48
    then some zeroed
    else if is_digit c
    then some whole
    else none
next_place signed c = if c == 48 then some zeroed else if is_digit c then some whole else none
next_place zeroed c =
    if c == 46 then some point else if c == 101 || c == 69 then some letter else none
next_place whole c =
    if is_digit c
    then some whole
    else if c == 46
    then some point
    else if c == 101 || c == 69
    then some letter
    else none
next_place point c = if is_digit c then some fraction else none
next_place fraction c =
    if is_digit c then some fraction else if c == 101 || c == 69 then some letter else none
next_place letter c =
    if c == 43 || c == 45 then some letter_sign else if is_digit c then some exponent else none
next_place letter_sign c = if is_digit c then some exponent else none
next_place exponent c = if is_digit c then some exponent else none

abbrev can_end : Place → Bool
can_end zeroed = true
can_end whole = true
can_end fraction = true
can_end exponent = true
can_end _ = false

unfoldable pub is_number_from : Place → Text → Bool
is_number_from place [] = can_end place
is_number_from place (c ∷ s) = elim (next_place place c) [
  | none ↦ false
  | some next ↦ is_number_from next s
]

abbrev is_space : ℕ → Bool
is_space c = c == 32 || c == 9 || c == 13 || c == 10

-- What is read at a place: a token or white space, and the bytes of it behind the first.
abbrev pub Read : Type 0
Read = Option (Option Token × ℕ)

abbrev pub token : Token → ℕ → Read
token t k = some (some t, k)

abbrev pub string_token : Option (Text × ℕ) → Read
string_token none = none
string_token (some (s, n)) = token (str s) n

abbrev number_token : Text → Read
number_token [] = none
number_token (c ∷ s) =
    if is_number_from begin (c ∷ s) then token (number (c ∷ s)) (length s) else none

-- One of the three words, or a number.
abbrev word_token : Text → Read
word_token s =
    if has_prefix s (text "null")
    then token null 3
    else if has_prefix s (text "true")
    then token (boolean true) 3
    else if has_prefix s (text "false")
    then token (boolean false) 4
    else number_token (number_run s)

unfoldable pub read_token : Text → Read
unfolding read_from number_run is_number_from
read_token [] = none
read_token (c ∷ s) =
    if is_space c
    then some (none, 0)
    else if c == quote
    then string_token (read_from 0 s)
    else if c == b'{'
    then token open_object 0
    else if c == b'}'
    then token close_object 0
    else if c == b'['
    then token open_array 0
    else if c == b']'
    then token close_array 0
    else if c == b':'
    then token colon 0
    else if c == b','
    then token comma 0
    else word_token (c ∷ s)

abbrev pub add_token : Option Token → Option (List Token) → Option (List Token)
add_token t none = none
add_token none (some ts) = some ts
add_token (some t) (some ts) = some (t ∷ ts)

-- The tokens of a text past `skip` bytes; `none` is a syntax error.
unfoldable pub lex_from : ℕ → Text → Option (List Token)
unfolding read_token
lex_from skip [] = some []
lex_from (suc skip) (c ∷ s) = lex_from skip s
lex_from zero (c ∷ s) = elim (read_token (c ∷ s)) [
  | none ↦ none
  | some (t, k) ↦ add_token t (lex_from k s)
]
