-- ===== src/Base/Bytes.antt =====
-- Go strings as lists of bytes, and what the program uses of package `strings`.
use Prim.Native.Nat.{ℕ, zero, suc, ◌+◌}
use Prim.Native.Char.{code}
use Prim.Native.String.{String}
use mathlib.Core.Path.{◌≡◌, refl}
use mathlib.Core.Logic.{◌↔◌}
use mathlib.Core.List.{List, [], ◌∷◌, ◌++◌, reverse}
use mathlib.Core.Bool.{Bool, true, false, ◌&&◌, ◌||◌}
use mathlib.Core.Option.{Option, none, some}
use mathlib.Core.Option
use native.Mathlib.Omega.{arith}
use ingress_bfe.Base.Tests.{leb, ◌==◌, if◌then◌else◌}

abbrev pub Text : Type 0
Text = List ℕ

-- A literal; the program's literals are ASCII, so its bytes are its code points.
unfoldable pub text : String → Text
text String.[] = []
text (String.◌∷◌ c s) = code c ∷ text s

unfoldable pub text_eq : Text → Text → Bool
text_eq [] [] = true
text_eq [] (_ ∷ _) = false
text_eq (_ ∷ _) [] = false
text_eq (a ∷ s) (b ∷ t) = a == b && text_eq s t

pub text_eq_iff : (s t : Text) → (text_eq s t ≡ true) ↔ (s ≡ t)
unfolding text_eq
text_eq_iff [] [] = ground arith
text_eq_iff [] (_ ∷ _) = ground arith
text_eq_iff (_ ∷ _) [] = ground arith
text_eq_iff (a ∷ s) (b ∷ t) = ground (arith, text_eq_iff s t)

pub text_eq_refl : (s : Text) → text_eq s s ≡ true
text_eq_refl s = (text_eq_iff s s).1 refl

-- `len(s) == 0`
abbrev pub is_empty : Text → Bool
is_empty [] = true
is_empty (_ ∷ _) = false

-- `strings.HasPrefix(s, prefix)`
unfoldable pub has_prefix : Text → Text → Bool
has_prefix s [] = true
has_prefix [] (_ ∷ _) = false
has_prefix (a ∷ s) (b ∷ p) = a == b && has_prefix s p

-- `strings.HasSuffix(s, suffix)`
unfoldable pub has_suffix : Text → Text → Bool
unfolding has_prefix
has_suffix s suffix = has_prefix (reverse s) (reverse suffix)

-- `strings.Count(s, b)` for a text `b` of one byte
unfoldable pub count_byte : Text → ℕ → ℕ
count_byte [] b = 0
count_byte (a ∷ s) b = (if a == b then 1 else 0) + count_byte s b

-- `strings.Index(s, b)` for a text `b` of one byte; -1 is `none`
unfoldable pub index_byte : Text → ℕ → Option ℕ
index_byte [] b = none
index_byte (a ∷ s) b = if a == b then some 0 else Option.map suc (index_byte s b)

-- `strings.LastIndexByte(s, b)`; -1 is `none`
unfoldable pub last_index_byte : Text → ℕ → Option ℕ
last_index_byte [] b = none
last_index_byte (a ∷ s) b = elim (last_index_byte s b) [
  | some i ↦ some (suc i)
  | none ↦ if a == b then some 0 else none
]

-- `strings.ReplaceAll(s, b, new)` for a text `b` of one byte
unfoldable pub replace_byte : Text → ℕ → Text → Text
replace_byte [] b new = []
replace_byte (a ∷ s) b new = (if a == b then new else a ∷ []) ++ replace_byte s b new

-- `strings.Join(elems, sep)`
unfoldable pub join : List Text → Text → Text
join [] sep = []
join (s ∷ []) sep = s
join (s ∷ t ∷ ts) sep = s ++ sep ++ join (t ∷ ts) sep

abbrev cons_head : ℕ → List Text → List Text
cons_head a [] = (a ∷ []) ∷ []
cons_head a (s ∷ ss) = (a ∷ s) ∷ ss

-- `strings.Split(s, sep)` for a separator of one byte; never the empty list
unfoldable pub split_byte : Text → ℕ → List Text
split_byte [] sep = [] ∷ []
split_byte (a ∷ s) sep =
    let rest = split_byte s sep in if a == sep then [] ∷ rest else cons_head a rest

ascii_space : ℕ → Bool
ascii_space a = a == 32 || (leb 9 a && leb a 13)

-- U+0085 and U+00A0
space_2 : ℕ → ℕ → Bool
space_2 a b = a == 0xc2 && (b == 0x85 || b == 0xa0)

-- U+1680, U+2000 to U+200A, U+2028, U+2029, U+202F, U+205F, U+3000
space_3 : ℕ → ℕ → ℕ → Bool
space_3 a b c =
    (a == 0xe1 && b == 0x9a && c == 0x80)
    || (a == 0xe2 && b == 0x80 && (leb 0x80 c && leb c 0x8a || c == 0xa8 || c == 0xa9 || c == 0xaf))
    || (a == 0xe2 && b == 0x81 && c == 0x9f)
    || (a == 0xe3 && b == 0x80 && c == 0x80)

-- The bytes of the white space character (`unicode.IsSpace`) that a UTF-8 text starts with, 0 if
-- it starts with none.
leading_space : Text → ℕ
unfolding ascii_space space_2 space_3
leading_space [] = 0
leading_space (a ∷ []) = if ascii_space a then 1 else 0
leading_space (a ∷ b ∷ []) = if ascii_space a then 1 else if space_2 a b then 2 else 0
leading_space (a ∷ b ∷ c ∷ _) =
    if ascii_space a then 1 else if space_2 a b then 2 else if space_3 a b c then 3 else 0

-- The same for the end of a text that is given reversed.
trailing_space : Text → ℕ
unfolding ascii_space space_2 space_3
trailing_space [] = 0
trailing_space (a ∷ []) = if ascii_space a then 1 else 0
trailing_space (b ∷ a ∷ []) = if ascii_space b then 1 else if space_2 a b then 2 else 0
trailing_space (c ∷ b ∷ a ∷ _) =
    if ascii_space c then 1 else if space_2 b c then 2 else if space_3 a b c then 3 else 0

-- Drops `skip` bytes, then white space as `width` measures it.
trim_from : (Text → ℕ) → ℕ → Text → Text
trim_from width skip [] = []
trim_from width (suc skip) (a ∷ s) = trim_from width skip s
trim_from width zero (a ∷ s) = elim (width (a ∷ s)) [ zero ↦ a ∷ s | suc k ↦ trim_from width k s ]

-- `strings.TrimSpace`
unfoldable pub trim_space : Text → Text
unfolding leading_space trailing_space trim_from
trim_space s = reverse (trim_from trailing_space 0 (reverse (trim_from leading_space 0 s)))
