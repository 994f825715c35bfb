-- ===== src/Base/Decimal.antt =====
-- Signed integers, decimal numbers in text (`%d`, `strconv.Atoi`), and Go's `int32(i)`.
use Prim.Native.Nat.{ℕ, zero, suc, ◌+◌, ◌-◌, ◌*◌, ◌/◌, ◌%◌, ◌^◌, ◌≤◌, ◌<◌}
use mathlib.Core.Path.{◌≡◌}
use mathlib.Core.Logic.{◌↔◌, inl, inr}
use mathlib.Core.List.{[], ◌∷◌}
use mathlib.Core.Bool.{Bool, true, false, ◌&&◌}
use mathlib.Core.Option.{Option, none, some}
use native.Mathlib.Omega.{arith}
use ingress_bfe.Base.Tests.{ltb, leb, ◌==◌, Bool-cases, if◌then◌else◌}
use ingress_bfe.Base.Bytes.{Text}

-- `negsuc n` is -(n + 1).
pub data ℤ : Type 0 where
  pos : ℕ → ℤ
  negsuc : ℕ → ℤ

unfoldable pub ℤ_eq : ℤ → ℤ → Bool
ℤ_eq (pos m) (pos n) = m == n
ℤ_eq (negsuc m) (negsuc n) = m == n
ℤ_eq (pos _) (negsuc _) = false
ℤ_eq (negsuc _) (pos _) = false

pub ℤ_eq_iff : (a b : ℤ) → (ℤ_eq a b ≡ true) ↔ (a ≡ b)
unfolding ℤ_eq
ℤ_eq_iff (pos m) (pos n) = ground arith
ℤ_eq_iff (negsuc m) (negsuc n) = ground arith
ℤ_eq_iff (pos _) (negsuc _) = ground arith
ℤ_eq_iff (negsuc _) (pos _) = ground arith

-- `a > 0`
abbrev pub is_pos : ℤ → Bool
is_pos (pos n) = ltb 0 n
is_pos (negsuc n) = false

-- `a < 0`
abbrev pub is_neg : ℤ → Bool
is_neg (pos n) = false
is_neg (negsuc n) = true

-- The `int32` with the 32 bits `n`.
abbrev of_bits : ℕ → ℤ
of_bits n = if ltb n (2 ^ 31) then pos n else negsuc (2 ^ 32 - 1 - n)

-- `int32(i)`: the low 32 bits of an `int`.
unfoldable pub int32 : ℤ → ℤ
int32 (pos n) = of_bits (n % 2 ^ 32)
int32 (negsuc n) = of_bits (2 ^ 32 - 1 - n % 2 ^ 32)

pub int32_small : (n : ℕ) → n < 2 ^ 31 → int32 (pos n) ≡ pos n
unfolding int32
int32_small n h = ground arith

-- The decimal digits of `n` in front of `acc`; the fuel must exceed `n`.
unfoldable pub format_from : ℕ → ℕ → Text → Text
format_from zero n acc = acc
format_from (suc fuel) n acc =
    let rest = format_from fuel (n / 10) ((48 + n % 10) ∷ acc) in
    if ltb n 10 then (48 + n) ∷ acc else rest

unfoldable pub format_ℕ : ℕ → Text
unfolding format_from
format_ℕ n = format_from (suc n) n []

is_digit : ℕ → Bool
is_digit c = leb 48 c && leb c 57

unfoldable pub digits_from : ℕ → Text → Option ℕ
unfolding is_digit
digits_from n [] = some n
digits_from n (c ∷ s) =
    let rest = digits_from (n * 10 + (c - 48)) s in if is_digit c then rest else none

-- A non-empty run of digits.
abbrev number : Text → Option ℕ
number [] = none
number (c ∷ s) = digits_from 0 (c ∷ s)

-- An `int` of 64 bits from a sign and a magnitude; `none` is out of range.
abbrev positive : Option ℕ → Option ℤ
positive none = none
positive (some n) = if ltb n (2 ^ 63) then some (pos n) else none

abbrev negative : Option ℕ → Option ℤ
negative none = none
negative (some zero) = some (pos 0)
negative (some (suc n)) = if ltb n (2 ^ 63) then some (negsuc n) else none

-- `strconv.Atoi`; an error is `none`
unfoldable pub atoi : Text → Option ℤ
unfolding digits_from
atoi [] = none
atoi (c ∷ s) =
    if c == b'-'
    then negative (number s)
    else if c == b'+'
    then positive (number s)
    else positive (number (c ∷ s))

digits_from-format_from :
    (fuel n : ℕ) (acc : Text)
    → n < fuel
    → digits_from 0 (format_from fuel n acc) ≡ digits_from n acc
unfolding digits_from format_from
digits_from-format_from zero n acc h = absurd (omega arith)
digits_from-format_from (suc fuel) n acc h =
    ground (arith, digits_from-format_from fuel (n / 10) ((48 + n % 10) ∷ acc))

-- the first byte of a printed number is a digit
format_from_head :
    (fuel n : ℕ) (acc : Text)
    → n < fuel
    → (c : ℕ) × (s : Text) × (format_from fuel n acc ≡ c ∷ s) × (48 ≤ c) × (c ≤ 57)
unfolding format_from
format_from_head zero n acc h = absurd (omega arith)
format_from_head (suc fuel) n acc h = elim (Bool-cases (ltb n 10)) [
  | inl e ↦ (48 + n, acc, rw e, omega arith, ground arith)
  | inr e ↦ rw e (format_from_head fuel (n / 10) ((48 + n % 10) ∷ acc) (ground arith))
]

-- Parsing what `%d` prints gives the number back.
pub atoi-format_ℕ : (n : ℕ) → n < 2 ^ 63 → atoi (format_ℕ n) ≡ some (pos n)
unfolding atoi format_ℕ
atoi-format_ℕ n h =
    let (c, s, e, lo, hi) = format_from_head (suc n) n [] (omega arith) in
    let p = digits_from-format_from (suc n) n [] (omega arith) in rw e (ground (arith, e, p))

-- An `int` of 64 bits.
abbrev pub Fits : ℤ → Type 0
Fits (pos n) = n < 2 ^ 63
Fits (negsuc n) = n < 2 ^ 63

positive-Fits : (o : Option ℕ) (z : ℤ) → positive o ≡ some z → Fits z
positive-Fits none z e = ground arith
positive-Fits (some m) (pos n) e = ground (arith, e)
positive-Fits (some m) (negsuc n) e = ground (arith, e)

negative-Fits : (o : Option ℕ) (z : ℤ) → negative o ≡ some z → Fits z
negative-Fits none z e = ground arith
negative-Fits (some zero) (pos n) e = ground (arith, e)
negative-Fits (some zero) (negsuc n) e = ground (arith, e)
negative-Fits (some (suc m)) (pos n) e = ground (arith, e)
negative-Fits (some (suc m)) (negsuc n) e = ground (arith, e)

-- `strconv.Atoi` gives numbers of 64 bits only.
pub atoi-Fits : (s : Text) (z : ℤ) → atoi s ≡ some z → Fits z
unfolding atoi
atoi-Fits [] z e = ground arith
atoi-Fits (c ∷ s) z e = elim (Bool-cases (c == b'-')) [
  | inl f ↦ negative-Fits (number s) z (ground (arith, e, f))
  | inr f ↦ elim (Bool-cases (c == b'+')) [
    | inl g ↦ positive-Fits (number s) z (ground (arith, e, f, g))
    | inr g ↦ positive-Fits (number (c ∷ s)) z (ground (arith, e, f, g))
  ]
]
