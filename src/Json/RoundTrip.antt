-- ===== src/Json/RoundTrip.antt =====
-- A string that `Marshal` writes is read back, where it is valid UTF-8.
use mathlib.Core.List.{append_assoc}
use ingress_bfe.Base.{
  ℕ, zero, suc, ◌+◌, ltb, ◌==◌, Text, text, text_eq, true, false, [], ◌∷◌, ◌++◌, length,
  length-append, take, drop, some, Bool-cases, ◌≡◌, refl, sym, ◌∙◌, ap, subst, arith, inl, inr, ◌⊎◌,
}
use ingress_bfe.Json.Utf8.{rune_width, encode_rune, is_utf8_from, is_utf8}
use ingress_bfe.Json.Strings.{
  quote, backslash, is_separator, write_ascii, write_rune, write_unit, write_from, write_string,
  read_escape, read_unit, read_from, hex_value, hex4, get_u4,
}
use ingress_bfe.Json.Widths.{Character, character, width_1}
use ingress_bfe.Json.Lex.{str, read_token, add_token, lex_from}
use ingress_bfe.Json.Units.{ReadsBack, further, reads_unit, write_ascii-ReadsBack}

separators :
    (r : Text) → is_separator r ≡ true → (r ≡ encode_rune 0x2028) ⊎ (r ≡ encode_rune 0x2029)
unfolding encode_rune
separators [] h = ground (arith, h)
separators (_ ∷ []) h = ground (arith, h)
separators (_ ∷ _ ∷ []) h = ground (arith, h)
separators (a ∷ b ∷ c ∷ []) h = ground (arith, h)
separators (_ ∷ _ ∷ _ ∷ _ ∷ _) h = ground (arith, h)

separator-ReadsBack : (r : Text) → is_separator r ≡ true → ReadsBack (write_rune r) r
unfolding write_rune read_unit read_escape hex4 hex_value get_u4 encode_rune text text_eq
separator-ReadsBack r h = elim (separators r h) [
  | inl e ↦
      subst (λ r. ReadsBack (write_rune r) r) (sym e)
        (reads_unit backslash (text "u2028") (encode_rune 0x2028) refl (λ x. refl))
  | inr e ↦
      subst (λ r. ReadsBack (write_rune r) r) (sym e)
        (reads_unit backslash (text "u2029") (encode_rune 0x2029) refl (λ x. refl))
]

take-append : (s t : Text) → take (length s) (s ++ t) ≡ s
take-append [] t = refl
take-append (c ∷ s) t = ap (λ l. c ∷ l) (take-append s t)

drop-append : (s t : Text) → drop (length s) (s ++ t) ≡ t
drop-append [] t = refl
drop-append (c ∷ s) t = drop-append s t

module _ (c : ℕ) (s : Text) (k : ℕ) (ch : Character c s k) where
  open ch use {tail, rest, splits, size, width}

  taken : take k s ≡ tail
  taken = ap (λ n. take n s) size ∙ ap (take (length tail)) splits ∙ take-append tail rest

  dropped : drop k s ≡ rest
  dropped = ap (λ n. drop n s) size ∙ ap (drop (length tail)) splits ∙ drop-append tail rest

  read_unit_high :
      ltb c 0x80 ≡ false → (x : Text) → read_unit (c ∷ tail ++ x) ≡ some (c ∷ tail, length tail)
  unfolding read_unit
  read_unit_high h x =
      let b : (c == backslash) ≡ false = ground (arith, h) in
      let l : ltb c 32 ≡ false = ground (arith, h) in
      rw (b, l, h, width x)
        (ap (λ n. some (c ∷ take n (tail ++ x), n)) size
          ∙ ap (λ t. some (c ∷ t, length tail)) (take-append tail x))

  rune-ReadsBack : ltb c 0x80 ≡ false → ReadsBack (write_rune (c ∷ tail)) (c ∷ tail)
  unfolding write_rune
  rune-ReadsBack h = elim (Bool-cases (is_separator (c ∷ tail))) [
    | inl e ↦ separator-ReadsBack (c ∷ tail) e
    | inr e ↦ rw e (reads_unit c tail (c ∷ tail) (ground (arith, h)) (read_unit_high h))
  ]

-- What is written for the character at the start of a text.
record UnitAt (c : ℕ) (s : Text) (k : ℕ) : Type 0 where
  unit : Text
  is_unit : write_unit (c ∷ s) ≡ (unit, k)
  reads : ReadsBack unit (c ∷ take k s)

unit_at : (c : ℕ) (s : Text) (k : ℕ) → rune_width (c ∷ s) ≡ suc k → UnitAt c s k
unfolding write_unit
unit_at c s k w =
    let ch = character c s k w in
    elim (Bool-cases (ltb c 0x80)) [
      | inl h ↦
          let z : k ≡ 0 = ground (arith, width_1 c h s, w) in
          record {
            unit = write_ascii c;
            is_unit = rw (h, z) refl;
            reads =
                subst (λ n. ReadsBack (write_ascii c) (c ∷ take n s)) (sym z)
                  (write_ascii-ReadsBack c h);
          }
      | inr h ↦ record {
        unit = write_rune (take (suc k) (c ∷ s));
        is_unit = rw (h, w) refl;
        reads =
            subst (λ t. ReadsBack (write_rune (c ∷ t)) (c ∷ t)) (sym (taken c s k ch))
              (rune-ReadsBack c s k ch h);
      }
    ]

take-drop : (k : ℕ) (s : Text) → take k s ++ drop k s ≡ s
take-drop zero s = refl
take-drop (suc k) [] = refl
take-drop (suc k) (c ∷ s) = ap (λ l. c ∷ l) (take-drop k s)

write_from-unit :
    (c : ℕ) (s : Text) (k : ℕ) (u : UnitAt c s k) → write_from 0 (c ∷ s) ≡ u.unit ++ write_from k s
unfolding write_from
write_from-unit c s k u = rw (u.is_unit) refl

width_cases : (n : ℕ) → (n ≡ zero) ⊎ ((k : ℕ) × (n ≡ suc k))
width_cases zero = inl refl
width_cases (suc k) = inr (k, refl)

-- A character and the rest of the string.
read_unit_then :
    (c : ℕ) (s : Text) (k : ℕ) (u : UnitAt c s k) (written rest : Text)
    → read_from 0 (written ++ quote ∷ rest) ≡ some (drop k s, suc (length written))
    → read_from 0 ((u.unit ++ written) ++ quote ∷ rest)
      ≡ some (c ∷ s, suc (length (u.unit ++ written)))
read_unit_then c s k u written rest e =
    ap (read_from 0) (append_assoc u.unit written (quote ∷ rest))
    ∙ u.reads (written ++ quote ∷ rest)
    ∙ ap (further (c ∷ take k s) (length u.unit)) e
    ∙ ap (λ t. some (c ∷ t, length u.unit + suc (length written))) (take-drop k s)
    ∙ ap (λ n. some (c ∷ s, n)) (omega (arith, length-append u.unit written))

pub read_from-write_from :
    (skip : ℕ) (s rest : Text)
    → is_utf8_from skip s ≡ true
    → read_from 0 (write_from skip s ++ quote ∷ rest)
      ≡ some (drop skip s, suc (length (write_from skip s)))
unfolding is_utf8_from write_from read_from
read_from-write_from zero [] rest h = refl
read_from-write_from (suc skip) [] rest h = refl
read_from-write_from (suc skip) (c ∷ s) rest h = read_from-write_from skip s rest h
read_from-write_from zero (c ∷ s) rest h = elim (width_cases (rune_width (c ∷ s))) [
  | inl e ↦ absurd (ground (arith, e, h))
  | inr (k, e) ↦
      let u = unit_at c s k e in
      rw (write_from-unit c s k u) (
        read_unit_then c s k u (write_from k s) rest
          (read_from-write_from k s rest (ground (arith, e, h))))
]

lex_from-skip : (t x : Text) → lex_from (length t) (t ++ x) ≡ lex_from 0 x
unfolding lex_from
lex_from-skip [] x = refl
lex_from-skip (c ∷ t) x = lex_from-skip t x

-- The token of a string that `Marshal` writes, in front of any text.
pub lex_from-write_string :
    (s rest : Text)
    → is_utf8 s ≡ true
    → lex_from 0 (write_string s ++ rest) ≡ add_token (some (str s)) (lex_from 0 rest)
unfolding lex_from read_token write_string
lex_from-write_string s rest h =
    let w = write_from 0 s in
    let r = ap (read_from 0) (append_assoc w (quote ∷ []) rest) ∙ read_from-write_from 0 s rest h in
    rw (lex_from, read_token, r)
      (ap (add_token (some (str s))) (
        ap (λ n. lex_from n ((w ++ quote ∷ []) ++ rest))
          (omega (arith, length-append w (quote ∷ [])))
        ∙ lex_from-skip (w ++ quote ∷ []) rest))
