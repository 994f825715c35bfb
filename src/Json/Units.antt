-- ===== src/Json/Units.antt =====
-- The characters that `Marshal` writes in a string are read back.
use ingress_bfe.Base.{
  ℕ, suc, ◌+◌, ◌/◌, ◌%◌, ltb, ◌==◌, Text, text, true, false, ◌||◌, [], ◌∷◌, ◌++◌, length, Option,
  none, some, Bool-cases, ◌≡◌, refl, sym, ◌∙◌, ap, subst, arith, ==_iff, inl, inr,
}
use ingress_bfe.Json.Utf8.{within, encode_rune}
use ingress_bfe.Json.Strings.{
  quote, backslash, write_ascii, read_escape, read_unit, unicode, prepend, read_from, hex_value,
  hex4, hex_digit, escape_byte, is_html,
}

-- More bytes and a longer content in front of what was read.
abbrev pub further : Text → ℕ → Option (Text × ℕ) → Option (Text × ℕ)
further v n none = none
further v n (some (s, k)) = some (v ++ s, n + k)

further_nil : (o : Option (Text × ℕ)) → o ≡ further [] 0 o
further_nil none = refl
further_nil (some (s, k)) = ground arith

prepend-further :
    (v : Text) (n : ℕ) (o : Option (Text × ℕ)) → prepend v (further [] n o) ≡ further v (suc n) o
prepend-further v n none = refl
prepend-further v n (some (s, k)) = ground arith

read_from_skip :
    (t x : Text) → read_from (length t) (t ++ x) ≡ further [] (length t) (read_from 0 x)
unfolding read_from
read_from_skip [] x = further_nil (read_from 0 x)
read_from_skip (c ∷ t) x =
    ap (prepend []) (read_from_skip t x) ∙ prepend-further [] (length t) (read_from 0 x)

-- Reading the text `unit` gives `v`, whatever follows.
abbrev pub ReadsBack : Text → Text → Type 0
ReadsBack unit v = (x : Text) → read_from 0 (unit ++ x) ≡ further v (length unit) (read_from 0 x)

-- `read_from` at a character, from what `read_unit` gives there.
abbrev at_unit : Option (Text × ℕ) → Text → Option (Text × ℕ)
at_unit none s = none
at_unit (some (unit, k)) s = prepend unit (read_from k s)

read_from-at_unit :
    (c : ℕ) (s : Text) → (c == quote) ≡ false → read_from 0 (c ∷ s) ≡ at_unit (read_unit (c ∷ s)) s
unfolding read_from
read_from-at_unit c s n = ground (arith, n)

pub reads_unit :
    (h : ℕ) (t v : Text)
    → (h == quote) ≡ false
    → ((x : Text) → read_unit (h ∷ t ++ x) ≡ some (v, length t))
    → ReadsBack (h ∷ t) v
reads_unit h t v n r x =
    read_from-at_unit h (t ++ x) n
    ∙ ap (λ o. at_unit o (t ++ x)) (r x)
    ∙ ap (prepend v) (read_from_skip t x)
    ∙ prepend-further v (length t) (read_from 0 x)

-- Bytes below 0x80

escaped :
    (c : ℕ)
    → (c == quote || c == backslash) ≡ true
    → (x : Text) → read_unit (backslash ∷ c ∷ x) ≡ some (c ∷ [], 1)
unfolding read_unit
escaped c h x = ground (arith, h)

plain :
    (c : ℕ)
    → (c == backslash) ≡ false
    → ltb c 32 ≡ false
    → ltb c 0x80 ≡ true
    → (x : Text) → read_unit (c ∷ x) ≡ some (c ∷ [], 0)
unfolding read_unit
plain c b l h x = ground (arith, b, l, h)

hex_value-hex_digit : (n : ℕ) → ltb n 16 ≡ true → hex_value (hex_digit n) ≡ some n
unfolding hex_value
hex_value-hex_digit n h = ground (arith, h)

hex4_byte :
    (c : ℕ) (x : Text)
    → ltb c 0x80 ≡ true
    → hex4 (48 ∷ 48 ∷ hex_digit (c / 16) ∷ hex_digit (c % 16) ∷ x) ≡ some c
unfolding hex4
hex4_byte c x h =
    rw
      (
        hex_value-hex_digit (c / 16) (ground (arith, h)),
        hex_value-hex_digit (c % 16) (ground arith),
      )
      (ap some (omega arith))

-- No byte below 0x80 is half of a pair.
unicode_low : (c : ℕ) (s : Text) → ltb c 0x80 ≡ true → unicode s (some c) ≡ some (c ∷ [], 5)
unfolding encode_rune
unicode_low c s h = let w : within 0xd800 0xdfff c ≡ false = ground (arith, h) in rw (w, h) refl

escape_byte-ReadsBack : (c : ℕ) → ltb c 0x80 ≡ true → ReadsBack (escape_byte c) (c ∷ [])
unfolding read_unit read_escape text
escape_byte-ReadsBack c h =
    let digits = 48 ∷ 48 ∷ hex_digit (c / 16) ∷ hex_digit (c % 16) ∷ [] in
    reads_unit backslash (117 ∷ digits) (c ∷ []) refl
      (λ x. ap (unicode (digits ++ x)) (hex4_byte c x h) ∙ unicode_low c (digits ++ x) h)

-- An escape of one letter.
letter-ReadsBack :
    (letter c d : ℕ)
    → ((x : Text) → read_escape (letter ∷ x) ≡ some (d ∷ [], 1))
    → (c == d) ≡ true
    → ReadsBack (backslash ∷ letter ∷ []) (c ∷ [])
unfolding read_unit
letter-ReadsBack letter c d r e =
    subst (λ b. ReadsBack (backslash ∷ letter ∷ []) (b ∷ [])) (sym ((==_iff c d).0 e))
      (reads_unit backslash (letter ∷ []) (d ∷ []) refl r)

pub write_ascii-ReadsBack : (c : ℕ) → ltb c 0x80 ≡ true → ReadsBack (write_ascii c) (c ∷ [])
unfolding write_ascii read_escape text
write_ascii-ReadsBack c h = elim (Bool-cases (c == quote || c == backslash)) [
  | inl e ↦ rw e (reads_unit backslash (c ∷ []) (c ∷ []) refl (escaped c e))
  | inr e ↦ elim (Bool-cases (c == 10)) [
    | inl f ↦ rw (e, f) (letter-ReadsBack b'n' c 10 (λ x. refl) f)
    | inr f ↦ elim (Bool-cases (c == 13)) [
      | inl g ↦ rw (e, f, g) (letter-ReadsBack b'r' c 13 (λ x. refl) g)
      | inr g ↦ elim (Bool-cases (c == 9)) [
        | inl i ↦ rw (e, f, g, i) (letter-ReadsBack b't' c 9 (λ x. refl) i)
        | inr i ↦ elim (Bool-cases (ltb c 32 || is_html c)) [
          | inl j ↦ rw (e, f, g, i, j) (escape_byte-ReadsBack c h)
          | inr j ↦
              rw (e, f, g, i, j)
                (reads_unit c [] (c ∷ []) (ground (arith, e))
                  (plain c (ground (arith, e)) (ground (arith, j)) h))
        ]
      ]
    ]
  ]
]
