-- ===== src/Json/Widths.antt =====
-- The width of a character depends on its own bytes only.
use ingress_bfe.Base.{
  ℕ, suc, ltb, Text, true, false, ◌&&◌, [], ◌∷◌, ◌++◌, length, Bool-cases, ◌≡◌, refl, arith, inl,
  inr,
}
use ingress_bfe.Json.Utf8.{rune_width, starts_2, starts_3, starts_4, continues}

pub width_1 : (a : ℕ) → ltb a 0x80 ≡ true → (x : Text) → rune_width (a ∷ x) ≡ 1
unfolding rune_width
width_1 a h [] = rw h refl
width_1 a h (_ ∷ []) = rw h refl
width_1 a h (_ ∷ _ ∷ []) = rw h refl
width_1 a h (_ ∷ _ ∷ _ ∷ _) = rw h refl

width_2 :
    (a b : ℕ) → ltb a 0x80 ≡ false → starts_2 a b ≡ true → (x : Text) → rune_width (a ∷ b ∷ x) ≡ 2
unfolding rune_width
width_2 a b h e [] = rw (h, e) refl
width_2 a b h e (_ ∷ []) = rw (h, e) refl
width_2 a b h e (_ ∷ _ ∷ _) = rw (h, e) refl

width_3 :
    (a b c : ℕ)
    → ltb a 0x80 ≡ false
    → starts_2 a b ≡ false
    → (starts_3 a b && continues c) ≡ true
    → (x : Text) → rune_width (a ∷ b ∷ c ∷ x) ≡ 3
unfolding rune_width
width_3 a b c h e f [] = rw (h, e, f) refl
width_3 a b c h e f (_ ∷ _) = rw (h, e, f) refl

width_4 :
    (a b c d : ℕ)
    → ltb a 0x80 ≡ false
    → starts_2 a b ≡ false
    → (starts_3 a b && continues c) ≡ false
    → (starts_4 a b && continues c && continues d) ≡ true
    → (x : Text) → rune_width (a ∷ b ∷ c ∷ d ∷ x) ≡ 4
unfolding rune_width
width_4 a b c d h e f g x = rw (h, e, f, g) refl

-- A text splits into a character of `suc k` bytes, which has that width in front of any text, and
-- the rest.
pub record Character (a : ℕ) (s : Text) (k : ℕ) : Type 0 where
  pub tail : Text
  pub rest : Text
  pub splits : s ≡ tail ++ rest
  pub size : k ≡ length tail
  pub width : (x : Text) → rune_width (a ∷ tail ++ x) ≡ suc k

made :
    (a : ℕ) (tail rest : Text) (k : ℕ)
    → ((x : Text) → rune_width (a ∷ tail ++ x) ≡ suc (length tail))
    → rune_width (a ∷ tail ++ rest) ≡ suc k
    → Character a (tail ++ rest) k
made a tail rest k w h =
    let e : k ≡ length tail = ground (arith, h, w rest) in
    record { tail = tail; rest = rest; splits = refl; size = e; width = λ x. rw e (w x) }

of_four :
    (a b c : ℕ) (s : Text) (k : ℕ)
    → ltb a 0x80 ≡ false
    → starts_2 a b ≡ false
    → (starts_3 a b && continues c) ≡ false
    → rune_width (a ∷ b ∷ c ∷ s) ≡ suc k
    → Character a (b ∷ c ∷ s) k
unfolding rune_width
of_four a b c [] k h e f w = absurd (ground (arith, h, e, f, w))
of_four a b c (d ∷ s) k h e f w = elim (Bool-cases (starts_4 a b && continues c && continues d)) [
  | inl g ↦ made a (b ∷ c ∷ d ∷ []) s k (width_4 a b c d h e f g) w
  | inr g ↦ absurd (ground (arith, h, e, f, g, w))
]

of_three :
    (a b : ℕ) (s : Text) (k : ℕ)
    → ltb a 0x80 ≡ false
    → starts_2 a b ≡ false
    → rune_width (a ∷ b ∷ s) ≡ suc k
    → Character a (b ∷ s) k
unfolding rune_width
of_three a b [] k h e w = absurd (ground (arith, h, e, w))
of_three a b (c ∷ s) k h e w = elim (Bool-cases (starts_3 a b && continues c)) [
  | inl f ↦ made a (b ∷ c ∷ []) s k (width_3 a b c h e f) w
  | inr f ↦ of_four a b c s k h e f w
]

of_two :
    (a : ℕ) (s : Text) (k : ℕ) → ltb a 0x80 ≡ false → rune_width (a ∷ s) ≡ suc k → Character a s k
unfolding rune_width
of_two a [] k h w = absurd (ground (arith, h, w))
of_two a (b ∷ s) k h w = elim (Bool-cases (starts_2 a b)) [
  | inl e ↦ made a (b ∷ []) s k (width_2 a b h e) w
  | inr e ↦ of_three a b s k h e w
]

pub character : (a : ℕ) (s : Text) (k : ℕ) → rune_width (a ∷ s) ≡ suc k → Character a s k
character a s k w = elim (Bool-cases (ltb a 0x80)) [
  | inl h ↦ made a [] s k (width_1 a h) w
  | inr h ↦ of_two a s k h w
]
