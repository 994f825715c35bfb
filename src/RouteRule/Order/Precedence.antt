-- ===== src/RouteRule/Order/Precedence.antt =====
-- The precedence of rules in words, which the comparison of the code decides.
use mathlib.Core.List.{reverse-append, reverse-cons, reverse-reverse}
use ingress_bfe.Base.{
  ◌<◌, All, List, Text, text, has_prefix, has_suffix, length, length-append, reverse, Bool, true,
  false, ◌++◌, [], ◌∷◌, pos, ℤ_eq, is_pos, ◌≡◌, ◌↔◌, ◌⊎◌, ap, sym, ◌∙◌, arith,
}
use ingress_bfe.Annotations.Priority.{priority}
use ingress_bfe.RouteRule.{HttpRule}
use ingress_bfe.RouteRule.Order.{wildcard_path, wildcard_host, compare_priority, less}
use ingress_bfe.RouteRule.Order.Sort.{IsSorted, ties}

-- A host with a wildcard for its first label.
abbrev pub IsWildHost : Text → Type 0
IsWildHost host = (rest : Text) × (host ≡ text "*." ++ rest)

-- A path that ends in a wildcard.
abbrev pub IsWildPath : Text → Type 0
IsWildPath path = (front : Text) × (path ≡ front ++ text "*")

wildcard_host_iff : (host : Text) → (wildcard_host host ≡ true) ↔ IsWildHost host
unfolding wildcard_host has_prefix text
wildcard_host_iff [] = ((λ e. ground (arith, e)), λ (r, e). ground (arith, e))
wildcard_host_iff (a ∷ []) = ((λ e. ground (arith, e)), λ (r, e). ground (arith, e))
wildcard_host_iff (a ∷ b ∷ s) = ((λ e. (s, ground (arith, e))), λ (r, e). ground (arith, e))

front_star : (s : Text) → has_prefix s (text "*") ≡ true → (rest : Text) × (s ≡ b'*' ∷ rest)
unfolding has_prefix text
front_star [] e = absurd (ground (arith, e))
front_star (c ∷ s) e = (s, ground (arith, e))

wildcard_path-star : (front : Text) → wildcard_path (front ++ text "*") ≡ true
unfolding wildcard_path has_suffix has_prefix text
wildcard_path-star front =
    rw (length-append front (text "*"), reverse-append front (text "*")) (ground arith)

wildcard_path_iff : (path : Text) → (wildcard_path path ≡ true) ↔ IsWildPath path
unfolding wildcard_path has_suffix text
wildcard_path_iff path = (
  (λ e.
      let (r, q) = front_star (reverse path) (ground (arith, e)) in
      (reverse r, sym (reverse-reverse path) ∙ ap reverse q ∙ reverse-cons b'*' r)),
  λ (front, e). ap wildcard_path e ∙ wildcard_path-star front,
)

-- Which of two texts is more precise: one without a wildcard, or else the longer one.
module _ (IsWild : Text → Type 0) where
  abbrev pub MorePrecise : Text → Text → Type 0
  MorePrecise s t = ((¬ IsWild s) × IsWild t) ⊎ ((IsWild s ↔ IsWild t) × (length t < length s))

  abbrev pub AsPrecise : Text → Text → Type 0
  AsPrecise s t = (IsWild s ↔ IsWild t) × (length s ≡ length t)

  compare_priority_iff :
      (s t : Text) (wildcard : Text → Bool)
      → ((wildcard s ≡ true) ↔ IsWild s)
      → ((wildcard t ≡ true) ↔ IsWild t)
      → ((is_pos (compare_priority s t wildcard) ≡ true) ↔ MorePrecise s t)
        × ((ℤ_eq (compare_priority s t wildcard) (pos 0) ≡ true) ↔ AsPrecise s t)
  unfolding compare_priority ℤ_eq
  compare_priority_iff s t wildcard h k = ground (arith, h, k)

-- `a` goes before `b`: by its host, or else by its path, or else by its conditions, or else by its
-- age.
abbrev pub Precedes : HttpRule → HttpRule → Type 0
Precedes a b =
    MorePrecise IsWildHost a.host b.host
    ⊎ (AsPrecise IsWildHost a.host b.host
        × (MorePrecise IsWildPath a.path b.path
            ⊎ (AsPrecise IsWildPath a.path b.path
                × ((priority b.annotations < priority a.annotations)
                    ⊎ ((priority a.annotations ≡ priority b.annotations)
                        × (a.create_time < b.create_time))))))

pub less_iff : (a b : HttpRule) → (less a b ≡ true) ↔ Precedes a b
unfolding less
less_iff a b = ground (
  arith,
  compare_priority_iff IsWildHost a.host b.host wildcard_host (wildcard_host_iff a.host)
      (wildcard_host_iff b.host),
  compare_priority_iff IsWildPath a.path b.path wildcard_path (wildcard_path_iff a.path)
      (wildcard_path_iff b.path),
)

-- No rule stands behind one that it precedes.
abbrev pub InOrder : List HttpRule → Type 0
InOrder [] = Unit
InOrder (x ∷ xs) = All (λ y. ¬ Precedes y x) xs × InOrder xs

not_less-Precedes : (a b : HttpRule) → less a b ≡ false → ¬ Precedes a b
not_less-Precedes a b e h = absurd (ground (arith, e, (less_iff a b).1 h))

All-not_less :
    (x : HttpRule) (ys : List HttpRule)
    → All (λ y. less y x ≡ false) ys
    → All (λ y. ¬ Precedes y x) ys
All-not_less x [] h = tt
All-not_less x (y ∷ ys) h = (not_less-Precedes y x h.0, All-not_less x ys h.1)

pub InOrder-IsSorted : (l : List HttpRule) → IsSorted l → InOrder l
InOrder-IsSorted [] h = tt
InOrder-IsSorted (x ∷ xs) h = (All-not_less x xs h.0, InOrder-IsSorted xs h.1)

pub ties_iff : (a b : HttpRule) → (ties a b ≡ true) ↔ ((¬ Precedes a b) × (¬ Precedes b a))
ties_iff a b = ground (arith, less_iff a b, less_iff b a)
