-- ===== src/RouteRule/Order/Sort.antt =====
-- The stable sort: its result is ordered, a permutation, and keeps the order of ties.
use mathlib.Core.List.{Perm}
use mathlib.Core.List.Perm
use ingress_bfe.Base.{
  Bool, false, not, ◌&&◌, Bool-cases, List, [], ◌∷◌, select, All, In, ◌≡◌, refl, arith, inl, inr,
}
use ingress_bfe.RouteRule.{HttpRule}
use ingress_bfe.RouteRule.Order.{less, insert_rule, sort_stable}
use ingress_bfe.RouteRule.Order.Laws.{less_asymm, less_negative_trans}

-- No rule stands behind one that it goes before.
abbrev pub IsSorted : List HttpRule → Type 0
IsSorted [] = Unit
IsSorted (x ∷ xs) = All (λ y. less y x ≡ false) xs × IsSorted xs

-- Neither goes before the other.
abbrev pub ties : HttpRule → HttpRule → Bool
ties a b = not (less a b) && not (less b a)

All-insert_rule :
    (P : HttpRule → Type 0) (x : HttpRule) (ys : List HttpRule)
    → P x
    → All P ys
    → All P (insert_rule x ys)
unfolding insert_rule
All-insert_rule P x [] p h = (p, tt)
All-insert_rule P x (y ∷ ys) p h = elim (Bool-cases (less y x)) [
  | inl e ↦ rw e (h.0, All-insert_rule P x ys p h.1)
  | inr e ↦ rw e (p, h)
]

-- What does not go before `y`, and `y` does not go before `x`.
All-less_trans :
    (x y : HttpRule) (ys : List HttpRule)
    → less y x ≡ false
    → All (λ z. less z y ≡ false) ys
    → All (λ z. less z x ≡ false) ys
All-less_trans x y [] e h = tt
All-less_trans x y (z ∷ ys) e h = (less_negative_trans x y z e h.0, All-less_trans x y ys e h.1)

insert_rule-IsSorted :
    (x : HttpRule) (ys : List HttpRule) → IsSorted ys → IsSorted (insert_rule x ys)
unfolding insert_rule
insert_rule-IsSorted x [] h = (tt, tt)
insert_rule-IsSorted x (y ∷ ys) h = elim (Bool-cases (less y x)) [
  | inl e ↦ rw e (
    All-insert_rule (λ z. less z y ≡ false) x ys (less_asymm y x e) h.0,
    insert_rule-IsSorted x ys h.1,
  )
  | inr e ↦ rw e ((e, All-less_trans x y ys e h.0), h)
]

pub sort_stable-IsSorted : (l : List HttpRule) → IsSorted (sort_stable l)
unfolding sort_stable
sort_stable-IsSorted [] = tt
sort_stable-IsSorted (x ∷ xs) = insert_rule-IsSorted x (sort_stable xs) (sort_stable-IsSorted xs)

insert_rule-perm : (x : HttpRule) (ys : List HttpRule) → Perm (insert_rule x ys) (x ∷ ys)
unfolding insert_rule
insert_rule-perm x [] = Perm.refl (x ∷ [])
insert_rule-perm x (y ∷ ys) = elim (Bool-cases (less y x)) [
  | inl e ↦ rw e (Perm.trans (Perm.cons y (insert_rule-perm x ys)) (Perm.swap x y ys))
  | inr e ↦ rw e (Perm.refl (x ∷ y ∷ ys))
]

pub sort_stable-perm : (l : List HttpRule) → Perm (sort_stable l) l
unfolding sort_stable
sort_stable-perm [] = Perm.refl []
sort_stable-perm (x ∷ xs) =
    Perm.trans (insert_rule-perm x (sort_stable xs)) (Perm.cons x (sort_stable-perm xs))

-- Among rules that tie with `z`, an inserted rule comes first.
select-insert_rule :
    (z x : HttpRule) (ys : List HttpRule)
    → select (ties z) (insert_rule x ys) ≡ select (ties z) (x ∷ ys)
unfolding insert_rule
select-insert_rule z x [] = refl
select-insert_rule z x (y ∷ ys) =
    ground (arith, less_negative_trans x z y, select-insert_rule z x ys)

-- Rules that tie keep their order.
pub sort_stable-ties :
    (z : HttpRule) (l : List HttpRule) → select (ties z) (sort_stable l) ≡ select (ties z) l
unfolding sort_stable
sort_stable-ties z [] = refl
sort_stable-ties z (x ∷ xs) =
    ground (arith, select-insert_rule z x (sort_stable xs), sort_stable-ties z xs)

insert_rule-In : (a x : HttpRule) (ys : List HttpRule) → In a (insert_rule x ys) → In a (x ∷ ys)
unfolding insert_rule
insert_rule-In a x [] h = h
insert_rule-In a x (y ∷ ys) h = ground (arith, insert_rule-In a x ys)

In-insert_rule : (a x : HttpRule) (ys : List HttpRule) → In a (x ∷ ys) → In a (insert_rule x ys)
unfolding insert_rule
In-insert_rule a x [] h = h
In-insert_rule a x (y ∷ ys) h = ground (arith, In-insert_rule a x ys)

pub In_of_sort_stable : (a : HttpRule) (l : List HttpRule) → In a (sort_stable l) → In a l
unfolding sort_stable
In_of_sort_stable a [] h = h
In_of_sort_stable a (x ∷ xs) h =
    ground (arith, insert_rule-In a x (sort_stable xs), In_of_sort_stable a xs)

pub In-sort_stable : (a : HttpRule) (l : List HttpRule) → In a l → In a (sort_stable l)
unfolding sort_stable
In-sort_stable a [] h = h
In-sort_stable a (x ∷ xs) h =
    ground (arith, In-insert_rule a x (sort_stable xs), In-sort_stable a xs)
