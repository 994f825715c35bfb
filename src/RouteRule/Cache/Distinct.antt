-- ===== src/RouteRule/Cache/Distinct.antt =====
-- Lists of rules no two of which have the same conditions.
use ingress_bfe.Base.{
  ℕ, zero, suc, true, false, List, [], ◌∷◌, ◌++◌, set, In, All, none, ◌≡◌, ◌≢◌, refl, sym, ◌∙◌,
  arith, inl, inr, ◌⊎◌,
}
use ingress_bfe.Annotations.Priority.{equal, equal_iff}
use ingress_bfe.RouteRule.{HttpRule}
use ingress_bfe.RouteRule.Cache.Winner.{first_equal, At, equal_symm, equal_congr}

-- No two rules of a list have the same conditions.
abbrev pub IsDistinct : List HttpRule → Type 0
IsDistinct [] = Unit
IsDistinct (r ∷ rules) =
    All (λ s. equal r.annotations s.annotations ≡ false) rules × IsDistinct rules

-- `set` at the place of a rule with the same conditions

abbrev Differs : HttpRule → List HttpRule → Type 0
Differs x rules = All (λ s. equal x.annotations s.annotations ≡ false) rules

Differs-set :
    (x rule r : HttpRule) (rules : List HttpRule) (k : ℕ)
    → At rules k r
    → equal rule.annotations r.annotations ≡ true
    → Differs x rules
    → Differs x (set rules k rule)
Differs-set x rule r [] k at e d = absurd at
Differs-set x rule r (y ∷ rules) zero at e d = ground (
  arith,
  equal_congr rule.annotations r.annotations x.annotations,
  equal_symm x.annotations rule.annotations,
  equal_symm x.annotations r.annotations,
)
Differs-set x rule r (y ∷ rules) (suc k) at e d = (d.0, Differs-set x rule r rules k at e d.1)

Differs-congr :
    (x y : HttpRule) (rules : List HttpRule)
    → equal x.annotations y.annotations ≡ true
    → Differs y rules
    → Differs x rules
Differs-congr x y [] e d = tt
Differs-congr x y (z ∷ rules) e d = (
  ground (arith, equal_congr x.annotations y.annotations z.annotations e),
  Differs-congr x y rules e d.1,
)

pub IsDistinct-set :
    (rule r : HttpRule) (rules : List HttpRule) (k : ℕ)
    → At rules k r
    → equal rule.annotations r.annotations ≡ true
    → IsDistinct rules
    → IsDistinct (set rules k rule)
IsDistinct-set rule r [] k at e d = absurd at
IsDistinct-set rule r (y ∷ rules) zero at e d = (Differs-congr rule y rules (rw at e) d.0, d.1)
IsDistinct-set rule r (y ∷ rules) (suc k) at e d =
    (Differs-set y rule r rules k at e d.0, IsDistinct-set rule r rules k at e d.1)

equal_refl : (a : HttpRule) → equal a.annotations a.annotations ≡ true
equal_refl a = (equal_iff a.annotations a.annotations).1 (refl, refl)

-- no rule behind one that it differs from is that rule
Differs-ne : (r x : HttpRule) (rules : List HttpRule) → Differs r rules → In x rules → x ≢ r
Differs-ne r x [] d i = absurd i
Differs-ne r x (y ∷ rules) d (inl e) = λ q. ground (arith, equal_refl r)
Differs-ne r x (y ∷ rules) d (inr i) = Differs-ne r x rules d.1 i

pub In_of_At : (rules : List HttpRule) (k : ℕ) (r : HttpRule) → At rules k r → In r rules
In_of_At [] k r at = absurd at
In_of_At (y ∷ rules) zero r at = inl at
In_of_At (y ∷ rules) (suc k) r at = inr (In_of_At rules k r at)

-- What is in the list after the write is the new rule, or an old one other than the one replaced.
pub In_of_set :
    (rule r x : HttpRule) (rules : List HttpRule) (k : ℕ)
    → At rules k r
    → IsDistinct rules
    → In x (set rules k rule)
    → (rule ≡ x) ⊎ (In x rules × (x ≢ r))
In_of_set rule r x [] k at d i = absurd at
In_of_set rule r x (y ∷ rules) zero at d (inl e) = inl e
In_of_set rule r x (y ∷ rules) zero at d (inr i) =
    inr (inr i, λ q. Differs-ne y x rules d.0 i (q ∙ sym at))
In_of_set rule r x (y ∷ rules) (suc k) at d (inl e) =
    inr (inl e, λ q. Differs-ne y r rules d.0 (In_of_At rules k r at) (sym q ∙ sym e))
In_of_set rule r x (y ∷ rules) (suc k) at d (inr i) = elim (In_of_set rule r x rules k at d.1 i) [
  | inl e ↦ inl e
  | inr (j, n) ↦ inr (inr j, n)
]

Differs-append :
    (x rule : HttpRule) (rules : List HttpRule)
    → Differs x rules
    → equal x.annotations rule.annotations ≡ false
    → Differs x (rules ++ rule ∷ [])
Differs-append x rule [] d e = (e, tt)
Differs-append x rule (y ∷ rules) d e = (d.0, Differs-append x rule rules d.1 e)

pub IsDistinct-append :
    (rule : HttpRule) (rules : List HttpRule)
    → first_equal rule.annotations rules ≡ none
    → IsDistinct rules
    → IsDistinct (rules ++ rule ∷ [])
IsDistinct-append rule [] e d = (tt, tt)
IsDistinct-append rule (y ∷ rules) e d = (
  Differs-append y rule rules d.0 (ground (arith, equal_symm rule.annotations y.annotations)),
  IsDistinct-append rule rules (ground arith) d.1,
)
