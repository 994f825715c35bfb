-- ===== src/RouteRule/Cache/Winner.antt =====
-- The rule that holds at a host and path for given conditions, and how `put` changes it.
use ingress_bfe.Base.{
  ℕ, zero, suc, ◌+◌, ltb, Text, true, false, if◌then◌else◌, List, [], ◌∷◌, ◌++◌, set, Option, none,
  some, Error, Bool-cases, ◌≡◌, refl, arith, inl, inr, ◌⊎◌,
}
use ingress_bfe.Annotations.{Annotations}
use ingress_bfe.Annotations.Priority.{equal, equal_iff}
use ingress_bfe.RouteRule.{HttpRule}
use ingress_bfe.RouteRule.Cache.{RuleMap, rules_at, find_equal, conflict}

-- Equal maps are equal to the same maps.
pub equal_congr : (a b c : Annotations) → equal a b ≡ true → equal a c ≡ equal b c
equal_congr a b c h = ground (arith, equal_iff a b, equal_iff a c, equal_iff b c)

pub equal_symm : (a b : Annotations) → equal a b ≡ equal b a
equal_symm a b = ground (arith, equal_iff a b, equal_iff b a)

abbrev pub first_equal : Annotations → List HttpRule → Option HttpRule
first_equal a [] = none
first_equal a (r ∷ rules) = if equal a r.annotations then some r else first_equal a rules

-- The rule for host, path and conditions.
unfoldable pub winner : RuleMap → Text → Text → Annotations → Option HttpRule
winner m host path a = first_equal a (rules_at m host path)

-- The elder of the rule that holds and a new one; the rule that holds stays on a tie.
abbrev pub elder : HttpRule → Option HttpRule → HttpRule
elder r none = r
elder r (some o) = if ltb r.create_time o.create_time then r else o

-- The error of putting `r` where the rule `o` holds.
abbrev pub refused : HttpRule → Option HttpRule → Error
refused r none = none
refused r (some o) = if ltb o.create_time r.create_time then some (conflict r o) else none

-- `rules[k]` is `r`.
abbrev pub At : List HttpRule → ℕ → HttpRule → Type 0
At [] k r = ⊥
At (x ∷ xs) zero r = x ≡ r
At (x ∷ xs) (suc k) r = At xs k r

-- What the loop of `put` finds at an index, and what a write there does.
pub record FoundAt (rule : HttpRule) (rules : List HttpRule) (k : ℕ) (r : HttpRule) : Type 0 where
  pub at : At rules k r
  pub same : equal rule.annotations r.annotations ≡ true
  pub first : first_equal rule.annotations rules ≡ some r
  pub written :
      (a : Annotations)
      → first_equal a (set rules k rule)
        ≡ (if equal rule.annotations a then some rule else first_equal a rules)

abbrev FindCases : HttpRule → ℕ → List HttpRule → Type 0
FindCases rule i rules =
    ((find_equal rule i rules ≡ none) × (first_equal rule.annotations rules ≡ none))
    ⊎ ((k : ℕ) × (r : HttpRule) × (find_equal rule i rules ≡ some (i + k, r))
        × FoundAt rule rules k r)

found_here :
    (rule : HttpRule) (i : ℕ) (r : HttpRule) (rules : List HttpRule)
    → equal rule.annotations r.annotations ≡ true
    → FindCases rule i (r ∷ rules)
unfolding find_equal
found_here rule i r rules e = inr (
  zero,
  r,
  ground arith,
  record {
    at = refl;
    same = e;
    first = ground arith;
    written = λ a. ground (
      arith,
      equal_congr rule.annotations r.annotations a e,
      equal_symm rule.annotations a,
      equal_symm r.annotations a,
    );
  },
)

found_later :
    (rule : HttpRule) (i : ℕ) (r : HttpRule) (rules : List HttpRule)
    → equal rule.annotations r.annotations ≡ false
    → FindCases rule (suc i) rules
    → FindCases rule i (r ∷ rules)
unfolding find_equal
found_later rule i r rules e (inl (p, q)) = inl (ground arith, ground arith)
found_later rule i r rules e (inr (k, o, p, q)) = inr (
  suc k,
  o,
  ground arith,
  record {
    at = q.at;
    same = q.same;
    first = ground (arith, q.first);
    written = λ a. ground (
      arith,
      q.written a,
      equal_congr a rule.annotations r.annotations,
      equal_symm rule.annotations a,
    );
  },
)

pub find_equal_cases : (rule : HttpRule) (i : ℕ) (rules : List HttpRule) → FindCases rule i rules
unfolding find_equal
find_equal_cases rule i [] = inl (refl, refl)
find_equal_cases rule i (r ∷ rules) = elim (Bool-cases (equal rule.annotations r.annotations)) [
  | inl e ↦ found_here rule i r rules e
  | inr e ↦ found_later rule i r rules e (find_equal_cases rule (suc i) rules)
]

pub first_equal-append :
    (a : Annotations) (rule : HttpRule) (rules : List HttpRule)
    → first_equal rule.annotations rules ≡ none
    → first_equal a (rules ++ rule ∷ [])
      ≡ (if equal rule.annotations a then some rule else first_equal a rules)
first_equal-append a rule [] h = ground (arith, equal_symm rule.annotations a)
first_equal-append a rule (r ∷ rules) h = ground (
  arith,
  first_equal-append a rule rules,
  equal_congr a rule.annotations r.annotations,
  equal_symm rule.annotations a,
)
