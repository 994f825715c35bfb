-- ===== src/RouteRule/Cache/Put.antt =====
-- `put` keeps, for each host, path and conditions, the eldest of the rules put there.
use native.Mathlib.Nat.{zero-add}
use ingress_bfe.Base.{
  ℕ, Text, text_eq_iff, true, ◌&&◌, if◌then◌else◌, List, [], ◌∷◌, ◌++◌, set, ◌∙◌, Option, none,
  some, ◌≡◌, refl, arith, inl, inr,
}
use ingress_bfe.MultiMap.{MultiMap}
use ingress_bfe.Annotations.{Annotations}
use ingress_bfe.Annotations.Priority.{equal}
use ingress_bfe.RouteRule.{HttpRule}
use ingress_bfe.RouteRule.Cache.{
  RuleMap, RouteRuleCache, rules_at, ensure_host, find_equal, put_found, put,
}
use ingress_bfe.RouteRule.Cache.Places.{same_place, rules_at-set_rules, rules_at-ensure_host}
use ingress_bfe.RouteRule.Cache.Winner.{
  first_equal, winner, elder, refused, FoundAt, find_equal_cases, first_equal-append, equal_congr,
}

first_equal_congr :
    (a b : Annotations) (rules : List HttpRule)
    → equal a b ≡ true
    → first_equal a rules ≡ first_equal b rules
first_equal_congr a b [] e = refl
first_equal_congr a b (r ∷ rules) e =
    ground (arith, first_equal_congr a b rules e, equal_congr a b r.annotations e)

-- What `put` leaves at a host and path for given conditions.
abbrev pub winner_after : RuleMap → HttpRule → Text → Text → Annotations → Option HttpRule
winner_after m rule h p a =
    if same_place rule.host rule.path h p && equal rule.annotations a
    then some (elder rule (winner m h p a))
    else winner m h p a

winner-ensure_host :
    (m : RuleMap) (host h p : Text) (a : Annotations)
    → winner (ensure_host m host) h p a ≡ winner m h p a
unfolding winner
winner-ensure_host m host h p a = rw rules_at-ensure_host refl

module _ (mm : MultiMap Text HttpRule) (c : RouteRuleCache mm.Carrier) (rule : HttpRule) where
  abbrev here : List HttpRule
  here = rules_at c.rule_map rule.host rule.path

  winner-put_new :
      (h p : Text) (a : Annotations)
      → first_equal rule.annotations here ≡ none
      → winner (put_found mm c rule none).0.rule_map h p a ≡ winner_after c.rule_map rule h p a
  unfolding winner put_found
  winner-put_new h p a e = ground (
    arith,
    rules_at-set_rules c.rule_map rule.host rule.path (here ++ rule ∷ []) h p,
    first_equal-append a rule here e,
    first_equal_congr rule.annotations a here,
    text_eq_iff rule.host h,
    text_eq_iff rule.path p,
  )

  winner-put_old :
      (k : ℕ) (r : HttpRule) (h p : Text) (a : Annotations)
      → FoundAt rule here k r
      → winner (put_found mm c rule (some (k, r))).0.rule_map h p a
        ≡ winner_after c.rule_map rule h p a
  unfolding winner put_found
  winner-put_old k r h p a f = ground (
    arith,
    rules_at-set_rules c.rule_map rule.host rule.path (set here k rule) h p,
    f.first,
    f.written a,
    first_equal_congr rule.annotations a here,
    text_eq_iff rule.host h,
    text_eq_iff rule.path p,
  )

  winner-put_found :
      (h p : Text) (a : Annotations)
      → winner (put_found mm c rule (find_equal rule 0 here)).0.rule_map h p a
        ≡ winner_after c.rule_map rule h p a
  winner-put_found h p a = elim (find_equal_cases rule 0 here) [
    | inl (e, f) ↦ rw e (winner-put_new h p a f)
    | inr (k, r, e, f) ↦ rw (e, zero-add) (winner-put_old k r h p a f)
  ]

  error-put_found :
      (put_found mm c rule (find_equal rule 0 here)).1
      ≡ refused rule (first_equal rule.annotations here)
  unfolding put_found
  error-put_found = elim (find_equal_cases rule 0 here) [
    | inl (e, f) ↦ rw (e, f) refl
    | inr (k, r, e, f) ↦ rw e (rw f.first (ground arith))
  ]

module _ (mm : MultiMap Text HttpRule) (c : RouteRuleCache mm.Carrier) (rule : HttpRule) where
  -- `put` replaces the rule that holds for the rule's host, path and conditions by the elder of the
  -- two, and no other.
  pub winner-put :
      (h p : Text) (a : Annotations)
      → winner (put mm c rule).0.rule_map h p a ≡ winner_after c.rule_map rule h p a
  unfolding put
  winner-put h p a =
      let ensured = record c { rule_map = ensure_host c.rule_map rule.host } in
      winner-put_found mm ensured rule h p a ∙ rw winner-ensure_host refl

  -- `put` fails exactly when the rule that holds is strictly older.
  pub error-put :
      (put mm c rule).1 ≡ refused rule (winner c.rule_map rule.host rule.path rule.annotations)
  unfolding put winner
  error-put =
      let ensured = record c { rule_map = ensure_host c.rule_map rule.host } in
      error-put_found mm ensured rule ∙ rw rules_at-ensure_host refl
