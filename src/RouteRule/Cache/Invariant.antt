-- ===== src/RouteRule/Cache/Invariant.antt =====
-- The invariant of the cache, and that `put` keeps it.
use native.Mathlib.Nat.{zero-add}
use ingress_bfe.Base.{
  ℕ, ltb, ◌==◌, Text, text_eq_iff, lookup, Bool, true, false, if◌then◌else◌, List, [], ◌∷◌, ◌++◌,
  set, In, In_of_append, none, some, Error, Bool-cases, ◌≡◌, ◌≢◌, ap, sym, ◌∙◌, arith, inl, inr,
  ◌⊎◌,
}
use ingress_bfe.MultiMap.{MultiMap}
use ingress_bfe.RouteRule.{HttpRule}
use ingress_bfe.RouteRule.Cache.{
  RouteRuleCache, rules_at, set_rules, ensure_host, find_equal, conflict, new_route_rule_cache,
  put_found, put,
}
use ingress_bfe.RouteRule.Cache.Places.{same_place, rules_at-set_rules, rules_at-ensure_host}
use ingress_bfe.RouteRule.Cache.Winner.{first_equal, FoundAt, find_equal_cases}
use ingress_bfe.RouteRule.Cache.Distinct.{
  IsDistinct, IsDistinct-set, IsDistinct-append, In_of_set, In_of_At,
}

pub record IsValid (mm : MultiMap Text HttpRule) (c : RouteRuleCache mm.Carrier) : Type 0 where
  -- a rule stands at its own host and path
  pub keyed :
      (h p : Text) (r : HttpRule) → In r (rules_at c.rule_map h p) → (r.host ≡ h) × (r.path ≡ p)
  -- the index knows every rule, under its ingress
  pub tracked :
      (h p : Text) (r : HttpRule)
      → In r (rules_at c.rule_map h p)
      → In r (mm.get c.ingress2rule r.ingress)
  pub distinct : (h p : Text) → IsDistinct (rules_at c.rule_map h p)

either :
    (rules others : List HttpRule) (b : Bool)
    → IsDistinct rules
    → IsDistinct others
    → IsDistinct (if b then rules else others)
either rules others true d e = d
either rules others false d e = e

module _ (mm : MultiMap Text HttpRule) (c : RouteRuleCache mm.Carrier) where
  -- A write of the rules at one place, and of the index.
  module _ (index : mm.Carrier) (host path : Text) (rules : List HttpRule) where
    abbrev written : RouteRuleCache mm.Carrier
    written = record { ingress2rule = index; rule_map = set_rules c.rule_map host path rules }

    cases_at :
        (h p : Text) (r : HttpRule)
        → In r (rules_at written.rule_map h p)
        → ((host ≡ h) × (path ≡ p) × In r rules)
          ⊎ ((same_place host path h p ≡ false) × In r (rules_at c.rule_map h p))
    cases_at h p r i = ground (
      arith,
      rules_at-set_rules c.rule_map host path rules h p,
      text_eq_iff host h,
      text_eq_iff path p,
    )

    written-IsValid :
        IsValid mm c
        → ((r : HttpRule)
            → In r rules
            → (r.host ≡ host) × (r.path ≡ path) × In r (mm.get index r.ingress))
        → ((h p : Text) (r : HttpRule)
            → same_place host path h p ≡ false
            → In r (rules_at c.rule_map h p)
            → In r (mm.get index r.ingress))
        → IsDistinct rules
        → IsValid mm written
    written-IsValid v own others d = record {
      keyed = λ h p r i. elim (cases_at h p r i) [
        | inl (eh, ep, j) ↦ let (a, b, _) = own r j in (a ∙ eh, b ∙ ep)
        | inr (_, j) ↦ v.keyed h p r j
      ];
      tracked = λ h p r i. elim (cases_at h p r i) [
        | inl (_, _, j) ↦ (own r j).2
        | inr (n, j) ↦ others h p r n j
      ];
      distinct =
          λ h p. rw rules_at-set_rules (either _ _ (same_place host path h p) d (v.distinct h p));
    }

module _ (mm : MultiMap Text HttpRule) (c : RouteRuleCache mm.Carrier) (rule : HttpRule) where
  abbrev here : List HttpRule
  here = rules_at c.rule_map rule.host rule.path

  indexed :
      (index : mm.Carrier) (r : HttpRule)
      → (rule ≡ r) ⊎ In r (mm.get index r.ingress)
      → In r (mm.get (mm.put index rule.ingress rule) r.ingress)
  indexed index r (inl e) =
      (mm.in_put index rule.ingress r.ingress rule r).1 (inl (ap (λ x. x.ingress) e, e))
  indexed index r (inr i) = (mm.in_put index rule.ingress r.ingress rule r).1 (inr i)

  put_new-IsValid :
      IsValid mm c
      → first_equal rule.annotations here ≡ none
      → IsValid mm (put_found mm c rule none).0
  unfolding put_found
  put_new-IsValid v e =
      written-IsValid mm c (mm.put c.ingress2rule rule.ingress rule) rule.host rule.path
        (here ++ rule ∷ []) v
        (λ r i. elim (In_of_append r here (rule ∷ []) i) [
          | inl j ↦
              let (a, b) = v.keyed rule.host rule.path r j in
              (a, b, indexed c.ingress2rule r (inr (v.tracked rule.host rule.path r j)))
          | inr (inl q) ↦
              (ap (λ x. x.host) (sym q), ap (λ x. x.path) (sym q), indexed c.ingress2rule r (inl q))
          | inr (inr f) ↦ absurd f
        ])
        (λ h p r n i. indexed c.ingress2rule r (inr (v.tracked h p r i)))
        (IsDistinct-append rule here e (v.distinct rule.host rule.path))

  module _ (k : ℕ) (old : HttpRule) (f : FoundAt rule here k old) where
    -- What is still indexed after the `Remove` of the replaced rule.
    kept :
        (r : HttpRule)
        → r ≢ old
        → In r (mm.get c.ingress2rule r.ingress)
        → In r (mm.get (mm.remove c.ingress2rule rule.ingress old) r.ingress)
    kept r n i = (mm.in_remove c.ingress2rule rule.ingress r.ingress old r).1 (i, λ q. n (sym q.1))

    replaced : mm.Carrier
    replaced = mm.remove c.ingress2rule rule.ingress old

    put_elder-IsValid :
        IsValid mm c
        → IsValid mm
            (written mm c (mm.put replaced rule.ingress rule) rule.host rule.path (set here k rule))
    unfolding replaced
    put_elder-IsValid v =
        written-IsValid mm c (mm.put replaced rule.ingress rule) rule.host rule.path
          (set here k rule) v
          (λ r i. elim (In_of_set rule old r here k f.at (v.distinct rule.host rule.path) i) [
            | inl q ↦
                (ap (λ x. x.host) (sym q), ap (λ x. x.path) (sym q), indexed replaced r (inl q))
            | inr (j, n) ↦
                let (a, b) = v.keyed rule.host rule.path r j in
                (a, b, indexed replaced r (inr (kept r n (v.tracked rule.host rule.path r j))))
          ])
          (λ h p r n i.
            indexed replaced r (inr (kept r (elsewhere v h p r n i) (v.tracked h p r i))))
          (IsDistinct-set rule old here k f.at f.same (v.distinct rule.host rule.path))
      where
        elsewhere :
            IsValid mm c
            → (h p : Text) (r : HttpRule) → same_place rule.host rule.path h p ≡ false
            → In r (rules_at c.rule_map h p)
            → r ≢ old
        elsewhere v h p r n i = λ q.
            let a = v.keyed h p r i in
            let b = v.keyed rule.host rule.path old (In_of_At here k old f.at) in
            ground (arith, text_eq_iff rule.host h, text_eq_iff rule.path p)

    put_old-IsValid : IsValid mm c → IsValid mm (put_found mm c rule (some (k, old))).0
    unfolding put_found replaced
    put_old-IsValid v = elim (Bool-cases (ltb rule.create_time old.create_time)) [
      | inl e ↦ rw e (put_elder-IsValid v)
      | inr e ↦ rw e (same (rule.create_time == old.create_time))
    ]
      where
        same :
            (b : Bool)
            → IsValid mm
                (if◌then◌else◌ {A = RouteRuleCache mm.Carrier × Error} b
                  (c, none)
                  (c, some (conflict rule old))).0
        same true = v
        same false = v

  put_found-IsValid : IsValid mm c → IsValid mm (put_found mm c rule (find_equal rule 0 here)).0
  put_found-IsValid v = elim (find_equal_cases rule 0 here) [
    | inl (e, f) ↦ rw e (put_new-IsValid v f)
    | inr (k, r, e, f) ↦ rw (e, zero-add) (put_old-IsValid k r f v)
  ]

ensured-IsValid :
    (mm : MultiMap Text HttpRule) (c : RouteRuleCache mm.Carrier) (host : Text)
    → IsValid mm c
    → IsValid mm (record c { rule_map = ensure_host c.rule_map host })
ensured-IsValid mm c host v = record {
  keyed = λ h p r i. v.keyed h p r (rw rules_at-ensure_host at i);
  tracked = λ h p r i. v.tracked h p r (rw rules_at-ensure_host at i);
  distinct = λ h p. rw rules_at-ensure_host (v.distinct h p);
}

-- `put` keeps the invariant, whether it stores the rule, ignores it or fails.
pub put-IsValid :
    (mm : MultiMap Text HttpRule) (c : RouteRuleCache mm.Carrier) (rule : HttpRule)
    → IsValid mm c
    → IsValid mm (put mm c rule).0
unfolding put
put-IsValid mm c rule v =
    put_found-IsValid mm (record c { rule_map = ensure_host c.rule_map rule.host }) rule
      (ensured-IsValid mm c rule.host v)

-- The empty cache is valid.
pub new_route_rule_cache-IsValid :
    (mm : MultiMap Text HttpRule) → IsValid mm (new_route_rule_cache mm)
unfolding new_route_rule_cache rules_at lookup
new_route_rule_cache-IsValid mm = record {
  keyed = λ h p r i. absurd i;
  tracked = λ h p r i. absurd i;
  distinct = λ h p. tt;
}
