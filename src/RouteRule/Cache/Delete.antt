-- ===== src/RouteRule/Cache/Delete.antt =====
-- `delete` removes exactly the rules of one ingress.
use ingress_bfe.Base.{
  Text, text_eq, text_eq_iff, Bool, true, false, not, ◌||◌, if◌then◌else◌, List, [], ◌∷◌, select,
  In, In_of_select, All, subst, Bool-cases, ◌≡◌, ◌≢◌, refl, sym, ◌∙◌, arith, inl, inr,
}
use ingress_bfe.MultiMap.{MultiMap}
use ingress_bfe.Annotations.Priority.{equal}
use ingress_bfe.RouteRule.{HttpRule}
use ingress_bfe.RouteRule.Cache.{
  RouteRuleCache, RuleMap, rules_at, del_rule, delete_rule, delete_rules, delete, contains_ingress,
}
use ingress_bfe.RouteRule.Cache.Places.{same_place, rules_at-delete_rule}
use ingress_bfe.RouteRule.Cache.Distinct.{IsDistinct}
use ingress_bfe.RouteRule.Cache.Invariant.{IsValid}

del_rule_idem :
    (rules : List HttpRule) (ingress : Text)
    → del_rule (del_rule rules ingress) ingress ≡ del_rule rules ingress
unfolding del_rule
del_rule_idem [] ingress = refl
del_rule_idem (r ∷ rules) ingress = ground (arith, del_rule_idem rules ingress)

-- A list of rules has one for this place.
covers : List HttpRule → Text → Text → Bool
covers [] h p = false
covers (rule ∷ rules) h p = same_place rule.host rule.path h p || covers rules h p

covers_In :
    (rule : HttpRule) (rules : List HttpRule)
    → In rule rules
    → covers rules rule.host rule.path ≡ true
unfolding covers
covers_In rule [] i = absurd i
covers_In rule (r ∷ rules) (inl e) =
    ground (arith, text_eq_iff r.host rule.host, text_eq_iff r.path rule.path)
covers_In rule (r ∷ rules) (inr i) = ground (arith, covers_In rule rules i)

rules_at-delete_rules :
    (ingress : Text) (rules : List HttpRule) (m : RuleMap) (h p : Text)
    → rules_at (delete_rules ingress rules m) h p
      ≡ (if covers rules h p then del_rule (rules_at m h p) ingress else rules_at m h p)
unfolding delete_rules covers
rules_at-delete_rules ingress [] m h p = refl
rules_at-delete_rules ingress (rule ∷ rules) m h p = ground (
  arith,
  rules_at-delete_rules ingress rules (delete_rule ingress rule m) h p,
  rules_at-delete_rule ingress rule m h p,
  del_rule_idem (rules_at m h p) ingress,
)

-- Without a rule of the ingress there is nothing to filter.
del_rule_absent :
    (rules : List HttpRule) (ingress : Text)
    → ((r : HttpRule) → In r rules → r.ingress ≢ ingress)
    → del_rule rules ingress ≡ rules
unfolding del_rule
del_rule_absent [] ingress h = refl
del_rule_absent (r ∷ rules) ingress h = ground (
  arith,
  h r (inl refl),
  text_eq_iff r.ingress ingress,
  del_rule_absent rules ingress (λ s i. h s (inr i)),
)

IsDistinct-del_rule :
    (rules : List HttpRule) (ingress : Text)
    → IsDistinct rules
    → IsDistinct (del_rule rules ingress)
unfolding del_rule
IsDistinct-del_rule [] ingress d = tt
IsDistinct-del_rule (r ∷ rules) ingress d = elim (Bool-cases (text_eq r.ingress ingress)) [
  | inl e ↦ rw e (IsDistinct-del_rule rules ingress d.1)
  | inr e ↦ rw e (differs rules d.0, IsDistinct-del_rule rules ingress d.1)
]
  where
    differs :
        (l : List HttpRule)
        → All (λ s. equal r.annotations s.annotations ≡ false) l
        → All
            (λ s. equal r.annotations s.annotations ≡ false)
            (select (λ s. not (text_eq s.ingress ingress)) l)
    differs [] a = tt
    differs (s ∷ l) a = elim (Bool-cases (text_eq s.ingress ingress)) [
      | inl e ↦ rw e (differs l a.1)
      | inr e ↦ rw e (a.0, differs l a.1)
    ]

pub In_of_del_rule :
    (r : HttpRule) (rules : List HttpRule) (ingress : Text)
    → In r (del_rule rules ingress)
    → In r rules × (r.ingress ≢ ingress)
unfolding del_rule
In_of_del_rule r rules ingress i =
    let (j, n) = In_of_select (λ s. not (text_eq s.ingress ingress)) r rules i in
    (j, λ q. ground (arith, text_eq_iff r.ingress ingress))

module _ (mm : MultiMap Text HttpRule) (c : RouteRuleCache mm.Carrier) (ingress : Text) where
  pub rules_at-delete :
      IsValid mm c
      → (h p : Text)
      → rules_at (delete mm c ingress).rule_map h p ≡ del_rule (rules_at c.rule_map h p) ingress
  unfolding delete
  rules_at-delete v h p =
      let known = mm.get c.ingress2rule ingress in
      elim (Bool-cases (covers known h p)) [
        | inl e ↦ rules_at-delete_rules ingress known c.rule_map h p ∙ rw e refl
        | inr e ↦
            rules_at-delete_rules ingress known c.rule_map h p
            ∙ rw e (sym (del_rule_absent (rules_at c.rule_map h p) ingress (absent e)))
      ]
    where
      absent :
          covers (mm.get c.ingress2rule ingress) h p ≡ false
          → (r : HttpRule) → In r (rules_at c.rule_map h p)
          → r.ingress ≢ ingress
      absent e r i = λ q.
          let b = v.keyed h p r i in
          let known : In r (mm.get c.ingress2rule ingress) =
            subst (λ x. In r (mm.get c.ingress2rule x)) q (v.tracked h p r i) in
          cc (e, b.0, b.1, covers_In r (mm.get c.ingress2rule ingress) known)

  -- `delete` keeps the invariant of the cache.
  pub delete-IsValid : IsValid mm c → IsValid mm (delete mm c ingress)
  unfolding delete
  delete-IsValid v = record {
    keyed = λ h p r i. v.keyed h p r (was h p r i).0;
    tracked = λ h p r i.
        (mm.in_remove_all c.ingress2rule ingress r.ingress r).1
          (v.tracked h p r (was h p r i).0, λ q. (was h p r i).1 (sym q));
    distinct = λ h p.
        subst IsDistinct (sym (rules_at-delete v h p))
          (IsDistinct-del_rule (rules_at c.rule_map h p) ingress (v.distinct h p));
  }
    where
      was :
          (h p : Text) (r : HttpRule)
          → In r (rules_at (delete mm c ingress).rule_map h p)
          → In r (rules_at c.rule_map h p) × (r.ingress ≢ ingress)
      was h p r i =
          In_of_del_rule r (rules_at c.rule_map h p) ingress
            (subst (In r) (rules_at-delete v h p) i)

  -- After `delete` of an ingress, the cache does not know the ingress.
  pub contains_ingress-delete : contains_ingress mm (delete mm c ingress) ingress ≡ false
  unfolding contains_ingress delete
  contains_ingress-delete =
      elim (Bool-cases (mm.contains_key (mm.remove_all c.ingress2rule ingress) ingress)) [
        | inl e ↦
            let (r, i) = (mm.contains_key_iff (mm.remove_all c.ingress2rule ingress) ingress).0 e in
            absurd (((mm.in_remove_all c.ingress2rule ingress ingress r).0 i).1 refl)
        | inr e ↦ e
      ]
