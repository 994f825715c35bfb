-- ===== src/RouteRule/Cache/Refinement.antt =====
-- The cache as a client sees it: at most one rule for each host, path and conditions, and the error
-- of each call. `put` and `delete` implement the two operations on that view, in any sequence.
use ingress_bfe.Base.{
  Text, text_eq, true, false, ◌&&◌, if◌then◌else◌, List, [], ◌∷◌, All, Option, none, some, Error,
  Bool-cases, ◌≡◌, refl, ap, lookup, ◌∙◌, fun_ext, arith, inl, inr,
}
use ingress_bfe.MultiMap.{MultiMap}
use ingress_bfe.Annotations.{Annotations}
use ingress_bfe.Annotations.Priority.{equal}
use ingress_bfe.RouteRule.{HttpRule}
use ingress_bfe.RouteRule.Cache.{
  RouteRuleCache, rules_at, del_rule, new_route_rule_cache, put, delete,
}
use ingress_bfe.RouteRule.Cache.Places.{same_place}
use ingress_bfe.RouteRule.Cache.Winner.{winner, first_equal, elder, refused, equal_congr}
use ingress_bfe.RouteRule.Cache.Put.{winner-put, error-put}
use ingress_bfe.RouteRule.Cache.Distinct.{IsDistinct}
use ingress_bfe.RouteRule.Cache.Invariant.{IsValid, put-IsValid, new_route_rule_cache-IsValid}
use ingress_bfe.RouteRule.Cache.Delete.{rules_at-delete, delete-IsValid}

-- The rule that holds at a host and path for given conditions.
abbrev pub Table : Type 0
Table = Text → Text → Annotations → Option HttpRule

abbrev pub put_table : HttpRule → Table → Table
put_table rule f h p a =
    if same_place rule.host rule.path h p && equal rule.annotations a
    then some (elder rule (f h p a))
    else f h p a

abbrev without : Text → Option HttpRule → Option HttpRule
without ingress none = none
without ingress (some r) = if text_eq r.ingress ingress then none else some r

abbrev pub delete_table : Text → Table → Table
delete_table ingress f h p a = without ingress (f h p a)

pub data Call : Type 0 where
  put_call : HttpRule → Call
  delete_call : Text → Call

-- The errors of the calls, in order, and what the table is after them.
pub replay : List Call → Table → List Error × Table
replay [] f = ([], f)
replay (put_call rule ∷ calls) f =
    let (errors, g) = replay calls (put_table rule f) in
    (refused rule (f rule.host rule.path rule.annotations) ∷ errors, g)
replay (delete_call ingress ∷ calls) f = replay calls (delete_table ingress f)

first_equal_absent :
    (r : HttpRule) (a : Annotations) (ingress : Text) (rules : List HttpRule)
    → equal a r.annotations ≡ true
    → All (λ s. equal r.annotations s.annotations ≡ false) rules
    → first_equal a (del_rule rules ingress) ≡ none
unfolding del_rule
first_equal_absent r a ingress [] e d = refl
first_equal_absent r a ingress (s ∷ rules) e d = ground (
  arith,
  d.0,
  equal_congr a r.annotations s.annotations e,
  first_equal_absent r a ingress rules e d.1,
)

first_equal-del_rule :
    (a : Annotations) (ingress : Text) (rules : List HttpRule)
    → IsDistinct rules
    → first_equal a (del_rule rules ingress) ≡ without ingress (first_equal a rules)
unfolding del_rule
first_equal-del_rule a ingress [] d = refl
first_equal-del_rule a ingress (r ∷ rules) d = elim (Bool-cases (equal a r.annotations)) [
  | inl e ↦ ground (arith, e, first_equal_absent r a ingress rules e d.0)
  | inr e ↦ ground (arith, e, first_equal-del_rule a ingress rules d.1)
]

module _ (mm : MultiMap Text HttpRule) where
  pub run : List Call → RouteRuleCache mm.Carrier → List Error × RouteRuleCache mm.Carrier
  run [] c = ([], c)
  run (put_call rule ∷ calls) c =
      let (d, e) = put mm c rule in let (errors, last) = run calls d in (e ∷ errors, last)
  run (delete_call ingress ∷ calls) c = run calls (delete mm c ingress)

  abbrev pub table : RouteRuleCache mm.Carrier → Table
  table c = winner c.rule_map

  table-put :
      (c : RouteRuleCache mm.Carrier) (rule : HttpRule)
      → table (put mm c rule).0 ≡ put_table rule (table c)
  table-put c rule = fun_ext (λ h. fun_ext (λ p. fun_ext (λ a. winner-put mm c rule h p a)))

  table-delete :
      (c : RouteRuleCache mm.Carrier) (ingress : Text)
      → IsValid mm c
      → table (delete mm c ingress) ≡ delete_table ingress (table c)
  unfolding winner
  table-delete c ingress v = fun_ext (λ h. fun_ext (λ p. fun_ext (λ a.
      ap (first_equal a) (rules_at-delete mm c ingress v h p)
      ∙ first_equal-del_rule a ingress (rules_at c.rule_map h p) (v.distinct h p))))

  run_refines :
      (calls : List Call) (c : RouteRuleCache mm.Carrier)
      → IsValid mm c
      → IsValid mm (run calls c).1
        × ((run calls c).0 ≡ (replay calls (table c)).0)
        × (table (run calls c).1 ≡ (replay calls (table c)).1)
  unfolding run replay
  run_refines [] c v = (v, refl, refl)
  run_refines (put_call rule ∷ calls) c v =
      let (w, e, f) = run_refines calls (put mm c rule).0 (put-IsValid mm c rule v) in
      let q = table-put c rule in (w, rw (error-put mm c rule, e, q) refl, f ∙ rw q refl)
  run_refines (delete_call ingress ∷ calls) c v =
      let (w, e, f) = run_refines calls (delete mm c ingress) (delete-IsValid mm c ingress v) in
      let q = table-delete c ingress v in (w, e ∙ rw q refl, f ∙ rw q refl)

  -- Any sequence of calls of `put` and `delete` on a new cache gives the errors, and leaves for each
  -- host, path and conditions the rule, that the same calls give on the view of one rule for each:
  -- `put` keeps the elder and fails on a strictly older one, `delete` forgets those of its ingress.
  pub run_new_refines :
      (calls : List Call)
      → ((run calls (new_route_rule_cache mm)).0 ≡ (replay calls (λ h p a. none)).0)
        × (table (run calls (new_route_rule_cache mm)).1 ≡ (replay calls (λ h p a. none)).1)
  unfolding winner new_route_rule_cache rules_at lookup
  run_new_refines calls =
      let (v, e, f) =
        run_refines calls (new_route_rule_cache mm) (new_route_rule_cache-IsValid mm) in
      (e, f)
