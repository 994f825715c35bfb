-- ===== src/RouteRule/Cache/Eldest.antt =====
-- First created, first served: whatever the order in which rules are put.
use ingress_bfe.Base.{
  ◌<◌, lookup, Text, Bool, true, false, ◌&&◌, if◌then◌else◌, List, [], ◌∷◌, In, All, Option, none,
  some, ◌≡◌, arith, ◌⊎◌,
}
use ingress_bfe.MultiMap.{MultiMap}
use ingress_bfe.Annotations.{Annotations}
use ingress_bfe.Annotations.Priority.{equal}
use ingress_bfe.RouteRule.{HttpRule}
use ingress_bfe.RouteRule.Cache.{RouteRuleCache, rules_at, new_route_rule_cache, put}
use ingress_bfe.RouteRule.Cache.Places.{same_place}
use ingress_bfe.RouteRule.Cache.Winner.{winner, elder}
use ingress_bfe.RouteRule.Cache.Put.{winner-put}

-- `rule` is for this host, path and conditions.
abbrev pub is_for : HttpRule → Text → Text → Annotations → Bool
is_for rule h p a = same_place rule.host rule.path h p && equal rule.annotations a

module _ (mm : MultiMap Text HttpRule) where
  -- A sequence of calls of `PutHttpRule`.
  pub put_all : RouteRuleCache mm.Carrier → List HttpRule → RouteRuleCache mm.Carrier
  put_all c [] = c
  put_all c (rule ∷ rules) = put_all (put mm c rule).0 rules

-- `o` is the first created of the rules for this host, path and conditions.
abbrev pub IsEldest : HttpRule → List HttpRule → Text → Text → Annotations → Type 0
IsEldest o rules h p a =
    All (λ r. is_for r h p a ≡ true → (r ≡ o) ⊎ (o.create_time < r.create_time)) rules

-- `o` holds, or what holds is younger than `o` and `o` is still to come.
abbrev Pending : HttpRule → List HttpRule → Option HttpRule → Type 0
Pending o rules none = In o rules
Pending o rules (some w) = (w ≡ o) ⊎ (In o rules × (o.create_time < w.create_time))

Pending-step :
    (o rule : HttpRule) (rules : List HttpRule) (w : Option HttpRule) (for : Bool)
    → (rule ≡ o → for ≡ true)
    → (for ≡ true → (rule ≡ o) ⊎ (o.create_time < rule.create_time))
    → Pending o (rule ∷ rules) w
    → Pending o rules (if for then some (elder rule w) else w)
Pending-step o rule rules none true h k q = ground arith
Pending-step o rule rules none false h k q = ground arith
Pending-step o rule rules (some w) true h k q = ground arith
Pending-step o rule rules (some w) false h k q = ground arith

settled : (o : HttpRule) (w : Option HttpRule) → Pending o [] w → w ≡ some o
settled o none q = absurd q
settled o (some w) q = ground arith

module _ (mm : MultiMap Text HttpRule) where
  put_all-Pending :
      (rules : List HttpRule) (c : RouteRuleCache mm.Carrier) (o : HttpRule) (h p : Text)
      (a : Annotations)
      → is_for o h p a ≡ true
      → IsEldest o rules h p a
      → Pending o rules (winner c.rule_map h p a)
      → Pending o [] (winner (put_all mm c rules).rule_map h p a)
  unfolding put_all
  put_all-Pending [] c o h p a f e q = q
  put_all-Pending (rule ∷ rules) c o h p a f e q =
      put_all-Pending rules (put mm c rule).0 o h p a f e.1 (
        rw winner-put (
          Pending-step o rule rules (winner c.rule_map h p a) (is_for rule h p a) (λ eq. rw eq f)
            e.0 q))

  -- Whatever the order in which rules are put into an empty cache: the first created of those for a
  -- host, path and conditions is the one that holds.
  pub winner-put_all :
      (rules : List HttpRule) (o : HttpRule) (h p : Text) (a : Annotations)
      → In o rules
      → is_for o h p a ≡ true
      → IsEldest o rules h p a
      → winner (put_all mm (new_route_rule_cache mm) rules).rule_map h p a ≡ some o
  unfolding new_route_rule_cache winner rules_at lookup
  winner-put_all rules o h p a i f e =
      settled o (winner (put_all mm (new_route_rule_cache mm) rules).rule_map h p a)
        (put_all-Pending rules (new_route_rule_cache mm) o h p a f e i)
