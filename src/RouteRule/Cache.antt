-- ===== src/RouteRule/Cache.antt =====
-- `RouteRuleCache` of internal/bfeConfig/configs/routeRuleCache.go.
pub mod Places
pub mod Winner
pub mod Put
pub mod Eldest
pub mod Distinct
pub mod Invariant
pub mod Delete
pub mod Collect
pub mod Refinement
use ingress_bfe.Base.{
  ℕ, suc, ltb, ◌==◌, Text, text, text_eq, Map, lookup, insert, remove, Bool, true, false, not, ◌&&◌,
  if◌then◌else◌, List, [], ◌∷◌, ◌++◌, set, select, Option, none, some, Error,
}
use ingress_bfe.MultiMap.{MultiMap}
use ingress_bfe.Annotations.Priority.{priority, priority_basic, equal}
use ingress_bfe.RouteRule.{HttpRule}
use ingress_bfe.RouteRule.Order.{sort_stable}

-- `c.ruleMap`: host to path to rules
abbrev pub RuleMap : Type 0
RuleMap = Map (Map (List HttpRule))

-- `RouteRuleCache`, whose one field is the `HttpRouteRuleCache`; `C` is the type of the index.
pub record RouteRuleCache (C : Type 0) : Type 0 where
  -- ingress to the rules that it put
  pub ingress2rule : C
  pub rule_map : RuleMap

-- `ruleMap[host]`, a nil map if it is missing
unfoldable pub paths_of : RuleMap → Text → Map (List HttpRule)
paths_of m host = elim (lookup host m) [ none ↦ [] | some paths ↦ paths ]

-- `ruleMap[host][path]`, a nil slice if it is missing
unfoldable pub rules_at : RuleMap → Text → Text → List HttpRule
unfolding paths_of
rules_at m host path = elim (lookup path (paths_of m host)) [ none ↦ [] | some rules ↦ rules ]

-- `ruleMap[host][path] = rules`, where `ruleMap[host]` is not nil
unfoldable pub set_rules : RuleMap → Text → Text → List HttpRule → RuleMap
unfolding paths_of
set_rules m host path rules = insert host (insert path rules (paths_of m host)) m

-- `if _, ok := ruleMap[host]; !ok { ruleMap[host] = make(…) }`
unfoldable pub ensure_host : RuleMap → Text → RuleMap
ensure_host m host = elim (lookup host m) [ none ↦ insert host [] m | some _ ↦ m ]

-- The loop of `put`: the first rule with the conditions of `rule`, and its index.
unfoldable pub find_equal : HttpRule → ℕ → List HttpRule → Option (ℕ × HttpRule)
find_equal rule i [] = none
find_equal rule i (r ∷ rules) =
    if equal rule.annotations r.annotations then some (i, r) else find_equal rule (suc i) rules

-- `delRule`
unfoldable pub del_rule : List HttpRule → Text → List HttpRule
del_rule rules ingress = select (λ rule. not (text_eq rule.ingress ingress)) rules

abbrev pub is_nil {ℓ} : {A : Type ℓ} → List A → Bool
is_nil [] = true
is_nil (_ ∷ _) = false

-- `if len(ruleMap[host][path]) == 0 { delete(ruleMap[host], path) }`
unfoldable pub prune_path : Text → Text → RuleMap → RuleMap
prune_path host path m =
    if is_nil (rules_at m host path) then insert host (remove path (paths_of m host)) m else m

-- `if len(ruleMap[host]) == 0 { delete(ruleMap, host) }`
unfoldable pub prune_host : Text → RuleMap → RuleMap
prune_host host m = if is_nil (paths_of m host) then remove host m else m

-- One round of the loop of `delete`, over the rule map.
unfoldable pub delete_rule : Text → HttpRule → RuleMap → RuleMap
delete_rule ingress_name rule m = elim (lookup rule.path (paths_of m rule.host)) [
  | none ↦ m
  | some rules ↦ prune_host rule.host (
      prune_path rule.host rule.path
        (set_rules m rule.host rule.path (del_rule rules ingress_name)))
]

unfoldable pub delete_rules : Text → List HttpRule → RuleMap → RuleMap
delete_rules ingress_name [] m = m
delete_rules ingress_name (rule ∷ rules) m =
    delete_rules ingress_name rules (delete_rule ingress_name rule m)

-- The error of `put` on a conflict.
abbrev pub conflict : HttpRule → HttpRule → Text
conflict rule r =
    text "ingress ["
    ++ rule.ingress
    ++ text "] conflict with existing "
    ++ r.ingress
    ++ text ", rule [host: "
    ++ rule.host
    ++ text ", path: "
    ++ rule.path
    ++ text "]"

module _ (mm : MultiMap Text HttpRule) where
  open mm use {Carrier}

  unfoldable pub new_route_rule_cache : RouteRuleCache Carrier
  new_route_rule_cache = record { ingress2rule = mm.new; rule_map = [] }

  -- `ContainsIngress`
  unfoldable pub contains_ingress : RouteRuleCache Carrier → Text → Bool
  contains_ingress c ingress = mm.contains_key c.ingress2rule ingress

  -- `put` for the outcome of its loop, after the host is there.
  unfoldable pub put_found :
      RouteRuleCache Carrier → HttpRule → Option (ℕ × HttpRule) → RouteRuleCache Carrier × Error
  put_found c rule none =
      let rules = rules_at c.rule_map rule.host rule.path in
      (
        record {
          ingress2rule = mm.put c.ingress2rule rule.ingress rule;
          rule_map = set_rules c.rule_map rule.host rule.path (rules ++ rule ∷ []);
        },
        none,
      )
  put_found c rule (some (i, r)) =
      let rules = rules_at c.rule_map rule.host rule.path in
      if ltb rule.create_time r.create_time
      then (
        record {
          ingress2rule = mm.put (mm.remove c.ingress2rule rule.ingress r) rule.ingress rule;
          rule_map = set_rules c.rule_map rule.host rule.path (set rules i rule);
        },
        none,
      )
      else if rule.create_time == r.create_time
      then (c, none)
      else (c, some (conflict rule r))

  unfoldable pub put : RouteRuleCache Carrier → HttpRule → RouteRuleCache Carrier × Error
  put c rule =
      let ensured = record c { rule_map = ensure_host c.rule_map rule.host } in
      put_found ensured rule (find_equal rule 0 (rules_at ensured.rule_map rule.host rule.path))

  unfoldable pub delete : RouteRuleCache Carrier → Text → RouteRuleCache Carrier
  delete c ingress_name = record {
    ingress2rule = mm.remove_all c.ingress2rule ingress_name;
    rule_map = delete_rules ingress_name (mm.get c.ingress2rule ingress_name) c.rule_map;
  }

-- The two lists that `get` collects.
abbrev pub Collected : Type 0
Collected = List HttpRule × List HttpRule

-- One round of the inner loop of `get`. `advanced_mode` is BFE's `route_rule_conf.AdvancedMode`.
unfoldable pub collect_rules : Text → List HttpRule → Collected → Collected
collect_rules advanced_mode [] acc = acc
collect_rules advanced_mode (r ∷ []) (basic, advanced) =
    if priority r.annotations == priority_basic
    then (basic ++ r ∷ [], advanced)
    else (basic ++ (record r { cluster = advanced_mode }) ∷ [], advanced ++ r ∷ [])
collect_rules advanced_mode (r ∷ s ∷ rules) (basic, advanced) =
    (basic ++ (record r { cluster = advanced_mode }) ∷ [], advanced ++ r ∷ s ∷ rules)

unfoldable pub collect_paths : Text → Map (List HttpRule) → Collected → Collected
collect_paths advanced_mode [] acc = acc
collect_paths advanced_mode ((path, rules) ∷ paths) acc =
    collect_paths advanced_mode paths (collect_rules advanced_mode rules acc)

unfoldable pub collect_hosts : Text → RuleMap → Collected → Collected
collect_hosts advanced_mode [] acc = acc
collect_hosts advanced_mode ((host, paths) ∷ hosts) acc =
    collect_hosts advanced_mode hosts (collect_paths advanced_mode paths acc)

-- `get`: the basic and the advanced rules. A Go map is iterated in any order: here, in that of the
-- list that stands for it.
unfoldable pub get : Text → RuleMap → Collected
unfolding collect_hosts collect_paths collect_rules
get advanced_mode m =
    let (basic, advanced) = collect_hosts advanced_mode m ([], []) in (basic, sort_stable advanced)
