-- ===== src/RouteRule/Cache/Places.antt =====
-- What the writes of the rule map do to the rules at each host and path.
use ingress_bfe.Base.{
  Text, text_eq, text_eq_iff, Map, lookup, insert, remove, lookup-insert, lookup-remove, Bool, ◌&&◌,
  if◌then◌else◌, List, [], none, some, Option-cases, ◌≡◌, arith, inl, inr,
}
use ingress_bfe.RouteRule.{HttpRule}
use ingress_bfe.RouteRule.Cache.{
  RuleMap, paths_of, rules_at, set_rules, ensure_host, del_rule, prune_path, prune_host,
  delete_rule,
}

abbrev pub same_place : Text → Text → Text → Text → Bool
same_place host path h p = text_eq host h && text_eq path p

pub rules_at-set_rules :
    (m : RuleMap) (host path : Text) (rules : List HttpRule) (h p : Text)
    → rules_at (set_rules m host path rules) h p
      ≡ (if same_place host path h p then rules else rules_at m h p)
unfolding rules_at set_rules
rules_at-set_rules m host path rules h p = ground (
  arith,
  lookup-insert host h (insert path rules (paths_of m host)) m,
  lookup-insert path p rules (paths_of m host),
  text_eq_iff host h,
)

pub rules_at-ensure_host :
    (m : RuleMap) (host h p : Text) → rules_at (ensure_host m host) h p ≡ rules_at m h p
unfolding rules_at ensure_host lookup
rules_at-ensure_host m host h p =
    ground (arith, lookup-insert {V = Map (List HttpRule)} host h [] m, text_eq_iff host h)

rules_at-prune_path :
    (m : RuleMap) (host path h p : Text) → rules_at (prune_path host path m) h p ≡ rules_at m h p
unfolding rules_at prune_path
rules_at-prune_path m host path h p = ground (
  arith,
  lookup-insert host h (remove path (paths_of m host)) m,
  lookup-remove path p (paths_of m host),
  text_eq_iff host h,
  text_eq_iff path p,
)

rules_at-prune_host :
    (m : RuleMap) (host h p : Text) → rules_at (prune_host host m) h p ≡ rules_at m h p
unfolding rules_at prune_host lookup
rules_at-prune_host m host h p = ground (arith, lookup-remove host h m, text_eq_iff host h)

absent :
    (ingress : Text) (rule : HttpRule) (m : RuleMap) (h p : Text)
    → lookup rule.path (paths_of m rule.host) ≡ none
    → rules_at m h p ≡ (
        if same_place rule.host rule.path h p
        then del_rule (rules_at m h p) ingress
        else rules_at m h p)
unfolding rules_at del_rule
absent ingress rule m h p e = ground (arith, text_eq_iff rule.host h, text_eq_iff rule.path p)

present :
    (ingress : Text) (rule : HttpRule) (m : RuleMap) (h p : Text) (rules : List HttpRule)
    → lookup rule.path (paths_of m rule.host) ≡ some rules
    → (if same_place rule.host rule.path h p then del_rule rules ingress else rules_at m h p) ≡ (
        if same_place rule.host rule.path h p
        then del_rule (rules_at m h p) ingress
        else rules_at m h p)
unfolding rules_at
present ingress rule m h p rules e =
    ground (arith, text_eq_iff rule.host h, text_eq_iff rule.path p)

-- One round of `delete` filters the rules of one place.
pub rules_at-delete_rule :
    (ingress : Text) (rule : HttpRule) (m : RuleMap) (h p : Text)
    → rules_at (delete_rule ingress rule m) h p ≡ (
        if same_place rule.host rule.path h p
        then del_rule (rules_at m h p) ingress
        else rules_at m h p)
unfolding delete_rule
rules_at-delete_rule ingress rule m h p =
    elim (Option-cases (lookup rule.path (paths_of m rule.host))) [
      | inl e ↦ rw (e, delete_rule) (absent ingress rule m h p e)
      | inr (rules, e) ↦
          rw (e, delete_rule, rules_at-prune_host, rules_at-prune_path, rules_at-set_rules)
            (present ingress rule m h p rules e)
    ]
