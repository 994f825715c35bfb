-- ===== src/Tests/Routes.antt =====
-- Runs of the rule cache, and its theorems at concrete rules.
use ingress_bfe.Base.{
  Text, text, text_eq, true, List, [], ◌∷◌, none, some, ◌≡◌, ℤ_eq, refl, inl, inr, arith, lookup,
  insert, has_prefix,
}
use ingress_bfe.Samples.{external}
use ingress_bfe.Annotations.{find, value}
use ingress_bfe.Annotations.Priority.{equal}
use ingress_bfe.RouteRule.{HttpRule, new_http_rule}
use ingress_bfe.RouteRule.Order.{compare_priority, less, wildcard_host}
use ingress_bfe.RouteRule.Cache.Collect.Served.{Served, get-Served}
use ingress_bfe.RouteRule.Cache.{
  RouteRuleCache, rules_at, paths_of, set_rules, ensure_host, find_equal, put_found,
  new_route_rule_cache, put, get,
}
use ingress_bfe.RouteRule.Cache.Refinement.{
  Call, put_call, delete_call, replay, run, table, run_new_refines,
}
use ingress_bfe.RouteRule.Cache.Winner.{winner}
use ingress_bfe.RouteRule.Cache.Put.{winner_after, winner-put}
use ingress_bfe.RouteRule.Cache.Eldest.{put_all, winner-put_all}

abbrev host : Text
host = text "h.com"

abbrev younger : HttpRule
younger = new_http_rule 1 (text "ns/a") host (text "/x") none (text "ns/a_web_80") 5

abbrev older : HttpRule
older = new_http_rule 2 (text "ns/b") host (text "/x") none (text "ns/b_web_80") 3

abbrev rules : List HttpRule
rules = younger ∷ older ∷ []

abbrev cache : RouteRuleCache external.rule_index.Carrier
cache = (put external.rule_index (new_route_rule_cache external.rule_index) younger).0

younger_holds : winner cache.rule_map host (text "/x") none ≡ some younger
unfolding winner put put_found new_route_rule_cache find_equal rules_at paths_of set_rules
    ensure_host lookup insert text_eq text equal value find
younger_holds = refl

winner-put_example :
    winner (put external.rule_index cache older).0.rule_map host (text "/x") none
    ≡ winner_after cache.rule_map older host (text "/x") none
winner-put_example = winner-put external.rule_index cache older host (text "/x") none

winner-put_all_example :
    winner
      (put_all external.rule_index (new_route_rule_cache external.rule_index) rules).rule_map
      host
      (text "/x")
      none
    ≡ some older
unfolding text_eq text equal value find
winner-put_all_example =
    winner-put_all external.rule_index rules older host (text "/x") none (inr (inl refl)) refl
      ((λ _. inr (omega arith)), ((λ _. inl refl), tt))

get-Served_example :
    Served external.advanced_mode younger
      (rules_at cache.rule_map host (text "/x"))
      (get external.advanced_mode cache.rule_map)
unfolding put put_found new_route_rule_cache find_equal rules_at paths_of set_rules ensure_host
    lookup insert text_eq text
get-Served_example =
    get-Served external.advanced_mode cache.rule_map host (text "/x") younger (inl refl)

-- No host restriction goes before a wildcard host, although it is the less specific.
abbrev any_host : HttpRule
any_host = new_http_rule 3 (text "ns/a") (text "*") (text "/x") none (text "ns/a_web_80") 5

abbrev wildcard : HttpRule
wildcard = new_http_rule 4 (text "ns/a") (text "*.h.com") (text "/x") none (text "ns/a_web_80") 5

any_host_first : less any_host wildcard ≡ true
unfolding less text compare_priority wildcard_host has_prefix ℤ_eq
any_host_first = refl

-- The elder rule takes the place, the younger is refused, and nothing is left without the elder.
abbrev calls : List Call
calls = put_call younger ∷ put_call older ∷ put_call younger ∷ delete_call (text "ns/b") ∷ []

run_new_refines_example :
    ((run external.rule_index calls (new_route_rule_cache external.rule_index)).0
      ≡ (replay calls (λ h p a. none)).0)
    × (table external.rule_index
          (run external.rule_index calls (new_route_rule_cache external.rule_index)).1
        ≡ (replay calls (λ h p a. none)).1)
run_new_refines_example = run_new_refines external.rule_index calls
