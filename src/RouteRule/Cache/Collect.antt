-- ===== src/RouteRule/Cache/Collect.antt =====
-- What `get` returns, place by place, and the order of the advanced rules.
pub mod Served
use mathlib.Core.List.{append_assoc, append-nil}
use ingress_bfe.Base.{
  ℕ, ◌==◌, Text, text_eq, Map, lookup, Bool, false, if◌then◌else◌, List, [], ◌∷◌, ◌++◌, In,
  In-append_left, In-append_right, Option, none, some, Option-cases, Bool-cases, ◌≡◌, refl, ap, sym,
  ◌∙◌, arith, inl, inr, ◌⊎◌,
}
use ingress_bfe.Annotations.Priority.{priority, priority_basic}
use ingress_bfe.RouteRule.{HttpRule}
use ingress_bfe.RouteRule.Order.{sort_stable}
use ingress_bfe.RouteRule.Order.Sort.{In-sort_stable}
use ingress_bfe.RouteRule.Cache.{
  RuleMap, paths_of, rules_at, Collected, collect_rules, collect_paths, collect_hosts, get,
}

-- The lists of rules of all hosts and paths.
pub path_slots : Map (List HttpRule) → List (List HttpRule)
path_slots [] = []
path_slots ((_, rules) ∷ paths) = rules ∷ path_slots paths

pub slots : RuleMap → List (List HttpRule)
slots [] = []
slots ((_, paths) ∷ hosts) = path_slots paths ++ slots hosts

-- One place needs no advanced rules: its one rule has no conditions.
abbrev pub is_plain : List HttpRule → Bool
is_plain (r ∷ []) = priority r.annotations == priority_basic
is_plain _ = false

-- The rules of the places that are not plain, place by place.
pub advanced_of : List (List HttpRule) → List HttpRule
advanced_of [] = []
advanced_of (rules ∷ more) = if is_plain rules then advanced_of more else rules ++ advanced_of more

unfoldable pub advanced_rules : RuleMap → List HttpRule
unfolding advanced_of slots path_slots
advanced_rules m = advanced_of (slots m)

-- The basic rule of a place.
pub basic_of : Text → List HttpRule → List HttpRule
basic_of advanced_mode [] = []
basic_of advanced_mode (r ∷ rules) =
    (if is_plain (r ∷ rules) then r else record r { cluster = advanced_mode }) ∷ []

pub basics_of : Text → List (List HttpRule) → List HttpRule
basics_of advanced_mode [] = []
basics_of advanced_mode (rules ∷ more) =
    basic_of advanced_mode rules ++ basics_of advanced_mode more

abbrev appended : Text → List (List HttpRule) → Collected → Collected
appended advanced_mode l (basic, advanced) =
    (basic ++ basics_of advanced_mode l, advanced ++ advanced_of l)

collect_rules_lem :
    (am : Text) (rules : List HttpRule) (more : List (List HttpRule)) (acc : Collected)
    → appended am more (collect_rules am rules acc) ≡ appended am (rules ∷ more) acc
unfolding collect_rules advanced_of basics_of basic_of
collect_rules_lem am [] more acc = refl
collect_rules_lem am (r ∷ []) more (b, a) = ground (
  arith,
  append_assoc b (r ∷ []) (basics_of am more),
  append_assoc b (record r { cluster = am } ∷ []) (basics_of am more),
  append_assoc a (r ∷ []) (advanced_of more),
)
collect_rules_lem am (r ∷ s ∷ rules) more (b, a) = ground (
  arith,
  append_assoc b (record r { cluster = am } ∷ []) (basics_of am more),
  append_assoc a (r ∷ s ∷ rules) (advanced_of more),
)

collect_paths_lem :
    (am : Text) (paths : Map (List HttpRule)) (more : List (List HttpRule)) (acc : Collected)
    → appended am more (collect_paths am paths acc) ≡ appended am (path_slots paths ++ more) acc
unfolding collect_paths path_slots
collect_paths_lem am [] more acc = refl
collect_paths_lem am ((_, rules) ∷ paths) more acc =
    collect_paths_lem am paths more (collect_rules am rules acc)
    ∙ collect_rules_lem am rules (path_slots paths ++ more) acc

collect_hosts_lem :
    (am : Text) (m : RuleMap) (acc : Collected)
    → appended am [] (collect_hosts am m acc) ≡ appended am (slots m) acc
unfolding collect_hosts slots
collect_hosts_lem am [] acc = refl
collect_hosts_lem am ((_, paths) ∷ hosts) acc =
    collect_hosts_lem am hosts (collect_paths am paths acc)
    ∙ collect_paths_lem am paths (slots hosts) acc

appended-nil : (am : Text) (acc : Collected) → appended am [] acc ≡ acc
unfolding basics_of advanced_of
appended-nil am (b, a) = ground (arith, append-nil b, append-nil a)

pub get_lem :
    (am : Text) (m : RuleMap)
    → get am m ≡ (basics_of am (slots m), sort_stable (advanced_of (slots m)))
unfolding get
get_lem am m =
    ap (λ (acc : Collected). (acc.0, sort_stable acc.1))
      (sym (appended-nil am (collect_hosts am m ([], []))) ∙ collect_hosts_lem am m ([], []))
