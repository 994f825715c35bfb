-- ===== src/RouteRule/Cache/Collect/Served.antt =====
-- Every rule of the cache is served.
use ingress_bfe.Base.{
  Text, Map, lookup, true, false, List, [], ◌∷◌, In, In-append_left, In-append_right, some,
  Option-cases, Bool-cases, ◌≡◌, refl, subst, arith, inl, inr, ◌⊎◌,
}
use ingress_bfe.RouteRule.{HttpRule}
use ingress_bfe.RouteRule.Order.Sort.{In-sort_stable}
use ingress_bfe.RouteRule.Cache.{RuleMap, rules_at, Collected, get}
use ingress_bfe.RouteRule.Cache.Collect.{
  path_slots, slots, is_plain, advanced_of, basic_of, basics_of, get_lem,
}

slot_of_path :
    (p : Text) (paths : Map (List HttpRule)) (rules : List HttpRule)
    → lookup p paths ≡ some rules
    → In rules (path_slots paths)
unfolding lookup path_slots
slot_of_path p [] rules e = cc
slot_of_path p ((q, l) ∷ paths) rules e = ground (arith, slot_of_path p paths rules)

slot_of_host :
    (h : Text) (m : RuleMap) (paths : Map (List HttpRule)) (rules : List HttpRule)
    → lookup h m ≡ some paths
    → In rules (path_slots paths)
    → In rules (slots m)
unfolding lookup slots
slot_of_host h [] paths rules e i = cc
slot_of_host h ((j, l) ∷ m) paths rules e i = ground (
  arith,
  slot_of_host h m paths rules,
  In-append_right rules (path_slots l) (slots m),
  In-append_left rules (path_slots l) (slots m),
)

rules_at_cases :
    (m : RuleMap) (h p : Text)
    → (rules_at m h p ≡ [])
      ⊎ ((paths : Map (List HttpRule)) × (lookup h m ≡ some paths)
          × (lookup p paths ≡ some (rules_at m h p)))
unfolding rules_at lookup
rules_at_cases m h p = elim (Option-cases (lookup h m)) [
  | inl e ↦ inl (ground arith)
  | inr (paths, e) ↦ elim (Option-cases (lookup p paths)) [
    | inl q ↦ inl (ground arith)
    | inr (rules, q) ↦ inr (paths, e, ground arith)
  ]
]

-- Rules at a host and path stand in a place of the map.
slot_of_rule :
    (m : RuleMap) (h p : Text) (r : HttpRule)
    → In r (rules_at m h p)
    → In (rules_at m h p) (slots m)
slot_of_rule m h p r i = elim (rules_at_cases m h p) [
  | inl e ↦ absurd (subst (In r) e i)
  | inr (paths, e, q) ↦
      slot_of_host h m paths (rules_at m h p) e (slot_of_path p paths (rules_at m h p) q)
]

In-advanced_of :
    (r : HttpRule) (rules : List HttpRule) (l : List (List HttpRule))
    → In rules l
    → is_plain rules ≡ false
    → In r rules
    → In r (advanced_of l)
unfolding advanced_of
In-advanced_of r rules [] i n k = absurd i
In-advanced_of r rules (first ∷ l) (inl e) n k =
    rw e (rw n (In-append_left r rules (advanced_of l) k))
In-advanced_of r rules (first ∷ l) (inr i) n k = elim (Bool-cases (is_plain first)) [
  | inl e ↦ rw e (In-advanced_of r rules l i n k)
  | inr e ↦ rw e (In-append_right r first (advanced_of l) (In-advanced_of r rules l i n k))
]

In-basics_of :
    (am : Text) (b : HttpRule) (rules : List HttpRule) (l : List (List HttpRule))
    → In rules l
    → In b (basic_of am rules)
    → In b (basics_of am l)
unfolding basics_of
In-basics_of am b rules [] i k = absurd i
In-basics_of am b rules (first ∷ l) (inl e) k =
    rw e (In-append_left b (basic_of am rules) (basics_of am l) k)
In-basics_of am b rules (first ∷ l) (inr i) k =
    In-append_right b (basic_of am first) (basics_of am l) (In-basics_of am b rules l i k)

-- How a rule of a place is served: as the basic rule, or as an advanced rule with the place's basic
-- rule pointing to the advanced ones.
abbrev pub Served : Text → HttpRule → List HttpRule → Collected → Type 0
Served am r rules (basic, advanced) =
    In r basic
    ⊎ (In r advanced × ((s : HttpRule) × In s rules × In (record s { cluster = am }) basic))

-- of the first rule of a place
marked :
    (am : Text) (r : HttpRule) (rules : List HttpRule)
    → is_plain rules ≡ false
    → In r rules
    → (s : HttpRule) × In s rules × In (record s { cluster = am }) (basic_of am rules)
unfolding basic_of
marked am r [] n i = absurd i
marked am r (s ∷ rules) n i = (s, inl refl, rw n (inl refl))

plain :
    (am : Text) (r : HttpRule) (rules : List HttpRule)
    → is_plain rules ≡ true
    → In r rules
    → In r (basic_of am rules)
unfolding basic_of
plain am r [] n i = absurd i
plain am r (s ∷ []) n i = rw n i
plain am r (s ∷ t ∷ rules) n i = cc

-- Every rule of the cache is served by what `get` returns: it is itself a basic rule, or it is an
-- advanced rule and a basic rule of its place sends the request to the advanced rules.
pub get-Served :
    (advanced_mode : Text) (m : RuleMap) (h p : Text) (r : HttpRule)
    → In r (rules_at m h p)
    → Served advanced_mode r (rules_at m h p) (get advanced_mode m)
get-Served am m h p r i =
    let slot = slot_of_rule m h p r i in
    rw get_lem (elim (Bool-cases (is_plain (rules_at m h p))) [
      | inl e ↦
          inl (In-basics_of am r (rules_at m h p) (slots m) slot (plain am r (rules_at m h p) e i))
      | inr e ↦
          let (s, j, k) = marked am r (rules_at m h p) e i in
          inr (
            In-sort_stable r (advanced_of (slots m))
                (In-advanced_of r (rules_at m h p) (slots m) slot e i),
            (s, j, In-basics_of am (record s { cluster = am }) (rules_at m h p) (slots m) slot k),
          )
    ])
