-- ===== src/RouteRule/Order.antt =====
-- The precedence of rules, and the stable sort of the advanced rules by it.
pub mod Laws
pub mod Sort
pub mod Precedence
use ingress_bfe.Base.{
  ℕ, ltb, ◌==◌, Text, text, is_empty, has_prefix, has_suffix, length, Bool, true, false, not, ◌&&◌,
  if◌then◌else◌, ℤ, pos, negsuc, ℤ_eq, is_pos, List, [], ◌∷◌,
}
use ingress_bfe.Annotations.Priority.{priority}
use ingress_bfe.RouteRule.{HttpRule}

unfoldable pub wildcard_path : Text → Bool
wildcard_path path = if ltb 0 (length path) && has_suffix path (text "*") then true else false

unfoldable pub wildcard_host : Text → Bool
wildcard_host host = if ltb 0 (length host) && has_prefix host (text "*.") then true else false

-- 1: the first goes first; -1: the second does
unfoldable pub compare_priority : Text → Text → (Text → Bool) → ℤ
compare_priority str1 str2 wildcard =
    if not (wildcard str1) && wildcard str2
    then pos 1
    else if wildcard str1 && not (wildcard str2)
    then negsuc 0
    else if ltb (length str2) (length str1)
    then pos 1
    else if length str1 == length str2
    then pos 0
    else negsuc 0

-- The comparison that `get` sorts by: `a` goes before `b`.
unfoldable pub less : HttpRule → HttpRule → Bool
less a b =
    let by_host = compare_priority a.host b.host wildcard_host in
    let by_path = compare_priority a.path b.path wildcard_path in
    if not (ℤ_eq by_host (pos 0))
    then is_pos by_host
    else if not (ℤ_eq by_path (pos 0))
    then is_pos by_path
    else if not (priority a.annotations == priority b.annotations)
    then ltb (priority b.annotations) (priority a.annotations)
    else ltb a.create_time b.create_time

insert_rule : HttpRule → List HttpRule → List HttpRule
insert_rule x [] = x ∷ []
insert_rule x (y ∷ ys) = if less y x then y ∷ insert_rule x ys else x ∷ y ∷ ys

-- `sort.SliceStable(rules, less)`: equal rules keep their order.
unfoldable pub sort_stable : List HttpRule → List HttpRule
unfolding insert_rule
sort_stable [] = []
sort_stable (x ∷ xs) = insert_rule x (sort_stable xs)
