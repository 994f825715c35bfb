-- ===== src/RouteRule/Order/Laws.antt =====
-- `less` is a strict weak order.
use ingress_bfe.Base.{Text, Bool, true, false, ◌&&◌, ℤ, pos, negsuc, ℤ_eq, is_pos, ◌≡◌, refl, arith}
use ingress_bfe.RouteRule.{HttpRule}
use ingress_bfe.RouteRule.Order.{wildcard_path, wildcard_host, compare_priority, less}

pub less_asymm : (a b : HttpRule) → less a b ≡ true → less b a ≡ false
unfolding less compare_priority ℤ_eq
less_asymm a b h = ground arith

-- If `t` is not preferred to `s` nor `u` to `t`, then `u` is not preferred to `s`, and `u` and `s`
-- tie only if all three do.
compare_priority_trans :
    (s t u : Text) (wildcard : Text → Bool)
    → is_pos (compare_priority t s wildcard) ≡ false
    → is_pos (compare_priority u t wildcard) ≡ false
    → (is_pos (compare_priority u s wildcard) ≡ false)
      × (ℤ_eq (compare_priority u s wildcard) (pos 0) ≡ (
          ℤ_eq (compare_priority t s wildcard) (pos 0)
          && ℤ_eq (compare_priority u t wildcard) (pos 0)))
unfolding compare_priority ℤ_eq
compare_priority_trans s t u wildcard h k = ground arith

not-pos_zero : (x : ℤ) → ℤ_eq x (pos 0) ≡ true → is_pos x ≡ false
unfolding ℤ_eq
not-pos_zero (pos n) h = ground arith
not-pos_zero (negsuc n) h = refl

-- A rule that does not go before another is not preferred to it by its host; nor by its path, if
-- the hosts tie.
by_host : HttpRule → HttpRule → ℤ
by_host a b = compare_priority a.host b.host wildcard_host

by_path : HttpRule → HttpRule → ℤ
by_path a b = compare_priority a.path b.path wildcard_path

host_facts : (a b : HttpRule) → less a b ≡ false → is_pos (by_host a b) ≡ false
unfolding less by_host
host_facts a b h = ground (arith, not-pos_zero (by_host a b))

path_facts :
    (a b : HttpRule)
    → less a b ≡ false
    → ℤ_eq (by_host a b) (pos 0) ≡ true
    → is_pos (by_path a b) ≡ false
unfolding less by_host by_path
path_facts a b h e = ground (arith, not-pos_zero (by_path a b))

-- The order of precedence is consistent: if `b` does not go before `a`, nor `c` before `b`, then `c`
-- does not go before `a`.
pub less_negative_trans :
    (a b c : HttpRule) → less b a ≡ false → less c b ≡ false → less c a ≡ false
unfolding less by_host by_path
less_negative_trans a b c h k = ground (
  arith,
  host_facts b a h,
  host_facts c b k,
  path_facts b a h,
  path_facts c b k,
  compare_priority_trans a.host b.host c.host wildcard_host,
  compare_priority_trans a.path b.path c.path wildcard_path,
)
