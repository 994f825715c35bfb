-- ===== src/RouteRule.antt =====
-- internal/bfeConfig/configs/routeRuleCache.go: the rules and their order of precedence.
pub mod Order
pub mod Cache
use ingress_bfe.Base.{ℕ, Text}
use ingress_bfe.Annotations.{Annotations}

-- `httpRule`. Rules are held and compared by pointer: `addr` is the address that `NewHttpRule`
-- returns. No rule is changed after it is made. A time is a number of nanoseconds.
pub record HttpRule : Type 0 where
  pub addr : ℕ
  pub ingress : Text
  pub host : Text
  pub path : Text
  pub annotations : Annotations
  pub cluster : Text
  pub create_time : ℕ

abbrev pub new_http_rule : ℕ → Text → Text → Text → Annotations → Text → ℕ → HttpRule
new_http_rule addr ingress host path annots cluster time = record {
  addr = addr;
  ingress = ingress;
  host = host;
  path = path;
  annotations = annots;
  cluster = cluster;
  create_time = time;
}
