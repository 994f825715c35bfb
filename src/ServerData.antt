-- ===== src/ServerData.antt =====
-- internal/bfeConfig/configs/serverDataConfig.go: routes, hosts and cluster parameters.
pub mod Conditions
pub mod Tables
pub mod Update
pub mod Valid
pub mod Failure
pub mod Entries
pub mod Params
pub mod Clusters
pub mod Reload
use ingress_bfe.Base.{Text, text, Map, List, [], ◌∷◌}
use ingress_bfe.Bfe.{HostTableConf, RouteTableFile, BfeClusterConf}
use ingress_bfe.RouteRule.Cache.{RouteRuleCache}

abbrev pub default_product : Text
default_product = text "default"

-- `ServerDataConfig`; `C` is the type of the rule index.
pub record ServerDataConfig (C : Type 0) : Type 0 where
  pub host_table_version : Text
  pub route_table_version : Text
  pub bfe_cluster_conf_version : Text
  pub route_rule_cache : RouteRuleCache C
  pub host_table_conf : HostTableConf
  pub route_table_file : RouteTableFile
  pub bfe_cluster_conf : BfeClusterConf

unfoldable pub new_host_table_conf : Text → HostTableConf
new_host_table_conf version = record {
  version = version;
  default_product = default_product;
  hosts = (default_product, default_product ∷ []) ∷ [];
  host_tags = (default_product, default_product ∷ []) ∷ [];
}

-- `newRouteTableConfFile`
unfoldable pub new_route_table_conf_file : Text → RouteTableFile
new_route_table_conf_file version = record {
  version = version;
  basic_rule = (default_product, []) ∷ [];
  product_rule = (default_product, []) ∷ [];
}

unfoldable pub new_bfe_cluster_conf : Text → BfeClusterConf
new_bfe_cluster_conf version = record { version = version; config = [] }
