-- ===== src/Bfe.antt =====
-- The configuration files of BFE (github.com/bfenetworks/bfe) that the program writes, and what it
-- calls of code outside the repository, as a parameter of the model.
use ingress_bfe.Base.{ℕ, ℤ, Text, text, Map, List, ◌++◌, Option, Bool, Error, ◌≡◌}
use ingress_bfe.MultiMap.{MultiMap}
use ingress_bfe.RouteRule.{HttpRule}

-- host_rule_conf.HostTableConf
pub record HostTableConf : Type 0 where
  pub version : Text
  pub default_product : Text
  pub hosts : Map (List Text)
  pub host_tags : Map (List Text)

-- route_rule_conf
pub record BasicRouteRuleFile : Type 0 where
  pub hostname : List Text
  pub path : List Text
  pub cluster_name : Text

pub record AdvancedRouteRuleFile : Type 0 where
  pub cond : Text
  pub cluster_name : Text

pub record RouteTableFile : Type 0 where
  pub version : Text
  pub basic_rule : Map (List BasicRouteRuleFile)
  pub product_rule : Map (List AdvancedRouteRuleFile)

-- cluster_conf.ClusterConf, with the fields that are set
pub record ClusterConf : Type 0 where
  pub schem : Text
  pub hash_strategy : ℕ
  pub hash_header : Text
  pub session_sticky : Bool

pub record BfeClusterConf : Type 0 where
  pub version : Text
  pub config : Map ClusterConf

-- cluster_table_conf
pub record BackendConf : Type 0 where
  pub name : Text
  pub addr : Text
  pub port : ℤ
  pub weight : ℤ

-- A nil list of instances is `none`.
abbrev pub SubClusterBackend : Type 0
SubClusterBackend = Option (List BackendConf)

abbrev pub ClusterBackend : Type 0
ClusterBackend = Map SubClusterBackend

pub record ClusterTableConf : Type 0 where
  pub version : Text
  pub config : Map ClusterBackend

-- gslb_conf
pub record GslbConf : Type 0 where
  pub clusters : Map (Map ℤ)
  pub hostname : Text
  pub ts : Text

-- server_cert_conf
pub record ServerCertConf : Type 0 where
  pub server_cert_file : Text
  pub server_key_file : Text
  pub ocsp_response_file : Text

pub record BfeServerCertConf : Type 0 where
  pub version : Text
  pub default_cert : Text
  pub cert_conf : Map ServerCertConf

-- tls_rule_conf; the program leaves its other fields at their zero values
pub record BfeTlsRuleConf : Type 0 where
  pub version : Text

-- What the program uses of other packages.
pub record External : Type 1 where
  -- setmultimap, with rules and with names for values
  pub rule_index : MultiMap Text HttpRule
  pub name_index : MultiMap Text Text
  -- `types.NamespacedName{…}.String()`
  pub namespaced_name : Text → Text → Text
  pub namespaced_name_format :
      (namespace name : Text) → namespaced_name namespace name ≡ namespace ++ (text "/" ++ name)
  -- `route_rule_conf.AdvancedMode`, `cluster_conf.ClientIdOnly`
  pub advanced_mode : Text
  pub client_id_only : ℕ
  -- the error of `route_rule_conf.Convert`
  pub convert : RouteTableFile → Error
  -- `cluster_table_conf.ClusterTableConfCheck`
  pub cluster_table_conf_check : ClusterTableConf → Error
  -- the error of `bfe_tls.X509KeyPair`
  pub x509_key_pair : Text → Text → Error
