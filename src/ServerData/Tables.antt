-- ===== src/ServerData/Tables.antt =====
-- The route table and the cluster parameters, built from the rules of the cache.
use ingress_bfe.Base.{
  Text, text, text_eq, is_empty, Map, lookup, insert, Bool, false, not, ◌&&◌, ◌||◌, if◌then◌else◌,
  List, [], ◌∷◌, ◌++◌, none, some, Error, Result, ok, err, ◌>>=◌,
}
use ingress_bfe.Bfe.{External, BasicRouteRuleFile, RouteTableFile, ClusterConf, BfeClusterConf}
use ingress_bfe.Names.{default_cluster_name}
use ingress_bfe.RouteRule.{HttpRule}
use ingress_bfe.RouteRule.Cache.{Collected, is_nil, get}
use ingress_bfe.ServerData.{
  ServerDataConfig, default_product, new_route_table_conf_file, new_bfe_cluster_conf,
}
use ingress_bfe.ServerData.Conditions.{build_condition}

-- The file form of a basic rule.
unfoldable pub basic_file : HttpRule → BasicRouteRuleFile
basic_file rule = record {
  hostname =
      if not (is_empty rule.host) && not (text_eq rule.host (text "*")) then rule.host ∷ [] else [];
  path = if not (is_empty rule.path) then rule.path ∷ [] else [];
  cluster_name = rule.cluster;
}

-- `m[product] = append(m[product], entry)`
abbrev pub append_to {ℓ} : {A : Type ℓ} → Text → A → Map (List A) → Map (List A)
append_to product entry m =
    insert product ((elim (lookup product m) [ none ↦ [] | some entries ↦ entries ]) ++ entry ∷ [])
      m

unfoldable pub add_basic : List HttpRule → RouteTableFile → RouteTableFile
add_basic [] file = file
add_basic (rule ∷ rules) file =
    add_basic rules
      (record file { basic_rule = append_to default_product (basic_file rule) file.basic_rule })

abbrev pub add_product : Text → Text → RouteTableFile → RouteTableFile
add_product cond cluster file = record file {
  product_rule =
      append_to default_product (record { cond = cond; cluster_name = cluster }) file.product_rule;
}

unfoldable pub add_advanced : List HttpRule → RouteTableFile → Result RouteTableFile
add_advanced [] file = ok file
add_advanced (rule ∷ rules) file = do
  condition ← build_condition rule.host rule.path rule.annotations
  add_advanced rules (add_product condition rule.cluster file)

-- There is a default backend, and some rule.
abbrev pub has_default : Text → Collected → Bool
has_default default_backend (basic, advanced) =
    not (is_empty default_backend) && (not (is_nil basic) || not (is_nil advanced))

-- The route table of the collected rules.
unfoldable pub route_table : Text → Text → Collected → Result RouteTableFile
unfolding add_basic add_advanced basic_file
route_table version default_backend (basic, advanced) = do
  file ← add_advanced advanced (add_basic basic (new_route_table_conf_file version))
  ok (
      if has_default default_backend (basic, advanced)
      then add_product (text "default_t()") (default_cluster_name default_backend) file
      else file)

-- `newCheckConf` and `newGslbBasicConf`
abbrev pub new_cluster_conf : External → ClusterConf
new_cluster_conf x = record {
  schem = text "tcp";
  hash_strategy = x.client_id_only;
  hash_header = text "bfe-non-existence";
  session_sticky = false;
}

unfoldable pub add_basic_clusters : External → List HttpRule → Map ClusterConf → Map ClusterConf
add_basic_clusters x [] config = config
add_basic_clusters x (r ∷ rules) config = add_basic_clusters x rules (
    if text_eq r.cluster x.advanced_mode
    then config
    else insert r.cluster (new_cluster_conf x) config)

unfoldable pub add_advanced_clusters : External → List HttpRule → Map ClusterConf → Map ClusterConf
add_advanced_clusters x [] config = config
add_advanced_clusters x (r ∷ rules) config =
    add_advanced_clusters x rules (insert r.cluster (new_cluster_conf x) config)

unfoldable pub cluster_params : External → Text → Text → Collected → BfeClusterConf
unfolding add_basic_clusters add_advanced_clusters new_bfe_cluster_conf
cluster_params x version default_backend (basic, advanced) =
    let config = add_advanced_clusters x advanced (add_basic_clusters x basic []) in
    record (new_bfe_cluster_conf version) {
      config =
          if has_default default_backend (basic, advanced)
          then insert (default_cluster_name default_backend) (new_cluster_conf x) config
          else config;
    }

module _ (x : External) where
  abbrev pub State : Type 0
  State = ServerDataConfig x.rule_index.Carrier

  -- Takes over a table that `route_rule_conf.Convert` accepts.
  abbrev pub install : State → Result RouteTableFile → State × Error
  install c (err e) = (c, some e)
  install c (ok file) = elim (x.convert file) [
    | none ↦ (record c { route_table_file = file }, none)
    | some e ↦ (c, some (text "fail to check generated routeTableFile, err: " ++ e))
  ]

  -- `updateRouteTable`, with the new version
  unfoldable pub update_route_table : Text → Text → State → State × Error
  update_route_table version default_backend c =
      install c
        (route_table version default_backend (get x.advanced_mode c.route_rule_cache.rule_map))

  -- `updateBfeClusterConf`, with the new version
  unfoldable pub update_bfe_cluster_conf : Text → Text → State → State
  update_bfe_cluster_conf version default_backend c = record c {
    bfe_cluster_conf =
        cluster_params x version default_backend (get x.advanced_mode c.route_rule_cache.rule_map);
  }
