-- ===== src/ServerData/Update.antt =====
-- `UpdateIngress` and `DeleteIngress` of `ServerDataConfig`. A nil backend of a path is a panic,
-- `none`.
use ingress_bfe.Base.{
  ℕ, ◌+◌, Text, text, is_empty, if◌then◌else◌, List, [], ◌∷◌, ◌++◌, Option, none, some, Error,
}
use ingress_bfe.Kube.{
  Ingress, IngressRule, HttpIngressPath, IngressServiceBackend, PathType, exact, prefix,
  implementation_specific, other,
}
use ingress_bfe.Bfe.{External}
use ingress_bfe.Names.{cluster_name}
use ingress_bfe.RouteRule.{new_http_rule}
use ingress_bfe.RouteRule.Cache.{
  RouteRuleCache, is_nil, new_route_rule_cache, contains_ingress, put, delete,
}
use ingress_bfe.ServerData.{new_host_table_conf, new_route_table_conf_file, new_bfe_cluster_conf}
use ingress_bfe.ServerData.Conditions.{check_host, check_path}
use ingress_bfe.ServerData.Tables.{State, update_route_table, update_bfe_cluster_conf}

-- A path that is not exact gets a trailing star.
unfoldable pub rule_path : Text → Option PathType → Text
rule_path path none = path ++ text "*"
rule_path path (some prefix) = path ++ text "*"
rule_path path (some implementation_specific) = path ++ text "*"
rule_path path (some exact) = path
rule_path path (some (other _)) = path

unfoldable pub rule_host : Text → Text
rule_host host = if is_empty host then text "*" else host

module _ (x : External) where
  open x use {namespaced_name, rule_index}

  abbrev pub Cache : Type 0
  Cache = RouteRuleCache rule_index.Carrier

  -- The cache, and the address that the next new rule gets.
  abbrev pub Progress : Type 0
  Progress = ℕ × Cache

  -- `none` is a panic.
  abbrev pub Outcome : Type 0
  Outcome = Option (Progress × Error)

  -- `if err != nil { return err }`
  abbrev pub proceed : Outcome → (Progress → Outcome) → Outcome
  proceed none next = none
  proceed (some (s, some e)) next = some (s, some e)
  proceed (some (s, none)) next = next s

  abbrev pub checked : Error → Progress → Outcome
  checked e s = some (s, e)

  -- The end of `addRule`: a rule for the cluster of the backend. The error is that of `put`.
  abbrev pub put_path :
      Ingress → Text → HttpIngressPath → Option IngressServiceBackend → Progress → Outcome
  put_path ingress host p none s = none
  put_path ingress host p (some backend) (addr, c) =
      let ingress_name = namespaced_name ingress.namespace ingress.name in
      let (c', e) = put rule_index c (
        new_http_rule addr ingress_name (rule_host host) (rule_path p.path p.path_type)
          ingress.annotations (cluster_name ingress_name backend) ingress.creation_timestamp) in
      some ((addr + 1, c'), e)

  -- `addRule`
  unfoldable pub add_rule : Ingress → Text → HttpIngressPath → Progress → Outcome
  add_rule ingress host p s =
      proceed (checked (check_host host) s)
        (λ s. proceed (checked (check_path p.path) s) (put_path ingress host p p.backend.service))

  unfoldable pub add_paths : Ingress → Text → List HttpIngressPath → Progress → Outcome
  add_paths ingress host [] s = some (s, none)
  add_paths ingress host (p ∷ paths) s =
      proceed (add_rule ingress host p s) (add_paths ingress host paths)

  -- `rule.HTTP.Paths`, where a nil `rule.HTTP` is skipped
  abbrev pub paths_of_rule : IngressRule → List HttpIngressPath
  paths_of_rule rule = elim rule.http [ none ↦ [] | some paths ↦ paths ]

  unfoldable pub add_rules : Ingress → List IngressRule → Progress → Outcome
  unfolding add_paths
  add_rules ingress [] s = some (s, none)
  add_rules ingress (rule ∷ rules) s =
      proceed (add_paths ingress rule.host (paths_of_rule rule) s) (add_rules ingress rules)

  -- `updateCache`; `addr` is the address of the first new rule
  unfoldable pub update_cache : ℕ → Ingress → Cache → Outcome
  unfolding add_rules
  update_cache addr ingress c = add_rules ingress ingress.rules (addr, c)

module _ (x : External) where
  open x use {namespaced_name, rule_index}

  -- The end of `UpdateIngress`, after the attempt to build the route table.
  abbrev pub settle : Text → Text → Text → State x × Error → State x × Error
  settle version default_backend ingress_name (c, some e) =
      (record c { route_rule_cache = delete rule_index c.route_rule_cache ingress_name }, some e)
  settle version default_backend ingress_name (c, none) =
      (update_bfe_cluster_conf x version default_backend c, none)

  -- `UpdateIngress` from the outcome of `updateCache` on.
  abbrev pub after_cache :
      Text → Text → Text → Text → State x → Outcome x → Option (State x × Error)
  after_cache version1 version2 default_backend ingress_name c none = none
  after_cache version1 version2 default_backend ingress_name c (some ((_, cache), some e)) =
      some (record c { route_rule_cache = delete rule_index cache ingress_name }, some e)
  after_cache version1 version2 default_backend ingress_name c (some ((_, cache), none)) = some (
      settle version2 default_backend ingress_name
        (update_route_table x version1 default_backend (record c { route_rule_cache = cache })))

  -- The cache of `UpdateIngress` before the rules are added.
  abbrev pub cleared : Text → Cache x → Cache x
  cleared ingress_name c =
      if contains_ingress rule_index c ingress_name then delete rule_index c ingress_name else c

  -- `UpdateIngress`; `version1` and `version2` are the texts of its two calls of `NewVersion`.
  unfoldable pub update_ingress :
      ℕ → Text → Text → Text → State x → Ingress → Option (State x × Error)
  update_ingress addr version1 version2 default_backend c ingress =
      let ingress_name = namespaced_name ingress.namespace ingress.name in
      if is_nil ingress.rules
      then some (c, none)
      else after_cache version1 version2 default_backend ingress_name c
          (update_cache x addr ingress (cleared ingress_name c.route_rule_cache))

  unfoldable pub delete_ingress : Text → Text → Text → State x → Text → Text → State x
  delete_ingress version1 version2 default_backend c namespace name =
      let ingress_name = namespaced_name namespace name in
      let gone = record c {
        route_rule_cache = delete rule_index c.route_rule_cache ingress_name;
      } in
      if contains_ingress rule_index c.route_rule_cache ingress_name
      then update_bfe_cluster_conf x version2 default_backend
          (update_route_table x version1 default_backend gone).0
      else c

  -- `NewServerDataConfig`
  unfoldable pub new_server_data_config : Text → State x
  new_server_data_config version = record {
    host_table_version = [];
    route_table_version = [];
    bfe_cluster_conf_version = [];
    route_rule_cache = new_route_rule_cache rule_index;
    host_table_conf = new_host_table_conf version;
    route_table_file = new_route_table_conf_file version;
    bfe_cluster_conf = new_bfe_cluster_conf version;
  }
