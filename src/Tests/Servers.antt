-- ===== src/Tests/Servers.antt =====
-- Runs of `ServerDataConfig`, and its theorems at concrete Ingresses.
use ingress_bfe.Base.{
  ℕ, Text, text, text_eq, is_empty, lookup, insert, Bool, true, false, List, [], ◌∷◌, Option, none,
  some, Error, ◌≡◌, refl, pos,
}
use ingress_bfe.Samples.{external}
use ingress_bfe.Kube.{Ingress, HttpIngressPath, IngressServiceBackend, prefix}
use ingress_bfe.ServerData.Tables.{State}
use ingress_bfe.ServerData.Update.{update_ingress, delete_ingress, new_server_data_config}
use ingress_bfe.ServerData.Failure.{
  RolledBack, update_ingress-RolledBack, delete_ingress-after_failure,
}
use ingress_bfe.ServerData.Clusters.{Covered, update_ingress-Covered}
use ingress_bfe.RouteRule.Cache.Invariant.{new_route_rule_cache-IsValid}

abbrev pub web : IngressServiceBackend
web = record { name = text "web"; port = record { name = []; number = pos 80 } }

abbrev pub route : Text → HttpIngressPath
route path = record {
  path = path;
  path_type = some prefix;
  backend = record { service = some web };
}

abbrev pub ingress_at : Text → Text → Ingress
ingress_at host path = record {
  namespace = text "ns";
  name = text "a";
  annotations = none;
  creation_timestamp = 5;
  ingress_class_name = none;
  default_backend = none;
  tls = [];
  rules = record { host = host; http = some (route path ∷ []) } ∷ [];
}

abbrev pub ingress : Ingress
ingress = ingress_at (text "h.com") (text "/x")

-- A path may not hold a star.
abbrev pub refused_ingress : Ingress
refused_ingress = ingress_at (text "h.com") (text "/x*")

abbrev pub start : State external
start = new_server_data_config external (text "init")

abbrev pub state_of {ℓ} : {S : Type ℓ} → S → Option (S × Error) → S
state_of s none = s
state_of s (some (t, e)) = t

abbrev pub message_of {ℓ} : {S : Type ℓ} → Option (S × Error) → Text
message_of none = []
message_of (some (t, none)) = []
message_of (some (t, some e)) = e

abbrev outcome : Ingress → Option (State external × Error)
outcome i = update_ingress external 7 (text "1") (text "2") [] start i

-- The outcome has no error.
succeeds : outcome ingress ≡ some (state_of start (outcome ingress), none)
unfolding ingress_bfe.ServerData.Update.update_ingress ingress_bfe.ServerData.Update.update_cache
    ingress_bfe.ServerData.Update.add_rule ingress_bfe.ServerData.Update.add_paths
    ingress_bfe.ServerData.Update.add_rules ingress_bfe.ServerData.Update.rule_host
    ingress_bfe.ServerData.Update.rule_path ingress_bfe.ServerData.Update.new_server_data_config
    ingress_bfe.ServerData.Conditions.check_host ingress_bfe.ServerData.Conditions.check_path
    ingress_bfe.ServerData.Conditions.build_condition
    ingress_bfe.ServerData.Conditions.host_primitive
    ingress_bfe.ServerData.Conditions.path_primitive ingress_bfe.Base.count_byte
    ingress_bfe.Base.text ingress_bfe.Base.lookup ingress_bfe.Base.insert ingress_bfe.Base.remove
    ingress_bfe.Base.has_prefix ingress_bfe.Base.has_suffix ingress_bfe.Base.index_byte
    ingress_bfe.Base.join ingress_bfe.Base.replace_byte ingress_bfe.Base.text_eq
    ingress_bfe.Base.trim_space ingress_bfe.Base.format_from ingress_bfe.Base.format_ℕ
    ingress_bfe.Base.ℤ_eq ingress_bfe.RouteRule.Cache.put ingress_bfe.RouteRule.Cache.put_found
    ingress_bfe.RouteRule.Cache.find_equal ingress_bfe.RouteRule.Cache.rules_at
    ingress_bfe.RouteRule.Cache.ensure_host ingress_bfe.RouteRule.Cache.contains_ingress
    ingress_bfe.RouteRule.Cache.new_route_rule_cache ingress_bfe.RouteRule.Cache.collect_hosts
    ingress_bfe.RouteRule.Cache.collect_paths ingress_bfe.RouteRule.Cache.collect_rules
    ingress_bfe.RouteRule.Cache.del_rule ingress_bfe.RouteRule.Cache.delete
    ingress_bfe.RouteRule.Cache.delete_rule ingress_bfe.RouteRule.Cache.delete_rules
    ingress_bfe.RouteRule.Cache.get ingress_bfe.RouteRule.Cache.paths_of
    ingress_bfe.RouteRule.Cache.prune_host ingress_bfe.RouteRule.Cache.prune_path
    ingress_bfe.RouteRule.Cache.set_rules ingress_bfe.MultiMap.Assoc.has_key
    ingress_bfe.Annotations.Priority.equal ingress_bfe.Annotations.Priority.priority
    ingress_bfe.Annotations.find ingress_bfe.Annotations.value ingress_bfe.Annotations.Router.both
    ingress_bfe.Annotations.Router.cookie_primitive ingress_bfe.Annotations.Router.header_primitive
    ingress_bfe.Annotations.Router.get_route_expression ingress_bfe.Names.cluster_name
    ingress_bfe.Names.default_cluster_name ingress_bfe.RouteRule.Order.compare_priority
    ingress_bfe.RouteRule.Order.less ingress_bfe.RouteRule.Order.sort_stable
    ingress_bfe.RouteRule.Order.wildcard_host ingress_bfe.RouteRule.Order.wildcard_path
    ingress_bfe.ServerData.Tables.add_advanced ingress_bfe.ServerData.Tables.add_advanced_clusters
    ingress_bfe.ServerData.Tables.add_basic ingress_bfe.ServerData.Tables.add_basic_clusters
    ingress_bfe.ServerData.Tables.basic_file ingress_bfe.ServerData.Tables.cluster_params
    ingress_bfe.ServerData.Tables.route_table ingress_bfe.ServerData.Tables.update_bfe_cluster_conf
    ingress_bfe.ServerData.Tables.update_route_table ingress_bfe.ServerData.new_bfe_cluster_conf
    ingress_bfe.ServerData.new_host_table_conf ingress_bfe.ServerData.new_route_table_conf_file
succeeds = refl

update_ingress-Covered_example :
    Covered external
      (state_of start (outcome ingress)).route_table_file
      (state_of start (outcome ingress)).bfe_cluster_conf
update_ingress-Covered_example =
    update_ingress-Covered external (text "1") (text "2") [] 7 start
      (state_of start (outcome ingress)) ingress refl succeeds

-- The path of the second Ingress is refused.
fails :
    outcome refused_ingress
    ≡ some (state_of start (outcome refused_ingress), some (message_of (outcome refused_ingress)))
unfolding ingress_bfe.ServerData.Update.update_ingress ingress_bfe.ServerData.Update.update_cache
    ingress_bfe.ServerData.Update.add_rule ingress_bfe.ServerData.Update.add_paths
    ingress_bfe.ServerData.Update.add_rules ingress_bfe.ServerData.Update.rule_host
    ingress_bfe.ServerData.Update.rule_path ingress_bfe.ServerData.Update.new_server_data_config
    ingress_bfe.ServerData.Conditions.check_host ingress_bfe.ServerData.Conditions.check_path
    ingress_bfe.ServerData.Conditions.build_condition
    ingress_bfe.ServerData.Conditions.host_primitive
    ingress_bfe.ServerData.Conditions.path_primitive ingress_bfe.Base.count_byte
    ingress_bfe.Base.text ingress_bfe.Base.lookup ingress_bfe.Base.insert ingress_bfe.Base.remove
    ingress_bfe.Base.has_prefix ingress_bfe.Base.has_suffix ingress_bfe.Base.index_byte
    ingress_bfe.Base.join ingress_bfe.Base.replace_byte ingress_bfe.Base.text_eq
    ingress_bfe.Base.trim_space ingress_bfe.Base.format_from ingress_bfe.Base.format_ℕ
    ingress_bfe.Base.ℤ_eq ingress_bfe.RouteRule.Cache.put ingress_bfe.RouteRule.Cache.put_found
    ingress_bfe.RouteRule.Cache.find_equal ingress_bfe.RouteRule.Cache.rules_at
    ingress_bfe.RouteRule.Cache.ensure_host ingress_bfe.RouteRule.Cache.contains_ingress
    ingress_bfe.RouteRule.Cache.new_route_rule_cache ingress_bfe.RouteRule.Cache.collect_hosts
    ingress_bfe.RouteRule.Cache.collect_paths ingress_bfe.RouteRule.Cache.collect_rules
    ingress_bfe.RouteRule.Cache.del_rule ingress_bfe.RouteRule.Cache.delete
    ingress_bfe.RouteRule.Cache.delete_rule ingress_bfe.RouteRule.Cache.delete_rules
    ingress_bfe.RouteRule.Cache.get ingress_bfe.RouteRule.Cache.paths_of
    ingress_bfe.RouteRule.Cache.prune_host ingress_bfe.RouteRule.Cache.prune_path
    ingress_bfe.RouteRule.Cache.set_rules ingress_bfe.MultiMap.Assoc.has_key
    ingress_bfe.Annotations.Priority.equal ingress_bfe.Annotations.Priority.priority
    ingress_bfe.Annotations.find ingress_bfe.Annotations.value ingress_bfe.Annotations.Router.both
    ingress_bfe.Annotations.Router.cookie_primitive ingress_bfe.Annotations.Router.header_primitive
    ingress_bfe.Annotations.Router.get_route_expression ingress_bfe.Names.cluster_name
    ingress_bfe.Names.default_cluster_name ingress_bfe.RouteRule.Order.compare_priority
    ingress_bfe.RouteRule.Order.less ingress_bfe.RouteRule.Order.sort_stable
    ingress_bfe.RouteRule.Order.wildcard_host ingress_bfe.RouteRule.Order.wildcard_path
    ingress_bfe.ServerData.Tables.add_advanced ingress_bfe.ServerData.Tables.add_advanced_clusters
    ingress_bfe.ServerData.Tables.add_basic ingress_bfe.ServerData.Tables.add_basic_clusters
    ingress_bfe.ServerData.Tables.basic_file ingress_bfe.ServerData.Tables.cluster_params
    ingress_bfe.ServerData.Tables.route_table ingress_bfe.ServerData.Tables.update_bfe_cluster_conf
    ingress_bfe.ServerData.Tables.update_route_table ingress_bfe.ServerData.new_bfe_cluster_conf
    ingress_bfe.ServerData.new_host_table_conf ingress_bfe.ServerData.new_route_table_conf_file
fails = refl

update_ingress-RolledBack_example :
    RolledBack external
      (external.namespaced_name (text "ns") (text "a"))
      start
      (state_of start (outcome refused_ingress))
unfolding new_server_data_config
update_ingress-RolledBack_example =
    update_ingress-RolledBack external 7 (text "1") (text "2") [] start
      (state_of start (outcome refused_ingress)) refused_ingress
      (message_of (outcome refused_ingress)) (new_route_rule_cache-IsValid external.rule_index)
      fails

delete_ingress-after_failure_example :
    (delete_ingress external
      (text "3")
      (text "4")
      []
      (state_of start (outcome refused_ingress))
      (text "ns")
      (text "a")).route_table_file
    ≡ start.route_table_file
unfolding new_server_data_config
delete_ingress-after_failure_example =
    delete_ingress-after_failure external 7 (text "1") (text "2") (text "3") (text "4") [] start
      (state_of start (outcome refused_ingress)) refused_ingress
      (message_of (outcome refused_ingress)) (new_route_rule_cache-IsValid external.rule_index)
      fails
