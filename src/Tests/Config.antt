-- ===== src/Tests/Config.antt =====
-- Runs of `ConfigBuilder` and of the filters, and their theorems at concrete inputs.
use ingress_bfe.Base.{
  ℕ, Text, text, text_eq, lookup, List, [], ◌∷◌, Option, none, some, Error, err, ok, pos, All, ◌≡◌,
  ◌⊎◌, ◌↔◌, refl, inl, inr, true, In,
}
use ingress_bfe.Samples.{external}
use ingress_bfe.Annotations.{Annotations, value}
use ingress_bfe.RouteRule.Cache.Invariant.{new_route_rule_cache-IsValid}
use ingress_bfe.Filter.{IngressClass, ingress_class_filter, SomeClass, ingress_class_filter_iff}
use ingress_bfe.Builder.{
  ConfigBuilder, Environment, new_config_builder, build_ingress, drop_ingress,
}
use ingress_bfe.Builder.Sound.{
  Step, ingress_updated, initial, next, Sound, step-Sound, Reachable-Sound,
}
use ingress_bfe.Builder.Rollback.{Undone, build_ingress-Undone}
use ingress_bfe.Builder.Reload.{
  Files, reload, IsCurrent, ServerDataWritten, ClustersWritten, CertsWritten, reload-IsCurrent,
}
use ingress_bfe.Annotations.Balance.{Balance, check_balance, IsBalanced, check_balance_iff}
use ingress_bfe.Reconcile.Reading.{Client}
use ingress_bfe.Reconcile.{reconcile_v1_ingress}
use ingress_bfe.Reconcile.Gone.{Gone, NoCluster, drop_ingress-Gone, reconcile_v1_ingress-Gone}
use ingress_bfe.Tests.Servers.{ingress, refused_ingress, state_of, message_of}

abbrev pub env : Environment
env = record {
  route_version = text "1";
  cluster_version = text "2";
  table_version = text "3";
  tls_version = text "4";
  default_backend = [];
  addr = 7;
}

abbrev pub start : ConfigBuilder external
start = new_config_builder external

abbrev outcome : Option (ConfigBuilder external × Error)
outcome = build_ingress external env refused_ingress [] [] [] [] start

fails : outcome ≡ some (state_of start outcome, some (message_of outcome))
unfolding build_ingress new_config_builder ingress_bfe.ServerData.Update.update_ingress
    ingress_bfe.ServerData.Update.update_cache ingress_bfe.ServerData.Update.add_rule
    ingress_bfe.ServerData.Update.add_paths ingress_bfe.ServerData.Update.add_rules
    ingress_bfe.ServerData.Update.rule_host ingress_bfe.ServerData.Update.rule_path
    ingress_bfe.ServerData.Update.new_server_data_config
    ingress_bfe.ServerData.Conditions.check_host ingress_bfe.ServerData.Conditions.check_path
    ingress_bfe.ServerData.Conditions.build_condition
    ingress_bfe.ServerData.Conditions.host_primitive
    ingress_bfe.ServerData.Conditions.path_primitive ingress_bfe.Base.count_byte
    ingress_bfe.Base.text ingress_bfe.Base.lookup ingress_bfe.Base.insert ingress_bfe.Base.remove
    ingress_bfe.Base.has_prefix ingress_bfe.Base.has_suffix ingress_bfe.Base.index_byte
    ingress_bfe.Base.join ingress_bfe.Base.replace_byte ingress_bfe.Base.text_eq
    ingress_bfe.Base.trim_space ingress_bfe.Base.format_from ingress_bfe.Base.format_ℕ
    ingress_bfe.Base.ℤ_eq ingress_bfe.RouteRule.Cache.put ingress_bfe.RouteRule.Cache.put_found
    ingress_bfe.RouteRule.Cache.find_equal ingress_bfe.RouteRule.Cache.rules_at
    ingress_bfe.RouteRule.Cache.ensure_host ingress_bfe.RouteRule.Cache.contains_ingress
    ingress_bfe.RouteRule.Cache.new_route_rule_cache ingress_bfe.RouteRule.Cache.collect_hosts
    ingress_bfe.RouteRule.Cache.collect_paths ingress_bfe.RouteRule.Cache.collect_rules
    ingress_bfe.RouteRule.Cache.del_rule ingress_bfe.RouteRule.Cache.delete
    ingress_bfe.RouteRule.Cache.delete_rule ingress_bfe.RouteRule.Cache.delete_rules
    ingress_bfe.RouteRule.Cache.get ingress_bfe.RouteRule.Cache.paths_of
    ingress_bfe.RouteRule.Cache.prune_host ingress_bfe.RouteRule.Cache.prune_path
    ingress_bfe.RouteRule.Cache.set_rules ingress_bfe.MultiMap.Assoc.has_key
    ingress_bfe.Annotations.Priority.equal ingress_bfe.Annotations.Priority.priority
    ingress_bfe.Annotations.find ingress_bfe.Annotations.value ingress_bfe.Annotations.Router.both
    ingress_bfe.Annotations.Router.cookie_primitive ingress_bfe.Annotations.Router.header_primitive
    ingress_bfe.Annotations.Router.get_route_expression ingress_bfe.Names.cluster_name
    ingress_bfe.Names.default_cluster_name ingress_bfe.RouteRule.Order.compare_priority
    ingress_bfe.RouteRule.Order.less ingress_bfe.RouteRule.Order.sort_stable
    ingress_bfe.RouteRule.Order.wildcard_host ingress_bfe.RouteRule.Order.wildcard_path
    ingress_bfe.ServerData.Tables.add_advanced ingress_bfe.ServerData.Tables.add_advanced_clusters
    ingress_bfe.ServerData.Tables.add_basic ingress_bfe.ServerData.Tables.add_basic_clusters
    ingress_bfe.ServerData.Tables.basic_file ingress_bfe.ServerData.Tables.cluster_params
    ingress_bfe.ServerData.Tables.route_table ingress_bfe.ServerData.Tables.update_bfe_cluster_conf
    ingress_bfe.ServerData.Tables.update_route_table ingress_bfe.ServerData.new_bfe_cluster_conf
    ingress_bfe.ServerData.new_host_table_conf ingress_bfe.ServerData.new_route_table_conf_file
fails = refl

build_ingress-Undone_example :
    Undone external (external.namespaced_name (text "ns") (text "a")) start (state_of start outcome)
unfolding new_config_builder ingress_bfe.ServerData.Update.new_server_data_config
build_ingress-Undone_example =
    build_ingress-Undone external env refused_ingress [] [] [] [] start (state_of start outcome)
      (message_of outcome) (new_route_rule_cache-IsValid external.rule_index) fails

abbrev pub files : Files
files = record {
  host_table = λ _. none;
  route_table = λ _. none;
  cluster_conf = λ _. none;
  gslb = λ _. none;
  cluster_table = λ _. none;
  server_cert = λ _. none;
  cert_file = λ _ _. none;
  tls_rule = λ _. none;
  reload_server_data_conf = none;
  reload_gslb_data_conf = none;
  reload_tls_conf = none;
}

reloads : reload external files start ≡ ((reload external files start).0, none)
unfolding reload new_config_builder ingress_bfe.ServerData.Reload.reload_server_data text_eq
    ingress_bfe.ServerData.Update.new_server_data_config ingress_bfe.ServerData.new_host_table_conf
    text ingress_bfe.ServerData.new_route_table_conf_file
    ingress_bfe.ServerData.new_bfe_cluster_conf ingress_bfe.Cluster.Reload.reload_clusters
    ingress_bfe.Cluster.new_cluster_config ingress_bfe.Tls.Reload.reload_tls
    ingress_bfe.Tls.new_tls_config
reloads = refl

reload-IsCurrent_example :
    IsCurrent external (reload external files start).0
    × ServerDataWritten external files start
    × ClustersWritten external files start
    × CertsWritten external files start
reload-IsCurrent_example =
    reload-IsCurrent external files start (reload external files start).0 reloads

abbrev bfe : IngressClass
bfe = record { name = text "bfe"; annotations = none; controller = text "bfe-networks.com" }

ingress_class_filter_iff_example :
    (ingress_class_filter
        (text "class")
        (text "default")
        (text "bfe")
        (text "bfe-networks.com")
        (some (bfe ∷ []))
        none
        none
        (some (text "bfe"))
      ≡ true)
    ↔ ((value (text "class") none ≡ text "bfe")
        ⊎ (SomeClass
              (text "class")
              (text "default")
              (text "bfe-networks.com")
              (some (text "bfe"))
              (some (bfe ∷ []))
            ⊎ SomeClass
                (text "class")
                (text "default")
                (text "bfe-networks.com")
                (some (text "bfe"))
                none))
ingress_class_filter_iff_example =
    ingress_class_filter_iff (text "class") (text "default") (text "bfe") (text "bfe-networks.com")
      (some (bfe ∷ [])) none none (some (text "bfe"))

-- A client that knows no object.
abbrev pub empty_client : Client
empty_client = record {
  service = λ _ _. err (text "not found");
  endpoints = λ _ _. err (text "not found");
  secret = λ _ _. err (text "not found");
  json_error = λ _. text "no JSON";
}

abbrev reconciled : Option (ConfigBuilder external × Error)
reconciled = reconcile_v1_ingress external empty_client env start ingress

reconcile_fails : reconciled ≡ some (state_of start reconciled, some (message_of reconciled))
unfolding reconcile_v1_ingress ingress_bfe.Annotations.Balance.get_balance
    ingress_bfe.Annotations.find lookup
reconcile_fails = refl

-- The refused Ingress is a step.
refused_step : Step external start (state_of start outcome)
refused_step =
    ingress_updated env refused_ingress [] [] [] [] start (state_of start outcome)
      (some (message_of outcome)) fails

reconcile_v1_ingress-Gone_example :
    Gone external (external.namespaced_name (text "ns") (text "a")) (state_of start reconciled)
reconcile_v1_ingress-Gone_example =
    reconcile_v1_ingress-Gone external empty_client env start (state_of start reconciled) ingress
      (message_of reconciled) initial reconcile_fails

drop_ingress-Gone_example :
    Gone external
      (external.namespaced_name (text "ns") (text "a"))
      (drop_ingress external env (text "ns") (text "a") (state_of start outcome))
    × ((n : Text)
        → In n (
            external.name_index.get
              (state_of start outcome).cluster_conf.ingress2cluster
              (external.namespaced_name (text "ns") (text "a")))
        → NoCluster external n
            (drop_ingress external env
              (text "ns")
              (text "a")
              (state_of start outcome)).cluster_conf)
drop_ingress-Gone_example =
    drop_ingress-Gone external env (text "ns") (text "a") (state_of start outcome)
      (next start (state_of start outcome) initial refused_step)

abbrev weights : Balance
weights = (text "web", (text "web", pos 80) ∷ (text "web2", pos 20) ∷ []) ∷ []

check_balance_iff_example : (check_balance weights weights ≡ ok weights) ↔ All IsBalanced weights
check_balance_iff_example = check_balance_iff weights

start-Sound : Sound external start
start-Sound = Reachable-Sound external start initial

step-Sound_example : Sound external (state_of start outcome)
step-Sound_example = step-Sound external start (state_of start outcome) start-Sound refused_step

Reachable-Sound_example : Sound external (state_of start outcome)
Reachable-Sound_example =
    Reachable-Sound external (state_of start outcome)
      (next start (state_of start outcome) initial refused_step)
