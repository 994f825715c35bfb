-- ===== src/Tests/Clusters.antt =====
-- Runs of `ClusterConfig`, and its theorems at concrete Ingresses and Services.
use ingress_bfe.Base.{
  ℕ, Text, text, text_eq, text_eq_iff, is_empty, lookup, insert, Bool, true, false, List, [], ◌∷◌,
  Option, none, some, Error, ◌≡◌, ◌≢◌, refl, pos, inl, inr, ap, In, length, arith, subst, ◌↔◌,
}
use ingress_bfe.Samples.{external}
use ingress_bfe.Kube.{Service, Endpoints, IntOrString}
use ingress_bfe.Bfe.{BackendConf}
use ingress_bfe.Names.{cluster_name, default_cluster_name}
use ingress_bfe.Cluster.{new_cluster_config}
use ingress_bfe.Cluster.Instances.{new_backend_conf, new_sub_cluster_backend}
use ingress_bfe.Cluster.Update
use ingress_bfe.Cluster.Update.{Clusters}
use ingress_bfe.Cluster.Service.{delete_service, update_service, no_target}
use ingress_bfe.Cluster.Members.{OffersIn, new_sub_cluster_backend_iff}
use ingress_bfe.Cluster.Weights.{only, update_service-only}
use ingress_bfe.Cluster.Stale.Panic.{update_service-panic}
use ingress_bfe.Cluster.Backed.{Backed, new_cluster_config-Backed}
use ingress_bfe.Cluster.Backed.Ingresses.{update_ingress-Backed}
use ingress_bfe.Tests.Servers.{ingress, state_of}

abbrev pub service : Service
service = record {
  namespace = text "ns";
  name = text "web";
  ports =
      record {
        name = text "http";
        port = pos 80;
        target_port = record { int_val = pos 8080; str_val = [] };
      }
      ∷ [];
}

abbrev pub endpoints : Endpoints
endpoints = record {
  namespace = text "ns";
  name = text "web";
  subsets =
      record {
        addresses = text "10.0.0.1" ∷ text "10.0.0.2" ∷ [];
        ports = record { name = text "http"; port = pos 8080 } ∷ [];
      }
      ∷ [];
}

abbrev pub name : Text
name = text "ns/web"

abbrev pub no_clusters : Clusters external
no_clusters = new_cluster_config external.name_index.new (text "init")

abbrev outcome : Option (Clusters external × Error)
outcome =
    Update.update_ingress external (text "1") [] ingress [] ((name, service) ∷ [])
      ((name, endpoints) ∷ []) no_clusters

abbrev clusters : Clusters external
clusters = state_of no_clusters outcome

-- The cluster of the one path of the Ingress.
abbrev cluster : Text
cluster = text "ns/a_web_80"

succeeds : outcome ≡ some (clusters, none)
unfolding ingress_bfe.Cluster.Service.put_service ingress_bfe.Cluster.Service.drop_service
    ingress_bfe.Cluster.Service.put_service_in update_service delete_service ingress_bfe.Base.remove
    ingress_bfe.Base.digits_from ingress_bfe.Base.format_from ingress_bfe.Base.format_ℕ
    ingress_bfe.Base.ℤ_eq ingress_bfe.Base.last_index_byte ingress_bfe.Base.atoi
    ingress_bfe.Base.int32 lookup insert text text_eq ingress_bfe.Cluster.Instances.find_port
    ingress_bfe.Cluster.Instances.new_cluster_backend ingress_bfe.Cluster.Instances.port_instances
    ingress_bfe.Cluster.Instances.subset_instances ingress_bfe.Cluster.Instances.weighted_backends
    ingress_bfe.Cluster.Instances.weighted_gslb ingress_bfe.Cluster.Instances.new_gslb_cluster_conf
    ingress_bfe.Cluster.Instances.get_target_port new_backend_conf new_sub_cluster_backend
    Update.update_ingress Update.put_cluster Update.finish_ingress Update.add_default_backend
    Update.del_default_backend Update.delete_ingress Update.drop_clusters Update.put_all_clusters
    Update.put_clusters Update.put_services Update.remove_in Update.remove_last
    Update.remove_services Update.set_version ingress_bfe.MultiMap.Assoc.has
    ingress_bfe.MultiMap.Assoc.has_key ingress_bfe.MultiMap.Assoc.insert_pair
    ingress_bfe.MultiMap.Assoc.values_at default_cluster_name cluster_name new_cluster_config
    ingress_bfe.Names.parse_port ingress_bfe.Names.parse_port_text
succeeds = refl

clusters-Backed : Backed external clusters
clusters-Backed =
    update_ingress-Backed external (text "1") [] ingress [] ((name, service) ∷ [])
      ((name, endpoints) ∷ []) no_clusters clusters none
      (new_cluster_config-Backed external external.name_index.new (text "init")) succeeds

abbrev service_outcome : Option (Clusters external × Error)
service_outcome = update_service external (text "2") [] service (some endpoints) clusters

service_succeeds : service_outcome ≡ some (state_of clusters service_outcome, none)
unfolding ingress_bfe.Cluster.Service.put_service ingress_bfe.Cluster.Service.drop_service
    ingress_bfe.Cluster.Service.put_service_in update_service delete_service ingress_bfe.Base.remove
    ingress_bfe.Base.digits_from ingress_bfe.Base.format_from ingress_bfe.Base.format_ℕ
    ingress_bfe.Base.ℤ_eq ingress_bfe.Base.last_index_byte ingress_bfe.Base.atoi
    ingress_bfe.Base.int32 lookup insert text text_eq ingress_bfe.Cluster.Instances.find_port
    ingress_bfe.Cluster.Instances.new_cluster_backend ingress_bfe.Cluster.Instances.port_instances
    ingress_bfe.Cluster.Instances.subset_instances ingress_bfe.Cluster.Instances.weighted_backends
    ingress_bfe.Cluster.Instances.weighted_gslb ingress_bfe.Cluster.Instances.new_gslb_cluster_conf
    ingress_bfe.Cluster.Instances.get_target_port new_backend_conf new_sub_cluster_backend
    Update.update_ingress Update.put_cluster Update.finish_ingress Update.add_default_backend
    Update.del_default_backend Update.delete_ingress Update.drop_clusters Update.put_all_clusters
    Update.put_clusters Update.put_services Update.remove_in Update.remove_last
    Update.remove_services Update.set_version ingress_bfe.MultiMap.Assoc.has
    ingress_bfe.MultiMap.Assoc.has_key ingress_bfe.MultiMap.Assoc.insert_pair
    ingress_bfe.MultiMap.Assoc.values_at default_cluster_name cluster_name new_cluster_config
    ingress_bfe.Names.parse_port ingress_bfe.Names.parse_port_text
service_succeeds = refl

cluster_known : In cluster (external.name_index.get clusters.service2cluster name)
unfolding ingress_bfe.Cluster.Service.put_service ingress_bfe.Cluster.Service.drop_service
    ingress_bfe.Cluster.Service.put_service_in update_service delete_service ingress_bfe.Base.remove
    ingress_bfe.Base.digits_from ingress_bfe.Base.format_from ingress_bfe.Base.format_ℕ
    ingress_bfe.Base.ℤ_eq ingress_bfe.Base.last_index_byte ingress_bfe.Base.atoi
    ingress_bfe.Base.int32 lookup insert text text_eq ingress_bfe.Cluster.Instances.find_port
    ingress_bfe.Cluster.Instances.new_cluster_backend ingress_bfe.Cluster.Instances.port_instances
    ingress_bfe.Cluster.Instances.subset_instances ingress_bfe.Cluster.Instances.weighted_backends
    ingress_bfe.Cluster.Instances.weighted_gslb ingress_bfe.Cluster.Instances.new_gslb_cluster_conf
    ingress_bfe.Cluster.Instances.get_target_port new_backend_conf new_sub_cluster_backend
    Update.update_ingress Update.put_cluster Update.finish_ingress Update.add_default_backend
    Update.del_default_backend Update.delete_ingress Update.drop_clusters Update.put_all_clusters
    Update.put_clusters Update.put_services Update.remove_in Update.remove_last
    Update.remove_services Update.set_version ingress_bfe.MultiMap.Assoc.has
    ingress_bfe.MultiMap.Assoc.has_key ingress_bfe.MultiMap.Assoc.insert_pair
    ingress_bfe.MultiMap.Assoc.values_at default_cluster_name cluster_name new_cluster_config
    ingress_bfe.Names.parse_port ingress_bfe.Names.parse_port_text
cluster_known = inl refl

update_service-only_example :
    lookup cluster (state_of clusters service_outcome).gslb_conf.clusters
    ≡ some (only external service)
unfolding text
update_service-only_example =
    update_service-only external (text "2") [] service (some endpoints) cluster clusters
      (state_of clusters service_outcome) service_succeeds cluster_known

-- The Service goes, the Ingress goes, and the Service comes back.
update_service-panic_example :
    update_service external (text "4") [] service (some endpoints) (
      Update.delete_ingress external
        (text "3")
        []
        (text "ns")
        (text "a")
        (delete_service external (text "2") (text "ns") (text "web") clusters))
    ≡ none
unfolding ingress_bfe.Cluster.Service.put_service ingress_bfe.Cluster.Service.drop_service
    ingress_bfe.Cluster.Service.put_service_in update_service delete_service ingress_bfe.Base.remove
    ingress_bfe.Base.digits_from ingress_bfe.Base.format_from ingress_bfe.Base.format_ℕ
    ingress_bfe.Base.ℤ_eq ingress_bfe.Base.last_index_byte ingress_bfe.Base.atoi
    ingress_bfe.Base.int32 lookup insert text text_eq ingress_bfe.Cluster.Instances.find_port
    ingress_bfe.Cluster.Instances.new_cluster_backend ingress_bfe.Cluster.Instances.port_instances
    ingress_bfe.Cluster.Instances.subset_instances ingress_bfe.Cluster.Instances.weighted_backends
    ingress_bfe.Cluster.Instances.weighted_gslb ingress_bfe.Cluster.Instances.new_gslb_cluster_conf
    ingress_bfe.Cluster.Instances.get_target_port new_backend_conf new_sub_cluster_backend
    Update.update_ingress Update.put_cluster Update.finish_ingress Update.add_default_backend
    Update.del_default_backend Update.delete_ingress Update.drop_clusters Update.put_all_clusters
    Update.put_clusters Update.put_services Update.remove_in Update.remove_last
    Update.remove_services Update.set_version ingress_bfe.MultiMap.Assoc.has
    ingress_bfe.MultiMap.Assoc.has_key ingress_bfe.MultiMap.Assoc.insert_pair
    ingress_bfe.MultiMap.Assoc.values_at default_cluster_name cluster_name new_cluster_config
    ingress_bfe.Names.parse_port ingress_bfe.Names.parse_port_text
update_service-panic_example =
    update_service-panic external (text "2") (text "3") (text "4") [] (text "ns") (text "a") service
      (some endpoints) cluster clusters (inl refl) cluster_known (λ e. ground (arith, ap length e))
      (λ n i. elim i [
        | inl e ↦ subst (λ n. no_target external [] service n ≡ false) e refl
        | inr j ↦ absurd j
      ])

abbrev http : IntOrString
http = record { int_val = pos 0; str_val = text "http" }

second : BackendConf
second = new_backend_conf (text "10.0.0.2") (pos 8080) (pos 10)

new_sub_cluster_backend_iff_example :
    ((instances : List BackendConf) × (new_sub_cluster_backend (some endpoints) http
        ≡ some instances)
      × In second instances)
    ↔ OffersIn http endpoints.subsets second
unfolding ingress_bfe.Base.ℤ_eq text
new_sub_cluster_backend_iff_example = new_sub_cluster_backend_iff endpoints http second refl
