-- ===== src/Builder.antt =====
-- internal/bfeConfig/configBuilder.go: the three parts of the configuration together. Each
-- operation holds the lock from its start to its end, so that it is one step here; `none` is a
-- panic.
pub mod Rollback
pub mod Reload
pub mod Sound
pub mod Total
use mathlib.Core.Option
use ingress_bfe.Base.{ℕ, Text, text, List, Map, Option, none, some, Error, ◌≡◌}
use ingress_bfe.Kube.{Ingress, Service, Endpoints, Secret}
use ingress_bfe.Bfe.{
  External, HostTableConf, RouteTableFile, BfeClusterConf, GslbConf, ClusterTableConf,
  BfeServerCertConf, BfeTlsRuleConf,
}
use ingress_bfe.ServerData.Tables.{State}
use ingress_bfe.ServerData.Update
use ingress_bfe.ServerData.Reload.{reload_server_data}
use ingress_bfe.Cluster.{new_cluster_config}
use ingress_bfe.Annotations.Balance.{Balance}
use ingress_bfe.Cluster.Update as Clusters
use ingress_bfe.Cluster.Service.{update_service, delete_service}
use ingress_bfe.Cluster.Reload.{reload_clusters}
use ingress_bfe.Tls.{new_tls_config}
use ingress_bfe.Tls.Update as Certs
use ingress_bfe.Tls.Reload.{reload_tls}

-- `ConfigBuilder`
pub record ConfigBuilder (x : External) : Type 0 where
  pub server_data_conf : State x
  pub cluster_conf : Clusters.Clusters x
  pub tls_conf : Certs.Certs x

-- What an operation reads besides its arguments and the state: the texts of its calls of
-- `NewVersion`, the option `DefaultBackend`, and the address of its first new rule.
pub record Environment : Type 0 where
  pub route_version : Text
  pub cluster_version : Text
  pub table_version : Text
  pub tls_version : Text
  pub default_backend : Text
  pub addr : ℕ

unfoldable pub new_config_builder : (x : External) → ConfigBuilder x
new_config_builder x = record {
  server_data_conf = Update.new_server_data_config x (text "init");
  cluster_conf = new_cluster_config x.name_index.new (text "init");
  tls_conf = new_tls_config x.name_index.new (text "init");
}

module _ (x : External) where
  abbrev pub delete_server_data : Environment → Text → Text → State x → State x
  delete_server_data env namespace name c =
      Update.delete_ingress x env.route_version env.cluster_version env.default_backend c namespace
        name

  abbrev pub delete_clusters : Environment → Text → Text → Clusters.Clusters x → Clusters.Clusters x
  delete_clusters env namespace name c =
      Clusters.delete_ingress x env.table_version env.default_backend namespace name c

  -- `UpdateIngress` from the outcome of the certificates on.
  abbrev pub after_tls :
      Environment
      → Ingress
      → State x
      → Clusters.Clusters x
      → Certs.Certs x × Error
      → ConfigBuilder x × Error
  after_tls env ingress server clusters (certs, none) =
      (record { server_data_conf = server; cluster_conf = clusters; tls_conf = certs }, none)
  after_tls env ingress server clusters (certs, some e) = (
    record {
      server_data_conf = delete_server_data env ingress.namespace ingress.name server;
      cluster_conf = delete_clusters env ingress.namespace ingress.name clusters;
      tls_conf = certs;
    },
    some e,
  )

  -- `UpdateIngress` from the outcome of the clusters on.
  abbrev pub after_clusters :
      Environment
      → Ingress
      → List Secret
      → State x
      → Certs.Certs x
      → Option (Clusters.Clusters x × Error)
      → Option (ConfigBuilder x × Error)
  after_clusters env ingress secrets server certs none = none
  after_clusters env ingress secrets server certs (some (clusters, some e)) = some (
    record {
      server_data_conf = delete_server_data env ingress.namespace ingress.name server;
      cluster_conf = clusters;
      tls_conf = certs;
    },
    some e,
  )
  after_clusters env ingress secrets server certs (some (clusters, none)) = some (
      after_tls env ingress server clusters
        (Certs.update_ingress x env.tls_version ingress secrets certs))

  -- `UpdateIngress` from the outcome of the routes on.
  abbrev pub after_server_data :
      Environment
      → Ingress
      → Balance
      → Map Service
      → Map Endpoints
      → List Secret
      → ConfigBuilder x
      → Option (State x × Error)
      → Option (ConfigBuilder x × Error)
  after_server_data env ingress balance services endpoints secrets c none = none
  after_server_data env ingress balance services endpoints secrets c (some (server, some e)) =
      some (record c { server_data_conf = server }, some e)
  after_server_data env ingress balance services endpoints secrets c (some (server, none)) =
      after_clusters env ingress secrets server c.tls_conf (
        Clusters.update_ingress x env.table_version env.default_backend ingress balance services
          endpoints c.cluster_conf)

  -- `UpdateIngress`, with the balance of the annotations of the Ingress
  unfoldable pub build_ingress :
      Environment
      → Ingress
      → Balance
      → Map Service
      → Map Endpoints
      → List Secret
      → ConfigBuilder x
      → Option (ConfigBuilder x × Error)
  build_ingress env ingress balance services endpoints secrets c =
      after_server_data env ingress balance services endpoints secrets c (
        Update.update_ingress x env.addr env.route_version env.cluster_version env.default_backend
          c.server_data_conf ingress)

  -- `DeleteIngress`
  unfoldable pub drop_ingress : Environment → Text → Text → ConfigBuilder x → ConfigBuilder x
  drop_ingress env namespace name c = record {
    server_data_conf = delete_server_data env namespace name c.server_data_conf;
    cluster_conf = delete_clusters env namespace name c.cluster_conf;
    tls_conf = Certs.delete_ingress x env.tls_version namespace name c.tls_conf;
  }

  -- `UpdateService`, whose error is dropped
  abbrev pub with_clusters :
      ConfigBuilder x → Option (Clusters.Clusters x × Error) → Option (ConfigBuilder x)
  with_clusters c none = none
  with_clusters c (some (clusters, e)) = some (record c { cluster_conf = clusters })

  unfoldable pub build_service :
      Environment → Service → Option Endpoints → ConfigBuilder x → Option (ConfigBuilder x)
  build_service env service endpoint c =
      with_clusters c
        (update_service x env.table_version env.default_backend service endpoint c.cluster_conf)

  -- `DeleteService`
  unfoldable pub remove_service : Environment → Text → Text → ConfigBuilder x → ConfigBuilder x
  remove_service env namespace name c = record c {
    cluster_conf = delete_service x env.table_version namespace name c.cluster_conf;
  }

  -- `UpdateSecret`
  unfoldable pub build_secret : Environment → Secret → ConfigBuilder x → ConfigBuilder x × Error
  build_secret env secret c =
      let (certs, e) = Certs.update_secret x env.tls_version secret c.tls_conf in
      (record c { tls_conf = certs }, e)

  -- `DeleteSecret`
  unfoldable pub remove_secret : Environment → Text → Text → ConfigBuilder x → ConfigBuilder x
  remove_secret env namespace name c = record c {
    tls_conf = Certs.delete_secret x env.tls_version namespace name c.tls_conf;
  }
