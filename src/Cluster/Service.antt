-- ===== src/Cluster/Service.antt =====
-- `UpdateService` and `DeleteService` of `ClusterConfig`. A write to a nil map is a
-- panic, `none`.
use ingress_bfe.Base.{
  Text, text, text_eq, lookup, insert, Bool, not, ◌&&◌, if◌then◌else◌, List, [], ◌∷◌, ◌++◌, Option,
  none, some, Error, true, false,
}
use ingress_bfe.Kube.{Service, Endpoints}
use ingress_bfe.Bfe.{External}
use ingress_bfe.Names.{parse_port}
use ingress_bfe.Cluster.Instances.{
  is_unset, new_sub_cluster_backend, get_target_port, new_gslb_cluster_conf,
}
use ingress_bfe.Cluster.Update.{◌>>=◌, Clusters, set_maps, set_version, remove_in, remove_last}

module _ (x : External) where
  open x use {namespaced_name, name_index}

  -- The loop of `DeleteService` over the clusters of the service.
  unfoldable pub drop_service : Text → List Text → Clusters x → Clusters x
  unfolding remove_in remove_last
  drop_service service_name [] c = c
  drop_service service_name (name ∷ names) c = drop_service service_name names (
      set_maps x (remove_in name service_name c.cluster_table_conf.config)
        (remove_last name service_name c.gslb_conf.clusters) c)

  -- `DeleteService`
  unfoldable pub delete_service : Text → Text → Text → Clusters x → Clusters x
  unfolding drop_service set_version
  delete_service version namespace name c =
      let service_name = namespaced_name namespace name in
      set_version x version
        (drop_service service_name (name_index.get c.service2cluster service_name) c)

  -- The target port is missing, and the service is not the default backend.
  abbrev pub no_target : Text → Service → Text → Bool
  no_target default_backend service name =
      is_unset (get_target_port (parse_port name) (some service))
      && not (text_eq (namespaced_name service.namespace service.name) default_backend)

  -- `config[cluster][service] = …`, `clusters[cluster] = …`
  unfoldable pub put_service : Service → Option Endpoints → Text → Clusters x → Option (Clusters x)
  put_service service endpoint name c = do
    sub_clusters ← lookup name c.cluster_table_conf.config
    some (
        set_maps x
          (insert name
            (insert (namespaced_name service.namespace service.name)
              (new_sub_cluster_backend endpoint (get_target_port (parse_port name) (some service)))
              sub_clusters)
            c.cluster_table_conf.config)
          (insert name (new_gslb_cluster_conf x service.namespace service.name [])
            c.gslb_conf.clusters)
          c)

  -- The loop of `UpdateService`, and what follows it.
  unfoldable pub put_service_in :
      Text
      → Text
      → Service
      → Option Endpoints
      → List Text
      → Clusters x
      → Option (Clusters x × Error)
  put_service_in version default_backend service endpoint [] c =
      some (set_version x version c, none)
  put_service_in version default_backend service endpoint (name ∷ names) c =
      elim (no_target default_backend service name) [
        | true ↦ some (
          delete_service version service.namespace service.name c,
          some (text "cluster [" ++ name ++ text "] error, port can not found in service"),
        )
        | false ↦ do
          c' ← put_service service endpoint name c
          put_service_in version default_backend service endpoint names c'
      ]

  -- `UpdateService`
  unfoldable pub update_service :
      Text → Text → Service → Option Endpoints → Clusters x → Option (Clusters x × Error)
  unfolding put_service_in
  update_service version default_backend service endpoint c =
      let service_name = namespaced_name service.namespace service.name in
      if name_index.contains_key c.service2cluster service_name
      then put_service_in version default_backend service endpoint
          (name_index.get c.service2cluster service_name) c
      else some (c, none)
