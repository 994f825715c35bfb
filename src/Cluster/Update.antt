-- ===== src/Cluster/Update.antt =====
-- The operations of `ClusterConfig`. `version` is the text of the call of `NewVersion`, and
-- `default_backend` the option of that name. `none` is a panic: a nil `rule.HTTP`, a nil backend,
-- or a write to a nil map.
use ingress_bfe.Base.{
  Text, is_empty, Map, lookup, insert, remove, not, ◌&&◌, if◌then◌else◌, List, [], ◌∷◌, Option,
  none, some, ℤ, Error,
}
use ingress_bfe.Kube.{Ingress, IngressRule, HttpIngressPath, Service, Endpoints}
use ingress_bfe.Bfe.{External, ClusterBackend, SubClusterBackend}
use ingress_bfe.Names.{cluster_name, default_cluster_name}
use ingress_bfe.Cluster.{ClusterConfig}
use ingress_bfe.Annotations.Balance.{Balance}
use ingress_bfe.Cluster.Instances.{
  default_weight, no_port, new_sub_cluster_backend, new_cluster_backend, new_gslb_cluster_conf,
}

infixl 5 ◌>>=◌
abbrev pub ◌>>=◌ {ℓ κ} : {A : Type ℓ} {B : Type κ} → Option A → (A → Option B) → Option B
none >>= f = none
some a >>= f = f a

-- `m[k]` of a map of maps, where a missing map is empty.
abbrev pub at {ℓ} : {V : Type ℓ} → Text → Map (Map V) → Map V
at k m = elim (lookup k m) [ none ↦ [] | some inner ↦ inner ]

-- `delete(m[k], j)`
unfoldable pub remove_in {ℓ} : {V : Type ℓ} → Text → Text → Map (Map V) → Map (Map V)
remove_in k j m = elim (lookup k m) [ none ↦ m | some inner ↦ insert k (remove j inner) m ]

-- `delete(m[k], j)`, and `delete(m, k)` when nothing is left
unfoldable pub remove_last {ℓ} : {V : Type ℓ} → Text → Text → Map (Map V) → Map (Map V)
unfolding remove_in
remove_last k j m = elim (at k (remove_in k j m)) [
  | [] ↦ remove k (remove_in k j m)
  | _ ∷ _ ↦ remove_in k j m
]

module _ (x : External) where
  open x use {namespaced_name, name_index, cluster_table_conf_check}

  abbrev pub Clusters : Type 0
  Clusters = ClusterConfig name_index.Carrier

  unfoldable pub set_version : Text → Clusters → Clusters
  set_version version c = record c {
    gslb_conf = record c.gslb_conf { ts = version };
    cluster_table_conf = record c.cluster_table_conf { version = version };
  }

  -- The two maps, written together.
  abbrev pub set_maps : Map ClusterBackend → Map (Map ℤ) → Clusters → Clusters
  set_maps config clusters c = record c {
    gslb_conf = record c.gslb_conf { clusters = clusters };
    cluster_table_conf = record c.cluster_table_conf { config = config };
  }

  -- `for service := range m { service2Cluster.Put(service, cluster) }`
  unfoldable pub put_services {ℓ} :
      {V : Type ℓ} → Text → Map V → name_index.Carrier → name_index.Carrier
  put_services cluster [] index = index
  put_services cluster ((service, _) ∷ m) index =
      put_services cluster m (name_index.put index service cluster)

  unfoldable pub remove_services {ℓ} :
      {V : Type ℓ} → Text → Map V → name_index.Carrier → name_index.Carrier
  remove_services cluster [] index = index
  remove_services cluster ((service, _) ∷ m) index =
      remove_services cluster m (name_index.remove index service cluster)

  -- The body of the loop over the paths of `UpdateIngress`.
  unfoldable pub put_cluster :
      Ingress → Balance → Map Service → Map Endpoints → HttpIngressPath → Clusters → Option Clusters
  unfolding put_services
  put_cluster ingress balance services endpoints path c = do
    backend ← path.backend.service
    let ingress_name = namespaced_name ingress.namespace ingress.name in
        let name = cluster_name ingress_name backend in
        let config =
          insert name
            (new_cluster_backend x ingress.namespace (some backend) balance services endpoints)
            c.cluster_table_conf.config in
        let clusters =
          insert name (new_gslb_cluster_conf x ingress.namespace backend.name balance)
            c.gslb_conf.clusters in
        some (record (set_maps config clusters c) {
          ingress2cluster = name_index.put c.ingress2cluster ingress_name name;
          service2cluster = put_services name (at name clusters) c.service2cluster;
        })

  unfoldable pub put_clusters :
      Ingress
      → Balance
      → Map Service
      → Map Endpoints
      → List HttpIngressPath
      → Clusters
      → Option Clusters
  put_clusters ingress balance services endpoints [] c = some c
  put_clusters ingress balance services endpoints (path ∷ paths) c = do
    c' ← put_cluster ingress balance services endpoints path c
    put_clusters ingress balance services endpoints paths c'

  unfoldable pub put_all_clusters :
      Ingress
      → Balance
      → Map Service
      → Map Endpoints
      → List IngressRule
      → Clusters
      → Option Clusters
  unfolding put_clusters
  put_all_clusters ingress balance services endpoints [] c = some c
  put_all_clusters ingress balance services endpoints (rule ∷ rules) c = do
    paths ← rule.http
    c' ← put_clusters ingress balance services endpoints paths c
    put_all_clusters ingress balance services endpoints rules c'

  -- `addDefautBackend`, past its guards, with the instances of the default backend
  abbrev pub put_default : Text → SubClusterBackend → Clusters → Clusters
  put_default default_backend none c = c
  put_default default_backend (some []) c = c
  put_default default_backend (some (i ∷ instances)) c =
      let name = default_cluster_name default_backend in
      record (set_maps
        (insert name ((default_backend, some (i ∷ instances)) ∷ []) c.cluster_table_conf.config)
        (insert name ((default_backend, default_weight) ∷ []) c.gslb_conf.clusters) c) {
          service2cluster = name_index.put c.service2cluster default_backend name;
        }

  -- `addDefautBackend`
  unfoldable pub add_default_backend : Text → Option Endpoints → Clusters → Clusters
  add_default_backend default_backend none c = c
  add_default_backend default_backend (some ep) c =
      elim (lookup (default_cluster_name default_backend) c.cluster_table_conf.config) [
        | some _ ↦ c
        | none ↦ put_default default_backend (new_sub_cluster_backend (some ep) no_port) c
      ]

  -- `delDefautBackend`
  unfoldable pub del_default_backend : Text → Clusters → Clusters
  del_default_backend default_backend c =
      let name = default_cluster_name default_backend in
      record (set_maps (remove name c.cluster_table_conf.config) (remove name c.gslb_conf.clusters)
        c) { service2cluster = name_index.remove c.service2cluster default_backend name }

  -- The loop of `DeleteIngress`.
  unfoldable pub drop_clusters : List Text → Clusters → Clusters
  unfolding remove_services
  drop_clusters [] c = c
  drop_clusters (name ∷ names) c =
      drop_clusters names
        (record (set_maps (remove name c.cluster_table_conf.config)
          (remove name c.gslb_conf.clusters) c) {
            service2cluster =
                remove_services name (at name c.cluster_table_conf.config) c.service2cluster;
          })

  -- `DeleteIngress`
  unfoldable pub delete_ingress : Text → Text → Text → Text → Clusters → Clusters
  unfolding drop_clusters del_default_backend set_version
  delete_ingress version default_backend namespace name c =
      let ingress_name = namespaced_name namespace name in
      let dropped = drop_clusters (name_index.get c.ingress2cluster ingress_name) c in
      let gone = record dropped {
        ingress2cluster = name_index.remove_all dropped.ingress2cluster ingress_name;
      } in
      if name_index.contains_key c.ingress2cluster ingress_name
      then set_version version (
          if not (is_empty default_backend) && name_index.empty gone.ingress2cluster
          then del_default_backend default_backend gone
          else gone)
      else c

  -- The end of `UpdateIngress`, where the loops end without a panic.
  unfoldable pub finish_ingress :
      Text → Text → Ingress → Map Endpoints → Clusters → Clusters × Error
  unfolding add_default_backend set_version
  finish_ingress version default_backend ingress endpoints c =
      let c' =
        if not (is_empty default_backend)
        then add_default_backend default_backend (lookup default_backend endpoints) c
        else c in
      elim (cluster_table_conf_check c'.cluster_table_conf) [
        | some e ↦
            (delete_ingress version default_backend ingress.namespace ingress.name c', some e)
        | none ↦ (set_version version c', none)
      ]

  -- `UpdateIngress`, with the balance of its annotations
  unfoldable pub update_ingress :
      Text
      → Text
      → Ingress
      → Balance
      → Map Service
      → Map Endpoints
      → Clusters
      → Option (Clusters × Error)
  unfolding put_all_clusters
  update_ingress version default_backend ingress balance services endpoints c = elim ingress.rules [
    | [] ↦ some (c, none)
    | _ ∷ _ ↦ do
      c' ← put_all_clusters ingress balance services endpoints ingress.rules c
      some (finish_ingress version default_backend ingress endpoints c')
  ]
