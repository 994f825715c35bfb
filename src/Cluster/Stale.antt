-- ===== src/Cluster/Stale.antt =====
-- What `DeleteService` followed by `DeleteIngress` leaves in the index of services, and what a later
-- `UpdateService` makes of it.
pub mod Panic
use ingress_bfe.Base.{
  some_inj, Text, text_eq, text_eq_iff, Map, lookup, insert, remove, lookup-insert, lookup-remove,
  Bool, true, false, not, ◌&&◌, if◌then◌else◌, List, [], ◌∷◌, ◌++◌, text, Option, none, some,
  Option-cases, Bool-cases, Error, ◌≡◌, ◌∙◌, ◌≢◌, inl, inr, refl, sym, subst, arith, ℤ, is_empty,
  In,
}
use ingress_bfe.Kube.{Service, Endpoints}
use ingress_bfe.Bfe.{External, ClusterBackend, SubClusterBackend}
use ingress_bfe.Names.{default_cluster_name, parse_port}
use ingress_bfe.Cluster.Update
use ingress_bfe.Cluster.Instances.{new_sub_cluster_backend, get_target_port}
use ingress_bfe.Cluster.Update.{
  ◌>>=◌, at, remove_in, remove_last, Clusters, set_maps, set_version, remove_services,
  del_default_backend, drop_clusters,
}
use ingress_bfe.Cluster.Service.{
  drop_service, delete_service, put_service, put_service_in, no_target, update_service,
}
use ingress_bfe.Cluster.Backed.{some-bind, contains, contains-insert, at-remove, at-remove_in}

module _ (x : External) where
  open x use {namespaced_name, name_index}

  -- The service is indexed for the cluster, and the table does not list it there.
  abbrev pub Unlisted : Text → Text → Clusters x → Type 0
  Unlisted service cluster c =
      In cluster (name_index.get c.service2cluster service)
      × (contains service (at cluster c.cluster_table_conf.config) ≡ false)

  pub drop_service-unlists :
      (service : Text) (cluster : Text) (names : List Text) (c : Clusters x)
      → contains service (at cluster c.cluster_table_conf.config) ≡ false
      → contains service (at cluster (drop_service x service names c).cluster_table_conf.config)
        ≡ false
  unfolding drop_service
  drop_service-unlists service cluster [] c h = h
  drop_service-unlists service cluster (name ∷ names) c h =
      drop_service-unlists service cluster names _ (
        ground (
          arith,
          h,
          at-remove_in name service cluster c.cluster_table_conf.config,
          lookup-remove service service (at cluster c.cluster_table_conf.config),
          text_eq_iff service service,
        ))

  pub drop_service-unlisted :
      (service : Text) (cluster : Text) (names : List Text) (c : Clusters x)
      → In cluster names
      → contains service (at cluster (drop_service x service names c).cluster_table_conf.config)
        ≡ false
  unfolding drop_service
  drop_service-unlisted service cluster [] c i = absurd i
  drop_service-unlisted service cluster (name ∷ names) c (inl e) =
      drop_service-unlists service cluster names _ (
        ground (
          arith,
          e,
          at-remove_in name service cluster c.cluster_table_conf.config,
          lookup-remove service service (at cluster c.cluster_table_conf.config),
          text_eq_iff service service,
          text_eq_iff name cluster,
        ))
  drop_service-unlisted service cluster (name ∷ names) c (inr i) =
      drop_service-unlisted service cluster names _ i

  pub drop_service-index :
      (service : Text) (names : List Text) (c : Clusters x)
      → (drop_service x service names c).service2cluster ≡ c.service2cluster
  unfolding drop_service
  drop_service-index service [] c = refl
  drop_service-index service (name ∷ names) c = drop_service-index service names _

  pub drop_service-ingresses :
      (service : Text) (names : List Text) (c : Clusters x)
      → (drop_service x service names c).ingress2cluster ≡ c.ingress2cluster
  unfolding drop_service
  drop_service-ingresses service [] c = refl
  drop_service-ingresses service (name ∷ names) c = drop_service-ingresses service names _

  pub In-remove_services :
      {V : Type 0} (service cluster name : Text) (m : Map V) (index : name_index.Carrier)
      → In cluster (name_index.get index service)
      → ((name ≡ cluster) → contains service m ≡ false)
      → In cluster (name_index.get (remove_services x name m index) service)
  unfolding remove_services lookup
  In-remove_services service cluster name [] index i h = i
  In-remove_services service cluster name ((s, v) ∷ m) index i h =
      In-remove_services service cluster name m (name_index.remove index s name)
        ((name_index.in_remove index s service name cluster).1
          (i, λ (p, q). ground (arith, h q, text_eq_iff s service)))
        (λ q. ground (arith, h q, text_eq_iff s service))

  -- The loop of `DeleteIngress` keeps the entry, and removes the cluster if it is one of its own.
  pub drop_clusters-Unlisted :
      (service cluster : Text) (names : List Text) (c : Clusters x)
      → Unlisted service cluster c
      → Unlisted service cluster (drop_clusters x names c)
  unfolding drop_clusters lookup
  drop_clusters-Unlisted service cluster [] c h = h
  drop_clusters-Unlisted service cluster (name ∷ names) c (i, e) =
      drop_clusters-Unlisted service cluster names _ (
        In-remove_services service cluster name (at name c.cluster_table_conf.config)
            c.service2cluster i
            (λ q.
              subst (λ n. contains service (at n c.cluster_table_conf.config) ≡ false) (sym q) e),
        ground (arith, e, lookup-remove name cluster c.cluster_table_conf.config),
      )

  pub drop_clusters-keeps_none :
      (cluster : Text) (names : List Text) (c : Clusters x)
      → lookup cluster c.cluster_table_conf.config ≡ none
      → lookup cluster (drop_clusters x names c).cluster_table_conf.config ≡ none
  unfolding drop_clusters
  drop_clusters-keeps_none cluster [] c h = h
  drop_clusters-keeps_none cluster (name ∷ names) c h =
      drop_clusters-keeps_none cluster names _
        (ground (arith, h, lookup-remove name cluster c.cluster_table_conf.config))

  pub drop_clusters-none :
      (cluster : Text) (names : List Text) (c : Clusters x)
      → In cluster names
      → lookup cluster (drop_clusters x names c).cluster_table_conf.config ≡ none
  unfolding drop_clusters
  drop_clusters-none cluster [] c i = absurd i
  drop_clusters-none cluster (name ∷ names) c (inl e) = drop_clusters-keeps_none cluster names _ (
      ground
        (arith, lookup-remove name cluster c.cluster_table_conf.config, text_eq_iff name cluster))
  drop_clusters-none cluster (name ∷ names) c (inr i) = drop_clusters-none cluster names _ i
