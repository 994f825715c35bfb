-- ===== src/Cluster/Weights.antt =====
-- The weights that `UpdateService` leaves.
use ingress_bfe.Base.{
  some_inj, Text, text_eq_iff, Map, lookup, insert, lookup-insert, true, List, [], ◌∷◌, Option,
  none, some, Bool-cases, Error, ◌≡◌, ◌∙◌, ◌⊎◌, inl, inr, sym, subst, arith, ℤ, In,
}
use ingress_bfe.Kube.{Service, Endpoints}
use ingress_bfe.Bfe.{External}
use ingress_bfe.Cluster.Instances.{default_weight, new_gslb_cluster_conf}
use ingress_bfe.Cluster.Update.{Clusters, set_version}
use ingress_bfe.Cluster.Service.{put_service, put_service_in, no_target, update_service}
use ingress_bfe.Cluster.Backed.{some-bind}
use ingress_bfe.Cluster.Stale.Panic.{put_service_in-next}

module _ (x : External) where
  open x use {namespaced_name, name_index}

  -- The weights of a cluster that only has the one service.
  abbrev pub only : Service → Map ℤ
  only service = (namespaced_name service.namespace service.name, default_weight) ∷ []

  put_service-only :
      (service : Service) (endpoint : Option Endpoints) (name cluster : Text) (c d : Clusters x)
      → put_service x service endpoint name c ≡ some d
      → (lookup cluster c.gslb_conf.clusters ≡ some (only service)) ⊎ (name ≡ cluster)
      → lookup cluster d.gslb_conf.clusters ≡ some (only service)
  unfolding put_service new_gslb_cluster_conf lookup insert
  put_service-only service endpoint name cluster c d e h =
      let (sub_clusters, q, r) = some-bind (lookup name c.cluster_table_conf.config) _ d e in
      subst (λ (d : Clusters x). lookup cluster d.gslb_conf.clusters ≡ some (only service))
        (some_inj r)
        (ground (
          arith,
          h,
          text_eq_iff name cluster,
          lookup-insert name cluster (only service) c.gslb_conf.clusters,
        ))

  put_service_in-only :
      (version default_backend : Text) (service : Service) (endpoint : Option Endpoints)
      (cluster : Text) (names : List Text) (c d : Clusters x)
      → put_service_in x version default_backend service endpoint names c ≡ some (d, none)
      → (lookup cluster c.gslb_conf.clusters ≡ some (only service)) ⊎ In cluster names
      → lookup cluster d.gslb_conf.clusters ≡ some (only service)
  unfolding put_service_in set_version
  put_service_in-only version default_backend service endpoint cluster [] c d e (inl h) =
      subst
        (λ (r : Clusters x × Error). lookup cluster r.0.gslb_conf.clusters ≡ some (only service))
        (some_inj e) h
  put_service_in-only version default_backend service endpoint cluster [] c d e (inr i) = absurd i
  put_service_in-only version default_backend service endpoint cluster (name ∷ names) c d e h =
      elim (Bool-cases (no_target x default_backend service name)) [
        | inl b ↦ ground (arith, e, b)
        | inr b ↦
            let q =
              sym (put_service_in-next x version default_backend service endpoint name names c b)
              ∙ e in
            let (c', p, r) = some-bind (put_service x service endpoint name c) _ (d, none) q in
            put_service_in-only version default_backend service endpoint cluster names c' d r
              (elim h [
                | inl l ↦ inl (put_service-only service endpoint name cluster c c' p (inl l))
                | inr i ↦ elim i [
                  | inl m ↦ inl (put_service-only service endpoint name cluster c c' p (inr m))
                  | inr j ↦ inr j
                ]
              ])
      ]

  -- After an `UpdateService` without an error every cluster of the service gives all its weight to
  -- that one service: the weights of the annotation `balance.weight`, and the other services of the
  -- cluster, are lost from `gslb.data`.
  pub update_service-only :
      (version default_backend : Text) (service : Service) (endpoint : Option Endpoints)
      (cluster : Text) (c d : Clusters x)
      → update_service x version default_backend service endpoint c ≡ some (d, none)
      → In cluster
          (name_index.get c.service2cluster (namespaced_name service.namespace service.name))
      → lookup cluster d.gslb_conf.clusters ≡ some (only service)
  unfolding update_service
  update_service-only version default_backend service endpoint cluster c d e i =
      let service_name = namespaced_name service.namespace service.name in
      let has : name_index.contains_key c.service2cluster service_name ≡ true =
        (name_index.contains_key_iff c.service2cluster service_name).1 (cluster, i) in
      put_service_in-only version default_backend service endpoint cluster
        (name_index.get c.service2cluster service_name) c d (rw has at e) (inr i)
