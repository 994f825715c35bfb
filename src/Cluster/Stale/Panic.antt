-- ===== src/Cluster/Stale/Panic.antt =====
-- A service that comes back after its Ingress is gone: `UpdateService` panics.
use ingress_bfe.Base.{
  some_inj, Text, text_eq_iff, Map, lookup, insert, lookup-insert, lookup-remove, true, false, not,
  ◌&&◌, List, [], ◌∷◌, Option, none, some, Option-cases, Bool-cases, ◌≡◌, ◌∙◌, ◌≢◌, inl, inr, refl,
  sym, subst, arith, is_empty, In,
}
use ingress_bfe.Kube.{Service, Endpoints}
use ingress_bfe.Bfe.{External}
use ingress_bfe.Names.{default_cluster_name, parse_port}
use ingress_bfe.Cluster.Update
use ingress_bfe.Cluster.Instances.{new_sub_cluster_backend, get_target_port}
use ingress_bfe.Cluster.Update.{
  ◌>>=◌, at, remove_in, remove_last, Clusters, set_maps, set_version, remove_services,
  del_default_backend, drop_clusters,
}
use ingress_bfe.Cluster.Service.{
  delete_service, put_service, put_service_in, no_target, update_service,
}
use ingress_bfe.Cluster.Backed.{some-bind}
use ingress_bfe.Cluster.Stale.{
  Unlisted, drop_service-unlisted, drop_service-index, drop_service-ingresses,
  drop_clusters-Unlisted, drop_clusters-none,
}

module _ (x : External) where
  open x use {namespaced_name, name_index}

  pub put_service_in-next :
      (version default_backend : Text) (service : Service) (endpoint : Option Endpoints)
      (name : Text) (names : List Text) (c : Clusters x)
      → no_target x default_backend service name ≡ false
      → put_service_in x version default_backend service endpoint (name ∷ names) c ≡ (
          put_service x service endpoint name c
          >>= put_service_in x version default_backend service endpoint names)
  unfolding put_service_in
  put_service_in-next version default_backend service endpoint name names c e = ground arith

  put_service-missing :
      (service : Service) (endpoint : Option Endpoints) (name cluster : Text) (c d : Clusters x)
      → put_service x service endpoint name c ≡ some d
      → lookup cluster c.cluster_table_conf.config ≡ none
      → (name ≢ cluster) × (lookup cluster d.cluster_table_conf.config ≡ none)
  unfolding put_service
  put_service-missing service endpoint name cluster c d e h =
      let (sub_clusters, q, r) = some-bind (lookup name c.cluster_table_conf.config) _ d e in
      let n : name ≢ cluster = λ p.
        ground (arith, q, subst (λ n. lookup n c.cluster_table_conf.config ≡ none) (sym p) h) in
      (
        n,
        subst (λ d. lookup cluster d.cluster_table_conf.config ≡ none) (some_inj r)
            (ground (
              arith,
              n,
              h,
              text_eq_iff name cluster,
              lookup-insert name cluster
                  (insert (namespaced_name service.namespace service.name)
                    (new_sub_cluster_backend endpoint
                      (get_target_port (parse_port name) (some service)))
                    sub_clusters)
                  c.cluster_table_conf.config,
            )),
      )

  put_service_in-panics :
      (version default_backend : Text) (service : Service) (endpoint : Option Endpoints)
      (cluster : Text) (names : List Text) (c : Clusters x)
      → ((name : Text) → In name names → no_target x default_backend service name ≡ false)
      → In cluster names
      → lookup cluster c.cluster_table_conf.config ≡ none
      → put_service_in x version default_backend service endpoint names c ≡ none
  put_service_in-panics version default_backend service endpoint cluster [] c t i e = absurd i
  put_service_in-panics version default_backend service endpoint cluster (name ∷ names) c t i e =
      put_service_in-next version default_backend service endpoint name names c (t name (inl refl))
      ∙ (elim (Option-cases (put_service x service endpoint name c)) [
        | inl q ↦ rw q refl
        | inr (d, q) ↦
            let (n, f) = put_service-missing service endpoint name cluster c d q e in
            rw q (
              put_service_in-panics version default_backend service endpoint cluster names d
                (λ n j. t n (inr j)) (elim i [ inl p ↦ absurd (n p) | inr j ↦ j ]) f)
      ])

  In_of_remove_services :
      {V : Type 0} (service cluster name : Text) (m : Map V) (index : name_index.Carrier)
      → In cluster (name_index.get (remove_services x name m index) service)
      → In cluster (name_index.get index service)
  unfolding remove_services
  In_of_remove_services service cluster name [] index i = i
  In_of_remove_services service cluster name ((s, v) ∷ m) index i =
      ((name_index.in_remove index s service name cluster).0
        (In_of_remove_services service cluster name m (name_index.remove index s name) i)).0

  In_of_drop_clusters :
      (service cluster : Text) (names : List Text) (c : Clusters x)
      → In cluster (name_index.get (drop_clusters x names c).service2cluster service)
      → In cluster (name_index.get c.service2cluster service)
  unfolding drop_clusters
  In_of_drop_clusters service cluster [] c i = i
  In_of_drop_clusters service cluster (name ∷ names) c i =
      In_of_remove_services service cluster name (at name c.cluster_table_conf.config)
        c.service2cluster (In_of_drop_clusters service cluster names _ i)

  -- The service is indexed for a cluster that is gone, and for no cluster that is new.
  abbrev Stale : Text → Text → List Text → Clusters x → Type 0
  Stale service cluster known c =
      In cluster (name_index.get c.service2cluster service)
      × (lookup cluster c.cluster_table_conf.config ≡ none)
      × ((n : Text) → In n (name_index.get c.service2cluster service) → In n known)

  del_default_backend-Stale :
      (default_backend service cluster : Text) (known : List Text) (c : Clusters x)
      → cluster ≢ default_cluster_name default_backend
      → Stale service cluster known c
      → Stale service cluster known (del_default_backend x default_backend c)
  unfolding del_default_backend
  del_default_backend-Stale default_backend service cluster known c n (i, e, k) =
      let name = default_cluster_name default_backend in
      (
        (name_index.in_remove c.service2cluster default_backend service name cluster).1
            (i, λ (p, q). n (sym q)),
        ground (arith, e, lookup-remove name cluster c.cluster_table_conf.config),
        λ m j. k m ((name_index.in_remove c.service2cluster default_backend service name m).0 j).0,
      )

  delete_ingress-Stale :
      (version default_backend namespace name service cluster : Text) (c : Clusters x)
      → In cluster (name_index.get c.ingress2cluster (namespaced_name namespace name))
      → Unlisted x service cluster c
      → cluster ≢ default_cluster_name default_backend
      → Stale service cluster
          (name_index.get c.service2cluster service)
          (Update.delete_ingress x version default_backend namespace name c)
  unfolding Update.delete_ingress set_version
  delete_ingress-Stale version default_backend namespace name service cluster c i u n =
      let ingress_name = namespaced_name namespace name in
      let names = name_index.get c.ingress2cluster ingress_name in
      let dropped = drop_clusters x names c in
      let gone : Clusters x = record dropped {
        ingress2cluster = name_index.remove_all dropped.ingress2cluster ingress_name;
      } in
      let known = name_index.get c.service2cluster service in
      let g : Stale service cluster known gone = (
        (drop_clusters-Unlisted x service cluster names c u).0,
        drop_clusters-none x cluster names c i,
        λ m. In_of_drop_clusters service m names c,
      ) in
      let has : name_index.contains_key c.ingress2cluster ingress_name ≡ true =
        (name_index.contains_key_iff c.ingress2cluster ingress_name).1 (cluster, i) in
      rw has
        (elim (Bool-cases
          (not (is_empty default_backend) && name_index.empty gone.ingress2cluster)) [
            | inl q ↦
                rw q (del_default_backend-Stale default_backend service cluster known gone n g)
            | inr q ↦ rw q g
          ])

  -- If a Service is deleted from the clusters, then an Ingress that routes to it, and then the
  -- Service comes back with a target port for each of its clusters, `UpdateService` writes to a map
  -- that is nil and panics. The cluster of the Ingress is one that the index lists for the Service,
  -- and is not the default cluster.
  pub update_service-panic :
      (v1 v2 v3 default_backend namespace name : Text) (service : Service)
      (endpoint : Option Endpoints) (cluster : Text) (c : Clusters x)
      → In cluster (name_index.get c.ingress2cluster (namespaced_name namespace name))
      → In cluster
          (name_index.get c.service2cluster (namespaced_name service.namespace service.name))
      → cluster ≢ default_cluster_name default_backend
      → ((n : Text)
          → In n (name_index.get c.service2cluster (namespaced_name service.namespace service.name))
          → no_target x default_backend service n ≡ false)
      → update_service x v3 default_backend service endpoint (
          Update.delete_ingress x v2 default_backend namespace name
            (delete_service x v1 service.namespace service.name c))
        ≡ none
  unfolding update_service delete_service set_version
  update_service-panic v1 v2 v3 default_backend namespace name service endpoint cluster c i s n t =
      let service_name = namespaced_name service.namespace service.name in
      let c1 = delete_service x v1 service.namespace service.name c in
      let c2 = Update.delete_ingress x v2 default_backend namespace name c1 in
      let names = name_index.get c.service2cluster service_name in
      let same : c1.service2cluster ≡ c.service2cluster =
        drop_service-index x service_name names c in
      let i1 =
        subst (λ m. In cluster (name_index.get m (namespaced_name namespace name)))
          (sym (drop_service-ingresses x service_name names c)) i in
      let s1 = subst (λ m. In cluster (name_index.get m service_name)) (sym same) s in
      let (j, e, k) =
        delete_ingress-Stale v2 default_backend namespace name service_name cluster c1 i1
          (s1, drop_service-unlisted x service_name cluster names c s) n in
      let has : name_index.contains_key c2.service2cluster service_name ≡ true =
        (name_index.contains_key_iff c2.service2cluster service_name).1 (cluster, j) in
      rw has (
        put_service_in-panics v3 default_backend service endpoint cluster
          (name_index.get c2.service2cluster service_name) c2
          (λ m q. t m (subst (λ w. In m (name_index.get w service_name)) same (k m q))) j e)
