-- ===== src/Cluster/Backed/Services.antt =====
-- The operations of `ClusterConfig` on a Service keep the two files in step.
use ingress_bfe.Base.{
  some_inj, Text, lookup, insert, true, false, List, [], ◌∷◌, ◌++◌, text, Option, some, Bool-cases,
  Error, ◌≡◌, inl, inr, subst, ℤ,
}
use ingress_bfe.Kube.{Service, Endpoints}
use ingress_bfe.Bfe.{External}
use ingress_bfe.Names.{parse_port}
use ingress_bfe.Cluster.Instances.{
  default_weight, new_gslb_cluster_conf, new_sub_cluster_backend, get_target_port,
}
use ingress_bfe.Cluster.Update.{◌>>=◌, Clusters}
use ingress_bfe.Cluster.Service.{
  drop_service, delete_service, put_service, put_service_in, no_target, update_service,
}
use ingress_bfe.Cluster.Backed.{
  none_Within, insert-Within, insert-Backs, remove_in-Backs, some-bind, Backed, set_version-Backed,
}

module _ (x : External) where
  open x use {namespaced_name, name_index, cluster_table_conf_check}

  drop_service-Backed :
      (service_name : Text) (names : List Text) (c : Clusters x)
      → Backed x c
      → Backed x (drop_service x service_name names c)
  unfolding drop_service
  drop_service-Backed service_name [] c h = h
  drop_service-Backed service_name (name ∷ names) c h =
      drop_service-Backed service_name names _
        (remove_in-Backs name service_name c.cluster_table_conf.config c.gslb_conf.clusters h)

  -- Deleting a Service keeps every weighted sub-cluster backed by an entry of the cluster table.
  pub delete_service-Backed :
      (version namespace name : Text) (c : Clusters x)
      → Backed x c
      → Backed x (delete_service x version namespace name c)
  unfolding delete_service
  delete_service-Backed version namespace name c h =
      set_version-Backed x version
        (drop_service x (namespaced_name namespace name)
          (name_index.get c.service2cluster (namespaced_name namespace name)) c)
        (drop_service-Backed (namespaced_name namespace name)
          (name_index.get c.service2cluster (namespaced_name namespace name)) c h)

  put_service-Backed :
      (service : Service) (endpoint : Option Endpoints) (name : Text) (c c' : Clusters x)
      → Backed x c
      → put_service x service endpoint name c ≡ some c'
      → Backed x c'
  unfolding put_service new_gslb_cluster_conf lookup
  put_service-Backed service endpoint name c c' h e =
      let (sub_clusters, q, r) = some-bind (lookup name c.cluster_table_conf.config) _ c' e in
      let service_name = namespaced_name service.namespace service.name in
      let instances =
        new_sub_cluster_backend endpoint (get_target_port (parse_port name) (some service)) in
      subst (Backed x) (some_inj r) (
        insert-Backs name (insert service_name instances sub_clusters)
          (insert service_name default_weight []) c.cluster_table_conf.config c.gslb_conf.clusters
          (insert-Within service_name default_weight instances [] sub_clusters
            (none_Within ℤ sub_clusters))
          h)

  put_service_in-Backed :
      (version default_backend : Text) (service : Service) (endpoint : Option Endpoints)
      (names : List Text) (c c' : Clusters x) (e : Error)
      → Backed x c
      → put_service_in x version default_backend service endpoint names c ≡ some (c', e)
      → Backed x c'
  unfolding put_service_in
  put_service_in-Backed version default_backend service endpoint [] c c' e h q =
      subst (λ r. Backed x r.0) (some_inj q) (set_version-Backed x version c h)
  put_service_in-Backed version default_backend service endpoint (name ∷ names) c c' e h q =
      let stop : Clusters x × Error = (
        delete_service x version service.namespace service.name c,
        some (text "cluster [" ++ name ++ text "] error, port can not found in service"),
      ) in
      let next =
        put_service x service endpoint name c
        >>= put_service_in x version default_backend service endpoint names in
      elim (no_target x default_backend service name)
          as (λ b. (elim b [ true ↦ some stop | false ↦ next ]) ≡ some (c', e) → Backed x c') [
            | true ↦ λ q.
                subst (λ (r : Clusters x × Error). Backed x r.0) (some_inj q)
                  (delete_service-Backed version service.namespace service.name c h)
            | false ↦ λ q.
                let (d, p, r) = some-bind (put_service x service endpoint name c) _ (c', e) q in
                put_service_in-Backed version default_backend service endpoint names d c' e
                  (put_service-Backed service endpoint name c d h p) r
          ]
        q

  -- Updating a Service keeps every weighted sub-cluster backed by an entry of the cluster table, also where its
  -- port is missing and the Service is deleted.
  pub update_service-Backed :
      (version default_backend : Text) (service : Service) (endpoint : Option Endpoints)
      (c c' : Clusters x) (e : Error)
      → Backed x c
      → update_service x version default_backend service endpoint c ≡ some (c', e)
      → Backed x c'
  unfolding update_service
  update_service-Backed version default_backend service endpoint c c' e h q =
      let service_name = namespaced_name service.namespace service.name in
      elim (Bool-cases (name_index.contains_key c.service2cluster service_name)) [
        | inl b ↦
            put_service_in-Backed version default_backend service endpoint
              (name_index.get c.service2cluster service_name) c c' e h (rw b at q)
        | inr b ↦ subst (λ r. Backed x r.0) (some_inj (rw b at q)) h
      ]
