-- ===== src/Cluster/Backed/Ingresses.antt =====
-- The operations of `ClusterConfig` on an Ingress keep the two files in step.
use ingress_bfe.Base.{
  some_inj, Text, Map, lookup, insert, not, ◌&&◌, if◌then◌else◌, List, [], ◌∷◌, Option, none, some,
  Option-cases, Error, ◌≡◌, inl, inr, subst, arith, ℤ, is_empty,
}
use ingress_bfe.Kube.{
  Ingress, IngressRule, HttpIngressPath, IngressServiceBackend, ServiceBackendPort, Service,
  Endpoints,
}
use ingress_bfe.Bfe.{External, ClusterBackend, SubClusterBackend}
use ingress_bfe.Names.{cluster_name, default_cluster_name}
use ingress_bfe.Annotations.Balance.{Balance}
use ingress_bfe.Cluster.Instances.{
  default_weight, no_port, weighted_backends, new_cluster_backend, weighted_gslb,
  new_gslb_cluster_conf, new_sub_cluster_backend, get_target_port,
}
use ingress_bfe.Cluster.Update
use ingress_bfe.Cluster.Update.{
  ◌>>=◌, at, remove_in, remove_last, Clusters, set_maps, set_version, put_cluster, put_clusters,
  put_all_clusters, put_default, add_default_backend, del_default_backend, drop_clusters,
  finish_ingress,
}
use ingress_bfe.Cluster.Backed.{
  Within, none_Within, insert-Within, insert-Backs, remove-Backs, some-bind, Backed,
  set_version-Backed, if-Backed,
}

module _ (x : External) where
  open x use {namespaced_name, name_index, cluster_table_conf_check}

  weighted-Within :
      (namespace : Text) (port : ServiceBackendPort) (services : Map Service)
      (endpoints : Map Endpoints) (weights : Map ℤ) (g : Map ℤ) (b : ClusterBackend)
      → Within g b
      → Within
          (weighted_gslb x namespace weights g)
          (weighted_backends x namespace port services endpoints weights b)
  unfolding weighted_gslb weighted_backends
  weighted-Within namespace port services endpoints [] g b h = h
  weighted-Within namespace port services endpoints ((name, weight) ∷ weights) g b h =
      let service_name = namespaced_name namespace name in
      let instances =
        new_sub_cluster_backend (lookup service_name endpoints)
          (get_target_port port (lookup service_name services)) in
      weighted-Within namespace port services endpoints weights (insert service_name weight g)
        (insert service_name instances b) (insert-Within service_name weight instances g b h)

  new_cluster-Within :
      (namespace : Text) (backend : IngressServiceBackend) (balance : Balance)
      (services : Map Service) (endpoints : Map Endpoints)
      → Within
          (new_gslb_cluster_conf x namespace backend.name balance)
          (new_cluster_backend x namespace (some backend) balance services endpoints)
  unfolding new_gslb_cluster_conf new_cluster_backend
  new_cluster-Within namespace backend balance services endpoints =
      elim (Option-cases (lookup backend.name balance)) [
        | inl e ↦
            rw (e, new_gslb_cluster_conf, new_cluster_backend)
              (weighted-Within namespace backend.port services endpoints
                ((backend.name, default_weight) ∷ []) [] [] (none_Within _ []))
        | inr (weights, e) ↦
            rw (e, new_gslb_cluster_conf, new_cluster_backend)
              (weighted-Within namespace backend.port services endpoints weights [] []
                (none_Within _ []))
      ]

  put_cluster-Backed :
      (ingress : Ingress) (balance : Balance) (services : Map Service) (endpoints : Map Endpoints)
      (path : HttpIngressPath) (c c' : Clusters x)
      → Backed x c
      → put_cluster x ingress balance services endpoints path c ≡ some c'
      → Backed x c'
  unfolding put_cluster
  put_cluster-Backed ingress balance services endpoints path c c' h e =
      let (backend, q, r) = some-bind path.backend.service _ c' e in
      subst (Backed x) (some_inj r) (
        insert-Backs (cluster_name (namespaced_name ingress.namespace ingress.name) backend)
          (new_cluster_backend x ingress.namespace (some backend) balance services endpoints)
          (new_gslb_cluster_conf x ingress.namespace backend.name balance)
          c.cluster_table_conf.config c.gslb_conf.clusters
          (new_cluster-Within ingress.namespace backend balance services endpoints) h)

  put_clusters-Backed :
      (ingress : Ingress) (balance : Balance) (services : Map Service) (endpoints : Map Endpoints)
      (paths : List HttpIngressPath) (c c' : Clusters x)
      → Backed x c
      → put_clusters x ingress balance services endpoints paths c ≡ some c'
      → Backed x c'
  unfolding put_clusters
  put_clusters-Backed ingress balance services endpoints [] c c' h e =
      subst (Backed x) (some_inj e) h
  put_clusters-Backed ingress balance services endpoints (path ∷ paths) c c' h e =
      let (d, q, r) = some-bind (put_cluster x ingress balance services endpoints path c) _ c' e in
      put_clusters-Backed ingress balance services endpoints paths d c'
        (put_cluster-Backed ingress balance services endpoints path c d h q) r

  put_all_clusters-Backed :
      (ingress : Ingress) (balance : Balance) (services : Map Service) (endpoints : Map Endpoints)
      (rules : List IngressRule) (c c' : Clusters x)
      → Backed x c
      → put_all_clusters x ingress balance services endpoints rules c ≡ some c'
      → Backed x c'
  unfolding put_all_clusters
  put_all_clusters-Backed ingress balance services endpoints [] c c' h e =
      subst (Backed x) (some_inj e) h
  put_all_clusters-Backed ingress balance services endpoints (rule ∷ rules) c c' h e =
      let (paths, p, s) = some-bind rule.http _ c' e in
      let (d, q, r) =
        some-bind (put_clusters x ingress balance services endpoints paths c) _ c' s in
      put_all_clusters-Backed ingress balance services endpoints rules d c'
        (put_clusters-Backed ingress balance services endpoints paths c d h q) r

  put_default-Backed :
      (default_backend : Text) (b : SubClusterBackend) (c : Clusters x)
      → Backed x c
      → Backed x (put_default x default_backend b c)
  unfolding insert
  put_default-Backed default_backend none c h = h
  put_default-Backed default_backend (some []) c h = h
  put_default-Backed default_backend (some (i ∷ instances)) c h =
      insert-Backs (default_cluster_name default_backend) _ _ c.cluster_table_conf.config
        c.gslb_conf.clusters
        (insert-Within default_backend default_weight (some (i ∷ instances)) [] []
          (none_Within _ []))
        h

  add_default_backend-Backed :
      (default_backend : Text) (ep : Option Endpoints) (c : Clusters x)
      → Backed x c
      → Backed x (add_default_backend x default_backend ep c)
  unfolding add_default_backend
  add_default_backend-Backed default_backend none c h = h
  add_default_backend-Backed default_backend (some ep) c h =
      ground
        (arith, put_default-Backed default_backend (new_sub_cluster_backend (some ep) no_port) c h)

  drop_clusters-Backed :
      (names : List Text) (c : Clusters x) → Backed x c → Backed x (drop_clusters x names c)
  unfolding drop_clusters
  drop_clusters-Backed [] c h = h
  drop_clusters-Backed (name ∷ names) c h =
      drop_clusters-Backed names _
        (remove-Backs name c.cluster_table_conf.config c.gslb_conf.clusters h)

  del_default_backend-Backed :
      (default_backend : Text) (c : Clusters x)
      → Backed x c
      → Backed x (del_default_backend x default_backend c)
  unfolding del_default_backend
  del_default_backend-Backed default_backend c h =
      remove-Backs (default_cluster_name default_backend) c.cluster_table_conf.config
        c.gslb_conf.clusters h

  -- Deleting an Ingress keeps every weighted sub-cluster backed by an entry of the cluster table.
  pub delete_ingress-Backed :
      (version default_backend namespace name : Text) (c : Clusters x)
      → Backed x c
      → Backed x (Update.delete_ingress x version default_backend namespace name c)
  unfolding Update.delete_ingress
  delete_ingress-Backed version default_backend namespace name c h =
      let ingress_name = namespaced_name namespace name in
      let dropped = drop_clusters x (name_index.get c.ingress2cluster ingress_name) c in
      let gone : Clusters x = record dropped {
        ingress2cluster = name_index.remove_all dropped.ingress2cluster ingress_name;
      } in
      let g : Backed x gone =
        drop_clusters-Backed (name_index.get c.ingress2cluster ingress_name) c h in
      let d = not (is_empty default_backend) && name_index.empty gone.ingress2cluster in
      let rest = if d then del_default_backend x default_backend gone else gone in
      if-Backed x (name_index.contains_key c.ingress2cluster ingress_name)
        (set_version x version rest) c
        (set_version-Backed x version rest (
          if-Backed x d (del_default_backend x default_backend gone) gone
            (del_default_backend-Backed default_backend gone g) g))
        h

  finish_ingress-Backed :
      (version default_backend : Text) (ingress : Ingress) (endpoints : Map Endpoints)
      (c : Clusters x)
      → Backed x c
      → Backed x (finish_ingress x version default_backend ingress endpoints c).0
  unfolding finish_ingress
  finish_ingress-Backed version default_backend ingress endpoints c h =
      let c' =
        if not (is_empty default_backend)
        then add_default_backend x default_backend (lookup default_backend endpoints) c
        else c in
      let h' : Backed x c' =
        if-Backed x (not (is_empty default_backend)) _ c
          (add_default_backend-Backed default_backend (lookup default_backend endpoints) c h) h in
      ground (
        arith,
        set_version-Backed x version c' h',
        delete_ingress-Backed version default_backend ingress.namespace ingress.name c' h',
      )

  -- Updating an Ingress keeps every weighted sub-cluster backed by an entry of the cluster table, whether the
  -- new table passes its check or not.
  pub update_ingress-Backed :
      (version default_backend : Text) (ingress : Ingress) (balance : Balance)
      (services : Map Service) (endpoints : Map Endpoints) (c c' : Clusters x) (e : Error)
      → Backed x c
      → Update.update_ingress x version default_backend ingress balance services endpoints c
        ≡ some (c', e)
      → Backed x c'
  unfolding Update.update_ingress
  update_ingress-Backed version default_backend ingress balance services endpoints c c' e h q =
      elim ingress.rules
          as (λ rules.
            (elim rules [
              | [] ↦ some (c, none)
              | _ ∷ _ ↦
                  (put_all_clusters x ingress balance services endpoints ingress.rules c >>= λ d.
                  some (finish_ingress x version default_backend ingress endpoints d))
            ])
              ≡ some (c', e)
            → Backed x c') [
              | [] ↦ λ q. subst (λ (r : Clusters x × Error). Backed x r.0) (some_inj q) h
              | _ ∷ _ ↦ λ q.
                  let (d, p, r) =
                    some-bind
                      (put_all_clusters x ingress balance services endpoints ingress.rules c) _
                      (c', e) q in
                  subst (λ (r : Clusters x × Error). Backed x r.0) (some_inj r)
                    (finish_ingress-Backed version default_backend ingress endpoints d (
                      put_all_clusters-Backed ingress balance services endpoints ingress.rules c d h
                        p))
            ]
        q
