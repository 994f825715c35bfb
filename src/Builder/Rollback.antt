-- ===== src/Builder/Rollback.antt =====
-- What `UpdateIngress` of `ConfigBuilder` leaves behind when it fails.
use ingress_bfe.Base.{
  Text, List, [], ◌∷◌, Map, Option, none, some, Error, ◌≡◌, ◌⊎◌, inl, inr, refl, false, Bool-cases,
  subst, arith, if◌then◌else◌, not, is_empty, lookup,
}
use ingress_bfe.Kube.{Ingress, Service, Endpoints, Secret}
use ingress_bfe.Bfe.{External}
use ingress_bfe.RouteRule.Cache.{contains_ingress}
use ingress_bfe.RouteRule.Cache.Delete.{contains_ingress-delete}
use ingress_bfe.ServerData.Tables.{State, update_bfe_cluster_conf}
use ingress_bfe.ServerData.Valid.{Valid, cache-update_route_table}
use ingress_bfe.ServerData.Failure.{update_ingress-RolledBack}
use ingress_bfe.ServerData.Update
use ingress_bfe.Annotations.Balance.{Balance}
use ingress_bfe.Cluster.Update.{◌>>=◌}
use ingress_bfe.Cluster.Update as Clusters
use ingress_bfe.Tls.Update as Certs
use ingress_bfe.Builder.{
  ConfigBuilder, Environment, delete_server_data, after_tls, after_clusters, after_server_data,
  build_ingress,
}

module _ (x : External) where
  open x use {namespaced_name, rule_index, name_index}

  pub forgets_routes :
      (env : Environment) (namespace name : Text) (c : State x)
      → contains_ingress rule_index
          (delete_server_data x env namespace name c).route_rule_cache
          (namespaced_name namespace name)
        ≡ false
  unfolding Update.delete_ingress update_bfe_cluster_conf
  forgets_routes env namespace name c =
      let ingress_name = namespaced_name namespace name in
      elim (Bool-cases (contains_ingress rule_index c.route_rule_cache ingress_name)) [
        | inl e ↦ rw e (
            rw cache-update_route_table
              (contains_ingress-delete rule_index c.route_rule_cache ingress_name))
        | inr e ↦ rw e e
      ]

  pub remove_all-forgets :
      (m : name_index.Carrier) (k : Text)
      → name_index.contains_key (name_index.remove_all m k) k ≡ false
  remove_all-forgets m k =
      elim (Bool-cases (name_index.contains_key (name_index.remove_all m k) k)) [
        | inl e ↦
            let (v, i) = (name_index.contains_key_iff (name_index.remove_all m k) k).0 e in
            absurd (((name_index.in_remove_all m k k v).0 i).1 refl)
        | inr e ↦ e
      ]

  -- After `DeleteIngress` no cluster is indexed for the Ingress.
  pub forgets_clusters :
      (version default_backend namespace name : Text) (c : Clusters.Clusters x)
      → name_index.contains_key
          (Clusters.delete_ingress x version default_backend namespace name c).ingress2cluster
          (namespaced_name namespace name)
        ≡ false
  unfolding Clusters.delete_ingress Clusters.set_version Clusters.del_default_backend
  forgets_clusters version default_backend namespace name c =
      let ingress_name = namespaced_name namespace name in
      let dropped = Clusters.drop_clusters x (name_index.get c.ingress2cluster ingress_name) c in
      let f = remove_all-forgets dropped.ingress2cluster ingress_name in
      elim (Bool-cases (name_index.contains_key c.ingress2cluster ingress_name)) [
        | inl e ↦ rw e (ground (arith, f))
        | inr e ↦ rw e e
      ]

  -- The parts of the state after a failure: the routes do not know the Ingress, and the clusters
  -- are as before or do not know it either.
  abbrev pub Undone : Text → ConfigBuilder x → ConfigBuilder x → Type 0
  Undone name old new =
      (contains_ingress rule_index new.server_data_conf.route_rule_cache name ≡ false)
      × ((new.cluster_conf ≡ old.cluster_conf)
          ⊎ (name_index.contains_key new.cluster_conf.ingress2cluster name ≡ false))

  abbrev IfError : Text → ConfigBuilder x → Option (ConfigBuilder x × Error) → Type 0
  IfError name old none = Unit
  IfError name old (some (new, none)) = Unit
  IfError name old (some (new, some e)) = Undone name old new

  after_tls-IfError :
      (env : Environment) (ingress : Ingress) (old : ConfigBuilder x) (server : State x)
      (clusters : Clusters.Clusters x) (r : Certs.Certs x × Error)
      → IfError
          (namespaced_name ingress.namespace ingress.name)
          old
          (some (after_tls x env ingress server clusters r))
  after_tls-IfError env ingress old server clusters (certs, none) = tt
  after_tls-IfError env ingress old server clusters (certs, some e) = (
    forgets_routes env ingress.namespace ingress.name server,
    inr (
        forgets_clusters env.table_version env.default_backend ingress.namespace ingress.name
          clusters),
  )

  -- What an outcome of the clusters with an error says of them.
  abbrev Forgets : Text → Option (Clusters.Clusters x × Error) → Type 0
  Forgets name none = Unit
  Forgets name (some (c, none)) = Unit
  Forgets name (some (c, some e)) = name_index.contains_key c.ingress2cluster name ≡ false

  -- A table that fails its check is left without the Ingress.
  finish_ingress-Forgets :
      (version default_backend : Text) (ingress : Ingress) (endpoints : Map Endpoints)
      (c : Clusters.Clusters x)
      → Forgets
          (namespaced_name ingress.namespace ingress.name)
          (some (Clusters.finish_ingress x version default_backend ingress endpoints c))
  unfolding Clusters.finish_ingress
  finish_ingress-Forgets version default_backend ingress endpoints c =
      let c' =
        if not (is_empty default_backend)
        then Clusters.add_default_backend x default_backend (lookup default_backend endpoints) c
        else c in
      elim (x.cluster_table_conf_check c'.cluster_table_conf)
        as (λ o. Forgets (namespaced_name ingress.namespace ingress.name) (
          some (elim o [
            | some e ↦ (
              Clusters.delete_ingress x version default_backend ingress.namespace ingress.name c',
              some e,
            )
            | none ↦ (Clusters.set_version x version c', none)
          ]))) [
            | some e ↦ forgets_clusters version default_backend ingress.namespace ingress.name c'
            | none ↦ tt
          ]

  cluster_update-Forgets :
      (version default_backend : Text) (ingress : Ingress) (balance : Balance)
      (services : Map Service) (endpoints : Map Endpoints) (c : Clusters.Clusters x)
      → Forgets
          (namespaced_name ingress.namespace ingress.name)
          (Clusters.update_ingress x version default_backend ingress balance services endpoints c)
  unfolding Clusters.update_ingress
  cluster_update-Forgets version default_backend ingress balance services endpoints c =
      let name = namespaced_name ingress.namespace ingress.name in
      let o = Clusters.put_all_clusters x ingress balance services endpoints ingress.rules c in
      let next : Clusters.Clusters x → Option (Clusters.Clusters x × Error) =
        λ d. some (Clusters.finish_ingress x version default_backend ingress endpoints d) in
      elim ingress.rules
        as (λ rules. Forgets name (elim rules [ [] ↦ some (c, none) | _ ∷ _ ↦ o >>= next ])) [
          | [] ↦ tt
          | _ ∷ _ ↦ elim o as (λ o. Forgets name (o >>= next)) [
            | none ↦ tt
            | some d ↦ finish_ingress-Forgets version default_backend ingress endpoints d
          ]
        ]

  after_clusters-IfError :
      (env : Environment) (ingress : Ingress) (secrets : List Secret) (old : ConfigBuilder x)
      (server : State x) (o : Option (Clusters.Clusters x × Error))
      → Forgets (namespaced_name ingress.namespace ingress.name) o
      → IfError
          (namespaced_name ingress.namespace ingress.name)
          old
          (after_clusters x env ingress secrets server old.tls_conf o)
  after_clusters-IfError env ingress secrets old server none f = tt
  after_clusters-IfError env ingress secrets old server (some (clusters, some e)) f =
      (forgets_routes env ingress.namespace ingress.name server, inr f)
  after_clusters-IfError env ingress secrets old server (some (clusters, none)) f =
      after_tls-IfError env ingress old server clusters
        (Certs.update_ingress x env.tls_version ingress secrets old.tls_conf)

  after_server_data-IfError :
      (env : Environment) (ingress : Ingress) (balance : Balance) (services : Map Service)
      (endpoints : Map Endpoints) (secrets : List Secret) (old : ConfigBuilder x)
      (o : Option (State x × Error))
      → ((c : State x) (e : Text)
          → o ≡ some (c, some e)
          → contains_ingress rule_index c.route_rule_cache
              (namespaced_name ingress.namespace ingress.name)
            ≡ false)
      → IfError
          (namespaced_name ingress.namespace ingress.name)
          old
          (after_server_data x env ingress balance services endpoints secrets old o)
  after_server_data-IfError env ingress balance services endpoints secrets old none k = tt
  after_server_data-IfError env ingress balance services endpoints secrets old
        (some (server, some e)) k =
      (k server e refl, inl refl)
  after_server_data-IfError env ingress balance services endpoints secrets old (some (server, none))
        k =
      after_clusters-IfError env ingress secrets old server _ (
        cluster_update-Forgets env.table_version env.default_backend ingress balance services
          endpoints old.cluster_conf)

  -- When `UpdateIngress` of the builder fails, in whichever part, and the cache of routes was valid,
  -- that cache does not know the Ingress afterwards, and the cluster part is the one from before or does not know it either.
  pub build_ingress-Undone :
      (env : Environment) (ingress : Ingress) (balance : Balance) (services : Map Service)
      (endpoints : Map Endpoints) (secrets : List Secret) (c c' : ConfigBuilder x) (e : Text)
      → Valid x c.server_data_conf.route_rule_cache
      → build_ingress x env ingress balance services endpoints secrets c ≡ some (c', some e)
      → Undone (namespaced_name ingress.namespace ingress.name) c c'
  unfolding build_ingress
  build_ingress-Undone env ingress balance services endpoints secrets c c' e v h =
      subst (IfError (namespaced_name ingress.namespace ingress.name) c) h (
        after_server_data-IfError env ingress balance services endpoints secrets c _ (λ server e q.
          (update_ingress-RolledBack x env.addr env.route_version env.cluster_version
            env.default_backend c.server_data_conf server ingress e v q).unknown))
