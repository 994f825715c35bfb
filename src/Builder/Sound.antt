-- ===== src/Builder/Sound.antt =====
-- What holds of every configuration that the builder can reach.
use ingress_bfe.Base.{
  some_inj, Text, text, List, Map, Option, none, some, Error, ◌≡◌, subst, refl, arith, ap, sym,
}
use ingress_bfe.Kube.{Ingress, Service, Endpoints, Secret}
use ingress_bfe.Bfe.{External, GslbConf, ClusterTableConf}
use ingress_bfe.Annotations.Balance.{Balance}
use ingress_bfe.RouteRule.Cache.Invariant.{new_route_rule_cache-IsValid}
use ingress_bfe.ServerData.Tables.{State}
use ingress_bfe.ServerData.Update
use ingress_bfe.ServerData.Valid.{Valid, ValidState, update_ingress-Valid, delete_ingress-Valid}
use ingress_bfe.ServerData.Reload.{reload_server_data}
use ingress_bfe.Cluster.Update as Clusters
use ingress_bfe.Cluster.Reload.{reload_clusters}
use ingress_bfe.Cluster.Backed.{Backed, Backs, new_cluster_config-Backed}
use ingress_bfe.Cluster.Backed.Ingresses.{update_ingress-Backed, delete_ingress-Backed}
use ingress_bfe.Cluster.Backed.Services.{update_service-Backed, delete_service-Backed}
use ingress_bfe.Tls.Update as Certs
use ingress_bfe.Tls.Reload.{reload_tls}
use ingress_bfe.Tls.Valid.{
  IsValid, new_tls_config-IsValid, update_ingress-IsValid, update_secret-IsValid,
  delete_secret-IsValid,
}
use ingress_bfe.Tls.Sweep.{delete_ingress-IsValid}
use ingress_bfe.Builder.{
  ConfigBuilder, Environment, new_config_builder, after_tls, after_clusters, after_server_data,
  build_ingress, drop_ingress, with_clusters, build_service, remove_service, build_secret,
  remove_secret,
}
use ingress_bfe.Builder.Reload.{Files, reload, reload_first, reload_second, reload_third, continue}

-- One operation of the builder that returns, or one round of its timer.
pub data Step (x : External) : ConfigBuilder x → ConfigBuilder x → Type 0 where
  ingress_updated :
      (env : Environment) (ingress : Ingress) (balance : Balance) (services : Map Service)
      (endpoints : Map Endpoints) (secrets : List Secret) (c c' : ConfigBuilder x) (e : Error)
      → build_ingress x env ingress balance services endpoints secrets c ≡ some (c', e)
      → Step x c c'
  ingress_deleted :
      (env : Environment) (namespace name : Text) (c : ConfigBuilder x)
      → Step x c (drop_ingress x env namespace name c)
  service_updated :
      (env : Environment) (service : Service) (endpoint : Option Endpoints) (c c' : ConfigBuilder x)
      → build_service x env service endpoint c ≡ some c'
      → Step x c c'
  service_deleted :
      (env : Environment) (namespace name : Text) (c : ConfigBuilder x)
      → Step x c (remove_service x env namespace name c)
  secret_updated :
      (env : Environment) (secret : Secret) (c : ConfigBuilder x)
      → Step x c (build_secret x env secret c).0
  secret_deleted :
      (env : Environment) (namespace name : Text) (c : ConfigBuilder x)
      → Step x c (remove_secret x env namespace name c)
  reloaded : (f : Files) (c : ConfigBuilder x) → Step x c (reload x f c).0

-- The configurations after any sequence of steps, in any order.
pub data Reachable (x : External) : ConfigBuilder x → Type 0 where
  initial : Reachable x (new_config_builder x)
  next : (c c' : ConfigBuilder x) → Reachable x c → Step x c c' → Reachable x c'

module _ (x : External) where
  -- The invariants of the three parts.
  abbrev pub Sound : ConfigBuilder x → Type 0
  Sound c =
      Valid x c.server_data_conf.route_rule_cache × Backed x c.cluster_conf × IsValid x c.tls_conf

  abbrev SoundOutcome : Option (ConfigBuilder x × Error) → Type 0
  SoundOutcome none = Unit
  SoundOutcome (some (c, e)) = Sound c

  after_tls-Sound :
      (env : Environment) (ingress : Ingress) (server : State x) (clusters : Clusters.Clusters x)
      (r : Certs.Certs x × Error)
      → Valid x server.route_rule_cache
      → Backed x clusters
      → IsValid x r.0
      → Sound (after_tls x env ingress server clusters r).0
  after_tls-Sound env ingress server clusters (certs, none) v b t = (v, b, t)
  after_tls-Sound env ingress server clusters (certs, some e) v b t = (
    delete_ingress-Valid x env.route_version env.cluster_version env.default_backend server
        ingress.namespace ingress.name v,
    delete_ingress-Backed x env.table_version env.default_backend ingress.namespace ingress.name
        clusters b,
    t,
  )

  after_clusters-Sound :
      (env : Environment) (ingress : Ingress) (secrets : List Secret) (server : State x)
      (certs : Certs.Certs x) (o : Option (Clusters.Clusters x × Error))
      → Valid x server.route_rule_cache
      → ((c : Clusters.Clusters x) (e : Error) → o ≡ some (c, e) → Backed x c)
      → IsValid x certs
      → SoundOutcome (after_clusters x env ingress secrets server certs o)
  after_clusters-Sound env ingress secrets server certs none v k t = tt
  after_clusters-Sound env ingress secrets server certs (some (clusters, some e)) v k t = (
    delete_ingress-Valid x env.route_version env.cluster_version env.default_backend server
        ingress.namespace ingress.name v,
    k clusters (some e) refl,
    t,
  )
  after_clusters-Sound env ingress secrets server certs (some (clusters, none)) v k t =
      after_tls-Sound env ingress server clusters
        (Certs.update_ingress x env.tls_version ingress secrets certs) v (k clusters none refl)
        (update_ingress-IsValid x env.tls_version ingress secrets certs t)

  after_server_data-Sound :
      (env : Environment) (ingress : Ingress) (balance : Balance) (services : Map Service)
      (endpoints : Map Endpoints) (secrets : List Secret) (c : ConfigBuilder x)
      (o : Option (State x × Error))
      → Sound c
      → ValidState x o
      → SoundOutcome (after_server_data x env ingress balance services endpoints secrets c o)
  after_server_data-Sound env ingress balance services endpoints secrets c none (v, b, t) w = tt
  after_server_data-Sound env ingress balance services endpoints secrets c (some (server, some e))
        (v, b, t) w =
      (w, b, t)
  after_server_data-Sound env ingress balance services endpoints secrets c (some (server, none))
        (v, b, t) w =
      after_clusters-Sound env ingress secrets server c.tls_conf _ w
        (λ c' e h.
          update_ingress-Backed x env.table_version env.default_backend ingress balance services
            endpoints c.cluster_conf c' e b h)
        t

  with_clusters-Sound :
      (c c' : ConfigBuilder x) (o : Option (Clusters.Clusters x × Error))
      → Sound c
      → ((d : Clusters.Clusters x) (e : Error) → o ≡ some (d, e) → Backed x d)
      → with_clusters x c o ≡ some c'
      → Sound c'
  with_clusters-Sound c c' none s k h = absurd (ground (arith, h))
  with_clusters-Sound c c' (some (d, e)) (v, b, t) k h =
      let s : Sound (record c { cluster_conf = d }) = (v, k d e refl, t) in
      subst Sound (some_inj h) s

  -- A reload changes only the versions that BFE has.
  same_cache :
      (f : Files) (c : ConfigBuilder x)
      → (reload_first x f c).0.server_data_conf.route_rule_cache
        ≡ c.server_data_conf.route_rule_cache
  unfolding reload_server_data
  same_cache f c = ground arith

  same_table :
      (f : Files) (c : ConfigBuilder x)
      → ((reload_second x f c).0.cluster_conf.cluster_table_conf
          ≡ c.cluster_conf.cluster_table_conf)
        × ((reload_second x f c).0.cluster_conf.gslb_conf ≡ c.cluster_conf.gslb_conf)
  unfolding reload_clusters
  same_table f c = (ground arith, ground arith)

  same_certs :
      (f : Files) (c : ConfigBuilder x)
      → ((reload_third x f c).0.tls_conf.certs ≡ c.tls_conf.certs)
        × ((reload_third x f c).0.tls_conf.ingress2secret ≡ c.tls_conf.ingress2secret)
        × ((reload_third x f c).0.tls_conf.server_cert_conf ≡ c.tls_conf.server_cert_conf)
  unfolding reload_tls
  same_certs f c = (ground arith, ground arith, ground arith)

  reload_first-Sound : (f : Files) (c : ConfigBuilder x) → Sound c → Sound (reload_first x f c).0
  reload_first-Sound f c (v, b, t) = (subst (Valid x) (sym (same_cache f c)) v, b, t)

  reload_second-Sound : (f : Files) (c : ConfigBuilder x) → Sound c → Sound (reload_second x f c).0
  reload_second-Sound f c (v, b, t) =
      let (p, q) = same_table f c in
      (
        v,
        subst (λ g. Backs (reload_second x f c).0.cluster_conf.cluster_table_conf.config g)
            (sym (ap (λ (g : GslbConf). g.clusters) q))
            (subst (λ (m : ClusterTableConf). Backs m.config c.cluster_conf.gslb_conf.clusters)
              (sym p) b),
        t,
      )

  reload_third-Sound : (f : Files) (c : ConfigBuilder x) → Sound c → Sound (reload_third x f c).0
  reload_third-Sound f c (v, b, t) =
      let (p, q, r) = same_certs f c in (v, b, λ name. rw (p, q, r) (t name))

  continue-Sound :
      (r : ConfigBuilder x × Error) (rest : ConfigBuilder x → ConfigBuilder x × Error)
      → Sound r.0
      → ((c : ConfigBuilder x) → Sound c → Sound (rest c).0)
      → Sound (continue x r rest).0
  continue-Sound (c, some e) rest s k = s
  continue-Sound (c, none) rest s k = k c s

  -- Every step of the builder keeps the invariants of its three parts, whether it succeeds or fails.
  pub step-Sound : (c c' : ConfigBuilder x) → Sound c → Step x c c' → Sound c'
  unfolding build_ingress drop_ingress build_service remove_service build_secret remove_secret
      reload
  step-Sound c c' s (ingress_updated env ingress balance services endpoints secrets _ _ e h) =
      subst SoundOutcome h (
        after_server_data-Sound env ingress balance services endpoints secrets c _ s (
          update_ingress-Valid x env.addr env.route_version env.cluster_version env.default_backend
            c.server_data_conf ingress s.0))
  step-Sound c c' (v, b, t) (ingress_deleted env namespace name _) = (
    delete_ingress-Valid x env.route_version env.cluster_version env.default_backend
        c.server_data_conf namespace name v,
    delete_ingress-Backed x env.table_version env.default_backend namespace name c.cluster_conf b,
    delete_ingress-IsValid x env.tls_version namespace name c.tls_conf t,
  )
  step-Sound c c' (v, b, t) (service_updated env service endpoint _ _ h) =
      with_clusters-Sound c c' _ (v, b, t)
        (λ d e q.
          update_service-Backed x env.table_version env.default_backend service endpoint
            c.cluster_conf d e b q)
        h
  step-Sound c c' (v, b, t) (service_deleted env namespace name _) =
      (v, delete_service-Backed x env.table_version namespace name c.cluster_conf b, t)
  step-Sound c c' (v, b, t) (secret_updated env secret _) =
      (v, b, update_secret-IsValid x env.tls_version secret c.tls_conf t)
  step-Sound c c' (v, b, t) (secret_deleted env namespace name _) =
      (v, b, delete_secret-IsValid x env.tls_version namespace name c.tls_conf t)
  step-Sound c c' s (reloaded f _) =
      continue-Sound (reload_first x f c) _ (reload_first-Sound f c s) (λ d w.
        continue-Sound (reload_second x f d) (reload_third x f) (reload_second-Sound f d w)
          (reload_third-Sound f))

  -- In every reachable configuration the rule cache is valid, every weighted sub-cluster is backed by
  -- an entry of the cluster table, and every certificate is in use and listed under its paths.
  pub Reachable-Sound : (c : ConfigBuilder x) → Reachable x c → Sound c
  unfolding new_config_builder Update.new_server_data_config
  Reachable-Sound c initial = (
    new_route_rule_cache-IsValid x.rule_index,
    new_cluster_config-Backed x x.name_index.new (text "init"),
    new_tls_config-IsValid x (text "init"),
  )
  Reachable-Sound c (next b _ r s) = step-Sound b c (Reachable-Sound b r) s
