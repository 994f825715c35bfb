-- ===== src/Builder/Total.antt =====
-- When the builder applies an Ingress without a panic.
use ingress_bfe.Base.{
  ℕ, Text, Map, List, [], ◌∷◌, Option, none, some, Error, All, ◌≡◌, inl, inr, refl, arith,
  Bool-cases,
}
use ingress_bfe.Kube.{
  Ingress, IngressRule, HttpIngressPath, IngressServiceBackend, Service, Endpoints, Secret,
}
use ingress_bfe.Bfe.{External}
use ingress_bfe.Annotations.Balance.{Balance}
use ingress_bfe.RouteRule.Cache.{is_nil}
use ingress_bfe.ServerData.Conditions.{check_host, check_path}
use ingress_bfe.ServerData.Tables.{State}
use ingress_bfe.ServerData.Update
use ingress_bfe.Cluster.Update as Clusters
use ingress_bfe.Tls.Update as Certs
use ingress_bfe.Builder.{
  ConfigBuilder, Environment, after_clusters, after_server_data, build_ingress,
}

-- The path has a backend that is a service.
abbrev pub HasService : HttpIngressPath → Type 0
HasService p = (backend : IngressServiceBackend) × (p.backend.service ≡ some backend)

-- The rule has paths, each with such a backend.
abbrev pub CompleteRule : IngressRule → Type 0
CompleteRule rule = (paths : List HttpIngressPath) × (rule.http ≡ some paths) × All HasService paths

abbrev pub Complete : Ingress → Type 0
Complete ingress = All CompleteRule ingress.rules

-- There is no panic.
abbrev pub Returns {ℓ} : {A : Type ℓ} → Option A → Type 0
Returns none = ⊥
Returns (some a) = Unit

pub Returns-some {ℓ} : {A : Type ℓ} (o : Option A) → Returns o → (a : A) × (o ≡ some a)
Returns-some none h = absurd h
Returns-some (some a) h = (a, refl)

module _ (x : External) where
  proceed-Returns :
      (o : Update.Outcome x) (next : Update.Progress x → Update.Outcome x)
      → Returns o
      → ((s : Update.Progress x) → Returns (next s))
      → Returns (Update.proceed x o next)
  proceed-Returns none next h k = absurd h
  proceed-Returns (some (s, some e)) next h k = tt
  proceed-Returns (some (s, none)) next h k = k s

  add_rule-Returns :
      (ingress : Ingress) (host : Text) (p : HttpIngressPath) (s : Update.Progress x)
      → HasService p
      → Returns (Update.add_rule x ingress host p s)
  unfolding Update.add_rule
  add_rule-Returns ingress host p s (backend, e) =
      proceed-Returns (Update.checked x (check_host host) s) _ tt
        (λ s. proceed-Returns (Update.checked x (check_path p.path) s) _ tt (λ s. rw e tt))

  add_paths-Returns :
      (ingress : Ingress) (host : Text) (paths : List HttpIngressPath) (s : Update.Progress x)
      → All HasService paths
      → Returns (Update.add_paths x ingress host paths s)
  unfolding Update.add_paths
  add_paths-Returns ingress host [] s h = tt
  add_paths-Returns ingress host (p ∷ paths) s (h, hs) =
      proceed-Returns (Update.add_rule x ingress host p s) _ (add_rule-Returns ingress host p s h)
        (λ s. add_paths-Returns ingress host paths s hs)

  add_rules-Returns :
      (ingress : Ingress) (rules : List IngressRule) (s : Update.Progress x)
      → All CompleteRule rules
      → Returns (Update.add_rules x ingress rules s)
  unfolding Update.add_rules
  add_rules-Returns ingress [] s h = tt
  add_rules-Returns ingress (rule ∷ rules) s ((paths, e, h), hs) =
      proceed-Returns (Update.add_paths x ingress rule.host (Update.paths_of_rule x rule) s) _
        (rw e (add_paths-Returns ingress rule.host paths s h))
        (λ s. add_rules-Returns ingress rules s hs)

  after_cache-Returns :
      (version1 version2 default_backend ingress_name : Text) (c : State x) (o : Update.Outcome x)
      → Returns o
      → Returns (Update.after_cache x version1 version2 default_backend ingress_name c o)
  after_cache-Returns version1 version2 default_backend ingress_name c none h = absurd h
  after_cache-Returns version1 version2 default_backend ingress_name c (some ((_, cache), some e))
        h =
      tt
  after_cache-Returns version1 version2 default_backend ingress_name c (some ((_, cache), none)) h =
      tt

  update_server_data-Returns :
      (addr : ℕ) (version1 version2 default_backend : Text) (c : State x) (ingress : Ingress)
      → Complete ingress
      → Returns (Update.update_ingress x addr version1 version2 default_backend c ingress)
  unfolding Update.update_ingress Update.update_cache
  update_server_data-Returns addr version1 version2 default_backend c ingress h =
      elim (Bool-cases (is_nil ingress.rules)) [
        | inl e ↦ rw e tt
        | inr e ↦ rw e (
            after_cache-Returns version1 version2 default_backend _ c _
              (add_rules-Returns ingress ingress.rules _ h))
      ]

  put_clusters-Returns :
      (ingress : Ingress) (balance : Balance) (services : Map Service) (endpoints : Map Endpoints)
      (paths : List HttpIngressPath) (c : Clusters.Clusters x)
      → All HasService paths
      → Returns (Clusters.put_clusters x ingress balance services endpoints paths c)
  unfolding Clusters.put_clusters Clusters.put_cluster
  put_clusters-Returns ingress balance services endpoints [] c h = tt
  put_clusters-Returns ingress balance services endpoints (p ∷ paths) c ((backend, e), hs) =
      rw e (put_clusters-Returns ingress balance services endpoints paths _ hs)

  put_all_clusters-Returns :
      (ingress : Ingress) (balance : Balance) (services : Map Service) (endpoints : Map Endpoints)
      (rules : List IngressRule) (c : Clusters.Clusters x)
      → All CompleteRule rules
      → Returns (Clusters.put_all_clusters x ingress balance services endpoints rules c)
  unfolding Clusters.put_all_clusters
  put_all_clusters-Returns ingress balance services endpoints [] c h = tt
  put_all_clusters-Returns ingress balance services endpoints (rule ∷ rules) c ((paths, e, h), hs) =
      let (c', q) =
        Returns-some _ (put_clusters-Returns ingress balance services endpoints paths c h) in
      rw (e, q) (put_all_clusters-Returns ingress balance services endpoints rules c' hs)

  after_clusters-Returns :
      (env : Environment) (ingress : Ingress) (secrets : List Secret) (server : State x)
      (certs : Certs.Certs x) (o : Option (Clusters.Clusters x × Error))
      → Returns o
      → Returns (after_clusters x env ingress secrets server certs o)
  after_clusters-Returns env ingress secrets server certs none h = absurd h
  after_clusters-Returns env ingress secrets server certs (some (clusters, some e)) h = tt
  after_clusters-Returns env ingress secrets server certs (some (clusters, none)) h = tt

  update_clusters-Returns :
      (version default_backend : Text) (ingress : Ingress) (balance : Balance)
      (services : Map Service) (endpoints : Map Endpoints) (c : Clusters.Clusters x)
      → Complete ingress
      → Returns
          (Clusters.update_ingress x version default_backend ingress balance services endpoints c)
  unfolding Clusters.update_ingress
  update_clusters-Returns version default_backend ingress balance services endpoints c h =
      let (c', e) =
        Returns-some _
          (put_all_clusters-Returns ingress balance services endpoints ingress.rules c h) in
      ground (arith, e)

  after_server_data-Returns :
      (env : Environment) (ingress : Ingress) (balance : Balance) (services : Map Service)
      (endpoints : Map Endpoints) (secrets : List Secret) (c : ConfigBuilder x)
      (o : Option (State x × Error))
      → Complete ingress
      → Returns o
      → Returns (after_server_data x env ingress balance services endpoints secrets c o)
  after_server_data-Returns env ingress balance services endpoints secrets c none h r = absurd r
  after_server_data-Returns env ingress balance services endpoints secrets c (some (server, some e))
        h r =
      tt
  after_server_data-Returns env ingress balance services endpoints secrets c (some (server, none)) h
        r =
      after_clusters-Returns env ingress secrets server c.tls_conf _ (
        update_clusters-Returns env.table_version env.default_backend ingress balance services
          endpoints c.cluster_conf h)

  -- `UpdateIngress` of the builder returns, for any balance, services, endpoints and secrets, when
  -- each rule of the Ingress has paths and each path has a service.
  pub build_ingress-Returns :
      (env : Environment) (ingress : Ingress) (balance : Balance) (services : Map Service)
      (endpoints : Map Endpoints) (secrets : List Secret) (c : ConfigBuilder x)
      → Complete ingress
      → Returns (build_ingress x env ingress balance services endpoints secrets c)
  unfolding build_ingress
  build_ingress-Returns env ingress balance services endpoints secrets c h =
      after_server_data-Returns env ingress balance services endpoints secrets c _ h (
        update_server_data-Returns env.addr env.route_version env.cluster_version
          env.default_backend c.server_data_conf ingress h)
