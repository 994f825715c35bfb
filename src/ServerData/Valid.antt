-- ===== src/ServerData/Valid.antt =====
-- Every operation on the routes keeps the invariant of the rule cache.
use ingress_bfe.Base.{
  ℕ, Text, List, [], ◌∷◌, Option, none, some, Error, Bool-cases, ◌≡◌, arith, inl, inr,
}
use ingress_bfe.Kube.{Ingress, IngressRule, HttpIngressPath, IngressServiceBackend}
use ingress_bfe.Bfe.{External}
use ingress_bfe.RouteRule.Cache.{is_nil, contains_ingress}
use ingress_bfe.RouteRule.Cache.Invariant.{IsValid, put-IsValid}
use ingress_bfe.RouteRule.Cache.Delete.{delete-IsValid}
use ingress_bfe.ServerData.Conditions.{check_host, check_path}
use ingress_bfe.ServerData.Tables.{State, update_route_table, update_bfe_cluster_conf}
use ingress_bfe.ServerData.Update.{
  Cache, Progress, Outcome, proceed, checked, put_path, add_rule, add_paths, paths_of_rule,
  add_rules, update_cache, settle, after_cache, cleared, update_ingress, delete_ingress,
}

module _ (x : External) where
  abbrev pub Valid : Cache x → Type 0
  Valid c = IsValid x.rule_index c

  -- The cache of an outcome is valid, if the call returns.
  abbrev pub ValidOutcome : Outcome x → Type 0
  ValidOutcome none = Unit
  ValidOutcome (some ((_, c), _)) = Valid c

  abbrev Keeps : (Progress x → Outcome x) → Type 0
  Keeps step = (s : Progress x) → Valid s.1 → ValidOutcome (step s)

  proceed-Keeps :
      (o : Outcome x) (next : Progress x → Outcome x)
      → ValidOutcome o
      → Keeps next
      → ValidOutcome (proceed x o next)
  proceed-Keeps none next v k = tt
  proceed-Keeps (some (s, some e)) next v k = v
  proceed-Keeps (some (s, none)) next v k = k s v

  put_path-Keeps :
      (ingress : Ingress) (host : Text) (p : HttpIngressPath) (b : Option IngressServiceBackend)
      → Keeps (put_path x ingress host p b)
  put_path-Keeps ingress host p none s v = tt
  put_path-Keeps ingress host p (some b) (addr, c) v = put-IsValid x.rule_index c _ v

  add_rule-Keeps :
      (ingress : Ingress) (host : Text) (p : HttpIngressPath) → Keeps (add_rule x ingress host p)
  unfolding add_rule
  add_rule-Keeps ingress host p s v = proceed-Keeps (checked x (check_host host) s) _ v (λ s v.
      proceed-Keeps (checked x (check_path p.path) s) _ v
        (put_path-Keeps ingress host p p.backend.service))

  add_paths-Keeps :
      (ingress : Ingress) (host : Text) (paths : List HttpIngressPath)
      → Keeps (add_paths x ingress host paths)
  unfolding add_paths
  add_paths-Keeps ingress host [] s v = v
  add_paths-Keeps ingress host (p ∷ paths) s v =
      proceed-Keeps (add_rule x ingress host p s) _ (add_rule-Keeps ingress host p s v)
        (add_paths-Keeps ingress host paths)

  add_rules-Keeps :
      (ingress : Ingress) (rules : List IngressRule) → Keeps (add_rules x ingress rules)
  unfolding add_rules
  add_rules-Keeps ingress [] s v = v
  add_rules-Keeps ingress (rule ∷ rules) s v =
      proceed-Keeps (add_paths x ingress rule.host (paths_of_rule x rule) s) _
        (add_paths-Keeps ingress rule.host (paths_of_rule x rule) s v)
        (add_rules-Keeps ingress rules)

  pub update_cache-Valid :
      (addr : ℕ) (ingress : Ingress) (c : Cache x)
      → Valid c
      → ValidOutcome (update_cache x addr ingress c)
  unfolding update_cache
  update_cache-Valid addr ingress c v = add_rules-Keeps ingress ingress.rules (addr, c) v

  pub cleared-Valid : (name : Text) (c : Cache x) → Valid c → Valid (cleared x name c)
  cleared-Valid name c v = elim (Bool-cases (contains_ingress x.rule_index c name)) [
    | inl e ↦ rw e (delete-IsValid x.rule_index c name v)
    | inr e ↦ rw e v
  ]

  -- Neither table changes the cache.
  pub cache-update_route_table :
      (version default_backend : Text) (c : State x)
      → (update_route_table x version default_backend c).0.route_rule_cache ≡ c.route_rule_cache
  unfolding update_route_table
  cache-update_route_table version default_backend c = ground arith

  abbrev pub ValidState : Option (State x × Error) → Type 0
  ValidState none = Unit
  ValidState (some (c, _)) = Valid c.route_rule_cache

  settle-Valid :
      (version default_backend name : Text) (r : State x × Error)
      → Valid r.0.route_rule_cache
      → Valid (settle x version default_backend name r).0.route_rule_cache
  unfolding update_bfe_cluster_conf
  settle-Valid version default_backend name (c, some e) v =
      delete-IsValid x.rule_index c.route_rule_cache name v
  settle-Valid version default_backend name (c, none) v = v

  after_cache-Valid :
      (version1 version2 default_backend name : Text) (c : State x) (o : Outcome x)
      → ValidOutcome o
      → ValidState (after_cache x version1 version2 default_backend name c o)
  after_cache-Valid v1 v2 d name c none v = tt
  after_cache-Valid v1 v2 d name c (some ((_, cache), some e)) v =
      delete-IsValid x.rule_index cache name v
  after_cache-Valid v1 v2 d name c (some ((_, cache), none)) v =
      settle-Valid v2 d name _ (rw cache-update_route_table v)

  -- `UpdateIngress` keeps the cache valid, whether it succeeds or fails.
  pub update_ingress-Valid :
      (addr : ℕ) (version1 version2 default_backend : Text) (c : State x) (ingress : Ingress)
      → Valid c.route_rule_cache
      → ValidState (update_ingress x addr version1 version2 default_backend c ingress)
  unfolding update_ingress
  update_ingress-Valid addr v1 v2 d c ingress v = elim (Bool-cases (is_nil ingress.rules)) [
    | inl e ↦ rw e v
    | inr e ↦
        let name = x.namespaced_name ingress.namespace ingress.name in
        rw e (
          after_cache-Valid v1 v2 d name c
            (update_cache x addr ingress (cleared x name c.route_rule_cache))
            (update_cache-Valid addr ingress (cleared x name c.route_rule_cache)
              (cleared-Valid name c.route_rule_cache v)))
  ]

  -- `DeleteIngress` keeps the cache valid.
  pub delete_ingress-Valid :
      (version1 version2 default_backend : Text) (c : State x) (namespace name : Text)
      → Valid c.route_rule_cache
      → Valid (delete_ingress x version1 version2 default_backend c namespace name).route_rule_cache
  unfolding delete_ingress update_bfe_cluster_conf
  delete_ingress-Valid v1 v2 d c namespace name v =
      let ingress_name = x.namespaced_name namespace name in
      elim (Bool-cases (contains_ingress x.rule_index c.route_rule_cache ingress_name)) [
        | inl e ↦ rw e (
            rw cache-update_route_table
              (delete-IsValid x.rule_index c.route_rule_cache ingress_name v))
        | inr e ↦ rw e v
      ]
