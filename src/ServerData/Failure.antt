-- ===== src/ServerData/Failure.antt =====
-- What `UpdateIngress` leaves behind when it fails.
use ingress_bfe.Base.{
  ℕ, Text, false, In, Option, none, some, Error, Bool-cases, ◌≡◌, ◌≢◌, refl, arith, subst, inl, inr,
}
use ingress_bfe.Kube.{Ingress}
use ingress_bfe.Bfe.{External}
use ingress_bfe.RouteRule.{HttpRule}
use ingress_bfe.RouteRule.Cache.{rules_at, is_nil, delete, contains_ingress}
use ingress_bfe.RouteRule.Cache.Delete.{In_of_del_rule, rules_at-delete, contains_ingress-delete}
use ingress_bfe.ServerData.Tables.{State, update_route_table}
use ingress_bfe.ServerData.Update.{
  Cache, Outcome, settle, after_cache, cleared, update_cache, update_ingress, delete_ingress,
}
use ingress_bfe.ServerData.Valid.{Valid, ValidOutcome, update_cache-Valid, cleared-Valid}

-- No rule of the ingress is left at any host and path, the index does not know it, and the tables
-- and versions are the old ones.
pub record RolledBack (x : External) (name : Text) (old new : State x) : Type 0 where
  pub no_rules :
      (h p : Text) (r : HttpRule)
      → In r (rules_at new.route_rule_cache.rule_map h p)
      → r.ingress ≢ name
  pub unknown : contains_ingress x.rule_index new.route_rule_cache name ≡ false
  pub same_routes : new.route_table_file ≡ old.route_table_file
  pub same_clusters : new.bfe_cluster_conf ≡ old.bfe_cluster_conf
  pub same_hosts : new.host_table_conf ≡ old.host_table_conf

module _ (x : External) where
  no_rules-delete :
      (c : Cache x) (name : Text)
      → Valid x c
      → (h p : Text) (r : HttpRule) → In r (rules_at (delete x.rule_index c name).rule_map h p)
      → r.ingress ≢ name
  no_rules-delete c name v h p r i =
      (In_of_del_rule r (rules_at c.rule_map h p) name
        (subst (In r) (rules_at-delete x.rule_index c name v h p) i)).1

  -- The state with the given cache, less the rules of the ingress.
  RolledBack-delete :
      (old c : State x) (name : Text)
      → Valid x c.route_rule_cache
      → c.route_table_file ≡ old.route_table_file
      → c.bfe_cluster_conf ≡ old.bfe_cluster_conf
      → c.host_table_conf ≡ old.host_table_conf
      → RolledBack x name old
          (record c { route_rule_cache = delete x.rule_index c.route_rule_cache name })
  RolledBack-delete old c name v a b d = record {
    no_rules = no_rules-delete c.route_rule_cache name v;
    unknown = contains_ingress-delete x.rule_index c.route_rule_cache name;
    same_routes = a;
    same_clusters = b;
    same_hosts = d;
  }

  -- A route table that is refused is not taken over.
  refused_table :
      (version default_backend : Text) (c : State x) (e : Text)
      → (update_route_table x version default_backend c).1 ≡ some e
      → (update_route_table x version default_backend c).0 ≡ c
  unfolding update_route_table
  refused_table version default_backend c e h = ground arith

  -- What an outcome with an error says of the state.
  abbrev IfError : Text → State x → Option (State x × Error) → Type 0
  IfError name old none = Unit
  IfError name old (some (c, none)) = Unit
  IfError name old (some (c, some e)) = RolledBack x name old c

  settle-IfError :
      (version default_backend name : Text) (old : State x) (r : State x × Error)
      → ((e : Text)
          → r.1 ≡ some e
          → Valid x r.0.route_rule_cache
            × (r.0.route_table_file ≡ old.route_table_file)
            × (r.0.bfe_cluster_conf ≡ old.bfe_cluster_conf)
            × (r.0.host_table_conf ≡ old.host_table_conf))
      → IfError name old (some (settle x version default_backend name r))
  settle-IfError version default_backend name old (c, none) k = tt
  settle-IfError version default_backend name old (c, some e) k =
      let (v, a, b, d) = k e refl in RolledBack-delete old c name v a b d

  after_cache-IfError :
      (v1 v2 d name : Text) (c : State x) (o : Outcome x)
      → ValidOutcome x o
      → IfError name c (after_cache x v1 v2 d name c o)
  after_cache-IfError v1 v2 d name c none v = tt
  after_cache-IfError v1 v2 d name c (some ((_, cache), some e)) v =
      RolledBack-delete c (record c { route_rule_cache = cache }) name v refl refl refl
  after_cache-IfError v1 v2 d name c (some ((_, cache), none)) v =
      settle-IfError v2 d name c (update_route_table x v1 d added)
        (λ e h. let q = refused_table v1 d added e h in (rw q v, rw q refl, rw q refl, rw q refl))
    where
      added : State x
      added = record c { route_rule_cache = cache }

  update_ingress-IfError :
      (addr : ℕ) (v1 v2 d : Text) (c : State x) (ingress : Ingress)
      → Valid x c.route_rule_cache
      → IfError
          (x.namespaced_name ingress.namespace ingress.name)
          c
          (update_ingress x addr v1 v2 d c ingress)
  unfolding update_ingress
  update_ingress-IfError addr v1 v2 d c ingress v = elim (Bool-cases (is_nil ingress.rules)) [
    | inl e ↦ rw e tt
    | inr e ↦
        let name = x.namespaced_name ingress.namespace ingress.name in
        let before = cleared x name c.route_rule_cache in
        rw e (
          after_cache-IfError v1 v2 d name c (update_cache x addr ingress before)
            (update_cache-Valid x addr ingress before (cleared-Valid x name c.route_rule_cache v)))
  ]

  -- When `UpdateIngress` fails on a valid cache, no rule of the ingress is left in the cache, not
  -- even one that an earlier update put there, the index does not know it any more, and the route
  -- table, the cluster parameters and the host table are the ones from before.
  pub update_ingress-RolledBack :
      (addr : ℕ) (version1 version2 default_backend : Text) (c c' : State x) (ingress : Ingress)
      (e : Text)
      → Valid x c.route_rule_cache
      → update_ingress x addr version1 version2 default_backend c ingress ≡ some (c', some e)
      → RolledBack x (x.namespaced_name ingress.namespace ingress.name) c c'
  update_ingress-RolledBack addr v1 v2 d c c' ingress e v h =
      subst (IfError (x.namespaced_name ingress.namespace ingress.name) c) h
        (update_ingress-IfError addr v1 v2 d c ingress v)

  -- After an `UpdateIngress` that failed on a valid cache, `DeleteIngress` of the same ingress keeps
  -- the route table of before the update, with the old rules of the ingress.
  pub delete_ingress-after_failure :
      (addr : ℕ) (version1 version2 version3 version4 default_backend : Text) (c c' : State x)
      (ingress : Ingress) (e : Text)
      → Valid x c.route_rule_cache
      → update_ingress x addr version1 version2 default_backend c ingress ≡ some (c', some e)
      → (delete_ingress x version3 version4 default_backend c' ingress.namespace
          ingress.name).route_table_file
        ≡ c.route_table_file
  unfolding delete_ingress
  delete_ingress-after_failure addr v1 v2 v3 v4 d c c' ingress e v h =
      let b = update_ingress-RolledBack addr v1 v2 d c c' ingress e v h in
      rw b.unknown b.same_routes
