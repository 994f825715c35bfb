-- ===== src/Reconcile/Gone.antt =====
-- What is left of an Ingress that the controller deletes or cannot apply: no rule, no entry of an
-- index, no certificate that only it used.
use ingress_bfe.Base.{
  Text, text_eq_iff, lookup, lookup-remove, Map, remove, List, [], ◌∷◌, Bool-cases, true, false,
  not, ◌&&◌, is_empty, none, some, In, ◌≡◌, ◌≢◌, ◌⊎◌, inl, inr, subst, arith,
}
use ingress_bfe.Kube.{Ingress}
use ingress_bfe.Bfe.{External}
use ingress_bfe.RouteRule.{HttpRule}
use ingress_bfe.RouteRule.Cache.{rules_at, contains_ingress}
use ingress_bfe.Cluster.Backed.{contains}
use ingress_bfe.Cluster.Update as Clusters
use ingress_bfe.Names.{default_cluster_name}
use ingress_bfe.Builder.{ConfigBuilder, Environment, drop_ingress}
use ingress_bfe.Builder.Sound.{Sound, Reachable, Reachable-Sound}
use ingress_bfe.Reconcile.Reading.{Client}
use ingress_bfe.Reconcile.{reconcile_v1_ingress}
use ingress_bfe.Reconcile.Forgotten.{
  Forgotten, drop_ingress-Forgotten, reconcile_v1_ingress-Forgotten,
}
use ingress_bfe.Reconcile.Reached.{Outcome, dropped, reconcile_v1_ingress-Outcome}

module _ (x : External) where
  open x use {namespaced_name, rule_index, name_index}

  pub record Gone (name : Text) (c : ConfigBuilder x) : Type 0 where
    -- no rule of the cache, at any place
    pub rules :
        (host path : Text) (r : HttpRule)
        → In r (rules_at c.server_data_conf.route_rule_cache.rule_map host path)
        → r.ingress ≢ name
    pub clusters : (n : Text) → ¬ In n (name_index.get c.cluster_conf.ingress2cluster name)
    -- each certificate is there for another Ingress
    pub certs :
        (n : Text)
        → contains n c.tls_conf.certs ≡ true
        → (other : Text) × (other ≢ name) × In n (name_index.get c.tls_conf.ingress2secret other)

  not_indexed :
      (m : name_index.Carrier) (k v : Text)
      → name_index.contains_key m k ≡ false
      → ¬ In v (name_index.get m k)
  not_indexed m k v e i = absurd (ground (arith, e, (name_index.contains_key_iff m k).1 (v, i)))

  Gone-Forgotten :
      (name : Text) (c : ConfigBuilder x) → Sound x c → Forgotten x name c → Gone name c
  unfolding contains_ingress
  Gone-Forgotten name c (valid, backed, certs) (f, g, h) = record {
    rules = λ host path r i e.
        let j =
          subst (λ k. In r (rule_index.get c.server_data_conf.route_rule_cache.ingress2rule k)) e
            (valid.tracked host path r i) in
        absurd (
          ground (
            arith,
            f,
            (rule_index.contains_key_iff c.server_data_conf.route_rule_cache.ingress2rule name).1
                (r, j),
          ));
    clusters = λ n. not_indexed c.cluster_conf.ingress2cluster name n g;
    certs = λ n e.
        let ((other, i), l) = certs n e in
        (
          other,
          (λ q.
              not_indexed c.tls_conf.ingress2secret name n h
                (subst (λ k. In n (name_index.get c.tls_conf.ingress2secret k)) q i)),
          i,
        );
  }

  -- Neither table has the cluster.
  abbrev pub NoCluster : Text → Clusters.Clusters x → Type 0
  NoCluster n c =
      (lookup n c.gslb_conf.clusters ≡ none) × (lookup n c.cluster_table_conf.config ≡ none)

  removed {ℓ} :
      {V : Type ℓ} (k n : Text) (m : Map V)
      → ((k ≡ n) ⊎ (lookup n m ≡ none))
      → lookup n (remove k m) ≡ none
  removed k n m (inl e) = ground (arith, e, text_eq_iff k n, lookup-remove k n m)
  removed k n m (inr e) = ground (arith, e, lookup-remove k n m)

  drop_clusters-NoCluster :
      (names : List Text) (n : Text) (c : Clusters.Clusters x)
      → In n names ⊎ NoCluster n c
      → NoCluster n (Clusters.drop_clusters x names c)
  unfolding Clusters.drop_clusters
  drop_clusters-NoCluster [] n c (inl i) = absurd i
  drop_clusters-NoCluster [] n c (inr h) = h
  drop_clusters-NoCluster (k ∷ names) n c (inl (inl e)) =
      drop_clusters-NoCluster names n _ (inr (removed k n _ (inl e), removed k n _ (inl e)))
  drop_clusters-NoCluster (k ∷ names) n c (inl (inr i)) = drop_clusters-NoCluster names n _ (inl i)
  drop_clusters-NoCluster (k ∷ names) n c (inr h) =
      drop_clusters-NoCluster names n _ (inr (removed k n _ (inr h.0), removed k n _ (inr h.1)))

  delete_ingress-NoCluster :
      (version default_backend namespace name n : Text) (c : Clusters.Clusters x)
      → In n (name_index.get c.ingress2cluster (namespaced_name namespace name))
      → NoCluster n (Clusters.delete_ingress x version default_backend namespace name c)
  unfolding Clusters.delete_ingress Clusters.set_version Clusters.del_default_backend
  delete_ingress-NoCluster version default_backend namespace name n c i =
      let k = namespaced_name namespace name in
      let dropped = Clusters.drop_clusters x (name_index.get c.ingress2cluster k) c in
      let h = drop_clusters-NoCluster (name_index.get c.ingress2cluster k) n c (inl i) in
      let known = (name_index.contains_key_iff c.ingress2cluster k).1 (n, i) in
      elim (Bool-cases (
        not (is_empty default_backend)
        && name_index.empty (name_index.remove_all dropped.ingress2cluster k))) [
          | inl e ↦
              rw (known, e)
                (
                  removed (default_cluster_name default_backend) n _ (inr h.0),
                  removed (default_cluster_name default_backend) n _ (inr h.1),
                )
          | inr e ↦ rw (known, e) h
        ]

  -- `DeleteIngress` of the builder leaves no rule of the Ingress in the cache, no cluster indexed for
  -- it, no certificate that no other Ingress uses, and neither the weights nor the instances of any
  -- cluster that was indexed for it.
  pub drop_ingress-Gone :
      (env : Environment) (namespace name : Text) (c : ConfigBuilder x)
      → Reachable x c
      → Gone (namespaced_name namespace name) (drop_ingress x env namespace name c)
        × ((n : Text)
            → In n (name_index.get c.cluster_conf.ingress2cluster (namespaced_name namespace name))
            → NoCluster n (drop_ingress x env namespace name c).cluster_conf)
  unfolding drop_ingress
  drop_ingress-Gone env namespace name c h = (
    Gone-Forgotten (namespaced_name namespace name) (drop_ingress x env namespace name c)
        (Reachable-Sound x _ (dropped x env namespace name c h))
        (drop_ingress-Forgotten x env namespace name c),
    λ n.
        delete_ingress-NoCluster env.table_version env.default_backend namespace name n
          c.cluster_conf,
  )

  -- When `ReconcileV1Ingress` returns an error, whether of the backends, of the secrets or of the
  -- builder, the cache has no rule of the Ingress, no cluster is indexed for it, and every certificate
  -- is used by another Ingress.
  pub reconcile_v1_ingress-Gone :
      (r : Client) (env : Environment) (c c' : ConfigBuilder x) (ingress : Ingress) (e : Text)
      → Reachable x c
      → reconcile_v1_ingress x r env c ingress ≡ some (c', some e)
      → Gone (namespaced_name ingress.namespace ingress.name) c'
  reconcile_v1_ingress-Gone r env c c' ingress e h q =
      Gone-Forgotten (namespaced_name ingress.namespace ingress.name) c'
        (Reachable-Sound x c'
          (subst (Outcome x) q (reconcile_v1_ingress-Outcome x r env ingress c h)))
        (reconcile_v1_ingress-Forgotten x r env c c' ingress e q)
