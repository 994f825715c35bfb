-- ===== src/ServerData/Params.antt =====
-- What the loops of `updateBfeClusterConf` write into the cluster parameters.
use ingress_bfe.Base.{
  Text, text_eq, text_eq_iff, Map, lookup, insert, lookup-insert, true, List, [], ◌∷◌, In, none,
  Bool-cases, ◌≡◌, ◌≢◌, arith, subst, sym, inl, inr, ◌⊎◌,
}
use ingress_bfe.Bfe.{External, ClusterConf, BfeClusterConf}
use ingress_bfe.RouteRule.{HttpRule}
use ingress_bfe.RouteRule.Cache.{Collected}
use ingress_bfe.Names.{default_cluster_name}
use ingress_bfe.ServerData.Tables.{
  has_default, new_cluster_conf, add_basic_clusters, add_advanced_clusters, cluster_params,
}

-- `cluster` has parameters.
abbrev pub HasParams : BfeClusterConf → Text → Type 0
HasParams conf cluster = lookup cluster conf.config ≢ none

insert_keeps :
    (j k : Text) (v : ClusterConf) (m : Map ClusterConf)
    → lookup k m ≢ none
    → lookup k (insert j v m) ≢ none
insert_keeps j k v m h = λ q. ground (arith, lookup-insert j k v m)

insert_has : (k : Text) (v : ClusterConf) (m : Map ClusterConf) → lookup k (insert k v m) ≢ none
insert_has k v m = λ q. ground (arith, lookup-insert k k v m, text_eq_iff k k)

module _ (x : External) where
  kept_basic :
      (rules : List HttpRule) (config : Map ClusterConf) (k : Text)
      → lookup k config ≢ none
      → lookup k (add_basic_clusters x rules config) ≢ none
  unfolding add_basic_clusters
  kept_basic [] config k h = h
  kept_basic (r ∷ rules) config k h =
      kept_basic rules _ k
        (λ q. ground (arith, insert_keeps r.cluster k (new_cluster_conf x) config h))

  has_basic :
      (rules : List HttpRule) (config : Map ClusterConf) (r : HttpRule)
      → In r rules
      → r.cluster ≢ x.advanced_mode
      → lookup r.cluster (add_basic_clusters x rules config) ≢ none
  unfolding add_basic_clusters
  has_basic [] config r i n = absurd i
  has_basic (s ∷ rules) config r (inl e) n = kept_basic rules _ r.cluster (λ q. ground (
    arith,
    text_eq_iff s.cluster x.advanced_mode,
    insert_has r.cluster (new_cluster_conf x) config,
  ))
  has_basic (s ∷ rules) config r (inr i) n = has_basic rules _ r i n

  kept_advanced :
      (rules : List HttpRule) (config : Map ClusterConf) (k : Text)
      → lookup k config ≢ none
      → lookup k (add_advanced_clusters x rules config) ≢ none
  unfolding add_advanced_clusters
  kept_advanced [] config k h = h
  kept_advanced (r ∷ rules) config k h =
      kept_advanced rules _ k (insert_keeps r.cluster k (new_cluster_conf x) config h)

  has_advanced :
      (rules : List HttpRule) (config : Map ClusterConf) (r : HttpRule)
      → In r rules
      → lookup r.cluster (add_advanced_clusters x rules config) ≢ none
  unfolding add_advanced_clusters
  has_advanced [] config r i = absurd i
  has_advanced (s ∷ rules) config r (inl e) = kept_advanced rules _ r.cluster (
      subst (λ t. lookup r.cluster (insert t.cluster (new_cluster_conf x) config) ≢ none) (sym e)
        (insert_has r.cluster (new_cluster_conf x) config))
  has_advanced (s ∷ rules) config r (inr i) = has_advanced rules _ r i

  -- The parameters of the collected rules, before the default cluster.
  params : Collected → Map ClusterConf
  params (basic, advanced) = add_advanced_clusters x advanced (add_basic_clusters x basic [])

  params-cluster_params :
      (v d : Text) (acc : Collected) (k : Text)
      → lookup k (params acc) ≢ none
      → HasParams (cluster_params x v d acc) k
  unfolding cluster_params params
  params-cluster_params v d (basic, advanced) k h =
      elim (Bool-cases (has_default d (basic, advanced))) [
        | inl e ↦ rw e (insert_keeps (default_cluster_name d) k (new_cluster_conf x) _ h)
        | inr e ↦ rw e h
      ]

  pub basic_cluster :
      (v d : Text) (acc : Collected) (r : HttpRule)
      → In r acc.0
      → (r.cluster ≡ x.advanced_mode) ⊎ HasParams (cluster_params x v d acc) r.cluster
  basic_cluster v d (basic, advanced) r i = elim (Bool-cases (text_eq r.cluster x.advanced_mode)) [
    | inl e ↦ inl ((text_eq_iff r.cluster x.advanced_mode).0 e)
    | inr e ↦ inr (
        params-cluster_params v d (basic, advanced) r.cluster
          (unfold params in
            kept_advanced advanced (add_basic_clusters x basic []) r.cluster (
              has_basic basic [] r i (λ q. ground (arith, text_eq_iff r.cluster x.advanced_mode)))))
  ]

  pub advanced_cluster :
      (v d : Text) (acc : Collected) (r : HttpRule)
      → In r acc.1
      → HasParams (cluster_params x v d acc) r.cluster
  unfolding params
  advanced_cluster v d (basic, advanced) r i =
      params-cluster_params v d (basic, advanced) r.cluster
        (has_advanced advanced (add_basic_clusters x basic []) r i)

  pub default_cluster :
      (v d : Text) (acc : Collected)
      → has_default d acc ≡ true
      → HasParams (cluster_params x v d acc) (default_cluster_name d)
  unfolding cluster_params
  default_cluster v d (basic, advanced) e =
      rw e (insert_has (default_cluster_name d) (new_cluster_conf x) _)
