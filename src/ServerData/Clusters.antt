-- ===== src/ServerData/Clusters.antt =====
-- Every cluster that the routes name has parameters.
use mathlib.Core.Path.{subst₂}
use ingress_bfe.Base.{
  ℕ, Text, text, text_eq, text_eq, All-In, lookup, Bool, true, false, if◌then◌else◌, In, All, none,
  some, Result, Result-cases, ok, err, ◌≡◌, refl, arith, subst, inl, inr, ◌⊎◌,
}
use ingress_bfe.Bfe.{
  External, BasicRouteRuleFile, AdvancedRouteRuleFile, RouteTableFile, BfeClusterConf,
}
use ingress_bfe.RouteRule.Cache.{Collected, get, is_nil}
use ingress_bfe.Names.{default_cluster_name}
use ingress_bfe.ServerData.{new_route_table_conf_file}
use ingress_bfe.ServerData.Tables.{
  basic_file, add_basic, add_product, add_advanced, has_default, route_table, cluster_params,
}
use ingress_bfe.ServerData.Entries.{
  entries, basic_entries, advanced_entries, entries-append_to, All-snoc, All-add_basic,
  basic-add_advanced, All-add_advanced, advanced-add_basic, ok_inj,
}
use ingress_bfe.ServerData.Params.{HasParams, basic_cluster, advanced_cluster, default_cluster}
use ingress_bfe.ServerData.Tables.{State, install, update_route_table, update_bfe_cluster_conf}
use ingress_bfe.ServerData.Update.{
  Outcome, after_cache, settle, update_ingress, cleared, update_cache,
}
use ingress_bfe.Kube.{Ingress}

-- Every cluster that a route names has parameters; BFE's mark for advanced rules is no cluster.
pub record Covered (x : External) (file : RouteTableFile) (conf : BfeClusterConf) : Type 0 where
  pub basic :
      (b : BasicRouteRuleFile)
      → In b (basic_entries file)
      → (b.cluster_name ≡ x.advanced_mode) ⊎ HasParams conf b.cluster_name
  pub advanced :
      (a : AdvancedRouteRuleFile) → In a (advanced_entries file) → HasParams conf a.cluster_name

module _ (x : External) (v1 v2 d : Text) (acc : Collected) where
  abbrev conf : BfeClusterConf
  conf = cluster_params x v2 d acc

  abbrev BasicOk : BasicRouteRuleFile → Type 0
  BasicOk b = (b.cluster_name ≡ x.advanced_mode) ⊎ HasParams conf b.cluster_name

  abbrev AdvancedOk : AdvancedRouteRuleFile → Type 0
  AdvancedOk a = HasParams conf a.cluster_name

  abbrev BothOk : RouteTableFile → Type 0
  BothOk file = All BasicOk (basic_entries file) × All AdvancedOk (advanced_entries file)

  basics_ok : BothOk (add_basic acc.0 (new_route_table_conf_file v1))
  unfolding basic_entries advanced_entries new_route_table_conf_file lookup text_eq text
  basics_ok = (
    All-add_basic BasicOk acc.0 (new_route_table_conf_file v1) tt
        (λ r i. unfold basic_file in basic_cluster x v2 d acc r i),
    advanced-add_basic AdvancedOk acc.0 (new_route_table_conf_file v1) tt,
  )

  advanced_ok :
      (file : RouteTableFile)
      → add_advanced acc.1 (add_basic acc.0 (new_route_table_conf_file v1)) ≡ ok file
      → BothOk file
  advanced_ok file e = (
    basic-add_advanced BasicOk acc.1 (add_basic acc.0 (new_route_table_conf_file v1)) file e
        basics_ok.0,
    All-add_advanced AdvancedOk acc.1 (add_basic acc.0 (new_route_table_conf_file v1)) file e
        basics_ok.1 (λ r c i. advanced_cluster x v2 d acc r i),
  )

  with_default :
      (file : RouteTableFile)
      → BothOk file
      → has_default d acc ≡ true
      → BothOk (add_product (text "default_t()") (default_cluster_name d) file)
  unfolding basic_entries advanced_entries
  with_default file k e = (
    k.0,
    rw entries-append_to
        (All-snoc AdvancedOk (entries file.product_rule) _ k.1 (default_cluster x v2 d acc e)),
  )

  -- The steps of a successful `route_table`.
  table_steps :
      (file : RouteTableFile)
      → route_table v1 d acc ≡ ok file
      → (f : RouteTableFile) × (add_advanced acc.1 (add_basic acc.0 (new_route_table_conf_file v1))
          ≡ ok f)
        × ((if has_default d acc
              then add_product (text "default_t()") (default_cluster_name d) f
              else f)
            ≡ file)
  unfolding route_table
  table_steps file e =
      let built = add_advanced acc.1 (add_basic acc.0 (new_route_table_conf_file v1)) in
      elim (Result-cases built) [
        | inl (f, q) ↦ (f, q, ok_inj (rw q at e))
        | inr (m, q) ↦ cc (rw q at e)
      ]

  either :
      (b : Bool) (f : RouteTableFile)
      → BothOk f
      → (b ≡ true → BothOk (add_product (text "default_t()") (default_cluster_name d) f))
      → BothOk (if b then add_product (text "default_t()") (default_cluster_name d) f else f)
  either true f k h = h refl
  either false f k h = k

  -- The two tables of the same rules agree.
  pub route_table-Covered :
      (file : RouteTableFile) → route_table v1 d acc ≡ ok file → Covered x file conf
  route_table-Covered file e =
      let (f, q, r) = table_steps file e in
      let k = advanced_ok f q in
      let ok_file : BothOk file =
        subst BothOk r (either (has_default d acc) f k (with_default f k)) in
      record {
        basic = λ b i. All-In BasicOk (basic_entries file) b ok_file.0 i;
        advanced = λ a i. All-In AdvancedOk (advanced_entries file) a ok_file.1 i;
      }

module _ (x : External) (v1 v2 d : Text) where
  rules_of : State x → Collected
  rules_of c = get x.advanced_mode c.route_rule_cache.rule_map

  -- A table that was installed comes from the rules of the cache, as the parameters do.
  installed :
      (name : Text) (c c' : State x) (r : Result RouteTableFile)
      → settle x v2 d name (install x c r) ≡ (c', none)
      → (file : RouteTableFile) × (r ≡ ok file)
        × (file ≡ c'.route_table_file)
        × (cluster_params x v2 d (rules_of c) ≡ c'.bfe_cluster_conf)
  unfolding update_bfe_cluster_conf rules_of
  installed name c c' (err m) e = cc
  installed name c c' (ok file) e = (file, refl, ground arith, ground arith)

  settle-Covered :
      (name : Text) (c c' : State x)
      → settle x v2 d name (update_route_table x v1 d c) ≡ (c', none)
      → Covered x c'.route_table_file c'.bfe_cluster_conf
  unfolding update_route_table rules_of
  settle-Covered name c c' e =
      let (file, q, a, b) = installed name c c' (route_table v1 d (rules_of c)) e in
      subst₂ (Covered x) a b (route_table-Covered x v1 v2 d (rules_of c) file q)

  -- After a successful `UpdateIngress` of an ingress with rules, every cluster that a route names
  -- has parameters.
  pub update_ingress-Covered :
      (addr : ℕ) (c c' : State x) (ingress : Ingress)
      → is_nil ingress.rules ≡ false
      → update_ingress x addr v1 v2 d c ingress ≡ some (c', none)
      → Covered x c'.route_table_file c'.bfe_cluster_conf
  unfolding update_ingress
  update_ingress-Covered addr c c' ingress n e =
      let name = x.namespaced_name ingress.namespace ingress.name in
      after (update_cache x addr ingress (cleared x name c.route_rule_cache)) (rw n at e)
    where
      after :
          (o : Outcome x)
          → after_cache x v1 v2 d (x.namespaced_name ingress.namespace ingress.name) c o
            ≡ some (c', none)
          → Covered x c'.route_table_file c'.bfe_cluster_conf
      after none q = cc
      after (some ((_, cache), some m)) q = cc
      after (some ((_, cache), none)) q =
          settle-Covered (x.namespaced_name ingress.namespace ingress.name)
            (record c { route_rule_cache = cache }) c' (ground arith)
