-- ===== src/Reconcile/Forgotten.antt =====
-- What the controller leaves of an Ingress that it cannot apply.
use ingress_bfe.Base.{
  Text, lookup, List, Bool, true, false, Option, none, some, Error, Result, ok, err, ◌≡◌, ◌∙◌, ap,
  refl, inl, inr, Bool-cases, subst,
}
use ingress_bfe.Kube.{Ingress, Secret}
use ingress_bfe.Bfe.{External}
use ingress_bfe.RouteRule.Cache.{contains_ingress}
use ingress_bfe.Tls.Update as Certs
use ingress_bfe.Tls.Sweep.{sweep-index}
use ingress_bfe.Builder.{ConfigBuilder, Environment, drop_ingress}
use ingress_bfe.Builder.Rollback.{forgets_routes, forgets_clusters, remove_all-forgets}
use ingress_bfe.Reconcile.Reading.{Client, Backends, get_ingress_backends, get_ingress_secret}
use ingress_bfe.Reconcile.{
  finish, with_secrets, with_backends, set_default_backend, reconcile_v1_ingress,
}

module _ (x : External) where
  open x use {namespaced_name, rule_index, name_index}

  swept-index :
      (version : Text) (r : Certs.Certs x × Bool)
      → (Certs.swept x version r).ingress2secret ≡ r.0.ingress2secret
  unfolding Certs.set_tls_version
  swept-index version (c, true) = refl
  swept-index version (c, false) = refl

  forgets_secrets :
      (version namespace name : Text) (c : Certs.Certs x)
      → name_index.contains_key
          (Certs.delete_ingress x version namespace name c).ingress2secret
          (namespaced_name namespace name)
        ≡ false
  unfolding Certs.delete_ingress
  forgets_secrets version namespace name c =
      let ingress_name = namespaced_name namespace name in
      let gone : Certs.Certs x = record c {
        ingress2secret = name_index.remove_all c.ingress2secret ingress_name;
      } in
      let r = Certs.sweep x (name_index.values gone.ingress2secret) c.certs gone in
      elim (Bool-cases (name_index.contains_key c.ingress2secret ingress_name)) [
        | inl e ↦ rw e (
            ap (λ m. name_index.contains_key m ingress_name)
              (swept-index version r
                ∙ sweep-index x (name_index.values gone.ingress2secret) c.certs gone)
            ∙ remove_all-forgets x c.ingress2secret ingress_name)
        | inr e ↦ rw e e
      ]

  -- The index of no part of the configuration has the Ingress.
  abbrev pub Forgotten : Text → ConfigBuilder x → Type 0
  Forgotten name c =
      (contains_ingress rule_index c.server_data_conf.route_rule_cache name ≡ false)
      × (name_index.contains_key c.cluster_conf.ingress2cluster name ≡ false)
      × (name_index.contains_key c.tls_conf.ingress2secret name ≡ false)

  -- After `DeleteIngress` of the builder, no index has the Ingress.
  pub drop_ingress-Forgotten :
      (env : Environment) (namespace name : Text) (c : ConfigBuilder x)
      → Forgotten (namespaced_name namespace name) (drop_ingress x env namespace name c)
  unfolding drop_ingress
  drop_ingress-Forgotten env namespace name c = (
    forgets_routes x env namespace name c.server_data_conf,
    forgets_clusters x env.table_version env.default_backend namespace name c.cluster_conf,
    forgets_secrets env.tls_version namespace name c.tls_conf,
  )

  -- What an outcome with an error says of the state.
  abbrev IfError : Text → Option (ConfigBuilder x × Error) → Type 0
  IfError name none = Unit
  IfError name (some (c, none)) = Unit
  IfError name (some (c, some e)) = Forgotten name c

  finish-IfError :
      (env : Environment) (r : Client) (d : Text) (ingress : Ingress)
      (o : Option (ConfigBuilder x × Error))
      → IfError (namespaced_name ingress.namespace ingress.name) (finish x r d env ingress o)
  finish-IfError env r d ingress none = tt
  finish-IfError env r d ingress (some (c, none)) = tt
  finish-IfError env r d ingress (some (c, some e)) =
      drop_ingress-Forgotten env ingress.namespace ingress.name c

  with_secrets-IfError :
      (env : Environment) (r : Client) (d : Text) (ingress : Ingress) (c : ConfigBuilder x)
      (b : Backends) (secrets : Result (List Secret))
      → IfError
          (namespaced_name ingress.namespace ingress.name)
          (with_secrets x r d env ingress c b secrets)
  with_secrets-IfError env r d ingress c b (err e) =
      drop_ingress-Forgotten env ingress.namespace ingress.name c
  with_secrets-IfError env r d ingress c (services, endpoints) (ok secrets) =
      finish-IfError env r d ingress _

  with_backends-IfError :
      (env : Environment) (r : Client) (d : Text) (ingress : Ingress) (c : ConfigBuilder x)
      (o : Option (Result Backends))
      → IfError
          (namespaced_name ingress.namespace ingress.name)
          (with_backends x r d env ingress c o)
  unfolding set_default_backend
  with_backends-IfError env r d ingress c none = tt
  with_backends-IfError env r d ingress c (some (err e)) =
      drop_ingress-Forgotten env ingress.namespace ingress.name c
  with_backends-IfError env r d ingress c (some (ok b)) =
      with_secrets-IfError env r d (set_default_backend x r d (lookup d b.0) ingress) c b
        (get_ingress_secret x r d ingress.namespace ingress.tls)

  -- When `ReconcileV1Ingress` returns an error, whether of the backends, of the secrets or of the
  -- builder, no index has the Ingress any more.
  pub reconcile_v1_ingress-Forgotten :
      (r : Client) (env : Environment) (c c' : ConfigBuilder x) (ingress : Ingress) (e : Text)
      → reconcile_v1_ingress x r env c ingress ≡ some (c', some e)
      → Forgotten (namespaced_name ingress.namespace ingress.name) c'
  unfolding reconcile_v1_ingress
  reconcile_v1_ingress-Forgotten r env c c' ingress e h =
      subst (IfError (namespaced_name ingress.namespace ingress.name)) h (
        with_backends-IfError env r env.default_backend ingress c
          (get_ingress_backends x r env.default_backend ingress))
