-- ===== src/Reconcile/Total.antt =====
-- When the controller applies an Ingress without a panic.
use ingress_bfe.Base.{
  Text, is_empty, lookup, List, [], ◌∷◌, Option, none, some, Error, Result, ok, err, All, inl, inr,
  Bool-cases,
}
use ingress_bfe.Kube.{Ingress, IngressRule, HttpIngressPath, Service, Endpoints, Secret}
use ingress_bfe.Options.Checked.{IsBackendName}
use ingress_bfe.Bfe.{External}
use ingress_bfe.Annotations.Balance.{Balance, get_balance}
use ingress_bfe.Builder.{ConfigBuilder, Environment}
use ingress_bfe.Builder.Total.{
  HasService, CompleteRule, Complete, Returns, Returns-some, build_ingress-Returns,
}
use ingress_bfe.Reconcile.Reading.{
  Client, Backends, chain, get_default_backends, add_services, service_names, add_path_services,
  add_rule_services, default_backends, first_backends, get_ingress_backends, get_ingress_secret,
}
use ingress_bfe.Reconcile.{
  finish, known_balance, with_secrets, with_backends, set_default_backend, reconcile_v1_ingress,
}

module _ {A B : Type 0} where
  chain-Returns :
      (o : Option (Result A)) (next : A → Option (Result B))
      → Returns o
      → ((a : A) → Returns (next a))
      → Returns (chain o next)
  chain-Returns none next h k = absurd h
  chain-Returns (some (err e)) next h k = tt
  chain-Returns (some (ok a)) next h k = k a

module _ (x : External) (r : Client) where
  add_path_services-Returns :
      (default_backend namespace : Text) (balance : Balance) (paths : List HttpIngressPath)
      (b : Backends)
      → All HasService paths
      → Returns (add_path_services x r default_backend namespace balance paths b)
  unfolding add_path_services
  add_path_services-Returns default_backend namespace balance [] b h = tt
  add_path_services-Returns default_backend namespace balance (p ∷ paths) b ((backend, e), hs) =
      rw e (
        chain-Returns
          (some (
            add_services x r default_backend namespace backend.port
              (service_names x r default_backend balance backend.name) b))
          _ tt (λ b. add_path_services-Returns default_backend namespace balance paths b hs))

  add_rule_services-Returns :
      (default_backend namespace : Text) (balance : Balance) (rules : List IngressRule)
      (b : Backends)
      → All CompleteRule rules
      → Returns (add_rule_services x r default_backend namespace balance rules b)
  unfolding add_rule_services
  add_rule_services-Returns default_backend namespace balance [] b h = tt
  add_rule_services-Returns default_backend namespace balance (rule ∷ rules) b ((paths, e, h), hs) =
      rw e (
        chain-Returns (add_path_services x r default_backend namespace balance paths b) _
          (add_path_services-Returns default_backend namespace balance paths b h)
          (λ b. add_rule_services-Returns default_backend namespace balance rules b hs))

  default_backends-Returns :
      (default_backend : Text) (o : Option (Result (Service × Endpoints)))
      → Returns o
      → Returns (default_backends x r default_backend o)
  default_backends-Returns default_backend none h = absurd h
  default_backends-Returns default_backend (some (err e)) h = tt
  default_backends-Returns default_backend (some (ok (svc, ep))) h = tt

  -- The part of `getIngressBackends` before its loops.
  first_backends-Returns :
      (default_backend : Text)
      → IsBackendName default_backend
      → Returns (first_backends x r default_backend)
  unfolding get_default_backends
  first_backends-Returns default_backend (inl e) = rw e tt
  first_backends-Returns default_backend (inr (namespace, service, e)) =
      elim (Bool-cases (is_empty default_backend)) [
        | inl f ↦ rw f tt
        | inr f ↦ rw f (
            default_backends-Returns default_backend (get_default_backends r default_backend)
              (rw e tt))
      ]

  get_ingress_backends-Returns :
      (default_backend : Text) (ingress : Ingress)
      → IsBackendName default_backend
      → Complete ingress
      → Returns (get_ingress_backends x r default_backend ingress)
  unfolding get_ingress_backends
  get_ingress_backends-Returns default_backend ingress d h =
      let (b, e) = Returns-some _ (first_backends-Returns default_backend d) in
      rw (get_ingress_backends, e)
        (chain-Returns (some (get_balance r.json_error ingress.annotations)) _ tt (λ balance.
          add_rule_services-Returns default_backend ingress.namespace balance ingress.rules b h))

  finish-Returns :
      (d : Text) (env : Environment) (ingress : Ingress) (o : Option (ConfigBuilder x × Error))
      → Returns o
      → Returns (finish x r d env ingress o)
  finish-Returns d env ingress none h = absurd h
  finish-Returns d env ingress (some (c, none)) h = tt
  finish-Returns d env ingress (some (c, some e)) h = tt

  with_secrets-Returns :
      (d : Text) (env : Environment) (ingress : Ingress) (c : ConfigBuilder x) (b : Backends)
      (secrets : Result (List Secret))
      → Complete ingress
      → Returns (with_secrets x r d env ingress c b secrets)
  with_secrets-Returns d env ingress c b (err e) h = tt
  with_secrets-Returns d env ingress c (services, endpoints) (ok secrets) h =
      finish-Returns d env ingress _ (
        build_ingress-Returns x env ingress
          (known_balance x r d (get_balance r.json_error ingress.annotations)) services endpoints
          secrets c h)

  with_backends-Returns :
      (d : Text) (env : Environment) (ingress : Ingress) (c : ConfigBuilder x)
      (o : Option (Result Backends))
      → Complete ingress
      → Returns o
      → Returns (with_backends x r d env ingress c o)
  unfolding set_default_backend
  with_backends-Returns d env ingress c none h k = absurd k
  with_backends-Returns d env ingress c (some (err e)) h k = tt
  with_backends-Returns d env ingress c (some (ok b)) h k =
      with_secrets-Returns d env (set_default_backend x r d (lookup d b.0) ingress) c b
        (get_ingress_secret x r d ingress.namespace ingress.tls) h

  -- `ReconcileV1Ingress` returns, whatever the API server answers, when each rule of the Ingress has
  -- paths, each path has a service, and the option `DefaultBackend` is one that the check accepts.
  pub reconcile_v1_ingress-Returns :
      (env : Environment) (c : ConfigBuilder x) (ingress : Ingress)
      → IsBackendName env.default_backend
      → Complete ingress
      → Returns (reconcile_v1_ingress x r env c ingress)
  unfolding reconcile_v1_ingress
  reconcile_v1_ingress-Returns env c ingress d h =
      with_backends-Returns env.default_backend env ingress c _ h
        (get_ingress_backends-Returns env.default_backend ingress d h)
