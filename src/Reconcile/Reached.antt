-- ===== src/Reconcile/Reached.antt =====
-- The controllers and the timer reach configurations of the builder only, in any order of their calls.
use ingress_bfe.Base.{
  Text, lookup, List, Bool, true, false, Option, none, some, some_inj, Error, Result, ok, err, ◌≡◌,
  refl, subst,
}
use ingress_bfe.Kube.{Ingress, BetaIngress, Service, Endpoints, Secret}
use ingress_bfe.Annotations.{Annotations}
use ingress_bfe.Annotations.Balance.{get_balance}
use ingress_bfe.Bfe.{External}
use ingress_bfe.Builder.{
  ConfigBuilder, Environment, new_config_builder, build_ingress, drop_ingress,
}
use ingress_bfe.Builder.Reload.{Files, reload}
use ingress_bfe.Builder.Sound.{
  Step, ingress_updated, ingress_deleted, service_updated, secret_updated, reloaded, Reachable,
  initial, next, Sound, Reachable-Sound,
}
use ingress_bfe.Reconcile.Reading.{Client, Backends, get_ingress_backends, get_ingress_secret}
use ingress_bfe.Reconcile.{
  finish, known_balance, with_secrets, with_backends, set_default_backend, reconcile_v1_ingress,
}
use ingress_bfe.Reconcile.Objects.{with_objects, reconcile_service, with_secret, reconcile_secret}
use ingress_bfe.Reconcile.Controller.{
  Classes, Reconciled, accepts, if_accepted, with_status, set_status, reconcile,
}
use ingress_bfe.Reconcile.Beta as Beta
use ingress_bfe.Reconcile.NetV1beta1 as Net
use ingress_bfe.Reconcile.ExtV1beta1 as Ext

-- One call of a controller that returns, or one round of the timer.
pub data Call (x : External) : ConfigBuilder x → ConfigBuilder x → Type 0 where
  ingress_call :
      (r : Client) (k : Classes) (env : Environment) (namespace name : Text)
      (found : Result Ingress) (c : ConfigBuilder x) (out : Reconciled x)
      → reconcile x r k env c namespace name found ≡ some out
      → Call x c out.config
  net_call :
      (r : Client) (k : Classes) (env : Environment) (namespace name : Text)
      (found : Result BetaIngress) (c : ConfigBuilder x) (out : Reconciled x)
      → Net.reconcile x r k env c namespace name found ≡ some out
      → Call x c out.config
  ext_call :
      (r : Client) (k : Classes) (env : Environment) (namespace name : Text)
      (found : Result BetaIngress) (c : ConfigBuilder x) (out : Reconciled x)
      → Ext.reconcile x r k env c namespace name found ≡ some out
      → Call x c out.config
  service_call :
      (r : Client) (env : Environment) (namespace name : Text) (c c' : ConfigBuilder x)
      → reconcile_service x r env c namespace name ≡ some c'
      → Call x c c'
  secret_call :
      (r : Client) (env : Environment) (namespace name : Text) (c : ConfigBuilder x)
      → Call x c (reconcile_secret x r env c namespace name)
  timer_call : (f : Files) (c : ConfigBuilder x) → Call x c (reload x f c).0

-- The configurations after any sequence of calls, in any order.
pub data Controlled (x : External) : ConfigBuilder x → Type 0 where
  started : Controlled x (new_config_builder x)
  called : (c c' : ConfigBuilder x) → Controlled x c → Call x c c' → Controlled x c'

module _ (x : External) where
  abbrev pub Outcome : Option (ConfigBuilder x × Error) → Type 0
  Outcome none = Unit
  Outcome (some (c, e)) = Reachable x c

  abbrev ReconciledOutcome : Option (Reconciled x) → Type 0
  ReconciledOutcome none = Unit
  ReconciledOutcome (some out) = Reachable x out.config

  pub dropped :
      (env : Environment) (namespace name : Text) (c : ConfigBuilder x)
      → Reachable x c
      → Reachable x (drop_ingress x env namespace name c)
  dropped env namespace name c h = next c _ h (ingress_deleted env namespace name c)

  finish-Outcome :
      (r : Client) (d : Text) (env : Environment) (ingress : Ingress)
      (o : Option (ConfigBuilder x × Error))
      → Outcome o
      → Outcome (finish x r d env ingress o)
  finish-Outcome r d env ingress none h = tt
  finish-Outcome r d env ingress (some (c, none)) h = h
  finish-Outcome r d env ingress (some (c, some e)) h =
      dropped env ingress.namespace ingress.name c h

  built-Outcome :
      (c : ConfigBuilder x) (o : Option (ConfigBuilder x × Error))
      → ((d : ConfigBuilder x) (e : Error) → o ≡ some (d, e) → Step x c d)
      → Reachable x c
      → Outcome o
  built-Outcome c none s h = tt
  built-Outcome c (some (d, e)) s h = next c d h (s d e refl)

  with_secrets-Outcome :
      (r : Client) (d : Text) (env : Environment) (ingress : Ingress) (c : ConfigBuilder x)
      (b : Backends) (secrets : Result (List Secret))
      → Reachable x c
      → Outcome (with_secrets x r d env ingress c b secrets)
  with_secrets-Outcome r d env ingress c b (err e) h =
      dropped env ingress.namespace ingress.name c h
  with_secrets-Outcome r d env ingress c (services, endpoints) (ok secrets) h =
      let balance = known_balance x r d (get_balance r.json_error ingress.annotations) in
      finish-Outcome r d env ingress _ (
        built-Outcome c (build_ingress x env ingress balance services endpoints secrets c)
          (λ c' e q. ingress_updated env ingress balance services endpoints secrets c c' e q) h)

  with_backends-Outcome :
      (r : Client) (d : Text) (env : Environment) (ingress : Ingress) (c : ConfigBuilder x)
      (o : Option (Result Backends))
      → Reachable x c
      → Outcome (with_backends x r d env ingress c o)
  unfolding set_default_backend
  with_backends-Outcome r d env ingress c none h = tt
  with_backends-Outcome r d env ingress c (some (err e)) h =
      dropped env ingress.namespace ingress.name c h
  with_backends-Outcome r d env ingress c (some (ok b)) h =
      with_secrets-Outcome r d env (set_default_backend x r d (lookup d b.0) ingress) c b
        (get_ingress_secret x r d ingress.namespace ingress.tls) h

  pub reconcile_v1_ingress-Outcome :
      (r : Client) (env : Environment) (ingress : Ingress) (c : ConfigBuilder x)
      → Reachable x c
      → Outcome (reconcile_v1_ingress x r env c ingress)
  unfolding reconcile_v1_ingress
  reconcile_v1_ingress-Outcome r env ingress c h =
      with_backends-Outcome r env.default_backend env ingress c
        (get_ingress_backends x r env.default_backend ingress) h

  with_status-Outcome :
      (annots : Annotations) (o : Option (ConfigBuilder x × Error))
      → Outcome o
      → ReconciledOutcome (with_status x annots o)
  with_status-Outcome annots none h = tt
  with_status-Outcome annots (some (c, e)) h = h

  if_accepted-Outcome :
      (b : Bool) (c : ConfigBuilder x) (o : Option (Reconciled x))
      → Reachable x c
      → ReconciledOutcome o
      → ReconciledOutcome (if_accepted x b c o)
  if_accepted-Outcome false c o h k = h
  if_accepted-Outcome true c o h k = k

  reconcile-Outcome :
      (r : Client) (k : Classes) (env : Environment) (namespace name : Text)
      (found : Result Ingress) (c : ConfigBuilder x)
      → Reachable x c
      → ReconciledOutcome (reconcile x r k env c namespace name found)
  unfolding reconcile set_status
  reconcile-Outcome r k env namespace name (err e) c h = dropped env namespace name c h
  reconcile-Outcome r k env namespace name (ok ingress) c h =
      let o = reconcile_v1_ingress x r env c ingress in
      if_accepted-Outcome (accepts k ingress.annotations ingress.ingress_class_name) c
        (with_status x ingress.annotations o) h
        (with_status-Outcome ingress.annotations o (reconcile_v1_ingress-Outcome r env ingress c h))

  with_patch-Outcome :
      (c : ConfigBuilder x) (e : Error) (patch : Option (Option Annotations))
      → Reachable x c
      → ReconciledOutcome (Beta.with_patch x (c, e) patch)
  with_patch-Outcome c e none h = tt
  with_patch-Outcome c e (some patch) h = h

  beta_status-Outcome :
      (annots : Annotations) (o : Option (ConfigBuilder x × Error))
      → Outcome o
      → ReconciledOutcome (Beta.with_status x annots o)
  beta_status-Outcome annots none h = tt
  beta_status-Outcome annots (some (c, e)) h = with_patch-Outcome c e (Beta.set_status e annots) h

  with_converted-Outcome :
      (r : Client) (env : Environment) (c : ConfigBuilder x) (annots : Annotations)
      (o : Option Ingress)
      → Reachable x c
      → ReconciledOutcome (Beta.with_converted x r env c annots o)
  with_converted-Outcome r env c annots none h = tt
  with_converted-Outcome r env c annots (some ingress) h =
      beta_status-Outcome annots (reconcile_v1_ingress x r env c ingress)
        (reconcile_v1_ingress-Outcome r env ingress c h)

  reconcile_with-Outcome :
      (convert : BetaIngress → Option Ingress) (r : Client) (k : Classes) (env : Environment)
      (namespace name : Text) (found : Result BetaIngress) (c : ConfigBuilder x)
      → Reachable x c
      → ReconciledOutcome (Beta.reconcile_with x convert r k env c namespace name found)
  unfolding Beta.reconcile_with
  reconcile_with-Outcome convert r k env namespace name (err e) c h = dropped env namespace name c h
  reconcile_with-Outcome convert r k env namespace name (ok ingress) c h =
      if_accepted-Outcome (accepts k ingress.annotations ingress.ingress_class_name) c
        (Beta.with_converted x r env c ingress.annotations (convert ingress)) h
        (with_converted-Outcome r env c ingress.annotations (convert ingress) h)

  with_objects-Reachable :
      (env : Environment) (c c' : ConfigBuilder x) (svc : Result Service) (ep : Result Endpoints)
      → with_objects x env c svc ep ≡ some c'
      → Reachable x c
      → Reachable x c'
  with_objects-Reachable env c c' (err e) ep q h = subst (Reachable x) (some_inj q) h
  with_objects-Reachable env c c' (ok svc) (err e) q h = subst (Reachable x) (some_inj q) h
  with_objects-Reachable env c c' (ok svc) (ok ep) q h =
      next c c' h (service_updated env svc (some ep) c c' q)

  with_secret-Reachable :
      (env : Environment) (c : ConfigBuilder x) (secret : Result Secret)
      → Reachable x c
      → Reachable x (with_secret x env c secret)
  with_secret-Reachable env c (err e) h = h
  with_secret-Reachable env c (ok secret) h = next c _ h (secret_updated env secret c)

  call-Reachable : (c c' : ConfigBuilder x) → Call x c c' → Reachable x c → Reachable x c'
  unfolding Net.reconcile Ext.reconcile reconcile_service reconcile_secret
  call-Reachable _ _ (ingress_call r k env namespace name found c out q) h =
      subst ReconciledOutcome q (reconcile-Outcome r k env namespace name found c h)
  call-Reachable _ _ (net_call r k env namespace name found c out q) h =
      subst ReconciledOutcome q
        (reconcile_with-Outcome Net.convert r k env namespace name found c h)
  call-Reachable _ _ (ext_call r k env namespace name found c out q) h =
      subst ReconciledOutcome q
        (reconcile_with-Outcome Ext.convert r k env namespace name found c h)
  call-Reachable _ _ (service_call r env namespace name c c' q) h =
      with_objects-Reachable env c c' (r.service namespace name) (r.endpoints namespace name) q h
  call-Reachable _ _ (secret_call r env namespace name c) h =
      with_secret-Reachable env c (r.secret namespace name) h
  call-Reachable _ _ (timer_call f c) h = next c _ h (reloaded f c)

  pub Controlled-Reachable : (c : ConfigBuilder x) → Controlled x c → Reachable x c
  Controlled-Reachable _ started = initial
  Controlled-Reachable _ (called d c' h call) = call-Reachable d c' call (Controlled-Reachable d h)

  -- Every configuration that calls of the three Ingress controllers, of the Service and of the Secret
  -- controller, and reloads of the timer reach from the empty one, in any order and with any outcome,
  -- has the invariants of its three parts.
  pub Controlled-Sound : (c : ConfigBuilder x) → Controlled x c → Sound x c
  Controlled-Sound c h = Reachable-Sound x c (Controlled-Reachable c h)
