-- ===== src/Reconcile/Returning.antt =====
-- When a call of `Reconcile` of each controller returns, and when it panics.
use ingress_bfe.Base.{
  Text, Bool, true, false, Map, Option, none, some, Error, Result, ok, err, All, ◌≡◌, ◌∙◌, refl, ap,
  sym, subst, arith,
}
use ingress_bfe.Annotations.{Annotations, find, value}
use ingress_bfe.Annotations.Status.{compare_status}
use ingress_bfe.Kube.{Ingress, BetaIngress}
use ingress_bfe.Bfe.{External}
use ingress_bfe.Options.{IngressOptions, check}
use ingress_bfe.Options.Checked.{IsBackendName, check_iff}
use ingress_bfe.Builder.{ConfigBuilder, Environment}
use ingress_bfe.Builder.Total.{Complete, Returns}
use ingress_bfe.Reconcile.Reading.{Client}
use ingress_bfe.Reconcile.{reconcile_v1_ingress}
use ingress_bfe.Reconcile.Total.{reconcile_v1_ingress-Returns}
use ingress_bfe.Reconcile.Controller.{
  Classes, Reconciled, accepts, if_accepted, reconcile, with_status,
}
use ingress_bfe.Reconcile.Beta as Beta
use ingress_bfe.Reconcile.Converted.{TypedRule, FullRule, Converts, net-Converts, ext-Converts}
use ingress_bfe.Reconcile.NetV1beta1 as Net
use ingress_bfe.Reconcile.ExtV1beta1 as Ext

-- The option `DefaultBackend` that the controller runs with has passed the check.
pub record Checked (opts : IngressOptions) (env : Environment) : Type 0 where
  pub enabled : opts.enable_ingress ≡ true
  pub passes : (check opts).1 ≡ none
  pub backend : env.default_backend ≡ opts.default_backend

checked_backend :
    (opts : IngressOptions) (env : Environment)
    → Checked opts env
    → IsBackendName env.default_backend
checked_backend opts env h =
    subst IsBackendName (sym h.backend) ((check_iff opts h.enabled).0.0 h.passes)

-- What is asked of the object that is read, if it is found.
abbrev pub IfFound {ℓ} : {A : Type ℓ} → (A → Type 0) → Result A → Type 0
IfFound P (ok a) = P a
IfFound P (err e) = Unit

-- The Ingress has annotations.
abbrev pub HasMap : BetaIngress → Type 0
HasMap b = (m : Map Text) × (b.annotations ≡ some m)

module _ (x : External) (r : Client) (k : Classes) (env : Environment) (c : ConfigBuilder x) where
  with_status-Returns :
      (annots : Annotations) (o : Option (ConfigBuilder x × Error))
      → Returns o
      → Returns (with_status x annots o)
  with_status-Returns annots none h = absurd h
  with_status-Returns annots (some (d, e)) h = tt

  if_accepted-Returns :
      (b : Bool) (next : Option (Reconciled x)) → Returns next → Returns (if_accepted x b c next)
  if_accepted-Returns false next h = tt
  if_accepted-Returns true next h = h

  -- `Reconcile` of the controller for networking.k8s.io/v1 returns with options that pass the check,
  -- whatever the API server answers, when each rule of the Ingress, if it is found, has paths and
  -- each path has a service.
  pub reconcile-Returns :
      (opts : IngressOptions) (namespace name : Text) (found : Result Ingress)
      → Checked opts env
      → IfFound Complete found
      → Returns (reconcile x r k env c namespace name found)
  unfolding reconcile
  reconcile-Returns opts namespace name (err e) h g = tt
  reconcile-Returns opts namespace name (ok ingress) h g =
      if_accepted-Returns (accepts k ingress.annotations ingress.ingress_class_name) _ (
        with_status-Returns ingress.annotations _
          (reconcile_v1_ingress-Returns x r env c ingress (checked_backend opts env h) g))

  with_patch-Returns :
      (outcome : ConfigBuilder x × Error) (m : Map Text)
      → Returns (Beta.with_patch x outcome (Beta.set_status outcome.1 (some m)))
  unfolding Beta.set_status
  with_patch-Returns (d, e) m = ground arith

  with_beta_status-Returns :
      (m : Map Text) (o : Option (ConfigBuilder x × Error))
      → Returns o
      → Returns (Beta.with_status x (some m) o)
  with_beta_status-Returns m none h = absurd h
  with_beta_status-Returns m (some (d, e)) h = with_patch-Returns (d, e) m

  -- Of either version, for an Ingress that is converted to one with paths and services everywhere.
  reconcile_with-Returns :
      (opts : IngressOptions) (convert : BetaIngress → Option Ingress) (namespace name : Text)
      (found : Result BetaIngress)
      → Checked opts env
      → IfFound (λ b. HasMap b × Converts (convert b)) found
      → Returns (Beta.reconcile_with x convert r k env c namespace name found)
  unfolding Beta.reconcile_with
  reconcile_with-Returns opts convert namespace name (err e) h g = tt
  reconcile_with-Returns opts convert namespace name (ok b) h ((m, a), (i, e, g)) =
      if_accepted-Returns (accepts k b.annotations b.ingress_class_name) _ (
        rw (e, a)
          (with_beta_status-Returns m _
            (reconcile_v1_ingress-Returns x r env c i (checked_backend opts env h) g)))

  if_found :
      {P Q : BetaIngress → Type 0} (found : Result BetaIngress)
      → ((b : BetaIngress) → P b → Q b)
      → IfFound P found
      → IfFound Q found
  if_found (ok b) f g = f b g
  if_found (err e) f g = tt

  -- `Reconcile` of the controller for networking.k8s.io/v1beta1 returns with options that pass the
  -- check, whatever the API server answers, when the Ingress, if it is found, has annotations and
  -- each of its paths has a type.
  pub net_reconcile-Returns :
      (opts : IngressOptions) (namespace name : Text) (found : Result BetaIngress)
      → Checked opts env
      → IfFound (λ b. HasMap b × All TypedRule b.rules) found
      → Returns (Net.reconcile x r k env c namespace name found)
  unfolding Net.reconcile
  net_reconcile-Returns opts namespace name found h g =
      reconcile_with-Returns opts Net.convert namespace name found h
        (if_found found (λ b q. (q.0, net-Converts b q.1)) g)

  -- `Reconcile` of the controller for extensions/v1beta1 returns with options that pass the check,
  -- whatever the API server answers, when the Ingress, if it is found, has annotations, each of its
  -- rules has paths and each path has a type.
  pub ext_reconcile-Returns :
      (opts : IngressOptions) (namespace name : Text) (found : Result BetaIngress)
      → Checked opts env
      → IfFound (λ b. HasMap b × All FullRule b.rules) found
      → Returns (Ext.reconcile x r k env c namespace name found)
  unfolding Ext.reconcile
  ext_reconcile-Returns opts namespace name found h g =
      reconcile_with-Returns opts Ext.convert namespace name found h
        (if_found found (λ b q. (q.0, ext-Converts b q.1)) g)

  with_status_panics : (o : Option (ConfigBuilder x × Error)) → Beta.with_status x none o ≡ none
  unfolding Beta.set_status compare_status value find
  with_status_panics none = refl
  with_status_panics (some (d, e)) = refl

  with_converted_panics : (o : Option Ingress) → Beta.with_converted x r env c none o ≡ none
  with_converted_panics none = refl
  with_converted_panics (some i) = with_status_panics (reconcile_v1_ingress x r env c i)

  -- An Ingress of either older version without annotations panics, when the filter of classes accepts
  -- it: the status is written to a nil map, whatever the outcome.
  pub beta_reconcile-panics :
      (namespace name : Text) (b : BetaIngress)
      → b.annotations ≡ none
      → accepts k b.annotations b.ingress_class_name ≡ true
      → (Net.reconcile x r k env c namespace name (ok b) ≡ none)
        × (Ext.reconcile x r k env c namespace name (ok b) ≡ none)
  unfolding Net.reconcile Ext.reconcile
  beta_reconcile-panics namespace name b e a =
      (reconcile_with_panics Net.convert, reconcile_with_panics Ext.convert)
    where
      reconcile_with_panics :
          (convert : BetaIngress → Option Ingress)
          → Beta.reconcile_with x convert r k env c namespace name (ok b) ≡ none
      reconcile_with_panics convert =
          ap (λ t. if_accepted x t c (Beta.with_converted x r env c b.annotations (convert b))) a
          ∙ ap (λ m. Beta.with_converted x r env c m (convert b)) e
          ∙ with_converted_panics (convert b)
