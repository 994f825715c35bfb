-- ===== src/Reconcile/Controller.antt =====
-- internal/controllers/ingress/netv1/ingress_controller.go: one call of `Reconcile`, and what the
-- controllers of the older versions share with it. `none` is a panic.
use ingress_bfe.Base.{
  Text, ◌==◌, Bool, true, false, if◌then◌else◌, List, [], ◌∷◌, insert, Option, none, some, Error,
  Result, ok, err,
}
use ingress_bfe.Annotations.{Annotations, value}
use ingress_bfe.Annotations.Status.{status_annotation_key, gen_error_msg, compare_status}
use ingress_bfe.Filter.{IngressClass, ingress_class_filter}
use ingress_bfe.Kube.{Ingress}
use ingress_bfe.Bfe.{External}
use ingress_bfe.Builder.{ConfigBuilder, Environment, drop_ingress}
use ingress_bfe.Reconcile.Reading.{Client}
use ingress_bfe.Reconcile.{reconcile_v1_ingress}

-- What the filter of classes reads: two keys of the Kubernetes API, two options, and the classes of
-- both versions, where they could be listed.
pub record Classes : Type 0 where
  pub ingress_class_key : Text
  pub is_default_ingress_class : Text
  pub ingress_class : Text
  pub controller_name : Text
  pub v1 : Option (List IngressClass)
  pub v1beta1 : Option (List IngressClass)

abbrev pub accepts : Classes → Annotations → Option Text → Bool
accepts k annots class_name =
    ingress_class_filter k.ingress_class_key k.is_default_ingress_class k.ingress_class
      k.controller_name k.v1 k.v1beta1 annots class_name

-- The event that is recorded.
pub data Event : Type 0 where
  sync_failed : Text → Event
  sync_succeed : Event

abbrev pub event_of : Error → Event
event_of none = sync_succeed
event_of (some e) = sync_failed e

-- What a call of `Reconcile` leaves and does: the configuration, the error that it returns, the
-- annotations that it patches the object to, if it does, and the event. An error of the patch is
-- only logged.
pub record Reconciled (x : External) : Type 0 where
  pub config : ConfigBuilder x
  pub error : Error
  pub patch : Option Annotations
  pub event : Option Event

-- The object is not handled.
abbrev pub passed : (x : External) → ConfigBuilder x → Reconciled x
passed x c = record { config = c; error = none; patch = none; event = none }

abbrev pub reported : (x : External) → Option Annotations → ConfigBuilder x × Error → Reconciled x
reported x patch (c, e) = record { config = c; error = e; patch = patch; event = some (event_of e) }

-- `ingress.Annotations[key] = v`, after a nil map has been replaced
abbrev pub put_annotation : Text → Text → Annotations → Annotations
put_annotation key v none = some ((key, v) ∷ [])
put_annotation key v (some m) = some (insert key v m)

-- `setStatus`: the annotations of the patch, if there is one
unfoldable pub set_status : Error → Annotations → Option Annotations
set_status e annots =
    if compare_status e (value status_annotation_key annots) == 0
    then none
    else some (put_annotation status_annotation_key (gen_error_msg e) annots)

module _ (x : External) where
  -- `Reconcile` from the outcome of `ReconcileV1Ingress` on.
  abbrev pub with_status : Annotations → Option (ConfigBuilder x × Error) → Option (Reconciled x)
  with_status annots none = none
  with_status annots (some (c, e)) = some (reported x (set_status e annots) (c, e))

  -- `if !filter.IngressClassFilter(…) { return nil }`
  abbrev pub if_accepted : Bool → ConfigBuilder x → Option (Reconciled x) → Option (Reconciled x)
  if_accepted false c next = some (passed x c)
  if_accepted true c next = next

  -- `Reconcile`, for the name of an object and what `r.Get` returns for it
  unfoldable pub reconcile :
      Client
      → Classes
      → Environment
      → ConfigBuilder x
      → Text
      → Text
      → Result Ingress
      → Option (Reconciled x)
  unfolding set_status
  reconcile r k env c namespace name (err e) = some (passed x (drop_ingress x env namespace name c))
  reconcile r k env c namespace name (ok ingress) =
      if_accepted (accepts k ingress.annotations ingress.ingress_class_name) c
        (with_status ingress.annotations (reconcile_v1_ingress x r env c ingress))
