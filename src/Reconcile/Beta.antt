-- ===== src/Reconcile/Beta.antt =====
-- What the controllers of internal/controllers/ingress/netv1beta1 and of its copy extv1beta1 share: the
-- Ingresses of both versions have the same fields. `none` is a panic: a nil path type, or the status
-- of an object without annotations.
use mathlib.Core.Option
use ingress_bfe.Base.{
  Text, ◌==◌, if◌then◌else◌, List, [], ◌∷◌, map, insert, Option, none, some, Error, Result, ok, err,
}
use ingress_bfe.Annotations.{Annotations, value}
use ingress_bfe.Annotations.Status.{status_annotation_key, gen_error_msg, compare_status}
use ingress_bfe.Kube.{
  Ingress, IngressRule, IngressTls, HttpIngressPath, IngressBackend, BetaBackend, BetaPath,
  BetaIngress,
}
use ingress_bfe.Bfe.{External}
use ingress_bfe.Builder.{ConfigBuilder, Environment, drop_ingress}
use ingress_bfe.Reconcile.Reading.{Client}
use ingress_bfe.Reconcile.{reconcile_v1_ingress}
use ingress_bfe.Reconcile.Controller.{Classes, Reconciled, accepts, passed, reported, if_accepted}

unfoldable pub convert_backend : BetaBackend → IngressBackend
convert_backend b = record {
  service = some (record {
    name = b.service_name;
    port = record { name = b.service_port.str_val; number = b.service_port.int_val };
  });
}

-- `*p.PathType` of a nil path type panics.
unfoldable pub convert_path : BetaPath → Option HttpIngressPath
unfolding convert_backend
convert_path p = elim p.path_type [
  | none ↦ none
  | some t ↦
      some (record { path = p.path; path_type = some t; backend = convert_backend p.backend })
]

abbrev pub cons_some {ℓ} : {A : Type ℓ} → Option A → Option (List A) → Option (List A)
cons_some none rest = none
cons_some (some a) none = none
cons_some (some a) (some rest) = some (a ∷ rest)

unfoldable pub convert_paths : List BetaPath → Option (List HttpIngressPath)
unfolding convert_path
convert_paths [] = some []
convert_paths (p ∷ paths) = cons_some (convert_path p) (convert_paths paths)

abbrev pub rule_with : Text → Option (List HttpIngressPath) → Option IngressRule
rule_with host none = none
rule_with host (some paths) = some (record { host = host; http = some paths })

abbrev pub convert_tls : IngressTls → IngressTls
convert_tls tls = record { hosts = tls.hosts; secret_name = tls.secret_name }

abbrev pub with_rules : BetaIngress → Option (List IngressRule) → Option Ingress
with_rules ingress none = none
with_rules ingress (some rules) = some (record {
  namespace = ingress.namespace;
  name = ingress.name;
  annotations = ingress.annotations;
  creation_timestamp = ingress.creation_timestamp;
  ingress_class_name = ingress.ingress_class_name;
  default_backend = Option.map convert_backend ingress.backend;
  tls = map convert_tls ingress.tls;
  rules = rules;
})

-- `ingress.Annotations[key] = v`, which panics on a nil map
abbrev put_annotation : Text → Text → Annotations → Option Annotations
put_annotation key v none = none
put_annotation key v (some m) = some (some (insert key v m))

-- `setStatus`: the annotations of the patch, if there is one
unfoldable pub set_status : Error → Annotations → Option (Option Annotations)
set_status e annots =
    if compare_status e (value status_annotation_key annots) == 0
    then some none
    else Option.map some (put_annotation status_annotation_key (gen_error_msg e) annots)

module _ (x : External) where
  abbrev pub with_patch :
      ConfigBuilder x × Error → Option (Option Annotations) → Option (Reconciled x)
  with_patch outcome none = none
  with_patch outcome (some patch) = some (reported x patch outcome)

  -- `Reconcile` from the outcome of `ReconcileV1Ingress` on.
  abbrev pub with_status : Annotations → Option (ConfigBuilder x × Error) → Option (Reconciled x)
  with_status annots none = none
  with_status annots (some (c, e)) = with_patch (c, e) (set_status e annots)

  abbrev pub with_converted :
      Client → Environment → ConfigBuilder x → Annotations → Option Ingress → Option (Reconciled x)
  with_converted r env c annots none = none
  with_converted r env c annots (some ingress) =
      with_status annots (reconcile_v1_ingress x r env c ingress)

  -- `Reconcile`, for the name of an object and what `r.Get` returns for it
  unfoldable pub reconcile_with :
      (BetaIngress → Option Ingress)
      → Client
      → Classes
      → Environment
      → ConfigBuilder x
      → Text
      → Text
      → Result BetaIngress
      → Option (Reconciled x)
  unfolding set_status
  reconcile_with convert r k env c namespace name (err e) =
      some (passed x (drop_ingress x env namespace name c))
  reconcile_with convert r k env c namespace name (ok ingress) =
      if_accepted x (accepts k ingress.annotations ingress.ingress_class_name) c
        (with_converted r env c ingress.annotations (convert ingress))
