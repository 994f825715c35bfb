-- ===== src/Reconcile/Objects.antt =====
-- internal/controllers/ingress/service_controller.go and secret_controller.go: a change of a Service,
-- of its Endpoints, or of a Secret.
use ingress_bfe.Base.{Text, Option, some, Result, ok, err}
use ingress_bfe.Kube.{Service, Endpoints, Secret}
use ingress_bfe.Bfe.{External}
use ingress_bfe.Builder.{ConfigBuilder, Environment, build_service, build_secret}
use ingress_bfe.Reconcile.Reading.{Client}

module _ (x : External) where
  abbrev pub with_objects :
      Environment → ConfigBuilder x → Result Service → Result Endpoints → Option (ConfigBuilder x)
  with_objects env c (err e) ep = some c
  with_objects env c (ok svc) (err e) = some c
  with_objects env c (ok svc) (ok ep) = build_service x env svc (some ep) c

  -- `ServiceReconciler.Reconcile`; an object that is missing changes nothing
  unfoldable pub reconcile_service :
      Client → Environment → ConfigBuilder x → Text → Text → Option (ConfigBuilder x)
  reconcile_service r env c namespace name =
      with_objects env c (r.service namespace name) (r.endpoints namespace name)

  abbrev pub with_secret : Environment → ConfigBuilder x → Result Secret → ConfigBuilder x
  with_secret env c (err e) = c
  with_secret env c (ok secret) = (build_secret x env secret c).0

  -- `SecretReconciler.Reconcile`, which drops the error
  unfoldable pub reconcile_secret :
      Client → Environment → ConfigBuilder x → Text → Text → ConfigBuilder x
  reconcile_secret r env c namespace name = with_secret env c (r.secret namespace name)
