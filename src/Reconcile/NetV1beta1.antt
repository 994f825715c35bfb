-- ===== src/Reconcile/NetV1beta1.antt =====
-- internal/controllers/ingress/netv1beta1/ingress_controller.go: the conversion of its Ingresses and
-- its controller. `none` is a panic.
use ingress_bfe.Base.{Text, List, [], ◌∷◌, Option, none, some, Result}
use ingress_bfe.Kube.{Ingress, IngressRule, BetaRule, BetaIngress}
use ingress_bfe.Bfe.{External}
use ingress_bfe.Builder.{ConfigBuilder, Environment}
use ingress_bfe.Reconcile.Reading.{Client}
use ingress_bfe.Reconcile.Controller.{Classes, Reconciled}
use ingress_bfe.Reconcile.Beta.{cons_some, convert_paths, rule_with, with_rules, reconcile_with}

-- A rule without paths is left out.
unfoldable pub convert_rules : List BetaRule → Option (List IngressRule)
unfolding convert_paths
convert_rules [] = some []
convert_rules (rule ∷ rules) = elim rule.http [
  | none ↦ convert_rules rules
  | some paths ↦ cons_some (rule_with rule.host (convert_paths paths)) (convert_rules rules)
]

-- `convert`
unfoldable pub convert : BetaIngress → Option Ingress
unfolding convert_rules
convert ingress = with_rules ingress (convert_rules ingress.rules)

-- `Reconcile`
unfoldable pub reconcile :
    (x : External)
    → Client
    → Classes
    → Environment
    → ConfigBuilder x
    → Text
    → Text
    → Result BetaIngress
    → Option (Reconciled x)
unfolding convert reconcile_with
reconcile x = reconcile_with x convert
