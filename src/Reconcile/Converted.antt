-- ===== src/Reconcile/Converted.antt =====
-- The conversion of the Ingresses of older versions gives complete ones.
use ingress_bfe.Base.{Text, List, [], ◌∷◌, Option, none, some, All, ◌≡◌, ◌⊎◌, ap, refl, inl, inr}
use ingress_bfe.Kube.{
  Ingress, IngressRule, HttpIngressPath, PathType, BetaPath, BetaRule, BetaIngress,
}
use ingress_bfe.Builder.Total.{HasService, CompleteRule, Complete}
use ingress_bfe.Reconcile.Beta.{
  cons_some, convert_backend, convert_path, convert_paths, rule_with, with_rules,
}
use ingress_bfe.Reconcile.NetV1beta1 as Net
use ingress_bfe.Reconcile.ExtV1beta1 as Ext

-- The path has a type.
abbrev pub Typed : BetaPath → Type 0
Typed p = (t : PathType) × (p.path_type ≡ some t)

-- The rule has paths with a type each.
abbrev pub FullRule : BetaRule → Type 0
FullRule rule = (paths : List BetaPath) × (rule.http ≡ some paths) × All Typed paths

-- The rule has no paths, or paths with a type each.
abbrev pub TypedRule : BetaRule → Type 0
TypedRule rule = (rule.http ≡ none) ⊎ FullRule rule

convert_paths_lem :
    (paths : List BetaPath)
    → All Typed paths
    → (out : List HttpIngressPath) × (convert_paths paths ≡ some out) × All HasService out
unfolding convert_paths convert_path convert_backend
convert_paths_lem [] h = ([], refl, tt)
convert_paths_lem (p ∷ paths) ((t, e), h) =
    let (out, f, s) = convert_paths_lem paths h in
    let q : HttpIngressPath = record {
      path = p.path;
      path_type = some t;
      backend = convert_backend p.backend;
    } in
    (q ∷ out, rw (e, f) refl, ((_, refl), s))

abbrev RulesConvert : Option (List IngressRule) → Type 0
RulesConvert o = (out : List IngressRule) × (o ≡ some out) × All CompleteRule out

cons_rule :
    (host : Text) (paths : List HttpIngressPath) (o : Option (List IngressRule))
    → All HasService paths
    → RulesConvert o
    → RulesConvert (cons_some (rule_with host (some paths)) o)
cons_rule host paths o h (out, e, s) =
    (record { host = host; http = some paths } ∷ out, rw e refl, ((paths, refl, h), s))

net_rules : (rules : List BetaRule) → All TypedRule rules → RulesConvert (Net.convert_rules rules)
unfolding Net.convert_rules
net_rules [] h = ([], refl, tt)
net_rules (rule ∷ rules) (inl e, h) = rw e (net_rules rules h)
net_rules (rule ∷ rules) (inr (paths, e, t), h) =
    let (out, f, s) = convert_paths_lem paths t in
    rw (e, f) (cons_rule rule.host out (Net.convert_rules rules) s (net_rules rules h))

ext_rules : (rules : List BetaRule) → All FullRule rules → RulesConvert (Ext.convert_rules rules)
unfolding Ext.convert_rules
ext_rules [] h = ([], refl, tt)
ext_rules (rule ∷ rules) ((paths, e, t), h) =
    let (out, f, s) = convert_paths_lem paths t in
    rw (e, f) (cons_rule rule.host out (Ext.convert_rules rules) s (ext_rules rules h))

-- The outcome of a conversion is a complete Ingress.
abbrev pub Converts : Option Ingress → Type 0
Converts o = (i : Ingress) × (o ≡ some i) × Complete i

with_rules-Converts :
    (b : BetaIngress) (o : Option (List IngressRule)) → RulesConvert o → Converts (with_rules b o)
with_rules-Converts b o (out, e, h) = (_, ap (with_rules b) e, h)

pub net-Converts : (b : BetaIngress) → All TypedRule b.rules → Converts (Net.convert b)
unfolding Net.convert
net-Converts b h = with_rules-Converts b (Net.convert_rules b.rules) (net_rules b.rules h)

pub ext-Converts : (b : BetaIngress) → All FullRule b.rules → Converts (Ext.convert b)
unfolding Ext.convert
ext-Converts b h = with_rules-Converts b (Ext.convert_rules b.rules) (ext_rules b.rules h)
