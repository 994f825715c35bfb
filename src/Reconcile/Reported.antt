-- ===== src/Reconcile/Reported.antt =====
-- What a call of a controller reports of an Ingress of its class, and what it leaves after an error.
use ingress_bfe.Base.{
  Text, Option, none, some, some_inj, Error, ◌≡◌, refl, sym, ap, subst, List, arith,
}
use ingress_bfe.Kube.{Ingress, IngressRule, BetaIngress}
use ingress_bfe.Annotations.{Annotations}
use ingress_bfe.Bfe.{External}
use ingress_bfe.Builder.{ConfigBuilder, Environment}
use ingress_bfe.Builder.Sound.{Reachable}
use ingress_bfe.Reconcile.Reading.{Client}
use ingress_bfe.Reconcile.{reconcile_v1_ingress}
use ingress_bfe.Reconcile.Controller.{Reconciled, event_of, with_status}
use ingress_bfe.Reconcile.Beta as Beta
use ingress_bfe.Reconcile.NetV1beta1 as Net
use ingress_bfe.Reconcile.ExtV1beta1 as Ext
use ingress_bfe.Reconcile.Gone.{Gone, reconcile_v1_ingress-Gone}

module _ (x : External) where
  open x use {namespaced_name}

  abbrev pub IfReturned : (Reconciled x → Type 0) → Option (Reconciled x) → Type 0
  IfReturned P none = Unit
  IfReturned P (some out) = P out

  -- What is known of an outcome of `ReconcileV1Ingress`.
  abbrev pub GoneIf : Text → Option (ConfigBuilder x × Error) → Type 0
  GoneIf name o = (c : ConfigBuilder x) (e : Text) → o ≡ some (c, some e) → Gone x name c

  -- A call that returns reports its error, and leaves nothing after one.
  abbrev pub Reports : Text → Reconciled x → Type 0
  Reports name out =
      (out.event ≡ some (event_of out.error))
      × ((e : Text) → out.error ≡ some e → Gone x name out.config)

  pub with_status-Reports :
      (name : Text) (annots : Annotations) (o : Option (ConfigBuilder x × Error))
      → GoneIf name o
      → IfReturned (Reports name) (with_status x annots o)
  with_status-Reports name annots none h = tt
  with_status-Reports name annots (some (c, e)) h = (refl, λ m q. h c m (ap (λ e. some (c, e)) q))

  with_patch-Reports :
      (name : Text) (c : ConfigBuilder x) (e : Error) (patch : Option (Option Annotations))
      → ((m : Text) → e ≡ some m → Gone x name c)
      → IfReturned (Reports name) (Beta.with_patch x (c, e) patch)
  with_patch-Reports name c e none h = tt
  with_patch-Reports name c e (some patch) h = (refl, h)

  beta_status-Reports :
      (name : Text) (annots : Annotations) (o : Option (ConfigBuilder x × Error))
      → GoneIf name o
      → IfReturned (Reports name) (Beta.with_status x annots o)
  beta_status-Reports name annots none h = tt
  beta_status-Reports name annots (some (c, e)) h =
      with_patch-Reports name c e (Beta.set_status e annots)
        (λ m q. h c m (ap (λ e. some (c, e)) q))

  -- The conversion keeps the name.
  abbrev pub KeepsName : (BetaIngress → Option Ingress) → Type 0
  KeepsName convert =
      (b : BetaIngress) (i : Ingress)
      → convert b ≡ some i
      → namespaced_name i.namespace i.name ≡ namespaced_name b.namespace b.name

  with_rules-name :
      (b : BetaIngress) (rules : Option (List IngressRule)) (i : Ingress)
      → Beta.with_rules b rules ≡ some i
      → namespaced_name i.namespace i.name ≡ namespaced_name b.namespace b.name
  with_rules-name b none i e = absurd (ground (arith, e))
  with_rules-name b (some rules) i e =
      sym (ap (λ (i : Ingress). namespaced_name i.namespace i.name) (some_inj e))

  pub with_converted-Reports :
      (r : Client) (env : Environment) (c : ConfigBuilder x) (b : BetaIngress) (o : Option Ingress)
      → ((i : Ingress)
          → o ≡ some i
          → namespaced_name i.namespace i.name ≡ namespaced_name b.namespace b.name)
      → Reachable x c
      → IfReturned
          (Reports (namespaced_name b.namespace b.name))
          (Beta.with_converted x r env c b.annotations o)
  with_converted-Reports r env c b none q h = tt
  with_converted-Reports r env c b (some i) q h =
      beta_status-Reports _ b.annotations (reconcile_v1_ingress x r env c i) (λ d e p.
        subst (λ n. Gone x n d) (q i refl) (reconcile_v1_ingress-Gone x r env c d i e h p))

  pub net-KeepsName : KeepsName Net.convert
  unfolding Net.convert
  net-KeepsName b i e = with_rules-name b (Net.convert_rules b.rules) i e

  pub ext-KeepsName : KeepsName Ext.convert
  unfolding Ext.convert
  ext-KeepsName b i e = with_rules-name b (Ext.convert_rules b.rules) i e
