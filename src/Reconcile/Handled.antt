-- ===== src/Reconcile/Handled.antt =====
-- What each call of a controller does, on every branch.
use ingress_bfe.Base.{Text, Option, some, Result, ok, err, ◌≡◌, ◌⊎◌}
use ingress_bfe.Kube.{Ingress, BetaIngress}
use ingress_bfe.Annotations.{Annotations, value}
use ingress_bfe.Filter.{SomeClass}
use ingress_bfe.Bfe.{External}
use ingress_bfe.Builder.{ConfigBuilder}
use ingress_bfe.Builder.Sound.{Sound}
use ingress_bfe.Cluster.Update as Clusters
use ingress_bfe.Reconcile.Controller.{Classes, Reconciled, passed, event_of}
use ingress_bfe.Reconcile.Beta as Beta
use ingress_bfe.Reconcile.NetV1beta1 as Net
use ingress_bfe.Reconcile.ExtV1beta1 as Ext
use ingress_bfe.Reconcile.Gone.{Gone}
use ingress_bfe.Reconcile.Reached.{
  Call, ingress_call, net_call, ext_call, service_call, secret_call, timer_call,
}

-- The controller is to handle an object: its annotation names the class of the controller, or a class
-- of this controller is the one that it names, or a default one when it names none.
abbrev pub IsAccepted : Classes → Annotations → Option Text → Type 0
IsAccepted k annots class_name =
    (value k.ingress_class_key annots ≡ k.ingress_class)
    ⊎ (SomeClass k.ingress_class_key k.is_default_ingress_class k.controller_name class_name k.v1
        ⊎ SomeClass k.ingress_class_key k.is_default_ingress_class k.controller_name class_name
            k.v1beta1)

module _ (x : External) where
  open x use {namespaced_name}

  -- A refused object changes nothing; for an accepted one the event tells the error that is returned,
  -- and after an error the Ingress is gone.
  pub record HandledAs (name : Text) (accepted : Type 0) (c : ConfigBuilder x) (out : Reconciled x)
      : Type 0 where
    pub refused : (¬ accepted) → out ≡ passed x c
    pub event : accepted → out.event ≡ some (event_of out.error)
    pub failed : (e : Text) → accepted → out.error ≡ some e → Gone x name out.config

  -- An object that is not found is gone, and nothing is reported.
  abbrev pub NotFound : Text → Reconciled x → Type 0
  NotFound name out = Gone x name out.config × (out ≡ passed x out.config)

  abbrev pub HandledIngress :
      Classes → ConfigBuilder x → Text → Text → Result Ingress → Reconciled x → Type 0
  HandledIngress k c namespace name (err e) out = NotFound (namespaced_name namespace name) out
  HandledIngress k c namespace name (ok i) out =
      HandledAs (namespaced_name i.namespace i.name)
        (IsAccepted k i.annotations i.ingress_class_name) c out

  abbrev pub HandledBeta :
      Classes → ConfigBuilder x → Text → Text → Result BetaIngress → Reconciled x → Type 0
  HandledBeta k c namespace name (err e) out = NotFound (namespaced_name namespace name) out
  HandledBeta k c namespace name (ok i) out =
      HandledAs (namespaced_name i.namespace i.name)
        (IsAccepted k i.annotations i.ingress_class_name) c out

  -- A Service changes the clusters only, a Secret the certificates only.
  abbrev pub Handled : (c c' : ConfigBuilder x) → Call x c c' → Type 0
  Handled _ _ (ingress_call r k env namespace name found c out q) =
      HandledIngress k c namespace name found out
  Handled _ _ (net_call r k env namespace name found c out q) =
      HandledBeta k c namespace name found out
  Handled _ _ (ext_call r k env namespace name found c out q) =
      HandledBeta k c namespace name found out
  Handled c c' (service_call r env namespace name _ _ q) =
      (c'.server_data_conf ≡ c.server_data_conf) × (c'.tls_conf ≡ c.tls_conf)
  Handled c c' (secret_call r env namespace name _) =
      (c'.server_data_conf ≡ c.server_data_conf) × (c'.cluster_conf ≡ c.cluster_conf)
  Handled c c' (timer_call f _) = Unit

  -- Only the clusters differ.
  abbrev OnlyClusters : ConfigBuilder x → ConfigBuilder x → Type 0
  OnlyClusters c c' = (c'.server_data_conf ≡ c.server_data_conf) × (c'.tls_conf ≡ c.tls_conf)
