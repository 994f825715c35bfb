-- ===== src/Tests/Controllers.antt =====
-- Calls of `Reconcile` of the three controllers, and their theorems at concrete objects.
use ingress_bfe.Base.{text, text_eq, [], ◌∷◌, none, some, ok, pos, true, ◌≡◌, ◌↔◌, refl, inr, Error}
use ingress_bfe.Samples.{external}
use ingress_bfe.Kube.{BetaIngress, prefix}
use ingress_bfe.Annotations.{Annotations, find, value}
use ingress_bfe.Annotations.Status.{compare_status}
use ingress_bfe.Filter.{ingress_class_filter}
use ingress_bfe.Options.{new_ingress_options, check}
use ingress_bfe.Builder.{ConfigBuilder, drop_ingress}
use ingress_bfe.Builder.Total.{Returns, Returns-some}
use ingress_bfe.Builder.Sound.{Sound}
use ingress_bfe.Reconcile.Objects.{reconcile_secret}
use ingress_bfe.Reconcile.Controller.{Classes, Reconciled, accepts, reconcile, set_status}
use ingress_bfe.Reconcile.Returning.{
  Checked, reconcile-Returns, net_reconcile-Returns, ext_reconcile-Returns, beta_reconcile-panics,
}
use ingress_bfe.Reconcile.NetV1beta1 as Net
use ingress_bfe.Reconcile.ExtV1beta1 as Ext
use ingress_bfe.Reconcile.Handled.{Handled}
use ingress_bfe.Reconcile.Settled.{written, set_status-settles}
use ingress_bfe.Tests.Servers.{ingress}
use ingress_bfe.Tests.Config.{env, start, empty_client}

abbrev classes : Classes
classes = record {
  ingress_class_key = text "class";
  is_default_ingress_class = text "default";
  ingress_class = text "bfe";
  controller_name = text "bfe-networks.com/ingress-controller";
  v1 = none;
  v1beta1 = some (
      record {
        name = text "bfe";
        annotations = none;
        controller = text "bfe-networks.com/ingress-controller";
      }
      ∷ []);
}

checked : Checked new_ingress_options env
unfolding check
checked = record { enabled = refl; passes = refl; backend = refl }

reconcile-Returns_example :
    Returns (reconcile external empty_client classes env start (text "ns") (text "a") (ok ingress))
reconcile-Returns_example =
    reconcile-Returns external empty_client classes env start new_ingress_options (text "ns")
      (text "a") (ok ingress) checked ((_, refl, ((_, refl), tt)), tt)

-- An Ingress of the older versions, of a class that is named.
abbrev beta : Annotations → BetaIngress
beta annots = record {
  namespace = text "ns";
  name = text "a";
  annotations = annots;
  creation_timestamp = 5;
  ingress_class_name = some (text "bfe");
  backend = none;
  tls = [];
  rules =
      record {
        host = text "h.com";
        http = some (
            record {
              path = text "/x";
              path_type = some prefix;
              backend = record {
                service_name = text "web";
                service_port = record { int_val = pos 80; str_val = [] };
              };
            }
            ∷ []);
      }
      ∷ [];
}

net_reconcile-Returns_example : Returns (
    Net.reconcile external empty_client classes env start
      (text "ns")
      (text "a")
      (ok (beta (some []))))
net_reconcile-Returns_example =
    net_reconcile-Returns external empty_client classes env start new_ingress_options (text "ns")
      (text "a") (ok (beta (some []))) checked (([], refl), (inr (_, refl, ((_, refl), tt)), tt))

ext_reconcile-Returns_example : Returns (
    Ext.reconcile external empty_client classes env start
      (text "ns")
      (text "a")
      (ok (beta (some []))))
ext_reconcile-Returns_example =
    ext_reconcile-Returns external empty_client classes env start new_ingress_options (text "ns")
      (text "a") (ok (beta (some []))) checked (([], refl), ((_, refl, ((_, refl), tt)), tt))

accepted : accepts classes none (some (text "bfe")) ≡ true
unfolding ingress_class_filter text_eq value text
accepted = refl

beta_reconcile-panics_example :
    (Net.reconcile external empty_client classes env start (text "ns") (text "a") (ok (beta none))
      ≡ none)
    × (Ext.reconcile external empty_client classes env start (text "ns") (text "a") (ok (beta none))
        ≡ none)
beta_reconcile-panics_example =
    beta_reconcile-panics external empty_client classes env start (text "ns") (text "a") (beta none)
      refl accepted

abbrev outcome : Error
outcome = some (text "port not found")

patched : set_status outcome none ≡ some (written outcome none)
unfolding set_status compare_status value find
patched = refl

set_status-settles_example :
    ((set_status none (written outcome none) ≡ none) ↔ (none ≡ outcome))
    × (find (text "other") (written outcome none) ≡ find (text "other") none)
unfolding text text_eq ingress_bfe.Json.Utf8.is_utf8_from
set_status-settles_example =
    set_status-settles outcome none none (written outcome none) (text "other") refl patched refl

-- An Ingress that exists, a Secret that is missing, and a round of the timer.
handled :
    (out : Reconciled external) × (reconcile external empty_client classes env start
        (text "ns")
        (text "a")
        (ok ingress)
      ≡ some out)
handled =
    Returns-some
      (reconcile external empty_client classes env start (text "ns") (text "a") (ok ingress))
      (reconcile-Returns external empty_client classes env start new_ingress_options (text "ns")
        (text "a") (ok ingress) checked ((_, refl, ((_, refl), tt)), tt))

abbrev after_secret : ConfigBuilder external
after_secret = reconcile_secret external empty_client env handled.0.config (text "ns") (text "cert")

-- The Ingress is not found any more.
abbrev lost : ConfigBuilder external
lost = drop_ingress external env (text "ns") (text "a") after_secret
