-- ===== src/Reconcile.antt =====
-- internal/controllers/ingress/netv1/ingress_controller.go: from an Ingress to the builder. What the
-- client of the API server returns is an argument. `none` is a panic: a nil `HTTP`, a nil `Service`,
-- or a default backend without a slash.
pub mod Reading
pub mod Forgotten
pub mod Gone
pub mod Objects
pub mod Total
pub mod Controller
pub mod Beta
pub mod NetV1beta1
pub mod ExtV1beta1
pub mod Converted
pub mod Reached
pub mod Reported
pub mod Handled
pub mod Returning
pub mod Settled
use ingress_bfe.Base.{
  ℕ, Text, text, is_empty, text_eq, Map, insert, lookup, Bool, true, false, not, ◌&&◌, ◌||◌,
  if◌then◌else◌, List, [], ◌∷◌, ◌++◌, map, split_byte, Option, none, some, ℤ_eq, is_pos, Error,
  Result, ok, err,
}
use ingress_bfe.Kube.{
  Ingress, IngressRule, IngressTls, HttpIngressPath, IngressBackend, IngressServiceBackend,
  ServiceBackendPort, Service, ServicePort, Endpoints, EndpointSubset, Secret,
}
use ingress_bfe.Annotations.{Annotations}
use ingress_bfe.Annotations.Balance.{Balance, get_balance}
use ingress_bfe.Names.{format_ℤ}
use ingress_bfe.Bfe.{External}
use ingress_bfe.Builder.{ConfigBuilder, Environment, build_ingress, drop_ingress}
use ingress_bfe.Reconcile.Reading.{Client, Backends, get_ingress_backends, get_ingress_secret}

module _ (x : External) (r : Client) (default_backend : Text) where
  -- `balance, _ := GetBalance(…)`, where an error leaves it nil
  abbrev pub known_balance : Result Balance → Balance
  known_balance (ok balance) = balance
  known_balance (err e) = []

  -- `if err != nil { configBuilder.DeleteIngress(…); return err }`
  abbrev pub give_up : Environment → Ingress → Text → ConfigBuilder x → ConfigBuilder x × Error
  give_up env ingress e c = (drop_ingress x env ingress.namespace ingress.name c, some e)

  abbrev pub finish :
      Environment → Ingress → Option (ConfigBuilder x × Error) → Option (ConfigBuilder x × Error)
  finish env ingress none = none
  finish env ingress (some (c, none)) = some (c, none)
  finish env ingress (some (c, some e)) = some (give_up env ingress e c)

  -- The second part of the name of the default backend; that there is one is known by then.
  abbrev pub second : List Text → Text
  second (_ ∷ name ∷ _) = name
  second _ = []

  abbrev pub default_of_service : Option Service → Option IngressBackend → Option IngressBackend
  default_of_service none old = old
  default_of_service (some svc) old = elim svc.ports [
    | [] ↦ old
    | p ∷ _ ↦ some (record {
      service = some (record {
        name = second (split_byte default_backend b'/');
        port = record { name = p.name; number = p.port };
      });
    })
  ]

  -- `setDefautBackend`
  unfoldable pub set_default_backend : Option Service → Ingress → Ingress
  set_default_backend service ingress = record ingress {
    default_backend =
        if is_empty default_backend
        then ingress.default_backend
        else default_of_service service ingress.default_backend;
  }

  abbrev pub with_secrets :
      Environment
      → Ingress
      → ConfigBuilder x
      → Backends
      → Result (List Secret)
      → Option (ConfigBuilder x × Error)
  with_secrets env ingress c b (err e) = some (give_up env ingress e c)
  with_secrets env ingress c (services, endpoints) (ok secrets) = finish env ingress (
      build_ingress x env ingress (known_balance (get_balance r.json_error ingress.annotations))
        services endpoints secrets c)

  abbrev pub with_backends :
      Environment
      → Ingress
      → ConfigBuilder x
      → Option (Result Backends)
      → Option (ConfigBuilder x × Error)
  with_backends env ingress c none = none
  with_backends env ingress c (some (err e)) = some (give_up env ingress e c)
  with_backends env ingress c (some (ok b)) =
      with_secrets env (set_default_backend (lookup default_backend b.0) ingress) c b
        (get_ingress_secret x r default_backend ingress.namespace ingress.tls)

-- `ReconcileV1Ingress`
unfoldable pub reconcile_v1_ingress :
    (x : External)
    → Client
    → Environment
    → ConfigBuilder x
    → Ingress
    → Option (ConfigBuilder x × Error)
unfolding get_ingress_backends get_ingress_secret set_default_backend
reconcile_v1_ingress x r env c ingress =
    with_backends x r env.default_backend env ingress c
      (get_ingress_backends x r env.default_backend ingress)
