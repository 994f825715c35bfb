-- ===== src/Reconcile/Reading.antt =====
-- The backends and the secrets that the controller reads for an Ingress.
use ingress_bfe.Base.{
  Text, text, is_empty, text_eq, Map, insert, lookup, Bool, true, false, not, ◌&&◌, ◌||◌,
  if◌then◌else◌, List, [], ◌∷◌, ◌++◌, map, split_byte, Option, none, some, ℤ_eq, is_pos, Result, ok,
  err,
}
use ingress_bfe.Kube.{
  Ingress, IngressRule, IngressTls, HttpIngressPath, ServiceBackendPort, Service, ServicePort,
  Endpoints, EndpointSubset, Secret,
}
use ingress_bfe.Annotations.Balance.{Balance, get_balance}
use ingress_bfe.Names.{format_ℤ}
use ingress_bfe.Bfe.{External}

-- `r.Get` for each kind of object, by namespace and name, and the text of the error
-- of `json.Unmarshal` on a text of the balance.
pub record Client : Type 0 where
  pub service : Text → Text → Result Service
  pub endpoints : Text → Text → Result Endpoints
  pub secret : Text → Text → Result Secret
  pub json_error : Text → Text

-- The first subset has a port.
abbrev pub has_port : List EndpointSubset → Bool
has_port [] = false
has_port (subset ∷ _) = elim subset.ports [ [] ↦ false | _ ∷ _ ↦ true ]

abbrev pub with_port : Text → Text → Result Endpoints → Result Endpoints
with_port namespace name (err e) = err e
with_port namespace name (ok ep) =
    if has_port ep.subsets
    then ok ep
    else err (text "not endpoint found for service, " ++ namespace ++ text "/" ++ name)

unfoldable pub get_endpoint : Client → Text → Text → Result Endpoints
get_endpoint r namespace name = with_port namespace name (r.endpoints namespace name)

unfoldable pub has_service_port : ServiceBackendPort → List ServicePort → Bool
has_service_port port [] = false
has_service_port port (p ∷ ports) =
    (is_pos port.number && ℤ_eq p.port port.number)
    || (not (is_empty port.name) && text_eq p.name port.name)
    || has_service_port port ports

abbrev pub with_service_port : Text → ServiceBackendPort → Result Service → Result Service
with_service_port name port (err e) = err e
with_service_port name port (ok svc) =
    if has_service_port port svc.ports
    then ok svc
    else err (
        text "service["
        ++ name
        ++ text "] port ["
        ++ format_ℤ port.number
        ++ text " "
        ++ port.name
        ++ text "] not found")

unfoldable pub get_service : Client → Text → Text → ServiceBackendPort → Result Service
unfolding has_service_port
get_service r namespace name port = with_service_port name port (r.service namespace name)

-- The services and the endpoints that are collected.
abbrev pub Backends : Type 0
Backends = Map Service × Map Endpoints

-- The rest of a step on values that can be errors.
abbrev pub after {ℓ κ} : {A : Type ℓ} {B : Type κ} → Result A → (A → Result B) → Result B
after (err e) next = err e
after (ok a) next = next a

-- The same for a step that can panic.
abbrev pub chain {ℓ κ} :
    {A : Type ℓ} {B : Type κ} → Option (Result A) → (A → Option (Result B)) → Option (Result B)
chain none next = none
chain (some (err e)) next = some (err e)
chain (some (ok a)) next = next a

-- `getDefaultBackends` for the parts of the name
abbrev pub default_of : Client → List Text → Option (Result (Service × Endpoints))
default_of r (namespace ∷ name ∷ _) = some (
    after (r.service namespace name) (λ svc. elim svc.ports [
      | [] ↦ err (text "fail to get service: " ++ namespace ++ text "/" ++ name)
      | _ ∷ _ ↦ after (get_endpoint r namespace name) (λ ep. ok (svc, ep))
    ]))
default_of r _ = none

unfoldable pub get_default_backends : Client → Text → Option (Result (Service × Endpoints))
unfolding get_endpoint
get_default_backends r name = default_of r (split_byte name b'/')

module _ (x : External) (r : Client) (default_backend : Text) where
  open x use {namespaced_name}

  -- The loop over the names of the services of a path.
  unfoldable pub add_services : Text → ServiceBackendPort → List Text → Backends → Result Backends
  unfolding get_service get_endpoint
  add_services namespace port [] b = ok b
  add_services namespace port (name ∷ names) (services, endpoints) =
      after (get_service r namespace name port) (λ svc. after (get_endpoint r namespace name) (λ ep.
        add_services namespace port names (
          insert (namespaced_name namespace name) svc services,
          insert (namespaced_name namespace name) ep endpoints,
        )))

  -- The names of the services of a path: those of the annotation, or its own.
  abbrev pub service_names : Balance → Text → List Text
  service_names balance name = elim (lookup name balance) [
    | none ↦ name ∷ []
    | some weights ↦ map (λ (w : Text × _). w.0) weights
  ]

  unfoldable pub add_path_services :
      Text → Balance → List HttpIngressPath → Backends → Option (Result Backends)
  unfolding add_services
  add_path_services namespace balance [] b = some (ok b)
  add_path_services namespace balance (p ∷ paths) b = elim p.backend.service [
    | none ↦ none
    | some backend ↦
        chain (some (add_services namespace backend.port (service_names balance backend.name) b))
          (add_path_services namespace balance paths)
  ]

  unfoldable pub add_rule_services :
      Text → Balance → List IngressRule → Backends → Option (Result Backends)
  unfolding add_path_services
  add_rule_services namespace balance [] b = some (ok b)
  add_rule_services namespace balance (rule ∷ rules) b = elim rule.http [
    | none ↦ none
    | some paths ↦
        chain (add_path_services namespace balance paths b)
          (add_rule_services namespace balance rules)
  ]

  -- The backends of the default backend, whose error is ignored.
  abbrev pub default_backends : Option (Result (Service × Endpoints)) → Option Backends
  default_backends none = none
  default_backends (some (err e)) = some ([], [])
  default_backends (some (ok (svc, ep))) =
      some ((default_backend, svc) ∷ [], (default_backend, ep) ∷ [])

  abbrev pub first_backends : Option Backends
  first_backends =
      if is_empty default_backend
      then some ([], [])
      else default_backends (get_default_backends r default_backend)

  -- `getIngressBackends`
  unfoldable pub get_ingress_backends : Ingress → Option (Result Backends)
  unfolding add_rule_services get_default_backends
  get_ingress_backends ingress = elim first_backends [
    | none ↦ none
    | some b ↦
        chain (some (get_balance r.json_error ingress.annotations))
          (λ balance. add_rule_services ingress.namespace balance ingress.rules b)
  ]

  -- `getIngressSecret`
  unfoldable pub get_ingress_secret : Text → List IngressTls → Result (List Secret)
  get_ingress_secret namespace [] = ok []
  get_ingress_secret namespace (tls ∷ rest) =
      after (r.secret namespace tls.secret_name)
        (λ secret. after (get_ingress_secret namespace rest) (λ secrets. ok (secret ∷ secrets)))
