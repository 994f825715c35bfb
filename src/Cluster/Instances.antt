-- ===== src/Cluster/Instances.antt =====
-- The instances and the weights of one cluster, from the services and the endpoints. A nil pointer
-- is `none`.
use ingress_bfe.Base.{
  Text, text_eq, is_empty, Map, lookup, insert, Bool, not, ◌&&◌, ◌||◌, if◌then◌else◌, List, [], ◌∷◌,
  ◌++◌, map, Option, none, some, ℤ, pos, ℤ_eq, is_pos,
}
use ingress_bfe.Annotations.Balance.{Balance}
use ingress_bfe.Kube.{
  ServiceBackendPort, IngressServiceBackend, IntOrString, ServicePort, Service, EndpointPort,
  EndpointSubset, Endpoints,
}
use ingress_bfe.Bfe.{External, BackendConf, SubClusterBackend, ClusterBackend}

-- `defaultWeight`
abbrev pub default_weight : ℤ
default_weight = pos 10

unfoldable pub new_backend_conf : Text → ℤ → ℤ → BackendConf
new_backend_conf ip port weight = record { name = ip; addr = ip; port = port; weight = weight }

-- The zero `intstr.IntOrString`.
abbrev pub no_port : IntOrString
no_port = record { int_val = pos 0; str_val = [] }

abbrev pub is_unset : IntOrString → Bool
is_unset port = ℤ_eq port.int_val (pos 0) && is_empty port.str_val

-- The first address of the first subset, at its first port, if there is one.
abbrev pub first_instance : List EndpointSubset → List BackendConf
first_instance [] = []
first_instance (subset ∷ _) = elim subset.ports [
  | [] ↦ []
  | endpoint_port ∷ _ ↦ elim subset.addresses [
    | [] ↦ []
    | ip ∷ _ ↦ new_backend_conf ip endpoint_port.port default_weight ∷ []
  ]
]

abbrev pub port_matches : IntOrString → EndpointPort → Bool
port_matches port endpoint_port =
    ℤ_eq port.int_val endpoint_port.port || text_eq port.str_val endpoint_port.name

unfoldable pub port_instances : IntOrString → List Text → List EndpointPort → List BackendConf
port_instances port addresses [] = []
port_instances port addresses (p ∷ ports) =
    let rest = port_instances port addresses ports in
    if port_matches port p
    then map (λ ip. new_backend_conf ip p.port default_weight) addresses ++ rest
    else rest

unfoldable pub subset_instances : IntOrString → List EndpointSubset → List BackendConf
unfolding port_instances
subset_instances port [] = []
subset_instances port (subset ∷ subsets) =
    port_instances port subset.addresses subset.ports ++ subset_instances port subsets

-- `newSubClusterBackend`
unfoldable pub new_sub_cluster_backend : Option Endpoints → IntOrString → SubClusterBackend
unfolding subset_instances
new_sub_cluster_backend none port = none
new_sub_cluster_backend (some ep) port =
    some (if is_unset port then first_instance ep.subsets else subset_instances port ep.subsets)

-- The port of the service that the backend does not mean.
abbrev pub skips : ServiceBackendPort → ServicePort → Bool
skips backend_port p =
    (is_pos backend_port.number && not (ℤ_eq backend_port.number p.port))
    || (not (is_empty backend_port.name) && not (text_eq backend_port.name p.name))

abbrev pub target_of : ServicePort → IntOrString
target_of p =
    if not (is_empty p.name)
    then record { int_val = pos 0; str_val = p.name }
    else if is_pos p.target_port.int_val
    then record { int_val = p.target_port.int_val; str_val = [] }
    else no_port

unfoldable pub find_port : ServiceBackendPort → List ServicePort → IntOrString
find_port backend_port [] = no_port
find_port backend_port (p ∷ ports) =
    if skips backend_port p then find_port backend_port ports else target_of p

-- `getTargetPort`
unfoldable pub get_target_port : ServiceBackendPort → Option Service → IntOrString
unfolding find_port
get_target_port backend_port none = no_port
get_target_port backend_port (some svc) = find_port backend_port svc.ports

module _ (x : External) where
  open x use {namespaced_name}

  -- One sub-cluster for each service of the annotation.
  unfoldable pub weighted_backends :
      Text
      → ServiceBackendPort
      → Map Service
      → Map Endpoints
      → Map ℤ
      → ClusterBackend
      → ClusterBackend
  weighted_backends namespace port services endpoints [] sub_clusters = sub_clusters
  weighted_backends namespace port services endpoints ((name, _) ∷ weights) sub_clusters =
      let service_name = namespaced_name namespace name in
      weighted_backends namespace port services endpoints weights (
        insert service_name
          (new_sub_cluster_backend (lookup service_name endpoints)
            (get_target_port port (lookup service_name services)))
          sub_clusters)

  -- `newClusterBackend`
  unfoldable pub new_cluster_backend :
      Text → Option IngressServiceBackend → Balance → Map Service → Map Endpoints → ClusterBackend
  unfolding weighted_backends
  new_cluster_backend namespace none balance services endpoints = []
  new_cluster_backend namespace (some backend) balance services endpoints =
      elim (lookup backend.name balance) [
        | none ↦
            weighted_backends namespace backend.port services endpoints
              ((backend.name, default_weight) ∷ []) []
        | some weights ↦ weighted_backends namespace backend.port services endpoints weights []
      ]

  unfoldable pub weighted_gslb : Text → Map ℤ → Map ℤ → Map ℤ
  weighted_gslb namespace [] gslb_conf = gslb_conf
  weighted_gslb namespace ((name, weight) ∷ weights) gslb_conf =
      weighted_gslb namespace weights (insert (namespaced_name namespace name) weight gslb_conf)

  -- `newGslbClusterConf`
  unfoldable pub new_gslb_cluster_conf : Text → Text → Balance → Map ℤ
  unfolding weighted_gslb
  new_gslb_cluster_conf namespace service balance = elim (lookup service balance) [
    | none ↦ insert (namespaced_name namespace service) default_weight []
    | some weights ↦ weighted_gslb namespace weights []
  ]
