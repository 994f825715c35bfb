-- ===== src/Kube.antt =====
-- The Kubernetes objects that the program reads (k8s.io/api), with the fields that it uses. A
-- pointer is an `Option`; a time is a number of nanoseconds.
use ingress_bfe.Base.{ℕ, ℤ, Text, Map, List, Option}
use ingress_bfe.Annotations.{Annotations}

pub record ServiceBackendPort : Type 0 where
  pub name : Text
  pub number : ℤ

pub record IngressServiceBackend : Type 0 where
  pub name : Text
  pub port : ServiceBackendPort

pub record IngressBackend : Type 0 where
  pub service : Option IngressServiceBackend

pub data PathType : Type 0 where
  exact prefix implementation_specific : PathType
  other : Text → PathType

pub record HttpIngressPath : Type 0 where
  pub path : Text
  pub path_type : Option PathType
  pub backend : IngressBackend

pub record IngressRule : Type 0 where
  pub host : Text
  pub http : Option (List HttpIngressPath)

pub record IngressTls : Type 0 where
  pub hosts : List Text
  pub secret_name : Text

pub record Ingress : Type 0 where
  pub namespace : Text
  pub name : Text
  pub annotations : Annotations
  pub creation_timestamp : ℕ
  pub ingress_class_name : Option Text
  pub default_backend : Option IngressBackend
  pub tls : List IngressTls
  pub rules : List IngressRule

-- `intstr.IntOrString`; the program sets its tag and never reads it.
pub record IntOrString : Type 0 where
  pub int_val : ℤ
  pub str_val : Text

pub record ServicePort : Type 0 where
  pub name : Text
  pub port : ℤ
  pub target_port : IntOrString

pub record Service : Type 0 where
  pub namespace : Text
  pub name : Text
  pub ports : List ServicePort

pub record EndpointPort : Type 0 where
  pub name : Text
  pub port : ℤ

pub record EndpointSubset : Type 0 where
  pub addresses : List Text
  pub ports : List EndpointPort

pub record Endpoints : Type 0 where
  pub namespace : Text
  pub name : Text
  pub subsets : List EndpointSubset

pub record Secret : Type 0 where
  pub namespace : Text
  pub name : Text
  pub contents : Map Text

-- The Ingress of networking.k8s.io/v1beta1, and of extensions/v1beta1, which has the same fields.

pub record BetaBackend : Type 0 where
  pub service_name : Text
  pub service_port : IntOrString

pub record BetaPath : Type 0 where
  pub path : Text
  pub path_type : Option PathType
  pub backend : BetaBackend

pub record BetaRule : Type 0 where
  pub host : Text
  pub http : Option (List BetaPath)

pub record BetaIngress : Type 0 where
  pub namespace : Text
  pub name : Text
  pub annotations : Annotations
  pub creation_timestamp : ℕ
  pub ingress_class_name : Option Text
  pub backend : Option BetaBackend
  pub tls : List IngressTls
  pub rules : List BetaRule
