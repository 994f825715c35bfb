-- ===== src/Names.antt =====
-- internal/bfeConfig/util/name.go: the names of clusters and of namespaced objects.
pub mod Laws
use ingress_bfe.Base.{
  Text, text, split_byte, last_index_byte, drop, ◌+◌, List, [], ◌∷◌, ◌++◌, Option, none, some, ℤ,
  pos, negsuc, is_pos, int32, atoi, format_ℕ, if◌then◌else◌,
}
use ingress_bfe.Kube.{ServiceBackendPort, IngressServiceBackend}

-- `%d` of an `int32`
abbrev pub format_ℤ : ℤ → Text
format_ℤ (pos n) = format_ℕ n
format_ℤ (negsuc n) = text "-" ++ format_ℕ (n + 1)

abbrev port_text : ServiceBackendPort → Text
port_text port = if is_pos port.number then format_ℤ port.number else port.name

-- `ClusterName`, for a backend that is not nil
unfoldable pub cluster_name : Text → IngressServiceBackend → Text
cluster_name ingress_name backend =
    ingress_name ++ text "_" ++ backend.name ++ text "_" ++ port_text backend.port

-- `DefaultClusterName`
unfoldable pub default_cluster_name : Text → Text
default_cluster_name default_backend =
    text "__defaultCluster__" ++ text "_" ++ default_backend ++ text "_" ++ format_ℕ 0

-- The part of `ParsePort` after the last underscore.
unfoldable pub parse_port_text : Text → ServiceBackendPort
parse_port_text port_str = elim (atoi port_str) [
  | some i ↦ record { name = []; number = int32 i }
  | none ↦ record { name = port_str; number = pos 0 }
]

unfoldable pub parse_port : Text → ServiceBackendPort
unfolding parse_port_text
parse_port cluster_name = elim (last_index_byte cluster_name b'_') [
  | none ↦ record { name = []; number = pos 0 }
  | some index ↦ parse_port_text (drop (index + 1) cluster_name)
]

-- `SplitNamespacedName` over the parts of the split
abbrev two_parts : List Text → Text × Text
two_parts (namespace ∷ name ∷ []) = (namespace, name)
two_parts _ = ([], [])

unfoldable pub split_namespaced_name : Text → Text × Text
split_namespaced_name namespaced_name = two_parts (split_byte namespaced_name b'/')
