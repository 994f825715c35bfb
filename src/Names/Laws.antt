-- ===== src/Names/Laws.antt =====
-- Cluster names carry the port of their backend, and namespaced names their parts.
use mathlib.Core.List.{append_assoc}
use native.Mathlib.Numerals.{unary_clauses}
use ingress_bfe.Base.{
  ℕ, zero, suc, ◌/◌, ◌%◌, ◌⊎◌, ap, ◌+◌, ◌<◌, ◌^◌, Text, text, split_byte, last_index_byte, drop, [],
  ◌∷◌, ◌++◌, none, some, pos, is_pos, atoi, atoi-format_ℕ, format_ℕ, format_from, int32_small,
  count_byte, inl, inr, ◌≡◌, refl, ◌∙◌, arith, if◌then◌else◌,
}
use ingress_bfe.Bfe.{External}
use ingress_bfe.Kube.{ServiceBackendPort, IngressServiceBackend}
use ingress_bfe.Names.{port_text, cluster_name, parse_port_text, parse_port, split_namespaced_name}

-- The last underscore of `s ++ "_" ++ t` stands before `t`, if `t` has none.
last_index_absent : (t : Text) (b : ℕ) → count_byte t b ≡ 0 → last_index_byte t b ≡ none
unfolding count_byte last_index_byte
last_index_absent [] b h = refl
last_index_absent (a ∷ t) b h = ground (arith, last_index_absent t b)

drop-suc : (a i : ℕ) (s : Text) → drop (suc i + 1) (a ∷ s) ≡ drop (i + 1) s
drop-suc a i s = simp unary_clauses

drop_last :
    (s t : Text) (b : ℕ)
    → count_byte t b ≡ 0
    → (i : ℕ) × (last_index_byte (s ++ b ∷ t) b ≡ some i) × (drop (i + 1) (s ++ b ∷ t) ≡ t)
unfolding last_index_byte
drop_last [] t b h = (0, rw (last_index_absent t b h) (ground arith), refl)
drop_last (a ∷ s) t b h =
    let (i, e, d) = drop_last s t b h in (suc i, rw e refl, drop-suc a i (s ++ b ∷ t) ∙ d)

-- The printed form of a number has no underscore.
count_byte-format_from :
    (fuel n : ℕ) (acc : Text) → count_byte (format_from fuel n acc) b'_' ≡ count_byte acc b'_'
unfolding format_from count_byte
count_byte-format_from zero n acc = refl
count_byte-format_from (suc fuel) n acc =
    ground (arith, count_byte-format_from fuel (n / 10) ((48 + n % 10) ∷ acc))

-- A port as Kubernetes admits it: a number from 1 on, or a name with a letter and no underscore.
abbrev pub IsPort : ServiceBackendPort → Type 0
IsPort port =
    ((n : ℕ) × (port.number ≡ pos n) × (0 < n) × (n < 2 ^ 31))
    ⊎ ((port.number ≡ pos 0) × (count_byte port.name b'_' ≡ 0) × (atoi port.name ≡ none))

-- The port as `ParsePort` returns it: a number without its name, or a name.
abbrev pub plain : ServiceBackendPort → ServiceBackendPort
plain port = if is_pos port.number then record port { name = [] } else port

parse_port-last :
    (s t : Text) → count_byte t b'_' ≡ 0 → parse_port (s ++ b'_' ∷ t) ≡ parse_port_text t
unfolding parse_port
parse_port-last s t h =
    let (i, e, d) = drop_last s t b'_' h in rw (e, parse_port) (ap parse_port_text d)

parse_port-after :
    (s t : Text) → count_byte t b'_' ≡ 0 → parse_port (s ++ text "_" ++ t) ≡ parse_port_text t
unfolding text
parse_port-after s t h = ap parse_port (append_assoc s (text "_") t) ∙ parse_port-last s t h

no_underscore : (port : ServiceBackendPort) → IsPort port → count_byte (port_text port) b'_' ≡ 0
unfolding format_ℕ count_byte
no_underscore port (inl (n, e, lo, hi)) = rw e (ground (arith, count_byte-format_from (suc n) n []))
no_underscore port (inr (e, h, k)) = rw e h

parse_port_text-port_text :
    (port : ServiceBackendPort) → IsPort port → parse_port_text (port_text port) ≡ plain port
unfolding parse_port_text
parse_port_text-port_text port (inl (n, e, lo, hi)) =
    ground (arith, atoi-format_ℕ n (omega arith), int32_small n hi)
parse_port_text-port_text port (inr (e, h, k)) = ground (arith, e, k)

-- For a port that Kubernetes admits, a number from 1 to 2 ^ 31 - 1 or a name without `_` that is no number,
-- `ParsePort` recovers the port that `ClusterName` wrote into the name of a cluster.
pub parse_port-cluster_name :
    (ingress_name : Text) (backend : IngressServiceBackend)
    → IsPort backend.port
    → parse_port (cluster_name ingress_name backend) ≡ plain backend.port
unfolding cluster_name
parse_port-cluster_name ingress_name backend h =
    let before = ingress_name ++ text "_" ++ backend.name in
    parse_port-after before (port_text backend.port) (no_underscore backend.port h)
    ∙ parse_port_text-port_text backend.port h

split_absent : (s : Text) (sep : ℕ) → count_byte s sep ≡ 0 → split_byte s sep ≡ s ∷ []
unfolding count_byte split_byte
split_absent [] sep h = refl
split_absent (a ∷ s) sep h = ground (arith, split_absent s sep)

split-join :
    (s t : Text) (sep : ℕ)
    → count_byte s sep ≡ 0
    → count_byte t sep ≡ 0
    → split_byte (s ++ sep ∷ t) sep ≡ s ∷ t ∷ []
unfolding count_byte split_byte
split-join [] t sep h k = ground (arith, split_absent t sep k)
split-join (a ∷ s) t sep h k = ground (arith, split-join s t sep)

-- `SplitNamespacedName` undoes the naming of an object whose parts have no slash.
pub split-namespaced_name :
    (x : External) (namespace name : Text)
    → count_byte namespace b'/' ≡ 0
    → count_byte name b'/' ≡ 0
    → split_namespaced_name (x.namespaced_name namespace name) ≡ (namespace, name)
unfolding split_namespaced_name text
split-namespaced_name x namespace name h k =
    rw x.namespaced_name_format (rw (split-join namespace name b'/' h k))
