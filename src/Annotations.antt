-- ===== src/Annotations.antt =====
-- internal/bfeConfig/annotations/annotation.go: the annotations of a Kubernetes object.
pub mod Priority
pub mod Router
pub mod Decode
pub mod Balance
pub mod Status
use ingress_bfe.Base.{Text, text, Map, lookup, Option, none, some, [], ◌++◌}

-- A `map[string]string`; `none` is the nil map.
abbrev pub Annotations : Type 0
Annotations = Option (Map Text)

-- `v, ok := annotations[key]`
unfoldable pub find : Text → Annotations → Option Text
find key none = none
find key (some m) = lookup key m

-- `annotations[key]`, the empty text for a missing key
unfoldable pub value : Text → Annotations → Text
unfolding find
value key annotations = elim (find key annotations) [ none ↦ [] | some v ↦ v ]

abbrev pub bfe_annotation_prefix : Text
bfe_annotation_prefix = text "bfe.ingress.kubernetes.io/"

abbrev pub cookie_annotation : Text
cookie_annotation = bfe_annotation_prefix ++ text "router.cookie"

abbrev pub header_annotation : Text
header_annotation = bfe_annotation_prefix ++ text "router.header"
