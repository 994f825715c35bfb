-- ===== src/Annotations/Router.antt =====
-- internal/bfeConfig/annotations/router.go
use ingress_bfe.Base.{
  ◌==◌, ◌+◌, Text, text, is_empty, index_byte, trim_space, take, drop, length, not, ◌&&◌, none,
  some, [], ◌++◌, Result, ok, err, ◌>>=◌, if◌then◌else◌,
}
use ingress_bfe.Annotations.{Annotations, value, cookie_annotation, header_annotation}

-- The common body of `cookiePrimitive` and `headerPrimitive`: `kind` is "cookie" or "header".
primitive : Text → Text → Result Text
primitive kind condition =
    let illegal = err (kind ++ text " annotation[" ++ condition ++ text "] is illegal") in
    if is_empty condition then ok [] else elim (index_byte condition b':') [
      | none ↦ illegal
      | some index ↦
          if index + 1 == length condition
          then illegal
          else ok (
              text "req_"
              ++ kind
              ++ text "_value_in(\""
              ++ trim_space (take index condition)
              ++ text "\", \""
              ++ trim_space (drop (index + 1) condition)
              ++ text "\", false)")
    ]

unfoldable pub cookie_primitive : Text → Result Text
unfolding primitive
cookie_primitive cookie = primitive (text "cookie") cookie

unfoldable pub header_primitive : Text → Result Text
unfolding primitive
header_primitive header = primitive (text "header") header

-- The three tests on the lengths at the end of `GetRouteExpression`.
unfoldable pub both : Text → Text → Text
both primitive1 primitive2 =
    if not (is_empty primitive1) && not (is_empty primitive2)
    then primitive1 ++ text "&&" ++ primitive2
    else if not (is_empty primitive1)
    then primitive1
    else if not (is_empty primitive2)
    then primitive2
    else []

unfoldable pub get_route_expression : Annotations → Result Text
unfolding both
get_route_expression annotations = do
  primitive1 ← cookie_primitive (value cookie_annotation annotations)
  primitive2 ← header_primitive (value header_annotation annotations)
  ok (both primitive1 primitive2)
