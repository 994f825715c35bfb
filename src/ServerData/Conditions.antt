-- ===== src/ServerData/Conditions.antt =====
-- The checks of hosts and paths, and the conditions of advanced rules.
use ingress_bfe.Base.{
  ltb, ◌==◌, ◌-◌, Text, text, text_eq, is_empty, has_prefix, has_suffix, count_byte, replace_byte,
  join, take, drop, length, not, ◌&&◌, ◌||◌, if◌then◌else◌, List, [], ◌∷◌, ◌++◌, none, some, Error,
  Result, ok, ◌>>=◌,
}
use ingress_bfe.Annotations.{Annotations}
use ingress_bfe.Annotations.Router.{get_route_expression}

-- `checkHost`
unfoldable pub check_host : Text → Error
check_host host =
    if ltb 1 (count_byte host b'*')
      || (count_byte host b'*' == 1 && not (has_prefix host (text "*.")))
    then some (text "wildcard host[" ++ host ++ text "] is illegal, should start with *. ")
    else none

-- `checkPath`
unfoldable pub check_path : Text → Error
check_path path =
    if is_empty path
    then some (text "path is not set")
    else if ltb 0 (count_byte path b'*')
    then some (text "path[" ++ path ++ text "] is illegal")
    else none

-- `hostPrimitive`; its error is always nil
unfoldable pub host_primitive : Text → Text
host_primitive host =
    if is_empty host || text_eq host (text "*")
    then []
    else if has_prefix host (text "*.")
    then text "req_host_regmatch(\"(?i)^[^\\.]+"
      ++ replace_byte (drop 2 host) b'.' (text "\\.")
      ++ text "\")"
    else text "req_host_in(\"" ++ host ++ text "\")"

-- `pathPrimitive`; its error is always nil
unfoldable pub path_primitive : Text → Text
path_primitive path =
    if is_empty path || text_eq path (text "*")
    then []
    else if has_suffix path (text "*")
    then text "req_path_element_prefix_in(\"" ++ take (length path - 1) path ++ text "\", false)"
    else text "req_path_in(\"" ++ path ++ text "\", false)"

-- `if len(primitive) > 0 { statement = append(statement, primitive) }`
abbrev add_primitive : List Text → Text → List Text
add_primitive statement primitive =
    if is_empty primitive then statement else statement ++ primitive ∷ []

unfoldable pub build_condition : Text → Text → Annotations → Result Text
build_condition host path annots = do
  let statement = add_primitive (add_primitive [] (host_primitive host)) (path_primitive path)
  primitive ← get_route_expression annots
  ok (join (add_primitive statement primitive) (text "&&"))
