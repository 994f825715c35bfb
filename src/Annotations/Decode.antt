-- ===== src/Annotations/Decode.antt =====
-- How `Unmarshal` of `encoding/json` fills the map of maps of weights of
-- internal/bfeConfig/annotations/balance.go.
use ingress_bfe.Base.{Text, Map, insert, atoi, [], Option, none, some, ℤ, pos}
use ingress_bfe.Json.Parse.{
  Json, null_value, number_value, object_value, Members, no_members, member, parse_json,
}

-- A null leaves the zero of the element; a number must be an integer of 64 bits.
abbrev pub decode_weight : Json → Option ℤ
decode_weight null_value = some (pos 0)
decode_weight (number_value digits) = atoi digits
decode_weight _ = none

unfoldable pub decode_weights : Members → Map ℤ → Option (Map ℤ)
decode_weights no_members weights = some weights
decode_weights (member name v members) weights = elim (decode_weight v) [
  | none ↦ none
  | some weight ↦ decode_weights members (insert name weight weights)
]

-- Each element starts anew; a null is the nil map.
abbrev pub decode_service : Json → Option (Map ℤ)
decode_service null_value = some []
decode_service (object_value members) = decode_weights members []
decode_service _ = none

unfoldable pub decode_services : Members → Map (Map ℤ) → Option (Map (Map ℤ))
unfolding decode_weights
decode_services no_members services = some services
decode_services (member name v members) services = elim (decode_service v) [
  | none ↦ none
  | some weights ↦ decode_services members (insert name weights services)
]

abbrev pub decode_balance : Option Json → Option (Map (Map ℤ))
decode_balance none = none
decode_balance (some null_value) = some []
decode_balance (some (object_value members)) = decode_services members []
decode_balance (some _) = none

-- `Unmarshal` into the balance; an error is `none`
unfoldable pub unmarshal_balance : Text → Option (Map (Map ℤ))
unfolding decode_services
unmarshal_balance s = decode_balance (parse_json s)
