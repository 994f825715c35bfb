-- ===== src/Annotations/Status.antt =====
-- internal/bfeConfig/annotations/status.go: the annotation in which the controller tells the outcome.
pub mod Compare
use ingress_bfe.Base.{
  ℕ, ◌+◌, leb, ◌==◌, Text, text, is_empty, text_eq, Bool, true, false, ◌&&◌, if◌then◌else◌, [], ◌∷◌,
  ◌++◌, Option, none, some, Error,
}
use ingress_bfe.Json.Strings.{write_string}
use ingress_bfe.Json.Parse.{
  Json, null_value, string_value, object_value, Members, no_members, member, parse_json,
}
use ingress_bfe.Annotations.{bfe_annotation_prefix}

abbrev pub status_annotation_key : Text
status_annotation_key = bfe_annotation_prefix ++ text "bfe-ingress-status"

-- `statusMsg`
pub record StatusMsg : Type 0 where
  pub status : Text
  pub message : Text

-- The text of a `statusMsg`; an empty message is left out.
unfoldable pub marshal_status : StatusMsg → Text
unfolding write_string
marshal_status s =
    text "{\"status\":"
    ++ write_string s.status
    ++ (if is_empty s.message then [] else text ",\"message\":" ++ write_string s.message)
    ++ text "}"

abbrev pub status_of : Error → StatusMsg
status_of none = record { status = text "success"; message = [] }
status_of (some e) = record { status = text "error"; message = e }

-- `GenErrorMsg`
unfoldable pub gen_error_msg : Error → Text
unfolding marshal_status
gen_error_msg e = marshal_status (status_of e)

abbrev lower : ℕ → ℕ
lower c = if leb 65 c && leb c 90 then c + 32 else c

abbrev long_s : ℕ → Text → Bool
long_s a [] = false
long_s a (b ∷ _) = a == 0xc5 && b == 0xbf

-- A key as it is compared with the name of a field: in lower case, with an s for U+017F. No name
-- has a k, so that the sign for kelvin matches none.
unfoldable pub fold_from : Bool → Text → Text
fold_from skip [] = []
fold_from true (c ∷ s) = fold_from false s
fold_from false (c ∷ s) = (if long_s c s then b's' else lower c) ∷ fold_from (long_s c s) s

abbrev pub names_field : Text → Text → Bool
names_field name key = text_eq (fold_from false key) name

-- A string sets a field, null leaves it, and another value is an error.
abbrev set_status : Json → StatusMsg → Option StatusMsg
set_status null_value s = some s
set_status (string_value v) s = some (record s { status = v })
set_status _ s = none

abbrev set_message : Json → StatusMsg → Option StatusMsg
set_message null_value s = some s
set_message (string_value v) s = some (record s { message = v })
set_message _ s = none

abbrev set_field : Text → Json → StatusMsg → Option StatusMsg
set_field key v s =
    if names_field (text "status") key
    then set_status v s
    else if names_field (text "message") key
    then set_message v s
    else some s

unfoldable pub decode_members : Members → StatusMsg → Option StatusMsg
unfolding fold_from
decode_members no_members s = some s
decode_members (member key v members) s = elim (set_field key v s) [
  | none ↦ none
  | some t ↦ decode_members members t
]

abbrev decode_status : Option Json → StatusMsg → Option StatusMsg
decode_status none s = none
decode_status (some null_value) s = some s
decode_status (some (object_value members)) s = decode_members members s
decode_status (some _) s = none

-- `Unmarshal` into a zero `statusMsg`; an error is `none`
unfoldable pub unmarshal_status : Text → Option StatusMsg
unfolding parse_json decode_members
unmarshal_status s = decode_status (parse_json s) (record { status = []; message = [] })

-- The tests of `CompareStatus`.
abbrev pub is_status : Error → Option StatusMsg → Bool
is_status e none = false
is_status none (some s) = text_eq s.status (text "success")
is_status (some e) (some s) = text_eq s.status (text "error") && text_eq s.message e

-- `CompareStatus`
unfoldable pub compare_status : Error → Text → ℕ
unfolding unmarshal_status
compare_status e status =
    if is_empty status then 1 else if is_status e (unmarshal_status status) then 0 else 1
