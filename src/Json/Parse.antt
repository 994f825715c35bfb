-- ===== src/Json/Parse.antt =====
-- JSON values, and their reading from tokens, with the values that are not complete on a stack, as
-- the scanner of Go does.
use ingress_bfe.Base.{ℕ, ltb, Text, Bool, if◌then◌else◌, List, [], ◌∷◌, length, Option, none, some}
use ingress_bfe.Json.Lex.{
  Token, open_object, close_object, open_array, close_array, comma, colon, null, boolean, number,
  str, lex_from,
}

mutual
  pub data Json : Type 0 where
    null_value : Json
    bool_value : Bool → Json
    number_value : Text → Json
    string_value : Text → Json
    array_value : Items → Json
    object_value : Members → Json

  pub data Items : Type 0 where
    no_items : Items
    item : Json → Items → Items

  pub data Members : Type 0 where
    no_members : Members
    member : Text → Json → Members → Members

-- A value that is not complete: an array with its items so far, or an object with its members so
-- far and the key of the next, the last in front.
pub data Frame : Type 0 where
  in_array : Items → Frame
  in_object : Members → Text → Frame

-- What can come next: a value; a value or the end of an empty array; a key or the end of an empty
-- object; a key; a colon; a comma or the end of the innermost frame; nothing.
pub data Expected : Type 0 where
  a_value an_item a_member a_key a_colon more : Expected
  nothing : Json → Expected

pub record State : Type 0 where
  pub expected : Expected
  pub stack : List Frame

abbrev reverse_items : Items → Items → Items
reverse_items no_items acc = acc
reverse_items (item v items) acc = reverse_items items (item v acc)

abbrev reverse_members : Members → Members → Members
reverse_members no_members acc = acc
reverse_members (member k v members) acc = reverse_members members (member k v acc)

-- A complete value goes to the innermost frame, or is the whole text.
abbrev finish_value : Json → List Frame → State
finish_value v [] = record { expected = nothing v; stack = [] }
finish_value v (in_array items ∷ stack) = record {
  expected = more;
  stack = in_array (item v items) ∷ stack;
}
finish_value v (in_object members key ∷ stack) = record {
  expected = more;
  stack = in_object (member key v members) [] ∷ stack;
}

-- `maxNestingDepth`
abbrev pub max_nesting_depth : ℕ
max_nesting_depth = 10000

abbrev push_frame : Expected → Frame → List Frame → Option State
push_frame expected frame stack =
    if ltb (length stack) max_nesting_depth
    then some (record { expected = expected; stack = frame ∷ stack })
    else none

abbrev start_value : Token → List Frame → Option State
start_value open_object stack = push_frame a_member (in_object no_members []) stack
start_value open_array stack = push_frame an_item (in_array no_items) stack
start_value null stack = some (finish_value null_value stack)
start_value (boolean b) stack = some (finish_value (bool_value b) stack)
start_value (number n) stack = some (finish_value (number_value n) stack)
start_value (str s) stack = some (finish_value (string_value s) stack)
start_value _ stack = none

abbrev end_array : List Frame → Option State
end_array (in_array items ∷ stack) =
    some (finish_value (array_value (reverse_items items no_items)) stack)
end_array _ = none

abbrev end_object : List Frame → Option State
end_object (in_object members _ ∷ stack) =
    some (finish_value (object_value (reverse_members members no_members)) stack)
end_object _ = none

abbrev start_key : Token → List Frame → Option State
start_key (str key) (in_object members _ ∷ stack) =
    some (record { expected = a_colon; stack = in_object members key ∷ stack })
start_key _ stack = none

-- What a comma asks for.
abbrev after_comma : List Frame → Option State
after_comma (in_array items ∷ stack) =
    some (record { expected = a_value; stack = in_array items ∷ stack })
after_comma (in_object members key ∷ stack) =
    some (record { expected = a_key; stack = in_object members key ∷ stack })
after_comma [] = none

abbrev continue_frame : Token → List Frame → Option State
continue_frame comma stack = after_comma stack
continue_frame close_array stack = end_array stack
continue_frame close_object stack = end_object stack
continue_frame _ stack = none

abbrev read_colon : Token → List Frame → Option State
read_colon colon stack = some (record { expected = a_value; stack = stack })
read_colon _ stack = none

abbrev first_item : Token → List Frame → Option State
first_item close_array stack = end_array stack
first_item t stack = start_value t stack

abbrev first_member : Token → List Frame → Option State
first_member close_object stack = end_object stack
first_member t stack = start_key t stack

abbrev pub step : State → Token → Option State
step c t = elim c.expected [
  | a_value ↦ start_value t c.stack
  | an_item ↦ first_item t c.stack
  | a_member ↦ first_member t c.stack
  | a_key ↦ start_key t c.stack
  | a_colon ↦ read_colon t c.stack
  | more ↦ continue_frame t c.stack
  | nothing _ ↦ none
]

-- The value, if the text ends there.
abbrev complete : Expected → Option Json
complete (nothing v) = some v
complete _ = none

unfoldable pub parse_from : State → List Token → Option Json
parse_from c [] = complete c.expected
parse_from c (t ∷ ts) = elim (step c t) [ none ↦ none | some d ↦ parse_from d ts ]

abbrev parse_tokens : Option (List Token) → Option Json
parse_tokens none = none
parse_tokens (some ts) = parse_from (record { expected = a_value; stack = [] }) ts

-- The value of a text; `none` is a syntax error.
unfoldable pub parse_json : Text → Option Json
unfolding lex_from parse_from
parse_json s = parse_tokens (lex_from 0 s)
