-- ===== src/Command.antt =====
-- cmd/ingress-controller/main.go and flags.go: the flags of the command line, with what package `flag`
-- of the standard library makes of them, and what the program does with them.
pub mod Printed
pub mod Started
pub mod Ignored
use ingress_bfe.Base.{
  Text, text, is_empty, ◌==◌, Bool, true, false, not, ◌||◌, if◌then◌else◌, List, [], ◌∷◌, Map,
  lookup, Option, none, some, Error, Result, ok, err,
}
use ingress_bfe.Options.{Options, new_options, set_options}
use ingress_bfe.Start.{Platform, start}

-- The variables that the flags set.
pub record Flags : Type 0 where
  pub help : Bool
  pub show_version : Bool
  pub opts : Options

abbrev pub new_flags : Flags
new_flags = record { help = false; show_version = false; opts = new_options }

-- The `flag.BoolVar` of `initFlags`.
unfoldable pub bool_flags : Map (Bool → Flags → Flags)
bool_flags =
    (text "help", λ b c. record c { help = b })
    ∷ (text "h", λ b c. record c { help = b })
    ∷ (text "version", λ b c. record c { show_version = b })
    ∷ (text "v", λ b c. record c { show_version = b })
    ∷ []

abbrev pub set_namespaces : Text → Options → Options
set_namespaces v o = record o { namespaces = v }

abbrev pub set_config_path : Text → Options → Options
set_config_path v o = record o { ingress = record o.ingress { config_path = v } }

abbrev pub set_bfe_binary : Text → Options → Options
set_bfe_binary v o = record o { ingress = record o.ingress { bfe_binary = v } }

-- The `flag.StringVar` of `initFlags`.
unfoldable pub text_flags : Map (Text → Options → Options)
text_flags =
    (text "namespace", set_namespaces)
    ∷ (text "n", set_namespaces)
    ∷ (text "metrics-bind-address", λ v o. record o { metrics_addr = v })
    ∷ (text "health-probe-bind-address", λ v o. record o { health_probe_addr = v })
    ∷ (text "k8s-cluster-name", λ v o. record o { cluster_name = v })
    ∷ (text "bfe-config-path", set_config_path)
    ∷ (text "c", set_config_path)
    ∷ (text "bfe-binary", set_bfe_binary)
    ∷ (text "b", set_bfe_binary)
    ∷ (
      text "bfe-reload-address",
      λ v o. record o { ingress = record o.ingress { reload_addr = v } },
    )
    ∷ (text "ingress-class", λ v o. record o { ingress = record o.ingress { ingress_class = v } })
    ∷ (
      text "default-backend",
      λ v o. record o { ingress = record o.ingress { default_backend = v } },
    )
    ∷ []

-- What a flag is: without a value of its own, with one, or not defined.
pub data Kind : Type 0 where
  boolean valued undefined : Kind

-- The flags that other packages define, such as those of the logger: their kinds, and whether they take
-- a value.
pub record OtherFlags : Type 0 where
  pub kind : Text → Kind
  pub takes : Text → Text → Bool

pub data ParseError : Type 0 where
  bad_syntax not_defined needs_argument : Text → ParseError
  invalid_value : Text → Text → ParseError

pub data Parsed : Type 0 where
  parsed : Flags → Parsed
  refused : ParseError → Parsed

abbrev pub and_then : Parsed → (Flags → Parsed) → Parsed
and_then (parsed c) next = next c
and_then (refused e) next = refused e

-- `strconv.ParseBool`
abbrev pub bools : Map Bool
bools =
    (text "1", true)
    ∷ (text "t", true)
    ∷ (text "T", true)
    ∷ (text "true", true)
    ∷ (text "TRUE", true)
    ∷ (text "True", true)
    ∷ (text "0", false)
    ∷ (text "f", false)
    ∷ (text "F", false)
    ∷ (text "false", false)
    ∷ (text "FALSE", false)
    ∷ (text "False", false)
    ∷ []

module _ (other : OtherFlags) where
  abbrev pub set_bool : Text → Text → (Bool → Flags → Flags) → Option Bool → Flags → Parsed
  set_bool name v f none c = refused (invalid_value name v)
  set_bool name v f (some b) c = parsed (f b c)

  abbrev pub set_other : Text → Text → Flags → Parsed
  set_other name v c = if other.takes name v then parsed c else refused (invalid_value name v)

  abbrev pub set_text : Text → Text → Option (Text → Options → Options) → Flags → Parsed
  set_text name v none c = set_other name v c
  set_text name v (some f) c = parsed (record c { opts = f v c.opts })

  -- `Set` of the value of a flag
  unfoldable pub set_flag : Text → Text → Flags → Parsed
  unfolding lookup bool_flags text_flags
  set_flag name v c = elim (lookup name bool_flags) [
    | some f ↦ set_bool name v f (lookup v bools) c
    | none ↦ set_text name v (lookup name text_flags) c
  ]

  unfoldable pub kind_of : Text → Kind
  unfolding lookup bool_flags text_flags
  kind_of name = elim (lookup name bool_flags) [
    | some f ↦ boolean
    | none ↦ elim (lookup name text_flags) [ some f ↦ valued | none ↦ other.kind name ]
  ]

-- An argument: the end of the flags, one that is malformed, or the name of a flag, perhaps with a value.
pub data Argument : Type 0 where
  stops malformed : Argument
  named : Text → Option Text → Argument

-- The name before the first `=`, and the value after it.
unfoldable pub split_value : Text → Text × Option Text
split_value [] = ([], none)
split_value (c ∷ s) =
    let rest = split_value s in if c == b'=' then ([], some s) else (c ∷ rest.0, rest.1)

abbrev pub named_by : Text × Option Text → Argument
named_by (name, value) = named name value

unfoldable pub read_name : Text → Argument
unfolding split_value
read_name [] = malformed
read_name (c ∷ name) =
    if (c == b'-') || (c == b'=') then malformed else named_by (split_value (c ∷ name))

unfoldable pub read_argument : Text → Argument
unfolding read_name
read_argument [] = stops
read_argument (_ ∷ []) = stops
read_argument (c ∷ d ∷ s) =
    if not (c == b'-')
    then stops
    else if not (d == b'-')
    then read_name (d ∷ s)
    else if is_empty s
    then stops
    else read_name s

module _ (other : OtherFlags) where
  -- A flag, where `next` reads the arguments behind it, the first of them as a value if it is named.
  abbrev pub run_flag : Kind → Text → Option Text → Flags → (Option Text → Flags → Parsed) → Parsed
  run_flag undefined name value c next = refused (not_defined name)
  run_flag boolean name none c next = and_then (set_flag other name (text "true") c) (next none)
  run_flag boolean name (some v) c next = and_then (set_flag other name v c) (next none)
  run_flag valued name none c next = next (some name) c
  run_flag valued name (some v) c next = and_then (set_flag other name v c) (next none)

  abbrev pub run_argument : Text → Argument → Flags → (Option Text → Flags → Parsed) → Parsed
  run_argument a stops c next = parsed c
  run_argument a malformed c next = refused (bad_syntax a)
  run_argument a (named name value) c next = run_flag (kind_of other name) name value c next

  -- `flag.Parse`, where a flag before the arguments may wait for its value
  unfoldable pub parse : Option Text → List Text → Flags → Parsed
  unfolding read_argument set_flag kind_of
  parse none [] c = parsed c
  parse (some name) [] c = refused (needs_argument name)
  parse (some name) (v ∷ args) c = and_then (set_flag other name v c) (λ c. parse none args c)
  parse none (a ∷ args) c = run_argument a (read_argument a) c (λ pending c. parse pending args c)

-- How `main` ends: with status 2, with a text, with the error of `SetOptions`, or with that of
-- `controllers.Start`, which has the options.
pub data Outcome : Type 0 where
  misused : ParseError → Outcome
  printed_help printed_version : Outcome
  failed : Text → Outcome
  exited : Options → Error → Outcome

abbrev pub run_options : Platform → Result Options → Outcome
run_options p (err e) = failed e
run_options p (ok opts) = exited opts (start p)

abbrev pub run_flags : Platform → Parsed → Outcome
run_flags p (refused e) = misused e
run_flags p (parsed c) =
    if c.help
    then printed_help
    else if c.show_version
    then printed_version
    else run_options p (set_options c.opts)

-- `main`
unfoldable pub main : OtherFlags → Platform → List Text → Outcome
unfolding parse
main other p args = run_flags p (parse other none args new_flags)
