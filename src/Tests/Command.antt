-- ===== src/Tests/Command.antt =====
-- Command lines, and the theorems about them at concrete ones.
use ingress_bfe.Base.{
  Text, text, text_eq, is_empty, lookup, split_byte, true, false, List, [], ◌∷◌, none, some, ok,
  ◌≡◌, refl, Error,
}
use ingress_bfe.Options.{Options, new_options, check, set_options}
use ingress_bfe.Start.{Platform, add_controller, start}
use ingress_bfe.Builder.{Environment}
use ingress_bfe.Reconcile.Returning.{Checked}
use ingress_bfe.Command.{
  Flags, new_flags, OtherFlags, undefined, parsed, invalid_value, needs_argument, bad_syntax,
  not_defined, bool_flags, text_flags, set_flag, kind_of, split_value, read_name, read_argument,
  parse, printed_help, misused, exited, main,
}
use ingress_bfe.Command.Printed.{written, arguments, with_fields, parse-arguments}
use ingress_bfe.Command.Started.{main-Checked}
use ingress_bfe.Command.Ignored.{config_path_name, config_path-ignored}

abbrev other : OtherFlags
other = record { kind = λ _. undefined; takes = λ _ _. false }

-- A platform on which every call succeeds.
abbrev platform : Platform
platform = record {
  get_config = none;
  new_manager = none;
  add_healthz_check = none;
  add_readyz_check = none;
  server_version = ok (text "1", text "20");
  setup_ingress = λ _. none;
  setup_service = none;
  setup_secret = none;
  start_process = none;
  run_manager = none;
}

-- A value with `=`, in a form of its own.
abbrev wanted : Options
wanted = record new_options {
  namespaces = text "a,b";
  ingress = record new_options.ingress { default_backend = text "ns/x=y" };
}

parse-arguments_example :
    parse other none (arguments true wanted) new_flags
    ≡ parsed (record new_flags { opts = with_fields wanted new_options })
parse-arguments_example = parse-arguments other true wanted new_flags

abbrev command_line : List Text
command_line = text "-n=a,b" ∷ text "--default-backend" ∷ text "ns/web" ∷ []

abbrev env : Environment
env = record {
  route_version = text "1";
  cluster_version = text "2";
  table_version = text "3";
  tls_version = text "4";
  default_backend = text "ns/web";
  addr = 7;
}

abbrev opts_of_line : Options
opts_of_line = record new_options {
  namespaces = text "a,b";
  namespace_list = text "a" ∷ text "b" ∷ [];
  ingress = record new_options.ingress {
    config_path = text "/bfe/conf/";
    reload_url = text "http://localhost:8421/reload/";
    default_backend = text "ns/web";
  };
}

starts : main other platform command_line ≡ exited opts_of_line none
unfolding main parse kind_of set_flag split_value read_name read_argument bool_flags text_flags
    lookup text text_eq set_options check start add_controller ingress_bfe.Start.select_api
    ingress_bfe.Start.text_ge split_byte ingress_bfe.Base.dir ingress_bfe.Base.clean
    ingress_bfe.Base.last_index_byte ingress_bfe.Base.join ingress_bfe.Base.has_suffix
starts = refl

main-Checked_example :
    Checked opts_of_line.ingress env
    × (opts_of_line.namespace_list ≡ split_byte opts_of_line.namespaces b',')
main-Checked_example = main-Checked other platform command_line opts_of_line none env starts refl

-- Command lines that are refused, and one that asks for help.
refusals :
    (main other platform (text "-c" ∷ []) ≡ misused (needs_argument (text "c")))
    × (main other platform (text "-h=x" ∷ []) ≡ misused (invalid_value (text "h") (text "x")))
    × (main other platform (text "--=x" ∷ []) ≡ misused (bad_syntax (text "--=x")))
    × (main other platform (text "-x" ∷ []) ≡ misused (not_defined (text "x")))
    × (main other platform (text "-v=0" ∷ text "-h" ∷ text "--" ∷ text "-x" ∷ []) ≡ printed_help)
unfolding main parse kind_of set_flag split_value read_name read_argument bool_flags text_flags
    lookup text text_eq
refusals = (refl, refl, refl, refl, refl)

abbrev with_namespaces : List Text
with_namespaces = text "-n=a,b" ∷ []

abbrev flags_of_namespaces : Flags
flags_of_namespaces = record new_flags { opts = record new_options { namespaces = text "a,b" } }

reads_namespaces : parse other none with_namespaces new_flags ≡ parsed flags_of_namespaces
unfolding parse kind_of set_flag split_value read_name read_argument bool_flags text_flags lookup
    text text_eq
reads_namespaces = refl

has_binary : is_empty flags_of_namespaces.opts.ingress.bfe_binary ≡ false
unfolding text
has_binary = refl

config_path-ignored_example :
    main other platform (written false (config_path_name true) (text "/etc/bfe") with_namespaces)
    ≡ main other platform with_namespaces
config_path-ignored_example =
    config_path-ignored other platform true false (text "/etc/bfe") with_namespaces
      flags_of_namespaces reads_namespaces has_binary
