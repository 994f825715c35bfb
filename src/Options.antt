-- ===== src/Options.antt =====
-- internal/option/options.go and internal/option/ingress/options.go: the options of the command line,
-- their checks, and what the program computes from them.
pub mod Checked
use ingress_bfe.Base.{
  ℕ, ◌*◌, ◌^◌, Text, text, is_empty, has_suffix, Bool, true, false, not, if◌then◌else◌, List, [],
  ◌∷◌, ◌++◌, split_byte, dir, Error, Result, ok, err, none, some,
}

-- `Options` of package `ingress`; an interval is a number of nanoseconds.
pub record IngressOptions : Type 0 where
  pub enable_ingress : Bool
  pub ingress_class : Text
  pub controller_name : Text
  pub reload_addr : Text
  pub reload_url : Text
  pub bfe_binary : Text
  pub config_path : Text
  pub file_perm : ℕ
  pub reload_interval : ℕ
  pub default_backend : Text

-- `NewOptions` of package `ingress`; the permission is 0744 in octal
abbrev pub new_ingress_options : IngressOptions
new_ingress_options = record {
  enable_ingress = true;
  ingress_class = text "bfe";
  controller_name = text "bfe-networks.com/ingress-controller";
  reload_addr = text "localhost:8421";
  reload_url = [];
  bfe_binary = text "/bfe/bin/bfe";
  config_path = text "/bfe/conf/";
  file_perm = 484;
  reload_interval = 3 * 10 ^ 9;
  default_backend = [];
}

-- `len(names) != 2`, negated
abbrev pub has_two : List Text → Bool
has_two (_ ∷ _ ∷ []) = true
has_two _ = false

-- The default backend is not set, or has exactly two parts.
abbrev pub accepts_backend : Text → Bool
accepts_backend name = if is_empty name then true else has_two (split_byte name b'/')

-- The directory of the configuration, from that of the binary.
abbrev pub config_dir : IngressOptions → Text
config_dir opts =
    if is_empty opts.bfe_binary then opts.config_path else dir (dir opts.bfe_binary) ++ text "/conf"

abbrev pub with_slash : Text → Text
with_slash path = if has_suffix path (text "/") then path else path ++ text "/"

-- `Check`, which changes the options that it returns
unfoldable pub check : IngressOptions → IngressOptions × Error
check opts =
    if not opts.enable_ingress
    then (opts, none)
    else if accepts_backend opts.default_backend
    then (
      record opts {
        config_path = with_slash (config_dir opts);
        reload_url = text "http://" ++ opts.reload_addr ++ text "/reload/";
      },
      none,
    )
    else (
      opts,
      some (text "invalid command line argument default-backend: " ++ opts.default_backend),
    )

pub record Options : Type 0 where
  pub cluster_name : Text
  pub namespaces : Text
  pub namespace_list : List Text
  pub metrics_addr : Text
  pub health_probe_addr : Text
  pub ingress : IngressOptions

-- `NewOptions`; `corev1.NamespaceAll` is the empty text
abbrev pub new_options : Options
new_options = record {
  cluster_name = text "default";
  namespaces = [];
  namespace_list = [];
  metrics_addr = text ":9080";
  health_probe_addr = text ":9081";
  ingress = new_ingress_options;
}

abbrev pub checked : Options → IngressOptions × Error → Result Options
checked opts (_, some e) = err e
checked opts (ingress, none) =
    ok (record opts { ingress = ingress; namespace_list = split_byte opts.namespaces b',' })

-- `SetOptions`, with what it stores in `Opts`
unfoldable pub set_options : Options → Result Options
unfolding check
set_options opts = checked opts (check opts.ingress)
