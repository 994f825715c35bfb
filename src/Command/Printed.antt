-- ===== src/Command/Printed.antt =====
-- Options written as arguments, in either form, and read again.
use ingress_bfe.Base.{
  Text, text, text_eq, lookup, ◌==◌, Bool, true, false, if◌then◌else◌, List, [], ◌∷◌, ◌++◌, none,
  some, ◌≡◌, refl, ap, ◌∙◌, arith,
}
use ingress_bfe.Options.{Options}
use ingress_bfe.Command.{
  Flags, OtherFlags, parsed, and_then, named, valued, bool_flags, text_flags, set_flag, kind_of,
  split_value, read_name, read_argument, parse,
}

abbrev no_equal : Text → Bool
no_equal [] = true
no_equal (c ∷ s) = let rest = no_equal s in if c == b'=' then false else rest

-- A name without `=` that does not start with a dash.
abbrev is_plain : Text → Bool
is_plain [] = false
is_plain (c ∷ s) = if c == b'-' then false else no_equal (c ∷ s)

split_value-joined :
    (name v : Text) → no_equal name ≡ true → split_value (name ++ b'=' ∷ v) ≡ (name, some v)
unfolding split_value
split_value-joined [] v h = refl
split_value-joined (c ∷ name) v h = ground (arith, split_value-joined name v)

split_value-apart : (name : Text) → no_equal name ≡ true → split_value name ≡ (name, none)
unfolding split_value
split_value-apart [] h = refl
split_value-apart (c ∷ name) h = ground (arith, split_value-apart name)

-- A flag with its value: as one argument, or as two.
abbrev pub written : Bool → Text → Text → List Text → List Text
written true name v args = (text "--" ++ name ++ b'=' ∷ v) ∷ args
written false name v args = (text "-" ++ name) ∷ v ∷ args

read-joined :
    (name v : Text)
    → is_plain name ≡ true
    → read_argument (text "--" ++ name ++ b'=' ∷ v) ≡ named name (some v)
unfolding read_argument read_name text
read-joined [] v h = ground arith
read-joined (c ∷ name) v h = ground (arith, h, split_value-joined (c ∷ name) v)

read-apart :
    (name : Text) → is_plain name ≡ true → read_argument (text "-" ++ name) ≡ named name none
unfolding read_argument read_name text
read-apart [] h = ground arith
read-apart (c ∷ name) h = ground (arith, h, split_value-apart (c ∷ name))

-- The name of a flag that sets a text.
abbrev pub IsName : Text → (Text → Options → Options) → Type 0
IsName name f =
    (lookup name bool_flags ≡ none) × (lookup name text_flags ≡ some f) × (is_plain name ≡ true)

module _ (other : OtherFlags) where
  kind_of-IsName :
      (name : Text) (f : Text → Options → Options) → IsName name f → kind_of other name ≡ valued
  unfolding kind_of text_eq text
  kind_of-IsName name f (e1, e2, e3) = rw (e1, e2) refl

  set_flag-IsName :
      (name v : Text) (f : Text → Options → Options) (c : Flags)
      → IsName name f
      → set_flag other name v c ≡ parsed (record c { opts = f v c.opts })
  unfolding set_flag text_eq text
  set_flag-IsName name v f c (e1, e2, e3) = rw (e1, e2) refl

  parse-pending :
      (name v : Text) (f : Text → Options → Options) (args : List Text) (c : Flags)
      → IsName name f
      → parse other (some name) (v ∷ args) c
        ≡ parse other none args (record c { opts = f v c.opts })
  unfolding parse
  parse-pending name v f args c h =
      ap (λ r. and_then r (λ c. parse other none args c)) (set_flag-IsName name v f c h)

  pub parse-written :
      (joined : Bool) (name v : Text) (f : Text → Options → Options) (args : List Text) (c : Flags)
      → IsName name f
      → parse other none (written joined name v args) c
        ≡ parse other none args (record c { opts = f v c.opts })
  unfolding parse
  parse-written true name v f args c h =
      rw (read-joined name v h.2, kind_of-IsName name f h, set_flag-IsName name v f c h) refl
  parse-written false name v f args c h =
      rw (read-apart name h.2, kind_of-IsName name f h) (parse-pending name v f args c h)

-- The fields that flags set.
abbrev pub arguments : Bool → Options → List Text
arguments joined o = written joined (text "namespace") o.namespaces (
    written joined (text "metrics-bind-address") o.metrics_addr (
      written joined (text "health-probe-bind-address") o.health_probe_addr (
        written joined (text "k8s-cluster-name") o.cluster_name (
          written joined (text "bfe-config-path") o.ingress.config_path (
            written joined (text "bfe-binary") o.ingress.bfe_binary (
              written joined (text "bfe-reload-address") o.ingress.reload_addr (
                written joined (text "ingress-class") o.ingress.ingress_class
                  (written joined (text "default-backend") o.ingress.default_backend []))))))))

-- `b` with the fields of `o` that flags set.
abbrev pub with_fields : Options → Options → Options
with_fields o b = record b {
  namespaces = o.namespaces;
  metrics_addr = o.metrics_addr;
  health_probe_addr = o.health_probe_addr;
  cluster_name = o.cluster_name;
  ingress = record b.ingress {
    config_path = o.ingress.config_path;
    bfe_binary = o.ingress.bfe_binary;
    reload_addr = o.ingress.reload_addr;
    ingress_class = o.ingress.ingress_class;
    default_backend = o.ingress.default_backend;
  };
}

module _ (other : OtherFlags) where
  -- Every field that has a flag is read back from a command line that sets all of them, with the values
  -- behind `=` or as arguments of their own, whatever bytes they have and whatever the flags were
  -- before; the other fields stay as they were.
  pub parse-arguments :
      (joined : Bool) (o : Options) (c : Flags)
      → parse other none (arguments joined o) c ≡ parsed (record c { opts = with_fields o c.opts })
  unfolding parse lookup bool_flags text_flags text text_eq
  parse-arguments joined o c =
      parse-written other joined (text "namespace") o.namespaces _ _ _ (refl, refl, refl)
      ∙ parse-written other joined (text "metrics-bind-address") o.metrics_addr _ _ _
          (refl, refl, refl)
      ∙ parse-written other joined (text "health-probe-bind-address") o.health_probe_addr _ _ _
          (refl, refl, refl)
      ∙ parse-written other joined (text "k8s-cluster-name") o.cluster_name _ _ _ (refl, refl, refl)
      ∙ parse-written other joined (text "bfe-config-path") o.ingress.config_path _ _ _
          (refl, refl, refl)
      ∙ parse-written other joined (text "bfe-binary") o.ingress.bfe_binary _ _ _ (refl, refl, refl)
      ∙ parse-written other joined (text "bfe-reload-address") o.ingress.reload_addr _ _ _
          (refl, refl, refl)
      ∙ parse-written other joined (text "ingress-class") o.ingress.ingress_class _ _ _
          (refl, refl, refl)
      ∙ parse-written other joined (text "default-backend") o.ingress.default_backend _ _ _
          (refl, refl, refl)
