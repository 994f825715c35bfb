-- ===== src/Command/Started.antt =====
-- The options that the controllers are started with.
use ingress_bfe.Base.{
  Text, text, text_eq, lookup, Bool, true, List, [], ◌∷◌, split_byte, Option, none, some, Error,
  All, Bool-cases, inl, inr, ◌≡◌, refl, ap, subst, sym, ◌∙◌, Option-cases, lookup-All,
}
use ingress_bfe.Options.{Options, new_options, accepts_backend, check, set_options}
use ingress_bfe.Start.{Platform}
use ingress_bfe.Builder.{Environment}
use ingress_bfe.Command.{
  Flags, new_flags, OtherFlags, Parsed, parsed, refused, and_then, Kind, boolean, valued, undefined,
  Argument, stops, malformed, named, bool_flags, text_flags, bools, set_bool, set_other, set_flag,
  kind_of, read_argument, run_flag, run_argument, parse, Outcome, exited, run_options, run_flags,
  main,
}
use ingress_bfe.Command.Printed.{with_fields}
use ingress_bfe.Reconcile.Returning.{Checked}

-- Only fields with a flag differ from the defaults.
abbrev pub IsFromFlags : Flags → Type 0
IsFromFlags c = with_fields c.opts new_options ≡ c.opts

-- The setter of a text changes only a field with a flag.
abbrev SetsField : (Text → Options → Options) → Type 0
SetsField f =
    (v : Text) (o : Options) → f v (with_fields o new_options) ≡ with_fields (f v o) new_options

abbrev KeepsOptions : (Bool → Flags → Flags) → Type 0
KeepsOptions f = (b : Bool) (c : Flags) → (f b c).opts ≡ c.opts

AllKeepOptions : All (λ e. KeepsOptions e.1) bool_flags
unfolding bool_flags
AllKeepOptions = ((λ _ _. refl), ((λ _ _. refl), ((λ _ _. refl), ((λ _ _. refl), tt))))

AllSetField : All (λ e. SetsField e.1) text_flags
unfolding text_flags
AllSetField = (
  (λ _ _. refl),
  (
    (λ _ _. refl),
    (
      (λ _ _. refl),
      (
        (λ _ _. refl),
        (
          (λ _ _. refl),
          (
            (λ _ _. refl),
            (
              (λ _ _. refl),
              (
                (λ _ _. refl),
                ((λ _ _. refl), ((λ _ _. refl), ((λ _ _. refl), ((λ _ _. refl), tt)))),
              ),
            ),
          ),
        ),
      ),
    ),
  ),
)

abbrev pub FromFlags : Parsed → Type 0
FromFlags (parsed c) = IsFromFlags c
FromFlags (refused e) = Unit

and_then-FromFlags :
    (r : Parsed) (next : Flags → Parsed)
    → FromFlags r
    → ((c : Flags) → IsFromFlags c → FromFlags (next c))
    → FromFlags (and_then r next)
and_then-FromFlags (parsed c) next h k = k c h
and_then-FromFlags (refused e) next h k = tt

module _ (other : OtherFlags) where
  set_bool-FromFlags :
      (name v : Text) (f : Bool → Flags → Flags) (b : Option Bool) (c : Flags)
      → KeepsOptions f
      → IsFromFlags c
      → FromFlags (set_bool other name v f b c)
  set_bool-FromFlags name v f none c k h = tt
  set_bool-FromFlags name v f (some b) c k h =
      subst (λ o. with_fields o new_options ≡ o) (sym (k b c)) h

  set_other-FromFlags :
      (name v : Text) (c : Flags) → IsFromFlags c → FromFlags (set_other other name v c)
  set_other-FromFlags name v c h = elim (Bool-cases (other.takes name v)) [
    | inl e ↦ rw e h
    | inr e ↦ rw e tt
  ]

  set_flag-FromFlags :
      (name v : Text) (c : Flags) → IsFromFlags c → FromFlags (set_flag other name v c)
  unfolding set_flag text_eq text
  set_flag-FromFlags name v c h = elim (Option-cases (lookup name bool_flags)) [
    | inl e ↦ elim (Option-cases (lookup name text_flags)) [
      | inl q ↦ rw (e, q) (set_other-FromFlags name v c h)
      | inr (f, q) ↦
          rw (e, q)
            (sym (lookup-All SetsField name text_flags f AllSetField q v c.opts) ∙ ap (f v) h)
    ]
    | inr (f, e) ↦ rw e (
        set_bool-FromFlags name v f (lookup v bools) c
          (lookup-All KeepsOptions name bool_flags f AllKeepOptions e) h)
  ]

  run_flag-FromFlags :
      (k : Kind) (name : Text) (value : Option Text) (c : Flags)
      (next : Option Text → Flags → Parsed)
      → IsFromFlags c
      → ((pending : Option Text) (c : Flags) → IsFromFlags c → FromFlags (next pending c))
      → FromFlags (run_flag other k name value c next)
  run_flag-FromFlags undefined name value c next h k = tt
  run_flag-FromFlags boolean name none c next h k =
      and_then-FromFlags _ (next none) (set_flag-FromFlags name (text "true") c h) (k none)
  run_flag-FromFlags boolean name (some v) c next h k =
      and_then-FromFlags _ (next none) (set_flag-FromFlags name v c h) (k none)
  run_flag-FromFlags valued name none c next h k = k (some name) c h
  run_flag-FromFlags valued name (some v) c next h k =
      and_then-FromFlags _ (next none) (set_flag-FromFlags name v c h) (k none)

  run_argument-FromFlags :
      (a : Text) (arg : Argument) (c : Flags) (next : Option Text → Flags → Parsed)
      → IsFromFlags c
      → ((pending : Option Text) (c : Flags) → IsFromFlags c → FromFlags (next pending c))
      → FromFlags (run_argument other a arg c next)
  run_argument-FromFlags a stops c next h k = h
  run_argument-FromFlags a malformed c next h k = tt
  run_argument-FromFlags a (named name value) c next h k =
      run_flag-FromFlags (kind_of other name) name value c next h k

  pub parse-FromFlags :
      (pending : Option Text) (args : List Text) (c : Flags)
      → IsFromFlags c
      → FromFlags (parse other pending args c)
  unfolding parse
  parse-FromFlags none [] c h = h
  parse-FromFlags (some name) [] c h = tt
  parse-FromFlags (some name) (v ∷ args) c h =
      and_then-FromFlags (set_flag other name v c) (parse other none args)
        (set_flag-FromFlags name v c h) (λ c h. parse-FromFlags none args c h)
  parse-FromFlags none (a ∷ args) c h =
      run_argument-FromFlags a (read_argument a) c (λ pending c. parse other pending args c) h
        (λ pending c h. parse-FromFlags pending args c h)

-- What holds of the options of a start.
abbrev pub Ready : Options → Type 0
Ready o =
    (o.ingress.enable_ingress ≡ true)
    × ((check o.ingress).1 ≡ none)
    × (o.namespace_list ≡ split_byte o.namespaces b',')

abbrev IfExited : Outcome → Type 0
IfExited (exited o e) = Ready o
IfExited _ = Unit

run_options-Ready :
    (p : Platform) (o : Options)
    → o.ingress.enable_ingress ≡ true
    → IfExited (run_options p (set_options o))
unfolding set_options check
run_options-Ready p o h = elim (Bool-cases (accepts_backend o.ingress.default_backend)) [
  | inl e ↦ rw (h, e) (refl, rw e refl, refl)
  | inr e ↦ rw (h, e) tt
]

run_flags-Ready : (p : Platform) (r : Parsed) → FromFlags r → IfExited (run_flags p r)
run_flags-Ready p (refused e) h = tt
run_flags-Ready p (parsed c) h =
    let r = run_options-Ready p c.opts (ap (λ o. o.ingress.enable_ingress) (sym h)) in
    elim (Bool-cases c.help) [
      | inl e ↦ rw e tt
      | inr e ↦ elim (Bool-cases c.show_version) [ inl q ↦ rw (e, q) tt | inr q ↦ rw (e, q) r ]
    ]

-- Whatever the command line, the options with which `main` starts the controllers are enabled, have
-- passed the check, as is asked of the options behind an environment with their default backend, and
-- list the namespaces of the option, split at its commas.
pub main-Checked :
    (other : OtherFlags) (p : Platform) (args : List Text) (o : Options) (e : Error)
    (env : Environment)
    → main other p args ≡ exited o e
    → env.default_backend ≡ o.ingress.default_backend
    → Checked o.ingress env × (o.namespace_list ≡ split_byte o.namespaces b',')
unfolding main
main-Checked other p args o e env h b =
    let ready =
      run_flags-Ready p (parse other none args new_flags)
        (parse-FromFlags other none args new_flags refl) in
    let (on, passes, list) = subst IfExited h ready in
    (record { enabled = on; passes = passes; backend = b }, list)
