-- ===== src/Command/Ignored.antt =====
-- The flag for the path of the configuration has no effect beside a binary that is named.
use ingress_bfe.Base.{
  Text, text, text_eq, is_empty, lookup, lookup-All, Bool, Bool-cases, Option-cases, true, false,
  List, [], ◌∷◌, Option, none, some, All, inl, inr, ◌≡◌, ◌∙◌, refl, ap, subst, sym, arith,
}
use ingress_bfe.Options.{accepts_backend, check, set_options}
use ingress_bfe.Start.{Platform}
use ingress_bfe.Command.Printed.{written, IsName, parse-written}
use ingress_bfe.Command.Started.{IsFromFlags, FromFlags, parse-FromFlags}
use ingress_bfe.Command.{
  Flags, new_flags, OtherFlags, Parsed, parsed, refused, and_then, Kind, boolean, valued, undefined,
  Argument, stops, malformed, named, bool_flags, text_flags, bools, set_bool, set_other,
  set_config_path, set_flag, kind_of, read_argument, run_flag, run_argument, parse, run_flags, main,
}

-- The flags without the path of the configuration.
abbrev erased : Flags → Flags
erased c = record c { opts = set_config_path [] c.opts }

abbrev erased_parsed : Parsed → Parsed
erased_parsed (parsed c) = parsed (erased c)
erased_parsed (refused e) = refused e

abbrev Blind : (Flags → Flags) → Type 0
Blind f = (c : Flags) → erased (f c) ≡ erased (f (erased c))

AllBlindBool : All (λ e. (b : Bool) → Blind (e.1 b)) bool_flags
unfolding bool_flags
AllBlindBool = ((λ _ _. refl), ((λ _ _. refl), ((λ _ _. refl), ((λ _ _. refl), tt))))

AllBlindText : All (λ e. (v : Text) → Blind (λ c. record c { opts = e.1 v c.opts })) text_flags
unfolding text_flags
AllBlindText = (
  (λ _ _. refl),
  (
    (λ _ _. refl),
    (
      (λ _ _. refl),
      (
        (λ _ _. refl),
        (
          (λ _ _. refl),
          (
            (λ _ _. refl),
            (
              (λ _ _. refl),
              (
                (λ _ _. refl),
                ((λ _ _. refl), ((λ _ _. refl), ((λ _ _. refl), ((λ _ _. refl), tt)))),
              ),
            ),
          ),
        ),
      ),
    ),
  ),
)

-- The outcome does not depend on the path.
abbrev Ignores : (Flags → Parsed) → Type 0
Ignores f = (c : Flags) → erased_parsed (f c) ≡ erased_parsed (f (erased c))

and_then-Ignores :
    (r s : Parsed) (next : Flags → Parsed)
    → erased_parsed r ≡ erased_parsed s
    → Ignores next
    → erased_parsed (and_then r next) ≡ erased_parsed (and_then s next)
and_then-Ignores (parsed c) (parsed d) next e k =
    k c ∙ ap (λ r. erased_parsed (and_then r next)) e ∙ sym (k d)
and_then-Ignores (parsed c) (refused m) next e k = absurd (ground (arith, e))
and_then-Ignores (refused m) (parsed d) next e k = absurd (ground (arith, e))
and_then-Ignores (refused m) (refused n) next e k = e

module _ (other : OtherFlags) where
  set_bool-Ignores :
      (name v : Text) (f : Bool → Flags → Flags) (b : Option Bool)
      → ((b : Bool) → Blind (f b))
      → Ignores (set_bool other name v f b)
  set_bool-Ignores name v f none k c = refl
  set_bool-Ignores name v f (some b) k c = ap parsed (k b c)

  set_other-Ignores : (name v : Text) → Ignores (set_other other name v)
  set_other-Ignores name v c = elim (Bool-cases (other.takes name v)) [
    | inl e ↦ rw e refl
    | inr e ↦ rw e refl
  ]

  set_flag-Ignores : (name v : Text) → Ignores (set_flag other name v)
  unfolding set_flag text_eq text
  set_flag-Ignores name v c = elim (Option-cases (lookup name bool_flags)) [
    | inl e ↦ elim (Option-cases (lookup name text_flags)) [
      | inl q ↦ rw (e, q) (set_other-Ignores name v c)
      | inr (f, q) ↦
          rw (e, q)
            (ap parsed (
              lookup-All (λ f. (v : Text) → Blind (λ c. record c { opts = f v c.opts })) name
                text_flags f AllBlindText q v c))
    ]
    | inr (f, e) ↦ rw e (
        set_bool-Ignores name v f (lookup v bools)
          (lookup-All (λ f. (b : Bool) → Blind (f b)) name bool_flags f AllBlindBool e) c)
  ]

  run_flag-Ignores :
      (k : Kind) (name : Text) (value : Option Text) (next : Option Text → Flags → Parsed)
      → ((pending : Option Text) → Ignores (next pending))
      → Ignores (λ c. run_flag other k name value c next)
  run_flag-Ignores undefined name value next h c = refl
  run_flag-Ignores boolean name none next h c =
      and_then-Ignores _ _ (next none) (set_flag-Ignores name (text "true") c) (h none)
  run_flag-Ignores boolean name (some v) next h c =
      and_then-Ignores _ _ (next none) (set_flag-Ignores name v c) (h none)
  run_flag-Ignores valued name none next h c = h (some name) c
  run_flag-Ignores valued name (some v) next h c =
      and_then-Ignores _ _ (next none) (set_flag-Ignores name v c) (h none)

  run_argument-Ignores :
      (a : Text) (arg : Argument) (next : Option Text → Flags → Parsed)
      → ((pending : Option Text) → Ignores (next pending))
      → Ignores (λ c. run_argument other a arg c next)
  run_argument-Ignores a stops next h c = refl
  run_argument-Ignores a malformed next h c = refl
  run_argument-Ignores a (named name value) next h c =
      run_flag-Ignores (kind_of other name) name value next h c

  parse-Ignores : (pending : Option Text) (args : List Text) → Ignores (parse other pending args)
  unfolding parse
  parse-Ignores none [] c = refl
  parse-Ignores (some name) [] c = refl
  parse-Ignores (some name) (v ∷ args) c =
      and_then-Ignores _ _ (λ c. parse other none args c) (set_flag-Ignores name v c)
        (λ c. parse-Ignores none args c)
  parse-Ignores none (a ∷ args) c =
      run_argument-Ignores a (read_argument a) (λ pending c. parse other pending args c)
        (λ pending c. parse-Ignores pending args c) c

flags_of : Parsed → Flags
flags_of (parsed c) = c
flags_of (refused e) = new_flags

enabled : (c : Flags) → IsFromFlags c → c.opts.ingress.enable_ingress ≡ true
enabled c h = ap (λ o. o.ingress.enable_ingress) (sym h)

run_flags-erased :
    (p : Platform) (c : Flags)
    → c.opts.ingress.enable_ingress ≡ true
    → is_empty c.opts.ingress.bfe_binary ≡ false
    → run_flags p (parsed c) ≡ run_flags p (parsed (erased c))
unfolding set_options check
run_flags-erased p c on e = elim (Bool-cases (accepts_backend c.opts.ingress.default_backend)) [
  | inl q ↦ rw (on, e, q) refl
  | inr q ↦ rw (on, e, q) refl
]

run_flags-Ignores :
    (p : Platform) (r : Parsed) (c : Flags)
    → erased_parsed r ≡ parsed (erased c)
    → FromFlags r
    → IsFromFlags c
    → is_empty c.opts.ingress.bfe_binary ≡ false
    → run_flags p r ≡ run_flags p (parsed c)
unfolding flags_of
run_flags-Ignores p (refused m) c e h k b = absurd (ground (arith, e))
run_flags-Ignores p (parsed d) c e h k b =
    let q : erased d ≡ erased c = ap flags_of e in
    let b' = ap (λ (c : Flags). is_empty c.opts.ingress.bfe_binary) q ∙ b in
    run_flags-erased p d (enabled d h) b'
    ∙ ap (λ c. run_flags p (parsed c)) q
    ∙ sym (run_flags-erased p c (enabled c k) b)

-- The long and the short name of the flag.
abbrev pub config_path_name : Bool → Text
config_path_name false = text "bfe-config-path"
config_path_name true = text "c"

config_path-IsName : (short : Bool) → IsName (config_path_name short) set_config_path
unfolding lookup bool_flags text_flags text text_eq
config_path-IsName false = (refl, refl, refl)
config_path-IsName true = (refl, refl, refl)

-- If the other arguments leave a binary that is named, as by its default, then a flag in front of them
-- for the path of the configuration, by either name and in either form, changes nothing of what `main`
-- does.
pub config_path-ignored :
    (other : OtherFlags) (p : Platform) (short joined : Bool) (v : Text) (args : List Text)
    (c : Flags)
    → parse other none args new_flags ≡ parsed c
    → is_empty c.opts.ingress.bfe_binary ≡ false
    → main other p (written joined (config_path_name short) v args) ≡ main other p args
unfolding main
config_path-ignored other p short joined v args c e b =
    let c0 : Flags = record new_flags { opts = set_config_path v new_flags.opts } in
    let q =
      parse-Ignores other none args c0
      ∙ sym (parse-Ignores other none args new_flags)
      ∙ ap erased_parsed e in
    let h = parse-FromFlags other none args c0 refl in
    let k = subst FromFlags e (parse-FromFlags other none args new_flags refl) in
    ap (run_flags p) (
      parse-written other joined (config_path_name short) v set_config_path args new_flags
        (config_path-IsName short))
    ∙ run_flags-Ignores p (parse other none args c0) c q h k b
    ∙ ap (run_flags p) (sym e)
