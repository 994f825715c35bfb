-- ===== src/ServerData/Entries.antt =====
-- What the loops of `updateRouteTable` write into the route table.
use ingress_bfe.Base.{
  Text, text_eq_iff, Map, lookup, lookup-insert, List, [], ◌∷◌, ◌++◌, In, All, none, some,
  Result-cases, ok, ◌≡◌, refl, arith, subst, inl, inr,
}
use ingress_bfe.Bfe.{BasicRouteRuleFile, AdvancedRouteRuleFile, RouteTableFile}
use ingress_bfe.RouteRule.{HttpRule}
use ingress_bfe.ServerData.{default_product}
use ingress_bfe.ServerData.Conditions.{build_condition}
use ingress_bfe.ServerData.Tables.{basic_file, append_to, add_basic, add_product, add_advanced}

-- The entries of the one product.
abbrev pub entries : {A : Type 0} → Map (List A) → List A
entries m = elim (lookup default_product m) [ none ↦ [] | some es ↦ es ]

unfoldable pub basic_entries : RouteTableFile → List BasicRouteRuleFile
basic_entries file = entries file.basic_rule

unfoldable pub advanced_entries : RouteTableFile → List AdvancedRouteRuleFile
advanced_entries file = entries file.product_rule

pub entries-append_to :
    {A : Type 0} (a : A) (m : Map (List A))
    → entries (append_to default_product a m) ≡ entries m ++ a ∷ []
entries-append_to {A} a m = ground (
  arith,
  lookup-insert {V = List A} default_product default_product (entries m ++ a ∷ []) m,
  text_eq_iff default_product default_product,
)

pub All-snoc :
    {A : Type 0} (P : A → Type 0) (l : List A) (a : A) → All P l → P a → All P (l ++ a ∷ [])
All-snoc P [] a h p = (p, tt)
All-snoc P (b ∷ l) a h p = (h.0, All-snoc P l a h.1 p)

-- The first round of `add_advanced`, if the loop succeeds.
step_of_ok :
    (r : HttpRule) (rules : List HttpRule) (file new : RouteTableFile)
    → add_advanced (r ∷ rules) file ≡ ok new
    → (cond : Text) × (add_advanced rules (add_product cond r.cluster file) ≡ ok new)
unfolding add_advanced
step_of_ok r rules file new e = elim (Result-cases (build_condition r.host r.path r.annotations)) [
  | inl (cond, q) ↦ (cond, rw q at e)
  | inr (m, q) ↦ cc (q, rw q at e)
]

pub ok_inj : {A : Type 0} {a b : A} → ok a ≡ ok b → a ≡ b
ok_inj e = ground arith

module _ (P : BasicRouteRuleFile → Type 0) where
  pub All-add_basic :
      (rules : List HttpRule) (file : RouteTableFile)
      → All P (basic_entries file)
      → ((r : HttpRule) → In r rules → P (basic_file r))
      → All P (basic_entries (add_basic rules file))
  unfolding add_basic basic_entries
  All-add_basic [] file h k = h
  All-add_basic (r ∷ rules) file h k =
      All-add_basic rules
        (record file { basic_rule = append_to default_product (basic_file r) file.basic_rule })
        (rw entries-append_to
          (All-snoc P (entries file.basic_rule) (basic_file r) h (k r (inl refl))))
        (λ s i. k s (inr i))

  pub basic-add_advanced :
      (rules : List HttpRule) (file new : RouteTableFile)
      → add_advanced rules file ≡ ok new
      → All P (basic_entries file)
      → All P (basic_entries new)
  unfolding add_advanced basic_entries
  basic-add_advanced [] file new e h = subst (λ f. All P (entries f.basic_rule)) (ok_inj e) h
  basic-add_advanced (r ∷ rules) file new e h =
      let (cond, q) = step_of_ok r rules file new e in
      basic-add_advanced rules (add_product cond r.cluster file) new q h

module _ (P : AdvancedRouteRuleFile → Type 0) where
  pub All-add_advanced :
      (rules : List HttpRule) (file new : RouteTableFile)
      → add_advanced rules file ≡ ok new
      → All P (advanced_entries file)
      → ((r : HttpRule) (cond : Text)
          → In r rules
          → P (record { cond = cond; cluster_name = r.cluster }))
      → All P (advanced_entries new)
  unfolding add_advanced advanced_entries
  All-add_advanced [] file new e h k = subst (λ f. All P (entries f.product_rule)) (ok_inj e) h
  All-add_advanced (r ∷ rules) file new e h k =
      let (cond, q) = step_of_ok r rules file new e in
      All-add_advanced rules (add_product cond r.cluster file) new q
        (rw entries-append_to (
          All-snoc P (entries file.product_rule) (record { cond = cond; cluster_name = r.cluster })
            h (k r cond (inl refl))))
        (λ s c i. k s c (inr i))

  pub advanced-add_basic :
      (rules : List HttpRule) (file : RouteTableFile)
      → All P (advanced_entries file)
      → All P (advanced_entries (add_basic rules file))
  unfolding add_basic advanced_entries
  advanced-add_basic [] file h = h
  advanced-add_basic (r ∷ rules) file h =
      advanced-add_basic rules
        (record file { basic_rule = append_to default_product (basic_file r) file.basic_rule }) h
