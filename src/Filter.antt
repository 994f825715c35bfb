-- ===== src/Filter.antt =====
-- internal/controllers/filter: which objects the controller handles.
use ingress_bfe.Base.{
  ℕ, ◌+◌, ◌≤◌, Text, text, text_eq, text_eq_iff, Bool, true, false, ◌&&◌, ◌||◌, leb, if◌then◌else◌,
  List, [], ◌∷◌, map, Option, none, some, In, subst, sym, ◌≡◌, ◌↔◌, ◌⊎◌, inl, inr, arith, refl,
  Bool-cases,
}
use ingress_bfe.Annotations.{Annotations, value}

-- `IngressClass`, of either version of the API
pub record IngressClass : Type 0 where
  pub name : Text
  pub annotations : Annotations
  pub controller : Text

abbrev to_lower : ℕ → ℕ
to_lower b = if leb 65 b && leb b 90 then b + 32 else b

-- `strings.EqualFold(s, "true")`: no character outside ASCII folds to one of `true`.
unfoldable pub is_true : Text → Bool
is_true s = text_eq (map to_lower s) (text "true")

-- The two keys of annotations are constants of the Kubernetes API.
module _ (ingress_class_key is_default_ingress_class : Text) where
  -- The class is named by the ingress, or is the default when none is named.
  unfoldable pub selects : Option Text → IngressClass → Bool
  unfolding is_true
  selects (some name) class = text_eq name class.name
  selects none class = is_true (value is_default_ingress_class class.annotations)

  unfoldable pub any_class : Text → Option Text → List IngressClass → Bool
  unfolding selects
  any_class controller_name class_name [] = false
  any_class controller_name class_name (class ∷ classes) =
      (text_eq class.controller controller_name && selects class_name class)
      || any_class controller_name class_name classes

  -- The classes of one version, where the list could be read.
  unfoldable pub listed_class : Text → Option Text → Option (List IngressClass) → Bool
  unfolding any_class
  listed_class controller_name class_name none = false
  listed_class controller_name class_name (some classes) =
      any_class controller_name class_name classes

  -- `IngressClassFilter`, with the results of the two calls of `List`
  unfoldable pub ingress_class_filter :
      Text
      → Text
      → Option (List IngressClass)
      → Option (List IngressClass)
      → Annotations
      → Option Text
      → Bool
  unfolding listed_class
  ingress_class_filter ingress_class controller_name v1 v1beta1 annots class_name =
      text_eq (value ingress_class_key annots) ingress_class
      || (listed_class controller_name class_name v1
          || listed_class controller_name class_name v1beta1)

unfoldable pub any_namespace : Text → List Text → Bool
any_namespace namespace [] = false
any_namespace namespace (ns ∷ list) = text_eq ns namespace || any_namespace namespace list

abbrev pub is_all : List Text → Bool
is_all ([] ∷ []) = true
is_all _ = false

-- `NamespaceFilter`; `corev1.NamespaceAll` is the empty text
unfoldable pub namespace_filter : List Text → Text → Bool
unfolding any_namespace
namespace_filter namespace_list namespace =
    is_all namespace_list || any_namespace namespace namespace_list

-- The text is `lower`, where a byte may be the capital letter instead.
abbrev pub IsFolded : Text → Text → Type 0
IsFolded [] [] = Unit
IsFolded [] (_ ∷ _) = ⊥
IsFolded (_ ∷ _) [] = ⊥
IsFolded (a ∷ s) (b ∷ lower) = ((a ≡ b) ⊎ (a + 32 ≡ b)) × IsFolded s lower

abbrev AllLower : Text → Type 0
AllLower [] = Unit
AllLower (b ∷ s) = (97 ≤ b) × (b ≤ 122) × AllLower s

to_lower_iff : (a b : ℕ) → 97 ≤ b → b ≤ 122 → (to_lower a ≡ b) ↔ ((a ≡ b) ⊎ (a + 32 ≡ b))
to_lower_iff a b h k = ground (arith, h, k)

map-to_lower_iff :
    (s lower : Text) → AllLower lower → (text_eq (map to_lower s) lower ≡ true) ↔ IsFolded s lower
unfolding text_eq
map-to_lower_iff [] [] h = ground arith
map-to_lower_iff [] (b ∷ lower) h = ground arith
map-to_lower_iff (a ∷ s) [] h = ground arith
map-to_lower_iff (a ∷ s) (b ∷ lower) (h, k, l) =
    ground (arith, to_lower_iff a b h k, map-to_lower_iff s lower l)

is_true_iff : (s : Text) → (is_true s ≡ true) ↔ IsFolded s (text "true")
unfolding is_true text
is_true_iff s = map-to_lower_iff s (text "true") (
  ground arith,
  ground arith,
  (ground arith, ground arith, (ground arith, ground arith, (ground arith, ground arith, tt))),
)

module _ (ingress_class_key is_default_ingress_class : Text) where
  -- The class has the name that the Ingress gives, or is annotated as default where it gives none.
  abbrev pub IsSelected : Option Text → IngressClass → Type 0
  IsSelected (some name) class = name ≡ class.name
  IsSelected none class = IsFolded (value is_default_ingress_class class.annotations) (text "true")

  selects_iff :
      (class_name : Option Text) (class : IngressClass)
      → (selects ingress_class_key is_default_ingress_class class_name class ≡ true)
        ↔ IsSelected class_name class
  unfolding selects
  selects_iff (some name) class = text_eq_iff name class.name
  selects_iff none class = is_true_iff (value is_default_ingress_class class.annotations)

  -- A class of the list that is of this controller and selected.
  abbrev pub SomeClass : Text → Option Text → Option (List IngressClass) → Type 0
  SomeClass controller_name class_name none = ⊥
  SomeClass controller_name class_name (some classes) =
      (class : IngressClass) × In class classes
      × (class.controller ≡ controller_name)
      × IsSelected class_name class

  any_class_to :
      (controller_name : Text) (class_name : Option Text) (classes : List IngressClass)
      → any_class ingress_class_key is_default_ingress_class controller_name class_name classes
        ≡ true
      → SomeClass controller_name class_name (some classes)
  unfolding any_class
  any_class_to controller_name class_name [] e = ground arith
  any_class_to controller_name class_name (class ∷ classes) e =
      elim (Bool-cases (
        text_eq class.controller controller_name
        && selects ingress_class_key is_default_ingress_class class_name class)) [
          | inl b ↦ (
            class,
            inl refl,
            ground (arith, b, text_eq_iff class.controller controller_name),
            (selects_iff class_name class).0 (ground (arith, b)),
          )
          | inr b ↦
              let (d, i, f, r) =
                any_class_to controller_name class_name classes (ground (arith, b, e)) in
              (d, inr i, f, r)
        ]

  any_class_of :
      (controller_name : Text) (class_name : Option Text) (classes : List IngressClass)
      → SomeClass controller_name class_name (some classes)
      → any_class ingress_class_key is_default_ingress_class controller_name class_name classes
        ≡ true
  unfolding any_class
  any_class_of controller_name class_name [] (class, i, e, s) = absurd i
  any_class_of controller_name class_name (c ∷ classes) (class, inl i, e, s) =
      subst
        (λ d.
          ((text_eq d.controller controller_name
              && selects ingress_class_key is_default_ingress_class class_name d)
            || any_class ingress_class_key is_default_ingress_class controller_name class_name
                classes)
          ≡ true)
        (sym i)
        (ground
          (arith, (selects_iff class_name class).1 s, text_eq_iff class.controller controller_name))
  any_class_of controller_name class_name (c ∷ classes) (class, inr i, e, s) =
      ground (arith, any_class_of controller_name class_name classes (class, i, e, s))

  listed_class_iff :
      (controller_name : Text) (class_name : Option Text) (classes : Option (List IngressClass))
      → (listed_class ingress_class_key is_default_ingress_class controller_name class_name classes
          ≡ true)
        ↔ SomeClass controller_name class_name classes
  unfolding listed_class
  listed_class_iff controller_name class_name none = ground arith
  listed_class_iff controller_name class_name (some classes) = (
    any_class_to controller_name class_name classes,
    any_class_of controller_name class_name classes,
  )

  -- The filter accepts an Ingress exactly when its annotation names the class of the controller, or
  -- a class of this controller, of either version of the API, is the one that the Ingress names, or
  -- a class that is annotated as default, with `true` in any letters, when it names none.
  pub ingress_class_filter_iff :
      (ingress_class controller_name : Text) (v1 v1beta1 : Option (List IngressClass))
      (annots : Annotations) (class_name : Option Text)
      → (ingress_class_filter ingress_class_key is_default_ingress_class ingress_class
            controller_name v1 v1beta1 annots class_name
          ≡ true)
        ↔ ((value ingress_class_key annots ≡ ingress_class)
            ⊎ (SomeClass controller_name class_name v1
                ⊎ SomeClass controller_name class_name v1beta1))
  unfolding ingress_class_filter
  ingress_class_filter_iff ingress_class controller_name v1 v1beta1 annots class_name = ground (
    arith,
    text_eq_iff (value ingress_class_key annots) ingress_class,
    listed_class_iff controller_name class_name v1,
    listed_class_iff controller_name class_name v1beta1,
  )
