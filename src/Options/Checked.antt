-- ===== src/Options/Checked.antt =====
-- What the check of the options accepts.
use ingress_bfe.Base.{
  Text, is_empty, true, List, [], ◌∷◌, split_byte, none, Bool-cases, ◌≡◌, ◌↔◌, ◌⊎◌, refl, arith,
  inl, inr,
}
use ingress_bfe.Options.{IngressOptions, has_two, accepts_backend, check}

-- The empty text, or a namespace and a name with one slash between them.
abbrev pub IsBackendName : Text → Type 0
IsBackendName name =
    (is_empty name ≡ true)
    ⊎ ((namespace : Text) × (service : Text) × (split_byte name b'/' ≡ namespace ∷ service ∷ []))

has_two_iff :
    (names : List Text) → (has_two names ≡ true) ↔ ((a : Text) × (b : Text) × (names ≡ a ∷ b ∷ []))
has_two_iff [] = ground arith
has_two_iff (_ ∷ []) = ground arith
has_two_iff (a ∷ b ∷ []) = ((λ _. (a, b, refl)), λ _. refl)
has_two_iff (_ ∷ _ ∷ _ ∷ _) = ground arith

accepts_backend_iff : (name : Text) → (accepts_backend name ≡ true) ↔ IsBackendName name
accepts_backend_iff name = ground (arith, has_two_iff (split_byte name b'/'))

-- The check of the options of a controller succeeds exactly when the option for the default backend
-- is empty or a namespace and a name with one slash between them; it is not changed.
pub check_iff :
    (opts : IngressOptions)
    → opts.enable_ingress ≡ true
    → (((check opts).1 ≡ none) ↔ IsBackendName opts.default_backend)
      × ((check opts).0.default_backend ≡ opts.default_backend)
unfolding check
check_iff opts on = elim (Bool-cases (accepts_backend opts.default_backend)) [
  | inl e ↦ rw (on, e) (ground (arith, e, accepts_backend_iff opts.default_backend))
  | inr e ↦ rw (on, e) (ground (arith, e, accepts_backend_iff opts.default_backend))
]
