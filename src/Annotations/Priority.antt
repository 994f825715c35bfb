-- ===== src/Annotations/Priority.antt =====
-- internal/bfeConfig/annotations/priority.go: how many advanced conditions an annotation map
-- carries, and when two maps carry the same ones.
use ingress_bfe.Base.{
  ℕ, Text, text_eq, text_eq_iff, Bool, true, ◌&&◌, Option, none, some, ◌≡◌, ◌↔◌, refl, arith,
}
use ingress_bfe.Annotations.{Annotations, find, value, cookie_annotation, header_annotation}

abbrev pub priority_basic : ℕ
priority_basic = 10

abbrev pub priority_header : ℕ
priority_header = 20

abbrev pub priority_cookie : ℕ
priority_cookie = 30

abbrev pub priority_cookie_header : ℕ
priority_cookie_header = 40

-- The ladder of `Priority` over the two lookups.
priority_of : Option Text → Option Text → ℕ
priority_of (some _) (some _) = priority_cookie_header
priority_of (some _) none = priority_cookie
priority_of none (some _) = priority_header
priority_of none none = priority_basic

unfoldable pub priority : Annotations → ℕ
unfolding priority_of
priority annotations =
    priority_of (find cookie_annotation annotations) (find header_annotation annotations)

-- `Equal`
unfoldable pub equal : Annotations → Annotations → Bool
equal none none = true
equal annotations1 annotations2 =
    text_eq (value cookie_annotation annotations1) (value cookie_annotation annotations2)
    && text_eq (value header_annotation annotations1) (value header_annotation annotations2)

-- `Equal` holds of two annotation maps exactly when they have the same cookie and the same header
-- condition, where a missing condition is the empty text.
pub equal_iff :
    (a b : Annotations)
    → (equal a b ≡ true) ↔ (
        (value cookie_annotation a ≡ value cookie_annotation b)
        × (value header_annotation a ≡ value header_annotation b))
unfolding equal value
equal_iff none none = (λ _. (refl, refl), λ _. refl)
equal_iff a b = ground (
  arith,
  text_eq_iff (value cookie_annotation a) (value cookie_annotation b),
  text_eq_iff (value header_annotation a) (value header_annotation b),
)
