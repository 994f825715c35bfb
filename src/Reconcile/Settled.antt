-- ===== src/Reconcile/Settled.antt =====
-- The status that the controller writes settles: the same outcome writes no other.
use ingress_bfe.Base.{
  Text, text_eq, text_eq_refl, lookup, lookup-insert, false, none, some, Error, ◌≡◌, ◌↔◌, refl, ◌∙◌,
  subst, arith, if◌then◌else◌,
}
use ingress_bfe.Annotations.{Annotations, find, value}
use ingress_bfe.Annotations.Status.{status_annotation_key, gen_error_msg}
use ingress_bfe.Annotations.Status.Compare.{IsUtf8, compare_status-gen_error_msg}
use ingress_bfe.Reconcile.Controller.{put_annotation, set_status}

find-put_annotation :
    (key j v : Text) (a : Annotations)
    → find j (put_annotation key v a) ≡ (if text_eq key j then some v else find j a)
unfolding find lookup
find-put_annotation key j v none = refl
find-put_annotation key j v (some m) = lookup-insert key j v m

value-put_annotation : (key v : Text) (a : Annotations) → value key (put_annotation key v a) ≡ v
unfolding value
value-put_annotation key v a = ground (arith, find-put_annotation key key v a, text_eq_refl key)

-- The annotations after the status has been written.
abbrev pub written : Error → Annotations → Annotations
written e a = put_annotation status_annotation_key (gen_error_msg e) a

silent_iff :
    (e f : Error) (a : Annotations) → IsUtf8 e → (set_status f (written e a) ≡ none) ↔ (f ≡ e)
unfolding set_status
silent_iff e f a h =
    rw (value-put_annotation status_annotation_key (gen_error_msg e) a)
      (ground (arith, compare_status-gen_error_msg f e h))

set_status_written : (e : Error) (a a' : Annotations) → set_status e a ≡ some a' → written e a ≡ a'
unfolding set_status
set_status_written e a a' h = ground (arith, h)

-- After a patch of the status, the same outcome makes no other patch and any other outcome does, if
-- the message is valid UTF-8; no other annotation is changed.
pub set_status-settles :
    (e f : Error) (a a' : Annotations) (key : Text)
    → IsUtf8 e
    → set_status e a ≡ some a'
    → text_eq status_annotation_key key ≡ false
    → ((set_status f a' ≡ none) ↔ (f ≡ e)) × (find key a' ≡ find key a)
set_status-settles e f a a' key u h n =
    subst (λ b. ((set_status f b ≡ none) ↔ (f ≡ e)) × (find key b ≡ find key a))
      (set_status_written e a a' h)
      (
        silent_iff e f a u,
        find-put_annotation status_annotation_key key (gen_error_msg e) a ∙ rw n refl,
      )
