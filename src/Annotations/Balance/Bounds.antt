-- ===== src/Annotations/Balance/Bounds.antt =====
-- The range of the weights that the annotation can give.
use ingress_bfe.Base.{
  ◌^◌, ◌<◌, Text, text_eq, Map, insert, [], ◌∷◌, All, Option, none, some, ℤ, Fits, atoi-Fits, pos,
  negsuc, ok, Bool-cases, Option-cases, some_inj, ◌≡◌, refl, sym, ◌∙◌, ap, subst, arith, inl, inr,
}
use ingress_bfe.Json.Parse.{
  Json, null_value, bool_value, number_value, string_value, array_value, object_value, Members,
  no_members, member, parse_json,
}
use ingress_bfe.Annotations.{Annotations, find}
use ingress_bfe.Annotations.Decode.{
  decode_weight, decode_weights, decode_service, decode_services, decode_balance, unmarshal_balance,
}
use ingress_bfe.Annotations.Balance.{
  Balance, weight_annotation, check_balance, decoded, get_balance, IsWeight, IsBalanced,
  check_balance_iff, round_ok,
}

abbrev pub AllValues : {V : Type 0} → (V → Type 0) → Map V → Type 0
AllValues P m = All (λ e. P e.1) m

AllValues-insert :
    {V : Type 0} (P : V → Type 0) (k : Text) (v : V) (m : Map V)
    → P v
    → AllValues P m
    → AllValues P (insert k v m)
unfolding insert
AllValues-insert P k v [] p h = (p, tt)
AllValues-insert P k v ((j, w) ∷ m) p (q, h) = elim (Bool-cases (text_eq j k)) [
  | inl e ↦ rw e (p, h)
  | inr e ↦ rw e (q, AllValues-insert P k v m p h)
]

decode_weight-Fits : (v : Json) (z : ℤ) → decode_weight v ≡ some z → Fits z
decode_weight-Fits null_value (pos n) e = ground (arith, e)
decode_weight-Fits null_value (negsuc n) e = ground (arith, e)
decode_weight-Fits (bool_value b) z e = ground arith
decode_weight-Fits (number_value s) z e = atoi-Fits s z e
decode_weight-Fits (string_value s) z e = ground arith
decode_weight-Fits (array_value _) z e = ground arith
decode_weight-Fits (object_value _) z e = ground arith

decode_weights-Fits :
    (members : Members) (weights out : Map ℤ)
    → decode_weights members weights ≡ some out
    → AllValues Fits weights
    → AllValues Fits out
unfolding decode_weights
decode_weights-Fits no_members weights out e h = subst (AllValues Fits) (some_inj e) h
decode_weights-Fits (member name v members) weights out e h =
    elim (Option-cases (decode_weight v)) [
      | inl f ↦ absurd (ground (arith, e, f))
      | inr (z, f) ↦
          decode_weights-Fits members (insert name z weights) out (ground (arith, e, f))
            (AllValues-insert Fits name z weights (decode_weight-Fits v z f) h)
    ]

decode_service-Fits : (v : Json) (out : Map ℤ) → decode_service v ≡ some out → AllValues Fits out
decode_service-Fits null_value out e = subst (AllValues Fits) (some_inj e) tt
decode_service-Fits (bool_value b) out e = ground arith
decode_service-Fits (number_value s) out e = ground arith
decode_service-Fits (string_value s) out e = ground arith
decode_service-Fits (array_value _) out e = ground arith
decode_service-Fits (object_value members) out e = decode_weights-Fits members [] out e tt

decode_services-Fits :
    (members : Members) (services out : Balance)
    → decode_services members services ≡ some out
    → AllValues (AllValues Fits) services
    → AllValues (AllValues Fits) out
unfolding decode_services
decode_services-Fits no_members services out e h = subst (AllValues (AllValues Fits)) (some_inj e) h
decode_services-Fits (member name v members) services out e h =
    elim (Option-cases (decode_service v)) [
      | inl f ↦ absurd (ground (arith, e, f))
      | inr (weights, f) ↦
          decode_services-Fits members (insert name weights services) out (ground (arith, e, f)) (
            AllValues-insert (AllValues Fits) name weights services
              (decode_service-Fits v weights f) h)
    ]

decode_balance-Fits :
    (o : Option Json) (lb : Balance) → decode_balance o ≡ some lb → AllValues (AllValues Fits) lb
decode_balance-Fits none lb e = ground arith
decode_balance-Fits (some null_value) lb e = subst (AllValues (AllValues Fits)) (some_inj e) tt
decode_balance-Fits (some (bool_value b)) lb e = ground arith
decode_balance-Fits (some (number_value s)) lb e = ground arith
decode_balance-Fits (some (string_value s)) lb e = ground arith
decode_balance-Fits (some (array_value _)) lb e = ground arith
decode_balance-Fits (some (object_value members)) lb e = decode_services-Fits members [] lb e tt

-- A weight that is at least 0 and has 64 bits.
abbrev pub InRange : ℤ → Type 0
InRange (pos n) = n < 2 ^ 63
InRange (negsuc n) = ⊥

weights-InRange : (m : Map ℤ) → AllValues Fits m → All IsWeight m → AllValues InRange m
weights-InRange [] f w = tt
weights-InRange ((_, pos n) ∷ m) f w = (f.0, weights-InRange m f.1 w.1)
weights-InRange ((_, negsuc n) ∷ m) f w = absurd w.0

services-InRange :
    (lb : Balance)
    → AllValues (AllValues Fits) lb
    → All IsBalanced lb
    → AllValues (AllValues InRange) lb
services-InRange [] f b = tt
services-InRange ((_, m) ∷ lb) f b = (weights-InRange m f.0 b.0.0, services-InRange lb f.1 b.1)

check_balance_value : (lb rest lb' : Balance) → check_balance lb rest ≡ ok lb' → lb ≡ lb'
unfolding check_balance
check_balance_value lb [] lb' e = ground (arith, e)
check_balance_value lb ((name, services) ∷ rest) lb' e =
    check_balance_value lb rest lb' (round_ok lb name services rest lb' e).1

decoded-InRange :
    (e : Text) (o : Option Balance) (lb : Balance)
    → ((m : Balance) → o ≡ some m → AllValues (AllValues Fits) m)
    → decoded e o ≡ ok lb
    → AllValues (AllValues InRange) lb
decoded-InRange e none lb f h = ground (arith, h)
decoded-InRange e (some m) lb f h =
    let q = check_balance_value m m lb h in
    subst (AllValues (AllValues InRange)) q
      (services-InRange m (f m refl) ((check_balance_iff m).0 (h ∙ ap ok (sym q))))

-- The weights that `GetBalance` takes from the annotation of an object are at least 0 and below
-- 2 ^ 63, whatever the text of the annotation.
pub get_balance-InRange :
    (json_error : Text → Text) (annots : Annotations) (lb : Balance)
    → get_balance json_error annots ≡ ok lb
    → AllValues (AllValues InRange) lb
unfolding get_balance unmarshal_balance
get_balance-InRange json_error annots lb h = elim (Option-cases (find weight_annotation annots)) [
  | inl e ↦ let q : [] ≡ lb = ground (arith, e, h) in subst (AllValues (AllValues InRange)) q tt
  | inr (v, e) ↦
      decoded-InRange (json_error v) (unmarshal_balance v) lb
        (λ m. decode_balance-Fits (parse_json v) m) (ground (arith, e, h))
]
