-- ===== src/Annotations/Status/Compare.antt =====
-- The status that is written compares equal to its own error only.
use mathlib.Core.List.{append_assoc}
use ingress_bfe.Base.{
  Text, text, is_empty, text_eq, text_eq_iff, true, false, List, [], ◌∷◌, ◌++◌, none, some, Error,
  ◌≡◌, ◌↔◌, refl, ◌∙◌, ap, arith,
}
use ingress_bfe.Json.Utf8.{is_utf8, is_utf8_from}
use ingress_bfe.Json.Strings.{write_string}
use ingress_bfe.Json.Lex.{Token, open_object, close_object, comma, colon, str, lex_from}
use ingress_bfe.Json.RoundTrip.{lex_from-write_string}
use ingress_bfe.Annotations.Status.{
  status_of, gen_error_msg, unmarshal_status, is_status, compare_status,
}

abbrev pub IsUtf8 : Error → Type 0
IsUtf8 none = Unit
IsUtf8 (some e) = is_utf8 e ≡ true

success-unmarshal : unmarshal_status (gen_error_msg none) ≡ some (status_of none)
unfolding gen_error_msg unmarshal_status text text_eq
success-unmarshal = refl

empty-unmarshal : unmarshal_status (gen_error_msg (some [])) ≡ some (status_of (some []))
unfolding gen_error_msg unmarshal_status text text_eq
empty-unmarshal = refl

-- The text of an error that has a message.
abbrev error_text : Text → Text
error_text e =
    text "{\"status\":"
    ++ (write_string (text "error") ++ (text ",\"message\":" ++ (write_string e ++ text "}")))

regroup : (a b c d e : Text) → ((a ++ b) ++ (c ++ d)) ++ e ≡ a ++ (b ++ (c ++ (d ++ e)))
regroup a b c d e =
    append_assoc (a ++ b) (c ++ d) e
    ∙ append_assoc a b ((c ++ d) ++ e)
    ∙ ap (λ t. a ++ (b ++ t)) (append_assoc c d e)

gen_error_msg-error_text : (e : Text) → is_empty e ≡ false → gen_error_msg (some e) ≡ error_text e
unfolding gen_error_msg
gen_error_msg-error_text e n = rw n (
    regroup (text "{\"status\":") (write_string (text "error")) (text ",\"message\":")
      (write_string e) (text "}"))

abbrev error_tokens : Text → List Token
error_tokens e =
    open_object
    ∷ str (text "status")
    ∷ colon
    ∷ str (text "error")
    ∷ comma
    ∷ str (text "message")
    ∷ colon
    ∷ str e
    ∷ close_object
    ∷ []

lex_from-error_text :
    (e : Text) → is_utf8 e ≡ true → lex_from 0 (error_text e) ≡ some (error_tokens e)
unfolding text lex_from is_utf8_from
lex_from-error_text e h =
    rw
      (
        lex_from-write_string (text "error") (text ",\"message\":" ++ (write_string e ++ text "}"))
            refl,
        lex_from-write_string e (text "}") h,
      )
      refl

message-unmarshal :
    (e : Text)
    → is_empty e ≡ false
    → is_utf8 e ≡ true
    → unmarshal_status (gen_error_msg (some e)) ≡ some (status_of (some e))
unfolding unmarshal_status text text_eq
message-unmarshal e n h =
    ap unmarshal_status (gen_error_msg-error_text e n) ∙ rw (lex_from-error_text e h) refl

pub unmarshal_status-gen_error_msg :
    (e : Error) → IsUtf8 e → unmarshal_status (gen_error_msg e) ≡ some (status_of e)
unmarshal_status-gen_error_msg none h = success-unmarshal
unmarshal_status-gen_error_msg (some []) h = empty-unmarshal
unmarshal_status-gen_error_msg (some (c ∷ e)) h = message-unmarshal (c ∷ e) refl h

is_status_iff : (e f : Error) → (is_status e (some (status_of f)) ≡ true) ↔ (e ≡ f)
unfolding text text_eq
is_status_iff none none = ground arith
is_status_iff none (some f) = ground arith
is_status_iff (some e) none = ground arith
is_status_iff (some e) (some f) = ground (arith, text_eq_iff f e)

is_empty-gen_error_msg : (e : Error) → is_empty (gen_error_msg e) ≡ false
unfolding gen_error_msg text
is_empty-gen_error_msg e = refl

-- The status that `GenErrorMsg` writes for an outcome compares equal to an outcome exactly when it
-- is the same one, if a message in it is valid UTF-8.
pub compare_status-gen_error_msg :
    (e f : Error) → IsUtf8 f → (compare_status e (gen_error_msg f) ≡ 0) ↔ (e ≡ f)
unfolding compare_status
compare_status-gen_error_msg e f h =
    rw (is_empty-gen_error_msg f, unmarshal_status-gen_error_msg f h)
      (ground (arith, is_status_iff e f))
