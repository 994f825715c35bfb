-- ===== src/Tls/Disk/Paths.antt =====
-- The files of different certificates have different names.
use mathlib.Core.List.{append_cancel_left, append_cancel_right}
use ingress_bfe.Base.{
  ℕ, Text, text, text_eq, text_eq_iff, Bool-cases, false, ◌++◌, [], ◌∷◌, inl, inr, ◌≡◌, ◌≢◌, ◌∙◌,
  refl, sym, ap, arith,
}
use ingress_bfe.Tls.{get_cert_file_path, get_key_file_path}

abbrev last_of : Text → ℕ
last_of [] = 0
last_of (c ∷ []) = c
last_of (_ ∷ b ∷ s) = last_of (b ∷ s)

last_of-append : (s : Text) (c : ℕ) (t : Text) → last_of (s ++ c ∷ t) ≡ last_of (c ∷ t)
last_of-append [] c t = refl
last_of-append (a ∷ []) c t = refl
last_of-append (a ∷ b ∷ s) c t = last_of-append (b ∷ s) c t

pub text_eq-false : (s t : Text) → s ≢ t → text_eq s t ≡ false
text_eq-false s t n = elim (Bool-cases (text_eq s t)) [
  | inl e ↦ absurd (n ((text_eq_iff s t).0 e))
  | inr e ↦ e
]

-- The file of a certificate is not that of a key.
ends_differ : (s t : Text) → (s ++ text ".crt") ≢ (t ++ text ".key")
unfolding text
ends_differ s t e =
    let q =
      sym (last_of-append s b'.' (text "crt"))
      ∙ ap last_of e
      ∙ last_of-append t b'.' (text "key") in
    absurd (ground (arith, q))

pub cert_file-key_file : (s t : Text) → get_cert_file_path s ≢ get_key_file_path t
unfolding get_cert_file_path get_key_file_path text
cert_file-key_file s t e = ends_differ s t (append_cancel_left (text "tls_conf/certs/") _ _ e)

pub get_cert_file_path_inj : (s t : Text) → get_cert_file_path s ≡ get_cert_file_path t → s ≡ t
unfolding get_cert_file_path text
get_cert_file_path_inj s t e =
    append_cancel_right s t (text ".crt") (append_cancel_left (text "tls_conf/certs/") _ _ e)

pub get_key_file_path_inj : (s t : Text) → get_key_file_path s ≡ get_key_file_path t → s ≡ t
unfolding get_key_file_path text
get_key_file_path_inj s t e =
    append_cancel_right s t (text ".key") (append_cancel_left (text "tls_conf/certs/") _ _ e)
