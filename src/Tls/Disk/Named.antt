-- ===== src/Tls/Disk/Named.antt =====
-- Each entry of `server_cert_conf.data` has the paths of its name.
use ingress_bfe.Base.{
  All, Text, text_eq, text_eq_iff, Map, lookup, insert, remove, Bool-cases, some, some_inj, [], ◌∷◌,
  inl, inr, ◌≡◌, ◌∙◌, refl, sym, ap, arith,
}
use ingress_bfe.Bfe.{ServerCertConf}
use ingress_bfe.Tls.{cert_paths}

-- The entries have the paths of their names.
abbrev pub AllNamed : Map ServerCertConf → Type 0
AllNamed conf = All (λ e. e.1 ≡ cert_paths e.0) conf

pub AllNamed-insert :
    (k : Text) (m : Map ServerCertConf) → AllNamed m → AllNamed (insert k (cert_paths k) m)
unfolding insert
AllNamed-insert k [] h = (refl, tt)
AllNamed-insert k ((j, v) ∷ m) (p, h) = elim (Bool-cases (text_eq j k)) [
  | inl e ↦ rw e (ap cert_paths (sym ((text_eq_iff j k).0 e)), h)
  | inr e ↦ rw e (p, AllNamed-insert k m h)
]

pub AllNamed-remove : (k : Text) (m : Map ServerCertConf) → AllNamed m → AllNamed (remove k m)
unfolding remove
AllNamed-remove k [] h = tt
AllNamed-remove k ((j, v) ∷ m) (p, h) = elim (Bool-cases (text_eq j k)) [
  | inl e ↦ rw e (AllNamed-remove k m h)
  | inr e ↦ rw e (p, AllNamed-remove k m h)
]

pub lookup-AllNamed :
    (name : Text) (m : Map ServerCertConf) (listed : ServerCertConf)
    → AllNamed m
    → lookup name m ≡ some listed
    → listed ≡ cert_paths name
unfolding lookup
lookup-AllNamed name [] listed h l = absurd (ground (arith, l))
lookup-AllNamed name ((j, v) ∷ m) listed (p, h) l = elim (Bool-cases (text_eq j name)) [
  | inl e ↦ sym (some_inj (rw e at l)) ∙ p ∙ ap cert_paths ((text_eq_iff j name).0 e)
  | inr e ↦ lookup-AllNamed name m listed h (rw e at l)
]
