-- ===== src/Tls/Sweep.antt =====
-- `DeleteIngress` of `TLSConfig`: which certificates it deletes.
use ingress_bfe.Base.{
  Text, text_eq, text_eq_iff, Map, lookup, lookup-remove, Bool, true, false, List, [], ◌∷◌, ◌≡◌,
  ◌≢◌, ◌∙◌, ap, refl, inl, inr, arith, In, Bool-cases, subst, sym,
}
use ingress_bfe.Bfe.{External}
use ingress_bfe.Tls.{CertConf}
use ingress_bfe.Tls.Update.{Certs, mentions, set_tls_version, delete_cert, sweep, swept}
use ingress_bfe.Tls.Update
use ingress_bfe.Tls.Valid.{IsValid, contains-remove}
use ingress_bfe.Cluster.Backed.{contains}

pub In_of_mentions : (name : Text) (names : List Text) → mentions name names ≡ true → In name names
unfolding mentions
In_of_mentions name [] e = ground arith
In_of_mentions name (n ∷ names) e = ground (arith, text_eq_iff n name, In_of_mentions name names)

pub mentions_of_In : (name : Text) (names : List Text) → In name names → mentions name names ≡ true
unfolding mentions
mentions_of_In name [] i = absurd i
mentions_of_In name (n ∷ names) i = ground (arith, text_eq_iff n name, mentions_of_In name names)

module _ (x : External) where
  open x use {namespaced_name, name_index}

  -- What is left in `d` after the loop was in `c`, and is a secret in use if the loop met it.
  abbrev Left : List Text → Map CertConf → Text → Certs x → Certs x → Type 0
  Left secrets certs name c d =
      contains name d.certs ≡ true
      → (contains name c.certs ≡ true)
        × (contains name certs ≡ true → mentions name secrets ≡ true)
        × (lookup name d.server_cert_conf.cert_conf ≡ lookup name c.server_cert_conf.cert_conf)

  sweep-Left :
      (secrets : List Text) (certs : Map CertConf) (name : Text) (c : Certs x)
      → Left secrets certs name c (sweep x secrets certs c).0
  unfolding sweep delete_cert lookup
  sweep-Left secrets [] name c = λ e. (e, λ q. ground arith, refl)
  sweep-Left secrets ((n, v) ∷ certs) name c = elim (Bool-cases (mentions n secrets)) [
    | inl b ↦
        let p : (sweep x secrets certs c).0 ≡ (sweep x secrets ((n, v) ∷ certs) c).0 =
          rw (b, sweep) refl in
        subst (Left secrets ((n, v) ∷ certs) name c) p (λ e.
          let (q, u, l) = sweep-Left secrets certs name c e in
          (q, λ r. ground (arith, b, r, u, text_eq_iff n name), l))
    | inr b ↦
        let d = delete_cert x n c in
        let p : (sweep x secrets certs d).0 ≡ (sweep x secrets ((n, v) ∷ certs) c).0 =
          rw (b, sweep) refl in
        subst (Left secrets ((n, v) ∷ certs) name c) p (λ e.
          let (q, u, l) = sweep-Left secrets certs name d e in
          let (f, g) = contains-remove x n name c.certs q in
          (
            g,
            λ r. ground (arith, f, r, u),
            ground (arith, f, l, lookup-remove n name c.server_cert_conf.cert_conf),
          ))
  ]

  pub sweep-index :
      (secrets : List Text) (certs : Map CertConf) (c : Certs x)
      → (sweep x secrets certs c).0.ingress2secret ≡ c.ingress2secret
  unfolding sweep delete_cert
  sweep-index secrets [] c = refl
  sweep-index secrets ((n, v) ∷ certs) c =
      ground (arith, sweep-index secrets certs c, sweep-index secrets certs (delete_cert x n c))

  swept-IsValid :
      (version : Text) (r : Certs x × Bool) → IsValid x r.0 → IsValid x (swept x version r)
  unfolding set_tls_version
  swept-IsValid version (c, true) h = h
  swept-IsValid version (c, false) h = h

  -- Deleting an Ingress keeps every certificate in use and listed: those that only it used go.
  pub delete_ingress-IsValid :
      (version namespace name : Text) (c : Certs x)
      → IsValid x c
      → IsValid x (Update.delete_ingress x version namespace name c)
  unfolding Update.delete_ingress set_tls_version
  delete_ingress-IsValid version namespace name c h =
      let ingress_name = namespaced_name namespace name in
      let gone : Certs x = record c {
        ingress2secret = name_index.remove_all c.ingress2secret ingress_name;
      } in
      let secrets = name_index.values gone.ingress2secret in
      let d = (sweep x secrets c.certs gone).0 in
      let k : IsValid x d = λ n e.
        let (q, u, l) = sweep-Left secrets c.certs n gone e in
        let (i, j) =
          (name_index.values_iff gone.ingress2secret n).0 (In_of_mentions n secrets (u q)) in
        (
          (i, subst (λ m. In n (name_index.get m i)) (sym (sweep-index secrets c.certs gone)) j),
          l ∙ (h n q).1,
        ) in
      elim (Bool-cases (name_index.contains_key c.ingress2secret ingress_name)) [
        | inl b ↦
            rw (b, Update.delete_ingress) (swept-IsValid version (sweep x secrets c.certs gone) k)
        | inr b ↦ rw (b, Update.delete_ingress) h
      ]

  sweep-keeps :
      (secrets : List Text) (certs : Map CertConf) (name : Text) (c : Certs x)
      → mentions name secrets ≡ true
      → lookup name (sweep x secrets certs c).0.certs ≡ lookup name c.certs
  unfolding sweep delete_cert
  sweep-keeps secrets [] name c e = refl
  sweep-keeps secrets ((n, v) ∷ certs) name c e = elim (Bool-cases (mentions n secrets)) [
    | inl b ↦ rw (b, sweep) (sweep-keeps secrets certs name c e)
    | inr b ↦
        let q : text_eq n name ≡ false = ground (arith, e, b, text_eq_iff n name) in
        rw (b, sweep)
          (sweep-keeps secrets certs name (delete_cert x n c) e
            ∙ (lookup-remove n name c.certs ∙ (rw q refl)))
  ]

  swept-certs : (version : Text) (r : Certs x × Bool) → (swept x version r).certs ≡ r.0.certs
  unfolding set_tls_version
  swept-certs version (c, true) = refl
  swept-certs version (c, false) = refl

  -- Deleting an Ingress keeps the certificates of the secrets that another Ingress uses.
  pub delete_ingress-keeps :
      (version namespace name : Text) (other secret : Text) (c : Certs x)
      → other ≢ namespaced_name namespace name
      → In secret (name_index.get c.ingress2secret other)
      → lookup secret (Update.delete_ingress x version namespace name c).certs
        ≡ lookup secret c.certs
  unfolding Update.delete_ingress
  delete_ingress-keeps version namespace name other secret c n i =
      let ingress_name = namespaced_name namespace name in
      let gone : Certs x = record c {
        ingress2secret = name_index.remove_all c.ingress2secret ingress_name;
      } in
      let secrets = name_index.values gone.ingress2secret in
      let m : mentions secret secrets ≡ true = mentions_of_In secret secrets (
        (name_index.values_iff gone.ingress2secret secret).1 (
          other,
          (name_index.in_remove_all c.ingress2secret ingress_name other secret).1
              (i, λ q. n (sym q)),
        )) in
      elim (Bool-cases (name_index.contains_key c.ingress2secret ingress_name)) [
        | inl b ↦
            rw (b, Update.delete_ingress)
              (ap (lookup secret) (swept-certs version (sweep x secrets c.certs gone))
                ∙ sweep-keeps secrets c.certs secret gone m)
        | inr b ↦ rw (b, Update.delete_ingress) refl
      ]
