-- ===== src/Tls/Valid.antt =====
-- The certificates that `TLSConfig` keeps are those that some Ingress uses.
use ingress_bfe.Base.{
  Text, text, text_eq, text_eq_iff, Map, lookup, remove, lookup-insert, lookup-remove, true, false,
  List, [], ◌∷◌, none, some, Error, ◌≡◌, inl, inr, arith, In, Bool-cases, subst,
}
use ingress_bfe.Kube.{Ingress, Secret}
use ingress_bfe.Bfe.{External}
use ingress_bfe.Tls.{new_tls_config, CertConf, cert_paths}
use ingress_bfe.Tls.Update.{
  Certs, data_of, mentions, set_tls_version, delete_cert, put_cert, update_secret, put_secrets,
  update_secrets, accept, unless, sweep, swept, delete_secret,
}
use ingress_bfe.Tls.Update
use ingress_bfe.Cluster.Backed.{contains, contains-insert}

module _ (x : External) where
  open x use {namespaced_name, name_index, x509_key_pair}

  -- Some Ingress uses the secret.
  abbrev pub Used : Text → Certs x → Type 0
  Used name c = (ingress : Text) × In name (name_index.get c.ingress2secret ingress)

  -- Every certificate is used by some Ingress, and is listed in `server_cert_conf.data` under the
  -- paths of its name.
  abbrev pub IsValid : Certs x → Type 0
  IsValid c =
      (name : Text)
      → contains name c.certs ≡ true
      → Used name c × (lookup name c.server_cert_conf.cert_conf ≡ some (cert_paths name))

  pub contains-remove :
      (k j : Text) (m : Map CertConf)
      → contains j (remove k m) ≡ true
      → (text_eq k j ≡ false) × (contains j m ≡ true)
  contains-remove k j m e = ground (arith, e, lookup-remove k j m)

  delete_cert-IsValid : (name : Text) (c : Certs x) → IsValid c → IsValid (delete_cert x name c)
  unfolding delete_cert
  delete_cert-IsValid name c h n e =
      let (q, f) = contains-remove name n c.certs e in
      let (u, l) = h n f in
      (u, ground (arith, q, l, lookup-remove name n c.server_cert_conf.cert_conf))

  put_cert-IsValid :
      (name : Text) (secret : Secret) (c : Certs x)
      → Used name c
      → IsValid c
      → IsValid (put_cert x name secret c)
  put_cert-IsValid name secret c u h n e = elim (Bool-cases (text_eq name n)) [
    | inl q ↦
        let p = (text_eq_iff name n).0 q in
        (
          subst (λ n. Used n c) p u,
          ground (arith, p, q, lookup-insert name n (cert_paths name) c.server_cert_conf.cert_conf),
        )
    | inr q ↦
        let f : contains n c.certs ≡ true = ground (
          arith,
          q,
          e,
          contains-insert name n
              (record {
                cert = data_of (text "tls.crt") secret;
                key = data_of (text "tls.key") secret;
              })
              c.certs,
        ) in
        let (v, l) = h n f in
        (
          v,
          ground (arith, q, l, lookup-insert name n (cert_paths name) c.server_cert_conf.cert_conf),
        )
  ]

  accept-IsValid :
      (version : Text) (secret : Secret) (e : Error) (c : Certs x)
      → Used (namespaced_name secret.namespace secret.name) c
      → IsValid c
      → IsValid (accept x version secret e c).0
  unfolding set_tls_version
  accept-IsValid version secret (some e) c u h = h
  accept-IsValid version secret none c u h =
      put_cert-IsValid (namespaced_name secret.namespace secret.name) secret c u h

  -- Updating a Secret keeps every certificate in use and listed, whether the Secret holds a valid
  -- pair or not.
  pub update_secret-IsValid :
      (version : Text) (secret : Secret) (c : Certs x)
      → IsValid c
      → IsValid (update_secret x version secret c).0
  unfolding update_secret
  update_secret-IsValid version secret c h =
      let name = namespaced_name secret.namespace secret.name in
      elim (Bool-cases (name_index.contains_value c.ingress2secret name)) [
        | inl b ↦
            rw (b, update_secret)
              (accept-IsValid version secret
                (x509_key_pair (data_of (text "tls.crt") secret) (data_of (text "tls.key") secret))
                c ((name_index.contains_value_iff c.ingress2secret name).0 b) h)
        | inr b ↦ rw (b, update_secret) h
      ]

  put_secrets-IsValid :
      (ingress_name : Text) (secrets : List Secret) (c : Certs x)
      → IsValid c
      → IsValid (put_secrets x ingress_name secrets c)
  unfolding put_secrets
  put_secrets-IsValid ingress_name [] c h = h
  put_secrets-IsValid ingress_name (secret ∷ secrets) c h =
      put_secrets-IsValid ingress_name secrets _ (λ n e.
        let ((i, j), l) = h n e in
        (
          (
            i,
            (name_index.in_put c.ingress2secret ingress_name i
                  (namespaced_name secret.namespace secret.name) n).1
                (inr j),
          ),
          l,
        ))

  unless-IsValid :
      (e : Error) (c : Certs x) (next : Certs x × Error)
      → IsValid c
      → IsValid next.0
      → IsValid (unless x e c next).0
  unless-IsValid (some e) c next h k = h
  unless-IsValid none c next h k = k

  update_secrets-IsValid :
      (version : Text) (secrets : List Secret) (c : Certs x)
      → IsValid c
      → IsValid (update_secrets x version secrets c).0
  unfolding update_secrets
  update_secrets-IsValid version [] c h = h
  update_secrets-IsValid version (secret ∷ secrets) c h =
      let c' = (update_secret x version secret c).0 in
      let h' = update_secret-IsValid version secret c h in
      unless-IsValid (update_secret x version secret c).1 c' (update_secrets x version secrets c')
        h' (update_secrets-IsValid version secrets c' h')

  -- Updating an Ingress keeps every certificate in use and listed, also where a Secret is refused.
  pub update_ingress-IsValid :
      (version : Text) (ingress : Ingress) (secrets : List Secret) (c : Certs x)
      → IsValid c
      → IsValid (Update.update_ingress x version ingress secrets c).0
  unfolding Update.update_ingress
  update_ingress-IsValid version ingress secrets c h =
      update_secrets-IsValid version secrets
        (put_secrets x (namespaced_name ingress.namespace ingress.name) secrets c)
        (put_secrets-IsValid (namespaced_name ingress.namespace ingress.name) secrets c h)

  -- Deleting a Secret keeps every certificate in use and listed.
  pub delete_secret-IsValid :
      (version namespace name : Text) (c : Certs x)
      → IsValid c
      → IsValid (delete_secret x version namespace name c)
  unfolding delete_secret set_tls_version
  delete_secret-IsValid version namespace name c h =
      elim (Bool-cases
        (name_index.contains_value c.ingress2secret (namespaced_name namespace name))) [
          | inl b ↦ rw (b, delete_secret) (delete_cert-IsValid (namespaced_name namespace name) c h)
          | inr b ↦ rw (b, delete_secret) h
        ]

  -- A new configuration is valid.
  pub new_tls_config-IsValid : (version : Text) → IsValid (new_tls_config name_index.new version)
  unfolding new_tls_config lookup
  new_tls_config-IsValid version n e = ground arith
