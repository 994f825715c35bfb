-- ===== src/Tls/Disk/Pairs.antt =====
-- Every certificate that the configuration lists, but the default one, has a pair that was accepted.
use ingress_bfe.Base.{
  Text, text, text_eq, text_eq_iff, Map, lookup, lookup-insert, lookup-remove, Bool, Bool-cases,
  true, false, List, none, some, Error, [], ◌∷◌, inl, inr, ◌≡◌, ◌≢◌, refl, sym, arith,
}
use ingress_bfe.Kube.{Ingress, Secret}
use ingress_bfe.Bfe.{External, ServerCertConf}
use ingress_bfe.Tls.{CertConf, default_cn_name, cert_paths, new_tls_config, new_server_cert_conf}
use ingress_bfe.Tls.Update.{
  Certs, data_of, mentions, set_tls_version, delete_cert, put_cert, update_secret, put_secrets,
  update_secrets, accept, unless, sweep, swept, delete_secret,
}
use ingress_bfe.Tls.Update
use ingress_bfe.Tls.Disk.Named.{AllNamed, AllNamed-insert, AllNamed-remove}

module _ (x : External) where
  open x use {namespaced_name, name_index, x509_key_pair}

  -- The pair of the name was accepted.
  abbrev pub HasPair : Map CertConf → Text → Type 0
  HasPair certs name =
      (cert : CertConf) × (lookup name certs ≡ some cert)
      × (x509_key_pair cert.cert cert.key ≡ none)

  abbrev pub IsPaired : Certs x → Type 0
  IsPaired c =
      AllNamed c.server_cert_conf.cert_conf
      × ((name : Text) (listed : ServerCertConf)
          → lookup name c.server_cert_conf.cert_conf ≡ some listed
          → name ≢ default_cn_name
          → HasPair c.certs name)

  pub new_tls_config-IsPaired : (version : Text) → IsPaired (new_tls_config name_index.new version)
  unfolding new_tls_config new_server_cert_conf lookup
  new_tls_config-IsPaired version = (
    (refl, tt),
    λ name listed l n. absurd (n (sym ((text_eq_iff default_cn_name name).0 (ground (arith, l))))),
  )

  delete_cert-IsPaired : (name : Text) (c : Certs x) → IsPaired c → IsPaired (delete_cert x name c)
  unfolding delete_cert
  delete_cert-IsPaired name c (h, k) = (
    AllNamed-remove name c.server_cert_conf.cert_conf h,
    λ other listed l n.
        let q : text_eq name other ≡ false =
          ground (arith, l, lookup-remove name other c.server_cert_conf.cert_conf) in
        let (cert, e, v) =
          k other listed
            (ground (arith, q, l, lookup-remove name other c.server_cert_conf.cert_conf)) n in
        (cert, ground (arith, q, e, lookup-remove name other c.certs), v),
  )

  put_cert-IsPaired :
      (name : Text) (secret : Secret) (c : Certs x)
      → x509_key_pair (data_of (text "tls.crt") secret) (data_of (text "tls.key") secret) ≡ none
      → IsPaired c
      → IsPaired (put_cert x name secret c)
  put_cert-IsPaired name secret c v (h, k) = (
    AllNamed-insert name c.server_cert_conf.cert_conf h,
    λ other listed l n.
        let pair : CertConf = record {
          cert = data_of (text "tls.crt") secret;
          key = data_of (text "tls.key") secret;
        } in
        elim (Bool-cases (text_eq name other)) [
          | inl q ↦ (pair, rw (lookup-insert name other pair c.certs, q) refl, v)
          | inr q ↦
              let (cert, e, w) =
                k other listed
                  (rw (lookup-insert name other (cert_paths name) c.server_cert_conf.cert_conf, q)
                    at l)
                  n in
              (cert, rw (lookup-insert name other pair c.certs, q) e, w)
        ],
  )

  accept-IsPaired :
      (version : Text) (secret : Secret) (e : Error) (c : Certs x)
      → x509_key_pair (data_of (text "tls.crt") secret) (data_of (text "tls.key") secret) ≡ e
      → IsPaired c
      → IsPaired (accept x version secret e c).0
  unfolding set_tls_version
  accept-IsPaired version secret (some e) c v h = h
  accept-IsPaired version secret none c v h =
      put_cert-IsPaired (namespaced_name secret.namespace secret.name) secret c v h

  pub update_secret-IsPaired :
      (version : Text) (secret : Secret) (c : Certs x)
      → IsPaired c
      → IsPaired (update_secret x version secret c).0
  unfolding update_secret
  update_secret-IsPaired version secret c h =
      elim (Bool-cases (
        name_index.contains_value c.ingress2secret
          (namespaced_name secret.namespace secret.name))) [
            | inl b ↦ rw (b, update_secret) (accept-IsPaired version secret _ c refl h)
            | inr b ↦ rw (b, update_secret) h
          ]

  put_secrets-IsPaired :
      (ingress_name : Text) (secrets : List Secret) (c : Certs x)
      → IsPaired c
      → IsPaired (put_secrets x ingress_name secrets c)
  unfolding put_secrets
  put_secrets-IsPaired ingress_name [] c h = h
  put_secrets-IsPaired ingress_name (secret ∷ secrets) c h =
      put_secrets-IsPaired ingress_name secrets _ h

  unless-IsPaired :
      (e : Error) (c : Certs x) (next : Certs x × Error)
      → IsPaired c
      → IsPaired next.0
      → IsPaired (unless x e c next).0
  unless-IsPaired (some e) c next h k = h
  unless-IsPaired none c next h k = k

  update_secrets-IsPaired :
      (version : Text) (secrets : List Secret) (c : Certs x)
      → IsPaired c
      → IsPaired (update_secrets x version secrets c).0
  unfolding update_secrets
  update_secrets-IsPaired version [] c h = h
  update_secrets-IsPaired version (secret ∷ secrets) c h =
      let (c', e) = update_secret x version secret c in
      let h' = update_secret-IsPaired version secret c h in
      unless-IsPaired (update_secret x version secret c).1 (update_secret x version secret c).0
        (update_secrets x version secrets (update_secret x version secret c).0) h'
        (update_secrets-IsPaired version secrets (update_secret x version secret c).0 h')

  pub update_ingress-IsPaired :
      (version : Text) (ingress : Ingress) (secrets : List Secret) (c : Certs x)
      → IsPaired c
      → IsPaired (Update.update_ingress x version ingress secrets c).0
  unfolding Update.update_ingress
  update_ingress-IsPaired version ingress secrets c h =
      update_secrets-IsPaired version secrets _ (put_secrets-IsPaired _ secrets c h)

  sweep-IsPaired :
      (secrets : List Text) (certs : Map CertConf) (c : Certs x)
      → IsPaired c
      → IsPaired (sweep x secrets certs c).0
  unfolding sweep
  sweep-IsPaired secrets [] c h = h
  sweep-IsPaired secrets ((n, v) ∷ certs) c h = elim (Bool-cases (mentions n secrets)) [
    | inl b ↦ rw (b, sweep) (sweep-IsPaired secrets certs c h)
    | inr b ↦ rw (b, sweep) (sweep-IsPaired secrets certs _ (delete_cert-IsPaired n c h))
  ]

  swept-IsPaired :
      (version : Text) (r : Certs x × Bool) → IsPaired r.0 → IsPaired (swept x version r)
  unfolding set_tls_version
  swept-IsPaired version (c, true) h = h
  swept-IsPaired version (c, false) h = h

  pub delete_ingress-IsPaired :
      (version namespace name : Text) (c : Certs x)
      → IsPaired c
      → IsPaired (Update.delete_ingress x version namespace name c)
  unfolding Update.delete_ingress
  delete_ingress-IsPaired version namespace name c h =
      elim (Bool-cases
        (name_index.contains_key c.ingress2secret (namespaced_name namespace name))) [
          | inl b ↦
              rw (b, Update.delete_ingress)
                (swept-IsPaired version _ (
                  sweep-IsPaired _ c.certs
                    (record c {
                      ingress2secret =
                          name_index.remove_all c.ingress2secret (namespaced_name namespace name);
                    })
                    h))
          | inr b ↦ rw (b, Update.delete_ingress) h
        ]

  pub delete_secret-IsPaired :
      (version namespace name : Text) (c : Certs x)
      → IsPaired c
      → IsPaired (delete_secret x version namespace name c)
  unfolding delete_secret set_tls_version
  delete_secret-IsPaired version namespace name c h =
      elim (Bool-cases
        (name_index.contains_value c.ingress2secret (namespaced_name namespace name))) [
          | inl b ↦
              rw (b, delete_secret) (delete_cert-IsPaired (namespaced_name namespace name) c h)
          | inr b ↦ rw (b, delete_secret) h
        ]
