-- ===== src/Tls/Update.antt =====
-- The operations of `TLSConfig`. `version` is the text of the call of `NewVersion`.
use ingress_bfe.Base.{
  Text, text, text_eq, Map, lookup, insert, remove, Bool, true, false, ◌||◌, if◌then◌else◌, List,
  [], ◌∷◌, none, some, Error,
}
use ingress_bfe.Kube.{Ingress, Secret}
use ingress_bfe.Bfe.{External}
use ingress_bfe.Tls.{TlsConfig, CertConf, cert_paths}

-- `secret.Data[key]`, where a missing entry is empty
abbrev pub data_of : Text → Secret → Text
data_of key secret = elim (lookup key secret.contents) [ none ↦ [] | some value ↦ value ]

-- Some item is the name.
unfoldable pub mentions : Text → List Text → Bool
mentions name [] = false
mentions name (secret ∷ secrets) = text_eq secret name || mentions name secrets

module _ (x : External) where
  open x use {namespaced_name, name_index, x509_key_pair}

  abbrev pub Certs : Type 0
  Certs = TlsConfig name_index.Carrier

  unfoldable pub set_tls_version : Text → Certs → Certs
  set_tls_version version c = record c {
    server_cert_conf = record c.server_cert_conf { version = version };
    tls_rule_conf = record c.tls_rule_conf { version = version };
  }

  -- `deleteCert`
  unfoldable pub delete_cert : Text → Certs → Certs
  delete_cert name c = record c {
    server_cert_conf = record c.server_cert_conf {
      cert_conf = remove name c.server_cert_conf.cert_conf;
    };
    certs = remove name c.certs;
  }

  -- A certificate that a pair of texts makes.
  abbrev pub put_cert : Text → Secret → Certs → Certs
  put_cert name secret c = record c {
    server_cert_conf = record c.server_cert_conf {
      cert_conf = insert name (cert_paths name) c.server_cert_conf.cert_conf;
    };
    certs =
        insert name
          (record { cert = data_of (text "tls.crt") secret; key = data_of (text "tls.key") secret })
          c.certs;
  }

  -- `UpdateSecret` for a secret in use, with the error of `X509KeyPair`
  abbrev pub accept : Text → Secret → Error → Certs → Certs × Error
  accept version secret (some e) c = (c, some e)
  accept version secret none c = (
    set_tls_version version (put_cert (namespaced_name secret.namespace secret.name) secret c),
    none,
  )

  -- `UpdateSecret`
  unfoldable pub update_secret : Text → Secret → Certs → Certs × Error
  unfolding set_tls_version
  update_secret version secret c =
      if name_index.contains_value c.ingress2secret (namespaced_name secret.namespace secret.name)
      then accept version secret
          (x509_key_pair (data_of (text "tls.crt") secret) (data_of (text "tls.key") secret)) c
      else (c, none)

  -- The first loop of `UpdateIngress`.
  unfoldable pub put_secrets : Text → List Secret → Certs → Certs
  put_secrets ingress_name [] c = c
  put_secrets ingress_name (secret ∷ secrets) c = put_secrets ingress_name secrets (record c {
    ingress2secret =
        name_index.put c.ingress2secret ingress_name (namespaced_name secret.namespace secret.name);
  })

  -- `if err != nil { return err }`
  abbrev pub unless : Error → Certs → Certs × Error → Certs × Error
  unless (some e) c next = (c, some e)
  unless none c next = next

  -- Its second loop.
  unfoldable pub update_secrets : Text → List Secret → Certs → Certs × Error
  unfolding update_secret
  update_secrets version [] c = (c, none)
  update_secrets version (secret ∷ secrets) c =
      let (c', e) = update_secret version secret c in
      unless e c' (update_secrets version secrets c')

  -- `UpdateIngress`
  unfoldable pub update_ingress : Text → Ingress → List Secret → Certs → Certs × Error
  unfolding put_secrets update_secrets
  update_ingress version ingress secrets c =
      update_secrets version secrets
        (put_secrets (namespaced_name ingress.namespace ingress.name) secrets c)

  -- The loop of `DeleteIngress` over the names of `certs`, and whether it deleted one.
  unfoldable pub sweep : List Text → Map CertConf → Certs → Certs × Bool
  unfolding delete_cert mentions
  sweep secrets [] c = (c, false)
  sweep secrets ((name, _) ∷ certs) c =
      if mentions name secrets
      then sweep secrets certs c
      else ((sweep secrets certs (delete_cert name c)).0, true)

  abbrev pub swept : Text → Certs × Bool → Certs
  swept version (c, updated) = if updated then set_tls_version version c else c

  -- `DeleteIngress`
  unfoldable pub delete_ingress : Text → Text → Text → Certs → Certs
  unfolding sweep set_tls_version
  delete_ingress version namespace name c =
      let ingress_name = namespaced_name namespace name in
      let gone = record c {
        ingress2secret = name_index.remove_all c.ingress2secret ingress_name;
      } in
      if name_index.contains_key c.ingress2secret ingress_name
      then swept version (sweep (name_index.values gone.ingress2secret) c.certs gone)
      else c

  -- `DeleteSecret`
  unfoldable pub delete_secret : Text → Text → Text → Certs → Certs
  unfolding delete_cert set_tls_version
  delete_secret version namespace name c =
      let target = namespaced_name namespace name in
      if name_index.contains_value c.ingress2secret target
      then set_tls_version version (delete_cert target c)
      else c
