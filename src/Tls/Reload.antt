-- ===== src/Tls/Reload.antt =====
-- `Reload` of `TLSConfig`. The errors of the calls of `DumpBfeConf`, `DumpFile` and `ReloadBfe` are
-- arguments.
use ingress_bfe.Base.{
  Text, text, text_eq, Map, lookup, not, ◌||◌, if◌then◌else◌, [], ◌∷◌, none, some, Error,
}
use ingress_bfe.Bfe.{ServerCertConf, BfeServerCertConf, BfeTlsRuleConf}
use ingress_bfe.Tls.{TlsConfig, CertConf, default_cn_name}
use ingress_bfe.ServerData.Reload.{dumped, reloaded}

-- `c.certs[name]`, where a missing entry is empty
abbrev pub cert_at : Text → Map CertConf → CertConf
cert_at name certs = elim (lookup name certs) [ none ↦ record { cert = []; key = [] } | some c ↦ c ]

-- The first error of the two.
abbrev pub or_else : Error → Error → Error
or_else (some e) next = some e
or_else none next = next

-- The error of the loop that writes the files of the certificates.
unfoldable pub dump_certs : (Text → Text → Error) → Map CertConf → Map ServerCertConf → Error
dump_certs dump_file certs [] = none
dump_certs dump_file certs ((name, cert) ∷ conf) =
    let rest = dump_certs dump_file certs conf in
    if text_eq name default_cn_name
    then rest
    else or_else (dump_file cert.server_cert_file (cert_at name certs).cert)
        (or_else (dump_file cert.server_key_file (cert_at name certs).key) rest)

unfoldable pub reload_tls :
    {C : Type 0}
    → (BfeServerCertConf → Error)
    → (Text → Text → Error)
    → (BfeTlsRuleConf → Error)
    → Error
    → TlsConfig C
    → TlsConfig C × Error
unfolding dump_certs
reload_tls dump_cert dump_file dump_rule reload_error c =
    let cert_changed = not (text_eq c.server_cert_conf.version c.server_cert_version) in
    let rule_changed = not (text_eq c.tls_rule_conf.version c.tls_rule_version) in
    dumped cert_changed (dump_cert c.server_cert_conf) (text "dump server_cert_conf: ") c (
      dumped cert_changed (dump_certs dump_file c.certs c.server_cert_conf.cert_conf) [] c (
        dumped rule_changed (dump_rule c.tls_rule_conf) (text "dump tls_rule_conf: ") c (
          reloaded (cert_changed || rule_changed) reload_error c (record c {
            server_cert_version = c.server_cert_conf.version;
            tls_rule_version = c.tls_rule_conf.version;
          }))))
