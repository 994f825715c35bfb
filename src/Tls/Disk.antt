-- ===== src/Tls/Disk.antt =====
-- internal/bfeConfig/configs/TLSConfig.go: the files of the certificates, as `Reload` writes them and
-- `deleteCert` deletes them.
pub mod Paths
pub mod Named
pub mod Dumped
pub mod Written
pub mod Pairs
pub mod Served
pub mod Deleted
use ingress_bfe.Base.{
  Text, text, text_eq, not, Bool, true, false, ◌||◌, if◌then◌else◌, ◌++◌, Map, lookup, [], ◌∷◌,
  Error, Result, none, some,
}
use ingress_bfe.Bfe.{ServerCertConf, BfeServerCertConf, BfeTlsRuleConf}
use ingress_bfe.Options.{IngressOptions}
use ingress_bfe.Files.{FileSystem, dump_file, dump_bfe_conf, delete_file}
use ingress_bfe.ServerData.Reload.{reloaded}
use ingress_bfe.Tls.{TlsConfig, CertConf, default_cn_name}
use ingress_bfe.Tls.Reload.{cert_at}

module _ (fs : FileSystem) (opts : IngressOptions) where
  -- `if err != nil { return err }`
  abbrev pub and_next : fs.Disk × Error → (fs.Disk → fs.Disk × Error) → fs.Disk × Error
  and_next (d, some e) next = (d, some e)
  and_next (d, none) next = next d

  -- The two files of a certificate.
  abbrev pub dump_cert : ServerCertConf → CertConf → fs.Disk → fs.Disk × Error
  dump_cert paths cert d =
      and_next (dump_file fs opts paths.server_cert_file cert.cert d)
        (dump_file fs opts paths.server_key_file cert.key)

  -- The loop of `Reload`.
  unfoldable pub dump_certs : Map CertConf → Map ServerCertConf → fs.Disk → fs.Disk × Error
  unfolding dump_file
  dump_certs certs [] d = (d, none)
  dump_certs certs ((name, paths) ∷ conf) d =
      if text_eq name default_cn_name
      then dump_certs certs conf d
      else and_next (dump_cert paths (cert_at name certs) d) (λ d. dump_certs certs conf d)

  -- `fmt.Errorf`, with the text in front of the error
  abbrev pub labelled : Text → fs.Disk × Error → fs.Disk × Error
  labelled message (d, none) = (d, none)
  labelled message (d, some e) = (d, some (message ++ e))

  abbrev pub if_changed : Bool → (fs.Disk → fs.Disk × Error) → fs.Disk → fs.Disk × Error
  if_changed false dump d = (d, none)
  if_changed true dump d = dump d

  module _ {C : Type 0} where
    -- A version differs from the one that BFE has.
    abbrev pub cert_changed : TlsConfig C → Bool
    cert_changed c = not (text_eq c.server_cert_conf.version c.server_cert_version)

    abbrev pub rule_changed : TlsConfig C → Bool
    rule_changed c = not (text_eq c.tls_rule_conf.version c.tls_rule_version)

    -- What `json.MarshalIndent` returns for the two files is an argument.
    abbrev pub dump_server_cert :
        (BfeServerCertConf → Result Text) → TlsConfig C → fs.Disk → fs.Disk × Error
    dump_server_cert marshal c d =
        and_next
          (labelled (text "dump server_cert_conf: ") (
            dump_bfe_conf fs opts (text "tls_conf/server_cert_conf.data")
              (marshal c.server_cert_conf) d))
          (dump_certs c.certs c.server_cert_conf.cert_conf)

    abbrev pub dump_tls_rule :
        (BfeTlsRuleConf → Result Text) → TlsConfig C → fs.Disk → fs.Disk × Error
    dump_tls_rule marshal c d =
        labelled (text "dump tls_rule_conf: ")
          (dump_bfe_conf fs opts (text "tls_conf/tls_rule_conf.data") (marshal c.tls_rule_conf) d)

    -- The end of `Reload`, with the error of `ReloadBfe`.
    abbrev pub told : Error → TlsConfig C → fs.Disk × Error → TlsConfig C × fs.Disk × Error
    told reload_error c (d, some e) = (c, d, some e)
    told reload_error c (d, none) =
        let (c', e) = reloaded (cert_changed c || rule_changed c) reload_error c (record c {
          server_cert_version = c.server_cert_conf.version;
          tls_rule_version = c.tls_rule_conf.version;
        }) in
        (c', d, e)

    -- `Reload`
    unfoldable pub reload_files :
        (BfeServerCertConf → Result Text)
        → (BfeTlsRuleConf → Result Text)
        → Error
        → TlsConfig C
        → fs.Disk
        → TlsConfig C × fs.Disk × Error
    unfolding dump_certs dump_bfe_conf
    reload_files marshal_cert marshal_rule reload_error c d = told reload_error c (
        and_next (if_changed (cert_changed c) (dump_server_cert marshal_cert c) d)
          (if_changed (rule_changed c) (dump_tls_rule marshal_rule c)))

    -- The files that `deleteCert` deletes.
    unfoldable pub delete_cert_files : Text → TlsConfig C → fs.Disk → fs.Disk
    unfolding delete_file
    delete_cert_files name c d = elim (lookup name c.server_cert_conf.cert_conf) [
      | none ↦ d
      | some cert ↦
          delete_file fs opts cert.server_cert_file (delete_file fs opts cert.server_key_file d)
    ]
