-- ===== src/Tls/Disk/Written.antt =====
-- After a reload the disk has the certificates that the configuration lists.
use ingress_bfe.Base.{
  Text, text, text_eq, text_eq_iff, Bool, Bool-cases, true, false, Map, lookup, none, some, Error,
  Result, [], ◌∷◌, inl, inr, ◌≡◌, ◌≢◌, ◌∙◌, refl, sym, ap, subst, arith,
}
use ingress_bfe.Bfe.{ServerCertConf, BfeServerCertConf, BfeTlsRuleConf}
use ingress_bfe.Options.{IngressOptions}
use ingress_bfe.Files.{FileSystem, dump_bfe_conf}
use ingress_bfe.Files.Laws.{contents-dump_bfe_conf}
use ingress_bfe.Tls.{TlsConfig, CertConf, default_cn_name, get_cert_file_path, get_key_file_path}
use ingress_bfe.Tls.Reload.{cert_at}
use ingress_bfe.Tls.Disk.{
  and_next, dump_cert, dump_certs, labelled, if_changed, cert_changed, rule_changed,
  dump_server_cert, dump_tls_rule, told, reload_files,
}
use ingress_bfe.Tls.Disk.Named.{AllNamed}
use ingress_bfe.Tls.Disk.Dumped.{Holds, and_next-none, pair, dump_cert-Holds, dump_cert-keeps}

module _ (fs : FileSystem) (opts : IngressOptions) where
  dump_certs-keeps :
      (certs : Map CertConf) (conf : Map ServerCertConf) (other : Text) (d d' : fs.Disk)
      → AllNamed conf
      → dump_certs fs opts certs conf d ≡ (d', none)
      → Holds fs opts certs d other
      → Holds fs opts certs d' other
  unfolding dump_certs
  dump_certs-keeps certs [] other d d' n e h =
      subst (λ d. Holds fs opts certs d other) (ap (λ (r : fs.Disk × Error). r.0) e) h
  dump_certs-keeps certs ((name, paths) ∷ conf) other d d' (p, n) e h =
      elim (Bool-cases (text_eq name default_cn_name)) [
        | inl q ↦ dump_certs-keeps certs conf other d d' n (rw q at e) h
        | inr q ↦
            let r = dump_cert fs opts paths (cert_at name certs) d in
            let (e1, e2) =
              and_next-none fs opts r (λ d. dump_certs fs opts certs conf d) d' (rw q at e) in
            dump_certs-keeps certs conf other r.0 d' n e2 (
              dump_cert-keeps fs opts name other certs d r.0
                (subst (λ p. dump_cert fs opts p (cert_at name certs) d ≡ (r.0, none)) p
                  (pair fs opts r e1))
                h)
      ]

  dump_certs-Holds :
      (certs : Map CertConf) (conf : Map ServerCertConf) (name : Text) (listed : ServerCertConf)
      (d d' : fs.Disk)
      → AllNamed conf
      → dump_certs fs opts certs conf d ≡ (d', none)
      → lookup name conf ≡ some listed
      → name ≢ default_cn_name
      → Holds fs opts certs d' name
  unfolding dump_certs lookup
  dump_certs-Holds certs [] name listed d d' n e l other_name = absurd (ground (arith, l))
  dump_certs-Holds certs ((first, paths) ∷ conf) name listed d d' (p, n) e l other_name =
      elim (Bool-cases (text_eq first default_cn_name)) [
        | inl q ↦ elim (Bool-cases (text_eq first name)) [
          | inl f ↦ absurd (
              other_name
                (sym ((text_eq_iff first name).0 f) ∙ (text_eq_iff first default_cn_name).0 q))
          | inr f ↦
              dump_certs-Holds certs conf name listed d d' n (rw q at e) (rw f at l) other_name
        ]
        | inr q ↦
            let r = dump_cert fs opts paths (cert_at first certs) d in
            let (e1, e2) =
              and_next-none fs opts r (λ d. dump_certs fs opts certs conf d) d' (rw q at e) in
            elim (Bool-cases (text_eq first name)) [
              | inl f ↦ dump_certs-keeps certs conf name r.0 d' n e2 (
                  subst (Holds fs opts certs r.0) ((text_eq_iff first name).0 f) (
                    dump_cert-Holds fs opts first certs d r.0 (
                      subst (λ p. dump_cert fs opts p (cert_at first certs) d ≡ (r.0, none)) p
                        (pair fs opts r e1))))
              | inr f ↦ dump_certs-Holds certs conf name listed r.0 d' n e2 (rw f at l) other_name
            ]
      ]

  labelled-none :
      (message : Text) (r : fs.Disk × Error) (d' : fs.Disk)
      → labelled fs opts message r ≡ (d', none)
      → r ≡ (d', none)
  labelled-none message (d, none) d' e = e
  labelled-none message (d, some m) d' e =
      absurd (ground (arith, ap (λ (r : fs.Disk × Error). r.1) e))

  module _ {C : Type 0} (marshal_cert : BfeServerCertConf → Result Text)
      (marshal_rule : BfeTlsRuleConf → Result Text) (reload_error : Error) where
    told-none :
        (c c' : TlsConfig C) (r : fs.Disk × Error) (d' : fs.Disk)
        → told fs opts reload_error c r ≡ (c', d', none)
        → r ≡ (d', none)
    told-none c c' (d, none) d' e = ap (λ (r : TlsConfig C × fs.Disk × Error). (r.1, none)) e
    told-none c c' (d, some m) d' e =
        absurd (ground (arith, ap (λ (r : TlsConfig C × fs.Disk × Error). r.2) e))

    tls_rule-keeps :
        (c : TlsConfig C) (name : Text) (b : Bool) (d d' : fs.Disk)
        → if_changed fs opts b (dump_tls_rule fs opts marshal_rule c) d ≡ (d', none)
        → Holds fs opts c.certs d name
        → Holds fs opts c.certs d' name
    unfolding text text_eq get_cert_file_path get_key_file_path
    tls_rule-keeps c name false d d' e h =
        subst (λ d. Holds fs opts c.certs d name) (ap (λ (r : fs.Disk × Error). r.0) e) h
    tls_rule-keeps c name true d d' e h =
        let file = text "tls_conf/tls_rule_conf.data" in
        let r = dump_bfe_conf fs opts file (marshal_rule c.tls_rule_conf) d in
        let q = labelled-none (text "dump tls_rule_conf: ") r d' e in
        (
          contents-dump_bfe_conf fs opts file (get_cert_file_path name)
                (marshal_rule c.tls_rule_conf) d d' q refl
              ∙ h.0,
          contents-dump_bfe_conf fs opts file (get_key_file_path name)
                (marshal_rule c.tls_rule_conf) d d' q refl
              ∙ h.1,
        )

    -- A reload without an error, with certificates that have changed, leaves on the disk the certificate
    -- and the key of every name that is listed, but the default one, in the files of its name.
    pub reload_files-Holds :
        (c c' : TlsConfig C) (d d' : fs.Disk) (name : Text) (listed : ServerCertConf)
        → reload_files fs opts marshal_cert marshal_rule reload_error c d ≡ (c', d', none)
        → cert_changed fs opts c ≡ true
        → AllNamed c.server_cert_conf.cert_conf
        → lookup name c.server_cert_conf.cert_conf ≡ some listed
        → name ≢ default_cn_name
        → Holds fs opts c.certs d' name
    unfolding reload_files
    reload_files-Holds c c' d d' name listed e changed named l other_name =
        let r =
          if_changed fs opts (cert_changed fs opts c) (dump_server_cert fs opts marshal_cert c) d in
        let rule =
          if_changed fs opts (rule_changed fs opts c) (dump_tls_rule fs opts marshal_rule c) in
        let (e1, e2) =
          and_next-none fs opts r rule d' (told-none c c' (and_next fs opts r rule) d' e) in
        let start = labelled fs opts (text "dump server_cert_conf: ") (
          dump_bfe_conf fs opts (text "tls_conf/server_cert_conf.data")
            (marshal_cert c.server_cert_conf) d) in
        let q : dump_server_cert fs opts marshal_cert c d ≡ (r.0, none) =
          subst
            (λ b. if_changed fs opts b (dump_server_cert fs opts marshal_cert c) d ≡ (r.0, none))
            changed (pair fs opts r e1) in
        let (f1, f2) =
          and_next-none fs opts start (dump_certs fs opts c.certs c.server_cert_conf.cert_conf) r.0
            q in
        tls_rule-keeps c name (rule_changed fs opts c) r.0 d' e2 (
          dump_certs-Holds c.certs c.server_cert_conf.cert_conf name listed start.0 r.0 named f2 l
            other_name)
