-- ===== src/Tls/Disk/Dumped.antt =====
-- After a certificate has been written the disk has it, and the others as before.
use ingress_bfe.Base.{
  Text, text_eq, text_eq_refl, text_eq_iff, Bool-cases, false, if◌then◌else◌, Map, none, some,
  Error, inl, inr, ◌≡◌, ◌≢◌, ◌∙◌, refl, sym, ap, subst, arith,
}
use ingress_bfe.Options.{IngressOptions}
use ingress_bfe.Files.{FileSystem, dump_file}
use ingress_bfe.Files.Laws.{contents, contents-dump_file}
use ingress_bfe.Tls.{CertConf, cert_paths, get_cert_file_path, get_key_file_path}
use ingress_bfe.Tls.Reload.{cert_at}
use ingress_bfe.Tls.Disk.{and_next, dump_cert}
use ingress_bfe.Tls.Disk.Paths.{
  text_eq-false, cert_file-key_file, get_cert_file_path_inj, get_key_file_path_inj,
}

differ : (s t : Text) → text_eq s t ≡ false → s ≢ t
differ s t q e = ground (arith, q, text_eq_iff s t, e)

module _ (fs : FileSystem) (opts : IngressOptions) where
  -- The files of a certificate have its contents.
  abbrev pub Holds : Map CertConf → fs.Disk → Text → Type 0
  Holds certs d name =
      (contents fs opts d (get_cert_file_path name) ≡ some (cert_at name certs).cert)
      × (contents fs opts d (get_key_file_path name) ≡ some (cert_at name certs).key)

  pub and_next-none :
      (r : fs.Disk × Error) (next : fs.Disk → fs.Disk × Error) (d' : fs.Disk)
      → and_next fs opts r next ≡ (d', none)
      → (r.1 ≡ none) × (next r.0 ≡ (d', none))
  and_next-none (d, some e) next d' q = absurd (ground (arith, ap (λ (r : fs.Disk × Error). r.1) q))
  and_next-none (d, none) next d' q = (refl, q)

  pub pair : (r : fs.Disk × Error) → r.1 ≡ none → r ≡ (r.0, none)
  pair (d, e) q = ap (λ e. (d, e)) q

  -- What every file holds after the two files of a certificate have been written.
  contents-dump_cert :
      (name q : Text) (cert : CertConf) (d d' : fs.Disk)
      → dump_cert fs opts (cert_paths name) cert d ≡ (d', none)
      → contents fs opts d' q ≡ (
          if text_eq (get_key_file_path name) q
          then some cert.key
          else if text_eq (get_cert_file_path name) q
          then some cert.cert
          else contents fs opts d q)
  unfolding cert_paths
  contents-dump_cert name q cert d d' e =
      let r = dump_file fs opts (get_cert_file_path name) cert.cert d in
      let (e1, e2) = and_next-none r (dump_file fs opts (get_key_file_path name) cert.key) d' e in
      let first =
        contents-dump_file fs opts (get_cert_file_path name) q cert.cert d r.0 (pair r e1) in
      contents-dump_file fs opts (get_key_file_path name) q cert.key r.0 d' e2
      ∙ ap (λ c. if text_eq (get_key_file_path name) q then some cert.key else c) first

  pub dump_cert-Holds :
      (name : Text) (certs : Map CertConf) (d d' : fs.Disk)
      → dump_cert fs opts (cert_paths name) (cert_at name certs) d ≡ (d', none)
      → Holds certs d' name
  dump_cert-Holds name certs d d' e = (
    contents-dump_cert name (get_cert_file_path name) (cert_at name certs) d d' e
        ∙ rw
            (
              text_eq-false (get_key_file_path name) (get_cert_file_path name)
                  (λ q. cert_file-key_file name name (sym q)),
              text_eq_refl (get_cert_file_path name),
            )
            refl,
    contents-dump_cert name (get_key_file_path name) (cert_at name certs) d d' e
        ∙ rw (text_eq_refl (get_key_file_path name)) refl,
  )

  pub dump_cert-keeps :
      (name other : Text) (certs : Map CertConf) (d d' : fs.Disk)
      → dump_cert fs opts (cert_paths name) (cert_at name certs) d ≡ (d', none)
      → Holds certs d other
      → Holds certs d' other
  dump_cert-keeps name other certs d d' e h = elim (Bool-cases (text_eq name other)) [
    | inl q ↦
        subst (Holds certs d') ((text_eq_iff name other).0 q) (dump_cert-Holds name certs d d' e)
    | inr q ↦
        let n = differ name other q in
        (
          contents-dump_cert name (get_cert_file_path other) (cert_at name certs) d d' e
              ∙ rw
                  (
                    text_eq-false (get_key_file_path name) (get_cert_file_path other)
                        (λ q. cert_file-key_file other name (sym q)),
                    text_eq-false (get_cert_file_path name) (get_cert_file_path other)
                        (λ q. n (get_cert_file_path_inj name other q)),
                  )
                  h.0,
          contents-dump_cert name (get_key_file_path other) (cert_at name certs) d d' e
              ∙ rw
                  (
                    text_eq-false (get_key_file_path name) (get_key_file_path other)
                        (λ q. n (get_key_file_path_inj name other q)),
                    text_eq-false (get_cert_file_path name) (get_key_file_path other)
                        (cert_file-key_file name other),
                  )
                  h.1,
        )
  ]
