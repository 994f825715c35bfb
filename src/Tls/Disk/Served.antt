-- ===== src/Tls/Disk/Served.antt =====
-- Whatever has happened before, a reload leaves accepted pairs on the disk.
use ingress_bfe.Base.{
  Text, lookup, Bool, true, false, List, none, some, Error, Result, ◌≡◌, ◌≢◌, sym, subst,
}
use ingress_bfe.Kube.{Ingress, Secret}
use ingress_bfe.Bfe.{External, ServerCertConf, BfeServerCertConf, BfeTlsRuleConf}
use ingress_bfe.Options.{IngressOptions}
use ingress_bfe.Files.{FileSystem}
use ingress_bfe.Files.Laws.{contents}
use ingress_bfe.ServerData.Reload.{reloaded}
use ingress_bfe.Tls.{CertConf, default_cn_name, cert_paths, new_tls_config}
use ingress_bfe.Tls.Update.{Certs, update_secret, update_ingress, delete_ingress, delete_secret}
use ingress_bfe.Tls.Reload.{cert_at}
use ingress_bfe.Tls.Disk.{cert_changed, told, reload_files}
use ingress_bfe.Tls.Disk.Written.{reload_files-Holds}
use ingress_bfe.Tls.Disk.Pairs.{
  IsPaired, new_tls_config-IsPaired, update_secret-IsPaired, update_ingress-IsPaired,
  delete_ingress-IsPaired, delete_secret-IsPaired,
}
use ingress_bfe.Tls.Disk.Named.{lookup-AllNamed}

-- One operation of the certificates, or a reload with any outcome.
pub data Change (x : External) (fs : FileSystem) (opts : IngressOptions)
    : Certs x → Certs x → Type 0 where
  ingress_updated :
      (version : Text) (ingress : Ingress) (secrets : List Secret) (c : Certs x)
      → Change x fs opts c (update_ingress x version ingress secrets c).0
  ingress_deleted :
      (version namespace name : Text) (c : Certs x)
      → Change x fs opts c (delete_ingress x version namespace name c)
  secret_updated :
      (version : Text) (secret : Secret) (c : Certs x)
      → Change x fs opts c (update_secret x version secret c).0
  secret_deleted :
      (version namespace name : Text) (c : Certs x)
      → Change x fs opts c (delete_secret x version namespace name c)
  files_reloaded :
      (marshal_cert : BfeServerCertConf → Result Text) (marshal_rule : BfeTlsRuleConf → Result Text)
      (reload_error : Error) (c : Certs x) (d : fs.Disk)
      → Change x fs opts c (reload_files fs opts marshal_cert marshal_rule reload_error c d).0

-- The certificates after any sequence of changes.
pub data Changed (x : External) (fs : FileSystem) (opts : IngressOptions) : Certs x → Type 0 where
  unchanged : (version : Text) → Changed x fs opts (new_tls_config x.name_index.new version)
  after_change :
      (c c' : Certs x) → Changed x fs opts c → Change x fs opts c c' → Changed x fs opts c'

module _ (x : External) (fs : FileSystem) (opts : IngressOptions) where
  reloaded-IsPaired :
      (b : Bool) (e : Error) (c : Certs x) (v w : Text)
      → IsPaired x c
      → IsPaired x (reloaded b e c (record c { server_cert_version = v; tls_rule_version = w })).0
  reloaded-IsPaired false e c v w h = h
  reloaded-IsPaired true none c v w h = h
  reloaded-IsPaired true (some e) c v w h = h

  told-IsPaired :
      (e : Error) (c : Certs x) (r : fs.Disk × Error)
      → IsPaired x c
      → IsPaired x (told fs opts e c r).0
  told-IsPaired e c (d, some m) h = h
  told-IsPaired e c (d, none) h = reloaded-IsPaired _ e c _ _ h

  next-IsPaired : (c c' : Certs x) → Change x fs opts c c' → IsPaired x c → IsPaired x c'
  unfolding reload_files
  next-IsPaired _ _ (ingress_updated version ingress secrets c) h =
      update_ingress-IsPaired x version ingress secrets c h
  next-IsPaired _ _ (ingress_deleted version namespace name c) h =
      delete_ingress-IsPaired x version namespace name c h
  next-IsPaired _ _ (secret_updated version secret c) h =
      update_secret-IsPaired x version secret c h
  next-IsPaired _ _ (secret_deleted version namespace name c) h =
      delete_secret-IsPaired x version namespace name c h
  next-IsPaired _ _ (files_reloaded marshal_cert marshal_rule e c d) h = told-IsPaired e c _ h

  Changed-IsPaired : (c : Certs x) → Changed x fs opts c → IsPaired x c
  Changed-IsPaired _ (unchanged version) = new_tls_config-IsPaired x version
  Changed-IsPaired _ (after_change c c' h s) = next-IsPaired c c' s (Changed-IsPaired c h)

  -- The files that are listed have a pair that `X509KeyPair` accepted.
  pub record Served (d : fs.Disk) (listed : ServerCertConf) : Type 0 where
    pub pair : CertConf
    pub accepted : x.x509_key_pair pair.cert pair.key ≡ none
    pub cert_file : contents fs opts d listed.server_cert_file ≡ some pair.cert
    pub key_file : contents fs opts d listed.server_key_file ≡ some pair.key

  -- After any operations and reloads, a reload that has no error and finds the certificates changed
  -- leaves on the disk, for each name that `server_cert_conf.data` lists but the default one, a
  -- certificate and a key that were accepted as a pair, in the files that it names.
  pub reload_files-Served :
      (marshal_cert : BfeServerCertConf → Result Text) (marshal_rule : BfeTlsRuleConf → Result Text)
      (reload_error : Error) (c c' : Certs x) (d d' : fs.Disk) (name : Text)
      (listed : ServerCertConf)
      → Changed x fs opts c
      → reload_files fs opts marshal_cert marshal_rule reload_error c d ≡ (c', d', none)
      → cert_changed fs opts c ≡ true
      → lookup name c.server_cert_conf.cert_conf ≡ some listed
      → name ≢ default_cn_name
      → Served d' listed
  unfolding cert_paths
  reload_files-Served marshal_cert marshal_rule reload_error c c' d d' name listed h e changed l n =
      let (named, paired) = Changed-IsPaired c h in
      let (pair, q, accepted) = paired name listed l n in
      let (f, g) =
        reload_files-Holds fs opts marshal_cert marshal_rule reload_error c c' d d' name listed e
          changed named l n in
      let served : Served d' (cert_paths name) = record {
        pair = pair;
        accepted = accepted;
        cert_file = rw (q, cert_at) at f;
        key_file = rw (q, cert_at) at g;
      } in
      subst (Served d') (sym (lookup-AllNamed name c.server_cert_conf.cert_conf listed named l))
        served
