-- ===== src/Tests/Disk.antt =====
-- A reload that writes a certificate, and its theorem.
use ingress_bfe.Base.{
  Text, text, text_eq, lookup, insert, remove, lookup-insert, lookup-remove, Map, true, false, [],
  ◌∷◌, none, some, ok, Error, ◌≡◌, ◌∙◌, refl, ap, sym, arith,
}
use ingress_bfe.Samples.{external}
use ingress_bfe.Files.{FileSystem, dump_file, dump_bfe_conf}
use ingress_bfe.Options.{new_ingress_options}
use ingress_bfe.Tls.{new_tls_config, cert_paths}
use ingress_bfe.Tls.Update.{Certs, update_ingress}
use ingress_bfe.Tls.Disk.{reload_files, dump_certs, cert_changed}
use ingress_bfe.Tls.Disk.Served.{
  unchanged, after_change, ingress_updated, Served, reload_files-Served,
}
use ingress_bfe.Tests.Servers.{ingress}
use ingress_bfe.Tests.Certs.{no_certs}
use ingress_bfe.Kube.{Secret}

-- A disk that is a map from names to contents.
abbrev file_system : FileSystem
file_system = record {
  Disk = Map Text;
  read = λ d p. lookup p d;
  missing = λ _ _. false;
  make_folders = λ _ d. d;
  write = λ p v d. (insert p v d, none);
  remove = remove;
  read_make_folders = λ p q d. refl;
  read_write =
      λ p q v d d' e. ap (λ (r : Map Text × Error). lookup q r.0) (sym e) ∙ lookup-insert p q v d;
  read_remove = λ p q d e. rw (lookup-remove p q d, e) refl;
}

abbrev secret : Secret
secret = record {
  namespace = text "ns";
  name = text "cert";
  contents = (text "tls.crt", text "C") ∷ (text "tls.key", text "K") ∷ [];
}

abbrev certs : Certs external
certs = (update_ingress external (text "1") ingress (secret ∷ []) no_certs).0

abbrev outcome : Certs external × Map Text × Error
outcome = reload_files file_system new_ingress_options (λ _. ok []) (λ _. ok []) none certs []

succeeds : outcome ≡ (outcome.0, outcome.1, none)
unfolding reload_files dump_certs dump_bfe_conf dump_file text_eq text update_ingress
    ingress_bfe.MultiMap.Assoc.has_value ingress_bfe.MultiMap.Assoc.insert_pair new_tls_config
    insert
succeeds = refl

changed : cert_changed file_system new_ingress_options certs ≡ true
unfolding text text_eq update_ingress new_tls_config ingress_bfe.MultiMap.Assoc.has_value
    ingress_bfe.MultiMap.Assoc.insert_pair
changed = refl

listed :
    lookup (text "ns/cert") certs.server_cert_conf.cert_conf ≡ some (cert_paths (text "ns/cert"))
unfolding text text_eq update_ingress new_tls_config lookup insert cert_paths
    ingress_bfe.MultiMap.Assoc.has_value ingress_bfe.MultiMap.Assoc.insert_pair
listed = refl

reload_files-Served_example :
    Served external file_system new_ingress_options outcome.1 (cert_paths (text "ns/cert"))
unfolding text
reload_files-Served_example =
    reload_files-Served external file_system new_ingress_options (λ _. ok []) (λ _. ok []) none
      certs outcome.0 [] outcome.1 (text "ns/cert") (cert_paths (text "ns/cert"))
      (after_change no_certs certs (unchanged (text "init"))
        (ingress_updated (text "1") ingress (secret ∷ []) no_certs))
      succeeds changed listed (λ e. ground (arith, e))
