-- ===== src/Tls/Disk/Deleted.antt =====
-- Deleting a certificate keeps the files of the others.
use ingress_bfe.Base.{Text, lookup, Option-cases, inl, inr, ◌≡◌, ◌≢◌, ◌∙◌, refl, sym}
use ingress_bfe.Options.{IngressOptions}
use ingress_bfe.Files.{FileSystem, delete_file}
use ingress_bfe.Files.Laws.{contents, contents-delete_file}
use ingress_bfe.Tls.{TlsConfig, cert_paths, get_cert_file_path, get_key_file_path}
use ingress_bfe.Tls.Disk.{delete_cert_files}
use ingress_bfe.Tls.Disk.Named.{AllNamed, lookup-AllNamed}
use ingress_bfe.Tls.Disk.Paths.{
  text_eq-false, cert_file-key_file, get_cert_file_path_inj, get_key_file_path_inj,
}

module _ (fs : FileSystem) (opts : IngressOptions) where
  contents-delete_two :
      (p k q : Text) (d : fs.Disk)
      → p ≢ q
      → k ≢ q
      → contents fs opts (delete_file fs opts p (delete_file fs opts k d)) q ≡ contents fs opts d q
  contents-delete_two p k q d m n =
      contents-delete_file fs opts p q (delete_file fs opts k d) (text_eq-false p q m)
      ∙ contents-delete_file fs opts k q d (text_eq-false k q n)

  -- `deleteCert` of a name leaves the two files of every other name as they are.
  delete_cert_files-keeps :
      {C : Type 0} (c : TlsConfig C) (name other : Text) (d : fs.Disk)
      → AllNamed c.server_cert_conf.cert_conf
      → name ≢ other
      → (contents fs opts (delete_cert_files fs opts name c d) (get_cert_file_path other)
          ≡ contents fs opts d (get_cert_file_path other))
        × (contents fs opts (delete_cert_files fs opts name c d) (get_key_file_path other)
            ≡ contents fs opts d (get_key_file_path other))
  unfolding delete_cert_files cert_paths
  delete_cert_files-keeps c name other d h n =
      elim (Option-cases (lookup name c.server_cert_conf.cert_conf)) [
        | inl e ↦ rw (e, delete_cert_files) (refl, refl)
        | inr (listed, e) ↦
            let p = lookup-AllNamed name c.server_cert_conf.cert_conf listed h e in
            rw (e, p, delete_cert_files)
              (
                contents-delete_two (get_cert_file_path name) (get_key_file_path name)
                    (get_cert_file_path other) d (λ q. n (get_cert_file_path_inj name other q))
                    (λ q. cert_file-key_file other name (sym q)),
                contents-delete_two (get_cert_file_path name) (get_key_file_path name)
                    (get_key_file_path other) d (cert_file-key_file name other)
                    (λ q. n (get_key_file_path_inj name other q)),
              )
      ]
