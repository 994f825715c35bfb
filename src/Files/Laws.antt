-- ===== src/Files/Laws.antt =====
-- What a file holds after another or the same one has been written or deleted.
use ingress_bfe.Base.{
  Text, text_eq, dir, Bool, false, if◌then◌else◌, [], ◌∷◌, ◌++◌, none, some, Result, ok, err,
  Option, ◌≡◌, ◌∙◌, refl, ap, arith,
}
use ingress_bfe.Options.{IngressOptions}
use ingress_bfe.Files.{FileSystem, file_name, dump_file, dump_bfe_conf, delete_file}

-- A common front does not matter.
pub text_eq-append : (p s t : Text) → text_eq (p ++ s) (p ++ t) ≡ text_eq s t
unfolding text_eq
text_eq-append [] s t = refl
text_eq-append (c ∷ p) s t = ground (arith, text_eq-append p s t)

module _ (fs : FileSystem) (opts : IngressOptions) where
  -- The contents of a file of the configuration.
  abbrev pub contents : fs.Disk → Text → Option Text
  contents d filename = fs.read d (file_name opts filename)

  read_prepared :
      (b : Bool) (folder q : Text) (d : fs.Disk)
      → fs.read (if b then fs.make_folders folder d else d) q ≡ fs.read d q
  read_prepared Bool.true folder q d = fs.read_make_folders folder q d
  read_prepared Bool.false folder q d = refl

  pub contents-dump_file :
      (p q v : Text) (d d' : fs.Disk)
      → dump_file fs opts p v d ≡ (d', none)
      → contents d' q ≡ (if text_eq p q then some v else contents d q)
  unfolding dump_file
  contents-dump_file p q v d d' e =
      let name = file_name opts q in
      let folder = dir (file_name opts p) in
      let read = fs.read_write (file_name opts p) name v _ d' e in
      read
      ∙ rw (text_eq-append opts.config_path p q, read_prepared (fs.missing d folder) folder name d)
          refl

  pub contents-dump_bfe_conf :
      (p q : Text) (r : Result Text) (d d' : fs.Disk)
      → dump_bfe_conf fs opts p r d ≡ (d', none)
      → text_eq p q ≡ false
      → contents d' q ≡ contents d q
  unfolding dump_bfe_conf
  contents-dump_bfe_conf p q (err m) d d' e n = absurd (ground (arith, ap (λ r. r.1) e))
  contents-dump_bfe_conf p q (ok buf) d d' e n =
      contents-dump_file p q buf d d' e ∙ ap (λ b. if b then some buf else contents d q) n

  pub contents-delete_file :
      (p q : Text) (d : fs.Disk)
      → text_eq p q ≡ false
      → contents (delete_file fs opts p d) q ≡ contents d q
  unfolding delete_file
  contents-delete_file p q d n =
      fs.read_remove (file_name opts p) (file_name opts q) d
        (text_eq-append opts.config_path p q ∙ n)
