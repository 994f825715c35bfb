-- ===== src/Files.antt =====
-- internal/bfeConfig/util/io.go: the files that are written and deleted, and the call that makes BFE
-- read one. The file system and the answer of the HTTP client are arguments.
pub mod Laws
use ingress_bfe.Base.{
  ℕ, ◌==◌, Text, text, text_eq, dir, Bool, false, if◌then◌else◌, ◌++◌, take, Error, Result, ok, err,
  Option, none, some, ◌≡◌,
}
use ingress_bfe.Options.{IngressOptions}

-- The name of a file of the configuration.
abbrev pub file_name : IngressOptions → Text → Text
file_name opts name = opts.config_path ++ name

-- What the program uses of packages `os` and `ioutil`, with what their documentation says: a file that
-- is written without an error has its new contents, and nothing else changes another file. Names that
-- differ are those of different files.
pub record FileSystem : Type 1 where
  pub Disk : Type 0
  pub read : Disk → Text → Option Text
  -- `os.IsNotExist` of the error of `os.Stat`
  pub missing : Disk → Text → Bool
  -- `os.MkdirAll`, whose error is dropped
  pub make_folders : Text → Disk → Disk
  -- `ioutil.WriteFile`
  pub write : Text → Text → Disk → Disk × Error
  -- `os.Remove`, whose error is dropped
  pub remove : Text → Disk → Disk
  pub read_make_folders : (p q : Text) (d : Disk) → read (make_folders p d) q ≡ read d q
  pub read_write :
      (p q v : Text) (d d' : Disk)
      → write p v d ≡ (d', none)
      → read d' q ≡ (if text_eq p q then some v else read d q)
  pub read_remove : (p q : Text) (d : Disk) → text_eq p q ≡ false → read (remove p d) q ≡ read d q

module _ (fs : FileSystem) (opts : IngressOptions) where
  -- `DumpFile`
  unfoldable pub dump_file : Text → Text → fs.Disk → fs.Disk × Error
  dump_file filename v d =
      let name = file_name opts filename in
      let folder = dir name in
      fs.write name v (if fs.missing d folder then fs.make_folders folder d else d)

  -- `DumpBfeConf`, with what `json.MarshalIndent` returns
  unfoldable pub dump_bfe_conf : Text → Result Text → fs.Disk → fs.Disk × Error
  unfolding dump_file
  dump_bfe_conf config_file (err e) d = (d, some (text "config json marshal err " ++ e))
  dump_bfe_conf config_file (ok buf) d = dump_file config_file buf d

  -- `DeleteFile`
  unfoldable pub delete_file : Text → fs.Disk → fs.Disk
  delete_file filename d = fs.remove (file_name opts filename) d

-- A response of HTTP: its status, its body, and the error of reading the body.
pub record Response : Type 0 where
  pub status_code : ℕ
  pub body : Text
  pub read_error : Error

-- The reason that BFE gives: at most 1024 bytes of the body.
abbrev pub fail_reason : Response → Error
fail_reason response = elim response.read_error [
  | some e ↦ some e
  | none ↦ some (text "fail to reload: " ++ take 1024 response.body)
]

abbrev pub reload_result : Result Response → Error
reload_result (err e) = some e
reload_result (ok response) = if response.status_code == 200 then none else fail_reason response

-- `ReloadBfe`, with what `http.Get` returns
unfoldable pub reload_bfe : IngressOptions → (Text → Result Response) → Text → Error
reload_bfe opts get config_name = reload_result (get (opts.reload_url ++ config_name))
