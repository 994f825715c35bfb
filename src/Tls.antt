-- ===== src/Tls.antt =====
-- internal/bfeConfig/configs/TLSConfig.go: the certificates of the Ingresses. Their files on the
-- disk are in Tls.Disk.
pub mod Update
pub mod Valid
pub mod Sweep
pub mod Reload
pub mod Disk
use ingress_bfe.Base.{Text, text, Map, [], ◌∷◌, ◌++◌}
use ingress_bfe.Bfe.{ServerCertConf, BfeServerCertConf, BfeTlsRuleConf}

-- `certConf`
pub record CertConf : Type 0 where
  pub cert : Text
  pub key : Text

-- `TLSConfig`; `C` is the type of the index.
pub record TlsConfig (C : Type 0) : Type 0 where
  pub server_cert_version : Text
  pub tls_rule_version : Text
  pub ingress2secret : C
  pub server_cert_conf : BfeServerCertConf
  pub tls_rule_conf : BfeTlsRuleConf
  pub certs : Map CertConf

abbrev pub default_cn_name : Text
default_cn_name = text "example"

-- `getCertFilePath`
unfoldable pub get_cert_file_path : Text → Text
get_cert_file_path name = text "tls_conf/certs/" ++ name ++ text ".crt"

unfoldable pub get_key_file_path : Text → Text
get_key_file_path name = text "tls_conf/certs/" ++ name ++ text ".key"

-- The paths of a certificate.
unfoldable pub cert_paths : Text → ServerCertConf
unfolding get_cert_file_path get_key_file_path
cert_paths name = record {
  server_cert_file = get_cert_file_path name;
  server_key_file = get_key_file_path name;
  ocsp_response_file = [];
}

unfoldable pub new_server_cert_conf : Text → BfeServerCertConf
new_server_cert_conf version = record {
  version = version;
  default_cert = default_cn_name;
  cert_conf = (default_cn_name, cert_paths default_cn_name) ∷ [];
}

unfoldable pub new_tls_rule_conf : Text → BfeTlsRuleConf
new_tls_rule_conf version = record { version = version }

-- `NewTLSConfig`, with an empty index
unfoldable pub new_tls_config : {C : Type 0} → C → Text → TlsConfig C
unfolding new_server_cert_conf new_tls_rule_conf
new_tls_config index version = record {
  server_cert_version = [];
  tls_rule_version = [];
  ingress2secret = index;
  server_cert_conf = new_server_cert_conf version;
  tls_rule_conf = new_tls_rule_conf version;
  certs = [];
}
