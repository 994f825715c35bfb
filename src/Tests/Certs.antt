-- ===== src/Tests/Certs.antt =====
-- Runs of `TLSConfig`, and its theorems at concrete Secrets.
use ingress_bfe.Base.{text, text_eq, lookup, insert, [], ◌∷◌, ◌≡◌, refl, inl, ap, length, arith}
use ingress_bfe.Samples.{external}
use ingress_bfe.Kube.{Secret}
use ingress_bfe.Tls.{new_tls_config}
use ingress_bfe.Tls.Update
use ingress_bfe.Tls.Update.{Certs, update_secret, delete_secret}
use ingress_bfe.Tls.Valid.{IsValid, new_tls_config-IsValid, update_ingress-IsValid}
use ingress_bfe.Tls.Sweep.{delete_ingress-IsValid, delete_ingress-keeps}
use ingress_bfe.Tests.Servers.{ingress}

abbrev pub secret : Secret
secret = record { namespace = text "ns"; name = text "cert"; contents = [] }

abbrev pub no_certs : Certs external
no_certs = new_tls_config external.name_index.new (text "init")

abbrev certs : Certs external
certs = (Update.update_ingress external (text "1") ingress (secret ∷ []) no_certs).0

certs-IsValid : IsValid external certs
certs-IsValid =
    update_ingress-IsValid external (text "1") ingress (secret ∷ []) no_certs
      (new_tls_config-IsValid external (text "init"))

delete_ingress-IsValid_example :
    IsValid external (Update.delete_ingress external (text "2") (text "ns") (text "a") certs)
delete_ingress-IsValid_example =
    delete_ingress-IsValid external (text "2") (text "ns") (text "a") certs certs-IsValid

-- Another Ingress goes, and the certificate stays.
delete_ingress-keeps_example :
    lookup
      (text "ns/cert")
      (Update.delete_ingress external (text "2") (text "ns") (text "bc") certs).certs
    ≡ lookup (text "ns/cert") certs.certs
unfolding text lookup insert text_eq Update.update_ingress update_secret new_tls_config
    ingress_bfe.MultiMap.Assoc.values_at ingress_bfe.MultiMap.Assoc.has_value
    ingress_bfe.MultiMap.Assoc.insert_pair
delete_ingress-keeps_example =
    delete_ingress-keeps external (text "2") (text "ns") (text "bc") (text "ns/a") (text "ns/cert")
      certs (λ e. ground (arith, ap length e)) (inl refl)
