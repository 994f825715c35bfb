-- ===== src/Tests/Texts.antt =====
-- Runs of the operations on texts and numbers, and the theorems on names at concrete inputs.
use ingress_bfe.Base.{
  text, trim_space, atoi, format_ℕ, some, none, pos, negsuc, ◌≡◌, refl, inl, arith, [],
}
use ingress_bfe.Kube.{IngressServiceBackend}
use ingress_bfe.Names.{cluster_name, parse_port}
use ingress_bfe.Names.Laws.{plain, parse_port-cluster_name}

trim_space_ascii : trim_space (text " a b  ") ≡ text "a b"
unfolding trim_space text
trim_space_ascii = refl

atoi_tests :
    (atoi (text "-12") ≡ some (negsuc 11))
    × (atoi (text "http") ≡ none)
    × (format_ℕ 8080 ≡ text "8080")
unfolding atoi format_ℕ text
atoi_tests = (refl, refl, refl)

abbrev web : IngressServiceBackend
web = record { name = text "web_1"; port = record { name = []; number = pos 8080 } }

parse_port-cluster_name_example : parse_port (cluster_name (text "ns/a") web) ≡ plain web.port
parse_port-cluster_name_example =
    parse_port-cluster_name (text "ns/a") web (inl (8080, refl, omega arith, omega arith))
