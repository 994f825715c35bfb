-- ===== src/Samples.antt =====
-- Concrete parameters and inputs for the tests and the applied theorems.
use native.Mathlib.Decide.{ℕ_discrete}
use ingress_bfe.Base.{
  text, text_eq, text_eq_iff, Bool, true, false, none, ◌++◌, ◌≡◌, ◌↔◌, refl, arith,
}
use ingress_bfe.MultiMap.Assoc.{assoc_multi_map}
use ingress_bfe.RouteRule.{HttpRule}
use ingress_bfe.Bfe.{External}

unfoldable pub rule_discrete : Discrete HttpRule
rule_discrete = hlevel ℕ_discrete

unfoldable pub rule_eq : HttpRule → HttpRule → Bool
unfolding rule_discrete
rule_eq a b = elim (rule_discrete a b) [ yes _ ↦ true | no _ ↦ false ]

pub rule_eq_iff : (a b : HttpRule) → (rule_eq a b ≡ true) ↔ (a ≡ b)
unfolding rule_eq
rule_eq_iff a b = ground arith

abbrev pub external : External
external = record {
  rule_index = assoc_multi_map text_eq text_eq_iff rule_eq rule_eq_iff;
  name_index = assoc_multi_map text_eq text_eq_iff text_eq text_eq_iff;
  namespaced_name = λ namespace name. namespace ++ (text "/" ++ name);
  namespaced_name_format = λ namespace name. refl;
  advanced_mode = text "ADVANCED_MODE";
  client_id_only = 0;
  convert = λ _. none;
  cluster_table_conf_check = λ _. none;
  x509_key_pair = λ _ _. none;
}
