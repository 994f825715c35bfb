-- ===== src/Tests/Start.antt =====
-- Runs of the options, of the start and of the status, and their theorems at concrete inputs.
use ingress_bfe.Base.{
  ℕ, Text, text, text_eq, ◌*◌, ◌+◌, leb, if◌then◌else◌, true, false, List, [], ◌∷◌, ◌++◌, none,
  some, ok, pos, ◌≡◌, ◌↔◌, refl, clean, arith,
}
use ingress_bfe.Annotations.{Annotations}
use ingress_bfe.Annotations.Balance.{Balance, weight_annotation, get_balance}
use ingress_bfe.Annotations.Balance.Bounds.{AllValues, InRange, get_balance-InRange}
use ingress_bfe.Annotations.Status.{gen_error_msg, compare_status}
use ingress_bfe.Annotations.Status.Compare.{compare_status-gen_error_msg}
use ingress_bfe.Options.{IngressOptions, new_ingress_options, check}
use ingress_bfe.Options.Checked.{IsBackendName, check_iff}
use ingress_bfe.Start.{bfe_command, networking_v1, extensions_v1beta1, select_api}
use ingress_bfe.Start.Version.{newest_api, digit, select_api-newest_api}

check_iff_example :
    (((check new_ingress_options).1 ≡ none) ↔ IsBackendName new_ingress_options.default_backend)
    × ((check new_ingress_options).0.default_backend ≡ new_ingress_options.default_backend)
check_iff_example = check_iff new_ingress_options refl

-- A binary that is named without a folder: BFE reads another directory than the program writes.
abbrev relative : IngressOptions
relative = (check (record new_ingress_options { bfe_binary = text "bfe" })).0

relative_written : clean relative.config_path ≡ text "conf"
unfolding check clean text ingress_bfe.Base.has_suffix ingress_bfe.Base.dir
    ingress_bfe.Base.last_index_byte ingress_bfe.Base.split_byte text_eq ingress_bfe.Base.join
relative_written = refl

relative_read : clean ((bfe_command relative).directory ++ text "/../conf") ≡ text "../conf"
unfolding check clean text ingress_bfe.Base.dir ingress_bfe.Base.last_index_byte
    ingress_bfe.Base.split_byte text_eq ingress_bfe.Base.join
relative_read = refl

-- Version 1.18 has the older API.
select_api-newest_api_example :
    (select_api (text "1") (digit 1 (digit 8 [])) ≡ newest_api (10 * 1 + 8))
    × (select_api (text "1") (digit 8 []) ≡ (if leb 2 8 then networking_v1 else extensions_v1beta1))
select_api-newest_api_example = select_api-newest_api 1 8 [] (omega arith) (omega arith) tt

compare_status-gen_error_msg_example :
    (compare_status none (gen_error_msg (some (text "no <host>"))) ≡ 0)
    ↔ (none ≡ some (text "no <host>"))
unfolding text ingress_bfe.Json.Utf8.is_utf8_from
compare_status-gen_error_msg_example =
    compare_status-gen_error_msg none (some (text "no <host>")) refl

error_text :
    gen_error_msg (some (text "a\nb")) ≡ text "{\"status\":\"error\",\"message\":\"a\\nb\"}"
unfolding gen_error_msg text
error_text = refl

abbrev weighted : Annotations
weighted = some ((weight_annotation, text "{\"web\": {\"web\": 80, \"web2\": 20}}") ∷ [])

abbrev weights : Balance
weights = (text "web", (text "web", pos 80) ∷ (text "web2", pos 20) ∷ []) ∷ []

weighted_balance : get_balance (λ s. s) weighted ≡ ok weights
unfolding get_balance text ingress_bfe.Annotations.find ingress_bfe.Base.lookup text_eq
    ingress_bfe.Json.Parse.parse_json ingress_bfe.Base.has_prefix ingress_bfe.Base.atoi
    ingress_bfe.Base.insert
weighted_balance = refl

get_balance-InRange_example : AllValues (AllValues InRange) weights
unfolding text
get_balance-InRange_example = get_balance-InRange (λ s. s) weighted weights weighted_balance
