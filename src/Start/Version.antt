-- ===== src/Start/Version.antt =====
-- When the comparison of versions as texts agrees with that of numbers.
use ingress_bfe.Base.{
  ℕ, ◌+◌, ◌*◌, ◌≤◌, ◌<◌, ◌⊎◌, Text, text, leb, if◌then◌else◌, [], ◌∷◌, ◌≡◌, arith,
}
use ingress_bfe.Start.{
  IngressApi, networking_v1, networking_v1beta1, extensions_v1beta1, select_api,
}

-- The newest API that version 1.`minor` of Kubernetes serves.
abbrev pub newest_api : ℕ → IngressApi
newest_api minor =
    if leb 19 minor
    then networking_v1
    else if leb 14 minor
    then networking_v1beta1
    else extensions_v1beta1

-- The character of a digit, in front of a text.
abbrev pub digit : ℕ → Text → Text
digit d s = (48 + d) ∷ s

-- The number ends: what follows does not start with a digit.
abbrev pub EndsNumber : Text → Type 0
EndsNumber [] = Unit
EndsNumber (c ∷ _) = (c < 48) ⊎ (57 < c)

-- For a minor version of exactly two digits and perhaps other characters behind them, such as `18` or
-- `21+`, the controller of the newest API of that version is started; for a minor version of one
-- digit, that of networking/v1 from 2 on and that of extensions/v1beta1 below.
pub select_api-newest_api :
    (a b : ℕ) (suffix : Text)
    → a ≤ 9
    → b ≤ 9
    → EndsNumber suffix
    → (select_api (text "1") (digit a (digit b suffix)) ≡ newest_api (10 * a + b))
      × (select_api (text "1") (digit b [])
          ≡ (if leb 2 b then networking_v1 else extensions_v1beta1))
unfolding select_api text
select_api-newest_api a b suffix h k l = ground arith
