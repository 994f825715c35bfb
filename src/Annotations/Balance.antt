-- ===== src/Annotations/Balance.antt =====
-- internal/bfeConfig/annotations/balance.go: the weights of the annotation `balance.weight`. The
-- text of the error of a JSON text that cannot be decoded is an argument.
pub mod Bounds
use ingress_bfe.Base.{
  ℕ, ◌+◌, ◌%◌, ◌^◌, ◌==◌, Text, text, Map, if◌then◌else◌, [], ◌∷◌, ◌++◌, Option, none, some, ℤ, pos,
  negsuc, Result, ok, err, ◌>>=◌, All, ◌≡◌, ◌≢◌, ◌↔◌, ◌∙◌, ap, refl, arith, Bool-cases, inl, inr,
  Result-cases,
}
use ingress_bfe.Annotations.Decode.{unmarshal_balance}
use ingress_bfe.Annotations.{Annotations, find, bfe_annotation_prefix}

-- `Balance`: service to the weights of the services that share its load
abbrev pub Balance : Type 0
Balance = Map (Map ℤ)

abbrev pub weight_annotation : Text
weight_annotation = bfe_annotation_prefix ++ text "balance.weight"

-- The inner loop of `GetBalance`: the sum of the weights as a 64-bit integer, by its bits.
unfoldable pub sum_weights : ℕ → Map ℤ → Result ℕ
sum_weights sum [] = ok sum
sum_weights sum ((_, negsuc _) ∷ services) = err (text "weight of load balance service should >= 0")
sum_weights sum ((_, pos weight) ∷ services) = sum_weights ((sum + weight) % 2 ^ 64) services

-- The sum of one service, if it is not 0.
abbrev pub nonzero : ℕ → Result ℕ
nonzero sum =
    if sum == 0 then err (text "sum of all load balance service weight should > 0") else ok sum

-- The outer loop.
unfoldable pub check_balance : Balance → Balance → Result Balance
unfolding sum_weights
check_balance lb [] = ok lb
check_balance lb ((_, services) ∷ rest) = do
  sum ← sum_weights 0 services
  _ ← nonzero sum
  check_balance lb rest

abbrev pub decoded : Text → Option Balance → Result Balance
decoded e none = err (text "annotation " ++ weight_annotation ++ text " is illegal, error: " ++ e)
decoded e (some lb) = check_balance lb lb

-- `GetBalance`; a nil balance is empty
unfoldable pub get_balance : (Text → Text) → Annotations → Result Balance
unfolding check_balance unmarshal_balance
get_balance json_error annotations = elim (find weight_annotation annotations) [
  | none ↦ ok []
  | some value ↦ decoded (json_error value) (unmarshal_balance value)
]

-- The sum of the weights, without a bound, and whether all are at least 0.
abbrev pub total : Map ℤ → ℕ
total [] = 0
total ((_, pos weight) ∷ services) = weight + total services
total ((_, negsuc _) ∷ services) = total services

abbrev pub IsWeight : Text × ℤ → Type 0
IsWeight (_, pos _) = Unit
IsWeight (_, negsuc _) = ⊥

abbrev pub IsBalanced : Text × Map ℤ → Type 0
IsBalanced (_, services) = All IsWeight services × (total services % 2 ^ 64 ≢ 0)

sum_weights_lem :
    (services : Map ℤ) (sum : ℕ)
    → All IsWeight services
    → sum_weights (sum % 2 ^ 64) services ≡ ok ((sum + total services) % 2 ^ 64)
unfolding sum_weights
sum_weights_lem [] sum h = ap ok (omega arith)
sum_weights_lem ((_, pos weight) ∷ services) sum h =
    let e : (sum % 2 ^ 64 + weight) % 2 ^ 64 ≡ (sum + weight) % 2 ^ 64 = omega arith in
    let f : (sum + weight + total services) % 2 ^ 64 ≡ (sum + (weight + total services)) % 2 ^ 64 =
      omega arith in
    ap (λ n. sum_weights n services) e ∙ (sum_weights_lem services (sum + weight) h.1 ∙ ap ok f)
sum_weights_lem ((_, negsuc _) ∷ services) sum h = absurd h.0

sum_weights_ok :
    (services : Map ℤ) (sum n : ℕ) → sum_weights sum services ≡ ok n → All IsWeight services
unfolding sum_weights
sum_weights_ok [] sum n e = tt
sum_weights_ok ((_, pos weight) ∷ services) sum n e =
    (tt, sum_weights_ok services ((sum + weight) % 2 ^ 64) n e)
sum_weights_ok ((_, negsuc _) ∷ services) sum n e = ground arith

-- One round of the outer loop goes on exactly for a balanced service.
round_ok :
    (lb : Balance) (name : Text) (services : Map ℤ) (rest lb' : Balance)
    → check_balance lb ((name, services) ∷ rest) ≡ ok lb'
    → IsBalanced (name, services) × (check_balance lb rest ≡ ok lb')
unfolding check_balance
round_ok lb name services rest lb' e = elim (Result-cases (sum_weights 0 services)) [
  | inl (sum, q) ↦
      let w = sum_weights_ok services 0 sum q in
      let t : sum_weights 0 services ≡ ok (total services % 2 ^ 64) =
        sum_weights_lem services 0 w ∙ ap (λ n. ok (n % 2 ^ 64)) (omega arith) in
      elim (Bool-cases (total services % 2 ^ 64 == 0)) [
        | inl b ↦ ground (arith, e, t, b)
        | inr b ↦ ((w, λ z. ground (arith, b, z)), ground (arith, e, t, b))
      ]
  | inr (m, q) ↦ ground (arith, e, q)
]

round_of :
    (lb : Balance) (name : Text) (services : Map ℤ) (rest : Balance)
    → IsBalanced (name, services)
    → check_balance lb ((name, services) ∷ rest) ≡ check_balance lb rest
unfolding check_balance
round_of lb name services rest (w, n) = ground (arith, sum_weights_lem services 0 w, n)

check_balance_ok :
    (lb services : Balance) → check_balance lb services ≡ ok lb → All IsBalanced services
unfolding check_balance
check_balance_ok lb [] e = tt
check_balance_ok lb ((name, services) ∷ rest) e =
    let (b, f) = round_ok lb name services rest lb e in (b, check_balance_ok lb rest f)

check_balance_of :
    (lb services : Balance) → All IsBalanced services → check_balance lb services ≡ ok lb
unfolding check_balance
check_balance_of lb [] h = refl
check_balance_of lb ((name, services) ∷ rest) (b, h) =
    round_of lb name services rest b ∙ check_balance_of lb rest h

-- A decoded annotation is accepted as it is exactly when no weight is negative and the weights of no
-- service sum up to 0 as 64-bit integers.
pub check_balance_iff : (lb : Balance) → (check_balance lb lb ≡ ok lb) ↔ All IsBalanced lb
check_balance_iff lb = (check_balance_ok lb lb, check_balance_of lb lb)
