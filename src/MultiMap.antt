-- ===== src/MultiMap.antt =====
-- The interface of the set multimap (github.com/jwangsadinata/go-multimap/setmultimap) that the
-- caches keep their indexes in. The package is not part of the repository: its operations are
-- parameters, and the laws state what its documentation says of them.
pub mod Assoc
use ingress_bfe.Base.{◌≡◌, ◌≢◌, ◌↔◌, ◌⊎◌, Bool, true, List, In}

pub record MultiMap (K V : Type 0) : Type 1 where
  pub Carrier : Type 0
  pub new : Carrier
  -- `Get`: the values; its second result is `contains_key`
  pub get : Carrier → K → List V
  pub contains_key : Carrier → K → Bool
  pub contains_value : Carrier → V → Bool
  pub put : Carrier → K → V → Carrier
  pub remove : Carrier → K → V → Carrier
  pub remove_all : Carrier → K → Carrier
  pub values : Carrier → List V
  pub empty : Carrier → Bool
  pub in_new : (k : K) (v : V) → ¬ In v (get new k)
  pub in_put :
      (m : Carrier) (k j : K) (v w : V)
      → In w (get (put m k v) j) ↔ (((k ≡ j) × (v ≡ w)) ⊎ In w (get m j))
  pub in_remove :
      (m : Carrier) (k j : K) (v w : V)
      → In w (get (remove m k v) j) ↔ (In w (get m j) × (¬ ((k ≡ j) × (v ≡ w))))
  pub in_remove_all :
      (m : Carrier) (k j : K) (w : V) → In w (get (remove_all m k) j) ↔ (In w (get m j) × (k ≢ j))
  pub contains_key_iff :
      (m : Carrier) (k : K) → (contains_key m k ≡ true) ↔ ((v : V) × In v (get m k))
  pub contains_value_iff :
      (m : Carrier) (v : V) → (contains_value m v ≡ true) ↔ ((k : K) × In v (get m k))
  pub values_iff : (m : Carrier) (v : V) → In v (values m) ↔ ((k : K) × In v (get m k))
  pub empty_iff : (m : Carrier) → (empty m ≡ true) ↔ ((k : K) (v : V) → ¬ In v (get m k))
