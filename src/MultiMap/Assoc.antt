-- ===== src/MultiMap/Assoc.antt =====
-- A multimap as a list of pairs: the laws of the interface can be met.
use ingress_bfe.Base.{
  Bool, true, false, ◌&&◌, ◌||◌, if◌then◌else◌, List, [], ◌∷◌, In, Bool-cases, ◌≡◌, ◌≢◌, ◌↔◌, ◌⊎◌,
  inl, inr, refl, subst, arith,
}
use ingress_bfe.MultiMap.{MultiMap}

module _ {K V : Type 0} (key_eq : K → K → Bool)
    (key_iff : (a b : K) → (key_eq a b ≡ true) ↔ (a ≡ b)) (value_eq : V → V → Bool)
    (value_iff : (a b : V) → (value_eq a b ≡ true) ↔ (a ≡ b)) where
  abbrev Pairs : Type 0
  Pairs = List (K × V)

  unfoldable pub values_at : Pairs → K → List V
  values_at [] k = []
  values_at ((j, v) ∷ m) k = if key_eq j k then v ∷ values_at m k else values_at m k

  unfoldable pub has : Pairs → K → V → Bool
  has [] k v = false
  has ((j, w) ∷ m) k v = (key_eq j k && value_eq w v) || has m k v

  unfoldable pub has_key : Pairs → K → Bool
  has_key [] k = false
  has_key ((j, _) ∷ m) k = key_eq j k || has_key m k

  unfoldable pub has_value : Pairs → V → Bool
  has_value [] v = false
  has_value ((_, w) ∷ m) v = value_eq w v || has_value m v

  unfoldable pub insert_pair : Pairs → K → V → Pairs
  unfolding has
  insert_pair m k v = if has m k v then m else (k, v) ∷ m

  unfoldable pub drop_pair : Pairs → K → V → Pairs
  drop_pair [] k v = []
  drop_pair ((j, w) ∷ m) k v =
      if key_eq j k && value_eq w v then drop_pair m k v else (j, w) ∷ drop_pair m k v

  unfoldable pub drop_key : Pairs → K → Pairs
  drop_key [] k = []
  drop_key ((j, w) ∷ m) k = if key_eq j k then drop_key m k else (j, w) ∷ drop_key m k

  unfoldable pub all_values : Pairs → List V
  all_values [] = []
  all_values ((_, w) ∷ m) = w ∷ all_values m

  abbrev is_empty_list : Pairs → Bool
  is_empty_list [] = true
  is_empty_list (_ ∷ _) = false

  has_iff : (m : Pairs) (k : K) (v : V) → (has m k v ≡ true) ↔ In v (values_at m k)
  unfolding has values_at
  has_iff [] k v = (λ e. cc e, λ h. absurd h)
  has_iff ((j, w) ∷ m) k v = ground (arith, has_iff m k v, key_iff j k, value_iff w v)

  pub in_insert_pair :
      (m : Pairs) (k j : K) (v w : V)
      → In w (values_at (insert_pair m k v) j) ↔ (((k ≡ j) × (v ≡ w)) ⊎ In w (values_at m j))
  unfolding insert_pair values_at
  in_insert_pair m k j v w = ground (arith, has_iff m k v, key_iff k j)

  pub in_drop_pair :
      (m : Pairs) (k j : K) (v w : V)
      → In w (values_at (drop_pair m k v) j) ↔ (In w (values_at m j) × (¬ ((k ≡ j) × (v ≡ w))))
  unfolding drop_pair values_at
  in_drop_pair [] k j v w = (λ h. absurd h, λ h. absurd h.0)
  in_drop_pair ((i, u) ∷ m) k j v w =
      ground (arith, in_drop_pair m k j v w, key_iff i k, key_iff i j, key_iff k j, value_iff u v)

  pub in_drop_key :
      (m : Pairs) (k j : K) (w : V)
      → In w (values_at (drop_key m k) j) ↔ (In w (values_at m j) × (k ≢ j))
  unfolding drop_key values_at
  in_drop_key [] k j w = (λ h. absurd h, λ h. absurd h.0)
  in_drop_key ((i, u) ∷ m) k j w =
      ground (arith, in_drop_key m k j w, key_iff i k, key_iff i j, key_iff k j)

  -- What stands under a key of a longer list.
  later : (j k : K) (w v : V) (m : Pairs) → In v (values_at m k) → In v (values_at ((j, w) ∷ m) k)
  unfolding values_at
  later j k w v m i = ground arith

  here : (k : K) (w : V) (m : Pairs) → In w (values_at ((k, w) ∷ m) k)
  unfolding values_at
  here k w m = ground (arith, key_iff k k)

  split :
      (j k : K) (w v : V) (m : Pairs)
      → In v (values_at ((j, w) ∷ m) k)
      → ((j ≡ k) × (w ≡ v)) ⊎ In v (values_at m k)
  unfolding values_at
  split j k w v m i = ground (arith, key_iff j k)

  pub key_of_has : (m : Pairs) (k : K) → has_key m k ≡ true → (v : V) × In v (values_at m k)
  unfolding has_key
  key_of_has [] k e = cc
  key_of_has ((j, w) ∷ m) k e = elim (Bool-cases (key_eq j k)) [
    | inl q ↦ (w, subst (λ i. In w (values_at ((j, w) ∷ m) i)) ((key_iff j k).0 q) (here j w m))
    | inr q ↦ let (v, i) = key_of_has m k (rw q at e) in (v, later j k w v m i)
  ]

  pub has_of_key : (m : Pairs) (k : K) (v : V) → In v (values_at m k) → has_key m k ≡ true
  unfolding has_key values_at
  has_of_key [] k v i = absurd i
  has_of_key ((j, w) ∷ m) k v i = ground (arith, has_of_key m k v, key_iff j k)

  pub key_of_value : (m : Pairs) (v : V) → In v (all_values m) → (k : K) × In v (values_at m k)
  unfolding all_values
  key_of_value [] v i = absurd i
  key_of_value ((j, w) ∷ m) v (inl e) =
      (j, subst (λ u. In u (values_at ((j, w) ∷ m) j)) e (here j w m))
  key_of_value ((j, w) ∷ m) v (inr i) = let (k, h) = key_of_value m v i in (k, later j k w v m h)

  pub value_of_key : (m : Pairs) (v : V) (k : K) → In v (values_at m k) → In v (all_values m)
  unfolding all_values values_at
  value_of_key [] v k i = absurd i
  value_of_key ((j, w) ∷ m) v k i = ground (arith, split j k w v m, value_of_key m v k)

  pub has_value_iff : (m : Pairs) (v : V) → (has_value m v ≡ true) ↔ In v (all_values m)
  unfolding has_value all_values
  has_value_iff [] v = (λ e. cc e, λ h. absurd h)
  has_value_iff ((j, w) ∷ m) v = ground (arith, has_value_iff m v, value_iff w v)

  pub empty_of_none :
      (m : Pairs) → ((k : K) (v : V) → ¬ In v (values_at m k)) → is_empty_list m ≡ true
  empty_of_none [] h = refl
  empty_of_none ((j, w) ∷ m) h = absurd (h j w (here j w m))

  pub none_of_empty :
      (m : Pairs) → is_empty_list m ≡ true → (k : K) (v : V) → ¬ In v (values_at m k)
  unfolding values_at
  none_of_empty [] e k v = λ i. i
  none_of_empty (_ ∷ m) e k v = cc

  abbrev pub assoc_multi_map : MultiMap K V
  assoc_multi_map = record {
    Carrier = Pairs;
    new = [];
    get = values_at;
    contains_key = has_key;
    contains_value = has_value;
    put = insert_pair;
    remove = drop_pair;
    remove_all = drop_key;
    values = all_values;
    empty = is_empty_list;
    in_new = none_of_empty [] refl;
    in_put = in_insert_pair;
    in_remove = in_drop_pair;
    in_remove_all = in_drop_key;
    contains_key_iff = λ m k. (key_of_has m k, λ h. has_of_key m k h.0 h.1);
    contains_value_iff = λ m v. (
      λ e. key_of_value m v ((has_value_iff m v).0 e),
      λ h. (has_value_iff m v).1 (value_of_key m v h.0 h.1),
    );
    values_iff = λ m v. (key_of_value m v, λ h. value_of_key m v h.0 h.1);
    empty_iff = λ m. (none_of_empty m, empty_of_none m);
  }
