-- ===== src/Cluster/Members.antt =====
-- Which instances a sub-cluster gets.
use ingress_bfe.Base.{
  some_inj, Text, true, false, List, [], ◌∷◌, map, some, Bool-cases, ◌≡◌, ◌↔◌, ◌⊎◌, ℤ_eq_iff,
  text_eq_iff, arith, inl, inr, refl, ap, sym, subst, In, In_of_append, In-append_left,
  In-append_right,
}
use ingress_bfe.Kube.{IntOrString, EndpointPort, EndpointSubset, Endpoints}
use ingress_bfe.Bfe.{BackendConf}
use ingress_bfe.Cluster.Instances.{
  default_weight, new_backend_conf, is_unset, port_matches, port_instances, subset_instances,
  new_sub_cluster_backend,
}

-- The port has the number that is asked for, or its name.
abbrev pub Matches : IntOrString → EndpointPort → Type 0
Matches port p = (port.int_val ≡ p.port) ⊎ (port.str_val ≡ p.name)

port_matches_iff :
    (port : IntOrString) (p : EndpointPort) → (port_matches port p ≡ true) ↔ Matches port p
port_matches_iff port p =
    ground (arith, ℤ_eq_iff port.int_val p.port, text_eq_iff port.str_val p.name)

-- The instance of an address at a matching port.
abbrev pub Offers : IntOrString → List Text → List EndpointPort → BackendConf → Type 0
Offers port addresses ports b =
    (p : EndpointPort) × (ip : Text) × In p ports
    × In ip addresses
    × Matches port p
    × (new_backend_conf ip p.port default_weight ≡ b)

In_of_map :
    {A B : Type 0} (f : A → B) (b : B) (xs : List A)
    → In b (map f xs)
    → (a : A) × In a xs × (f a ≡ b)
In_of_map f b [] i = absurd i
In_of_map f b (a ∷ xs) (inl e) = (a, inl refl, e)
In_of_map f b (a ∷ xs) (inr i) = let (c, j, e) = In_of_map f b xs i in (c, inr j, e)

In-map : {A B : Type 0} (f : A → B) (a : A) (xs : List A) → In a xs → In (f a) (map f xs)
In-map f a [] i = absurd i
In-map f a (x ∷ xs) (inl e) = inl (ap f e)
In-map f a (x ∷ xs) (inr i) = inr (In-map f a xs i)

port_instances_to :
    (port : IntOrString) (addresses : List Text) (ports : List EndpointPort) (b : BackendConf)
    → In b (port_instances port addresses ports)
    → Offers port addresses ports b
unfolding port_instances
port_instances_to port addresses [] b i = absurd i
port_instances_to port addresses (p ∷ ports) b i = elim (Bool-cases (port_matches port p)) [
  | inl m ↦
      elim (In_of_append b (map (λ ip. new_backend_conf ip p.port default_weight) addresses)
        (port_instances port addresses ports) (rw m at i)) [
          | inl j ↦
              let (ip, k, e) =
                In_of_map (λ ip. new_backend_conf ip p.port default_weight) b addresses j in
              (p, ip, inl refl, k, (port_matches_iff port p).0 m, e)
          | inr j ↦
              let (q, ip, k, i, g, l) = port_instances_to port addresses ports b j in
              (q, ip, inr k, i, g, l)
        ]
  | inr m ↦
      let (q, ip, k, i, g, l) = port_instances_to port addresses ports b (rw m at i) in
      (q, ip, inr k, i, g, l)
]

port_instances_of :
    (port : IntOrString) (addresses : List Text) (ports : List EndpointPort) (b : BackendConf)
    → Offers port addresses ports b
    → In b (port_instances port addresses ports)
unfolding port_instances
port_instances_of port addresses [] b (q, ip, k, i, g, l) = absurd k
port_instances_of port addresses (p ∷ ports) b (q, ip, inl k, i, g, l) =
    let m : port_matches port p ≡ true =
      subst (λ p. port_matches port p ≡ true) (sym k) ((port_matches_iff port q).1 g) in
    let f = λ (ip : Text). new_backend_conf ip p.port default_weight in
    let e : f ip ≡ b =
      subst (λ (q : EndpointPort). new_backend_conf ip q.port default_weight ≡ b) (sym k) l in
    rw m (
      In-append_left b (map f addresses) (port_instances port addresses ports)
        (subst (λ b. In b (map f addresses)) e (In-map f ip addresses i)))
port_instances_of port addresses (p ∷ ports) b (q, ip, inr k, i, g, l) =
    let j = port_instances_of port addresses ports b (q, ip, k, i, g, l) in
    let f = λ (ip : Text). new_backend_conf ip p.port default_weight in
    elim (Bool-cases (port_matches port p)) [
      | inl m ↦ rw m (In-append_right b (map f addresses) (port_instances port addresses ports) j)
      | inr m ↦ rw m j
    ]

-- The instance of an address at a matching port of some subset.
abbrev pub OffersIn : IntOrString → List EndpointSubset → BackendConf → Type 0
OffersIn port subsets b = (s : EndpointSubset) × In s subsets × Offers port s.addresses s.ports b

subset_instances_to :
    (port : IntOrString) (subsets : List EndpointSubset) (b : BackendConf)
    → In b (subset_instances port subsets)
    → OffersIn port subsets b
unfolding subset_instances
subset_instances_to port [] b i = absurd i
subset_instances_to port (s ∷ subsets) b i =
    elim (In_of_append b (port_instances port s.addresses s.ports) (subset_instances port subsets)
      i) [
        | inl j ↦ (s, inl refl, port_instances_to port s.addresses s.ports b j)
        | inr j ↦ let (t, i, o) = subset_instances_to port subsets b j in (t, inr i, o)
      ]

subset_instances_of :
    (port : IntOrString) (subsets : List EndpointSubset) (b : BackendConf)
    → OffersIn port subsets b
    → In b (subset_instances port subsets)
unfolding subset_instances
subset_instances_of port [] b (t, i, o) = absurd i
subset_instances_of port (s ∷ subsets) b (t, inl e, o) =
    In-append_left b (port_instances port s.addresses s.ports) (subset_instances port subsets) (
      port_instances_of port s.addresses s.ports b
        (subst (λ (t : EndpointSubset). Offers port t.addresses t.ports b) (sym e) o))
subset_instances_of port (s ∷ subsets) b (t, inr i, o) =
    In-append_right b (port_instances port s.addresses s.ports) (subset_instances port subsets)
      (subset_instances_of port subsets b (t, i, o))

-- For a port that is set, the instances of a sub-cluster are exactly the addresses of the subsets of
-- the endpoints, each at those ports of its own subset that have the number
-- or the name of the port, with the default weight.
pub new_sub_cluster_backend_iff :
    (ep : Endpoints) (port : IntOrString) (b : BackendConf)
    → is_unset port ≡ false
    → ((instances : List BackendConf) × (new_sub_cluster_backend (some ep) port ≡ some instances)
        × In b instances)
      ↔ OffersIn port ep.subsets b
unfolding new_sub_cluster_backend
new_sub_cluster_backend_iff ep port b u = rw u (
  (λ (instances, e, i). subset_instances_to port ep.subsets b (subst (In b) (sym (some_inj e)) i)),
  (λ o. (subset_instances port ep.subsets, refl, subset_instances_of port ep.subsets b o)),
)
