-- ===== src/Cluster/Backed.antt =====
-- Every sub-cluster that `gslb.data` gives a weight has an entry in `cluster_table.data`.
pub mod Ingresses
pub mod Services
use ingress_bfe.Base.{
  Text, text_eq, text_eq_iff, Map, lookup, insert, remove, lookup-insert, lookup-remove, Bool, true,
  false, not, ◌&&◌, if◌then◌else◌, List, [], ◌∷◌, ◌++◌, text, Option, none, some, Option-cases,
  some_inj, Bool-cases, Error, ◌≡◌, inl, inr, refl, subst, arith, ℤ, is_empty,
}
use ingress_bfe.Kube.{
  Ingress, IngressRule, HttpIngressPath, IngressServiceBackend, ServiceBackendPort, Service,
  Endpoints,
}
use ingress_bfe.Bfe.{External, ClusterBackend, SubClusterBackend}
use ingress_bfe.Names.{cluster_name, default_cluster_name, parse_port}
use ingress_bfe.Annotations.Balance.{Balance}
use ingress_bfe.Cluster.Instances.{
  default_weight, no_port, weighted_backends, new_cluster_backend, weighted_gslb,
  new_gslb_cluster_conf, new_sub_cluster_backend, get_target_port,
}
use ingress_bfe.Cluster.Update
use ingress_bfe.Cluster.{new_cluster_config}
use ingress_bfe.Cluster.Update.{
  ◌>>=◌, at, remove_in, remove_last, Clusters, set_maps, set_version, put_cluster, put_clusters,
  put_all_clusters, put_default, add_default_backend, del_default_backend, drop_clusters,
  finish_ingress,
}
use ingress_bfe.Cluster.Service.{
  drop_service, delete_service, put_service, put_service_in, no_target, update_service,
}

-- `_, ok := m[k]`
abbrev pub contains {ℓ} : {V : Type ℓ} → Text → Map V → Bool
contains k m = elim (lookup k m) [ none ↦ false | some _ ↦ true ]

pub contains-insert {ℓ} :
    {V : Type ℓ} (k j : Text) (v : V) (m : Map V)
    → contains j (insert k v m) ≡ (if text_eq k j then true else contains j m)
contains-insert k j v m = ground (arith, lookup-insert k j v m)

-- Each key of the first map is one of the second.
abbrev pub Within {ℓ κ} : {V : Type ℓ} {W : Type κ} → Map V → Map W → Type 0
Within a b = (k : Text) → contains k a ≡ true → contains k b ≡ true

pub none_Within {ℓ κ} : (V : Type ℓ) {W : Type κ} (b : Map W) → Within {V = V} [] b
unfolding lookup
none_Within V b k e = ground arith

pub insert-Within {ℓ κ} :
    {V : Type ℓ} {W : Type κ} (k : Text) (v : V) (w : W) (a : Map V) (b : Map W)
    → Within a b
    → Within (insert k v a) (insert k w b)
insert-Within k v w a b h j e =
    ground (arith, contains-insert k j v a, contains-insert k j w b, h j)

abbrev pub Backs : Map ClusterBackend → Map (Map ℤ) → Type 0
Backs config clusters = (name : Text) → Within (at name clusters) (at name config)

pub at-insert {ℓ} :
    {V : Type ℓ} (k j : Text) (v : Map V) (m : Map (Map V))
    → at j (insert k v m) ≡ (if text_eq k j then v else at j m)
at-insert k j v m = ground (arith, lookup-insert k j v m)

pub at-remove {ℓ} :
    {V : Type ℓ} (k j : Text) (m : Map (Map V))
    → at j (remove k m) ≡ (if text_eq k j then [] else at j m)
at-remove k j m = ground (arith, lookup-remove k j m)

pub insert-Backs :
    (k : Text) (b : ClusterBackend) (g : Map ℤ) (config : Map ClusterBackend)
    (clusters : Map (Map ℤ))
    → Within g b
    → Backs config clusters
    → Backs (insert k b config) (insert k g clusters)
insert-Backs k b g config clusters w h name = elim (Bool-cases (text_eq k name)) [
  | inl e ↦ rw (at-insert k name g clusters, at-insert k name b config, e) w
  | inr e ↦ rw (at-insert k name g clusters, at-insert k name b config, e) (h name)
]

pub remove-Backs :
    (k : Text) (config : Map ClusterBackend) (clusters : Map (Map ℤ))
    → Backs config clusters
    → Backs (remove k config) (remove k clusters)
unfolding lookup
remove-Backs k config clusters h name = elim (Bool-cases (text_eq k name)) [
  | inl e ↦ rw (at-remove k name clusters, at-remove k name config, e) (λ j q. q)
  | inr e ↦ rw (at-remove k name clusters, at-remove k name config, e) (h name)
]

pub at-remove_in {ℓ} :
    {V : Type ℓ} (k j name : Text) (m : Map (Map V))
    → at name (remove_in k j m) ≡ (if text_eq k name then remove j (at name m) else at name m)
unfolding remove_in remove
at-remove_in k j name m =
    ground (arith, text_eq_iff k name, lookup-insert k name (remove j (at k m)) m)

pub at-remove_last {ℓ} :
    {V : Type ℓ} (k j name : Text) (m : Map (Map V))
    → at name (remove_last k j m) ≡ (if text_eq k name then remove j (at name m) else at name m)
unfolding remove_last
at-remove_last k j name m = ground (
  arith,
  text_eq_iff k name,
  at-remove_in k j name m,
  at-remove_in k j k m,
  lookup-remove k name (remove_in k j m),
)

pub remove-Within {ℓ κ} :
    {V : Type ℓ} {W : Type κ} (k : Text) (a : Map V) (b : Map W)
    → Within a b
    → Within (remove k a) (remove k b)
remove-Within k a b h j e = ground (arith, lookup-remove k j a, lookup-remove k j b, h j)

pub remove_in-Backs :
    (k j : Text) (config : Map ClusterBackend) (clusters : Map (Map ℤ))
    → Backs config clusters
    → Backs (remove_in k j config) (remove_last k j clusters)
remove_in-Backs k j config clusters h name = elim (Bool-cases (text_eq k name)) [
  | inl e ↦
      rw (at-remove_in k j name config, at-remove_last k j name clusters, e)
        (remove-Within j (at name clusters) (at name config) (h name))
  | inr e ↦ rw (at-remove_in k j name config, at-remove_last k j name clusters, e) (h name)
]

pub some-bind {ℓ κ} :
    {A : Type ℓ} {B : Type κ} (o : Option A) (f : A → Option B) (b : B)
    → (o >>= f) ≡ some b
    → (a : A) × (o ≡ some a) × (f a ≡ some b)
some-bind none f b e = ground arith
some-bind (some a) f b e = (a, refl, e)

module _ (x : External) where
  open x use {namespaced_name, name_index, cluster_table_conf_check}

  -- The two files agree on the sub-clusters.
  abbrev pub Backed : Clusters x → Type 0
  Backed c = Backs c.cluster_table_conf.config c.gslb_conf.clusters

  pub set_version-Backed :
      (version : Text) (c : Clusters x) → Backed c → Backed (set_version x version c)
  unfolding set_version
  set_version-Backed version c h = h

  pub if-Backed : (b : Bool) (c d : Clusters x) → Backed c → Backed d → Backed (if b then c else d)
  if-Backed true c d h k = h
  if-Backed false c d h k = k

-- A new configuration is backed.
pub new_cluster_config-Backed :
    (x : External) (index : x.name_index.Carrier) (version : Text)
    → Backed x (new_cluster_config index version)
unfolding new_cluster_config lookup
new_cluster_config-Backed x index version n = none_Within ℤ {W = SubClusterBackend} []
