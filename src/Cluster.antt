-- ===== src/Cluster.antt =====
-- internal/bfeConfig/configs/clusterConfig.go: the instances and the weights of each cluster.
pub mod Instances
pub mod Update
pub mod Service
pub mod Reload
pub mod Backed
pub mod Stale
pub mod Weights
pub mod Members
use ingress_bfe.Base.{Text, text, []}
use ingress_bfe.Bfe.{ClusterTableConf, GslbConf}

-- `ClusterConfig`; `C` is the type of its two indexes.
pub record ClusterConfig (C : Type 0) : Type 0 where
  pub gslb_version : Text
  pub cluster_table_version : Text
  pub ingress2cluster : C
  pub service2cluster : C
  pub gslb_conf : GslbConf
  pub cluster_table_conf : ClusterTableConf

-- `NewClusterConfig`, with two empty indexes
unfoldable pub new_cluster_config : {C : Type 0} → C → Text → ClusterConfig C
new_cluster_config index version = record {
  gslb_version = [];
  cluster_table_version = [];
  ingress2cluster = index;
  service2cluster = index;
  gslb_conf = record { clusters = []; hostname = text "bfe-ingress-controller"; ts = version };
  cluster_table_conf = record { version = version; config = [] };
}
