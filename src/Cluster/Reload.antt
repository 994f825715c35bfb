-- ===== src/Cluster/Reload.antt =====
-- `Reload` of `ClusterConfig`. The errors of the calls of `DumpBfeConf` and of `ReloadBfe` are
-- arguments.
use ingress_bfe.Base.{text, text_eq, not, ◌||◌, Error}
use ingress_bfe.Bfe.{ClusterTableConf, GslbConf}
use ingress_bfe.Cluster.{ClusterConfig}
use ingress_bfe.ServerData.Reload.{dumped, reloaded}

unfoldable pub reload_clusters :
    {C : Type 0}
    → (GslbConf → Error)
    → (ClusterTableConf → Error)
    → Error
    → ClusterConfig C
    → ClusterConfig C × Error
reload_clusters dump_gslb dump_table reload_error c =
    let gslb_changed = not (text_eq c.gslb_conf.ts c.gslb_version) in
    let table_changed = not (text_eq c.cluster_table_conf.version c.cluster_table_version) in
    dumped gslb_changed (dump_gslb c.gslb_conf) (text "dump gslb.data error: ") c (
      dumped table_changed (dump_table c.cluster_table_conf)
        (text "dump cluster_table.data error: ") c
        (reloaded (gslb_changed || table_changed) reload_error c (record c {
          gslb_version = c.gslb_conf.ts;
          cluster_table_version = c.cluster_table_conf.version;
        })))
