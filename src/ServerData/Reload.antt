-- ===== src/ServerData/Reload.antt =====
-- `Reload` of `ServerDataConfig`. The errors of the calls of `DumpBfeConf` and of `ReloadBfe` are
-- arguments.
use ingress_bfe.Base.{Text, text, text_eq, Bool, not, ◌||◌, ◌++◌, none, some, Error}
use ingress_bfe.Bfe.{HostTableConf, RouteTableFile, BfeClusterConf}
use ingress_bfe.ServerData.{ServerDataConfig}

-- `if changed { if err := dump(); err != nil { return … } }`, for any state
abbrev pub dumped {ℓ} : {S : Type ℓ} → Bool → Error → Text → S → S × Error → S × Error
dumped Bool.true (some e) message s next = (s, some (message ++ e))
dumped Bool.true none message s next = next
dumped Bool.false e message s next = next

-- `if reload { if err := ReloadBfe(); err != nil { return err }; … }`
abbrev pub reloaded {ℓ} : {S : Type ℓ} → Bool → Error → S → S → S × Error
reloaded Bool.false e s done = (s, none)
reloaded Bool.true (some e) s done = (s, some e)
reloaded Bool.true none s done = (done, none)

unfoldable pub reload_server_data :
    {C : Type 0}
    → (HostTableConf → Error)
    → (RouteTableFile → Error)
    → (BfeClusterConf → Error)
    → Error
    → ServerDataConfig C
    → ServerDataConfig C × Error
reload_server_data dump_host dump_route dump_cluster reload_error c =
    let host_changed = not (text_eq c.host_table_conf.version c.host_table_version) in
    let route_changed = not (text_eq c.route_table_file.version c.route_table_version) in
    let cluster_changed = not (text_eq c.bfe_cluster_conf.version c.bfe_cluster_conf_version) in
    dumped host_changed (dump_host c.host_table_conf) (text "dump gslb.data error: ") c (
      dumped route_changed (dump_route c.route_table_file) (text "dump cluster_table.data error: ")
        c
        (dumped cluster_changed (dump_cluster c.bfe_cluster_conf)
          (text "dump cluster_table.data error: ") c
          (reloaded (host_changed || (route_changed || cluster_changed)) reload_error c (record c {
            host_table_version = c.host_table_conf.version;
            route_table_version = c.route_table_file.version;
            bfe_cluster_conf_version = c.bfe_cluster_conf.version;
          }))))
