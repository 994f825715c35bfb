-- ===== src/Builder/Reload.antt =====
-- `reload` of `ConfigBuilder`, and when it leaves nothing to do.
use ingress_bfe.Base.{Text, text_eq_iff, none, some, Error, ◌≡◌, ◌≢◌, refl, ap, subst, arith}
use ingress_bfe.Bfe.{
  External, HostTableConf, RouteTableFile, BfeClusterConf, GslbConf, ClusterTableConf,
  BfeServerCertConf, BfeTlsRuleConf,
}
use ingress_bfe.ServerData.Reload.{reload_server_data}
use ingress_bfe.Cluster.Reload.{reload_clusters}
use ingress_bfe.Tls.Reload.{reload_tls}
use ingress_bfe.Builder.{ConfigBuilder}

-- The errors of the calls that write the files and of those that tell BFE to reload.
pub record Files : Type 0 where
  pub host_table : HostTableConf → Error
  pub route_table : RouteTableFile → Error
  pub cluster_conf : BfeClusterConf → Error
  pub gslb : GslbConf → Error
  pub cluster_table : ClusterTableConf → Error
  pub server_cert : BfeServerCertConf → Error
  pub cert_file : Text → Text → Error
  pub tls_rule : BfeTlsRuleConf → Error
  pub reload_server_data_conf : Error
  pub reload_gslb_data_conf : Error
  pub reload_tls_conf : Error

module _ (x : External) where
  -- The rest of a step, unless the step failed.
  abbrev pub continue :
      ConfigBuilder x × Error
      → (ConfigBuilder x → ConfigBuilder x × Error)
      → ConfigBuilder x × Error
  continue (c, some e) next = (c, some e)
  continue (c, none) next = next c

  abbrev pub reload_first : Files → ConfigBuilder x → ConfigBuilder x × Error
  reload_first f c =
      let (server, e) =
        reload_server_data f.host_table f.route_table f.cluster_conf f.reload_server_data_conf
          c.server_data_conf in
      (record c { server_data_conf = server }, e)

  abbrev pub reload_second : Files → ConfigBuilder x → ConfigBuilder x × Error
  reload_second f c =
      let (clusters, e) =
        reload_clusters f.gslb f.cluster_table f.reload_gslb_data_conf c.cluster_conf in
      (record c { cluster_conf = clusters }, e)

  abbrev pub reload_third : Files → ConfigBuilder x → ConfigBuilder x × Error
  reload_third f c =
      let (certs, e) =
        reload_tls f.server_cert f.cert_file f.tls_rule f.reload_tls_conf c.tls_conf in
      (record c { tls_conf = certs }, e)

  -- `reload`
  unfoldable pub reload : Files → ConfigBuilder x → ConfigBuilder x × Error
  reload f c = continue (reload_first f c) (λ c. continue (reload_second f c) (reload_third f))

  -- BFE has the latest version of every file.
  pub record IsCurrent (c : ConfigBuilder x) : Type 0 where
    pub host_table :
        c.server_data_conf.host_table_version ≡ c.server_data_conf.host_table_conf.version
    pub route_table :
        c.server_data_conf.route_table_version ≡ c.server_data_conf.route_table_file.version
    pub cluster_conf :
        c.server_data_conf.bfe_cluster_conf_version ≡ c.server_data_conf.bfe_cluster_conf.version
    pub gslb : c.cluster_conf.gslb_version ≡ c.cluster_conf.gslb_conf.ts
    pub cluster_table :
        c.cluster_conf.cluster_table_version ≡ c.cluster_conf.cluster_table_conf.version
    pub server_cert : c.tls_conf.server_cert_version ≡ c.tls_conf.server_cert_conf.version
    pub tls_rule : c.tls_conf.tls_rule_version ≡ c.tls_conf.tls_rule_conf.version

  current_server_data :
      (f : Files) (c : ConfigBuilder x)
      → let d = (reload_first f c).0.server_data_conf in
        (reload_first f c).1 ≡ none
        → (d.host_table_version ≡ d.host_table_conf.version)
          × (d.route_table_version ≡ d.route_table_file.version)
          × (d.bfe_cluster_conf_version ≡ d.bfe_cluster_conf.version)
  unfolding reload_server_data
  current_server_data f c e =
      let s = c.server_data_conf in
      ground (
        arith,
        e,
        text_eq_iff s.host_table_conf.version s.host_table_version,
        text_eq_iff s.route_table_file.version s.route_table_version,
        text_eq_iff s.bfe_cluster_conf.version s.bfe_cluster_conf_version,
      )

  current_clusters :
      (f : Files) (c : ConfigBuilder x)
      → let d = (reload_second f c).0.cluster_conf in
        (reload_second f c).1 ≡ none
        → (d.gslb_version ≡ d.gslb_conf.ts)
          × (d.cluster_table_version ≡ d.cluster_table_conf.version)
  unfolding reload_clusters
  current_clusters f c e =
      let s = c.cluster_conf in
      ground (
        arith,
        e,
        text_eq_iff s.gslb_conf.ts s.gslb_version,
        text_eq_iff s.cluster_table_conf.version s.cluster_table_version,
      )

  current_certs :
      (f : Files) (c : ConfigBuilder x)
      → let d = (reload_third f c).0.tls_conf in
        (reload_third f c).1 ≡ none
        → (d.server_cert_version ≡ d.server_cert_conf.version)
          × (d.tls_rule_version ≡ d.tls_rule_conf.version)
  unfolding reload_tls
  current_certs f c e =
      let s = c.tls_conf in
      ground (
        arith,
        e,
        text_eq_iff s.server_cert_conf.version s.server_cert_version,
        text_eq_iff s.tls_rule_conf.version s.tls_rule_version,
      )

  -- The error is none if the version is new to BFE.
  abbrev pub NoneIfNew : Text → Text → Error → Type 0
  NoneIfNew version known e = version ≢ known → e ≡ none

  -- Every file of the server data with a new version was written, with its contents, and BFE was told
  -- to reload them if there was one.
  abbrev pub ServerDataWritten : Files → ConfigBuilder x → Type 0
  ServerDataWritten f c =
      let s = c.server_data_conf in
      NoneIfNew s.host_table_conf.version s.host_table_version (f.host_table s.host_table_conf)
      × NoneIfNew s.route_table_file.version s.route_table_version
          (f.route_table s.route_table_file)
      × NoneIfNew s.bfe_cluster_conf.version s.bfe_cluster_conf_version
          (f.cluster_conf s.bfe_cluster_conf)
      × NoneIfNew s.host_table_conf.version s.host_table_version f.reload_server_data_conf
      × NoneIfNew s.route_table_file.version s.route_table_version f.reload_server_data_conf
      × NoneIfNew s.bfe_cluster_conf.version s.bfe_cluster_conf_version f.reload_server_data_conf

  -- The same for the files of the clusters.
  abbrev pub ClustersWritten : Files → ConfigBuilder x → Type 0
  ClustersWritten f c =
      let s = c.cluster_conf in
      NoneIfNew s.gslb_conf.ts s.gslb_version (f.gslb s.gslb_conf)
      × NoneIfNew s.cluster_table_conf.version s.cluster_table_version
          (f.cluster_table s.cluster_table_conf)
      × NoneIfNew s.gslb_conf.ts s.gslb_version f.reload_gslb_data_conf
      × NoneIfNew s.cluster_table_conf.version s.cluster_table_version f.reload_gslb_data_conf

  -- The same for the two files that list the certificates.
  abbrev pub CertsWritten : Files → ConfigBuilder x → Type 0
  CertsWritten f c =
      let s = c.tls_conf in
      NoneIfNew s.server_cert_conf.version s.server_cert_version (f.server_cert s.server_cert_conf)
      × NoneIfNew s.tls_rule_conf.version s.tls_rule_version (f.tls_rule s.tls_rule_conf)
      × NoneIfNew s.server_cert_conf.version s.server_cert_version f.reload_tls_conf
      × NoneIfNew s.tls_rule_conf.version s.tls_rule_version f.reload_tls_conf

  written_server_data :
      (f : Files) (c : ConfigBuilder x) → (reload_first f c).1 ≡ none → ServerDataWritten f c
  unfolding reload_server_data
  written_server_data f c e =
      let s = c.server_data_conf in
      ground (
        arith,
        e,
        text_eq_iff s.host_table_conf.version s.host_table_version,
        text_eq_iff s.route_table_file.version s.route_table_version,
        text_eq_iff s.bfe_cluster_conf.version s.bfe_cluster_conf_version,
      )

  written_clusters :
      (f : Files) (c : ConfigBuilder x) → (reload_second f c).1 ≡ none → ClustersWritten f c
  unfolding reload_clusters
  written_clusters f c e =
      let s = c.cluster_conf in
      ground (
        arith,
        e,
        text_eq_iff s.gslb_conf.ts s.gslb_version,
        text_eq_iff s.cluster_table_conf.version s.cluster_table_version,
      )

  written_certs : (f : Files) (c : ConfigBuilder x) → (reload_third f c).1 ≡ none → CertsWritten f c
  unfolding reload_tls
  written_certs f c e =
      let s = c.tls_conf in
      ground (
        arith,
        e,
        text_eq_iff s.server_cert_conf.version s.server_cert_version,
        text_eq_iff s.tls_rule_conf.version s.tls_rule_version,
      )

  continue-none :
      (r : ConfigBuilder x × Error) (next : ConfigBuilder x → ConfigBuilder x × Error)
      (c : ConfigBuilder x)
      → continue r next ≡ (c, none)
      → (r.1 ≡ none) × (next r.0 ≡ (c, none))
  continue-none (d, some e) next c q =
      absurd (ground (arith, ap (λ (r : ConfigBuilder x × Error). r.1) q))
  continue-none (d, none) next c q = (refl, q)

  -- A reload without an error has written each of the seven files whose version was new, with the
  -- contents that it has in the configuration, and told BFE to reload the group of each such file, all
  -- without an error; after it the versions that the program takes BFE to have are those of the files.
  pub reload-IsCurrent :
      (f : Files) (c c' : ConfigBuilder x)
      → reload f c ≡ (c', none)
      → IsCurrent c' × ServerDataWritten f c × ClustersWritten f c × CertsWritten f c
  unfolding reload
  reload-IsCurrent f c c' e =
      let c1 = (reload_first f c).0 in
      let c2 = (reload_second f c1).0 in
      let c3 = (reload_third f c2).0 in
      let (e1, q1) =
        continue-none (reload_first f c) (λ c. continue (reload_second f c) (reload_third f)) c'
          e in
      let (e2, q2) = continue-none (reload_second f c1) (reload_third f) c' q1 in
      let (h1, h2, h3) = current_server_data f c e1 in
      let (h4, h5) = current_clusters f c1 e2 in
      let (h6, h7) = current_certs f c2 (ap (λ (r : ConfigBuilder x × Error). r.1) q2) in
      let current : IsCurrent c3 = record {
        host_table = h1;
        route_table = h2;
        cluster_conf = h3;
        gslb = h4;
        cluster_table = h5;
        server_cert = h6;
        tls_rule = h7;
      } in
      (
        subst IsCurrent (ap (λ (r : ConfigBuilder x × Error). r.0) q2) current,
        written_server_data f c e1,
        written_clusters f c1 e2,
        written_certs f c2 (ap (λ (r : ConfigBuilder x × Error). r.1) q2),
      )
