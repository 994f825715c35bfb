-- ===== src/Start/Folders.antt =====
-- The directory of the configuration that the program writes and that the process of BFE reads.
use ingress_bfe.Base.{List}
