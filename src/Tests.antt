-- ===== src/Tests.antt =====
-- Runs of the model, and the theorems at concrete inputs.
mod Texts
mod Routes
mod Servers
mod Clusters
mod Certs
mod Config
mod Start
mod Command
mod Disk
mod Controllers
