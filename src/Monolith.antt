-- ===== src/Monolith.antt =====
-- cmd/monolith: the start of the process, and the modules over a database. The modules in memory are in
-- Cluster.
pub mod Database
pub mod Boot
