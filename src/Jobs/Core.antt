-- ===== src/Jobs/Core.antt =====
-- pkg/jobs/core/core.go: the job that prepares the cluster for version 4.
pub mod Objects
pub mod Backup
pub mod Namespaces
pub mod Workspaces
pub mod Clusters
pub mod Prepare
pub mod Phases
pub mod Wiring
