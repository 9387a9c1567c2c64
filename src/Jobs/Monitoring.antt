-- ===== src/Jobs/Monitoring.antt =====
-- pkg/jobs/monitoring/monitoring.go: the job that replaces the monitoring stack of version 3.
pub mod Objects
pub mod Values
pub mod Stack
pub mod Clusters
pub mod Phases
