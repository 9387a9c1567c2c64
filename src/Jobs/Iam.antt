-- ===== src/Jobs/Iam.antt =====
-- pkg/jobs/iam: the job that brings users, roles, bindings and workspaces to version 4.
pub mod Objects
pub mod Convert
pub mod Snapshot
pub mod Status
pub mod Cluster
pub mod Filters
pub mod Migration
pub mod Cleanup
pub mod KubeFed
pub mod Roles
pub mod Helm
pub mod Providers
pub mod Phases
pub mod ObjectHelper
pub mod Wiring
