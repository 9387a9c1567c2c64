-- ===== src/Jobs.antt =====
-- pkg/jobs
pub mod Objects
pub mod Done
pub mod Plans
pub mod Iam
pub mod Core
pub mod Gateway
pub mod Monitoring
pub mod Events
pub mod Logging
pub mod Servicemesh
