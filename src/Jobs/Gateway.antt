-- ===== src/Jobs/Gateway.antt =====
-- pkg/jobs/gateway/gateway.go: the job that brings the gateways of version 3 to version 4.
pub mod Objects
pub mod Backup
pub mod Convert
pub mod Ingress
pub mod Clean
pub mod Phases
pub mod Wiring
