-- ===== src/Examples.antt =====
-- Runs of the definitions on small inputs, and each theorem at a concrete input.
mod Running
mod Configuration
mod Memory
mod Storing
mod Staging
mod Cluster
mod Migrating
mod Reshaping
mod Extensions
mod Preparing
mod Upgrading
mod Observing
mod Routing
