-- ===== src/Jobs/Core/Objects.antt =====
-- pkg/jobs/core/core.go: the types of objects that only the core job reads and writes.
use ks_upgrade.Base.{ℕ, String, ℤ, Option, List}

pub record ServiceReference : Type 0 where
  pub name : String
  pub namespace : String

-- One entry of a webhook configuration; its policy is a pointer.
pub record Webhook : Type 0 where
  pub service : Option ServiceReference
  pub failure_policy : Option String

pub record Deployment : Type 0 where
  pub replicas : Option ℕ
  pub available_replicas : ℕ

pub record ClusterCondition : Type 0 where
  pub type : String
  pub status : String
  pub last_update_time : ℤ
  pub last_transition_time : ℤ
  pub reason : String
  pub message : String

-- The placement of a workspace template of version 3; a selector is not looked into.
pub record TemplatePlacement (Raw : Type 0) : Type 0 where
  pub clusters : List String
  pub cluster_selector : Option Raw
