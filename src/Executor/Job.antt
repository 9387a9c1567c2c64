-- ===== src/Executor/Job.antt =====
-- pkg/executor/interface.go and the job types of executor.go. A job is the record of its methods;
-- an interface that it need not implement is an optional field.
use ks_upgrade.Base.{String, ℤ, Bool, true, Option, none, some, Result}
use ks_upgrade.Base.Action.{Action, pure, ◌>>=◌}

pub record UpgradeJob (W : Type 0) : Type 0 where
  -- `EnabledCondition`
  pub condition : Option (Action W Bool)
  pub prepare_upgrade : Option (Action W Unit)
  pub pre_upgrade : Action W Unit
  pub post_upgrade : Action W Unit
  pub dynamic_upgrade : Option (Action W Unit)
  pub roll_back : Option (Action W Unit)

pub record NamedUpgradeJob (W : Type 0) : Type 0 where
  pub name : String
  pub priority : ℤ
  pub upgrade_job : UpgradeJob W
  pub open upgrade_job use *

-- `ClusterScheduling` as far as the program reads it: the chosen clusters, whether a selector is
-- set, and the configuration overrides.
pub record JobOptions (Options : Type 0) : Type 0 where
  pub options : Options
  pub enabled : Bool
  pub priority : ℤ

-- `Create` gets the dynamic options and the extension reference of a job, here one value. The
-- clients that are injected afterwards are what the actions of the job close over.
pub record JobFactory (W Options : Type 0) : Type 0 where
  pub name : String
  pub create : Options → Result (UpgradeJob W)

module _ {W : Type 0} where
  unfoldable pub is_enabled : NamedUpgradeJob W → Action W Bool
  is_enabled job = elim job.condition [
    | none ↦ pure true
    | some condition ↦ (do enabled ← condition; pure enabled)
  ]
