-- ===== src/Executor.antt =====
-- pkg/executor/executor.go: the methods of `Executor` that run the jobs, one for each phase.
pub mod Job
pub mod Order
pub mod Registry
pub mod Validation
pub mod Phases
pub mod Museum
pub mod KsVersion
use ks_upgrade.Base.{ℕ, Bool, true, false, if◌then◌else◌, List, [], ◌∷◌, Option, none, some}
use ks_upgrade.Base.{Error, Result, ok, err, panic}
use ks_upgrade.Base.Action.{Action, pure, continue, ◌>>=◌, ◌>>◌}
use ks_upgrade.Executor.Job.{UpgradeJob, NamedUpgradeJob, is_enabled}
use ks_upgrade.Executor.Validation.{
  Phase, prepare_phase, pre_phase, post_phase, dynamic_phase, rollback_phase, Validator, Verdict,
  run_validators,
}

-- The fields of `Executor` that its methods read. The clients, the resource store and the helm
-- client are what the actions of the jobs and of the validators close over.
pub record Executor (W : Type 0) : Type 0 where
  pub sorted_jobs : List (NamedUpgradeJob W)
  pub validators : List (Validator W)

module _ {W : Type 0} where
  -- A method that a job need not implement.
  abbrev pub optionally : Option (Action W Unit) → Action W Unit
  optionally none = pure tt
  optionally (some m) = m

  -- `for _, job := range jobs { … }` where an error returns at once.
  unfoldable pub for_each :
      (NamedUpgradeJob W → Action W Unit) → List (NamedUpgradeJob W) → Action W Unit
  for_each step [] = pure tt
  for_each step (job ∷ jobs) = step job >> for_each step jobs

  -- The head of each method: what to do with the answer of `runValidators`.
  unfoldable pub gated : Action W Unit → Verdict × W → Result (Unit {0}) × W
  gated body ((valid, some e), w) = (err e, w)
  gated body ((true, none), w) = body w
  gated body ((false, none), w) = (ok tt, w)

  unfoldable pub prepare_job : NamedUpgradeJob W → Action W Unit
  prepare_job job = do
    enabled ← is_enabled job
    if enabled then optionally job.prepare_upgrade else pure tt

  unfoldable pub pre_job : NamedUpgradeJob W → Action W Unit
  pre_job job = do enabled ← is_enabled job; if enabled then job.pre_upgrade else pure tt

  unfoldable pub post_job : NamedUpgradeJob W → Action W Unit
  post_job job = do enabled ← is_enabled job; if enabled then job.post_upgrade else pure tt

  unfoldable pub dynamic_job : NamedUpgradeJob W → Action W Unit
  dynamic_job job = optionally job.dynamic_upgrade

  unfoldable pub rollback_job : NamedUpgradeJob W → Action W Unit
  rollback_job job = optionally job.roll_back

  unfoldable pub prepare_upgrade : Executor W → Action W Unit
  prepare_upgrade e w =
      gated (for_each prepare_job e.sorted_jobs) (run_validators prepare_phase e.validators w)

  unfoldable pub pre_upgrade : Executor W → Action W Unit
  pre_upgrade e w = gated (for_each pre_job e.sorted_jobs) (run_validators pre_phase e.validators w)

  unfoldable pub post_upgrade : Executor W → Action W Unit
  post_upgrade e w =
      gated (for_each post_job e.sorted_jobs) (run_validators post_phase e.validators w)

  unfoldable pub dynamic_upgrade : Executor W → Action W Unit
  dynamic_upgrade e w =
      gated (for_each dynamic_job e.sorted_jobs) (run_validators dynamic_phase e.validators w)

  unfoldable pub roll_back : Executor W → Action W Unit
  roll_back e w =
      gated (for_each rollback_job e.sorted_jobs) (run_validators rollback_phase e.validators w)
