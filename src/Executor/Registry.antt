-- ===== src/Executor/Registry.antt =====
-- The job factories and the jobs that `NewExecutor` builds from them.
pub mod Laws
use ks_upgrade.Base.{
  String, Bool, true, false, if◌then◌else◌, List, [], ◌∷◌, ◌++◌, Option, none, some, ℤ, message,
  described, ◌<>◌, Error, Result, ok, err, panic,
}
use ks_upgrade.Base.Dict
use ks_upgrade.Base.Dict.{Dict}
use ks_upgrade.Executor.Job.{UpgradeJob, NamedUpgradeJob, JobOptions, JobFactory}
use ks_upgrade.Executor.Order.{sort_jobs}

module _ {W Options : Type 0} where
  -- `Register`
  unfoldable pub register :
      JobFactory W Options → Dict (JobFactory W Options) → Result (Dict (JobFactory W Options))
  register factory factories =
      if Dict.has factory.name factories
      then err (message ("job factory is already registered: " <> factory.name))
      else ok (Dict.insert factory.name factory factories)

  -- The end of the loop body: `factory.Create` and the append.
  unfoldable pub add_job :
      String
      → JobOptions Options
      → Result (UpgradeJob W)
      → List (NamedUpgradeJob W)
      → Result (List (NamedUpgradeJob W))
  add_job name o (ok job) jobs =
      ok (jobs ++ record { name = name; priority = o.priority; upgrade_job = job } ∷ [])
  add_job name o (err e) jobs = err (described ("failed to create upgrade job " <> name) e)
  add_job name o panic jobs = panic

  -- The loop body: a job without options, or whose options do not enable it, is left out.
  unfoldable pub visit_factory :
      Dict (JobOptions Options)
      → String × JobFactory W Options
      → List (NamedUpgradeJob W)
      → Result (List (NamedUpgradeJob W))
  unfolding add_job
  visit_factory options (name, factory) jobs = elim (Dict.lookup name options) [
    | none ↦ ok jobs
    | some o ↦ if o.enabled then add_job name o (factory.create o.options) jobs else ok jobs
  ]

  -- The loop over `jobFactories`, which an error ends.
  unfoldable pub collect_jobs :
      Dict (JobOptions Options)
      → Dict (JobFactory W Options)
      → List (NamedUpgradeJob W)
      → Result (List (NamedUpgradeJob W))
  collect_jobs options [] jobs = ok jobs
  collect_jobs options (entry ∷ factories) jobs = elim (visit_factory options entry jobs) [
    | ok jobs' ↦ collect_jobs options factories jobs'
    | err e ↦ err e
    | panic ↦ panic
  ]

  -- The jobs of `NewExecutor`, sorted.
  unfoldable pub new_jobs :
      Dict (JobOptions Options) → Dict (JobFactory W Options) → Result (List (NamedUpgradeJob W))
  new_jobs options factories = elim (collect_jobs options factories []) [
    | ok jobs ↦ ok (sort_jobs jobs)
    | err e ↦ err e
    | panic ↦ panic
  ]
