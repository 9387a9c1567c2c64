-- ===== src/Examples/Running.antt =====
-- pkg/executor and cmd: two jobs that write to a log, and the validators of `NewExecutor`.
use mathlib.Core.List.{Permᴰ}
use ks_upgrade.Base.{
  if◌then◌else◌, String, ℤ, pos, true, false, List, [], ◌∷◌, ◌++◌, Option, none, some, ◌≡◌, refl,
  ◌↔◌, ◌⊎◌, has_key, Error, message, described, no_deployed_releases, ok, err,
}
use ks_upgrade.Base.Action.{Action}
use ks_upgrade.Base.Dict
use ks_upgrade.Base.Dict.{Dict}
use ks_upgrade.Base.Text.{text_lt}
use ks_upgrade.Command.{run, failure}
use ks_upgrade.Command.Laws.{step_of, run-ok, run-err}
use ks_upgrade.Config.{ExtensionsMuseumConfig, ValidatorConfig}
use ks_upgrade.Executor.{Executor, for_each, gated, pre_job, pre_upgrade}
use ks_upgrade.Executor.Job.{UpgradeJob, NamedUpgradeJob, JobOptions, JobFactory, is_enabled}
use ks_upgrade.Executor.KsVersion.{validate_ks_version, LastRelease, deployed, unavailable}
use ks_upgrade.Executor.KsVersion.Laws.{
  executor, run_other_version, validate_ks_version_iff, Startable,
}
use ks_upgrade.Executor.Museum.{
  Event, deadline_exceeded, repository, other_object, wait_loop, is_synced,
  validate_extensions_museum,
}
use ks_upgrade.Executor.Museum.Laws.{
  Accepted, Judged, Settles, shows_other, shows_unsynced, wait_loop_returns,
  validate_extensions_museum_sound,
}
use ks_upgrade.Executor.Order.{runs_before, sort_jobs}
use ks_upgrade.Executor.Order.Laws.{IsSorted}
use ks_upgrade.Executor.Phases.{Completed, Skipped, Failed}
use ks_upgrade.Executor.Registry.{register, visit_factory, collect_jobs, new_jobs}
use ks_upgrade.Executor.Registry.Laws.{built, new_jobs-perm, new_jobs-IsSorted}
use ks_upgrade.Executor.Validation.{pre_phase, Verdict, run_validators}

abbrev Log : Type 0
Log = List String

abbrev write : String → Action Log (Unit {0})
write s log = (ok tt, log ++ s ∷ [])

abbrev fails : Action Log (Unit {0})
fails log = (err (message "boom"), log)

abbrev job : String → Action Log (Unit {0}) → UpgradeJob Log
job name pre = record {
  condition = none;
  prepare_upgrade = none;
  pre_upgrade = pre;
  post_upgrade = write name;
  dynamic_upgrade = none;
  roll_back = none;
}

abbrev factory : String → Action Log (Unit {0}) → JobFactory Log (Unit {0})
factory name pre = record { name = name; create = λ _. ok (job name pre) }

abbrev options : ℤ → JobOptions (Unit {0})
options p = record { options = tt; enabled = true; priority = p }

abbrev job_options : Dict (JobOptions (Unit {0}))
job_options = ("iam", options (pos 800)) ∷ ("core", options (pos 900)) ∷ []

abbrev iam_first : Dict (JobFactory Log (Unit {0}))
iam_first = ("iam", factory "iam" (write "iam")) ∷ ("core", factory "core" fails) ∷ []

abbrev core_first : Dict (JobFactory Log (Unit {0}))
core_first = ("core", factory "core" fails) ∷ ("iam", factory "iam" (write "iam")) ∷ []

abbrev core_job : NamedUpgradeJob Log
core_job = record { name = "core"; priority = pos 900; upgrade_job = job "core" fails }

abbrev iam_job : NamedUpgradeJob Log
iam_job = record { name = "iam"; priority = pos 800; upgrade_job = job "iam" (write "iam") }

new_jobs-iam_first : new_jobs job_options iam_first ≡ ok (core_job ∷ iam_job ∷ [])
unfolding new_jobs visit_factory collect_jobs sort_jobs runs_before text_lt Dict.lookup
new_jobs-iam_first = refl

new_jobs-perm_example : new_jobs job_options core_first ≡ ok (core_job ∷ iam_job ∷ [])
unfolding has_key
new_jobs-perm_example =
    new_jobs-perm job_options {fs = iam_first} (Permᴰ.swap refl refl) (refl, (refl, tt))
      new_jobs-iam_first

new_jobs-IsSorted_example :
    IsSorted (core_job ∷ iam_job ∷ [])
    × Permᴰ (core_job ∷ iam_job ∷ []) (built job_options iam_first)
new_jobs-IsSorted_example =
    new_jobs-IsSorted job_options iam_first (core_job ∷ iam_job ∷ []) new_jobs-iam_first

abbrev only_iam : Dict (JobFactory Log (Unit {0}))
only_iam = ("iam", factory "iam" fails) ∷ []

register-core :
    register (factory "core" fails) only_iam ≡ ok (only_iam ++ ("core", factory "core" fails) ∷ [])
unfolding register has_key Dict.insert
register-core = refl

abbrev both : Executor Log
both = record { sorted_jobs = iam_job ∷ core_job ∷ iam_job ∷ []; validators = [] }

run-both :
    run pre_phase both [] ≡ (err (described (failure pre_phase) (message "boom")), "iam" ∷ [])
unfolding run pre_upgrade for_each gated pre_job is_enabled run_validators
run-both = refl

run-err_example :
    (y : Error) × (described (failure pre_phase) (message "boom") ≡ described (failure pre_phase) y)
    × Failed pre_phase (step_of pre_phase) both [] y ("iam" ∷ [])
run-err_example =
    run-err pre_phase both [] ("iam" ∷ []) (described (failure pre_phase) (message "boom")) run-both

run-ok_example : (run pre_phase both [] ≡ (ok tt, "iam" ∷ [])) ↔ (
    Completed pre_phase (step_of pre_phase) both [] ("iam" ∷ [])
    ⊎ Skipped pre_phase (step_of pre_phase) both [] ("iam" ∷ []))
run-ok_example = run-ok pre_phase both [] ("iam" ∷ [])

abbrev museum_config : ExtensionsMuseumConfig
museum_config = record {
  enabled = true;
  namespace = "kubesphere-system";
  name = "extensions-museum";
  sync_interval = pos 60;
  watch_timeout = pos 300;
}

abbrev validators : ValidatorConfig
validators = record { extensions_museum = museum_config; ks_version = record { enabled = true } }

abbrev finds : String → Log → LastRelease × Log
finds version log = (deployed version, log ++ "helm" ∷ [])

abbrev synced : Log → Verdict × Log
synced log = ((true, none), log)

run_other_version_example :
    run pre_phase (executor (finds "v4.1.0") synced validators refl (iam_job ∷ [])) []
    ≡ (ok tt, "helm" ∷ [])
run_other_version_example =
    run_other_version (finds "v4.1.0") synced validators refl pre_phase (iam_job ∷ []) []
      ("helm" ∷ []) "v4.1.0" refl refl refl

abbrev none_deployed : Log → LastRelease × Log
none_deployed log = (unavailable no_deployed_releases, log ++ "helm" ∷ [])

validate_ks_version_iff_example :
    (((validate_ks_version none_deployed validators.ks_version []).0.0 ≡ true)
      ↔ ((validators.ks_version.enabled ≡ false) ⊎ Startable (none_deployed []).0))
    × ((e : Error)
        → ((validate_ks_version none_deployed validators.ks_version []).0.1 ≡ some e) ↔ (
            (validators.ks_version.enabled ≡ true)
            × ((none_deployed []).0 ≡ unavailable e)
            × (¬ (Startable (none_deployed []).0))))
    × ((validate_ks_version none_deployed validators.ks_version []).1
        ≡ (if validators.ks_version.enabled then (none_deployed []).1 else []))
validate_ks_version_iff_example = validate_ks_version_iff none_deployed validators.ks_version []

abbrev read_repository : String → String → Action Log (Option ℤ)
read_repository name namespace log = (ok (some (pos 1000)), log ++ name ∷ [])

abbrev watch_repository : String → String → Action Log (List Event)
watch_repository namespace name log =
    (ok (other_object ∷ repository (some (pos 1990)) (pos 2000) ∷ deadline_exceeded ∷ []), log)

abbrev clock : Log → ℤ
clock log = pos 2000

museum-returns :
    validate_extensions_museum read_repository watch_repository clock museum_config []
    ≡ (some (true, none), "extensions-museum" ∷ [])
unfolding validate_extensions_museum is_synced
museum-returns = refl

validate_extensions_museum_sound_example :
    Judged (Accepted read_repository watch_repository clock museum_config []) (true, none)
validate_extensions_museum_sound_example =
    validate_extensions_museum_sound read_repository watch_repository clock museum_config []
      ("extensions-museum" ∷ []) (true, none) museum-returns

wait_loop_returns_example :
    (wait_loop (pos 60) (other_object ∷ repository none (pos 5) ∷ []) ≡ none)
    × ((after : List Event) (e : Event) (v : Verdict)
        → Settles (pos 60) e v
        → wait_loop (pos 60) ((other_object ∷ repository none (pos 5) ∷ []) ++ e ∷ after) ≡ some v)
wait_loop_returns_example =
    wait_loop_returns (pos 60) (other_object ∷ repository none (pos 5) ∷ [])
      (shows_other, (shows_unsynced, tt))
