-- ===== src/Jobs/Logging.antt =====
-- pkg/jobs/logging/logging.go: the release of the log sidecar is removed, and the extension is
-- installed on the clusters that had logging, with the sidecar where it was enabled.
use ks_upgrade.Base.{
  String, Bool, true, if◌then◌else◌, Option, none, some, List, [], ◌∷◌, Result, ok, and_then,
  is_release_not_found,
}
use ks_upgrade.Base.Action.{Action, pure, raise, lift, ◌>>=◌, ◌>>◌, attempt}
use ks_upgrade.Base.Dict
use ks_upgrade.Base.Dict.{Dict}
use ks_upgrade.Config.Merge.{Value, flag}
use ks_upgrade.Core.{ExtensionRef}
use ks_upgrade.Executor.Job.{UpgradeJob}
use ks_upgrade.Storage.{Bytes, Storage}
use ks_upgrade.Store.{save_raw}
use ks_upgrade.Jobs.Objects.{Object, is_host_cluster_object}
use ks_upgrade.Jobs.Done.{unless_done, save_done}
use ks_upgrade.Jobs.Plans.{Flags, logged_extension, unless_exists}
use ks_upgrade.Jobs.Monitoring.Values.{JsonPaths}
use ks_upgrade.Jobs.Monitoring.Clusters.{or_empty}

pub record PathValue : Type 0 where
  pub path : String
  pub value : Value

-- What the job is given, and the clients and libraries that it calls. `true_text` is the text "true".
pub record LoggingClients (W Raw Json S : Type 0) : Type 0 where
  pub storage : Storage W
  pub now : W → Bytes
  pub rerun : Bool
  pub extension : Option (ExtensionRef Raw)
  pub true_text : Bytes
  pub get_flags : Action W Flags
  pub uninstall : String → String → Action W (Unit {0})
  pub is_host_cluster : Action W Bool
  pub list_cluster : Action W (List (Object S))
  pub flags_of : Object S → Action W Flags
  pub create_plan : ExtensionRef Raw → Action W (Unit {0})
  pub json : JsonPaths Json

module _ {Json : Type 0} (paths : JsonPaths Json) where
  unfoldable pub set_paths : List PathValue → Json → Result Json
  set_paths [] j = ok j
  set_paths (v ∷ values) j = and_then (paths.set_path j v.path (some v.value)) (set_paths values)

  unfoldable pub set_yaml_values : String → List PathValue → Result String
  unfolding set_paths
  set_yaml_values text values =
      and_then (paths.from_yaml text) λ j. and_then (set_paths values j) paths.to_yaml

-- What the loop over the clusters has gathered.
pub record LoggingScheduling : Type 0 where
  pub clusters : List String
  pub overrides : Dict String

module _ {W Raw Json S : Type 0} (env : LoggingClients W Raw Json S) where
  unfoldable pub sidecar_override : String → Dict String → Result (Dict String)
  unfolding set_yaml_values
  sidecar_override name overrides =
      and_then
        (set_yaml_values env.json (or_empty (Dict.lookup name overrides))
          (record { path = "logsidecar-injector.enabled"; value = flag true } ∷ []))
        λ text. ok (Dict.insert name text overrides)

  -- One round of the loop over the clusters, with the overrides so far.
  unfoldable pub logging_clusters :
      Flags → List (Object S) → Dict String → Action W LoggingScheduling
  unfolding sidecar_override
  logging_clusters own [] overrides w = (ok (record { clusters = []; overrides = overrides }), w)
  logging_clusters own (o ∷ items) overrides w =
      ((if is_host_cluster_object o then pure own else env.flags_of o) >>= λ flags.
      lift (flags "spec.logging.enabled") >>= λ logging.
      lift (flags "spec.logging.logsidecar.enabled") >>= λ sidecar.
      lift (if sidecar then sidecar_override o.meta.name overrides else ok overrides)
      >>= λ overrides'. logging_clusters own items overrides' >>= λ s.
          pure (if logging then record s { clusters = o.meta.name ∷ s.clusters } else s))
        w

  unfoldable pub logging_extension : Flags → ExtensionRef Raw → Action W (ExtensionRef Raw)
  unfolding logging_clusters
  logging_extension own extension = elim extension.cluster_scheduling [
    | some scheduling ↦ pure extension
    | none ↦ env.list_cluster >>= λ items. logging_clusters own items [] >>= λ s.
        pure (record extension {
          cluster_scheduling = some (record {
            placement = some (record { clusters = s.clusters; cluster_selector = none });
            overrides = s.overrides;
          });
        })
  ]

  unfoldable pub create_logging_plan : ExtensionRef Raw → Action W (Unit {0})
  unfolding logging_extension
  create_logging_plan extension = env.get_flags >>= λ own.
      logging_extension own extension >>= λ scheduled. unless_exists (env.create_plan scheduled)

  -- That the sidecar was enabled is kept, and its release is uninstalled.
  unfoldable pub remove_sidecar : Flags → Action W (Unit {0})
  unfolding save_raw
  remove_sidecar flags = remove (flags "spec.logging.logsidecar.enabled")
    where
      remove : Result Bool → Action W (Unit {0})
      remove (ok true) =
          save_raw env.storage "logging_logsidecar_enabled" env.true_text
          >> attempt (env.uninstall "kubesphere-logging-system" "logsidecar-injector") pure
              (λ e. if is_release_not_found e then pure tt else raise e)
      remove _ = pure tt

  unfoldable pub logging_post_steps : Action W (Unit {0})
  unfolding remove_sidecar create_logging_plan
  logging_post_steps = env.get_flags >>= λ flags.
      remove_sidecar flags
      >> (logged_extension env.extension >>= λ extension. env.is_host_cluster >>= λ is_host.
          if is_host then create_logging_plan extension else pure tt)

  unfoldable pub logging_pre_upgrade : Action W (Unit {0})
  unfolding unless_done
  logging_pre_upgrade = unless_done env.storage env.rerun "whizard-logging-done" (pure tt)

  unfoldable pub logging_post_upgrade : Action W (Unit {0})
  unfolding unless_done save_done logging_post_steps
  logging_post_upgrade =
      unless_done env.storage env.rerun "whizard-logging-done"
        (logging_post_steps >> save_done env.storage env.now "whizard-logging-done")

  -- The job that the factory creates.
  unfoldable pub logging_job : UpgradeJob W
  unfolding logging_pre_upgrade logging_post_upgrade
  logging_job = record {
    condition = none;
    prepare_upgrade = none;
    pre_upgrade = logging_pre_upgrade;
    post_upgrade = logging_post_upgrade;
    dynamic_upgrade = none;
    roll_back = none;
  }
