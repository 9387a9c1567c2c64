-- ===== src/Jobs/Monitoring/Phases.antt =====
-- pkg/jobs/monitoring/monitoring.go: the phases of the job.
pub mod Laws
use ks_upgrade.Base.{
  String, ◌<>◌, Bool, true, false, if◌then◌else◌, ◌&&◌, Option, none, some, List, [], ◌∷◌, Error,
  Result, is_already_exists,
}
use ks_upgrade.Base.Action.{Action, pure, raise, lift, ◌>>=◌, ◌>>◌, attempt}
use ks_upgrade.Core.{ExtensionRef}
use ks_upgrade.Config.Merge.{Items}
use ks_upgrade.Executor.Job.{UpgradeJob}
use ks_upgrade.Storage.{Bytes, Storage}
use ks_upgrade.Store.{Codec}
use ks_upgrade.Jobs.Objects.{Object, is_set}
use ks_upgrade.Jobs.Done.{unless_done, save_done}
use ks_upgrade.Jobs.Monitoring.Objects.{Resource, stack_resources}
use ks_upgrade.Jobs.Monitoring.Values.{JsonPaths, etcd_trans_paths}
use ks_upgrade.Jobs.Monitoring.Stack.{
  Configuration, for_releases, backup_release, uninstall_release, backup_stack, delete_stack,
}
use ks_upgrade.Jobs.Monitoring.Clusters.{configured_extension}

-- What the job is given, and the clients, codecs and libraries that it calls.
pub record Environment (W Raw Json Kind Untyped Release S : Type 0) : Type 0 where
  pub storage : Storage W
  pub now : W → Bytes
  pub rerun : Bool
  pub update_crds : Bool
  pub extension : Option (ExtensionRef Raw)
  pub get_configuration : Action W Configuration
  pub is_host_cluster : Action W Bool
  pub status : String → Action W Release
  pub marshal_release : Release → Result Bytes
  pub uninstall : String → Action W (Unit {0})
  pub stored : Codec Untyped
  pub kind_for : Resource → Action W Kind
  pub with_kind : Option Kind → Untyped → Untyped
  pub get : Resource → String × String → Action W Untyped
  pub delete : Resource → String × String → Action W (Unit {0})
  -- the definitions of the chart, for a cluster that is a host or not
  pub apply_crds : Bool → Action W (Unit {0})
  pub json : JsonPaths Json
  pub endpoints : String → Items
  pub list_cluster : Action W (List (Object S))
  pub configuration_of : Object S → Action W Configuration
  pub create_plan : ExtensionRef Raw → Action W (Unit {0})
  pub sync_helm_chart : Option (ExtensionRef Raw) → Action W (Unit {0})

module _ {W Raw Json Kind Untyped Release S : Type 0}
    (env : Environment W Raw Json Kind Untyped Release S) where
  unfoldable pub monitoring_pre_steps : Action W (Unit {0})
  unfolding for_releases backup_release backup_stack
  monitoring_pre_steps = env.get_configuration >>= λ nested. env.is_host_cluster >>= λ is_host.
      for_releases nested (backup_release env.storage env.status env.marshal_release) is_host
      >> backup_stack env.storage env.stored env.kind_for env.with_kind env.get stack_resources

  unfoldable pub plan_extension :
      Configuration → Bool → Option (ExtensionRef Raw) → Action W (Unit {0})
  unfolding configured_extension
  plan_extension nested is_host none = pure tt
  plan_extension nested is_host (some extension) =
      if is_host
      then (lift (nested.nested_bool "spec.monitoring.whizard.enabled") >>= λ whizard.
          configured_extension env.json (etcd_trans_paths env.endpoints) whizard nested
            env.configuration_of env.list_cluster extension
          >>= λ configured.
              attempt (env.create_plan configured) pure
                (λ e. if is_already_exists e then pure tt else raise e))
      else pure tt

  unfoldable pub monitoring_post_steps : Action W (Unit {0})
  unfolding for_releases uninstall_release delete_stack plan_extension
  monitoring_post_steps = env.get_configuration >>= λ nested. env.is_host_cluster >>= λ is_host.
      for_releases nested (uninstall_release env.uninstall) is_host
      >> delete_stack env.delete stack_resources
      >> (if env.update_crds && is_set env.extension then env.apply_crds is_host else pure tt)
      >> plan_extension nested is_host env.extension
      >> env.sync_helm_chart env.extension

  unfoldable pub monitoring_pre_upgrade : Action W (Unit {0})
  unfolding unless_done monitoring_pre_steps
  monitoring_pre_upgrade =
      unless_done env.storage env.rerun "whizard-monitoring-done" monitoring_pre_steps

  unfoldable pub monitoring_post_upgrade : Action W (Unit {0})
  unfolding unless_done save_done monitoring_post_steps
  monitoring_post_upgrade =
      unless_done env.storage env.rerun "whizard-monitoring-done"
        (monitoring_post_steps >> save_done env.storage env.now "whizard-monitoring-done")

  -- The job that the factory creates.
  unfoldable pub monitoring_job : UpgradeJob W
  unfolding monitoring_pre_upgrade monitoring_post_upgrade
  monitoring_job = record {
    condition = none;
    prepare_upgrade = none;
    pre_upgrade = monitoring_pre_upgrade;
    post_upgrade = monitoring_post_upgrade;
    dynamic_upgrade = none;
    roll_back = none;
  }
