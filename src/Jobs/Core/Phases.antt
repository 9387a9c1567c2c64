-- ===== src/Jobs/Core/Phases.antt =====
-- pkg/jobs/core/core.go: the phases of the job, over their steps.
pub mod Laws
use ks_upgrade.Base.{String, Bool, true, none, some, Result, described}
use ks_upgrade.Base.Action.{Action, pure, raise, ◌>>=◌, ◌>>◌, attempt}
use ks_upgrade.Executor.Job.{UpgradeJob}

-- The methods that the phases call, one behind the other.
pub record Steps (W : Type 0) : Type 0 where
  pub scale_down_deployments : Action W (Unit {0})
  pub remove_namespace_owner_reference : Action W (Unit {0})
  pub delete_kube_sphere_webhook : Action W (Unit {0})
  pub refresh_host_cluster_kube_config : Action W (Unit {0})
  pub network_prepare_upgrade : Action W (Unit {0})
  pub patch_system_workspace_template : Action W (Unit {0})
  pub delete_system_workspace_template_in_member_cluster : Action W (Unit {0})
  pub validate_cluster_role : Action W (Unit {0})
  pub patch_upgrade_job_pv : Action W (Unit {0})
  pub backup_kube_sphere_config : Action W (Unit {0})
  pub update_member_clusters : Action W (Unit {0})
  pub delete_kube_sphere_resource : Action W (Unit {0})
  pub update_namespace_labels : Action W (Unit {0})
  pub update_workspace_placement : Action W (Unit {0})
  pub patch_workspace_templates : Action W (Unit {0})
  pub recover_kube_sphere_webhook : Action W (Unit {0})
  pub recover_kube_sphere_resource : Action W (Unit {0})

-- A step whose error gets a message of its own.
abbrev pub labelled : {W : Type 0} → String → Action W (Unit {0}) → Action W (Unit {0})
labelled text m = attempt m pure (λ e. raise (described text e))

module _ {W : Type 0} (steps : Steps W) where
  unfoldable pub prepare_upgrade : Action W (Unit {0})
  prepare_upgrade =
      labelled "failed to scale down deployments" steps.scale_down_deployments
      >> labelled "failed to remove namespace owner reference"
          steps.remove_namespace_owner_reference
      >> labelled "failed to delete kubesphere webhook" steps.delete_kube_sphere_webhook
      >> labelled "failed to refresh host cluster kubeconfig" steps.refresh_host_cluster_kube_config
      >> labelled "failed to prepare upgrade network" steps.network_prepare_upgrade
      >> labelled "failed to patch system workspace template" steps.patch_system_workspace_template
      >> labelled "failed to delete system workspace template in member cluster"
          steps.delete_system_workspace_template_in_member_cluster

  unfoldable pub pre_upgrade : Action W (Unit {0})
  pre_upgrade =
      labelled "failed to validate cluster role" steps.validate_cluster_role
      >> steps.patch_upgrade_job_pv
      >> labelled "failed to backup kubesphere config" steps.backup_kube_sphere_config
      >> steps.update_member_clusters
      >> steps.delete_kube_sphere_resource
      >> steps.update_namespace_labels
      >> steps.update_workspace_placement

  unfoldable pub post_upgrade : Action W (Unit {0})
  post_upgrade = labelled "failed to patch workspace templates" steps.patch_workspace_templates

  unfoldable pub roll_back : Action W (Unit {0})
  roll_back = steps.recover_kube_sphere_webhook >> steps.recover_kube_sphere_resource

  -- The job is always enabled, and its dynamic upgrade does nothing yet.
  unfoldable pub core_upgrade_job : UpgradeJob W
  unfolding prepare_upgrade pre_upgrade post_upgrade roll_back
  core_upgrade_job = record {
    condition = some (pure true);
    prepare_upgrade = some prepare_upgrade;
    pre_upgrade = pre_upgrade;
    post_upgrade = post_upgrade;
    dynamic_upgrade = some (pure tt);
    roll_back = some roll_back;
  }
