-- ===== src/Jobs/Core/Wiring.antt =====
-- pkg/jobs/core/core.go: the job that the factory creates, with its steps.
use ks_upgrade.Jobs.Objects.{Object, Api}
use ks_upgrade.Base.{String, ℤ, Bool, Option, List, Result}
use ks_upgrade.Base.Action.{Action}
use ks_upgrade.Base.Dict.{Dict}
use ks_upgrade.Config.Merge.{Fields}
use ks_upgrade.Core.{is_host_cluster}
use ks_upgrade.Executor.Job.{UpgradeJob}
use ks_upgrade.Storage.{Bytes, Storage}
use ks_upgrade.Store.{Codec, RestClient}
use ks_upgrade.Jobs.Core.Objects.{Webhook, Deployment, ClusterCondition, TemplatePlacement}
use ks_upgrade.Jobs.Core.Backup.{
  delete_kube_sphere_webhook, recover_kube_sphere_webhook, delete_kube_sphere_resource,
  recover_kube_sphere_resource,
}
use ks_upgrade.Jobs.Core.Namespaces.{remove_namespace_owner_reference, update_namespace_labels}
use ks_upgrade.Jobs.Core.Workspaces.{
  patch_workspace_templates, patch_system_workspace_template, validate_cluster_role,
  delete_system_workspace_template_in_member_cluster, is_single_cluster, update_workspace_placement,
}
use ks_upgrade.Jobs.Core.Clusters.{update_member_clusters, refresh_host_cluster_kube_config}
use ks_upgrade.Jobs.Core.Prepare.{
  StoredList, scale_down_deployments, network_prepare_upgrade, patch_upgrade_job_pv,
  backup_kube_sphere_config,
}
use ks_upgrade.Jobs.Core.Phases.{Steps, core_upgrade_job}

-- What the job is given, and the clients, codecs and libraries that it calls.
pub record Environment (W Raw Untyped RawConfig : Type 0) : Type 0 where
  pub storage : Storage W
  pub now : W → ℤ
  -- the readings of the clock for the two conditions of a cluster
  pub condition_times : W → (ℤ × ℤ) × (ℤ × ℤ)
  pub options : Fields
  pub get_config_map : Action W (Dict String)
  pub unmarshal : String → Result Fields
  pub marshal : Fields → Result Bytes
  pub poll_immediate : Action W Bool → Action W (Unit {0})
  pub rest : RestClient W RawConfig
  pub list_cluster : Action W (List (Object Bytes))
  pub stored_clusters : Codec (List (Object Bytes))
  pub stored_validating : Codec (List (Object (List Webhook)))
  pub stored_mutating : Codec (List (Object (List Webhook)))
  pub stored_deployments : Codec (List (Object Deployment))
  -- the lists of workspaces and of their templates, in the order of the map
  pub stored_lists : List (StoredList W Untyped)
  pub validating : Api W (List Webhook)
  pub mutating : Api W (List Webhook)
  -- the deployments of the namespace kubesphere-system
  pub deployments : Api W Deployment
  pub namespaces : Api W (Unit {0})
  -- the namespaces with the label of a workspace
  pub list_labelled : Action W (List (Object (Unit {0})))
  pub crds : Api W (Unit {0})
  pub workspaces : Api W (Option Bool)
  pub templates_v3 : Api W (TemplatePlacement Raw)
  pub templates_v4 : Api W String
  pub delete_orphaning : Object (TemplatePlacement Raw) → Action W (Unit {0})
  pub secrets : Api W (Dict String)
  pub clusters_v3 : Api W Bytes
  pub clusters_v4 : Api W (List ClusterCondition)
  pub jobs : Api W (Option (List (Option String)))
  pub claims : Api W String
  pub volumes : Api W String

module _ {W Raw Untyped RawConfig : Type 0} (env : Environment W Raw Untyped RawConfig) where
  abbrev host : Action W Bool
  host = is_host_cluster env.get_config_map env.unmarshal

  unfoldable pub core_steps : Steps W
  unfolding is_host_cluster scale_down_deployments remove_namespace_owner_reference
      delete_kube_sphere_webhook refresh_host_cluster_kube_config network_prepare_upgrade
      patch_system_workspace_template delete_system_workspace_template_in_member_cluster
      validate_cluster_role patch_upgrade_job_pv backup_kube_sphere_config update_member_clusters
      delete_kube_sphere_resource update_namespace_labels update_workspace_placement
      is_single_cluster patch_workspace_templates recover_kube_sphere_webhook
      recover_kube_sphere_resource
  core_steps = record {
    scale_down_deployments = scale_down_deployments env.deployments env.poll_immediate;
    remove_namespace_owner_reference = remove_namespace_owner_reference env.namespaces;
    delete_kube_sphere_webhook =
        delete_kube_sphere_webhook env.storage env.stored_validating env.stored_mutating
          env.validating env.mutating env.now;
    refresh_host_cluster_kube_config =
        refresh_host_cluster_kube_config env.rest env.secrets env.clusters_v3 env.storage
          env.stored_clusters host env.list_cluster;
    network_prepare_upgrade =
        network_prepare_upgrade env.crds env.workspaces env.storage env.stored_lists;
    patch_system_workspace_template =
        patch_system_workspace_template env.templates_v3 env.templates_v4;
    delete_system_workspace_template_in_member_cluster =
        delete_system_workspace_template_in_member_cluster env.workspaces env.templates_v3
          env.delete_orphaning host;
    validate_cluster_role = validate_cluster_role env.templates_v3 env.templates_v4 host;
    patch_upgrade_job_pv = patch_upgrade_job_pv env.jobs env.claims env.volumes;
    backup_kube_sphere_config =
        backup_kube_sphere_config env.storage env.get_config_map env.unmarshal env.marshal;
    update_member_clusters = update_member_clusters env.clusters_v4 env.condition_times;
    delete_kube_sphere_resource =
        delete_kube_sphere_resource env.storage env.stored_deployments env.deployments env.now;
    update_namespace_labels = update_namespace_labels env.namespaces env.list_labelled;
    update_workspace_placement =
        update_workspace_placement env.templates_v3
          (is_single_cluster env.get_config_map env.unmarshal) env.options;
    patch_workspace_templates = patch_workspace_templates env.templates_v4;
    recover_kube_sphere_webhook =
        recover_kube_sphere_webhook env.storage env.stored_validating env.stored_mutating
          env.validating env.mutating;
    recover_kube_sphere_resource =
        recover_kube_sphere_resource env.storage env.stored_deployments env.deployments;
  }

  -- The job that the factory creates.
  unfoldable pub core_job : UpgradeJob W
  unfolding core_steps core_upgrade_job
  core_job = core_upgrade_job core_steps
