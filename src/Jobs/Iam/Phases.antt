-- ===== src/Jobs/Iam/Phases.antt =====
-- The phases of the job: `PrepareUpgrade`, `PreUpgrade` and `PostUpgrade` of pkg/jobs/iam/iam.go, over
-- their steps, which Jobs.Iam.Wiring puts together.
pub mod Laws
use ks_upgrade.Base.{
  String, ◌≡◌, ℤ, Bool, true, List, Option, none, some, ◌∷◌, [], Error, described, Result, ok, err,
  panic, message,
}
use ks_upgrade.Base.Action.{Action, pure, raise, ◌>>=◌, ◌>>◌, continue, on_result, attempt}
use ks_upgrade.Base.Dict.{Dict}
use ks_upgrade.Storage.{Storage}
use ks_upgrade.Store.{Codec}
use ks_upgrade.Executor.Job.{UpgradeJob}
use ks_upgrade.Jobs.Iam.ObjectHelper.{Reference, MultiVersion, register}
use ks_upgrade.Jobs.Iam.Objects.{
  resource_role, resource_role_binding, resource_cluster_role, resource_cluster_role_binding,
}
use ks_upgrade.Jobs.Iam.Status.{UpgradeStatus, staged}

-- The steps, of which each closes over the clients of the job. Those that read the object helper
-- of the job take it.
pub record Steps (W : Type 0) : Type 0 where
  pub fix_helm_managed_resource_annotations : Action W (Unit {0})
  pub fix_conflict_resources : Action W (Unit {0})
  pub new_object_helper : Action W (Dict MultiVersion)
  pub store_object : Action W (Unit {0})
  pub data_migration : Dict MultiVersion → Action W (Unit {0})
  pub delete_role_templates : Dict MultiVersion → Action W (Unit {0})
  pub delete_legacy_roles : Action W (Unit {0})
  pub remove_kube_fed_resources : Action W (Unit {0})
  pub migrate_identity_providers : Action W (Unit {0})
  pub default_custom_roles : Action W (Unit {0})
  pub update_user_global_role_annotation : Action W (Unit {0})
  pub delete_deprecated_crds : Dict MultiVersion → Action W (Unit {0})

abbrev pub told : {W : Type 0} → String → Action W (Unit {0}) → Action W (Unit {0})
told text m = attempt m pure (λ e. raise (described text e))

-- The references of the built-in resources, which have no version of their own for version 4.
abbrev pub builtin : Option Reference
builtin = some (record { version = "v1"; known = true })

unfoldable pub with_builtin : Dict MultiVersion → Dict MultiVersion
unfolding register
with_builtin helper = register resource_cluster_role_binding builtin none (
    register resource_cluster_role builtin none
      (register resource_role_binding builtin none (register resource_role builtin none helper)))

module _ {W : Type 0} (s : Storage W) (json : Codec UpgradeStatus) (now : W → ℤ)
    (steps : Steps W) where
  unfoldable pub prepare_upgrade : Action W (Unit {0})
  unfolding staged
  prepare_upgrade = staged s json now "prepare-upgrade" (
      told "failed to fix helm managed resource annotation"
        steps.fix_helm_managed_resource_annotations
      >> told "failed to fix conflict resources" steps.fix_conflict_resources)

  unfoldable pub pre_upgrade : Action W (Unit {0})
  unfolding staged with_builtin
  pre_upgrade = staged s json now "pre-upgrade" (
      steps.new_object_helper >>= λ helper.
      steps.store_object
      >> steps.data_migration (with_builtin helper)
      >> steps.delete_role_templates (with_builtin helper)
      >> steps.delete_legacy_roles
      >> steps.remove_kube_fed_resources
      >> steps.migrate_identity_providers)

  unfoldable pub post_upgrade : Action W (Unit {0})
  unfolding staged with_builtin
  post_upgrade = staged s json now "post-upgrade" (
      steps.new_object_helper >>= λ helper.
      steps.default_custom_roles
      >> told "failed to update user global role annotation"
          steps.update_user_global_role_annotation
      >> steps.delete_deprecated_crds (with_builtin helper))

  -- The job, as the executor knows it: it has no condition, no dynamic upgrade and no rollback.
  unfoldable pub upgrade_job : UpgradeJob W
  unfolding prepare_upgrade pre_upgrade post_upgrade
  upgrade_job = record {
    condition = none;
    prepare_upgrade = some prepare_upgrade;
    pre_upgrade = pre_upgrade;
    post_upgrade = post_upgrade;
    dynamic_upgrade = none;
    roll_back = none;
  }
