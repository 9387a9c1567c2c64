-- ===== src/Jobs/Iam/Wiring.antt =====
-- `upgradeJob` of pkg/jobs/iam/iam.go: the steps of its phases, from what the job has of the cluster.
use ks_upgrade.Base.{ℕ, String, ℤ, List, [], ◌∷◌, Result}
use ks_upgrade.Base.Action.{Action}
use ks_upgrade.Base.Dict.{Dict}
use ks_upgrade.Executor.Job.{UpgradeJob}
use ks_upgrade.Storage.{Storage}
use ks_upgrade.Store.{Codec}
use ks_upgrade.Jobs.Iam.Cleanup.{delete_role_templates, delete_legacy_roles, delete_deprecated_crds}
use ks_upgrade.Jobs.Iam.Cluster.{Client, CrdClient}
use ks_upgrade.Jobs.Iam.Filters.{store_options}
use ks_upgrade.Jobs.Iam.Helm.{
  Managed, Release, fix_helm_managed_resource_annotations, fix_conflict_resources,
}
use ks_upgrade.Jobs.Iam.KubeFed.{KubeFed, remove_kube_fed_resources}
use ks_upgrade.Jobs.Iam.Migration.{store_object, data_migration}
use ks_upgrade.Jobs.Iam.ObjectHelper.{Reference, object, new_object_helper}
use ks_upgrade.Jobs.Iam.Objects.{
  ObjectMeta, Binding, User, NewRole, OldObject, NewObject, user, global_role, workspace_role, role,
  cluster_role, global_role_binding, workspace_role_binding, role_binding, cluster_role_binding,
  login_record, workspace, workspace_template, other, resource_user, resource_role_base,
  resource_role, resource_workspace_role, resource_workspace_role_binding, resource_global_role,
  resource_global_role_binding, resource_login_record, resource_group, resource_group_binding,
  resource_workspace, resource_workspace_template,
}
use ks_upgrade.Jobs.Iam.Phases.{Steps, upgrade_job}
use ks_upgrade.Jobs.Iam.Providers.{IdentityProvider, Secret, migrate_identity_providers}
use ks_upgrade.Jobs.Iam.Roles.{default_custom_roles, update_user_global_role_annotation}
use ks_upgrade.Jobs.Iam.Snapshot.{TimestampedData}
use ks_upgrade.Jobs.Iam.Status.{UpgradeStatus}

-- The resources that the object helper asks for.
abbrev pub resources : List String
resources =
    resource_user ∷ resource_role_base ∷ resource_workspace_role ∷ resource_workspace_role_binding
    ∷ resource_global_role ∷ resource_global_role_binding ∷ resource_login_record ∷ resource_group
    ∷ resource_group_binding ∷ resource_workspace ∷ resource_workspace_template ∷ []

-- `GetAnnotations` and the like.
unfoldable pub meta_of : {Raw : Type 0} → OldObject Raw → ObjectMeta
meta_of (user u) = u.meta
meta_of (global_role r) = r.meta
meta_of (workspace_role r) = r.meta
meta_of (role r) = r.meta
meta_of (cluster_role r) = r.meta
meta_of (global_role_binding b) = b.meta
meta_of (workspace_role_binding b) = b.meta
meta_of (role_binding b) = b.meta
meta_of (cluster_role_binding b) = b.meta
meta_of (login_record r) = r.meta
meta_of (workspace w) = w.meta
meta_of (workspace_template t) = t.meta
meta_of (other m) = m

-- What the job has: its store and clients, with the codecs, the clock and the libraries that it
-- calls. `Untyped` is the type of the objects of the federation.
pub record Environment (W Raw Untyped : Type 0) : Type 0 where
  pub storage : Storage W
  pub now : W → ℤ
  pub statuses : Codec UpgradeStatus
  pub snapshots : Codec (List TimestampedData)
  -- the codec of the lists of a resource, in the version that a reference has
  pub lists : String → Reference → Codec (List (OldObject Raw))
  -- the codec of the lists that are stored
  pub stored_lists : String → Codec (List (OldObject Raw))
  pub client_v3 : Client W (OldObject Raw)
  pub client_v4 : Client W (NewObject Raw)
  pub crds_v3 : CrdClient W
  pub crds_v4 : CrdClient W
  pub scheme_v3 : String → String → String → Result (Unit {0})
  pub scheme_v4 : String → String → String → Result (Unit {0})
  pub list_v3 : String → Action W (List (OldObject Raw))
  -- the objects of a resource, in a version, that have the label of a role template
  pub list_templates : String → Reference → Action W (List (OldObject Raw))
  -- the objects of a resource in a version
  pub list_version : String → Reference → Action W (List (OldObject Raw))
  pub list_roles : String → Action W (List (NewRole Raw))
  pub update_role : String → NewRole Raw → Action W (Unit {0})
  pub list_users : Action W (List (User Raw))
  pub update_user : User Raw → Action W (Unit {0})
  pub bindings_of : String → Action W (List Binding)
  pub managed : Client W Managed
  pub create_or_update : Managed → (Managed → Managed) → Action W (Unit {0})
  pub list_releases : Action W (List Release)
  pub update_release : Release → Action W (Unit {0})
  pub to_yaml : Managed → String
  pub size : String → ℕ
  pub federation : KubeFed W Untyped
  pub untyped : Client W Untyped
  pub rounds : List (Unit {0})
  pub to_lower : String → String
  pub marshal_provider : IdentityProvider Raw → Result String
  pub get_data : String → String → Action W (Dict String)
  pub unmarshal_providers : String → Result (List (IdentityProvider Raw))
  pub write_secret : Secret → (Secret → Secret) → Action W (Unit {0})

module _ {W Raw Untyped : Type 0} (env : Environment W Raw Untyped) where
  unfoldable pub steps : Steps W
  unfolding store_object data_migration delete_role_templates delete_legacy_roles
      delete_deprecated_crds remove_kube_fed_resources migrate_identity_providers
      default_custom_roles update_user_global_role_annotation fix_helm_managed_resource_annotations
      fix_conflict_resources new_object_helper object meta_of store_options
  steps = record {
    fix_helm_managed_resource_annotations = fix_helm_managed_resource_annotations env.managed;
    fix_conflict_resources =
        fix_conflict_resources env.create_or_update env.list_releases env.update_release env.to_yaml
          env.size;
    new_object_helper =
        new_object_helper env.crds_v3.get_crd env.scheme_v3 env.scheme_v4 resources [];
    store_object =
        store_object env.storage env.now env.snapshots env.stored_lists env.list_v3 store_options;
    data_migration = λ helper.
        data_migration env.storage env.snapshots (λ r. env.lists r (object helper r).v3) env.crds_v4
          env.client_v4 (λ r. (object helper r).v4.version);
    delete_role_templates = λ helper.
        delete_role_templates env.client_v3 (λ r. env.list_templates r (object helper r).v3);
    delete_legacy_roles = delete_legacy_roles env.client_v3 meta_of (env.list_v3 resource_role);
    remove_kube_fed_resources =
        remove_kube_fed_resources env.federation env.untyped env.crds_v3 env.rounds;
    migrate_identity_providers =
        migrate_identity_providers env.to_lower env.marshal_provider env.get_data
          env.unmarshal_providers env.write_secret;
    default_custom_roles = default_custom_roles env.list_roles env.update_role;
    update_user_global_role_annotation =
        update_user_global_role_annotation env.bindings_of env.update_user env.list_users;
    delete_deprecated_crds = λ helper.
        delete_deprecated_crds env.client_v3 env.crds_v4
          (λ r. env.list_version r (object helper r).v3) (λ r. (object helper r).v3.known);
  }

  -- The job that the factory creates.
  unfoldable pub iam_job : UpgradeJob W
  unfolding steps upgrade_job
  iam_job = upgrade_job env.storage env.statuses env.now steps
