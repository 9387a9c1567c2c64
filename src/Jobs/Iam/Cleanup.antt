-- ===== src/Jobs/Iam/Cleanup.antt =====
-- What the job removes: role templates, legacy roles and deprecated definitions (`DeleteRoleTemplates`,
-- `DeleteRoleTemplate`, `DeleteLegacyRoles` and `DeleteDeprecatedCrds` of pkg/jobs/iam/iam.go), and
-- the resources of pkg/jobs/iam/kubefed.go. The objects of a deletion are of any type.
pub mod Laws
use ks_upgrade.Base.{
  String, ◌<>◌, ◌≡◌, Bool, true, false, if◌then◌else◌, not, List, [], ◌∷◌, Option, none, some,
  Error, message, described, Result, ok, err, panic, of_error, new_aggregate, is_not_found, ◌==◌,
}
use ks_upgrade.Base.Action.{Action, pure, raise, lift, ◌>>=◌, ◌>>◌, continue, on_result, attempt}
use ks_upgrade.Base.Dict
use ks_upgrade.Base.Loops.{aggregated, each, gather}
use ks_upgrade.Jobs.Iam.Cluster.{Client, Crd, CrdClient, delete_object_with_finalizer}
use ks_upgrade.Jobs.Iam.Convert.{entries}
use ks_upgrade.Jobs.Iam.Filters.{creator}
use ks_upgrade.Jobs.Iam.Objects.{
  ObjectMeta, resource_role, resource_cluster_role, resource_workspace_role, resource_global_role,
  resource_role_base, resource_user, resource_group, resource_group_binding, resource_workspace,
  resource_global_role_binding, resource_workspace_role_binding, resource_cluster_role_binding,
}

module _ {W Obj : Type 0} (client : Client W Obj) where
  -- `DeleteRoleTemplate`. `list` gives the objects of a resource that have the label of a role
  -- template.
  unfoldable pub delete_role_template :
      (String → Action W (List Obj)) → String → Action W (Unit {0})
  delete_role_template list resource = list resource >>= λ items.
      gather (λ o e. described "failed to delete resource" e) (delete_object_with_finalizer client)
        items
      >>= λ errors. aggregated errors

  unfoldable pub delete_role_templates : (String → Action W (List Obj)) → Action W (Unit {0})
  unfolding delete_role_template
  delete_role_templates list =
      each (delete_role_template list) (
        resource_role ∷ resource_cluster_role ∷ resource_workspace_role ∷ resource_global_role ∷ [])

  -- The loop body of `DeleteLegacyRoles`; a role that nobody is named as the creator of is kept.
  unfoldable pub delete_legacy_role : (Obj → ObjectMeta) → Obj → Action W (Unit {0})
  delete_legacy_role meta role_object =
      elim (Dict.lookup creator (entries (meta role_object).annotations)) [
        | none ↦ pure tt
        | some name ↦
            if name == "" then pure tt else delete_object_with_finalizer client role_object
      ]

  unfoldable pub delete_legacy_roles :
      (Obj → ObjectMeta) → Action W (List Obj) → Action W (Unit {0})
  unfolding delete_legacy_role
  delete_legacy_roles meta list = list >>= λ items. each (delete_legacy_role meta) items

  -- `DeleteDeprecatedCrds`, for a resource of which the object helper knows a type for version 3.
  -- The error of the deletion of the definition is added to a list that is not read again.
  unfoldable pub delete_definition : CrdClient W → Crd → Action W (Unit {0})
  delete_definition crds crd = attempt (crds.delete_crd crd) pure (λ e. pure tt)

  unfoldable pub delete_crd_objects :
      CrdClient W → (String → Action W (List Obj)) → String → Crd → Action W (Unit {0})
  unfolding delete_definition
  delete_crd_objects crds list name crd =
      attempt (list name)
        (λ items.
          gather (λ o e. described "failed to delete object" e)
            (delete_object_with_finalizer client) items
          >>= λ errors. elim errors [
            | e ∷ es ↦ aggregated (e ∷ es)
            | [] ↦ delete_definition crds crd
          ])
        (λ e. raise (described ("failed to list resource: " <> name) e))

  unfoldable pub delete_deprecated_crd :
      CrdClient W → (String → Action W (List Obj)) → (String → Bool) → String → Action W (Unit {0})
  unfolding delete_crd_objects
  delete_deprecated_crd crds list known name =
      if not (known name)
      then pure tt
      else attempt (crds.get_crd name) (λ crd. delete_crd_objects crds list name crd)
          λ e.
            if is_not_found e then pure tt else raise (described ("failed to get crd " <> name) e)

  unfoldable pub delete_deprecated_crds :
      CrdClient W → (String → Action W (List Obj)) → (String → Bool) → Action W (Unit {0})
  unfolding delete_deprecated_crd
  delete_deprecated_crds crds list known =
      each (delete_deprecated_crd crds list known) (resource_role_base ∷ [])
