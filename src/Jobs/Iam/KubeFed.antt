-- ===== src/Jobs/Iam/KubeFed.antt =====
-- pkg/jobs/iam/kubefed.go: the resources of the federation, which version 4 has none of.
pub mod Laws
use ks_upgrade.Base.{
  ℕ, String, if◌then◌else◌, eqb, List, [], ◌∷◌, ◌++◌, Error, described, ok, panic, is_not_found,
}
use ks_upgrade.Base.Action.{Action, pure, raise, lift, ◌>>=◌, attempt}
use ks_upgrade.Base.Loops.{each}
use ks_upgrade.Base.Loops.{aggregated}
use ks_upgrade.Jobs.Iam.Cluster.{Client, Crd, CrdClient, delete_object_with_finalizer}
use ks_upgrade.Jobs.Iam.Objects.{
  resource_cluster_role, resource_user, resource_group, resource_group_binding,
  resource_global_role, resource_workspace, resource_workspace_role, resource_global_role_binding,
  resource_workspace_role_binding, resource_cluster_role_binding,
}

abbrev pub kube_fed_resource : List String
kube_fed_resource =
    "federatedusers.iam.kubesphere.io" ∷ "federatedrolebindings.iam.kubesphere.io"
    ∷ "federatedroles.iam.kubesphere.io" ∷ "federatedusers.types.kubefed.io"
    ∷ "federatedclusterroles.types.kubefed.io" ∷ "federatedgroupbindings.types.kubefed.io"
    ∷ "federatedglobalroles.types.kubefed.io" ∷ "federatedworkspaces.types.kubefed.io"
    ∷ "federatedglobalrolebindings.types.kubefed.io"
    ∷ "federatedworkspacerolebindings.types.kubefed.io"
    ∷ "federatedclusterrolebindings.types.kubefed.io" ∷ "federatedworkspaceroles.types.kubefed.io"
    ∷ "federatedgroups.types.kubefed.io" ∷ []

abbrev pub kube_fed_configs : List String
kube_fed_configs =
    resource_cluster_role ∷ resource_user ∷ resource_group ∷ resource_group_binding
    ∷ resource_global_role ∷ resource_workspace ∷ resource_workspace_role
    ∷ resource_global_role_binding ∷ resource_workspace_role_binding ∷ resource_cluster_role_binding
    ∷ []

-- What the removal calls, beside the deletion of objects: the namespace and the controller of the
-- federation, a federated type configuration by its name, the objects of a group, a stored
-- version and a list kind, and the number of pods of the controller.
pub record KubeFed (W Obj : Type 0) : Type 0 where
  pub get_namespace : Action W (Unit {0})
  pub get_deployment : Action W (Unit {0})
  pub set_replicas : ℕ → Action W (Unit {0})
  pub list_pods : Action W ℕ
  pub get_config : String → Action W Obj
  pub list : String → String → String → Action W (List Obj)

module _ {W Obj : Type 0} (fed : KubeFed W Obj) (client : Client W Obj) (crds : CrdClient W) where
  -- One round of `wait.Until` for each element of `rounds`, which the timeout of 30 seconds bounds;
  -- an error of a round is only logged.
  unfoldable pub wait_scaled : ℕ → List (Unit {0}) → Action W (Unit {0})
  wait_scaled replicas [] w = (ok tt, w)
  wait_scaled replicas (t ∷ rounds) w =
      attempt fed.list_pods
        (λ pods. if eqb pods replicas then pure tt else wait_scaled replicas rounds)
        (λ e. wait_scaled replicas rounds) w

  unfoldable pub scale_deployment : ℕ → List (Unit {0}) → Action W (Unit {0})
  unfolding wait_scaled
  scale_deployment replicas rounds =
      attempt fed.get_deployment
        (λ _.
          attempt (fed.set_replicas replicas) (λ _. wait_scaled replicas rounds)
            (λ e. raise (described "scale failed" e)))
        (λ e. raise (described "scale failed" e))

  -- The loop of `deleteKubeFedConfig`: an error of a `Get` is gathered, one of a deletion returned.
  unfoldable pub delete_kube_fed_configs : List String → List Error → Action W (Unit {0})
  delete_kube_fed_configs [] errors w = aggregated errors w
  delete_kube_fed_configs (name ∷ names) errors w =
      attempt (fed.get_config name)
        (λ o. delete_object_with_finalizer client o >>= λ _. delete_kube_fed_configs names errors)
        (λ e.
          if is_not_found e
          then delete_kube_fed_configs names errors
          else delete_kube_fed_configs names (errors ++ e ∷ []))
        w

  -- The loop body of `deleteKubeFedCrds`, from the stored versions of the definition: without one
  -- it is a panic.
  unfoldable pub delete_stored : Crd → List String → Action W (Unit {0})
  delete_stored crd [] w = (panic, w)
  delete_stored crd (version ∷ versions) w =
      (fed.list crd.group version crd.list_kind >>= λ items.
      each (delete_object_with_finalizer client) items >>= λ _.
      attempt (crds.delete_crd crd) pure (λ e. if is_not_found e then pure tt else raise e))
        w

  unfoldable pub delete_found_crd : Crd → Action W (Unit {0})
  unfolding delete_stored
  delete_found_crd crd = delete_stored crd crd.stored_versions

  unfoldable pub delete_kube_fed_crd : String → Action W (Unit {0})
  unfolding delete_found_crd
  delete_kube_fed_crd name =
      attempt (crds.get_crd name) delete_found_crd
        (λ e. if is_not_found e then pure tt else raise e)

  -- The controller is scaled down where it is found.
  unfoldable pub scaled_down : List (Unit {0}) → Action W (Unit {0})
  unfolding scale_deployment
  scaled_down rounds =
      attempt fed.get_deployment (λ _. scale_deployment 0 rounds)
        (λ e. if is_not_found e then pure tt else raise e)

  unfoldable pub remove_configs : Action W (Unit {0})
  unfolding delete_kube_fed_configs
  remove_configs =
      attempt (crds.get_crd "federatedtypeconfigs.core.kubefed.io")
        (λ _. delete_kube_fed_configs kube_fed_configs [])
        (λ e. if is_not_found e then pure tt else raise e)

  -- `RemoveKubeFedResources`
  unfoldable pub remove_kube_fed_resources : List (Unit {0}) → Action W (Unit {0})
  unfolding scaled_down remove_configs delete_kube_fed_crd
  remove_kube_fed_resources rounds =
      attempt fed.get_namespace
        (λ _. scaled_down rounds >>= λ _.
          remove_configs >>= λ _. each delete_kube_fed_crd kube_fed_resource)
        (λ e. if is_not_found e then pure tt else raise e)
